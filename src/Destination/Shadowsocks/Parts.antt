-- ===== src/Destination/Shadowsocks/Parts.antt =====
-- The loop of `decrypt` in client/destination/shadowsocks.go as a walk over whole pieces, without
-- the limit on the plaintext.
use gforward.Prelude.{
  ℕ, zero, suc, ◌+◌, ◌<◌, ◌≤◌, ◌≡◌, ◌≢◌, refl, false, ◌||◌, Option, none, some, List, [], ◌++◌,
  length, take, drop, ltb, ◌==◌, if◌then◌else◌, Result, ok, err, be_u16, arith, length-append,
  take_short, Bool-cases, Option-cases, inl, inr,
}
use gforward.Destination.Shadowsocks.{
  Aead, IsAead, SsError, out_of_fuel, bad_length_chunk, bad_payload_chunk, bad_chunk_length, Opened,
  increment, max_chunk_size, chunk_need,
}
use gforward.Destination.Shadowsocks.Limits.{pay_length}

-- The first piece of `rem`: an error, not there yet, or its plaintext and its length.
abbrev pub Piece : Type 0
Piece = Result SsError (Option (List ℕ × ℕ))

abbrev pub on_body : Option (List ℕ) → ℕ → Piece
on_body none need = err bad_payload_chunk
on_body (some pay) need = ok (some (pay, need))

abbrev pub sized : Aead → List ℕ → List ℕ → ℕ → Piece
sized a nonce rem n =
    let need = chunk_need a n in
    if n == 0 || ltb max_chunk_size n
    then err bad_chunk_length
    else if ltb (length rem) need
    then ok none
    else on_body (a.unseal (increment nonce) (drop (2 + a.overhead) (take need rem))) need

abbrev pub on_size : Aead → List ℕ → List ℕ → Option (List ℕ) → Piece
on_size a nonce rem none = err bad_length_chunk
on_size a nonce rem (some plain) = sized a nonce rem (be_u16 plain 0)

unfoldable pub next_piece : Aead → List ℕ → List ℕ → Piece
next_piece a nonce rem =
    if ltb (length rem) (2 + a.overhead)
    then ok none
    else on_size a nonce rem (a.unseal nonce (take (2 + a.overhead) rem))

-- A result behind a plaintext and a number of bytes.
abbrev pub behind : List ℕ → ℕ → Opened → Opened
behind out n (err e) = err e
behind out n (ok (nonce, plain, k)) = ok (nonce, out ++ plain, n + k)

abbrev pub on_piece : List ℕ → Piece → (ℕ → Opened) → Opened
on_piece nonce (err e) again = err e
on_piece nonce (ok none) again = ok (nonce, [], 0)
on_piece nonce (ok (some (pay, need))) again = behind pay need (again need)

-- All whole pieces of `rem`.
unfoldable pub open_all : ℕ → Aead → List ℕ → List ℕ → Opened
open_all zero a nonce rem = err out_of_fuel
open_all (suc fuel) a nonce rem =
    on_piece nonce (next_piece a nonce rem)
      (λ need. open_all fuel a (increment (increment nonce)) (drop need rem))

-- What is known of a piece that is there.
abbrev pub IsWithin : ℕ → Piece → Type 0
IsWithin len (err e) = Unit
IsWithin len (ok none) = Unit
IsWithin len (ok (some (pay, need))) = (0 < need) × (need ≤ len) × (length pay ≤ need)

pub next_piece-IsWithin :
    (a : Aead) (nonce rem : List ℕ) → IsAead a → IsWithin (length rem) (next_piece a nonce rem)
unfolding next_piece
next_piece-IsWithin a nonce rem laws = elim (Bool-cases (ltb (length rem) (2 + a.overhead))) [
  | inl short ↦ rw short tt
  | inr long ↦ rw long (elim (Option-cases (a.unseal nonce (take (2 + a.overhead) rem))) [
    | inl bad ↦ rw bad tt
    | inr (plain, opened) ↦ rw opened (of_size (be_u16 plain 0))
  ])
]
  where
    of_size : (n : ℕ) → IsWithin (length rem) (sized a nonce rem n)
    of_size n = elim (Bool-cases (n == 0 || ltb max_chunk_size n)) [
      | inl bad ↦ rw bad tt
      | inr good ↦ rw good (elim (Bool-cases (ltb (length rem) (chunk_need a n))) [
        | inl short ↦ rw short tt
        | inr whole ↦
            rw whole
              (elim (Option-cases
                (a.unseal (increment nonce) (drop (2 + a.overhead) (take (chunk_need a n) rem)))) [
                  | inl refused ↦ rw refused tt
                  | inr (pay, opened) ↦
                      let there : chunk_need a n ≤ length rem = ground (arith, whole) in
                      let size = pay_length a (increment nonce) rem pay n laws there opened in
                      rw opened (omega arith, there, omega (arith, size))
                ])
      ])
    ]

-- Bytes behind a piece change nothing, once the piece is there or bad.
pub next_piece-append :
    (a : Aead) (nonce rem later : List ℕ)
    → next_piece a nonce rem ≢ ok none
    → next_piece a nonce (rem ++ later) ≡ next_piece a nonce rem
unfolding next_piece
next_piece-append a nonce rem later there = elim (Bool-cases (ltb (length rem) (2 + a.overhead))) [
  | inl short ↦ absurd (there (rw short refl))
  | inr long ↦
      let size = length-append rem later in
      let longer : ltb (length (rem ++ later)) (2 + a.overhead) ≡ false =
        ground (arith, long, size) in
      let first = take_short (2 + a.overhead) rem later (ground (arith, long)) in
      rw (longer, long, first)
        (elim (Option-cases (a.unseal nonce (take (2 + a.overhead) rem))) [
          | inl bad ↦ rw bad refl
          | inr (plain, opened) ↦
              let there' = rw (long, opened) at there in rw opened (of_size (be_u16 plain 0) there')
        ])
]
  where
    of_size :
        (n : ℕ)
        → sized a nonce rem n ≢ ok none
        → sized a nonce (rem ++ later) n ≡ sized a nonce rem n
    of_size n more = elim (Bool-cases (n == 0 || ltb max_chunk_size n)) [
      | inl bad ↦ rw bad refl
      | inr good ↦ elim (Bool-cases (ltb (length rem) (chunk_need a n))) [
        | inl short ↦ absurd (more (rw (good, short) refl))
        | inr whole ↦
            let size = length-append rem later in
            let longer : ltb (length (rem ++ later)) (chunk_need a n) ≡ false =
              ground (arith, whole, size) in
            let same = take_short (chunk_need a n) rem later (ground (arith, whole)) in
            rw (good, longer, whole, same) refl
      ]
    ]
