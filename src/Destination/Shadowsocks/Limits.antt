-- ===== src/Destination/Shadowsocks/Limits.antt =====
-- How much `decrypt` of client/destination/shadowsocks.go consumes and returns.
use gforward.Prelude.{
  ℕ, zero, suc, ◌+◌, ◌<◌, ◌≤◌, ◌≡◌, ◌≢◌, refl, not, ◌&&◌, ◌||◌, Option, none, some, List, [], ◌++◌,
  length, take, drop, ltb, ◌==◌, ok, err, be_u16, arith, length-append, length-take, length-drop,
  Bool-cases, Option-cases, inl, inr,
}
use gforward.Destination.Shadowsocks.{
  Aead, IsAead, Crypto, SsAead, SsState, out_of_fuel, Opened, Decrypted, increment, max_chunk_size,
  chunk_need, open_loop, on_pay_len, open_from, in_session, decrypt, decrypt_with, new_aead, zeros,
}
use gforward.Destination.Shadowsocks.RoundTrip.{IsCrypto}

-- What is known of a result: it is no want of fuel, its plaintext is within the limit, if Q, and it
-- counts bytes of `rem`; and it counts some if it has plaintext that was not there before.
abbrev IsOpened : Type 0 → ℕ → ℕ → ℕ → ℕ → Opened → Type 0
IsOpened Q limit before len consumed (err e) = e ≢ out_of_fuel
IsOpened Q limit before len consumed (ok (nonce, out, n)) =
    (Q → length out ≤ limit)
    × (consumed ≤ n)
    × (n ≤ consumed + len)
    × (before ≤ length out)
    × (before < length out → consumed < n)

-- The payload chunk has as many bytes as its length says.
pub pay_length :
    (a : Aead) (nonce rem pay : List ℕ) (n : ℕ)
    → IsAead a
    → chunk_need a n ≤ length rem
    → a.unseal nonce (drop (2 + a.overhead) (take (chunk_need a n) rem)) ≡ some pay
    → length pay ≡ n
pay_length a nonce rem pay n laws le e = omega (
  arith,
  laws.length-unseal nonce (drop (2 + a.overhead) (take (chunk_need a n) rem)) pay e,
  length-drop (2 + a.overhead) (take (chunk_need a n) rem),
  length-take (chunk_need a n) rem,
)

widen :
    (Q : Type 0) (limit before before' len len' consumed consumed' : ℕ) (r : Opened)
    → consumed < consumed'
    → consumed' + len' ≤ consumed + len
    → before ≤ before'
    → IsOpened Q limit before' len' consumed' r
    → IsOpened Q limit before len consumed r
widen Q limit before before' len len' consumed consumed' (err e) a b c h = h
widen Q limit before before' len len' consumed consumed' (ok (nonce, out, n)) a b c h =
    (h.0, omega (arith, h.1), omega (arith, h.2), omega (arith, h.3), λ lt. omega (arith, h.1))

-- A payload chunk behind a good length chunk, if the rest of the loop is as expected.
on_pay_len-IsOpened :
    (Q : Type 0) (a : Aead) (limit : ℕ) (nonce rem out : List ℕ) (consumed n : ℕ)
    (again : List ℕ → List ℕ → Opened)
    → (Q → IsAead a)
    → max_chunk_size ≤ limit
    → (Q → length out ≤ limit)
    → ((nonce' pay : List ℕ)
        → (Q → length out + length pay ≤ limit)
        → chunk_need a n ≤ length rem
        → IsOpened Q limit
            (length (out ++ pay))
            (length (drop (chunk_need a n) rem))
            (consumed + chunk_need a n)
            (again nonce' pay))
    → IsOpened Q limit
        (length out)
        (length rem)
        consumed
        (on_pay_len a limit nonce rem out n (ok (nonce, out, consumed)) again)
on_pay_len-IsOpened Q a limit nonce rem out consumed n again laws big fits next =
    elim (Bool-cases (n == 0 || ltb max_chunk_size n)) [
      | inl bad ↦ rw bad (λ e. cc)
      | inr good ↦ rw good (elim (Bool-cases (ltb (length rem) (chunk_need a n))) [
        | inl short ↦ rw short stays
        | inr whole ↦
            rw whole (elim (Bool-cases (not (length out == 0) && ltb limit (length out + n))) [
              | inl full ↦ rw full stays
              | inr room ↦
                  rw room
                    (elim (Option-cases (
                      a.unseal (increment nonce)
                        (drop (2 + a.overhead) (take (chunk_need a n) rem)))) [
                          | inl refused ↦ rw refused (λ e. cc)
                          | inr (pay, opened) ↦
                              let there : chunk_need a n ≤ length rem = ground (arith, whole) in
                              let within : Q → length out + length pay ≤ limit = λ q.
                                let size =
                                  pay_length a (increment nonce) rem pay n (laws q) there opened in
                                ground (arith, good, room, size, big, fits q) in
                              rw opened (
                                widen Q limit (length out) (length (out ++ pay)) (length rem)
                                  (length (drop (chunk_need a n) rem)) consumed
                                  (consumed + chunk_need a n)
                                  (again (increment (increment nonce)) pay) (omega arith)
                                  (omega (arith, length-drop (chunk_need a n) rem, there))
                                  (omega (arith, length-append out pay))
                                  (next (increment (increment nonce)) pay within there))
                        ])
            ])
      ])
    ]
  where
    stays : IsOpened Q limit (length out) (length rem) consumed (ok (nonce, out, consumed))
    stays = (fits, omega arith, omega arith, omega arith, λ h. absurd (omega arith))

open_loop-IsOpened :
    (Q : Type 0) (fuel : ℕ) (a : Aead) (limit : ℕ) (nonce rem out : List ℕ) (consumed : ℕ)
    → (Q → IsAead a)
    → max_chunk_size ≤ limit
    → (Q → length out ≤ limit)
    → length rem < fuel
    → IsOpened Q limit
        (length out)
        (length rem)
        consumed
        (open_loop fuel a limit nonce rem out consumed)
unfolding open_loop
open_loop-IsOpened Q zero a limit nonce rem out consumed laws big fits lt = absurd (omega arith)
open_loop-IsOpened Q (suc fuel) a limit nonce rem out consumed laws big fits lt =
    elim (Bool-cases (ltb (length rem) (2 + a.overhead))) [
      | inl short ↦
          rw short (fits, omega arith, omega arith, omega arith, λ h. absurd (omega arith))
      | inr long ↦ rw long (elim (Option-cases (a.unseal nonce (take (2 + a.overhead) rem))) [
        | inl bad ↦ rw bad (λ e. cc)
        | inr (plain, opened) ↦
            let n = be_u16 plain 0 in
            let need = chunk_need a n in
            rw opened (
              on_pay_len-IsOpened Q a limit nonce rem out consumed n
                (λ nonce' pay.
                  open_loop fuel a limit nonce' (drop need rem) (out ++ pay) (consumed + need))
                laws big fits
                (λ nonce' pay within there.
                  open_loop-IsOpened Q fuel a limit nonce' (drop need rem) (out ++ pay)
                    (consumed + need) laws big (λ q. omega (arith, length-append out pay, within q))
                    (omega (arith, length-drop need rem, there, lt))))
      ])
    ]

-- What is known of a result of `decrypt` on so many bytes.
abbrev pub IsCounted : Type 0 → ℕ → ℕ → Decrypted → Type 0
IsCounted Q limit len (err e) = e ≢ out_of_fuel
IsCounted Q limit len (ok (d, plain, n)) =
    (Q → length plain ≤ limit) × (n ≤ len) × (0 < length plain → 0 < n)

in_session-IsCounted :
    (Q : Type 0) (a : Aead) (limit len consumed total : ℕ) (r : Opened)
    → consumed + len ≤ total
    → IsOpened Q limit 0 len consumed r
    → IsCounted Q limit total (in_session a r)
in_session-IsCounted Q a limit len consumed total (err e) le h = h
in_session-IsCounted Q a limit len consumed total (ok (nonce, out, n)) le h =
    (h.0, omega (arith, h.2, le), λ lt. omega (arith, h.4 lt))

open_from-IsCounted :
    (Q : Type 0) (a : Aead) (limit : ℕ) (nonce rem : List ℕ) (consumed total : ℕ)
    → (Q → IsAead a)
    → max_chunk_size ≤ limit
    → consumed + length rem ≤ total
    → IsCounted Q limit total (open_from a limit nonce rem consumed)
unfolding open_from
open_from-IsCounted Q a limit nonce rem consumed total laws big le =
    in_session-IsCounted Q a limit (length rem) consumed total
      (open_loop (suc (length rem)) a limit nonce rem [] consumed) le
      (open_loop-IsOpened Q (suc (length rem)) a limit nonce rem [] consumed laws big
        (λ q. omega arith) (omega arith))

-- A direction whose session, if it has begun, has a proper AEAD.
abbrev pub IsSound : SsState → Type 0
IsSound d = (a : Aead) → d.aead ≡ some a → IsAead a

decrypt_with-IsCounted :
    (Q : Type 0) (crypto : Crypto) (c : SsAead) (d : SsState) (src : List ℕ) (limit : ℕ)
    (session : Option Aead)
    → max_chunk_size ≤ limit
    → (Q → IsCrypto crypto c)
    → ((a : Aead) → session ≡ some a → Q → IsAead a)
    → IsCounted Q limit (length src) (decrypt_with crypto c d src limit session)
decrypt_with-IsCounted Q crypto c d src limit (some a) big laws sound =
    open_from-IsCounted Q a limit d.nonce src 0 (length src) (sound a refl) big (omega arith)
decrypt_with-IsCounted Q crypto c d src limit none big laws sound =
    elim (Bool-cases (ltb (length src) c.salt_len)) [
      | inl short ↦ rw short (λ q. omega arith, omega arith, λ h. absurd (omega arith))
      | inr long ↦ rw long (elim (Option-cases (new_aead crypto c (take c.salt_len src))) [
        | inl refused ↦ rw refused (λ e. cc)
        | inr (a, derived) ↦
            let there : c.salt_len ≤ length src = ground (arith, long) in
            rw derived (
              open_from-IsCounted Q a limit (zeros a.nonce_size) (drop c.salt_len src) c.salt_len
                (length src) (λ q. (laws q).sessions (take c.salt_len src) a derived) big
                (omega (arith, length-drop c.salt_len src, there)))
      ])
    ]

pub decrypt-IsCounted :
    (crypto : Crypto) (c : SsAead) (d : SsState) (src : List ℕ) (limit : ℕ)
    → max_chunk_size ≤ limit
    → IsCounted (IsCrypto crypto c × IsSound d) limit (length src) (decrypt crypto c d src limit)
unfolding decrypt
decrypt-IsCounted crypto c d src limit big =
    decrypt_with-IsCounted (IsCrypto crypto c × IsSound d) crypto c d src limit d.aead big
      (λ q. q.0) (λ a e q. q.1 a e)

-- The result of `decrypt` without a hypothesis left.
abbrev pub IsMeasured : ℕ → ℕ → Decrypted → Type 0
IsMeasured limit len (err e) = e ≢ out_of_fuel
IsMeasured limit len (ok (d, plain, n)) =
    (length plain ≤ limit) × (n ≤ len) × (0 < length plain → 0 < n)

counted-IsMeasured :
    (Q : Type 0) (limit len : ℕ) (r : Decrypted)
    → Q
    → IsCounted Q limit len r
    → IsMeasured limit len r
counted-IsMeasured Q limit len (err e) q h = h
counted-IsMeasured Q limit len (ok (d, plain, n)) q h = (h.0 q, h.1, h.2)

-- With a limit of a chunk at least, `decrypt` never runs out of fuel; if it succeeds, the plaintext
-- is within the limit, no more bytes are consumed than are there, and a byte at least is consumed
-- if there is plaintext.
pub decrypt-IsMeasured :
    (crypto : Crypto) (c : SsAead) (d : SsState) (src : List ℕ) (limit : ℕ)
    → IsCrypto crypto c
    → IsSound d
    → max_chunk_size ≤ limit
    → IsMeasured limit (length src) (decrypt crypto c d src limit)
decrypt-IsMeasured crypto c d src limit laws sound big =
    counted-IsMeasured (IsCrypto crypto c × IsSound d) limit (length src)
      (decrypt crypto c d src limit) (laws, sound) (decrypt-IsCounted crypto c d src limit big)

-- The loop of `decrypt` ends, whatever the cryptography does.
pub decrypt-ne-out_of_fuel :
    (crypto : Crypto) (c : SsAead) (d : SsState) (src : List ℕ) (limit : ℕ)
    → max_chunk_size ≤ limit
    → decrypt crypto c d src limit ≢ err out_of_fuel
decrypt-ne-out_of_fuel crypto c d src limit big e =
    let h = decrypt-IsCounted crypto c d src limit big in
    let h' : IsCounted (IsCrypto crypto c × IsSound d) limit (length src) (err out_of_fuel) =
      rw e at h in
    h' refl
