-- ===== src/Destination/Shadowsocks/Splits.antt =====
-- `decrypt` of client/destination/shadowsocks.go on bytes that come in parts.
use gforward.Prelude.{
  ℕ, zero, suc, ◌+◌, ◌<◌, ◌≤◌, ◌≡◌, ◌≢◌, refl, ap, sym, ◌∙◌, false, not, ◌&&◌, ◌||◌, none, some,
  List, [], ◌∷◌, ◌++◌, length, take, drop, ltb, ◌==◌, ok, err, be_u16, arith, length-append,
  length-drop, drop_short, append_assoc, append-nil, Bool-cases, Option-cases, inl, inr,
}
use gforward.Destination.Shadowsocks.{
  Aead, IsAead, SsError, Opened, increment, max_chunk_size, chunk_need, open_loop, on_pay_len,
}
use gforward.Destination.Shadowsocks.Limits.{pay_length}
use gforward.Destination.Shadowsocks.Parts.{
  Piece, sized, next_piece, behind, on_piece, open_all, IsWithin, next_piece-IsWithin,
  next_piece-append,
}

drop_empty : (n : ℕ) → drop {A = ℕ} n [] ≡ []
drop_empty zero = refl
drop_empty (suc n) = refl

pub drop-drop : (n k : ℕ) (xs : List ℕ) → drop k (drop n xs) ≡ drop (n + k) xs
drop-drop zero k xs = let e : k ≡ zero + k = omega arith in ap (λ j. drop j xs) e
drop-drop (suc n) k [] = drop_empty k ∙ sym (drop_empty (suc n + k))
drop-drop (suc n) k (x ∷ xs) =
    let e : suc (n + k) ≡ suc n + k = omega arith in drop-drop n k xs ∙ ap (λ j. drop j (x ∷ xs)) e

pub behind_nil : (r : Opened) → behind [] 0 r ≡ r
behind_nil (err e) = refl
behind_nil (ok (nonce, plain, k)) =
    let e : 0 + k ≡ k = omega arith in ap (λ j. ok (nonce, plain, j)) e

behind-behind :
    (out pay : List ℕ) (n k : ℕ) (r : Opened)
    → behind out n (behind pay k r) ≡ behind (out ++ pay) (n + k) r
behind-behind out pay n k (err e) = refl
behind-behind out pay n k (ok (nonce, plain, j)) =
    let e : n + (k + j) ≡ n + k + j = omega arith in rw (append_assoc out pay plain, e) refl

on_piece_cong :
    (nonce : List ℕ) (p : Piece) (f g : ℕ → Opened)
    → ((pay : List ℕ) (need : ℕ) → p ≡ ok (some (pay, need)) → f need ≡ g need)
    → on_piece nonce p f ≡ on_piece nonce p g
on_piece_cong nonce (err e) f g h = refl
on_piece_cong nonce (ok none) f g h = refl
on_piece_cong nonce (ok (some (pay, need))) f g h = ap (behind pay need) (h pay need refl)

within :
    (a : Aead) (nonce rem pay : List ℕ) (need : ℕ)
    → IsAead a
    → next_piece a nonce rem ≡ ok (some (pay, need))
    → (0 < need) × (need ≤ length rem) × (length pay ≤ need)
within a nonce rem pay need laws e =
    let h : IsWithin (length rem) (next_piece a nonce rem) = next_piece-IsWithin a nonce rem laws in
    rw e at h

-- More fuel than bytes is enough.
open_all_fuel :
    (f g : ℕ) (a : Aead) (nonce rem : List ℕ)
    → IsAead a
    → length rem < f
    → length rem < g
    → open_all f a nonce rem ≡ open_all g a nonce rem
unfolding open_all
open_all_fuel zero g a nonce rem laws x y = absurd (omega arith)
open_all_fuel (suc f) zero a nonce rem laws x y = absurd (omega arith)
open_all_fuel (suc f) (suc g) a nonce rem laws x y =
    on_piece_cong nonce (next_piece a nonce rem) _ _ (λ pay need e.
      let (lo, le, fits) = within a nonce rem pay need laws e in
      open_all_fuel f g a (increment (increment nonce)) (drop need rem) laws
        (omega (arith, length-drop need rem)) (omega (arith, length-drop need rem)))

-- Where the walk stops, it goes on over more bytes.
abbrev pub continue : Aead → List ℕ → List ℕ → Opened → Opened
continue a rem later (err e) = err e
continue a rem later (ok (nonce, plain, n)) =
    behind plain n (open_all (suc (length (drop n rem ++ later))) a nonce (drop n rem ++ later))

continue-behind :
    (a : Aead) (rem later pay : List ℕ) (need : ℕ) (r : Opened)
    → behind pay need (continue a (drop need rem) later r)
      ≡ continue a rem later (behind pay need r)
continue-behind a rem later pay need (err e) = refl
continue-behind a rem later pay need (ok (nonce, plain, k)) =
    rw (behind-behind pay plain need k, drop-drop need k rem) refl

not_waiting : (x : List ℕ × ℕ) (p : Piece) → p ≡ ok (some x) → p ≢ ok none
not_waiting x p e bad = cc

no_failure : (x : SsError) (p : Piece) → p ≡ err x → p ≢ ok none
no_failure x p e bad = cc

pub open_all-append :
    (fuel more : ℕ) (a : Aead) (nonce rem later : List ℕ) (p : Piece)
    → IsAead a
    → next_piece a nonce rem ≡ p
    → length rem < fuel
    → length (rem ++ later) < more
    → open_all more a nonce (rem ++ later) ≡ continue a rem later (open_all fuel a nonce rem)
unfolding open_all
open_all-append zero more a nonce rem later p laws e x y = absurd (omega arith)
open_all-append (suc fuel) zero a nonce rem later p laws e x y = absurd (omega arith)
open_all-append (suc fuel) (suc more) a nonce rem later (err bad) laws e x y =
    rw (next_piece-append a nonce rem later (no_failure bad (next_piece a nonce rem) e), e) refl
open_all-append (suc fuel) (suc more) a nonce rem later (ok none) laws e x y = rw e (
    open_all_fuel (suc more) (suc (length (rem ++ later))) a nonce (rem ++ later) laws y
      (omega arith)
    ∙ sym (behind_nil (open_all (suc (length (rem ++ later))) a nonce (rem ++ later))))
open_all-append (suc fuel) (suc more) a nonce rem later (ok (some (pay, need))) laws e x y =
    let (lo, le, fits) = within a nonce rem pay need laws e in
    let next = increment (increment nonce) in
    let ih =
      open_all-append fuel more a next (drop need rem) later (next_piece a next (drop need rem))
        laws refl (omega (arith, length-drop need rem))
        (omega (
          arith,
          length-drop need rem,
          length-append (drop need rem) later,
          length-append rem later,
        )) in
    rw
      (
        next_piece-append a nonce rem later (not_waiting (pay, need) (next_piece a nonce rem) e),
        e,
        drop_short need rem later le,
      )
      (ap (behind pay need) ih
        ∙ continue-behind a rem later pay need (open_all fuel a next (drop need rem)))

-- As long as the limit allows all bytes, the loop is the walk.
pub open_loop-open_all :
    (fuel : ℕ) (a : Aead) (limit : ℕ) (nonce rem out : List ℕ) (consumed : ℕ)
    → IsAead a
    → length out + length rem ≤ limit
    → open_loop fuel a limit nonce rem out consumed
      ≡ behind out consumed (open_all fuel a nonce rem)
unfolding open_loop open_all next_piece
open_loop-open_all zero a limit nonce rem out consumed laws fits = refl
open_loop-open_all (suc fuel) a limit nonce rem out consumed laws fits =
    elim (Bool-cases (ltb (length rem) (2 + a.overhead))) [
      | inl short ↦ rw short stays
      | inr long ↦ rw long (elim (Option-cases (a.unseal nonce (take (2 + a.overhead) rem))) [
        | inl bad ↦ rw bad refl
        | inr (plain, opened) ↦ rw opened (
            of_size (be_u16 plain 0) (λ nonce' pay le.
              open_loop-open_all fuel a limit nonce' (drop (chunk_need a (be_u16 plain 0)) rem)
                (out ++ pay) (consumed + chunk_need a (be_u16 plain 0)) laws le))
      ])
    ]
  where
    stays : ok (nonce, out, consumed) ≡ behind out consumed (ok (nonce, [], 0))
    stays =
        let e : consumed ≡ consumed + 0 = omega arith in
        rw (append-nil out) (ap (λ k. ok (nonce, out, k)) e)

    of_size :
        (n : ℕ)
        → ((nonce' pay : List ℕ)
            → length (out ++ pay) + length (drop (chunk_need a n) rem) ≤ limit
            → open_loop fuel a limit nonce'
                (drop (chunk_need a n) rem)
                (out ++ pay)
                (consumed + chunk_need a n)
              ≡ behind
                  (out ++ pay)
                  (consumed + chunk_need a n)
                  (open_all fuel a nonce' (drop (chunk_need a n) rem)))
        → on_pay_len a limit nonce rem out n (ok (nonce, out, consumed)) (λ nonce' pay.
          open_loop fuel a limit nonce'
            (drop (chunk_need a n) rem)
            (out ++ pay)
            (consumed + chunk_need a n))
          ≡ behind out consumed (
              on_piece nonce
                (sized a nonce rem n)
                (λ need. open_all fuel a (increment (increment nonce)) (drop need rem)))
    of_size n ih = elim (Bool-cases (n == 0 || ltb max_chunk_size n)) [
      | inl bad ↦ rw bad refl
      | inr good ↦ elim (Bool-cases (ltb (length rem) (chunk_need a n))) [
        | inl short ↦ rw (good, short) stays
        | inr whole ↦
            let there : chunk_need a n ≤ length rem = ground (arith, whole) in
            let room : (not (length out == 0) && ltb limit (length out + n)) ≡ false =
              ground (arith, fits, there) in
            rw (good, whole, room)
              (elim (Option-cases
                (a.unseal (increment nonce) (drop (2 + a.overhead) (take (chunk_need a n) rem)))) [
                  | inl refused ↦ rw refused refl
                  | inr (pay, opened) ↦
                      let size = pay_length a (increment nonce) rem pay n laws there opened in
                      rw opened (
                        ih (increment (increment nonce)) pay (
                          omega (
                            arith,
                            length-append out pay,
                            length-drop (chunk_need a n) rem,
                            size,
                            there,
                            fits,
                          ))
                        ∙ sym (
                            behind-behind out pay consumed (chunk_need a n) (
                              open_all fuel a (increment (increment nonce))
                                (drop (chunk_need a n) rem))))
                ])
      ]
    ]
