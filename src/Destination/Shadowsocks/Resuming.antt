-- ===== src/Destination/Shadowsocks/Resuming.antt =====
-- `decrypt` of client/destination/shadowsocks.go goes on where it stopped.
use gforward.Prelude.{
  ℕ, suc, ◌+◌, ◌≤◌, ◌≡◌, refl, ap, sym, ◌∙◌, false, Option, none, some, List, [], ◌++◌, length,
  take, drop, ltb, ok, err, arith, length-append, length-drop, take_short, drop_short, Bool-cases,
  Option-cases, inl, inr,
}
use gforward.Destination.Shadowsocks.{
  Aead, IsAead, Crypto, SsAead, SsState, Opened, Decrypted, zeros, open_from, in_session, decrypt,
  decrypt_with, new_aead,
}
use gforward.Destination.Shadowsocks.RoundTrip.{IsCrypto}
use gforward.Destination.Shadowsocks.Limits.{IsSound}
use gforward.Destination.Shadowsocks.Parts.{next_piece, behind, open_all}
use gforward.Destination.Shadowsocks.Splits.{
  drop-drop, continue, open_all-append, open_loop-open_all,
}

-- A result behind a plaintext and a number of bytes.
abbrev pub decrypted_behind : List ℕ → ℕ → Decrypted → Decrypted
decrypted_behind out n (err e) = err e
decrypted_behind out n (ok (d, plain, k)) = ok (d, out ++ plain, n + k)

-- What `decrypt` comes to on `src` and then, with what it has left of `src`, on `later`.
abbrev pub resume : Crypto → SsAead → List ℕ → List ℕ → ℕ → Decrypted → Decrypted
resume crypto c src later limit (err e) = err e
resume crypto c src later limit (ok (d, plain, n)) =
    decrypted_behind plain n (decrypt crypto c d (drop n src ++ later) limit)

open_from_lem :
    (a : Aead) (limit : ℕ) (nonce rem : List ℕ) (consumed : ℕ)
    → IsAead a
    → length rem ≤ limit
    → open_from a limit nonce rem consumed
      ≡ in_session a (behind [] consumed (open_all (suc (length rem)) a nonce rem))
unfolding open_from
open_from_lem a limit nonce rem consumed laws fits =
    ap (in_session a) (
      open_loop-open_all (suc (length rem)) a limit nonce rem [] consumed laws
        (omega (arith, fits)))

in_session-behind :
    (a : Aead) (out : List ℕ) (n k : ℕ) (r : Opened)
    → in_session a (behind [] n (behind out k r))
      ≡ decrypted_behind out (n + k) (in_session a (behind [] 0 r))
in_session-behind a out n k (err e) = refl
in_session-behind a out n k (ok (nonce, plain, j)) =
    let e : n + (k + j) ≡ n + k + (0 + j) = omega arith in
    ap (λ i. ok (record { aead = some a; nonce = nonce }, out ++ plain, i)) e

-- The walk resumed, as `decrypt` in a session resumed.
resumed :
    (crypto : Crypto) (c : SsAead) (a : Aead) (limit : ℕ) (src rem later : List ℕ) (consumed : ℕ)
    (r : Opened)
    → IsAead a
    → drop consumed src ≡ rem
    → length (rem ++ later) ≤ limit
    → in_session a (behind [] consumed (continue a rem later r))
      ≡ resume crypto c src later limit (in_session a (behind [] consumed r))
unfolding decrypt
resumed crypto c a limit src rem later consumed (err e) laws at fits = refl
resumed crypto c a limit src rem later consumed (ok (nonce, plain, n)) laws at fits =
    let rest = drop n rem ++ later in
    let same : drop (consumed + n) src ≡ drop n rem =
      sym (drop-drop consumed n src) ∙ ap (drop n) at in
    let fits' : length rest ≤ limit =
      omega (
        arith,
        length-append (drop n rem) later,
        length-append rem later,
        length-drop n rem,
        fits,
      ) in
    rw (same, open_from_lem a limit nonce rest 0 laws fits')
      (in_session-behind a plain consumed n (open_all (suc (length rest)) a nonce rest))

open_from-append :
    (crypto : Crypto) (c : SsAead) (a : Aead) (limit : ℕ) (nonce src rem later : List ℕ)
    (consumed : ℕ)
    → IsAead a
    → drop consumed src ≡ rem
    → length (rem ++ later) ≤ limit
    → open_from a limit nonce (rem ++ later) consumed
      ≡ resume crypto c src later limit (open_from a limit nonce rem consumed)
open_from-append crypto c a limit nonce src rem later consumed laws at fits =
    let shorter : length rem ≤ limit = omega (arith, length-append rem later, fits) in
    rw
      (
        open_from_lem a limit nonce (rem ++ later) consumed laws fits,
        open_from_lem a limit nonce rem consumed laws shorter,
        open_all-append (suc (length rem)) (suc (length (rem ++ later))) a nonce rem later
            (next_piece a nonce rem) laws refl (omega arith) (omega arith),
      )
      (resumed crypto c a limit src rem later consumed (open_all (suc (length rem)) a nonce rem)
        laws at fits)

decrypted_behind_nil : (r : Decrypted) → r ≡ decrypted_behind [] 0 r
decrypted_behind_nil (err e) = refl
decrypted_behind_nil (ok (d, plain, k)) =
    let e : k ≡ 0 + k = omega arith in ap (λ j. ok (d, plain, j)) e

salt-append :
    (crypto : Crypto) (c : SsAead) (d : SsState) (src later : List ℕ) (limit : ℕ)
    → IsCrypto crypto c
    → length (src ++ later) ≤ limit
    → d.aead ≡ none
    → decrypt_with crypto c d (src ++ later) limit none
      ≡ resume crypto c src later limit (decrypt_with crypto c d src limit none)
unfolding decrypt
salt-append crypto c d src later limit laws fits unsalted =
    elim (Bool-cases (ltb (length src) c.salt_len)) [
      | inl short ↦ rw short (
          ap (decrypt_with crypto c d (src ++ later) limit) (sym unsalted)
          ∙ decrypted_behind_nil (decrypt crypto c d (src ++ later) limit))
      | inr long ↦
          let size = length-append src later in
          let whole : c.salt_len ≤ length src = ground (arith, long) in
          let longer : ltb (length (src ++ later)) c.salt_len ≡ false =
            ground (arith, long, size) in
          rw (longer, long, take_short c.salt_len src later whole)
            (elim (Option-cases (new_aead crypto c (take c.salt_len src))) [
              | inl refused ↦ rw refused refl
              | inr (a, derived) ↦
                  rw (derived, drop_short c.salt_len src later whole)
                    (open_from-append crypto c a limit (zeros a.nonce_size) src
                      (drop c.salt_len src) later c.salt_len
                      (laws.sessions (take c.salt_len src) a derived) refl
                      (omega (
                        arith,
                        size,
                        fits,
                        length-append (drop c.salt_len src) later,
                        length-drop c.salt_len src,
                      )))
            ])
    ]

session-append :
    (crypto : Crypto) (c : SsAead) (d : SsState) (src later : List ℕ) (limit : ℕ) (o : Option Aead)
    → IsCrypto crypto c
    → IsSound d
    → length (src ++ later) ≤ limit
    → d.aead ≡ o
    → decrypt_with crypto c d (src ++ later) limit o
      ≡ resume crypto c src later limit (decrypt_with crypto c d src limit o)
session-append crypto c d src later limit none laws sound fits e =
    salt-append crypto c d src later limit laws fits e
session-append crypto c d src later limit (some a) laws sound fits e =
    open_from-append crypto c a limit d.nonce src src later 0 (sound a e) refl fits

-- `decrypt` on bytes that come in two parts: behind the first part it goes on, in its new state, with
-- the bytes that it has not consumed and the second part, and comes to the same state, the same
-- plaintext and the same number of bytes as on both parts at once, or to the same error. The limit
-- is at least the number of bytes.
pub decrypt-append :
    (crypto : Crypto) (c : SsAead) (d : SsState) (src later : List ℕ) (limit : ℕ)
    → IsCrypto crypto c
    → IsSound d
    → length (src ++ later) ≤ limit
    → decrypt crypto c d (src ++ later) limit
      ≡ resume crypto c src later limit (decrypt crypto c d src limit)
unfolding decrypt
decrypt-append crypto c d src later limit laws sound fits =
    session-append crypto c d src later limit d.aead laws sound fits refl
