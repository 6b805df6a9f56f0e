-- ===== src/Destination/Shadowsocks/RoundTrip.antt =====
-- The round trip of `encrypt` and `decrypt` in client/destination/shadowsocks.go.
use gforward.Prelude.{
  ℕ, ◌+◌, ◌<◌, ◌≤◌, ◌≡◌, refl, ap, sym, ◌∙◌, false, some, List, ◌++◌, length, ltb, Result, ok,
  arith, length-append, append_assoc, Option-cases, inl, inr,
}
use gforward.Destination.Shadowsocks.{
  Aead, IsAead, Crypto, SsAead, SsState, SsError, zeros, decrypt, new_aead, fresh_state,
}
use gforward.Destination.Shadowsocks.Encrypter.{seal_all, encrypt}
use gforward.Destination.Shadowsocks.Sealing.{
  stream, nonce_behind, pieces, join-pieces, pieces-All, seal_all-stream,
}
use gforward.Destination.Shadowsocks.Opening.{take_at, drop_at, open_from-stream}

abbrev the_ok : SsState × List ℕ → Result SsError (SsState × List ℕ)
the_ok x = ok x

plus_zero : (n : ℕ) → 0 + n ≡ n
plus_zero n = omega arith

-- The two ends of a direction are in step: neither has seen the salt, or both are in one session
-- under one nonce.
pub data InStep : SsState → SsState → Type 0 where
  before_salt : InStep fresh_state fresh_state
  in_one_session :
      (a : Aead) (nonce : List ℕ)
      → IsAead a
      → InStep (record { aead = some a; nonce = nonce }) (record { aead = some a; nonce = nonce })

-- The random source gives salts of the length asked for, and every session has a proper AEAD.
pub record IsCrypto (crypto : Crypto) (c : SsAead) : Type 0 where
  pub salt_length :
      (draw : ℕ) (salt : List ℕ)
      → crypto.random draw c.salt_len ≡ some salt
      → length salt ≡ c.salt_len
  pub sessions : (salt : List ℕ) (a : Aead) → new_aead crypto c salt ≡ some a → IsAead a

module _ (crypto : Crypto) (c : SsAead) (limit : ℕ) (plain later : List ℕ) where
  -- What `encrypt` has made can be read back by an end in the state `d`.
  abbrev Reads : SsState → SsState × List ℕ → Type 0
  Reads d (e', bytes) =
      ((a : Aead) → e'.aead ≡ some a → length later < 2 + a.overhead)
      → length plain ≤ limit
      → (d' : SsState) × (decrypt crypto c d (bytes ++ later) limit ≡ ok (d', plain, length bytes))
        × InStep e' d'

  Reads-transport :
      (d : SsState) (x y : SsState × List ℕ) → Reads d x → the_ok x ≡ the_ok y → Reads d y
  Reads-transport d x y r same = let e : x ≡ y = cc in rw e at r

  session-Reads :
      (a : Aead) (nonce : List ℕ)
      → IsAead a
      → Reads
          (record { aead = some a; nonce = nonce })
          (record { aead = some a; nonce = (seal_all a nonce plain).0 }, (seal_all a nonce plain).1)
  unfolding decrypt
  session-Reads a nonce laws =
      let cs = pieces plain in
      let joined = join-pieces plain in
      rw (seal_all-stream a nonce plain) (λ short fits. (
        record { aead = some a; nonce = nonce_behind nonce cs },
        rw
            (open_from-stream a limit nonce later cs 0 laws (pieces-All plain) (short a refl)
              (rw joined fits))
            (rw joined (
              ap (λ k. ok (record { aead = some a; nonce = nonce_behind nonce cs }, plain, k))
                (plus_zero (length (stream a nonce cs))))),
        in_one_session a (nonce_behind nonce cs) laws,
      ))

  salted-Reads :
      (a : Aead) (salt : List ℕ)
      → IsAead a
      → length salt ≡ c.salt_len
      → new_aead crypto c salt ≡ some a
      → Reads fresh_state (
        record { aead = some a; nonce = (seal_all a (zeros a.nonce_size) plain).0 },
        salt ++ (seal_all a (zeros a.nonce_size) plain).1,
      )
  unfolding decrypt
  salted-Reads a salt laws size derived =
      let cs = pieces plain in
      let joined = join-pieces plain in
      let st = stream a (zeros a.nonce_size) cs in
      let total = length-append salt (st ++ later) in
      let long : ltb (length (salt ++ (st ++ later))) c.salt_len ≡ false =
        ground (arith, total, size) in
      let count : c.salt_len + length st ≡ length (salt ++ st) =
        omega (arith, length-append salt st, size) in
      rw (seal_all-stream a (zeros a.nonce_size) plain, append_assoc salt st later, long)
        (λ short fits. (
          record { aead = some a; nonce = nonce_behind (zeros a.nonce_size) cs },
          rw
              (
                take_at c.salt_len salt (st ++ later) (sym size),
                derived,
                drop_at c.salt_len salt (st ++ later) (sym size),
              )
              (open_from-stream a limit (zeros a.nonce_size) later cs c.salt_len laws
                  (pieces-All plain) (short a refl) (rw joined fits)
                ∙ rw joined (
                    ap
                      (λ k. ok (
                        record { aead = some a; nonce = nonce_behind (zeros a.nonce_size) cs },
                        plain,
                        k,
                      ))
                      count)),
          in_one_session a (nonce_behind (zeros a.nonce_size) cs) laws,
        ))

-- What `encrypt` writes, `decrypt` reads: if the two ends are in step and the plaintext fits the
-- limit, `decrypt` consumes all bytes that `encrypt` has written, and nothing of the first bytes of
-- a next piece behind them, gives the plaintext back, and the ends are in step again.
pub decrypt-encrypt :
    (crypto : Crypto) (c : SsAead) (limit : ℕ) (plain later : List ℕ) (draw : ℕ) (e d e' : SsState)
    (bytes : List ℕ)
    → IsCrypto crypto c
    → InStep e d
    → encrypt crypto c draw e plain ≡ ok (e', bytes)
    → ((a : Aead) → e'.aead ≡ some a → length later < 2 + a.overhead)
    → length plain ≤ limit
    → (d' : SsState) × (decrypt crypto c d (bytes ++ later) limit ≡ ok (d', plain, length bytes))
      × InStep e' d'
unfolding encrypt
decrypt-encrypt crypto c limit plain later draw _ _ e' bytes laws (in_one_session a nonce good)
      enc =
    Reads-transport crypto c limit plain later (record { aead = some a; nonce = nonce })
      (record { aead = some a; nonce = (seal_all a nonce plain).0 }, (seal_all a nonce plain).1)
      (e', bytes) (session-Reads crypto c limit plain later a nonce good) enc
decrypt-encrypt crypto c limit plain later draw _ _ e' bytes laws before_salt enc =
    elim (Option-cases (crypto.random draw c.salt_len)) [
      | inl none_drawn ↦ let bad = rw none_drawn at enc in absurd (cc)
      | inr (salt, drawn) ↦ elim (Option-cases (new_aead crypto c salt)) [
        | inl refused ↦ let bad = rw (drawn, refused) at enc in absurd (cc)
        | inr (a, derived) ↦
            let made = rw (drawn, derived) at enc in
            Reads-transport crypto c limit plain later fresh_state
              (
                record { aead = some a; nonce = (seal_all a (zeros a.nonce_size) plain).0 },
                salt ++ (seal_all a (zeros a.nonce_size) plain).1,
              )
              (e', bytes)
              (salted-Reads crypto c limit plain later a salt (laws.sessions salt a derived)
                (laws.salt_length draw salt drawn) derived)
              made
      ]
    ]
