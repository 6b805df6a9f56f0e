-- ===== src/Destination/Shadowsocks/Soundness.antt =====
-- client/destination/shadowsocks.go: what is known of every connection that the parser keeps.
use gforward.Prelude.{
  ℕ, ◌≡◌, refl, false, Option, none, some, List, length, take, drop, ltb, ◌==◌, ok, err, Bool-cases,
  Option-cases, inl, inr,
}
use gforward.Destination.Shadowsocks.{
  Aead, IsAead, Crypto, SsAead, SsState, Opened, Decrypted, decrypt, decrypt_with, open_from,
  in_session, new_aead, fresh_state, zeros,
}
use gforward.Destination.Shadowsocks.Encrypter.{Encrypted, encrypt, encrypt_with, seal_all}
use gforward.Destination.Shadowsocks.RoundTrip.{IsCrypto}
use gforward.Destination.Shadowsocks.Limits.{IsSound}
use gforward.Destination.Shadowsocks.Address.{address_waits, parse_shadowsocks_address}
use gforward.Destination.Shadowsocks.Conns.{
  SsConn, SsParser, get_conn, put, clear_shadowsocks, new_ss_conn,
}

-- The sessions have proper AEADs, and the plaintext kept is one that has no address yet.
pub record IsConn (sc : SsConn) : Type 0 where
  pub dec_sound : IsSound sc.dec
  pub enc_sound : IsSound sc.enc
  pub waits : sc.addr_done ≡ false → parse_shadowsocks_address sc.plaintext ≡ address_waits

abbrev pub IsParser : SsParser → Type 0
IsParser p = (conn : ℕ) (sc : SsConn) → p.conns conn ≡ some sc → IsConn sc

session_IsSound :
    (a : Aead) (nonce : List ℕ) → IsAead a → IsSound (record { aead = some a; nonce = nonce })
session_IsSound a nonce laws b e = let same : a ≡ b = cc in rw same at laws

-- A new state is sound, if there is one.
abbrev pub DecryptsSoundly : Decrypted → Type 0
DecryptsSoundly (err e) = Unit
DecryptsSoundly (ok (d, plain, n)) = IsSound d

in_session_soundly : (a : Aead) (r : Opened) → IsAead a → DecryptsSoundly (in_session a r)
in_session_soundly a (err e) laws = tt
in_session_soundly a (ok (nonce, out, n)) laws = session_IsSound a nonce laws

open_from_soundly :
    (a : Aead) (limit : ℕ) (nonce rem : List ℕ) (n : ℕ)
    → IsAead a
    → DecryptsSoundly (open_from a limit nonce rem n)
unfolding open_from
open_from_soundly a limit nonce rem n laws = in_session_soundly a _ laws

decrypt_with_soundly :
    (crypto : Crypto) (c : SsAead) (d : SsState) (src : List ℕ) (limit : ℕ) (o : Option Aead)
    → IsCrypto crypto c
    → IsSound d
    → ((a : Aead) → o ≡ some a → IsAead a)
    → DecryptsSoundly (decrypt_with crypto c d src limit o)
decrypt_with_soundly crypto c d src limit (some a) laws old sound =
    open_from_soundly a limit d.nonce src 0 (sound a refl)
decrypt_with_soundly crypto c d src limit none laws old sound =
    elim (Bool-cases (ltb (length src) c.salt_len)) [
      | inl short ↦ rw short old
      | inr long ↦ rw long (elim (Option-cases (new_aead crypto c (take c.salt_len src))) [
        | inl refused ↦ rw refused tt
        | inr (a, derived) ↦ rw derived (
            open_from_soundly a limit (zeros a.nonce_size) (drop c.salt_len src) c.salt_len
              (laws.sessions (take c.salt_len src) a derived))
      ])
    ]

pub decrypt_soundly :
    (crypto : Crypto) (c : SsAead) (d : SsState) (src : List ℕ) (limit : ℕ)
    → IsCrypto crypto c
    → IsSound d
    → DecryptsSoundly (decrypt crypto c d src limit)
unfolding decrypt
decrypt_soundly crypto c d src limit laws sound =
    decrypt_with_soundly crypto c d src limit d.aead laws sound sound

abbrev pub EncryptsSoundly : Encrypted → Type 0
EncryptsSoundly (err e) = Unit
EncryptsSoundly (ok (e, bytes)) = IsSound e

encrypt_with_soundly :
    (crypto : Crypto) (c : SsAead) (draw : ℕ) (e : SsState) (plain : List ℕ) (o : Option Aead)
    → IsCrypto crypto c
    → ((a : Aead) → o ≡ some a → IsAead a)
    → EncryptsSoundly (encrypt_with crypto c draw e plain o)
encrypt_with_soundly crypto c draw e plain (some a) laws sound =
    session_IsSound a (seal_all a e.nonce plain).0 (sound a refl)
encrypt_with_soundly crypto c draw e plain none laws sound =
    elim (Option-cases (crypto.random draw c.salt_len)) [
      | inl no_salt ↦ rw no_salt tt
      | inr (salt, drawn) ↦ rw drawn (elim (Option-cases (new_aead crypto c salt)) [
        | inl refused ↦ rw refused tt
        | inr (a, derived) ↦ rw derived (
            session_IsSound a (seal_all a (zeros a.nonce_size) plain).0
              (laws.sessions salt a derived))
      ])
    ]

pub encrypt_soundly :
    (crypto : Crypto) (c : SsAead) (draw : ℕ) (e : SsState) (plain : List ℕ)
    → IsCrypto crypto c
    → IsSound e
    → EncryptsSoundly (encrypt crypto c draw e plain)
unfolding encrypt
encrypt_soundly crypto c draw e plain laws sound =
    encrypt_with_soundly crypto c draw e plain e.aead laws sound

fresh_IsSound : IsSound fresh_state
fresh_IsSound a e = absurd (cc)

new_ss_conn-IsConn : IsConn new_ss_conn
unfolding parse_shadowsocks_address
new_ss_conn-IsConn = record {
  dec_sound = fresh_IsSound;
  enc_sound = fresh_IsSound;
  waits = λ e. refl;
}

pub put-IsParser :
    (p : SsParser) (conn : ℕ) (sc : SsConn) → IsParser p → IsConn sc → IsParser (put p conn sc)
put-IsParser p conn sc all one conn' sc' e = elim (Bool-cases (conn == conn')) [
  | inl same ↦ let it : sc ≡ sc' = (let e' = rw same at e in cc) in rw it at one
  | inr other ↦ all conn' sc' (rw other at e)
]

pub clear-IsParser : (p : SsParser) (conn : ℕ) → IsParser p → IsParser (clear_shadowsocks p conn)
unfolding clear_shadowsocks
clear-IsParser p conn all conn' sc' e = elim (Bool-cases (conn == conn')) [
  | inl same ↦ let e' = rw same at e in absurd (cc)
  | inr other ↦ all conn' sc' (rw other at e)
]

pub get_conn-IsConn : (p : SsParser) (conn : ℕ) → IsParser p → IsConn (get_conn p conn)
unfolding get_conn
get_conn-IsConn p conn all = elim (Option-cases (p.conns conn)) [
  | inl fresh ↦ rw fresh new_ss_conn-IsConn
  | inr (sc, there) ↦ rw there (all conn sc there)
]
