-- ===== src/Destination/Shadowsocks/Runs.antt =====
-- The theorems on client/destination/shadowsocks.go at concrete inputs: sealing puts a byte of the
-- nonce in front, and salts and digests are constant.
use gforward.Prelude.{
  ℕ, zero, suc, ◌+◌, ◌≡◌, refl, ap, Option, none, some, List, [], ◌∷◌, ◌++◌, length, take, drop,
  get_or, ◌==◌, if◌then◌else◌, ok, All, arith, Bool-cases, inl, inr, str_eq,
}
use gforward.Destination.PlainGnet.{plain_gnet, plain_gnet-IsGnet}
use gforward.Destination.Shadowsocks.{
  Aead, IsAead, Crypto, SsAead, SsState, fresh_state, aes_256_gcm, new_aead, zeros, decrypt,
  increment, open_from, open_loop,
}
use gforward.Destination.Shadowsocks.Encrypter.{encrypt, seal_all, seal_loop, chunk_of}
use gforward.Destination.Shadowsocks.Nonces.{le_value, nonce_at, le_value-nonce_at}
use gforward.Destination.Shadowsocks.Sealing.{
  join, IsPiece, pieces, stream_at, index_behind, session_at, encrypt-stream_at,
}
use gforward.Destination.Shadowsocks.RoundTrip.{IsCrypto, InStep, before_salt, decrypt-encrypt}
use gforward.Destination.Shadowsocks.Limits.{IsSound}
use gforward.Destination.Shadowsocks.Resuming.{resume, decrypt-append}
use gforward.Destination.Shadowsocks.Conns.{
  SsEnv, empty_parser, parse_shadowsocks, payload_for, dest_of, get_conn, decode_payload,
}
use gforward.Destination.Shadowsocks.Address.{parse_shadowsocks_address}
use gforward.Destination.Shadowsocks.Headers.{domain_header}
use gforward.Destination.Shadowsocks.Payloads.{at_first, Reach-cut}
use gforward.Destination.Shadowsocks.Tunnels.{
  sends, sends_none, parse_all, handed_over, parse_all-Sends,
}
use gforward.Client.Forwarder.{cut}

abbrev tagged_unseal : List ℕ → List ℕ → Option (List ℕ)
tagged_unseal nonce [] = none
tagged_unseal nonce (x ∷ xs) = if x == get_or nonce 0 0 then some xs else none

abbrev tagged : Aead
tagged = record {
  nonce_size = 2;
  overhead = 1;
  seal = λ nonce plain. get_or nonce 0 0 ∷ plain;
  unseal = tagged_unseal;
}

tagged_length :
    (nonce sealed plain : List ℕ)
    → tagged_unseal nonce sealed ≡ some plain
    → length sealed ≡ length plain + 1
tagged_length nonce [] plain e = absurd (cc)
tagged_length nonce (x ∷ xs) plain e = elim (Bool-cases (x == get_or nonce 0 0)) [
  | inl good ↦ let opened = rw good at e in let same : xs ≡ plain = cc in rw same (omega arith)
  | inr bad ↦ let refused = rw bad at e in absurd (cc)
]

tagged-IsAead : IsAead tagged
tagged-IsAead = record {
  unseal-seal = λ nonce plain. ground arith;
  length-seal = λ nonce plain. omega arith;
  length-unseal = tagged_length;
}

abbrev crypto : Crypto
crypto = record {
  md5 = λ bytes. zeros 16;
  hkdf = λ key salt info n. some salt;
  aes_gcm = λ key. some tagged;
  chacha20_poly1305 = λ key. none;
  random = λ draw n. some (zeros n);
}

abbrev cipher : SsAead
cipher = record { method = aes_256_gcm; master_key = zeros 32; key_len = 32; salt_len = 4 }

length-zeros : (n : ℕ) → length (zeros n) ≡ n
length-zeros zero = refl
length-zeros (suc n) = ap suc (length-zeros n)

some_inj : {A : Type 0} (x y : A) → some x ≡ some y → x ≡ y
some_inj x y e = cc

crypto-IsCrypto : IsCrypto crypto cipher
unfolding new_aead str_eq
crypto-IsCrypto = record {
  salt_length = λ draw salt e. (let same = some_inj (zeros 4) salt e in rw⁻¹ same refl);
  sessions = λ salt a e. (let same = some_inj tagged a e in rw same at tagged-IsAead);
}

abbrev env : SsEnv
env = record { gnet = plain_gnet; crypto = crypto; cipher = cipher }

-- A session whose next nonce is zero, and one behind a message of one piece.
abbrev session : SsState
session = record { aead = some tagged; nonce = 0 ∷ 0 ∷ [] }

abbrev session' : SsState
session' = record { aead = some tagged; nonce = 2 ∷ 0 ∷ [] }

-- "ab" as the first message, and as one in a session.
abbrev sealed_ab : List ℕ
sealed_ab = 0 ∷ 0 ∷ 2 ∷ 1 ∷ b'a' ∷ b'b' ∷ []

abbrev ab : List ℕ
ab = b'a' ∷ b'b' ∷ []

session-IsSound : IsSound session
session-IsSound a e = let same = some_inj tagged a e in rw same at tagged-IsAead

-- The message comes in two parts, cut in its payload chunk.
decrypt-append_example :
    decrypt crypto cipher session sealed_ab 65535
    ≡ resume crypto cipher
        (take 4 sealed_ab)
        (drop 4 sealed_ab)
        65535
        (decrypt crypto cipher session (take 4 sealed_ab) 65535)
decrypt-append_example =
    decrypt-append crypto cipher session (take 4 sealed_ab) (drop 4 sealed_ab) 65535 crypto-IsCrypto
      session-IsSound (omega arith)

le_value-nonce_at_example : le_value (nonce_at 2 300) ≡ 300
le_value-nonce_at_example = le_value-nonce_at 2 300 (omega arith)

-- The host "a", the port 80 and one byte of data.
abbrev first_plain : List ℕ
first_plain = domain_header (b'a' ∷ []) 80 ++ (b'x' ∷ [])

abbrev first_message : List ℕ
first_message = 0 ∷ 0 ∷ 0 ∷ 0 ∷ 0 ∷ 0 ∷ 6 ∷ 1 ∷ 3 ∷ 1 ∷ b'a' ∷ 0 ∷ 80 ∷ b'x' ∷ []

sealed_first : encrypt crypto cipher 0 fresh_state first_plain ≡ ok (session', first_message)
unfolding encrypt seal_all seal_loop chunk_of increment new_aead str_eq
sealed_first = refl

-- "ab" behind the first message.
abbrev later_ab : List ℕ
later_ab = 2 ∷ 0 ∷ 2 ∷ 3 ∷ b'a' ∷ b'b' ∷ []

abbrev session_behind : SsState
session_behind = record { aead = some tagged; nonce = 4 ∷ 0 ∷ [] }

sealed_later : encrypt crypto cipher 1 session' ab ≡ ok (session_behind, later_ab)
unfolding encrypt seal_all seal_loop chunk_of increment
sealed_later = refl

decrypt-encrypt_example :
    (d' : SsState) × (decrypt crypto cipher fresh_state (first_message ++ (2 ∷ [])) 65535
      ≡ ok (d', first_plain, length first_message))
    × InStep session' d'
decrypt-encrypt_example =
    decrypt-encrypt crypto cipher 65535 first_plain (2 ∷ []) 0 fresh_state fresh_state session'
      first_message crypto-IsCrypto before_salt sealed_first
      (λ a e. let same = some_inj tagged a e in rw⁻¹ same (omega arith)) (omega arith)

encrypt-stream_at_example :
    let cs = pieces ab in
    (join cs ≡ ab)
    × All IsPiece cs
    × (encrypt crypto cipher 0 fresh_state ab
        ≡ ok (session_at tagged (index_behind 0 cs), zeros 4 ++ stream_at tagged 0 cs))
    × (encrypt crypto cipher 0 (session_at tagged 6) ab
        ≡ ok (session_at tagged (index_behind 6 cs), stream_at tagged 6 cs))
unfolding new_aead str_eq
encrypt-stream_at_example = encrypt-stream_at crypto cipher 0 tagged 6 (zeros 4) ab refl refl

parse_all-Sends_example :
    parse_all env empty_parser 7 (first_message ∷ later_ab ∷ [])
    ≡ handed_over (dest_of (b'a' ∷ []) 80) ((b'x' ∷ []) ∷ ab ∷ [])
parse_all-Sends_example =
    parse_all-Sends env empty_parser 7 (b'a' ∷ []) 80 (b'x' ∷ []) (ab ∷ [])
      (first_message ∷ later_ab ∷ []) plain_gnet-IsGnet crypto-IsCrypto refl (omega arith)
      (omega arith)
      (sends fresh_state session' 0 first_plain first_message (ab ∷ []) (later_ab ∷ [])
        (omega arith) (omega arith) sealed_first
        (sends session' session_behind 1 ab later_ab [] [] (omega arith) (omega arith) sealed_later
          (sends_none session_behind)))

parsed_first :
    (parse_shadowsocks env empty_parser 7 first_message).result
    ≡ some (payload_for (dest_of (b'a' ∷ []) 80) (b'x' ∷ []))
unfolding parse_shadowsocks get_conn decode_payload decrypt open_from open_loop increment new_aead
    str_eq parse_shadowsocks_address
parsed_first = refl

Reach-cut_example : cut (b'x' ∷ []) ≡ b'x' ∷ []
Reach-cut_example =
    Reach-cut env empty_parser 7 first_message (payload_for (dest_of (b'a' ∷ []) 80) (b'x' ∷ []))
      (b'x' ∷ []) plain_gnet-IsGnet crypto-IsCrypto at_first parsed_first refl
