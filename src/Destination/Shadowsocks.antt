-- ===== src/Destination/Shadowsocks.antt =====
-- client/destination/shadowsocks.go: keys, nonces and `decrypt`. MD5, HKDF, AES-GCM,
-- ChaCha20-Poly1305 and the random source are parameters; a nonce is a list of bytes.
pub mod Address
pub mod Encrypter
pub mod Headers
pub mod Conns
pub mod Progress
pub mod Tunnels
pub mod Soundness
pub mod Payloads
pub mod Keys
pub mod Nonces
pub mod Sealing
pub mod Opening
pub mod RoundTrip
pub mod Parts
pub mod Splits
pub mod Resuming
pub mod Limits
mod Runs
use gforward.Prelude.{
  ℕ, zero, suc, ◌+◌, ◌*◌, ◌/◌, ◌%◌, ◌<◌, ◌≡◌, Bool, true, false, not, ◌&&◌, ◌||◌, Option, none,
  some, List, [], ◌∷◌, ◌++◌, length, take, drop, ltb, leb, ◌==◌, if◌then◌else◌, be_u16, Result, ok,
  err, str_eq,
}

-- `cipher.AEAD` without additional data; none is a failed authentication.
pub record Aead : Type 0 where
  pub nonce_size : ℕ
  pub overhead : ℕ
  pub seal : List ℕ → List ℕ → List ℕ
  pub unseal : List ℕ → List ℕ → Option (List ℕ)

-- What the interface promises: what is sealed under a nonce is opened under it, sealing adds the
-- overhead, and opening removes it.
pub record IsAead (a : Aead) : Type 0 where
  pub unseal-seal : (nonce plain : List ℕ) → a.unseal nonce (a.seal nonce plain) ≡ some plain
  pub length-seal : (nonce plain : List ℕ) → length (a.seal nonce plain) ≡ length plain + a.overhead
  pub length-unseal :
      (nonce sealed plain : List ℕ)
      → a.unseal nonce sealed ≡ some plain
      → length sealed ≡ length plain + a.overhead

-- `hkdf` reads a subkey of a length, by HKDF-SHA1 from a key, a salt and an info. `random` is the result of the k-th call
-- of `rand.Read`, for a length.
pub record Crypto : Type 0 where
  pub md5 : List ℕ → List ℕ
  pub hkdf : List ℕ → List ℕ → List ℕ → ℕ → Option (List ℕ)
  pub aes_gcm : List ℕ → Option Aead
  pub chacha20_poly1305 : List ℕ → Option Aead
  pub random : ℕ → ℕ → Option (List ℕ)

-- "aes-256-gcm"
abbrev pub aes_256_gcm : List ℕ
aes_256_gcm = b'a' ∷ b'e' ∷ b's' ∷ b'-' ∷ b'2' ∷ b'5' ∷ b'6' ∷ b'-' ∷ b'g' ∷ b'c' ∷ b'm' ∷ []

-- "chacha20-ietf-poly1305"
abbrev pub chacha20_ietf_poly1305 : List ℕ
chacha20_ietf_poly1305 =
    b'c' ∷ b'h' ∷ b'a' ∷ b'c' ∷ b'h' ∷ b'a' ∷ b'2' ∷ b'0' ∷ b'-' ∷ b'i' ∷ b'e' ∷ b't' ∷ b'f' ∷ b'-'
    ∷ b'p' ∷ b'o' ∷ b'l' ∷ b'y' ∷ b'1' ∷ b'3' ∷ b'0' ∷ b'5' ∷ []

abbrev pub max_chunk_size : ℕ
max_chunk_size = 0x3fff

abbrev pub max_decoded_payload : ℕ
max_decoded_payload = 65535

-- The loop of `evpBytesToKey`: one digest for each unit of fuel.
unfoldable pub evp_loop : ℕ → (List ℕ → List ℕ) → List ℕ → ℕ → List ℕ → List ℕ → List ℕ
evp_loop zero md5 password key_len prev out = out
evp_loop (suc fuel) md5 password key_len prev out =
    let next = md5 (prev ++ password) in
    let rest = evp_loop fuel md5 password key_len next (out ++ next) in
    if ltb (length out) key_len then rest else out

-- A digest has a byte at least, so a round for each byte of the key is enough.
unfoldable pub evp_bytes_to_key : (List ℕ → List ℕ) → List ℕ → ℕ → List ℕ
evp_bytes_to_key md5 password key_len = take key_len (evp_loop key_len md5 password key_len [] [])

-- The nonce as a little-endian counter, plus one.
unfoldable pub increment : List ℕ → List ℕ
increment [] = []
increment (b ∷ bs) =
    let rest = increment bs in let c = (b + 1) % 256 in if not (c == 0) then c ∷ bs else c ∷ rest

pub record SsAead : Type 0 where
  pub method : List ℕ
  pub master_key : List ℕ
  pub key_len : ℕ
  pub salt_len : ℕ

abbrev pub is_method : List ℕ → Bool
is_method method = str_eq method aes_256_gcm || str_eq method chacha20_ietf_poly1305

unfoldable pub new_ss_aead : Crypto → List ℕ → List ℕ → Option SsAead
new_ss_aead crypto method password =
    if is_method method
    then some (record {
      method = method;
      master_key = evp_bytes_to_key crypto.md5 password 32;
      key_len = 32;
      salt_len = 32;
    })
    else none

-- "ss-subkey"
abbrev pub subkey_info : List ℕ
subkey_info = b's' ∷ b's' ∷ b'-' ∷ b's' ∷ b'u' ∷ b'b' ∷ b'k' ∷ b'e' ∷ b'y' ∷ []

abbrev pub on_subkey : Crypto → List ℕ → Option (List ℕ) → Option Aead
on_subkey crypto method none = none
on_subkey crypto method (some subkey) =
    if str_eq method aes_256_gcm
    then crypto.aes_gcm subkey
    else if str_eq method chacha20_ietf_poly1305
    then crypto.chacha20_poly1305 subkey
    else none

unfoldable pub new_aead : Crypto → SsAead → List ℕ → Option Aead
new_aead crypto c salt =
    on_subkey crypto c.method (crypto.hkdf c.master_key salt subkey_info c.key_len)

pub data SsError : Type 0 where
  no_aead no_salt bad_length_chunk bad_chunk_length bad_payload_chunk : SsError
  out_of_fuel : SsError

-- The state of one direction: `ssDecrypter` and `ssEncrypter` have the same fields. Without a
-- session AEAD the salt has not been read or written.
pub record SsState : Type 0 where
  pub aead : Option Aead
  pub nonce : List ℕ

abbrev pub fresh_state : SsState
fresh_state = record { aead = none; nonce = [] }

abbrev pub zeros : ℕ → List ℕ
zeros zero = []
zeros (suc n) = 0 ∷ zeros n

-- The state with a new session AEAD, and a nonce of zeros.
abbrev pub started : Aead → SsState
started a = record { aead = some a; nonce = zeros a.nonce_size }

-- The nonce behind the chunks, the plaintext and the number of bytes consumed.
abbrev pub Opened : Type 0
Opened = Result SsError (List ℕ × List ℕ × ℕ)

-- The payload chunk of `pay_len` bytes; `again` is the next round, `stops` what ends the loop.
abbrev pub on_pay : List ℕ → Opened → Option (List ℕ) → (List ℕ → List ℕ → Opened) → Opened
on_pay nonce stops none again = err bad_payload_chunk
on_pay nonce stops (some pay) again = again (increment (increment nonce)) pay

-- `2 + tag + payLen + tag`
abbrev pub chunk_need : Aead → ℕ → ℕ
chunk_need a pay_len = 2 + a.overhead + pay_len + a.overhead

abbrev pub on_pay_len :
    Aead → ℕ → List ℕ → List ℕ → List ℕ → ℕ → Opened → (List ℕ → List ℕ → Opened) → Opened
on_pay_len a limit nonce rem out pay_len stops again =
    let need = chunk_need a pay_len in
    if pay_len == 0 || ltb max_chunk_size pay_len
    then err bad_chunk_length
    else if ltb (length rem) need
    then stops
    else if not (length out == 0) && ltb limit (length out + pay_len)
    then stops
    else on_pay nonce stops (a.unseal (increment nonce) (drop (2 + a.overhead) (take need rem)))
        again

abbrev pub on_len :
    Aead
    → ℕ
    → List ℕ
    → List ℕ
    → List ℕ
    → ℕ
    → Option (List ℕ)
    → (List ℕ → List ℕ → List ℕ → ℕ → Opened)
    → Opened
on_len a limit nonce rem out consumed none again = err bad_length_chunk
on_len a limit nonce rem out consumed (some plain) again =
    let need = chunk_need a (be_u16 plain 0) in
    on_pay_len a limit nonce rem out (be_u16 plain 0) (ok (nonce, out, consumed))
      (λ nonce' pay. again nonce' (drop need rem) (out ++ pay) (consumed + need))

-- The loop over the chunks in `rem`, behind `consumed` bytes and the plaintext `out`.
unfoldable pub open_loop : ℕ → Aead → ℕ → List ℕ → List ℕ → List ℕ → ℕ → Opened
open_loop zero a limit nonce rem out consumed = err out_of_fuel
open_loop (suc fuel) a limit nonce rem out consumed =
    let more =
      on_len a limit nonce rem out consumed (a.unseal nonce (take (2 + a.overhead) rem))
        (open_loop fuel a limit) in
    if ltb (length rem) (2 + a.overhead) then ok (nonce, out, consumed) else more

abbrev pub Decrypted : Type 0
Decrypted = Result SsError (SsState × List ℕ × ℕ)

abbrev pub in_session : Aead → Opened → Decrypted
in_session a (err e) = err e
in_session a (ok (nonce, out, consumed)) =
    ok (record { aead = some a; nonce = nonce }, out, consumed)

-- A round takes three bytes at least, so a round more than there are bytes is enough.
unfoldable pub open_from : Aead → ℕ → List ℕ → List ℕ → ℕ → Decrypted
open_from a limit nonce rem consumed =
    in_session a (open_loop (suc (length rem)) a limit nonce rem [] consumed)

abbrev pub on_salt : SsAead → ℕ → List ℕ → Option Aead → Decrypted
on_salt c limit src none = err no_aead
on_salt c limit src (some a) =
    open_from a limit (zeros a.nonce_size) (drop c.salt_len src) c.salt_len

abbrev pub decrypt_with : Crypto → SsAead → SsState → List ℕ → ℕ → Option Aead → Decrypted
decrypt_with crypto c d src limit (some a) = open_from a limit d.nonce src 0
decrypt_with crypto c d src limit none =
    if ltb (length src) c.salt_len
    then ok (d, [], 0)
    else on_salt c limit src (new_aead crypto c (take c.salt_len src))

-- `decrypt`: the new state, the plaintext and the bytes consumed. After an error its callers forget
-- the connection, so an error does not carry the state.
unfoldable pub decrypt : Crypto → SsAead → SsState → List ℕ → ℕ → Decrypted
decrypt crypto c d src limit = decrypt_with crypto c d src limit d.aead
