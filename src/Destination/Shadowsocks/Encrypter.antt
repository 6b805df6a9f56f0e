-- ===== src/Destination/Shadowsocks/Encrypter.antt =====
-- client/destination/shadowsocks.go: `encrypt`, which seals a stream in chunks.
use gforward.Prelude.{
  ℕ, zero, suc, ◌/◌, ◌%◌, Option, none, some, List, [], ◌∷◌, ◌++◌, length, take, drop, ltb,
  if◌then◌else◌, Result, ok, err,
}
use gforward.Destination.Shadowsocks.{
  Aead, Crypto, SsAead, SsError, SsState, increment, max_chunk_size, no_aead, no_salt, new_aead,
  zeros,
}

abbrev pub chunk_to : ℕ → List ℕ → List ℕ
chunk_to n plain = if ltb n (length plain) then take n plain else plain

-- `plaintext[:n]`
unfoldable pub chunk_of : List ℕ → List ℕ
chunk_of plain = chunk_to max_chunk_size plain

-- `[]byte{byte(n >> 8), byte(n)}`
abbrev pub len_bytes : ℕ → List ℕ
len_bytes n = (n / 256 % 256) ∷ (n % 256) ∷ []

-- One round for each unit of fuel: the nonce behind the chunks, and the chunks.
unfoldable pub seal_loop : ℕ → Aead → List ℕ → List ℕ → List ℕ × List ℕ
seal_loop zero a nonce plain = (nonce, [])
seal_loop (suc fuel) a nonce [] = (nonce, [])
seal_loop (suc fuel) a nonce (x ∷ xs) =
    let chunk = chunk_of (x ∷ xs) in
    let (nonce', rest) =
      seal_loop fuel a (increment (increment nonce)) (drop (length chunk) (x ∷ xs)) in
    (nonce', a.seal nonce (len_bytes (length chunk)) ++ (a.seal (increment nonce) chunk ++ rest))

-- A round takes a byte at least.
unfoldable pub seal_all : Aead → List ℕ → List ℕ → List ℕ × List ℕ
seal_all a nonce plain = seal_loop (length plain) a nonce plain

abbrev pub Encrypted : Type 0
Encrypted = Result SsError (SsState × List ℕ)

abbrev pub seal_in : Aead → List ℕ → List ℕ → List ℕ → Encrypted
seal_in a salt nonce plain =
    let (nonce', bytes) = seal_all a nonce plain in
    ok (record { aead = some a; nonce = nonce' }, salt ++ bytes)

abbrev pub with_salt : Crypto → List ℕ → List ℕ → Option Aead → Encrypted
with_salt crypto salt plain none = err no_aead
with_salt crypto salt plain (some a) = seal_in a salt (zeros a.nonce_size) plain

abbrev pub on_random : Crypto → SsAead → List ℕ → Option (List ℕ) → Encrypted
on_random crypto c plain none = err no_salt
on_random crypto c plain (some salt) = with_salt crypto salt plain (new_aead crypto c salt)

-- `encrypt`, with the number of the call of `rand.Read` that a first call makes.
abbrev pub encrypt_with : Crypto → SsAead → ℕ → SsState → List ℕ → Option Aead → Encrypted
encrypt_with crypto c draw e plain (some a) = seal_in a [] e.nonce plain
encrypt_with crypto c draw e plain none = on_random crypto c plain (crypto.random draw c.salt_len)

unfoldable pub encrypt : Crypto → SsAead → ℕ → SsState → List ℕ → Encrypted
encrypt crypto c draw e plain = encrypt_with crypto c draw e plain e.aead
