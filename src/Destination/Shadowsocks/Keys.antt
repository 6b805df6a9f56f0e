-- ===== src/Destination/Shadowsocks/Keys.antt =====
-- `evpBytesToKey` and `newSSAEAD` of client/destination/shadowsocks.go: the key of a password.
use gforward.Prelude.{
  ℕ, zero, suc, ◌+◌, ◌<◌, ◌≤◌, ◌≡◌, refl, ap, ◌∙◌, true, false, none, some, List, [], ◌++◌, length,
  take, ltb, if◌then◌else◌, arith, length-append, length-take, Bool-cases, inl, inr, take_all,
}
use gforward.Destination.Shadowsocks.{Crypto, evp_loop, evp_bytes_to_key, is_method, new_ss_aead}

-- A round for each byte that is missing is enough.
length-evp_loop :
    (fuel : ℕ) (md5 : List ℕ → List ℕ) (password : List ℕ) (key_len : ℕ) (prev out : List ℕ)
    → ((bytes : List ℕ) → 0 < length (md5 bytes))
    → key_len ≤ length out + fuel
    → key_len ≤ length (evp_loop fuel md5 password key_len prev out)
unfolding evp_loop
length-evp_loop zero md5 password key_len prev out digests le = omega (arith, le)
length-evp_loop (suc fuel) md5 password key_len prev out digests le =
    let next = md5 (prev ++ password) in
    elim (Bool-cases (ltb (length out) key_len)) [
      | inl missing ↦ rw missing (
          length-evp_loop fuel md5 password key_len next (out ++ next) digests
            (omega (arith, length-append out next, digests (prev ++ password), le)))
      | inr enough ↦ rw enough (ground (arith, enough))
    ]

length-evp_bytes_to_key :
    (md5 : List ℕ → List ℕ) (password : List ℕ) (key_len : ℕ)
    → ((bytes : List ℕ) → 0 < length (md5 bytes))
    → length (evp_bytes_to_key md5 password key_len) ≡ key_len
unfolding evp_bytes_to_key
length-evp_bytes_to_key md5 password key_len digests =
    let le = length-evp_loop key_len md5 password key_len [] [] digests (omega arith) in
    length-take key_len (evp_loop key_len md5 password key_len [] []) ∙ omega (arith, le)

-- The rounds that a key of 32 bytes takes with digests of 16 bytes.
abbrev pub two_digests : (List ℕ → List ℕ) → List ℕ → List ℕ
two_digests md5 password = md5 password ++ md5 (md5 password ++ password)

evp_loop_done :
    (fuel : ℕ) (md5 : List ℕ → List ℕ) (password : List ℕ) (key_len : ℕ) (prev out : List ℕ)
    → key_len ≤ length out
    → evp_loop fuel md5 password key_len prev out ≡ out
unfolding evp_loop
evp_loop_done zero md5 password key_len prev out le = refl
evp_loop_done (suc fuel) md5 password key_len prev out le =
    let enough : ltb (length out) key_len ≡ false = ground (arith, le) in rw enough refl

evp_loop-two_digests :
    (fuel : ℕ) (md5 : List ℕ → List ℕ) (password : List ℕ)
    → ((bytes : List ℕ) → length (md5 bytes) ≡ 16)
    → evp_loop (suc (suc fuel)) md5 password 32 [] [] ≡ two_digests md5 password
unfolding evp_loop
evp_loop-two_digests fuel md5 password digests =
    let size = length-append (md5 password) (md5 (md5 password ++ password)) in
    let one = digests password in
    let two = digests (md5 password ++ password) in
    let more : ltb (length (md5 password)) 32 ≡ true = ground (arith, one) in
    rw more (
      evp_loop_done fuel md5 password 32 (md5 (md5 password ++ password)) (two_digests md5 password)
        (omega (arith, size, one, two)))

take_exact : (n : ℕ) (xs : List ℕ) → length xs ≡ n → take n xs ≡ xs
take_exact n xs e = rw⁻¹ e (take_all xs)

-- Of the two methods that are supported, and with digests of 16 bytes, the master key is the digest
-- of the password followed by that of this digest and the password; keys and salts have 32 bytes.
-- Every other method is refused.
pub new_ss_aead-two_digests :
    (crypto : Crypto) (method password : List ℕ)
    → ((bytes : List ℕ) → length (crypto.md5 bytes) ≡ 16)
    → new_ss_aead crypto method password ≡ (
        if is_method method
        then some (record {
          method = method;
          master_key = two_digests crypto.md5 password;
          key_len = 32;
          salt_len = 32;
        })
        else none)
unfolding new_ss_aead evp_bytes_to_key
new_ss_aead-two_digests crypto method password digests =
    let size = length-append (crypto.md5 password) (crypto.md5 (crypto.md5 password ++ password)) in
    let key : take 32 (evp_loop 32 crypto.md5 password 32 [] []) ≡ two_digests crypto.md5 password =
      ap (take 32) (evp_loop-two_digests 30 crypto.md5 password digests)
      ∙ take_exact 32 (two_digests crypto.md5 password)
          (omega (arith, size, digests password, digests (crypto.md5 password ++ password))) in
    rw key refl
