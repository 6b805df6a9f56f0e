-- ===== src/Destination/Https/Runs.antt =====
-- The theorems on client/destination/https.go at concrete inputs.
use gforward.Prelude.{ℕ, zero, suc, ◌≡◌, ◌≢◌, refl, List, [], ◌∷◌, ◌++◌, arith}
use gforward.Destination.Https.{names, waits, rejects, sniff}
use gforward.Destination.Https.Names.{hello}
use gforward.Destination.Https.Hellos.{
  Extension, extension, extensions, name_body, record_of, sniff-hello,
}
use gforward.Destination.Https.Stability.{sniff-append}

abbrev zeros : ℕ → List ℕ
zeros zero = []
zeros (suc n) = 0 ∷ zeros n

-- Two cipher suites' bytes, one compression method, an extension of kind 10, the host "a".
abbrev others : List Extension
others = record { kind = 10; body = 1 ∷ 2 ∷ [] } ∷ []

abbrev all_extensions : List ℕ
all_extensions = extensions others ++ (extension 0 (name_body (b'a' ∷ [])) ++ [])

abbrev small_hello : List ℕ
small_hello = hello (zeros 34) [] (19 ∷ 1 ∷ []) (0 ∷ []) all_extensions

sniff-hello_example : sniff (record_of 1 100 small_hello ++ (9 ∷ [])) ≡ names (b'a' ∷ [])
sniff-hello_example =
    sniff-hello 1 100 (zeros 34) [] (19 ∷ 1 ∷ []) (0 ∷ []) others (b'a' ∷ []) [] (9 ∷ []) refl
      (omega arith)
      (record { not_name = omega arith; kind_lt = omega arith; body_lt = omega arith }, tt)
      (omega arith) (omega arith)

not_tls : sniff (23 ∷ []) ≡ rejects
unfolding sniff
not_tls = refl

decided : sniff (23 ∷ []) ≢ waits
unfolding sniff
decided e = cc

sniff-append_example : sniff ((23 ∷ []) ++ (1 ∷ [])) ≡ sniff (23 ∷ [])
sniff-append_example = sniff-append (23 ∷ []) (1 ∷ []) decided
