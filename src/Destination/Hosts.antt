-- ===== src/Destination/Hosts.antt =====
-- `extractDestWithPort` of client/destination/https.go and `hasChunkedTransferEncoding` of
-- client/destination/http_proxy.go.
pub mod Ports
use gforward.Prelude.{
  ℕ, suc, ◌+◌, Bool, true, false, ◌||◌, ◌&&◌, Option, none, some, List, [], ◌∷◌, ◌++◌, drop, leb,
  ◌==◌, if◌then◌else◌,
}
use gforward.Protocol.HostPort.{last_index_byte, contains_byte}
use gforward.Protocol.Decimal.{itoa}

abbrev pub with_port : List ℕ → ℕ → List ℕ
with_port host port = host ++ (b':' ∷ itoa port)

-- `i` is the index of the last colon.
abbrev pub extract_at : List ℕ → ℕ → Option ℕ → List ℕ
extract_at host port none = with_port host port
extract_at host port (some i) =
    if contains_byte (drop (suc i) host) b']' then with_port host port else host

unfoldable pub extract_dest_with_port : List ℕ → ℕ → List ℕ
extract_dest_with_port host port = extract_at host port (last_index_byte host b':')

abbrev lower : ℕ → ℕ
lower c = if leb b'A' c && leb c b'Z' then c + 32 else c

-- `strings.EqualFold` with a text of lower-case letters other than s, in which the Kelvin sign
-- U+212A, the bytes 0xE2 0x84 0xAA, is a k as well.
unfoldable pub equal_fold : List ℕ → List ℕ → Bool
equal_fold [] [] = true
equal_fold (c ∷ cs) [] = false
equal_fold [] (p ∷ ps) = false
equal_fold (c ∷ []) (p ∷ ps) = let rest = equal_fold [] ps in lower c == p && rest
equal_fold (c ∷ d ∷ []) (p ∷ ps) = let rest = equal_fold (d ∷ []) ps in lower c == p && rest
equal_fold (c ∷ d ∷ e ∷ cs) (p ∷ ps) =
    let rest = equal_fold (d ∷ e ∷ cs) ps in
    let kelvin = equal_fold cs ps in
    (lower c == p && rest) || (p == b'k' && c == 0xe2 && d == 0x84 && e == 0xaa && kelvin)

abbrev pub chunked_name : List ℕ
chunked_name = b'c' ∷ b'h' ∷ b'u' ∷ b'n' ∷ b'k' ∷ b'e' ∷ b'd' ∷ []

unfoldable pub has_chunked_transfer_encoding : List (List ℕ) → Bool
has_chunked_transfer_encoding [] = false
has_chunked_transfer_encoding (e ∷ es) =
    equal_fold e chunked_name || has_chunked_transfer_encoding es
