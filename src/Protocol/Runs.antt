-- ===== src/Protocol/Runs.antt =====
-- Concrete runs of protocol/forward.go and protocol/plain.go, and the theorems at concrete inputs.
use gforward.Prelude.{ℕ, ◌≤◌, ◌≡◌, refl, List, [], ◌∷◌, ◌++◌, none, some, ok, err, arith}
use gforward.Protocol.{
  ForwardPacket, marshal, unmarshal, unmarshal_body, finishes, waits, new_forward, address_is_empty,
  get_destination, set_destination,
}
use gforward.Protocol.HostPort.{
  join_host_port, split_host_port, contains_byte, index_byte, last_index_byte,
}
use gforward.Protocol.Decimal.{itoa, parse_uint16, format_digits, parse_digits}
use gforward.Protocol.Frames.{unmarshal-marshal}
use gforward.Protocol.Prefixes.{unmarshal-prefix}
use gforward.Protocol.Canonical.{marshal-unmarshal}
use gforward.Protocol.Destinations.{set_destination-get_destination}

-- A packet of two bytes for a.b, port 443.
abbrev pub hello : ForwardPacket
hello = record { addr = b'a' ∷ b'.' ∷ b'b' ∷ []; port = 443; payload = 1 ∷ 2 ∷ [] }

abbrev hello_frame : List ℕ
hello_frame = 3 ∷ b'a' ∷ b'.' ∷ b'b' ∷ 1 ∷ 187 ∷ 0 ∷ 2 ∷ 1 ∷ 2 ∷ []

marshal-hello : marshal hello ≡ ok hello_frame
unfolding marshal
marshal-hello = refl

unmarshal-hello : unmarshal new_forward (hello_frame ++ (9 ∷ [])) ≡ (hello, finishes 10)
unfolding unmarshal unmarshal_body
unmarshal-hello = refl

marshal_blank : marshal new_forward ≡ err address_is_empty
unfolding marshal
marshal_blank = refl

abbrev ipv6 : ForwardPacket
ipv6 = record { addr = b':' ∷ b':' ∷ b'1' ∷ []; port = 80; payload = [] }

destination_ipv6 : get_destination ipv6 ≡ b'[' ∷ b':' ∷ b':' ∷ b'1' ∷ b']' ∷ b':' ∷ b'8' ∷ b'0' ∷ []
unfolding get_destination join_host_port contains_byte itoa format_digits
destination_ipv6 = refl

destination_unclosed : split_host_port (b'[' ∷ b':' ∷ b'1' ∷ []) ≡ none
unfolding split_host_port contains_byte index_byte last_index_byte
destination_unclosed = refl

parse_port : parse_uint16 (b'4' ∷ b'4' ∷ b'3' ∷ []) ≡ some 443
unfolding parse_uint16 parse_digits
parse_port = refl

parse_port_range : parse_uint16 (b'6' ∷ b'5' ∷ b'5' ∷ b'3' ∷ b'6' ∷ []) ≡ none
unfolding parse_uint16 parse_digits
parse_port_range = refl

unmarshal-marshal_example : unmarshal new_forward (hello_frame ++ (9 ∷ [])) ≡ (hello, finishes 10)
unmarshal-marshal_example =
    unmarshal-marshal hello new_forward hello_frame (9 ∷ []) (omega arith) marshal-hello

unmarshal-prefix_example : unmarshal hello (3 ∷ b'a' ∷ b'.' ∷ []) ≡ (hello, waits)
unmarshal-prefix_example =
    unmarshal-prefix hello hello (3 ∷ b'a' ∷ b'.' ∷ []) b'b' (1 ∷ 187 ∷ 0 ∷ 2 ∷ 1 ∷ 2 ∷ [])
      (omega arith) marshal-hello

marshal-unmarshal_example : (marshal hello ≡ ok hello_frame) × (10 ≤ 11)
marshal-unmarshal_example =
    marshal-unmarshal new_forward hello (hello_frame ++ (9 ∷ [])) 10 (omega arith) unmarshal-hello

set_destination-get_destination_example :
    set_destination new_forward (get_destination ipv6) ≡ record ipv6 { payload = [] }
unfolding contains_byte
set_destination-get_destination_example =
    set_destination-get_destination ipv6 new_forward (omega arith) (refl, refl) (omega arith)
      (omega arith)
