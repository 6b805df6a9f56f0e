-- ===== src/Destination/HttpProxy/Runs.antt =====
-- The theorems on client/destination/http_proxy.go at concrete inputs.
use gforward.Prelude.{
  ℕ, ◌≡◌, refl, true, none, List, [], ◌∷◌, length, ltb, if◌then◌else◌, arith, empty_map, insert,
  Bool-cases, inl, inr,
}
use gforward.Protocol.HostPort.{contains_byte, join_host_port}
use gforward.Protocol.Decimal.{itoa}
use gforward.Destination.PlainGnet.{plain_gnet, plain_gnet-IsGnet}
use gforward.Destination.HttpProxy.{
  pos, HttpRequest, ReadEnd, read, short, HttpEnv, RequestState, States, parse_http_proxy,
  consume_request,
}
use gforward.Destination.HttpProxy.Bounds.{
  AllOpen, insert-AllOpen, IsReader, IsBounded, parse_http_proxy-IsBounded,
}
use gforward.Destination.HttpProxy.Lengths.{Carries, consume_request-Carries}
use gforward.Destination.Hosts.{extract_dest_with_port}
use gforward.Destination.Hosts.Ports.{host_text, extract_dest_with_port-join_host_port}

-- A request to the host "a" with three bytes of body, behind a header of two bytes.
abbrev post : HttpRequest
post = record {
  method = b'P' ∷ [];
  proto = b'H' ∷ [];
  host = b'a' ∷ [];
  content_length = pos 3;
  transfer_encoding = [];
}

abbrev read_two : List ℕ → ReadEnd
read_two buf = if ltb (length buf) 2 then short else read post 2

abbrev env : HttpEnv
env = record { gnet = plain_gnet; read_request = read_two; write_ok = λ conn bytes. true }

env-IsReader : IsReader env
env-IsReader buf req k e = elim (Bool-cases (ltb (length buf) 2)) [
  | inl few ↦ absurd (ground (arith, e, few))
  | inr enough ↦ ground (arith, e, enough)
]

-- Connection 7 waits for two more bytes of a body.
abbrev going : RequestState
going = record { destination = b'a' ∷ []; remaining = pos 2; chunked = none }

abbrev going_states : States
going_states = insert 7 going empty_map

going_states-AllOpen : AllOpen going_states
going_states-AllOpen = insert-AllOpen empty_map 7 going (λ conn s e. cc) (tt, λ e. (1, refl))

parse_http_proxy-IsBounded_example :
    IsBounded (1 ∷ 2 ∷ 3 ∷ []) (parse_http_proxy env going_states 7 (1 ∷ 2 ∷ 3 ∷ []))
parse_http_proxy-IsBounded_example =
    parse_http_proxy-IsBounded env going_states 7 (1 ∷ 2 ∷ 3 ∷ []) plain_gnet-IsGnet env-IsReader
      going_states-AllOpen (omega arith)

consume_request-Carries_example :
    Carries 1
      (consume_request going (1 ∷ []) 10)
      (consume_request going (1 ∷ 2 ∷ 3 ∷ []) 10)
      (λ s. consume_request s (2 ∷ 3 ∷ []) 10)
consume_request-Carries_example =
    consume_request-Carries going (1 ∷ []) (2 ∷ 3 ∷ []) 10 tt (omega arith)

extract_dest_with_port-join_host_port_example :
    (extract_dest_with_port (host_text (b':' ∷ b':' ∷ [])) 80
      ≡ join_host_port (b':' ∷ b':' ∷ []) (itoa 80))
    × (extract_dest_with_port (join_host_port (b':' ∷ b':' ∷ []) (itoa 81)) 80
        ≡ join_host_port (b':' ∷ b':' ∷ []) (itoa 81))
unfolding contains_byte
extract_dest_with_port-join_host_port_example =
    extract_dest_with_port-join_host_port (b':' ∷ b':' ∷ []) 80 81 (refl, refl)
