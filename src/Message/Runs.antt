-- ===== src/Message/Runs.antt =====
-- Concrete runs of network/message/message.go, and the theorems at concrete inputs.
use gforward.Prelude.{ℕ, ◌≡◌, ◌≢◌, refl, List, [], ◌∷◌, ◌++◌, ok, arith}
use gforward.Protocol.{
  plain, forward, ForwardPacket, marshal, unmarshal, unmarshal_body, new_forward, rejects,
  address_is_empty, packet_unmarshal, new_packet, plain_unmarshal,
}
use gforward.Message.{
  received, violation, stuck, data_msg, parse_available, parse_loop, after_parse,
}
use gforward.Message.Loop.{parse_available-ne-stuck}
use gforward.Message.Streams.{frames, parse_available-append, prepend}
use gforward.Message.Wires.{
  Wire, nothing, one_more, parse_available-Wire, parse_available_violation,
}

abbrev ping : ForwardPacket
ping = record { addr = b'h' ∷ []; port = 80; payload = 7 ∷ [] }

abbrev ping_frame : List ℕ
ping_frame = 1 ∷ b'h' ∷ 0 ∷ 80 ∷ 0 ∷ 1 ∷ 7 ∷ []

marshal-ping : marshal ping ≡ ok ping_frame
unfolding marshal
marshal-ping = refl

-- One frame and the beginning of the next.
parse_ping :
    parse_available {T = ℕ} 5 frames (ping_frame ++ (1 ∷ b'h' ∷ []))
    ≡ (received (data_msg 5 (forward ping ∷ [])), 1 ∷ b'h' ∷ [])
unfolding parse_available parse_loop after_parse packet_unmarshal new_packet unmarshal
    unmarshal_body
parse_ping = refl

parse_plain :
    parse_available {T = ℕ} 5 (plain (record { payload = [] })) (1 ∷ 2 ∷ [])
    ≡ (received (data_msg 5 (plain (record { payload = 1 ∷ 2 ∷ [] }) ∷ [])), [])
unfolding parse_available parse_loop after_parse packet_unmarshal new_packet plain_unmarshal
parse_plain = refl

Wire-ping : Wire (ping ∷ []) ping_frame
Wire-ping = one_more ping ping_frame [] ping_frame (omega arith) marshal-ping refl nothing

parse_available-ne-stuck_example : (parse_available {T = ℕ} 5 frames ping_frame).0 ≢ stuck
parse_available-ne-stuck_example = parse_available-ne-stuck 5 frames ping_frame

parse_available-append_example :
    parse_available {T = ℕ} 5 frames ((ping_frame ++ (1 ∷ b'h' ∷ [])) ++ (0 ∷ []))
    ≡ prepend 5 (forward ping ∷ []) (parse_available 5 frames (1 ∷ b'h' ∷ 0 ∷ []))
parse_available-append_example =
    parse_available-append 5 (ping_frame ++ (1 ∷ b'h' ∷ [])) (0 ∷ []) (forward ping ∷ [])
      (1 ∷ b'h' ∷ []) parse_ping

parse_available-Wire_example :
    parse_available {T = ℕ} 5 frames (ping_frame ++ (1 ∷ b'h' ∷ []))
    ≡ (received (data_msg 5 (forward ping ∷ [])), 1 ∷ b'h' ∷ [])
parse_available-Wire_example =
    parse_available-Wire 5 (ping ∷ []) ping_frame ping (1 ∷ b'h' ∷ []) 0 (80 ∷ 0 ∷ 1 ∷ 7 ∷ [])
      Wire-ping (omega arith) marshal-ping

bad_header : unmarshal new_forward (0 ∷ []) ≡ (new_forward, rejects address_is_empty)
unfolding unmarshal
bad_header = refl

parse_available_violation_example :
    parse_available {T = ℕ} 5 frames (ping_frame ++ (0 ∷ [])) ≡ (violation, 0 ∷ [])
parse_available_violation_example =
    parse_available_violation 5 (ping ∷ []) ping_frame (0 ∷ []) address_is_empty Wire-ping
      bad_header
