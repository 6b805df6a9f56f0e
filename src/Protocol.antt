-- ===== src/Protocol.antt =====
-- The package protocol: protocol/common.go, protocol/plain.go and protocol/forward.go.
-- A string and a byte slice are lists of bytes. A method with a pointer receiver returns the
-- new packet beside its results.
pub mod HostPort
pub mod Decimal
pub mod Frames
pub mod Prefixes
pub mod Canonical
pub mod Destinations
mod Runs
use gforward.Prelude.{
  ℕ, ◌+◌, ◌/◌, ◌%◌, ◌*◌, ◌≡◌, Bool, true, false, ◌||◌, Option, none, some, List, [], ◌∷◌, ◌++◌,
  length, take, drop, get_or, put_u16, be_u16, ltb, ◌==◌, if◌then◌else◌, Result, ok, err, str_eq,
}
use HostPort.{join_host_port, split_host_port}
use Decimal.{itoa, parse_uint16}

pub data ParseState : Type 0 where
  need_more_data done rejected : ParseState

pub data PacketError : Type 0 where
  address_is_empty port_is_zero : PacketError
  address_is_too_long payload_is_too_long : ℕ → PacketError

-- What `Unmarshal` returns: the byte count, the state and the error.
pub record Parsed : Type 0 where
  pub consumed : ℕ
  pub state : ParseState
  pub error : Option PacketError

pub record ForwardPacket : Type 0 where
  pub addr : List ℕ
  pub port : ℕ
  pub payload : List ℕ

pub record PlainPacket : Type 0 where
  pub payload : List ℕ

abbrev pub new_forward : ForwardPacket
new_forward = record { addr = []; port = 0; payload = [] }

-- `buf[0] = byte(len(addr))`, then the address, the port, `uint16(len(payload))` and the payload
-- are copied one behind the other.
abbrev pub frame : ForwardPacket → List ℕ
frame p =
    (length p.addr % 256)
    ∷ (p.addr ++ (put_u16 p.port ++ (put_u16 (length p.payload % 65536) ++ p.payload)))

unfoldable pub marshal : ForwardPacket → Result PacketError (List ℕ)
marshal p =
    if length p.addr == 0
    then err address_is_empty
    else if ltb 255 (length p.addr)
    then err (address_is_too_long (length p.addr))
    else if p.port == 0
    then err port_is_zero
    else if ltb 65535 (length p.payload)
    then err (payload_is_too_long (length p.payload))
    else ok (frame p)

abbrev pub waits : Parsed
waits = record { consumed = 0; state = need_more_data; error = none }

abbrev pub rejects : PacketError → Parsed
rejects e = record { consumed = 0; state = rejected; error = some e }

abbrev pub finishes : ℕ → Parsed
finishes n = record { consumed = n; state = done; error = none }

-- The part of `Unmarshal` behind the check of the header's length, with `n` for `addrLen`.
unfoldable pub unmarshal_body : ForwardPacket → List ℕ → ℕ → ForwardPacket × Parsed
unmarshal_body p buf n =
    let port : ℕ = be_u16 buf (1 + n) in
    let payload_len : ℕ = be_u16 buf (3 + n) in
    if port == 0
    then (p, rejects port_is_zero)
    else if ltb (length buf) (5 + n + payload_len)
    then (p, waits)
    else (
      record {
        addr = take n (drop 1 buf);
        port = port;
        payload = take payload_len (drop (5 + n) buf);
      },
      finishes (5 + n + payload_len),
    )

unfoldable pub unmarshal : ForwardPacket → List ℕ → ForwardPacket × Parsed
unmarshal p buf =
    let n : ℕ = get_or buf 0 0 in
    if ltb (length buf) 1
    then (p, waits)
    else if n == 0
    then (p, rejects address_is_empty)
    else if ltb (length buf) (5 + n)
    then (p, waits)
    else unmarshal_body p buf n

unfoldable pub get_destination : ForwardPacket → List ℕ
get_destination p =
    if length p.addr == 0 || p.port == 0 then [] else join_host_port p.addr (itoa p.port)

abbrev pub clear_destination : ForwardPacket → ForwardPacket
clear_destination p = record p { addr = []; port = 0 }

abbrev pub set_port : ForwardPacket → List ℕ → Option ℕ → ForwardPacket
set_port p addr none = clear_destination p
set_port p addr (some port) =
    if port == 0 then clear_destination p else record p { addr = addr; port = port }

abbrev pub set_parts : ForwardPacket → Option (List ℕ × List ℕ) → ForwardPacket
set_parts p none = clear_destination p
set_parts p (some (addr, port_text)) = set_port p addr (parse_uint16 port_text)

unfoldable pub set_destination : ForwardPacket → List ℕ → ForwardPacket
set_destination p destination = set_parts p (split_host_port destination)

unfoldable pub plain_unmarshal : PlainPacket → List ℕ → PlainPacket × Parsed
plain_unmarshal p buf =
    if length buf == 0 then (p, waits) else (record { payload = buf }, finishes (length buf))

-- The interface `InternalPacket`, with a constructor for each implementation.
pub data InternalPacket : Type 0 where
  plain : PlainPacket → InternalPacket
  forward : ForwardPacket → InternalPacket

abbrev pub packet_type_plain : List ℕ
packet_type_plain = b'p' ∷ b'l' ∷ b'a' ∷ b'i' ∷ b'n' ∷ []

abbrev pub packet_type_forward : List ℕ
packet_type_forward = b'f' ∷ b'o' ∷ b'r' ∷ b'w' ∷ b'a' ∷ b'r' ∷ b'd' ∷ []

unfoldable pub new_internal_packet : List ℕ → InternalPacket
new_internal_packet proto =
    if str_eq proto packet_type_plain
    then plain (record { payload = [] })
    else if str_eq proto packet_type_forward
    then forward new_forward
    else plain (record { payload = [] })

unfoldable pub new_packet : InternalPacket → InternalPacket
new_packet (plain p) = plain (record { payload = [] })
new_packet (forward p) = forward new_forward

unfoldable pub packet_marshal : InternalPacket → Result PacketError (List ℕ)
packet_marshal (plain p) = ok p.payload
packet_marshal (forward p) = marshal p

abbrev pub as_forward : ForwardPacket × Parsed → InternalPacket × Parsed
as_forward (p, r) = (forward p, r)

abbrev pub as_plain : PlainPacket × Parsed → InternalPacket × Parsed
as_plain (p, r) = (plain p, r)

unfoldable pub packet_unmarshal : InternalPacket → List ℕ → InternalPacket × Parsed
packet_unmarshal (plain p) buf = as_plain (plain_unmarshal p buf)
packet_unmarshal (forward p) buf = as_forward (unmarshal p buf)

unfoldable pub get_payload : InternalPacket → List ℕ
get_payload (plain p) = p.payload
get_payload (forward p) = p.payload

unfoldable pub set_payload : InternalPacket → List ℕ → InternalPacket
set_payload (plain p) payload = plain (record { payload = payload })
set_payload (forward p) payload = forward (record p { payload = payload })

unfoldable pub packet_destination : InternalPacket → List ℕ
packet_destination (plain p) = []
packet_destination (forward p) = get_destination p

unfoldable pub set_packet_destination : InternalPacket → List ℕ → InternalPacket
set_packet_destination (plain p) destination = plain p
set_packet_destination (forward p) destination = forward (set_destination p destination)
