-- ===== src/Message.antt =====
-- network/message/message.go: the events that a dialer or a dispatcher delivers, and the loop that
-- cuts a connection's inbound buffer into packets. A connection is a number; `conn.Peek(-1)` is the
-- buffer, and `conn.Discard(n)` drops its first bytes. Log entries are left out.
pub mod Loop
pub mod Streams
pub mod Wires
mod Runs
use gforward.Prelude.{
  ℕ, zero, suc, ◌+◌, Option, none, List, [], ◌∷◌, ◌++◌, length, drop, ◌==◌, if◌then◌else◌,
}
use gforward.Protocol.{
  InternalPacket, ParseState, need_more_data, done, rejected, Parsed, new_packet, packet_unmarshal,
}

pub data RecvEvent : Type 0 where
  recv_data recv_close recv_open recv_dial_error : RecvEvent

-- `T` is the type of the token that the caller of a dial passes through.
pub record RecvMsg (T : Type 0) : Type 0 where
  pub event : RecvEvent
  pub conn : ℕ
  pub pkts : List InternalPacket
  pub err : Option ℕ
  pub token : Option T

-- The result of `ParseAvailable`. `stuck` is no Go value: the loop ran out of fuel.
pub data Outcome (T : Type 0) : Type 0 where
  received : RecvMsg T → Outcome T
  violation : Outcome T
  stuck : Outcome T

module _ {T : Type 0} where
  abbrev pub data_msg : ℕ → List InternalPacket → RecvMsg T
  data_msg conn pkts = record {
    event = recv_data;
    conn = conn;
    pkts = pkts;
    err = none;
    token = none;
  }

  -- The three cases of the switch on the parse state; `again` is the next round.
  unfoldable pub after_parse :
      ℕ
      → List ℕ
      → List InternalPacket
      → InternalPacket × Parsed
      → (List ℕ → List InternalPacket → Outcome T × List ℕ)
      → Outcome T × List ℕ
  after_parse conn buf pkts (pkt, r) again = elim r.state [
    | need_more_data ↦ (received (data_msg conn pkts), buf)
    | rejected ↦ (violation, buf)
    | done ↦
        let left = drop r.consumed buf in
        let rest = again left (pkts ++ (pkt ∷ [])) in
        if length left == 0 then (received (data_msg conn (pkts ++ (pkt ∷ []))), left) else rest
  ]

  -- One round for each unit of fuel; the second part of the result is the inbound buffer left.
  unfoldable pub parse_loop :
      ℕ → ℕ → InternalPacket → List ℕ → List InternalPacket → Outcome T × List ℕ
  parse_loop zero conn proto buf pkts = (stuck, buf)
  parse_loop (suc fuel) conn proto buf pkts =
      after_parse conn buf pkts (packet_unmarshal (new_packet proto) buf)
        (parse_loop fuel conn proto)

  -- Each round consumes a byte at least, so one round more than there are bytes is enough.
  unfoldable pub parse_available : ℕ → InternalPacket → List ℕ → Outcome T × List ℕ
  parse_available conn proto buf = parse_loop (suc (length buf)) conn proto buf []
