-- ===== src/Message/Loop.antt =====
-- The loop of `ParseAvailable` ends on every buffer, for every protocol.
use gforward.Prelude.{
  ℕ, zero, suc, ◌≤◌, ◌<◌, ◌≡◌, ◌≢◌, List, [], ◌∷◌, ◌++◌, arith, length, drop, length-drop,
}
use gforward.Protocol.{
  InternalPacket, plain, forward, done, Parsed, new_packet, packet_unmarshal, plain_unmarshal,
  unmarshal, new_forward, ForwardPacket, as_forward,
}
use gforward.Protocol.Prefixes.{
  Answers, answer_waits, answer_rejects, answer_finishes, unmarshal-Answers,
}
use gforward.Message.{stuck, after_parse, parse_loop, parse_available}

-- A finished parse consumes a byte at least and no more than there are.
pub packet_unmarshal_progress :
    (proto : InternalPacket) (buf : List ℕ)
    → (packet_unmarshal (new_packet proto) buf).1.state ≡ done
    → (0 < (packet_unmarshal (new_packet proto) buf).1.consumed)
      × ((packet_unmarshal (new_packet proto) buf).1.consumed ≤ length buf)
unfolding packet_unmarshal new_packet plain_unmarshal
packet_unmarshal_progress (plain p) buf h = ground arith
packet_unmarshal_progress (forward p) buf h =
    go (unmarshal new_forward buf) (unmarshal-Answers new_forward buf) h
  where
    go :
        (r : ForwardPacket × Parsed)
        → Answers new_forward buf r
        → (as_forward r).1.state ≡ done
        → (0 < (as_forward r).1.consumed) × ((as_forward r).1.consumed ≤ length buf)
    go r (answer_waits e) d = absurd (ground arith)
    go r (answer_rejects x e) d = absurd (ground arith)
    go r (answer_finishes p' n e lo hi) d = ground arith

module _ {T : Type 0} where
  parse_loop_ends :
      (fuel conn : ℕ) (proto : InternalPacket) (buf : List ℕ) (pkts : List InternalPacket)
      → length buf < fuel
      → (parse_loop {T = T} fuel conn proto buf pkts).0 ≢ stuck
  unfolding parse_loop after_parse
  parse_loop_ends zero conn proto buf pkts h = absurd (omega arith)
  parse_loop_ends (suc fuel) conn proto buf pkts h = ground (
    arith,
    packet_unmarshal_progress proto buf,
    length-drop (packet_unmarshal (new_packet proto) buf).1.consumed buf,
    parse_loop_ends fuel conn proto (drop (packet_unmarshal (new_packet proto) buf).1.consumed buf)
        (pkts ++ ((packet_unmarshal (new_packet proto) buf).0 ∷ [])),
  )

  -- `ParseAvailable` returns on every buffer, for either protocol: its loop never runs out of fuel.
  pub parse_available-ne-stuck :
      (conn : ℕ) (proto : InternalPacket) (buf : List ℕ)
      → (parse_available {T = T} conn proto buf).0 ≢ stuck
  unfolding parse_available
  parse_available-ne-stuck conn proto buf =
      parse_loop_ends (suc (length buf)) conn proto buf [] (omega arith)
