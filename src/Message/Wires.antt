-- ===== src/Message/Wires.antt =====
-- What `ParseAvailable` makes of the bytes that `Marshal` wrote, frame behind frame.
use gforward.Prelude.{
  ℕ, zero, suc, ◌+◌, ◌<◌, ◌≡◌, sym, ap, ◌∙◌, List, [], ◌∷◌, ◌++◌, append-nil, append_assoc, arith,
  length, drop, ok, length-append, drop_append,
}
use gforward.Protocol.{
  InternalPacket, forward, unmarshal, new_forward, ForwardPacket, marshal, rejects, finishes,
  PacketError,
}
use gforward.Protocol.Frames.{unmarshal-marshal, marshal-IsSendable, length-frame}
use gforward.Protocol.Prefixes.{unmarshal-prefix}
use gforward.Message.{received, violation, data_msg, parse_available}
use gforward.Message.Streams.{frames, loop, loop-waits, loop-rejects, loop-finishes}

-- The bytes that a sender writes for a list of packets, each with a 16-bit port.
pub data Wire : List ForwardPacket → List ℕ → Type 0 where
  nothing : Wire [] []
  one_more :
      (p : ForwardPacket) (bs rest bytes : List ℕ) {ps : List ForwardPacket}
      → p.port < 65536
      → marshal p ≡ ok bs
      → bytes ≡ bs ++ rest
      → Wire ps rest
      → Wire (p ∷ ps) bytes

abbrev pub as_packets : List ForwardPacket → List InternalPacket
as_packets [] = []
as_packets (p ∷ ps) = forward p ∷ as_packets ps

marshal_len : (p : ForwardPacket) (bs : List ℕ) → p.port < 65536 → marshal p ≡ ok bs → 5 < length bs
marshal_len p bs hp e =
    let (h, eq) = marshal-IsSendable p bs hp e in
    let size : length bs ≡ 5 + length p.addr + length p.payload = ap length eq ∙ length-frame p in
    omega (arith, h.addr_pos)

first_frame :
    (p : ForwardPacket) (bs rest bytes tail : List ℕ)
    → p.port < 65536
    → marshal p ≡ ok bs
    → bytes ≡ bs ++ rest
    → (unmarshal new_forward (bytes ++ tail) ≡ (p, finishes (length bs)))
      × (drop (length bs) (bytes ++ tail) ≡ rest ++ tail)
first_frame p bs rest bytes tail hp e eq =
    let split : bytes ++ tail ≡ bs ++ (rest ++ tail) =
      ap (λ l. l ++ tail) eq ∙ append_assoc bs rest tail in
    (
      rw split (unmarshal-marshal p new_forward bs (rest ++ tail) hp e),
      rw split (drop_append bs (rest ++ tail)),
    )

module _ {T : Type 0} (conn : ℕ) where
  -- Every frame takes a round, and the loop arrives at the bytes behind the frames.
  loop-Wire :
      {ps : List ForwardPacket} {bytes : List ℕ} (w : Wire ps bytes) (f : ℕ) (tail : List ℕ)
      (pkts : List InternalPacket)
      → length (bytes ++ tail) < f
      → (g : ℕ) × (length tail < g)
        × (loop {T = T} conn f (bytes ++ tail) pkts ≡ loop conn g tail (pkts ++ as_packets ps))
  loop-Wire nothing f tail pkts h = (f, h, ap (loop conn f tail) (sym (append-nil pkts)))
  loop-Wire (one_more p bs rest bytes {ps = ps} hp e eq w) zero tail pkts h = absurd (omega arith)
  loop-Wire (one_more p bs rest bytes {ps = ps} hp e eq w) (suc f) tail pkts h =
      let (now, later) = first_frame p bs rest bytes tail hp e eq in
      let long : 5 < length bs = marshal_len p bs hp e in
      let split : length bytes ≡ length bs + length rest = ap length eq ∙ length-append bs rest in
      let enough : length bs + length (rest ++ tail) < suc f =
        omega (arith, length-append bytes tail, length-append rest tail) in
      let (g, hg, more) = loop-Wire w f tail (pkts ++ (forward p ∷ [])) (omega arith) in
      (
        g,
        hg,
        loop-finishes conn f (bytes ++ tail) pkts p (length bs) (omega arith) now
            ∙ ap (λ l. loop conn f l (pkts ++ (forward p ∷ []))) later
            ∙ more
            ∙ ap (loop conn g tail) (append_assoc pkts (forward p ∷ []) (as_packets ps)),
      )

  -- From the frames of any packets, followed by a proper prefix of one more frame, the loop returns
  -- exactly these packets in order and leaves the prefix in the buffer.
  pub parse_available-Wire :
      (ps : List ForwardPacket) (bytes : List ℕ) (p : ForwardPacket) (front : List ℕ) (x : ℕ)
      (back : List ℕ)
      → Wire ps bytes
      → p.port < 65536
      → marshal p ≡ ok (front ++ (x ∷ back))
      → parse_available {T = T} conn frames (bytes ++ front)
        ≡ (received (data_msg conn (as_packets ps)), front)
  unfolding parse_available
  parse_available-Wire ps bytes p front x back w hp e =
      let (g, hg, more) = loop-Wire w (suc (length (bytes ++ front))) front [] (omega arith) in
      more ∙ last g hg
    where
      last :
          (g : ℕ)
          → length front < g
          → loop {T = T} conn g front (as_packets ps)
            ≡ (received (data_msg conn (as_packets ps)), front)
      last zero h = absurd (omega arith)
      last (suc g) h =
          loop-waits conn g front (as_packets ps) (unmarshal-prefix p new_forward front x back hp e)

  -- A header that `Unmarshal` rejects condemns the whole read: the frames in front of it are parsed
  -- and consumed, and their packets are not delivered.
  pub parse_available_violation :
      (ps : List ForwardPacket) (bytes bad : List ℕ) (err : PacketError)
      → Wire ps bytes
      → unmarshal new_forward bad ≡ (new_forward, rejects err)
      → parse_available {T = T} conn frames (bytes ++ bad) ≡ (violation, bad)
  unfolding parse_available
  parse_available_violation ps bytes bad err w e =
      let (g, hg, more) = loop-Wire w (suc (length (bytes ++ bad))) bad [] (omega arith) in
      more ∙ last g hg
    where
      last : (g : ℕ) → length bad < g → loop {T = T} conn g bad (as_packets ps) ≡ (violation, bad)
      last zero h = absurd (omega arith)
      last (suc g) h = loop-rejects conn g bad (as_packets ps) err e
