-- ===== src/Message/Streams.antt =====
-- `ParseAvailable` over a stream of forward frames: the packets do not depend on how the bytes were
-- split into reads.
use gforward.Prelude.{
  ℕ, zero, suc, ◌<◌, ◌≡◌, refl, sym, ap, ◌∙◌, List, [], ◌∷◌, ◌++◌, append-nil, append_assoc, arith,
  length, drop, ◌==◌, if◌then◌else◌, length-drop, length-append, drop_short,
}
use gforward.Protocol.{
  InternalPacket, forward, Parsed, new_packet, packet_unmarshal, unmarshal, new_forward, as_forward,
  ForwardPacket, waits, rejects, finishes, PacketError,
}
use gforward.Protocol.Prefixes.{
  answer_waits, answer_rejects, answer_finishes, unmarshal-Answers, unmarshal-append_done,
}
use gforward.Message.{
  Outcome, received, violation, stuck, data_msg, after_parse, parse_loop, parse_available,
}

abbrev pub frames : InternalPacket
frames = forward new_forward

parsed :
    (buf : List ℕ) {r : ForwardPacket × Parsed}
    → unmarshal new_forward buf ≡ r
    → packet_unmarshal (new_packet frames) buf ≡ as_forward r
unfolding packet_unmarshal new_packet
parsed buf e = ap as_forward e

pub empty_waits : unmarshal new_forward [] ≡ (new_forward, waits)
unfolding unmarshal
empty_waits = refl

module _ {T : Type 0} (conn : ℕ) where
  abbrev pub loop : ℕ → List ℕ → List InternalPacket → Outcome T × List ℕ
  loop fuel buf pkts = parse_loop fuel conn frames buf pkts

  pub loop-waits :
      (fuel : ℕ) (buf : List ℕ) (pkts : List InternalPacket)
      → unmarshal new_forward buf ≡ (new_forward, waits)
      → loop (suc fuel) buf pkts ≡ (received (data_msg conn pkts), buf)
  unfolding parse_loop after_parse
  loop-waits fuel buf pkts e = ap (λ r. after_parse conn buf pkts r (loop fuel)) (parsed buf e)

  pub loop-rejects :
      (fuel : ℕ) (buf : List ℕ) (pkts : List InternalPacket) (x : PacketError)
      → unmarshal new_forward buf ≡ (new_forward, rejects x)
      → loop (suc fuel) buf pkts ≡ (violation, buf)
  unfolding parse_loop after_parse
  loop-rejects fuel buf pkts x e = ap (λ r. after_parse conn buf pkts r (loop fuel)) (parsed buf e)

  -- After a parsed frame the loop goes on; on an empty buffer it returns either way.
  pub loop-finishes :
      (fuel : ℕ) (buf : List ℕ) (pkts : List InternalPacket) (p : ForwardPacket) (n : ℕ)
      → 0 < fuel
      → unmarshal new_forward buf ≡ (p, finishes n)
      → loop (suc fuel) buf pkts ≡ loop fuel (drop n buf) (pkts ++ (forward p ∷ []))
  loop-finishes zero buf pkts p n pos e = absurd (omega arith)
  loop-finishes (suc fuel) buf pkts p n pos e =
      unfold parse_loop after_parse in
      ap (λ r. after_parse conn buf pkts r (loop (suc fuel))) (parsed buf e)
      ∙ go (drop n buf) (pkts ++ (forward p ∷ []))
    where
      go :
          (left : List ℕ) (pkts' : List InternalPacket)
          → (if length left == 0
              then (received (data_msg conn pkts'), left)
              else loop (suc fuel) left pkts')
            ≡ loop (suc fuel) left pkts'
      go [] pkts' = sym (loop-waits fuel [] pkts' empty_waits)
      go (x ∷ xs) pkts' = ground arith

  -- The fuel does not matter once it exceeds the buffer's length.
  loop_fuel :
      (f g : ℕ) (buf : List ℕ) (pkts : List InternalPacket)
      → length buf < f
      → length buf < g
      → loop f buf pkts ≡ loop g buf pkts
  loop_fuel zero g buf pkts hf hg = absurd (omega arith)
  loop_fuel (suc f) zero buf pkts hf hg = absurd (omega arith)
  loop_fuel (suc f) (suc g) buf pkts hf hg = elim (unmarshal-Answers new_forward buf) [
    | answer_waits e ↦ loop-waits f buf pkts e ∙ sym (loop-waits g buf pkts e)
    | answer_rejects x e ↦ loop-rejects f buf pkts x e ∙ sym (loop-rejects g buf pkts x e)
    | answer_finishes p n e lo hi ↦
        loop-finishes f buf pkts p n (omega arith) e
        ∙ loop_fuel f g (drop n buf) (pkts ++ (forward p ∷ [])) (omega (arith, length-drop n buf))
            (omega (arith, length-drop n buf))
        ∙ sym (loop-finishes g buf pkts p n (omega arith) e)
  ]

  -- Packets that were read before come in front.
  abbrev pub prepend : List InternalPacket → Outcome T × List ℕ → Outcome T × List ℕ
  prepend ps (received m, left) = (received (record m { pkts = ps ++ m.pkts }), left)
  prepend ps (violation, left) = (violation, left)
  prepend ps (stuck, left) = (stuck, left)

  loop-prepend :
      (f : ℕ) (buf : List ℕ) (ps pkts : List InternalPacket)
      → length buf < f
      → loop f buf (ps ++ pkts) ≡ prepend ps (loop f buf pkts)
  loop-prepend zero buf ps pkts h = absurd (omega arith)
  loop-prepend (suc f) buf ps pkts h = elim (unmarshal-Answers new_forward buf) [
    | answer_waits e ↦
        loop-waits f buf (ps ++ pkts) e ∙ sym (ap (prepend ps) (loop-waits f buf pkts e))
    | answer_rejects x e ↦
        loop-rejects f buf (ps ++ pkts) x e ∙ sym (ap (prepend ps) (loop-rejects f buf pkts x e))
    | answer_finishes p n e lo hi ↦
        loop-finishes f buf (ps ++ pkts) p n (omega arith) e
        ∙ ap (loop f (drop n buf)) (append_assoc ps pkts (forward p ∷ []))
        ∙ loop-prepend f (drop n buf) ps (pkts ++ (forward p ∷ []))
            (omega (arith, length-drop n buf))
        ∙ sym (ap (prepend ps) (loop-finishes f buf pkts p n (omega arith) e))
  ]

  abbrev pkts_of : Outcome T × List ℕ → List InternalPacket
  pkts_of (received m, left) = m.pkts
  pkts_of (violation, left) = []
  pkts_of (stuck, left) = []

  -- The loop on a longer buffer goes on from where it stood on the shorter one.
  loop-append :
      (f g h : ℕ) (a b : List ℕ) (pkts ps : List InternalPacket) (left : List ℕ)
      → length a < f
      → length (a ++ b) < g
      → length (left ++ b) < h
      → loop f a pkts ≡ (received (data_msg conn ps), left)
      → loop g (a ++ b) pkts ≡ loop h (left ++ b) ps
  loop-append zero g h a b pkts ps left hf hg hh e = absurd (omega arith)
  loop-append (suc f) zero h a b pkts ps left hf hg hh e = absurd (omega arith)
  loop-append (suc f) (suc g) h a b pkts ps left hf hg hh e =
      elim (unmarshal-Answers new_forward a) [
        | answer_waits w ↦
            let same = sym (loop-waits f a pkts w) ∙ e in
            let ps_eq : pkts ≡ ps = ap pkts_of same in
            let left_eq : a ≡ left = ap (λ o. o.1) same in
            loop_fuel (suc g) h (a ++ b) pkts hg (rw left_eq hh) ∙ rw (left_eq, ps_eq) refl
        | answer_rejects x w ↦ absurd (cc (e, loop-rejects f a pkts x w))
        | answer_finishes p n w lo hi ↦
            loop-finishes g (a ++ b) pkts p n (omega (arith, length-append a b))
              (unmarshal-append_done new_forward p a b n w)
            ∙ ap (λ l. loop g l (pkts ++ (forward p ∷ []))) (drop_short n a b hi)
            ∙ loop-append f g h (drop n a) b (pkts ++ (forward p ∷ [])) ps left
                (omega (arith, length-drop n a))
                (omega (arith, length-drop n a, length-append a b, length-append (drop n a) b)) hh
                (sym (loop-finishes f a pkts p n (omega arith) w) ∙ e)
      ]

  -- For a protocol of forward frames: if a first read `a` is received, then the bytes that it leaves
  -- together with the next read `b` give the same verdict and left-over bytes as reading both at
  -- once, and the packets of the first read followed by those of the second are the same packets.
  pub parse_available-append :
      (a b : List ℕ) (ps : List InternalPacket) (left : List ℕ)
      → parse_available {T = T} conn frames a ≡ (received (data_msg conn ps), left)
      → parse_available conn frames (a ++ b) ≡ prepend ps (parse_available conn frames (left ++ b))
  unfolding parse_available
  parse_available-append a b ps left e =
      loop-append (suc (length a)) (suc (length (a ++ b))) (suc (length (left ++ b))) a b [] ps left
        (omega arith) (omega arith) (omega arith) e
      ∙ ap (loop (suc (length (left ++ b))) (left ++ b)) (sym (append-nil ps))
      ∙ loop-prepend (suc (length (left ++ b))) (left ++ b) ps [] (omega arith)
