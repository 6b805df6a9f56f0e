-- ===== src/Protocol/Prefixes.antt =====
-- `Unmarshal` of protocol/forward.go on a buffer that grows: what it answers on a prefix.
use gforward.Prelude.{
  ℕ, ◌+◌, ◌≤◌, ◌<◌, ◌≡◌, refl, inl, inr, List, [], ◌∷◌, ◌++◌, append-nil, arith, length, drop,
  get_or, be_u16, ltb, ◌==◌, ok, Bool-cases, length-append, length-drop, take_short, drop_short,
  get_or_short,
}
use gforward.Protocol.{
  ForwardPacket, PacketError, address_is_empty, port_is_zero, Parsed, marshal, unmarshal,
  unmarshal_body, waits, rejects, finishes,
}
use gforward.Protocol.Frames.{unmarshal-marshal}

be_u16_short : (xs ys : List ℕ) (i : ℕ) → i + 1 < length xs → be_u16 (xs ++ ys) i ≡ be_u16 xs i
be_u16_short xs ys i h = rw (get_or_short xs ys i 0 (omega arith), get_or_short xs ys (i + 1) 0 h)

-- The three answers: wait and reject leave the packet alone, and a finished parse has not read
-- past the buffer.
pub data Answers (q : ForwardPacket) (buf : List ℕ) (r : ForwardPacket × Parsed) : Type 0 where
  answer_waits : r ≡ (q, waits) → Answers q buf r
  answer_rejects : (e : PacketError) → r ≡ (q, rejects e) → Answers q buf r
  answer_finishes :
      (p : ForwardPacket) (n : ℕ) → r ≡ (p, finishes n) → 6 ≤ n → n ≤ length buf → Answers q buf r

unmarshal_body-Answers :
    (q : ForwardPacket) (buf : List ℕ) (n : ℕ) → 0 < n → Answers q buf (unmarshal_body q buf n)
unfolding unmarshal_body
unmarshal_body-Answers q buf n h = elim (Bool-cases (be_u16 buf (1 + n) == 0)) [
  | inl zero_port ↦ rw zero_port (answer_rejects port_is_zero refl)
  | inr port ↦ elim (Bool-cases (ltb (length buf) (5 + n + be_u16 buf (3 + n)))) [
    | inl short ↦ rw (port, short) (answer_waits refl)
    | inr full ↦ rw (port, full) (answer_finishes _ _ refl (ground arith) (ground arith))
  ]
]

-- Every answer of `Unmarshal` is of one of these forms.
pub unmarshal-Answers : (q : ForwardPacket) (buf : List ℕ) → Answers q buf (unmarshal q buf)
unfolding unmarshal
unmarshal-Answers q buf = elim (Bool-cases (ltb (length buf) 1)) [
  | inl nothing ↦ rw nothing (answer_waits refl)
  | inr some_byte ↦ elim (Bool-cases (get_or buf 0 0 == 0)) [
    | inl zero_len ↦ rw (some_byte, zero_len) (answer_rejects address_is_empty refl)
    | inr len ↦ elim (Bool-cases (ltb (length buf) (5 + get_or buf 0 0))) [
      | inl short ↦ rw (some_byte, len, short) (answer_waits refl)
      | inr full ↦
          rw (some_byte, len, full) (unmarshal_body-Answers q buf (get_or buf 0 0) (ground arith))
    ]
  ]
]

unmarshal_body-append :
    (q p : ForwardPacket) (buf more : List ℕ) (n k : ℕ)
    → 5 + n ≤ length buf
    → unmarshal_body q buf n ≡ (p, finishes k)
    → unmarshal_body q (buf ++ more) n ≡ (p, finishes k)
unfolding unmarshal_body
unmarshal_body-append q p buf more n k h e = ground (
  arith,
  be_u16_short buf more (1 + n),
  be_u16_short buf more (3 + n),
  length-append buf more,
  take_short n (drop 1 buf) more,
  drop_short 1 buf more,
  length-drop 1 buf,
  length-drop (5 + n) buf,
  drop_short (5 + n) buf more,
  take_short (be_u16 buf (3 + n)) (drop (5 + n) buf) more,
)

-- A finished parse is not changed by the bytes that arrive later.
pub unmarshal-append_done :
    (q p : ForwardPacket) (buf more : List ℕ) (k : ℕ)
    → unmarshal q buf ≡ (p, finishes k)
    → unmarshal q (buf ++ more) ≡ (p, finishes k)
unfolding unmarshal
unmarshal-append_done q p buf more k e = ground (
  arith,
  get_or_short buf more 0 0,
  length-append buf more,
  unmarshal_body-append q p buf more (get_or buf 0 0) k,
)

unmarshal_body-append_rejected :
    (q p : ForwardPacket) (buf more : List ℕ) (n : ℕ) (x : PacketError)
    → 5 + n ≤ length buf
    → unmarshal_body q buf n ≡ (p, rejects x)
    → unmarshal_body q (buf ++ more) n ≡ (p, rejects x)
unfolding unmarshal_body
unmarshal_body-append_rejected q p buf more n x h e = ground (arith, be_u16_short buf more (1 + n))

-- Nor does a rejection go away.
pub unmarshal-append_rejected :
    (q p : ForwardPacket) (buf more : List ℕ) (x : PacketError)
    → unmarshal q buf ≡ (p, rejects x)
    → unmarshal q (buf ++ more) ≡ (p, rejects x)
unfolding unmarshal
unmarshal-append_rejected q p buf more x e = ground (
  arith,
  get_or_short buf more 0 0,
  length-append buf more,
  unmarshal_body-append_rejected q p buf more (get_or buf 0 0) x,
)

-- A frame that has not arrived whole makes `Unmarshal` wait and leave the packet alone: on every
-- proper prefix of what `Marshal` wrote, for every packet with a 16-bit port.
pub unmarshal-prefix :
    (p q : ForwardPacket) (front : List ℕ) (x : ℕ) (back : List ℕ)
    → p.port < 65536
    → marshal p ≡ ok (front ++ (x ∷ back))
    → unmarshal q front ≡ (q, waits)
unmarshal-prefix p q front x back hp e = go (unmarshal-Answers q front)
  where
    whole : unmarshal q (front ++ (x ∷ back)) ≡ (p, finishes (length (front ++ (x ∷ back))))
    whole = rw append-nil at (unmarshal-marshal p q (front ++ (x ∷ back)) [] hp e)

    go : Answers q front (unmarshal q front) → unmarshal q front ≡ (q, waits)
    go (answer_waits r) = r
    go (answer_rejects y r) = cc (whole, unmarshal-append_rejected q q front (x ∷ back) y r)
    go (answer_finishes p' n r lo hi) = ground (
      arith,
      whole,
      unmarshal-append_done q p' front (x ∷ back) n r,
      length-append front (x ∷ back),
    )
