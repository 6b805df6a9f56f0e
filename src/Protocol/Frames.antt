-- ===== src/Protocol/Frames.antt =====
-- `Marshal` and `Unmarshal` of protocol/forward.go: what is accepted, and the round trips.
use gforward.Prelude.{
  ℕ, suc, ◌+◌, ◌*◌, ◌/◌, ◌%◌, ◌≤◌, ◌<◌, ◌≡◌, refl, ap, ◌∙◌, List, [], ◌∷◌, ◌++◌, append_assoc,
  arith, length, take, drop, get_or, put_u16, ok, length-append, take_append,
}
use gforward.Protocol.{ForwardPacket, frame, marshal, unmarshal, unmarshal_body, finishes}

-- The packets that can be sent: what `Marshal` checks, and that the port is a uint16.
pub record IsSendable (p : ForwardPacket) : Type 0 where
  pub addr_pos : 0 < length p.addr
  pub addr_le : length p.addr ≤ 255
  pub port_pos : 0 < p.port
  pub port_lt : p.port < 65536
  pub payload_le : length p.payload ≤ 65535

pub marshal-frame : (p : ForwardPacket) → IsSendable p → marshal p ≡ ok (frame p)
unfolding marshal
marshal-frame p h = ground arith

pub marshal-IsSendable :
    (p : ForwardPacket) (bs : List ℕ)
    → p.port < 65536
    → marshal p ≡ ok bs
    → IsSendable p × (bs ≡ frame p)
unfolding marshal
marshal-IsSendable p bs h e = ground arith

pub length-frame : (p : ForwardPacket) → length (frame p) ≡ 5 + length p.addr + length p.payload
length-frame p = omega (
  arith,
  length-append p.addr (put_u16 p.port ++ (put_u16 (length p.payload % 65536) ++ p.payload)),
)

-- Reading a field behind a prefix of known length.
get_or_append : (xs ys : List ℕ) (i d : ℕ) → get_or (xs ++ ys) (length xs + i) d ≡ get_or ys i d
get_or_append [] ys i d = let e : 0 + i ≡ i = omega arith in ap (λ k. get_or ys k d) e
get_or_append (x ∷ xs) ys i d =
    let e : suc (length xs) + i ≡ suc (length xs + i) = omega arith in
    ap (λ k. get_or (x ∷ (xs ++ ys)) k d) e ∙ get_or_append xs ys i d

-- The same behind one more byte, at a computed index.
get_after :
    {i : ℕ} (a : ℕ) (xs ys : List ℕ) (j : ℕ)
    → i ≡ suc (length xs + j)
    → get_or (a ∷ (xs ++ ys)) i 0 ≡ get_or ys j 0
get_after a xs ys j e = ap (λ k. get_or (a ∷ (xs ++ ys)) k 0) e ∙ get_or_append xs ys j 0

drop-length_add : (xs ys : List ℕ) (j : ℕ) → drop (length xs + j) (xs ++ ys) ≡ drop j ys
drop-length_add [] ys j = let e : 0 + j ≡ j = omega arith in ap (λ k. drop k ys) e
drop-length_add (x ∷ xs) ys j =
    let e : suc (length xs) + j ≡ suc (length xs + j) = omega arith in
    ap (λ k. drop k (x ∷ (xs ++ ys))) e ∙ drop-length_add xs ys j

drop_after :
    {i : ℕ} (a : ℕ) (xs ys : List ℕ) (j : ℕ)
    → i ≡ suc (length xs + j)
    → drop i (a ∷ (xs ++ ys)) ≡ drop j ys
drop_after a xs ys j e = ap (λ k. drop k (a ∷ (xs ++ ys))) e ∙ drop-length_add xs ys j

take-length : {n : ℕ} (xs ys : List ℕ) → n ≡ length xs → take n (xs ++ ys) ≡ xs
take-length xs ys e = ap (λ k. take k (xs ++ ys)) e ∙ take_append xs ys

-- The bytes of a frame, with what stands behind it.
abbrev pub wire : ℕ → List ℕ → ℕ → ℕ → ℕ → ℕ → List ℕ → List ℕ
wire n addr a b c d tail = n ∷ (addr ++ (a ∷ b ∷ c ∷ d ∷ tail))

length-wire :
    (n : ℕ) (addr : List ℕ) (a b c d : ℕ) (tail : List ℕ)
    → length (wire n addr a b c d tail) ≡ 5 + length addr + length tail
length-wire n addr a b c d tail = omega (arith, length-append addr (a ∷ b ∷ c ∷ d ∷ tail))

unmarshal-wire :
    (q : ForwardPacket) (n : ℕ) (addr : List ℕ) (a b c d : ℕ) (payload rest : List ℕ)
    → n ≡ length addr
    → 0 < n
    → 0 < a * 256 + b
    → c * 256 + d ≡ length payload
    → unmarshal q (wire n addr a b c d (payload ++ rest)) ≡ (
      record { addr = addr; port = a * 256 + b; payload = payload },
      finishes (5 + n + length payload),
    )
unfolding unmarshal unmarshal_body
unmarshal-wire q n addr a b c d payload rest hn pos hp hl = ground (
  arith,
  get_after {i = 1 + n} n addr (a ∷ b ∷ c ∷ d ∷ (payload ++ rest)) 0,
  get_after {i = 1 + n + 1} n addr (a ∷ b ∷ c ∷ d ∷ (payload ++ rest)) 1,
  get_after {i = 3 + n} n addr (a ∷ b ∷ c ∷ d ∷ (payload ++ rest)) 2,
  get_after {i = 3 + n + 1} n addr (a ∷ b ∷ c ∷ d ∷ (payload ++ rest)) 3,
  drop_after {i = 5 + n} n addr (a ∷ b ∷ c ∷ d ∷ (payload ++ rest)) 4,
  take-length {n = n} addr (a ∷ b ∷ c ∷ d ∷ (payload ++ rest)),
  take-length {n = c * 256 + d} payload rest,
  length-wire n addr a b c d (payload ++ rest),
  length-append payload rest,
)

pub frame-wire :
    (p : ForwardPacket) (rest : List ℕ)
    → IsSendable p
    → frame p ++ rest
      ≡ wire
          (length p.addr)
          p.addr
          (p.port / 256)
          (p.port % 256)
          (length p.payload / 256)
          (length p.payload % 256)
          (p.payload ++ rest)
frame-wire p rest h =
    let n = length p.payload in
    let e0 : length p.addr % 256 ≡ length p.addr = omega arith in
    let e1 : p.port / 256 % 256 ≡ p.port / 256 = omega arith in
    let e2 : length p.payload % 65536 / 256 % 256 ≡ length p.payload / 256 = omega arith in
    let e3 : length p.payload % 65536 % 256 ≡ length p.payload % 256 = omega arith in
    rw (e0, e1, e2, e3) (ap (◌∷◌ (length p.addr)) (append_assoc p.addr _ rest))

-- `Unmarshal` reads back the packet that `Marshal` wrote, whatever follows it in the buffer, and
-- consumes exactly the frame: for every packet with a 16-bit port that `Marshal` accepts.
pub unmarshal-marshal :
    (p q : ForwardPacket) (bs rest : List ℕ)
    → p.port < 65536
    → marshal p ≡ ok bs
    → unmarshal q (bs ++ rest) ≡ (p, finishes (length bs))
unmarshal-marshal p q bs rest hp e =
    let (h, eq) = marshal-IsSendable p bs hp e in
    let port : p.port / 256 * 256 + p.port % 256 ≡ p.port = omega arith in
    rw (eq, frame-wire p rest h)
      (unmarshal-wire q (length p.addr) p.addr (p.port / 256) (p.port % 256)
          (length p.payload / 256) (length p.payload % 256) p.payload rest refl h.addr_pos
          (omega (arith, h.port_pos)) (omega arith)
        ∙ rw (port, length-frame p))
