-- ===== src/Protocol/Canonical.antt =====
-- `Unmarshal` of protocol/forward.go accepts only what `Marshal` writes.
use gforward.Prelude.{
  ℕ, zero, suc, ◌+◌, ◌*◌, ◌/◌, ◌%◌, ◌≤◌, ◌<◌, ◌≡◌, refl, sym, ap, ◌∙◌, List, [], ◌∷◌, ◌++◌, arith,
  length, take, drop, get_or, ok, length-take, length-drop, take-append-drop, take_append,
  get_or-drop, get_or-IsByte, All, IsByte, All-drop,
}
use gforward.Protocol.{ForwardPacket, frame, marshal, unmarshal, unmarshal_body, finishes}
use gforward.Protocol.Frames.{IsSendable, marshal-frame, length-frame, wire, frame-wire}

drop_nil : (n : ℕ) → drop {A = ℕ} n [] ≡ []
drop_nil zero = refl
drop_nil (suc n) = refl

-- A buffer of a length byte and `rest`, read at an index behind the address.
get_body :
    {i : ℕ} (x n j : ℕ) (rest : List ℕ)
    → i ≡ suc (n + j)
    → get_or (x ∷ rest) i 0 ≡ get_or (drop n rest) j 0
get_body x n j rest e = ap (λ k. get_or (x ∷ rest) k 0) e ∙ sym (get_or-drop n j rest 0)

drop-drop : (n j : ℕ) (xs : List ℕ) → drop j (drop n xs) ≡ drop (n + j) xs
drop-drop zero j xs = let e : j ≡ 0 + j = omega arith in ap (λ k. drop k xs) e
drop-drop (suc n) j [] = drop_nil j ∙ sym (drop_nil (suc n + j))
drop-drop (suc n) j (x ∷ xs) =
    let e : suc (n + j) ≡ suc n + j = omega arith in drop-drop n j xs ∙ ap (λ k. drop k (x ∷ xs)) e

drop_body :
    {i : ℕ} (x n j : ℕ) (rest : List ℕ) → i ≡ suc (n + j) → drop i (x ∷ rest) ≡ drop j (drop n rest)
drop_body x n j rest e = ap (λ k. drop k (x ∷ rest)) e ∙ sym (drop-drop n j rest)

-- Four bytes and what follows them.
four_bytes :
    (xs : List ℕ)
    → 4 ≤ length xs
    → xs ≡ get_or xs 0 0 ∷ get_or xs 1 0 ∷ get_or xs 2 0 ∷ get_or xs 3 0 ∷ drop 4 xs
four_bytes (a ∷ b ∷ c ∷ d ∷ xs) h = refl
four_bytes [] h = absurd (omega arith)
four_bytes (a ∷ []) h = absurd (omega arith)
four_bytes (a ∷ b ∷ []) h = absurd (omega arith)
four_bytes (a ∷ b ∷ c ∷ []) h = absurd (omega arith)

abbrev len_field : List ℕ → ℕ
len_field tail = get_or tail 2 0 * 256 + get_or tail 3 0

-- What a finished parse of `n ∷ rest` has read, with `tail` for what follows the address.
record Reads (p : ForwardPacket) (n : ℕ) (rest tail : List ℕ) (k : ℕ) : Type 0 where
  has_len : 0 < n
  has_addr : p.addr ≡ take n rest
  has_port : p.port ≡ get_or tail 0 0 * 256 + get_or tail 1 0
  has_payload : p.payload ≡ take (len_field tail) (drop 4 tail)
  port_pos : 0 < p.port
  fits : n + 4 + len_field tail ≤ length rest
  takes : k ≡ 5 + n + len_field tail

unmarshal_body-Reads :
    (q p : ForwardPacket) (n k : ℕ) (rest : List ℕ)
    → 0 < n
    → unmarshal_body q (n ∷ rest) n ≡ (p, finishes k)
    → Reads p n rest (drop n rest) k
unfolding unmarshal_body
unmarshal_body-Reads q p n k rest h e = ground (
  arith,
  get_body {i = 1 + n} n n 0 rest,
  get_body {i = 1 + n + 1} n n 1 rest,
  get_body {i = 3 + n} n n 2 rest,
  get_body {i = 3 + n + 1} n n 3 rest,
  drop_body {i = 5 + n} n n 4 rest,
)

unmarshal-Reads :
    (q p : ForwardPacket) (n k : ℕ) (rest : List ℕ)
    → unmarshal q (n ∷ rest) ≡ (p, finishes k)
    → Reads p n rest (drop n rest) k
unfolding unmarshal
unmarshal-Reads q p n k rest e = ground (arith, unmarshal_body-Reads q p n k rest)

-- A packet that was read is one that can be sent, and the buffer begins with its frame.
module _ (p : ForwardPacket) (n k : ℕ) (rest : List ℕ) (r : Reads p n rest (drop n rest) k)
    (bytes : All IsByte (n ∷ rest)) where
  abbrev tail : List ℕ
  tail = drop n rest

  byte_lt : (i : ℕ) → get_or tail i 0 < 256
  byte_lt i = get_or-IsByte tail i (All-drop IsByte n rest bytes.1)

  Reads-length_addr : length p.addr ≡ n
  Reads-length_addr = ap length r.has_addr ∙ omega (arith, length-take n rest, r.fits)

  Reads-length_payload : length p.payload ≡ len_field tail
  Reads-length_payload =
      ap length r.has_payload
      ∙ omega (
        arith,
        length-take (len_field tail) (drop 4 tail),
        length-drop 4 tail,
        length-drop n rest,
        r.fits,
      )

  Reads-IsSendable : IsSendable p
  Reads-IsSendable = record {
    addr_pos = omega (arith, Reads-length_addr, r.has_len);
    addr_le = omega (arith, Reads-length_addr, bytes.0);
    port_pos = r.port_pos;
    port_lt = omega (arith, r.has_port, byte_lt 0, byte_lt 1);
    payload_le = omega (arith, Reads-length_payload, byte_lt 2, byte_lt 3);
  }

  abbrev behind : List ℕ
  behind = drop (len_field tail) (drop 4 tail)

  Reads-tail :
      tail ≡ get_or tail 0 0 ∷ get_or tail 1 0 ∷ get_or tail 2 0 ∷ get_or tail 3 0 ∷ drop 4 tail
  Reads-tail = four_bytes tail (omega (arith, length-drop n rest, r.fits))

  Reads-rest :
      n ∷ rest
      ≡ wire n p.addr
          (get_or tail 0 0)
          (get_or tail 1 0)
          (get_or tail 2 0)
          (get_or tail 3 0)
          (p.payload ++ behind)
  Reads-rest = ap (◌∷◌ n) (
      sym (take-append-drop n rest)
      ∙ ap (◌++◌ (take n rest)) Reads-tail
      ∙ rw (r.has_addr, r.has_payload, take-append-drop (len_field tail) (drop 4 tail)) refl)

  Reads-fields :
      (p.port / 256 ≡ get_or tail 0 0)
      × (p.port % 256 ≡ get_or tail 1 0)
      × (length p.payload / 256 ≡ get_or tail 2 0)
      × (length p.payload % 256 ≡ get_or tail 3 0)
  Reads-fields =
      omega (arith, r.has_port, Reads-length_payload, byte_lt 0, byte_lt 1, byte_lt 2, byte_lt 3)

  Reads-buffer : n ∷ rest ≡ frame p ++ behind
  Reads-buffer =
      let (a, b, c, d) = Reads-fields in
      Reads-rest ∙ sym (frame-wire p behind Reads-IsSendable ∙ rw (Reads-length_addr, a, b, c, d))

  Reads-marshal : (marshal p ≡ ok (take k (n ∷ rest))) × (k ≤ length (n ∷ rest))
  Reads-marshal =
      let size : k ≡ length (frame p) =
        omega (arith, length-frame p, r.takes, Reads-length_addr, Reads-length_payload) in
      (
        marshal-frame p Reads-IsSendable
            ∙ ap ok (
                sym (
                  ap (λ j. take j (n ∷ rest)) size
                  ∙ ap (take (length (frame p))) Reads-buffer
                  ∙ take_append (frame p) behind)),
        omega (arith, r.takes, r.fits),
      )

-- `Unmarshal` accepts only what `Marshal` writes: over a buffer of bytes, the bytes that a
-- finished parse consumes stand in the buffer and are the frame of the packet that it returns.
pub marshal-unmarshal :
    (q p : ForwardPacket) (buf : List ℕ) (n : ℕ)
    → All IsByte buf
    → unmarshal q buf ≡ (p, finishes n)
    → (marshal p ≡ ok (take n buf)) × (n ≤ length buf)
marshal-unmarshal q p [] n h e = absurd (unfold unmarshal in ground arith)
marshal-unmarshal q p (x ∷ rest) n h e = Reads-marshal p x n rest (unmarshal-Reads q p x n rest e) h
