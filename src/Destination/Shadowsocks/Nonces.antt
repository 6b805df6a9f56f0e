-- ===== src/Destination/Shadowsocks/Nonces.antt =====
-- `increment` of client/destination/shadowsocks.go as addition on a little-endian number.
use gforward.Prelude.{
  ℕ, zero, suc, ◌+◌, ◌*◌, ◌%◌, ◌<◌, ◌≡◌, refl, ◌∙◌, true, false, List, [], ◌∷◌, length, All, IsByte,
  ltb, ◌==◌, if◌then◌else◌, arith, Bool-cases, inl, inr,
}
use gforward.Destination.Shadowsocks.{increment, zeros}

abbrev pub le_value : List ℕ → ℕ
le_value [] = 0
le_value (b ∷ bs) = b + 256 * le_value bs

-- The number of nonces of a length.
abbrev pub nonce_count : ℕ → ℕ
nonce_count zero = 1
nonce_count (suc n) = 256 * nonce_count n

pub le_value-lt : (bs : List ℕ) → All IsByte bs → le_value bs < nonce_count (length bs)
le_value-lt [] h = omega arith
le_value-lt (b ∷ bs) h = omega (arith, h.0, le_value-lt bs h.1)

pub length-increment : (bs : List ℕ) → length (increment bs) ≡ length bs
unfolding increment
length-increment [] = refl
length-increment (b ∷ bs) = ground (arith, length-increment bs)

pub increment-All : (bs : List ℕ) → All IsByte bs → All IsByte (increment bs)
unfolding increment
increment-All [] h = tt
increment-All (b ∷ bs) h = ground (arith, increment-All bs h.1, h)

-- `increment` on a nonce of bytes adds one to the little-endian number that it stands for, and wraps
-- to zero behind the last one; the result has as many bytes.
pub increment-le_value :
    (bs : List ℕ)
    → All IsByte bs
    → le_value (increment bs)
      ≡ (if ltb (le_value bs + 1) (nonce_count (length bs)) then le_value bs + 1 else 0)
unfolding increment
increment-le_value [] h = refl
increment-le_value (b ∷ bs) h =
    let small = h.0 in
    let bound = le_value-lt bs h.1 in
    let rest = increment-le_value bs h.1 in
    elim (Bool-cases (ltb (b + 1) 256)) [
      | inl low ↦
          let c : (b + 1) % 256 ≡ b + 1 = ground (arith, low) in
          let nonzero : ((b + 1) % 256 == 0) ≡ false = ground (arith, c) in
          let fits : ltb (b + 256 * le_value bs + 1) (256 * nonce_count (length bs)) ≡ true =
            ground (arith, low, bound) in
          rw (nonzero, c, fits) (omega arith)
      | inr top ↦
          let c : (b + 1) % 256 ≡ 0 = ground (arith, top, small) in
          let full : b ≡ 255 = ground (arith, top, small) in
          let none_left : ((b + 1) % 256 == 0) ≡ true = ground (arith, c) in
          elim (Bool-cases (ltb (le_value bs + 1) (nonce_count (length bs)))) [
            | inl more ↦
                let fits : ltb (b + 256 * le_value bs + 1) (256 * nonce_count (length bs)) ≡ true =
                  ground (arith, more, full) in
                let v : le_value (increment bs) ≡ le_value bs + 1 = rw more at rest in
                rw (none_left, c, fits) (omega (arith, v, full))
            | inr last ↦
                let over : ltb (b + 256 * le_value bs + 1) (256 * nonce_count (length bs)) ≡ false =
                  ground (arith, last, full) in
                let v : le_value (increment bs) ≡ 0 = rw last at rest in
                rw (none_left, c, over) (omega (arith, v))
          ]
    ]

zeros-All : (n : ℕ) → All IsByte (zeros n)
zeros-All zero = tt
zeros-All (suc n) = (omega arith, zeros-All n)

le_value-zeros : (n : ℕ) → (le_value (zeros n) ≡ 0) × (length (zeros n) ≡ n)
le_value-zeros zero = (refl, refl)
le_value-zeros (suc n) = let (v, l) = le_value-zeros n in (omega (arith, v), omega (arith, l))

-- The k-th nonce of a session.
abbrev pub nonce_at : ℕ → ℕ → List ℕ
nonce_at size zero = zeros size
nonce_at size (suc k) = increment (nonce_at size k)

pub nonce_at-bytes : (size k : ℕ) → All IsByte (nonce_at size k) × (length (nonce_at size k) ≡ size)
nonce_at-bytes size zero = (zeros-All size, (le_value-zeros size).1)
nonce_at-bytes size (suc k) =
    let (bytes, len) = nonce_at-bytes size k in
    (increment-All (nonce_at size k) bytes, length-increment (nonce_at size k) ∙ len)

-- The k-th nonce of a session stands for the number k, as long as the nonces last; so none of them
-- comes twice.
pub le_value-nonce_at : (size k : ℕ) → k < nonce_count size → le_value (nonce_at size k) ≡ k
le_value-nonce_at size zero h = (le_value-zeros size).0
le_value-nonce_at size (suc k) h =
    let (bytes, len) = nonce_at-bytes size k in
    let v = le_value-nonce_at size k (omega arith) in
    let fits : ltb (le_value (nonce_at size k) + 1) (nonce_count (length (nonce_at size k)))
        ≡ true =
      rw (v, len) (ground (arith, h)) in
    increment-le_value (nonce_at size k) bytes ∙ rw fits (omega (arith, v))
