-- ===== src/Protocol/Decimal.antt =====
-- Go's `strconv.Itoa` on a port and `strconv.ParseUint(s, 10, 16)`, as protocol/forward.go uses them.
use native.Mathlib.Nat.{pow-suc}
use gforward.Prelude.{
  ℕ, zero, suc, ◌+◌, ◌-◌, ◌*◌, ◌/◌, ◌%◌, ◌^◌, ◌<◌, ◌≡◌, refl, ◌∙◌, ap, ◌&&◌, Option, none, some,
  List, [], ◌∷◌, arith, leb, ltb, if◌then◌else◌, Bool-cases, inl, inr,
}

abbrev pub digit : ℕ → ℕ
digit d = d + 48

-- Digits in front of `rest`, the lowest last; `fuel` bounds their number.
unfoldable pub format_digits : ℕ → ℕ → List ℕ → List ℕ
format_digits zero n rest = rest
format_digits (suc fuel) n rest =
    let more = format_digits fuel (n / 10) (digit (n % 10) ∷ rest) in
    if ltb n 10 then digit n ∷ rest else more

-- A number below 10 ^ 20, as every 64-bit word is, has twenty digits at most.
unfoldable pub itoa : ℕ → List ℕ
itoa n = format_digits 20 n []

unfoldable pub parse_digits : ℕ → List ℕ → Option ℕ
parse_digits acc [] = some acc
parse_digits acc (c ∷ cs) =
    let rest = parse_digits (acc * 10 + (c - 48)) cs in if leb 48 c && leb c 57 then rest else none

abbrev in_range : Option ℕ → Option ℕ
in_range none = none
in_range (some n) = if leb n 65535 then some n else none

-- `none` stands for a syntax error and for a value out of range.
unfoldable pub parse_uint16 : List ℕ → Option ℕ
parse_uint16 [] = none
parse_uint16 (c ∷ cs) = in_range (parse_digits 0 (c ∷ cs))

parse_digits-cons :
    (acc d : ℕ) (rest : List ℕ)
    → d < 10
    → parse_digits acc (digit d ∷ rest) ≡ parse_digits (acc * 10 + d) rest
unfolding parse_digits
parse_digits-cons acc d rest h = let e : d + 48 - 48 ≡ d = omega arith in ground (arith, e)

-- Dividing by ten takes a digit off the bound.
div-lt-pow : (fuel n : ℕ) → n < 10 ^ suc fuel → n / 10 < 10 ^ fuel
div-lt-pow fuel n h = let e : 10 ^ suc fuel ≡ 10 ^ fuel * 10 = pow-suc 10 fuel in omega arith

div-add-mod' : (n : ℕ) → n / 10 * 10 + n % 10 ≡ n
div-add-mod' n = omega arith

zero_times : (n : ℕ) (rest : List ℕ) → parse_digits (0 * 10 + n) rest ≡ parse_digits n rest
zero_times n rest = let e : 0 * 10 + n ≡ n = omega arith in ap (λ k. parse_digits k rest) e

parse_digits-format_digits :
    (fuel n : ℕ) (rest : List ℕ)
    → n < 10 ^ fuel
    → 0 < n
    → parse_digits 0 (format_digits fuel n rest) ≡ parse_digits n rest
unfolding format_digits
parse_digits-format_digits zero n rest h pos = absurd (omega arith)
parse_digits-format_digits (suc fuel) n rest h pos = elim (Bool-cases (ltb n 10)) [
  | inl small ↦ rw small (parse_digits-cons 0 n rest (ground arith) ∙ zero_times n rest)
  | inr large ↦ rw large (
      parse_digits-format_digits fuel (n / 10) (digit (n % 10) ∷ rest) (div-lt-pow fuel n h)
        (ground arith)
      ∙ parse_digits-cons (n / 10) (n % 10) rest (omega arith)
      ∙ ap (λ k. parse_digits k rest) (div-add-mod' n))
]

parse_uint16-cons :
    (c : ℕ) (rest : List ℕ) → parse_uint16 (c ∷ rest) ≡ in_range (parse_digits 0 (c ∷ rest))
unfolding parse_uint16
parse_uint16-cons c rest = refl

-- The text is never empty, so reading it comes down to `parse_digits`.
parse_uint16-format_digits :
    (fuel n c : ℕ) (rest : List ℕ)
    → parse_uint16 (format_digits fuel n (c ∷ rest))
      ≡ in_range (parse_digits 0 (format_digits fuel n (c ∷ rest)))
unfolding format_digits
parse_uint16-format_digits zero n c rest = parse_uint16-cons c rest
parse_uint16-format_digits (suc fuel) n c rest = elim (Bool-cases (ltb n 10)) [
  | inl small ↦ rw small (parse_uint16-cons (digit n) (c ∷ rest))
  | inr large ↦ rw large (parse_uint16-format_digits fuel (n / 10) (digit (n % 10)) (c ∷ rest))
]

parse_uint16-itoa_text :
    (fuel n : ℕ)
    → parse_uint16 (format_digits (suc fuel) n [])
      ≡ in_range (parse_digits 0 (format_digits (suc fuel) n []))
unfolding format_digits
parse_uint16-itoa_text fuel n = elim (Bool-cases (ltb n 10)) [
  | inl small ↦ rw small (parse_uint16-cons (digit n) [])
  | inr large ↦ rw large (parse_uint16-format_digits fuel (n / 10) (digit (n % 10)) [])
]

-- A port's decimal text is read back as the port.
pub parse_uint16-itoa : (n : ℕ) → 0 < n → n < 65536 → parse_uint16 (itoa n) ≡ some n
unfolding itoa
parse_uint16-itoa n pos h =
    parse_uint16-itoa_text 19 n
    ∙ ap in_range (parse_digits-format_digits 20 n [] (omega arith) pos)
    ∙ read
  where
    read : in_range (parse_digits n []) ≡ some n
    read = unfold parse_digits in ground arith

pub parse_uint16-lt : (text : List ℕ) (n : ℕ) → parse_uint16 text ≡ some n → n < 65536
unfolding parse_uint16
parse_uint16-lt [] n h = absurd (ground arith)
parse_uint16-lt (c ∷ cs) n h = ground arith
