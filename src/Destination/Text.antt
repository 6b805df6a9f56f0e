-- ===== src/Destination/Text.antt =====
-- Go's `strings.TrimSpace` and `strconv.ParseUint(s, 16, 64)`, as client/destination/http_proxy.go
-- uses them on the bytes of a chunk-size line.
use gforward.Prelude.{
  ℕ, zero, suc, ◌+◌, ◌-◌, ◌*◌, ◌^◌, Bool, ◌&&◌, ◌||◌, Option, none, some, List, [], ◌∷◌, ltb, leb,
  ◌==◌, if◌then◌else◌,
}
use mathlib.Core.List.{reverse}

-- A range of bytes.
abbrev within : ℕ → ℕ → ℕ → Bool
within lo hi c = leb lo c && leb c hi

abbrev is_ascii_space : ℕ → Bool
is_ascii_space c = c == b' ' || within 9 13 c

-- U+0085 and U+00A0 behind 0xC2.
abbrev is_space₂ : ℕ → ℕ → Bool
is_space₂ a b = a == 0xc2 && (b == 0x85 || b == 0xa0)

-- U+1680, U+2000 to U+200A, U+2028, U+2029, U+202F, U+205F and U+3000.
abbrev is_space₃ : ℕ → ℕ → ℕ → Bool
is_space₃ a b c =
    (a == 0xe1 && b == 0x9a && c == 0x80)
    || (a == 0xe2 && b == 0x80 && (within 0x80 0x8a c || within 0xa8 0xa9 c || c == 0xaf))
    || (a == 0xe2 && b == 0x81 && c == 0x9f)
    || (a == 0xe3 && b == 0x80 && c == 0x80)

-- The length of the space character that a text begins with, 0 if there is none.
unfoldable pub space_len : List ℕ → ℕ
space_len [] = 0
space_len (a ∷ []) = if is_ascii_space a then 1 else 0
space_len (a ∷ b ∷ []) = if is_ascii_space a then 1 else if is_space₂ a b then 2 else 0
space_len (a ∷ b ∷ c ∷ rest) =
    if is_ascii_space a then 1 else if is_space₂ a b then 2 else if is_space₃ a b c then 3 else 0

-- The same for a reversed text.
unfoldable pub last_space_len : List ℕ → ℕ
last_space_len [] = 0
last_space_len (a ∷ []) = if is_ascii_space a then 1 else 0
last_space_len (b ∷ a ∷ []) = if is_ascii_space b then 1 else if is_space₂ a b then 2 else 0
last_space_len (c ∷ b ∷ a ∷ rest) =
    if is_ascii_space c then 1 else if is_space₂ b c then 2 else if is_space₃ a b c then 3 else 0

-- Drops spaces while `len` finds one; the number counts the bytes of a space still to be dropped.
unfoldable pub drop_spaces : (List ℕ → ℕ) → ℕ → List ℕ → List ℕ
drop_spaces len n [] = []
drop_spaces len (suc n) (x ∷ xs) = drop_spaces len n xs
drop_spaces len zero (x ∷ xs) = elim (len (x ∷ xs)) [ zero ↦ x ∷ xs | suc n ↦ drop_spaces len n xs ]

unfoldable pub trim_space : List ℕ → List ℕ
unfolding drop_spaces space_len last_space_len
trim_space s = reverse (drop_spaces last_space_len 0 (reverse (drop_spaces space_len 0 s)))

unfoldable pub hex_digit : ℕ → Option ℕ
hex_digit c =
    if within b'0' b'9' c
    then some (c - 48)
    else if within b'a' b'f' c
    then some (c - 87)
    else if within b'A' b'F' c
    then some (c - 55)
    else none

abbrev push_digit : Option ℕ → (ℕ → Option ℕ) → Option ℕ
push_digit none rest = none
push_digit (some d) rest = rest d

unfoldable pub parse_hex_digits : ℕ → List ℕ → Option ℕ
unfolding hex_digit
parse_hex_digits acc [] = some acc
parse_hex_digits acc (c ∷ cs) = push_digit (hex_digit c) (λ d. parse_hex_digits (acc * 16 + d) cs)

abbrev in_word : Option ℕ → Option ℕ
in_word none = none
in_word (some n) = if ltb n (2 ^ 64) then some n else none

-- `none` stands for a syntax error and for a value out of range.
unfoldable pub parse_hex64 : List ℕ → Option ℕ
unfolding parse_hex_digits
parse_hex64 [] = none
parse_hex64 (c ∷ cs) = in_word (parse_hex_digits 0 (c ∷ cs))
