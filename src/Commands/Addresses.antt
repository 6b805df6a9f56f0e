-- ===== src/Commands/Addresses.antt =====
-- Go's `netip.ParseAddr` and `strconv.Atoi` as cmd/client.go uses them: for an IPv4 address, and for
-- a port.
use gforward.Prelude.{
  ℕ, suc, ◌+◌, ◌-◌, ◌*◌, Bool, true, false, ◌&&◌, ◌||◌, Option, none, some, List, [], ◌∷◌, ◌++◌,
  length, ltb, leb, ◌==◌, if◌then◌else◌,
}
use gforward.Protocol.Decimal.{parse_digits}

-- `val`, `digLen` and the fields that are complete.
pub record Fields : Type 0 where
  pub val : ℕ
  pub dig_len : ℕ
  pub fields : List ℕ

abbrev pub is_digit : ℕ → Bool
is_digit c = leb b'0' c && leb c b'9'

abbrev pub add_digit : Fields → ℕ → Option Fields
add_digit s d =
    if s.dig_len == 1 && s.val == 0
    then none
    else if ltb 255 (s.val * 10 + d)
    then none
    else some (record { val = s.val * 10 + d; dig_len = suc s.dig_len; fields = s.fields })

-- `last` says that nothing follows.
abbrev pub end_field : Fields → Bool → Option Fields
end_field s last =
    if s.dig_len == 0 || last
    then none
    else if length s.fields == 3
    then none
    else some (record { val = 0; dig_len = 0; fields = s.fields ++ (s.val ∷ []) })

abbrev pub is_empty : List ℕ → Bool
is_empty [] = true
is_empty (x ∷ xs) = false

abbrev pub on_char : Fields → ℕ → List ℕ → Option Fields
on_char s c rest =
    if is_digit c
    then add_digit s (c - b'0')
    else if c == b'.'
    then end_field s (is_empty rest)
    else none

abbrev pub on_fields : Option Fields → (Fields → Option (List ℕ)) → Option (List ℕ)
on_fields none again = none
on_fields (some s) again = again s

-- The loop over the characters of an IPv4 address.
unfoldable pub ip4_loop : Fields → List ℕ → Option (List ℕ)
ip4_loop s [] = if length s.fields == 3 then some (s.fields ++ (s.val ∷ [])) else none
ip4_loop s (c ∷ cs) = on_fields (on_char s c cs) (λ t. ip4_loop t cs)

-- `ParseAddr` with `Is4`: a text with a colon or a percent sign is no IPv4 address.
unfoldable pub parse_ip4 : List ℕ → Option (List ℕ)
parse_ip4 text = ip4_loop (record { val = 0; dig_len = 0; fields = [] }) text

-- The number of `Atoi` on a port, as far as it is positive: a sign, and digits.
abbrev pub atoi_digits : List ℕ → Option ℕ
atoi_digits [] = none
atoi_digits (c ∷ cs) = parse_digits 0 (c ∷ cs)

abbrev pub atoi_pos : List ℕ → Option ℕ
atoi_pos [] = none
atoi_pos (c ∷ cs) =
    if c == b'+' then atoi_digits cs else if c == b'-' then none else atoi_digits (c ∷ cs)
