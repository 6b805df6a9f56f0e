-- ===== src/Commands/Bounds.antt =====
-- The parser of IPv4 addresses that cmd/client.go calls: its fields are bytes.
use gforward.Prelude.{
  ℕ, ◌+◌, ◌-◌, ◌*◌, ◌<◌, ◌≤◌, ◌≡◌, Bool, ◌&&◌, ◌||◌, Option, none, some, List, [], ◌∷◌, length, ltb,
  ◌==◌, arith, Bool-cases, inl, inr, All, IsByte, length-append, All-append,
}
use gforward.Commands.Addresses.{
  Fields, is_digit, add_digit, end_field, is_empty, on_char, on_fields, ip4_loop, parse_ip4,
}

abbrev pub at_field : ℕ → ℕ → List ℕ → Fields
at_field val dig_len fields = record { val = val; dig_len = dig_len; fields = fields }

abbrev pub IsIp4 : List ℕ → Type 0
IsIp4 ip = (length ip ≡ 4) × All IsByte ip

abbrev AreBytes : Fields → Type 0
AreBytes s = (s.val < 256) × (length s.fields ≤ 3) × All IsByte s.fields

abbrev AreBytesIf : Option Fields → Type 0
AreBytesIf none = Unit
AreBytesIf (some s) = AreBytes s

abbrev IsIp4If : Option (List ℕ) → Type 0
IsIp4If none = Unit
IsIp4If (some ip) = IsIp4 ip

add_digit-AreBytesIf : (s : Fields) (d : ℕ) → AreBytes s → AreBytesIf (add_digit s d)
add_digit-AreBytesIf s d h = elim (Bool-cases (s.dig_len == 1 && s.val == 0)) [
  | inl lead ↦ rw lead tt
  | inr good ↦ rw good (elim (Bool-cases (ltb 255 (s.val * 10 + d))) [
    | inl large ↦ rw large tt
    | inr small ↦ rw small (ground (arith, small), h.1, h.2)
  ])
]

end_field-AreBytesIf : (s : Fields) (last : Bool) → AreBytes s → AreBytesIf (end_field s last)
end_field-AreBytesIf s last h = elim (Bool-cases (s.dig_len == 0 || last)) [
  | inl bad ↦ rw bad tt
  | inr good ↦ rw good (elim (Bool-cases (length s.fields == 3)) [
    | inl three ↦ rw three tt
    | inr fewer ↦ rw fewer (
      omega arith,
      ground (arith, fewer, h.1, length-append s.fields (s.val ∷ [])),
      All-append IsByte s.fields (s.val ∷ []) h.2 (h.0, tt),
    )
  ])
]

on_char-AreBytesIf :
    (s : Fields) (c : ℕ) (rest : List ℕ) → AreBytes s → AreBytesIf (on_char s c rest)
on_char-AreBytesIf s c rest h = elim (Bool-cases (is_digit c)) [
  | inl digit_here ↦ rw digit_here (add_digit-AreBytesIf s (c - b'0') h)
  | inr other ↦ rw other (elim (Bool-cases (c == b'.')) [
    | inl dot ↦ rw dot (end_field-AreBytesIf s (is_empty rest) h)
    | inr bad ↦ rw bad tt
  ])
]

ip4_loop-IsIp4If : (s : Fields) (text : List ℕ) → AreBytes s → IsIp4If (ip4_loop s text)
unfolding ip4_loop
ip4_loop-IsIp4If s [] h = elim (Bool-cases (length s.fields == 3)) [
  | inl three ↦ rw three (
    ground (arith, three, length-append s.fields (s.val ∷ [])),
    All-append IsByte s.fields (s.val ∷ []) h.2 (h.0, tt),
  )
  | inr fewer ↦ rw fewer tt
]
ip4_loop-IsIp4If s (c ∷ cs) h =
    next (on_char s c cs) (on_char-AreBytesIf s c cs h) (λ t b. ip4_loop-IsIp4If t cs b)
  where
    next :
        (o : Option Fields)
        → AreBytesIf o
        → ((t : Fields) → AreBytes t → IsIp4If (ip4_loop t cs))
        → IsIp4If (on_fields o (λ t. ip4_loop t cs))
    next none b ih = tt
    next (some t) b ih = ih t b

-- What is read is an IPv4 address.
pub parse_ip4-IsIp4 : (text ip : List ℕ) → parse_ip4 text ≡ some ip → IsIp4 ip
unfolding parse_ip4
parse_ip4-IsIp4 text ip e =
    let h : IsIp4If (ip4_loop (at_field 0 0 []) text) =
      ip4_loop-IsIp4If (at_field 0 0 []) text (omega arith, omega arith, tt) in
    rw e at h
