-- ===== src/Commands/Octets.antt =====
-- The text of an IPv4 address, as cmd/client.go reads and writes it.
use gforward.Prelude.{
  ℕ, suc, ◌+◌, ◌-◌, ◌*◌, ◌/◌, ◌%◌, ◌<◌, ◌≤◌, ◌≡◌, refl, ap, ◌∙◌, true, false, ◌&&◌, some, List, [],
  ◌∷◌, ◌++◌, length, ltb, ◌==◌, if◌then◌else◌, arith, Bool-cases, inl, inr, append-nil,
}
use gforward.Protocol.Decimal.{itoa, format_digits, digit}
use gforward.Destination.Shadowsocks.Address.{ip4_string}
use gforward.Commands.Addresses.{Fields, is_digit, ip4_loop, parse_ip4}
use gforward.Commands.Bounds.{at_field, IsIp4}

-- Reading a digit.
digit-loop :
    (s : Fields) (d : ℕ) (rest : List ℕ)
    → d < 10
    → (s.dig_len == 1 && s.val == 0) ≡ false
    → s.val * 10 + d ≤ 255
    → ip4_loop s (digit d ∷ rest)
      ≡ ip4_loop (record { val = s.val * 10 + d; dig_len = suc s.dig_len; fields = s.fields }) rest
unfolding ip4_loop
digit-loop s d rest lt lead fits =
    let is : is_digit (d + 48) ≡ true = ground (arith, lt) in
    let back : d + 48 - 48 ≡ d = omega arith in
    let small : ltb 255 (s.val * 10 + d) ≡ false = ground (arith, fits) in
    rw (is, back, lead, small) refl

-- The decimal text of a byte.
itoa-byte :
    (n : ℕ)
    → itoa n ≡ (
        if ltb n 10
        then digit n ∷ []
        else if ltb n 100
        then digit (n / 10) ∷ digit (n % 10) ∷ []
        else format_digits 18 (n / 10 / 10) (digit (n / 10 % 10) ∷ digit (n % 10) ∷ []))
unfolding itoa format_digits
itoa-byte n = elim (Bool-cases (ltb n 10)) [
  | inl one ↦ rw one refl
  | inr more ↦ elim (Bool-cases (ltb n 100)) [
    | inl two ↦ let e : ltb (n / 10) 10 ≡ true = ground (arith, two) in rw (more, two, e) refl
    | inr three ↦
        let e : ltb (n / 10) 10 ≡ false = ground (arith, three) in rw (more, three, e) refl
  ]
]

hundreds : (n : ℕ) (rest : List ℕ) → n < 10 → format_digits 18 n rest ≡ digit n ∷ rest
unfolding format_digits
hundreds n rest lt = let e : ltb n 10 ≡ true = ground (arith, lt) in rw e refl

-- A byte's text is read as this byte.
byte-loop :
    (n : ℕ) (fields rest : List ℕ)
    → n < 256
    → (k : ℕ) × (0 < k)
      × (ip4_loop (at_field 0 0 fields) (itoa n ++ rest) ≡ ip4_loop (at_field n k fields) rest)
byte-loop n fields rest lt = elim (Bool-cases (ltb n 10)) [
  | inl one ↦ (
    1,
    omega arith,
    rw (itoa-byte n, one)
        (digit-loop (at_field 0 0 fields) n rest (ground (arith, one)) refl (omega (arith, lt))
          ∙ ap (λ v. ip4_loop (at_field v 1 fields) rest) (times_zero n)),
  )
  | inr more ↦ elim (Bool-cases (ltb n 100)) [
    | inl two ↦ (
      2,
      omega arith,
      rw (itoa-byte n, more, two)
          (digit-loop (at_field 0 0 fields) (n / 10) (digit (n % 10) ∷ rest) (ground (arith, two))
              refl (omega (arith, lt))
            ∙ digit-loop (at_field (0 * 10 + n / 10) 1 fields) (n % 10) rest (omega arith)
                (ground (arith, more)) (omega (arith, lt))
            ∙ ap (λ v. ip4_loop (at_field v 2 fields) rest) (tens n)),
    )
    | inr three ↦
        let top : n / 10 / 10 < 10 = omega (arith, lt) in
        let lead : (0 * 10 + n / 10 / 10 == 0) ≡ false = ground (arith, three) in
        (
          3,
          omega arith,
          rw
              (
                itoa-byte n,
                more,
                three,
                hundreds (n / 10 / 10) (digit (n / 10 % 10) ∷ digit (n % 10) ∷ []) top,
              )
              (digit-loop (at_field 0 0 fields) (n / 10 / 10)
                  (digit (n / 10 % 10) ∷ digit (n % 10) ∷ rest) top refl (omega (arith, lt))
                ∙ digit-loop (at_field (0 * 10 + n / 10 / 10) 1 fields) (n / 10 % 10)
                    (digit (n % 10) ∷ rest) (omega arith) (rw lead refl) (omega (arith, lt))
                ∙ digit-loop (at_field ((0 * 10 + n / 10 / 10) * 10 + n / 10 % 10) 2 fields)
                    (n % 10) rest (omega arith) refl (omega (arith, lt))
                ∙ ap (λ v. ip4_loop (at_field v 3 fields) rest) (all_digits n)),
        )
  ]
]
  where
    times_zero : (m : ℕ) → 0 * 10 + m ≡ m
    times_zero m = omega arith

    tens : (m : ℕ) → (0 * 10 + m / 10) * 10 + m % 10 ≡ m
    tens m = omega arith

    all_digits : (m : ℕ) → ((0 * 10 + m / 10 / 10) * 10 + m / 10 % 10) * 10 + m % 10 ≡ m
    all_digits m = omega arith

dot-loop :
    (val k : ℕ) (fields rest : List ℕ) (x : ℕ)
    → 0 < k
    → (length fields == 3) ≡ false
    → ip4_loop (at_field val k fields) (b'.' ∷ x ∷ rest)
      ≡ ip4_loop (at_field 0 0 (fields ++ (val ∷ []))) (x ∷ rest)
unfolding ip4_loop
dot-loop val k fields rest x pos room =
    let some_digit : (k == 0) ≡ false = ground (arith, pos) in rw (some_digit, room) refl

dot_text :
    (val k : ℕ) (fields text : List ℕ) (x : ℕ) (xs : List ℕ)
    → 0 < k
    → (length fields == 3) ≡ false
    → text ≡ x ∷ xs
    → ip4_loop (at_field val k fields) (b'.' ∷ text)
      ≡ ip4_loop (at_field 0 0 (fields ++ (val ∷ []))) text
dot_text val k fields text x xs pos room e = rw e (dot-loop val k fields xs x pos room)

-- A byte's text begins with a digit.
starts_with :
    (n : ℕ) (rest : List ℕ) → n < 256 → (x : ℕ) × (xs : List ℕ) × (itoa n ++ rest ≡ x ∷ xs)
starts_with n rest lt = elim (Bool-cases (ltb n 10)) [
  | inl one ↦ (digit n, rest, rw (itoa-byte n, one) refl)
  | inr more ↦ elim (Bool-cases (ltb n 100)) [
    | inl two ↦ (digit (n / 10), digit (n % 10) ∷ rest, rw (itoa-byte n, more, two) refl)
    | inr three ↦
        let top : n / 10 / 10 < 10 = omega (arith, lt) in
        (
          digit (n / 10 / 10),
          digit (n / 10 % 10) ∷ digit (n % 10) ∷ rest,
          rw
              (
                itoa-byte n,
                more,
                three,
                hundreds (n / 10 / 10) (digit (n / 10 % 10) ∷ digit (n % 10) ∷ []) top,
              )
              refl,
        )
  ]
]

field-loop :
    (n m : ℕ) (fields rest : List ℕ)
    → n < 256
    → m < 256
    → (length fields == 3) ≡ false
    → ip4_loop (at_field 0 0 fields) (itoa n ++ (b'.' ∷ (itoa m ++ rest)))
      ≡ ip4_loop (at_field 0 0 (fields ++ (n ∷ []))) (itoa m ++ rest)
field-loop n m fields rest lt lt' room =
    let (k, pos, read) = byte-loop n fields (b'.' ∷ (itoa m ++ rest)) lt in
    let (x, xs, e) = starts_with m rest lt' in
    read ∙ dot_text n k fields (itoa m ++ rest) x xs pos room e

last-loop :
    (n : ℕ) (fields : List ℕ)
    → n < 256
    → (length fields == 3) ≡ true
    → ip4_loop (at_field 0 0 fields) (itoa n) ≡ some (fields ++ (n ∷ []))
unfolding ip4_loop
last-loop n fields lt three =
    let (k, pos, read) = byte-loop n fields [] lt in
    let read' : ip4_loop (at_field 0 0 fields) (itoa n) ≡ ip4_loop (at_field n k fields) [] =
      rw (append-nil (itoa n)) at read in
    read' ∙ rw three refl

four_bytes :
    (a b c d : ℕ)
    → a < 256
    → b < 256
    → c < 256
    → d < 256
    → parse_ip4 (ip4_string (a ∷ b ∷ c ∷ d ∷ [])) ≡ some (a ∷ b ∷ c ∷ d ∷ [])
unfolding parse_ip4 ip4_string
four_bytes a b c d ha hb hc hd =
    field-loop a b [] (b'.' ∷ (itoa c ++ (b'.' ∷ itoa d))) ha hb refl
    ∙ field-loop b c (a ∷ []) (b'.' ∷ itoa d) hb hc refl
    ∙ (let (k, pos, read) = byte-loop c (a ∷ b ∷ []) (b'.' ∷ itoa d) hc in
        let (x, xs, e) = starts_with d [] hd in
        let e' : itoa d ≡ x ∷ xs = rw (append-nil (itoa d)) at e in
        read ∙ dot_text c k (a ∷ b ∷ []) (itoa d) x xs pos refl e')
    ∙ last-loop d (a ∷ b ∷ c ∷ []) hd refl

-- The text of an IPv4 address is read as this address.
pub parse_ip4-ip4_string : (ip : List ℕ) → IsIp4 ip → parse_ip4 (ip4_string ip) ≡ some ip
parse_ip4-ip4_string [] h = absurd (omega (arith, h.0))
parse_ip4-ip4_string (a ∷ []) h = absurd (omega (arith, h.0))
parse_ip4-ip4_string (a ∷ b ∷ []) h = absurd (omega (arith, h.0))
parse_ip4-ip4_string (a ∷ b ∷ c ∷ []) h = absurd (omega (arith, h.0))
parse_ip4-ip4_string (a ∷ b ∷ c ∷ d ∷ []) h = four_bytes a b c d h.1.0 h.1.1.0 h.1.1.1.0 h.1.1.1.1.0
parse_ip4-ip4_string (a ∷ b ∷ c ∷ d ∷ e ∷ rest) h = absurd (omega (arith, h.0))
