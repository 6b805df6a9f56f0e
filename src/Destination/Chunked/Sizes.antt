-- ===== src/Destination/Chunked/Sizes.antt =====
-- The size lines of RFC 9112, as the parser of client/destination/http_proxy.go reads them.
use gforward.Prelude.{
  ℕ, suc, ◌+◌, ◌*◌, ◌^◌, ◌<◌, ◌≡◌, refl, sym, ap, ◌∙◌, Bool, true, false, Option, none, some, List,
  [], ◌∷◌, ◌++◌, append-nil, arith, length, ltb, ◌==◌, if◌then◌else◌, All, take_append,
}
use gforward.Protocol.HostPort.{index_byte, contains_byte}
use gforward.Protocol.Destinations.{index_byte-append}
use gforward.Destination.Text.{trim_space, hex_digit, parse_hex_digits, parse_hex64}
use gforward.Destination.Chunked.{chunk_size, cut_at}
use gforward.Destination.Chunked.Trims.{IsBlank, IsPlain, trim_space-blanks, trim_space-semicolon}

-- A hexadecimal digit, by its value and its case.
pub record HexDigit : Type 0 where
  pub value : ℕ
  pub upper : Bool

abbrev pub IsHexDigit : HexDigit → Type 0
IsHexDigit d = d.value < 16

abbrev pub hex_char : HexDigit → ℕ
hex_char d = if ltb d.value 10 then 48 + d.value else if d.upper then 55 + d.value else 87 + d.value

abbrev pub hex_text : List HexDigit → List ℕ
hex_text [] = []
hex_text (d ∷ ds) = hex_char d ∷ hex_text ds

-- The value of a numeral, by the places of its digits.
abbrev pub hex_value : List HexDigit → ℕ
hex_value [] = 0
hex_value (d ∷ ds) = d.value * 16 ^ length ds + hex_value ds

-- Digits, blanks, and an extension behind a semicolon, if any.
pub record SizeLine : Type 0 where
  pub digits : List HexDigit
  pub blanks : List ℕ
  pub extension : Option (List ℕ)

abbrev pub extension_text : Option (List ℕ) → List ℕ
extension_text none = []
extension_text (some text) = b';' ∷ text

abbrev pub size_text : SizeLine → List ℕ
size_text l = (hex_text l.digits ++ l.blanks) ++ extension_text l.extension

abbrev pub IsSizeLine : ℕ → SizeLine → Type 0
IsSizeLine n l =
    (0 < length l.digits)
    × All IsHexDigit l.digits
    × All IsBlank l.blanks
    × (hex_value l.digits ≡ n)
    × (n < 2 ^ 64)

hex_char-IsPlain : (d : HexDigit) → IsHexDigit d → IsPlain (hex_char d)
hex_char-IsPlain d h = ground (arith, h)

hex_text-IsPlain : (ds : List HexDigit) → All IsHexDigit ds → All IsPlain (hex_text ds)
hex_text-IsPlain [] h = tt
hex_text-IsPlain (d ∷ ds) h = (hex_char-IsPlain d h.0, hex_text-IsPlain ds h.1)

hex_digit-hex_char : (d : HexDigit) → IsHexDigit d → hex_digit (hex_char d) ≡ some d.value
unfolding hex_digit
hex_digit-hex_char d h = ground (arith, h)

-- One more digit in front.
hex_value-push : (acc v p q w : ℕ) → q ≡ p * 16 → (acc * 16 + v) * p + w ≡ acc * q + (v * p + w)
hex_value-push acc v p q w e = rw e (grind arith)

parse_hex_digits-hex_text :
    (ds : List HexDigit) (acc : ℕ)
    → All IsHexDigit ds
    → parse_hex_digits acc (hex_text ds) ≡ some (acc * 16 ^ length ds + hex_value ds)
unfolding parse_hex_digits
parse_hex_digits-hex_text [] acc h = ap some (omega arith)
parse_hex_digits-hex_text (d ∷ ds) acc h = rw (hex_digit-hex_char d h.0) (
    parse_hex_digits-hex_text ds (acc * 16 + d.value) h.1
    ∙ ap some (
        hex_value-push acc d.value (16 ^ length ds) (16 ^ suc (length ds)) (hex_value ds)
          (grind arith)))

parse_hex64-hex_text :
    (ds : List HexDigit)
    → 0 < length ds
    → All IsHexDigit ds
    → hex_value ds < 2 ^ 64
    → parse_hex64 (hex_text ds) ≡ some (hex_value ds)
unfolding parse_hex64
parse_hex64-hex_text [] pos h lt = absurd (omega arith)
parse_hex64-hex_text (d ∷ ds) pos h lt =
    let e = parse_hex_digits-hex_text (d ∷ ds) 0 h in
    let v : 0 * 16 ^ length (d ∷ ds) + hex_value (d ∷ ds) ≡ hex_value (d ∷ ds) = omega arith in
    let fits : ltb (hex_value (d ∷ ds)) (2 ^ 64) ≡ true = ground (arith, lt) in rw (e, v, fits) refl

hex_text-no_semicolon :
    (ds : List HexDigit) → All IsHexDigit ds → contains_byte (hex_text ds) b';' ≡ false
unfolding contains_byte
hex_text-no_semicolon [] h = refl
hex_text-no_semicolon (d ∷ ds) h =
    let other : (hex_char d == b';') ≡ false = ground (arith, h.0) in
    rw other (hex_text-no_semicolon ds h.1)

blanks-no_semicolon : (l : List ℕ) → All IsBlank l → contains_byte l b';' ≡ false
unfolding contains_byte
blanks-no_semicolon [] h = refl
blanks-no_semicolon (b ∷ bs) h =
    let other : (b == b';') ≡ false = ground (arith, h.0) in rw other (blanks-no_semicolon bs h.1)

contains_byte-append :
    (xs ys : List ℕ) (c : ℕ)
    → contains_byte xs c ≡ false
    → contains_byte ys c ≡ false
    → contains_byte (xs ++ ys) c ≡ false
unfolding contains_byte
contains_byte-append [] ys c h k = k
contains_byte-append (x ∷ xs) ys c h k = ground (arith, contains_byte-append xs ys c)

index_byte-none : (l : List ℕ) (c : ℕ) → contains_byte l c ≡ false → index_byte l c ≡ none
unfolding index_byte contains_byte
index_byte-none [] c h = refl
index_byte-none (x ∷ xs) c h = ground (arith, index_byte-none xs c)

-- A numeral with blanks behind it, once the extension is cut off.
trimmed :
    (ds : List HexDigit) (blanks : List ℕ)
    → 0 < length ds
    → All IsHexDigit ds
    → All IsBlank blanks
    → trim_space (hex_text ds ++ blanks) ≡ hex_text ds
trimmed [] blanks pos h k = absurd (omega (arith, pos))
trimmed (d ∷ ds) blanks pos h k =
    trim_space-blanks (hex_char d) (hex_text ds) blanks (hex_text-IsPlain (d ∷ ds) h) k

chunk_size-digits :
    (ds : List HexDigit) (blanks : List ℕ) (ext : Option (List ℕ))
    → 0 < length ds
    → All IsHexDigit ds
    → All IsBlank blanks
    → chunk_size ((hex_text ds ++ blanks) ++ extension_text ext) ≡ parse_hex64 (hex_text ds)
unfolding chunk_size
chunk_size-digits ds blanks none pos h k =
    let whole = ap trim_space (append-nil (hex_text ds ++ blanks)) ∙ trimmed ds blanks pos h k in
    let again = ap trim_space (sym (append-nil (hex_text ds))) ∙ trimmed ds [] pos h tt in
    ap (λ s. parse_hex64 (trim_space (cut_at s (index_byte s b';')))) whole
    ∙ ap (λ o. parse_hex64 (trim_space (cut_at (hex_text ds) o)))
        (index_byte-none (hex_text ds) b';' (hex_text-no_semicolon ds h))
    ∙ ap parse_hex64 again
chunk_size-digits [] blanks (some text) pos h k = absurd (omega (arith, pos))
chunk_size-digits (d ∷ ds) blanks (some text) pos h k =
    let front = hex_text (d ∷ ds) ++ blanks in
    let (zs, e) =
      trim_space-semicolon (hex_char d) (hex_text ds ++ blanks) text (hex_char-IsPlain d h.0) in
    let no_semicolon =
      contains_byte-append (hex_text (d ∷ ds)) blanks b';' (hex_text-no_semicolon (d ∷ ds) h)
        (blanks-no_semicolon blanks k) in
    ap (λ s. parse_hex64 (trim_space (cut_at s (index_byte s b';')))) e
    ∙ ap (λ o. parse_hex64 (trim_space (cut_at (front ++ (b';' ∷ zs)) o)))
        (index_byte-append front zs b';' no_semicolon)
    ∙ ap (λ l. parse_hex64 (trim_space l)) (take_append front (b';' ∷ zs))
    ∙ ap parse_hex64 (trimmed (d ∷ ds) blanks pos h k)

-- The text of a size line is read as the value of its numeral, whatever blanks and extension follow.
pub chunk_size-size_text :
    (n : ℕ) (l : SizeLine) → IsSizeLine n l → chunk_size (size_text l) ≡ some n
chunk_size-size_text n l (pos, good, blank, value, lt) =
    chunk_size-digits l.digits l.blanks l.extension pos good blank
    ∙ parse_hex64-hex_text l.digits pos good (omega (arith, value, lt))
    ∙ ap some value
