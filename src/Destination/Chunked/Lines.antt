-- ===== src/Destination/Chunked/Lines.antt =====
-- The lines of a chunked body, as the parser of client/destination/http_proxy.go reads them.
use gforward.Prelude.{
  ℕ, ◌+◌, ◌≤◌, ◌≡◌, ◌≢◌, refl, sym, ap, ◌∙◌, false, List, [], ◌∷◌, ◌++◌, append_assoc, append-nil,
  ok, arith, length, length-append, All, ◌⊎◌, inl, inr,
}
use gforward.Destination.Chunked.{
  ChunkedState, in_size, in_trailer, line_byte, end_line, max_metadata, last_byte, before_last,
}
use gforward.Destination.Chunked.Bytewise.{step, step_in, shift, then_run, run, shift-shift}
use gforward.Destination.Chunked.Agreement.{run-cons, shift_zero}

-- A line without its CRLF: short enough, and no line feed in it.
abbrev pub IsLine : List ℕ → Type 0
IsLine text = All (λ b. b ≢ 10) text × (length text + 2 ≤ max_metadata)

last_byte_lem : (xs : List ℕ) (b : ℕ) → last_byte (xs ++ (b ∷ [])) ≡ b
unfolding last_byte
last_byte_lem [] b = refl
last_byte_lem (x ∷ []) b = refl
last_byte_lem (x ∷ y ∷ ys) b = last_byte_lem (y ∷ ys) b

before_last_lem : (xs : List ℕ) (a b : ℕ) → before_last (xs ++ (a ∷ b ∷ [])) ≡ a
unfolding before_last
before_last_lem [] a b = refl
before_last_lem (x ∷ []) a b = refl
before_last_lem (x ∷ y ∷ []) a b = refl
before_last_lem (x ∷ y ∷ z ∷ zs) a b = before_last_lem (y ∷ z ∷ zs) a b

-- The phases that read lines.
abbrev pub ReadsLines : ChunkedState → Type 0
ReadsLines s = (s.phase ≡ in_size) ⊎ (s.phase ≡ in_trailer)

run-line_byte :
    (s : ChunkedState) (b : ℕ) (bs : List ℕ)
    → ReadsLines s
    → run s (b ∷ bs) ≡ then_run (line_byte s b) (λ s'. run s' bs)
run-line_byte s b bs (inl e) = run-cons s b bs in_size e
run-line_byte s b bs (inr e) = run-cons s b bs in_trailer e

-- A byte that is no line feed joins the line.
line_byte-inner :
    (s : ChunkedState) (b : ℕ)
    → b ≢ 10
    → length s.line + 1 ≤ max_metadata
    → line_byte s b ≡ ok (record s { line = s.line ++ (b ∷ []) }, false)
unfolding line_byte
line_byte-inner s b h k = ground (arith, last_byte_lem s.line b, length-append s.line (b ∷ []))

-- The bytes lead from one state to another, without ending the body.
abbrev pub Eats : ChunkedState → List ℕ → ChunkedState → Type 0
Eats s bytes s' = (bs : List ℕ) → run s (bytes ++ bs) ≡ shift (length bytes) (run s' bs)

pub Eats-append :
    (s t u : ChunkedState) (a b : List ℕ) → Eats s a t → Eats t b u → Eats s (a ++ b) u
Eats-append s t u a b f g bs =
    let n : length a + length b ≡ length (a ++ b) = sym (length-append a b) in
    ap (run s) (append_assoc a b bs)
    ∙ f (b ++ bs)
    ∙ ap (shift (length a)) (g bs)
    ∙ shift-shift (length a) (length b) (run u bs)
    ∙ ap (λ k. shift k (run u bs)) n

pub Eats-byte : (s s' : ChunkedState) (b : ℕ) → step s b ≡ ok (s', false) → Eats s (b ∷ []) s'
Eats-byte s s' b e bs = run-cons s b bs s.phase refl ∙ ap (λ r. then_run r (λ t. run t bs)) e

step_lines : (s : ChunkedState) (b : ℕ) → ReadsLines s → step s b ≡ line_byte s b
step_lines s b (inl e) = ap (λ p. step_in p s b) e
step_lines s b (inr e) = ap (λ p. step_in p s b) e

Eats-inner :
    (text : List ℕ) (s : ChunkedState)
    → ReadsLines s
    → All (λ b. b ≢ 10) text
    → length s.line + length text ≤ max_metadata
    → Eats s text (record s { line = s.line ++ text })
Eats-inner [] s r a h = λ bs.
    sym (shift_zero (run s bs))
    ∙ ap (λ l. shift 0 (run (record s { line = l }) bs)) (sym (append-nil s.line))
Eats-inner (x ∷ xs) s r a h = λ bs.
    Eats-append s (longer (x ∷ [])) (record s { line = (s.line ++ (x ∷ [])) ++ xs }) (x ∷ []) xs
      (Eats-byte s (longer (x ∷ [])) x (step_lines s x r ∙ line_byte-inner s x a.0 (omega arith)))
      (Eats-inner xs (longer (x ∷ [])) r a.1 (omega (arith, length-append s.line (x ∷ [])))) bs
    ∙ ap (λ l. shift (length (x ∷ xs)) (run (record s { line = l }) bs))
        (append_assoc s.line (x ∷ []) xs)
  where
    longer : List ℕ → ChunkedState
    longer l = record s { line = s.line ++ l }

-- The line feed behind a carriage return ends the line.
line_byte-end :
    (s : ChunkedState) (text : List ℕ)
    → s.line ≡ text ++ (13 ∷ [])
    → length text + 2 ≤ max_metadata
    → line_byte s 10 ≡ end_line s (text ++ (13 ∷ 10 ∷ []))
unfolding line_byte
line_byte-end s text e h =
    let whole : s.line ++ (10 ∷ []) ≡ text ++ (13 ∷ 10 ∷ []) =
      ap (λ l. l ++ (10 ∷ [])) e ∙ append_assoc text (13 ∷ []) (10 ∷ []) in
    ground (
      arith,
      whole,
      last_byte_lem s.line 10,
      before_last_lem text 13 10,
      length-append text (13 ∷ 10 ∷ []),
    )

end_line-line :
    (s : ChunkedState) (l line : List ℕ) → end_line (record s { line = l }) line ≡ end_line s line
unfolding end_line
end_line-line s l line = ground arith

-- A line with its CRLF, from a state whose line is empty.
pub Eats-line :
    (text : List ℕ) (s s' : ChunkedState)
    → s.line ≡ []
    → ReadsLines s
    → IsLine text
    → end_line s (text ++ (13 ∷ 10 ∷ [])) ≡ ok (s', false)
    → Eats s (text ++ (13 ∷ 10 ∷ [])) s'
Eats-line text s s' blank r l e =
    Eats-append s (has text) s' text (13 ∷ 10 ∷ []) inner
      (Eats-append (has text) (has (text ++ (13 ∷ []))) s' (13 ∷ []) (10 ∷ []) cr lf)
  where
    has : List ℕ → ChunkedState
    has line = record s { line = line }

    from_nothing : s.line ++ text ≡ text
    from_nothing = ap (λ x. x ++ text) blank

    inner : Eats s text (has text)
    inner bs =
        Eats-inner text s r l.0 (omega (arith, ap length blank, l.1)) bs
        ∙ ap (λ x. shift (length text) (run (record s { line = x }) bs)) from_nothing

    cr : Eats (has text) (13 ∷ []) (has (text ++ (13 ∷ [])))
    cr = Eats-byte (has text) _ 13 (
        step_lines (has text) 13 r
        ∙ line_byte-inner (has text) 13 (omega arith) (omega (arith, l.1)))

    lf : Eats (has (text ++ (13 ∷ []))) (10 ∷ []) s'
    lf = Eats-byte (has (text ++ (13 ∷ []))) s' 10 (
        step_lines (has (text ++ (13 ∷ []))) 10 r
        ∙ line_byte-end (has (text ++ (13 ∷ []))) text refl l.1
        ∙ end_line-line s (text ++ (13 ∷ [])) _
        ∙ e)
