-- ===== src/Destination/Chunked/Trims.antt =====
-- `strings.TrimSpace` on the size lines that client/destination/http_proxy.go reads.
use mathlib.Core.List.{reverse, reverse-append, reverse-cons, reverse-reverse}
use gforward.Prelude.{
  ℕ, zero, suc, ◌<◌, ◌≤◌, ◌≡◌, ◌⊎◌, refl, sym, ap, ◌∙◌, List, [], ◌∷◌, ◌++◌, append_assoc, arith,
  length, All, All-append,
}
use gforward.Destination.Text.{space_len, last_space_len, drop_spaces, trim_space}

-- A space or a tab.
abbrev pub IsBlank : ℕ → Type 0
IsBlank b = (b ≡ 32) ⊎ (b ≡ 9)

-- A byte that no space of Go's begins or ends with.
abbrev pub IsPlain : ℕ → Type 0
IsPlain c = (32 < c) × (c < 128)

-- A text that begins with a plain byte is not trimmed in front.
front_kept : (c : ℕ) (cs : List ℕ) → IsPlain c → drop_spaces space_len 0 (c ∷ cs) ≡ c ∷ cs
unfolding drop_spaces space_len
front_kept c [] h = ground (arith, h)
front_kept c (a ∷ []) h = ground (arith, h)
front_kept c (a ∷ b ∷ cs) h = ground (arith, h)

-- Backwards: plain text is kept, blanks go, and a semicolon stays.
back_kept : (l : List ℕ) → All IsPlain l → drop_spaces last_space_len 0 l ≡ l
unfolding drop_spaces last_space_len
back_kept [] h = refl
back_kept (c ∷ []) h = ground (arith, h.0)
back_kept (c ∷ a ∷ []) h = ground (arith, h.0)
back_kept (c ∷ a ∷ b ∷ cs) h = ground (arith, h.0)

blank_len : (b : ℕ) (l : List ℕ) → IsBlank b → last_space_len (b ∷ l) ≡ 1
unfolding last_space_len
blank_len b [] h = ground (arith, h)
blank_len b (a ∷ []) h = ground (arith, h)
blank_len b (a ∷ c ∷ l) h = ground (arith, h)

blanks_go :
    (bs l : List ℕ)
    → All IsBlank bs
    → drop_spaces last_space_len 0 (bs ++ l) ≡ drop_spaces last_space_len 0 l
unfolding drop_spaces
blanks_go [] l h = refl
blanks_go (b ∷ bs) l h = rw (blank_len b (bs ++ l) h.0, drop_spaces) (blanks_go bs l h.1)

-- A space that the text in front of a semicolon ends with lies in this text.
space_before : (xs ys : List ℕ) → last_space_len (xs ++ (b';' ∷ ys)) ≤ length xs
unfolding last_space_len
space_before [] [] = ground arith
space_before [] (y ∷ []) = ground arith
space_before [] (y ∷ z ∷ ys) = ground arith
space_before (x ∷ []) [] = ground arith
space_before (x ∷ []) (y ∷ ys) = ground arith
space_before (x ∷ a ∷ []) ys = ground arith
space_before (x ∷ a ∷ b ∷ xs) ys = ground arith

-- What a round of `drop_spaces` does, by the length of the space.
drop-none :
    (len : List ℕ → ℕ) (x : ℕ) (xs : List ℕ)
    → len (x ∷ xs) ≡ 0
    → drop_spaces len 0 (x ∷ xs) ≡ x ∷ xs
unfolding drop_spaces
drop-none len x xs e = rw (e, drop_spaces) refl

drop-some :
    (len : List ℕ → ℕ) (x : ℕ) (xs : List ℕ) (n : ℕ)
    → len (x ∷ xs) ≡ suc n
    → drop_spaces len 0 (x ∷ xs) ≡ drop_spaces len n xs
unfolding drop_spaces
drop-some len x xs n e = rw (e, drop_spaces) refl

abbrev Stays : List ℕ → List ℕ → Type 0
Stays ys l = (zs : List ℕ) × (l ≡ zs ++ (b';' ∷ ys))

semicolon-Stays :
    (xs ys : List ℕ) (n : ℕ)
    → n ≤ length xs
    → Stays ys (drop_spaces last_space_len n (xs ++ (b';' ∷ ys)))
unfolding drop_spaces
semicolon-Stays [] ys zero h =
    let len = space_before [] ys in ([], drop-none last_space_len b';' ys (omega (arith, len)))
semicolon-Stays [] ys (suc n) h = absurd (omega (arith, h))
semicolon-Stays (x ∷ xs) ys (suc n) h = semicolon-Stays xs ys n (omega (arith, h))
semicolon-Stays (x ∷ xs) ys zero h =
    by_len (last_space_len (x ∷ (xs ++ (b';' ∷ ys)))) refl (λ m le. semicolon-Stays xs ys m le)
  where
    by_len :
        (k : ℕ)
        → last_space_len (x ∷ (xs ++ (b';' ∷ ys))) ≡ k
        → ((m : ℕ) → m ≤ length xs → Stays ys (drop_spaces last_space_len m (xs ++ (b';' ∷ ys))))
        → Stays ys (drop_spaces last_space_len 0 (x ∷ (xs ++ (b';' ∷ ys))))
    by_len zero e ih = (x ∷ xs, drop-none last_space_len x (xs ++ (b';' ∷ ys)) e)
    by_len (suc m) e ih =
        let short = space_before (x ∷ xs) ys in
        let (zs, f) = ih m (omega (arith, short, e)) in
        (zs, drop-some last_space_len x (xs ++ (b';' ∷ ys)) m e ∙ f)

All-reverse : (l : List ℕ) → All IsPlain l → All IsPlain (reverse l)
All-reverse [] h = tt
All-reverse (x ∷ xs) h =
    rw (reverse-cons x xs) (All-append IsPlain (reverse xs) (x ∷ []) (All-reverse xs h.1) (h.0, tt))

All-reverse-IsBlank : (l : List ℕ) → All IsBlank l → All IsBlank (reverse l)
All-reverse-IsBlank [] h = tt
All-reverse-IsBlank (x ∷ xs) h =
    rw (reverse-cons x xs)
      (All-append IsBlank (reverse xs) (x ∷ []) (All-reverse-IsBlank xs h.1) (h.0, tt))

-- Blanks behind a plain text are trimmed.
pub trim_space-blanks :
    (c : ℕ) (cs blanks : List ℕ)
    → All IsPlain (c ∷ cs)
    → All IsBlank blanks
    → trim_space ((c ∷ cs) ++ blanks) ≡ c ∷ cs
unfolding trim_space
trim_space-blanks c cs blanks h k =
    ap (λ l. reverse (drop_spaces last_space_len 0 (reverse l))) (front_kept c (cs ++ blanks) h.0)
    ∙ ap (λ l. reverse (drop_spaces last_space_len 0 l)) (reverse-append (c ∷ cs) blanks)
    ∙ ap reverse (
        blanks_go (reverse blanks) (reverse (c ∷ cs)) (All-reverse-IsBlank blanks k)
        ∙ back_kept (reverse (c ∷ cs)) (All-reverse (c ∷ cs) h))
    ∙ reverse-reverse (c ∷ cs)

-- A semicolon and what stands in front of it are not trimmed behind a plain byte.
pub trim_space-semicolon :
    (c : ℕ) (pre rest : List ℕ)
    → IsPlain c
    → (zs : List ℕ) × (trim_space ((c ∷ pre) ++ (b';' ∷ rest)) ≡ (c ∷ pre) ++ (b';' ∷ zs))
unfolding trim_space
trim_space-semicolon c pre rest h =
    let (zs, e) = semicolon-Stays (reverse rest) (reverse (c ∷ pre)) 0 (omega arith) in
    (
      reverse zs,
      ap (λ l. reverse (drop_spaces last_space_len 0 (reverse l)))
            (front_kept c (pre ++ (b';' ∷ rest)) h)
          ∙ ap (λ l. reverse (drop_spaces last_space_len 0 l)) (reversed rest)
          ∙ ap reverse e
          ∙ ap reverse (sym (reversed' zs))
          ∙ reverse-reverse ((c ∷ pre) ++ (b';' ∷ reverse zs)),
    )
  where
    reversed :
        (l : List ℕ) → reverse ((c ∷ pre) ++ (b';' ∷ l)) ≡ reverse l ++ (b';' ∷ reverse (c ∷ pre))
    reversed l =
        reverse-append (c ∷ pre) (b';' ∷ l)
        ∙ ap (λ x. x ++ reverse (c ∷ pre)) (reverse-cons b';' l)
        ∙ append_assoc (reverse l) (b';' ∷ []) (reverse (c ∷ pre))

    reversed' :
        (zs : List ℕ)
        → reverse ((c ∷ pre) ++ (b';' ∷ reverse zs)) ≡ zs ++ (b';' ∷ reverse (c ∷ pre))
    reversed' zs =
        reversed (reverse zs) ∙ ap (λ l. l ++ (b';' ∷ reverse (c ∷ pre))) (reverse-reverse zs)
