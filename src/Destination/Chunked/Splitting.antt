-- ===== src/Destination/Chunked/Splitting.antt =====
-- The chunked parser of client/destination/http_proxy.go on a body that arrives in parts.
use gforward.Prelude.{
  ℕ, suc, ◌≤◌, ◌≡◌, refl, sym, ap, ◌∙◌, true, false, List, [], ◌∷◌, ◌++◌, ok, err, arith, length,
}
use gforward.Destination.Chunked.{ChunkedState, Stepped, Consumed, consume_chunked}
use gforward.Destination.Chunked.Bytewise.{
  step, shift, then_run, run, IsActive, shift-shift, step-IsActive,
}
use gforward.Destination.Chunked.Agreement.{consume_chunked-run, shift_zero}

-- What the verdict on the bytes `a` says of the bytes `a ++ b`.
abbrev pub Continues : ℕ → Consumed → Consumed → (ChunkedState → Consumed) → Type 0
Continues len (err e) whole later = whole ≡ err e
Continues len (ok (s, n, true)) whole later = (whole ≡ ok (s, n, true)) × (n ≤ len)
Continues len (ok (s, n, false)) whole later = (whole ≡ shift n (later s)) × (n ≡ len) × IsActive s

then_run-Continues :
    (len : ℕ) (r : Stepped) (again whole later : ChunkedState → Consumed)
    → ((s : ChunkedState) → r ≡ ok (s, false) → Continues len (again s) (whole s) later)
    → Continues (suc len) (then_run r again) (then_run r whole) later
then_run-Continues len (err e) again whole later h = refl
then_run-Continues len (ok (s, true)) again whole later h = (refl, omega arith)
then_run-Continues len (ok (s, false)) again whole later h = go (again s) (whole s) (h s refl)
  where
    go :
        (a w : Consumed)
        → Continues len a w later
        → Continues (suc len) (shift 1 a) (shift 1 w) later
    go (err e) w c = ap (shift 1) c
    go (ok (s, n, true)) w c = (ap (shift 1) c.0, omega (arith, c.1))
    go (ok (s, n, false)) w c =
        (ap (shift 1) c.0 ∙ shift-shift 1 n (later s), omega (arith, c.1), c.2)

run-append :
    (a b : List ℕ) (s : ChunkedState)
    → IsActive s
    → Continues (length a) (run s a) (run s (a ++ b)) (λ s'. run s' b)
unfolding run
run-append [] b s h = (sym (shift_zero (run s b)), refl, h)
run-append (x ∷ xs) b s h =
    then_run-Continues (length xs) (step s x) (λ s'. run s' xs) (λ s'. run s' (xs ++ b)) _
      (λ s' e. run-append xs b s' (step-IsActive s s' x e))

Continues-map :
    (len : ℕ) (r whole : Consumed) (later later' : ChunkedState → Consumed)
    → ((s : ChunkedState) → IsActive s → later s ≡ later' s)
    → Continues len r whole later
    → Continues len r whole later'
Continues-map len (err e) whole later later' same c = c
Continues-map len (ok (s, n, true)) whole later later' same c = c
Continues-map len (ok (s, n, false)) whole later later' same c =
    (c.0 ∙ ap (shift n) (same s c.2), c.1, c.2)

-- A body may arrive in parts: an error on the first part is the error on the whole; a body that
-- ends in the first part ends there, whatever follows; and otherwise the first part is consumed
-- entirely and the state carries on as if all bytes had come at once. From every state in which the
-- data phase has data to come.
pub consume_chunked-Continues :
    (s : ChunkedState) (a b : List ℕ)
    → IsActive s
    → Continues
        (length a)
        (consume_chunked s a)
        (consume_chunked s (a ++ b))
        (λ s'. consume_chunked s' b)
consume_chunked-Continues s a b h =
    rw ((consume_chunked-run s a h).0, (consume_chunked-run s (a ++ b) h).0)
      (Continues-map (length a) (run s a) (run s (a ++ b)) (λ s'. run s' b) _
        (λ s' h'. sym (consume_chunked-run s' b h').0) (run-append a b s h))
