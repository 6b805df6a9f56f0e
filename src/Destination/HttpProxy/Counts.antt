-- ===== src/Destination/HttpProxy/Counts.antt =====
-- How many bytes `consume` of client/destination/http_proxy.go takes.
use gforward.Prelude.{
  ℕ, zero, suc, ◌-◌, ◌<◌, ◌≤◌, ◌≡◌, refl, Bool, true, false, Option, none, some, List, [], ◌∷◌,
  ◌++◌, length, ltb, ok, err, arith, Bool-cases, inl, inr, length-take,
}
use gforward.Destination.Chunked.{ChunkedState, consume_chunked, Consumed, Stepped}
use gforward.Destination.Chunked.Bytewise.{IsActive, run, then_run, shift, step}
use gforward.Destination.Chunked.Agreement.{consume_chunked-run}
use gforward.Destination.Chunked.Splitting.{Continues, consume_chunked-Continues}
use gforward.Destination.HttpProxy.{
  ℤ, pos, negsuc, RequestState, Taken, on_chunked, on_length, consume_in, consume_request, limited,
}

-- The chunked parser is in a proper state.
abbrev pub IsReady : Option ChunkedState → Type 0
IsReady none = Unit
IsReady (some c) = IsActive c

-- There are bytes to come.
abbrev pub IsOpen : RequestState → Type 0
IsOpen s = IsReady s.chunked × (s.chunked ≡ none → (n : ℕ) × (s.remaining ≡ pos (suc n)))

-- What a count has to be: within the bytes at hand, and positive if bytes are to come.
record IsCounted (len : ℕ) (opened : Type 0) (s : RequestState) (n : ℕ) (finished : Bool)
    : Type 0 where
  fits : n ≤ len
  open_next : finished ≡ false → IsOpen s
  positive : opened → 0 < len → 0 < n

abbrev Counted : ℕ → Type 0 → Taken → Type 0
Counted len opened (err e) = Unit
Counted len opened (ok (s, n, finished)) = IsCounted len opened s n finished

-- A byte at hand is consumed.
abbrev Positive : Consumed → Type 0
Positive (err e) = Unit
Positive (ok (s, n, finished)) = 0 < n

shift_one-Positive : (r : Consumed) → Positive (shift 1 r)
shift_one-Positive (err e) = tt
shift_one-Positive (ok (s, n, finished)) = omega arith

run-Positive : (s : ChunkedState) (b : ℕ) (bs : List ℕ) → Positive (run s (b ∷ bs))
unfolding run
run-Positive s b bs = go (step s b)
  where
    go : (r : Stepped) → Positive (then_run r (λ s'. run s' bs))
    go (err e) = tt
    go (ok (s', true)) = omega arith
    go (ok (s', false)) = shift_one-Positive (run s' bs)

consume_chunked-Positive :
    (c : ChunkedState) (buf : List ℕ)
    → IsActive c
    → 0 < length buf
    → Positive (consume_chunked c buf)
consume_chunked-Positive c [] a lt = absurd (omega arith)
consume_chunked-Positive c (b ∷ bs) a lt =
    rw ((consume_chunked-run c (b ∷ bs) a).0) (run-Positive c b bs)

chunked-Counted :
    (s : RequestState) (c : ChunkedState) (buf : List ℕ) (opened : Type 0)
    → IsActive c
    → Counted (length buf) opened (on_chunked s (consume_chunked c buf))
chunked-Counted s c buf opened a =
    go (consume_chunked c buf) (consume_chunked-Continues c buf [] a)
      (consume_chunked-Positive c buf a)
  where
    go :
        (r : Consumed)
        → Continues (length buf) r (consume_chunked c (buf ++ [])) (λ s'. consume_chunked s' [])
        → (0 < length buf → Positive r)
        → Counted (length buf) opened (on_chunked s r)
    go (err e) k p = tt
    go (ok (c', n, true)) k p = record { fits = k.1; open_next = λ e. cc; positive = λ o lt. p lt }
    go (ok (c', n, false)) k p = record {
      fits = omega (arith, k.1);
      open_next = λ e. (k.2, λ x. cc);
      positive = λ o lt. p lt;
    }

length-Counted :
    (s : RequestState) (z : ℤ) (buf : List ℕ)
    → s.chunked ≡ none
    → Counted (length buf) ((n : ℕ) × (z ≡ pos (suc n))) (on_length s z buf)
length-Counted s (negsuc n) buf h = record {
  fits = omega arith;
  open_next = λ e. cc;
  positive = λ (k, e) lt. cc;
}
length-Counted s (pos zero) buf h = record {
  fits = omega arith;
  open_next = λ e. cc;
  positive = λ (k, e) lt. ground (arith, e);
}
length-Counted s (pos (suc n)) buf h = elim (Bool-cases (ltb (suc n) (length buf))) [
  | inl more ↦ rw more (record {
    fits = ground (arith, more);
    open_next = λ e. ground (arith, e);
    positive = λ o lt. omega arith;
  })
  | inr all ↦ rw all (record {
    fits = omega arith;
    open_next = λ e. (rw h tt, λ x. (n - length buf, ground (arith, e, all)));
    positive = λ o lt. lt;
  })
]

Counted-weaken : (len : ℕ) (A B : Type 0) (r : Taken) → (B → A) → Counted len A r → Counted len B r
Counted-weaken len A B (err e) f c = tt
Counted-weaken len A B (ok (s, n, finished)) f c = record {
  fits = c.fits;
  open_next = c.open_next;
  positive = λ b lt. c.positive (f b) lt;
}

consume_in-Counted :
    (s : RequestState) (o : Option ChunkedState) (buf : List ℕ)
    → s.chunked ≡ o
    → IsReady o
    → Counted (length buf) (IsOpen s) (consume_in s o buf)
consume_in-Counted s (some c) buf e a = chunked-Counted s c buf (IsOpen s) a
consume_in-Counted s none buf e a =
    Counted-weaken (length buf) ((n : ℕ) × (s.remaining ≡ pos (suc n))) (IsOpen s) _ (λ h. h.1 e)
      (length-Counted s s.remaining buf e)

length-limited :
    (buf : List ℕ) (limit : ℕ)
    → (length (limited buf limit) ≤ limit)
      × (length (limited buf limit) ≤ length buf)
      × (0 < limit → 0 < length buf → 0 < length (limited buf limit))
length-limited buf limit = ground (arith, length-take limit buf)

abbrev pub Bounded : ℕ → ℕ → Type 0 → Taken → Type 0
Bounded len limit opened (err e) = Unit
Bounded len limit opened (ok (s, n, finished)) =
    (n ≤ len) × (n ≤ limit) × (finished ≡ false → IsOpen s) × (opened → 0 < len → 0 < limit → 0 < n)

Counted→Bounded :
    (len limit small : ℕ) (opened : Type 0) (r : Taken)
    → (small ≤ limit) × (small ≤ len) × (0 < limit → 0 < len → 0 < small)
    → Counted small opened r
    → Bounded len limit opened r
Counted→Bounded len limit small opened (err e) h c = tt
Counted→Bounded len limit small opened (ok (s, n, finished)) h c = (
  omega (arith, h.1, c.fits),
  omega (arith, h.0, c.fits),
  c.open_next,
  λ o lt lim. c.positive o (h.2 lim lt),
)

pub consume_request-Bounded :
    (s : RequestState) (buf : List ℕ) (limit : ℕ)
    → IsReady s.chunked
    → Bounded (length buf) limit (IsOpen s) (consume_request s buf limit)
unfolding consume_request
consume_request-Bounded s buf limit h =
    Counted→Bounded (length buf) limit (length (limited buf limit)) (IsOpen s) _
      (length-limited buf limit) (consume_in-Counted s s.chunked (limited buf limit) refl h)
