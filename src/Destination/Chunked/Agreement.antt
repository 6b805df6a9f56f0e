-- ===== src/Destination/Chunked/Agreement.antt =====
-- The loop of the chunked parser of client/destination/http_proxy.go agrees with the machine that
-- reads one byte at a time.
use gforward.Prelude.{
  ℕ, zero, suc, ◌+◌, ◌-◌, ◌*◌, ◌≤◌, ◌<◌, ◌≡◌, ◌≢◌, refl, sym, ap, ◌∙◌, true, false, List, [], ◌∷◌,
  ok, err, arith, length, length-drop, drop,
}
use gforward.Destination.Chunked.{
  ChunkedPhase, in_size, in_data, in_data_end, in_trailer, ChunkedState, Stepped, Consumed,
  line_byte, out_of_fuel, data_end_byte, take_data, then_loop, consume_round, data_len,
  consume_loop, consume_chunked,
}
use gforward.Destination.Chunked.Bytewise.{
  step_in, step, shift, then_run, run, IsActive, shift-shift, step-IsActive, take_data-IsActive,
  run-ne-out_of_fuel,
}

-- Data taken byte by byte is data taken at once.
take_data_keep :
    (s : ChunkedState) (n : ℕ)
    → suc n < s.remaining
    → take_data s 1 ≡ record s { remaining = s.remaining - 1 }
unfolding take_data
take_data_keep s n h = ground arith

take_data_rest :
    (s : ChunkedState) (n : ℕ)
    → take_data (record s { remaining = s.remaining - 1 }) (suc n) ≡ take_data s (suc (suc n))
unfolding take_data
take_data_rest s n =
    let e : s.remaining - 1 - suc n ≡ s.remaining - suc (suc n) = omega arith in rw e refl

run_in_data :
    (s : ChunkedState) (b : ℕ) (bs : List ℕ)
    → s.phase ≡ in_data
    → run s (b ∷ bs) ≡ shift 1 (run (take_data s 1) bs)
unfolding run
run_in_data s b bs e = ap (λ p. then_run (step_in p s b) (λ s'. run s' bs)) e

pub run-data :
    (n : ℕ) (s : ChunkedState) (bs : List ℕ)
    → s.phase ≡ in_data
    → suc n ≤ s.remaining
    → suc n ≤ length bs
    → run s bs ≡ shift (suc n) (run (take_data s (suc n)) (drop (suc n) bs))
run-data n s [] e h k = absurd (omega arith)
run-data zero s (b ∷ bs) e h k = run_in_data s b bs e
run-data (suc n) s (b ∷ bs) e h k =
    run_in_data s b bs e
    ∙ ap (λ t. shift 1 (run t bs)) (take_data_keep s n h)
    ∙ ap (shift 1)
        (run-data n (record s { remaining = s.remaining - 1 }) bs e (omega arith) (omega arith))
    ∙ shift-shift 1 (suc n) _
    ∙ ap (λ t. shift (1 + suc n) (run t (drop (suc n) bs))) (take_data_rest s n)
    ∙ ap (λ k. shift k (run (take_data s (suc (suc n))) (drop (suc n) bs))) (one_more n)
  where
    one_more : (n : ℕ) → 1 + suc n ≡ suc (suc n)
    one_more n = omega arith

abbrev Agrees : ℕ → Type 0
Agrees fuel =
    (s : ChunkedState) (pos : ℕ) (bs : List ℕ)
    → IsActive s
    → length bs ≤ fuel
    → consume_loop fuel s pos bs ≡ shift pos (run s bs)

-- A round that reads one byte.
round-byte :
    (fuel : ℕ) (s : ChunkedState) (pos b : ℕ) (bs : List ℕ) (r : Stepped)
    → Agrees fuel
    → length bs ≤ fuel
    → step s b ≡ r
    → then_loop (pos + 1) r (λ s'. consume_loop fuel s' (pos + 1) bs)
      ≡ shift pos (then_run r (λ s'. run s' bs))
round-byte fuel s pos b bs (err e) ih h eq = refl
round-byte fuel s pos b bs (ok (s', true)) ih h eq = refl
round-byte fuel s pos b bs (ok (s', false)) ih h eq =
    ih s' (pos + 1) bs (step-IsActive s s' b eq) h ∙ sym (shift-shift pos 1 (run s' bs))

pub run-cons :
    (s : ChunkedState) (b : ℕ) (bs : List ℕ) (p : ChunkedPhase)
    → s.phase ≡ p
    → run s (b ∷ bs) ≡ then_run (step_in p s b) (λ s'. run s' bs)
unfolding run
run-cons s b bs p e = ap (λ q. then_run (step_in q s b) (λ s'. run s' bs)) e

step-phase : (s : ChunkedState) (b : ℕ) (p : ChunkedPhase) → s.phase ≡ p → step s b ≡ step_in p s b
step-phase s b p e = ap (λ q. step_in q s b) e

-- A round that takes the data at hand.
round-data :
    (fuel : ℕ) (s : ChunkedState) (pos b : ℕ) (bs : List ℕ) (n : ℕ)
    → Agrees fuel
    → s.phase ≡ in_data
    → suc n ≤ s.remaining
    → suc n ≤ length (b ∷ bs)
    → length bs ≤ fuel
    → consume_loop fuel (take_data s (suc n)) (pos + suc n) (drop (suc n) (b ∷ bs))
      ≡ shift pos (run s (b ∷ bs))
round-data fuel s pos b bs n ih e lo hi h =
    ih (take_data s (suc n)) (pos + suc n) (drop (suc n) (b ∷ bs)) (take_data-IsActive s (suc n))
      (omega (arith, length-drop n bs))
    ∙ sym (
        ap (shift pos) (run-data n s (b ∷ bs) e lo hi)
        ∙ shift-shift pos (suc n) (run (take_data s (suc n)) (drop (suc n) (b ∷ bs))))

data_len_pos :
    (s : ChunkedState) (b : ℕ) (bs : List ℕ)
    → 0 < s.remaining
    → (n : ℕ) × (data_len s (b ∷ bs) ≡ suc n) × (suc n ≤ s.remaining) × (suc n ≤ length (b ∷ bs))
data_len_pos s b bs h = (data_len s (b ∷ bs) - 1, ground arith, ground arith, ground arith)

round-run :
    (fuel : ℕ) (s : ChunkedState) (pos b : ℕ) (bs : List ℕ) (p : ChunkedPhase)
    → Agrees fuel
    → IsActive s
    → s.phase ≡ p
    → length bs ≤ fuel
    → consume_round p s pos b bs (consume_loop fuel) ≡ shift pos (run s (b ∷ bs))
round-run fuel s pos b bs in_size ih a e h =
    round-byte fuel s pos b bs (line_byte s b) ih h (step-phase s b in_size e)
    ∙ sym (ap (shift pos) (run-cons s b bs in_size e))
round-run fuel s pos b bs in_trailer ih a e h =
    round-byte fuel s pos b bs (line_byte s b) ih h (step-phase s b in_trailer e)
    ∙ sym (ap (shift pos) (run-cons s b bs in_trailer e))
round-run fuel s pos b bs in_data_end ih a e h =
    round-byte fuel s pos b bs (data_end_byte s b) ih h (step-phase s b in_data_end e)
    ∙ sym (ap (shift pos) (run-cons s b bs in_data_end e))
round-run fuel s pos b bs in_data ih a e h =
    let (n, eq, lo, hi) = data_len_pos s b bs (a e) in
    ap (λ k. consume_loop fuel (take_data s k) (pos + k) (drop k (b ∷ bs))) eq
    ∙ round-data fuel s pos b bs n ih e lo hi h

shift_nothing : (s : ChunkedState) (pos : ℕ) → ok (s, pos, false) ≡ shift pos (run s [])
unfolding run
shift_nothing s pos = let e : pos ≡ pos + 0 = omega arith in ap (λ k. ok (s, k, false)) e

-- The loop and the machine agree from every position.
loop-run : (fuel : ℕ) → Agrees fuel
unfolding consume_loop
loop-run zero s pos [] a h = shift_nothing s pos
loop-run (suc fuel) s pos [] a h = shift_nothing s pos
loop-run zero s pos (b ∷ bs) a h = absurd (omega arith)
loop-run (suc fuel) s pos (b ∷ bs) a h =
    round-run fuel s pos b bs s.phase (loop-run fuel) a refl (omega arith)

pub shift_zero : (r : Consumed) → shift 0 r ≡ r
shift_zero (err e) = refl
shift_zero (ok (s, n, d)) = let e : 0 + n ≡ n = omega arith in ap (λ k. ok (s, k, d)) e

-- The loop, which takes the data of a chunk in blocks, gives the same state, count and verdict as
-- the machine that reads one byte at a time, and ends without running out of fuel: from every state
-- in which the data phase has data to come.
pub consume_chunked-run :
    (s : ChunkedState) (buf : List ℕ)
    → IsActive s
    → (consume_chunked s buf ≡ run s buf) × (consume_chunked s buf ≢ err out_of_fuel)
unfolding consume_chunked
consume_chunked-run s buf a =
    let same = loop-run (2 * length buf + 2) s 0 buf a (omega arith) ∙ shift_zero (run s buf) in
    (same, λ e. run-ne-out_of_fuel buf s (sym same ∙ e))
