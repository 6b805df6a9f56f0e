-- ===== src/Destination/Chunked/Bytewise.antt =====
-- The chunked parser of client/destination/http_proxy.go against a machine that reads one byte at
-- a time.
use gforward.Prelude.{
  ℕ, ◌+◌, ◌-◌, ◌<◌, ◌≡◌, ◌≢◌, refl, ap, true, false, Option, none, some, List, [], ◌∷◌, ◌++◌, ok,
  err, arith, Bool-cases, inl, inr, length, take,
}
use gforward.Destination.Chunked.{
  ChunkedPhase, in_size, in_data, in_data_end, in_trailer, ChunkedState, Stepped, Consumed,
  line_byte, end_line, out_of_fuel, on_size, data_end_byte, take_data, chunk_size, is_trailer,
}

abbrev pub step_in : ChunkedPhase → ChunkedState → ℕ → Stepped
step_in in_size s b = line_byte s b
step_in in_trailer s b = line_byte s b
step_in in_data s b = ok (take_data s 1, false)
step_in in_data_end s b = data_end_byte s b

-- One byte.
abbrev pub step : ChunkedState → ℕ → Stepped
step s b = step_in s.phase s b

abbrev pub shift : ℕ → Consumed → Consumed
shift k (err e) = err e
shift k (ok (s, n, ended)) = ok (s, k + n, ended)

abbrev pub then_run : Stepped → (ChunkedState → Consumed) → Consumed
then_run (err e) again = err e
then_run (ok (s, true)) again = ok (s, 1, true)
then_run (ok (s, false)) again = shift 1 (again s)

-- All bytes, until the body ends.
unfoldable pub run : ChunkedState → List ℕ → Consumed
run s [] = ok (s, 0, false)
run s (b ∷ bs) = then_run (step s b) (λ s'. run s' bs)

-- In the data phase there is data to come.
abbrev pub IsActive : ChunkedState → Type 0
IsActive s = s.phase ≡ in_data → 0 < s.remaining

pub take_data-IsActive : (s : ChunkedState) (n : ℕ) → IsActive (take_data s n)
unfolding take_data
take_data-IsActive s n = ground arith

on_size-IsActive : (s s' : ChunkedState) (o : Option ℕ) → on_size s o ≡ ok (s', false) → IsActive s'
on_size-IsActive s s' none h = absurd (cc)
on_size-IsActive s s' (some n) h = ground arith

end_line-IsActive :
    (s s' : ChunkedState) (line : List ℕ)
    → s.phase ≢ in_data
    → end_line s line ≡ ok (s', false)
    → IsActive s'
unfolding end_line
end_line-IsActive s s' line p h = elim (Bool-cases (is_trailer s.phase)) [
  | inl trailer ↦ ground (arith, p)
  | inr size ↦ on_size-IsActive s s' (chunk_size (take (length line - 2) line)) (rw size at h)
]

line_byte-IsActive :
    (s s' : ChunkedState) (b : ℕ) → s.phase ≢ in_data → line_byte s b ≡ ok (s', false) → IsActive s'
unfolding line_byte
line_byte-IsActive s s' b p h = ground (arith, p, end_line-IsActive s s' (s.line ++ (b ∷ [])) p)

data_end_byte-IsActive :
    (s s' : ChunkedState) (b : ℕ)
    → s.phase ≡ in_data_end
    → data_end_byte s b ≡ ok (s', false)
    → IsActive s'
unfolding data_end_byte
data_end_byte-IsActive s s' b p h = ground arith

pub shift-shift : (a b : ℕ) (r : Consumed) → shift a (shift b r) ≡ shift (a + b) r
shift-shift a b (err e) = refl
shift-shift a b (ok (s, n, d)) =
    let e : a + (b + n) ≡ a + b + n = omega arith in ap (λ k. ok (s, k, d)) e

pub step-IsActive : (s s' : ChunkedState) (b : ℕ) → step s b ≡ ok (s', false) → IsActive s'
step-IsActive s s' b h = go s.phase refl h
  where
    go : (p : ChunkedPhase) → s.phase ≡ p → step_in p s b ≡ ok (s', false) → IsActive s'
    go in_size e k = line_byte-IsActive s s' b (λ f. cc (e, f)) k
    go in_trailer e k = line_byte-IsActive s s' b (λ f. cc (e, f)) k
    go in_data_end e k = data_end_byte-IsActive s s' b e k
    go in_data e k = ground (arith, k, take_data-IsActive s 1)

step_in-ne-out_of_fuel :
    (p : ChunkedPhase) (s : ChunkedState) (b : ℕ) → step_in p s b ≢ err out_of_fuel
unfolding line_byte end_line data_end_byte
step_in-ne-out_of_fuel in_data s b e = cc
step_in-ne-out_of_fuel in_data_end s b e = ground arith
step_in-ne-out_of_fuel in_size s b e = ground arith
step_in-ne-out_of_fuel in_trailer s b e = ground arith

then_run-ne-out_of_fuel :
    (r : Stepped) (again : ChunkedState → Consumed)
    → r ≢ err out_of_fuel
    → ((s : ChunkedState) → again s ≢ err out_of_fuel)
    → then_run r again ≢ err out_of_fuel
then_run-ne-out_of_fuel (err x) again h k e = h (ground arith)
then_run-ne-out_of_fuel (ok (s, true)) again h k e = cc
then_run-ne-out_of_fuel (ok (s, false)) again h k e = go (again s) (k s) e
  where
    go : (c : Consumed) → c ≢ err out_of_fuel → shift 1 c ≢ err out_of_fuel
    go (err x) h e = h (ground arith)
    go (ok (s, n, d)) h e = cc

pub run-ne-out_of_fuel : (bs : List ℕ) (s : ChunkedState) → run s bs ≢ err out_of_fuel
unfolding run
run-ne-out_of_fuel [] s e = cc
run-ne-out_of_fuel (b ∷ bs) s e =
    then_run-ne-out_of_fuel (step s b) (λ s'. run s' bs) (step_in-ne-out_of_fuel s.phase s b)
      (run-ne-out_of_fuel bs) e
