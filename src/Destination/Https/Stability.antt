-- ===== src/Destination/Https/Stability.antt =====
-- What client/destination/https.go says of the bytes that arrive first.
use gforward.Prelude.{
  ℕ, ◌+◌, ◌<◌, ◌≤◌, ◌≡◌, ◌≢◌, sym, ap, ◌∙◌, not, List, ◌++◌, length, take, drop, ltb, ◌==◌,
  if◌then◌else◌, arith, length-append, length-drop, get_or_short, take_short, drop_short,
}
use gforward.Destination.Https.{Sniffed, waits, rejects, sniff, client_hello, be_u24}

-- The tests of the record in front of the handshake message, on the bytes that they read.
abbrev gate : ℕ → ℕ → ℕ → ℕ → ℕ → Sniffed → Sniffed
gate len kind major message size inside =
    if len == 0
    then waits
    else if not (kind == 22)
    then rejects
    else if ltb len 5
    then waits
    else if not (major == 3)
    then rejects
    else if ltb len 6
    then waits
    else if not (message == 1)
    then rejects
    else if ltb len 9
    then waits
    else if ltb len (9 + size)
    then waits
    else inside

-- Bytes that are there stay the same, and a handshake message that is whole does.
gate-later :
    (len len' kind kind' major major' message message' size size' : ℕ) (inside inside' : Sniffed)
    → len ≤ len'
    → (0 < len → kind ≡ kind')
    → (1 < len → major ≡ major')
    → (5 < len → message ≡ message')
    → (8 < len → size ≡ size')
    → (9 + size ≤ len → inside ≡ inside')
    → gate len kind major message size inside ≢ waits
    → gate len' kind' major' message' size' inside' ≡ gate len kind major message size inside
gate-later len len' kind kind' major major' message message' size size' inside inside' le a b c d e
      h =
    ground arith

message_short :
    (buf later : List ℕ) (n : ℕ)
    → 9 + n ≤ length buf
    → take n (drop 9 buf) ≡ take n (drop 9 (buf ++ later))
message_short buf later n h =
    let left : n ≤ length (drop 9 buf) = omega (arith, length-drop 9 buf) in
    sym (ap (take n) (drop_short 9 buf later (omega arith)) ∙ take_short n (drop 9 buf) later left)

-- A verdict does not change when more bytes arrive: if the parser does not wait for more, it says of
-- any longer buffer what it says of this one.
pub sniff-append : (buf later : List ℕ) → sniff buf ≢ waits → sniff (buf ++ later) ≡ sniff buf
unfolding sniff
sniff-append buf later h =
    gate-later (length buf) (length (buf ++ later)) _ _ _ _ _ _ (be_u24 buf 6)
      (be_u24 (buf ++ later) 6) _ _ (omega (arith, length-append buf later))
      (λ lt. sym (get_or_short buf later 0 0 lt)) (λ lt. sym (get_or_short buf later 1 0 lt))
      (λ lt. sym (get_or_short buf later 5 0 lt)) (λ lt. size lt)
      (λ le. ap client_hello (
        message_short buf later (be_u24 buf 6) le
        ∙ ap (λ n. take n (drop 9 (buf ++ later))) (size (omega arith))))
      h
  where
    size : 8 < length buf → be_u24 buf 6 ≡ be_u24 (buf ++ later) 6
    size lt = omega (
      arith,
      get_or_short buf later 6 0 (omega arith),
      get_or_short buf later 7 0 (omega arith),
      get_or_short buf later 8 0 lt,
    )
