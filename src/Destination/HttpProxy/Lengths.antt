-- ===== src/Destination/HttpProxy/Lengths.antt =====
-- `httpProxyRequestState.consume` of client/destination/http_proxy.go on a body that arrives in
-- parts.
use gforward.Prelude.{
  ℕ, zero, suc, ◌+◌, ◌-◌, ◌≤◌, ◌≡◌, refl, sym, ap, ◌∙◌, true, false, Option, none, some, List, ◌++◌,
  length, ltb, leb, ok, err, arith, Bool-cases, inl, inr, length-append,
}
use gforward.Destination.Chunked.{ChunkedState, consume_chunked, Consumed}
use gforward.Destination.Chunked.Bytewise.{IsActive, shift}
use gforward.Destination.Chunked.Splitting.{Continues, consume_chunked-Continues}
use gforward.Destination.HttpProxy.{
  ℤ, pos, negsuc, RequestState, Taken, on_chunked, on_length, consume_in, consume_request, limited,
}
use gforward.Destination.HttpProxy.Counts.{IsReady}

abbrev pub add_count : ℕ → Taken → Taken
add_count k (err e) = err e
add_count k (ok (s, n, finished)) = ok (s, k + n, finished)

-- What the verdict on the first part says of the whole.
abbrev pub Carries : ℕ → Taken → Taken → (RequestState → Taken) → Type 0
Carries len (err e) whole later = whole ≡ err e
Carries len (ok (s, n, true)) whole later = (whole ≡ ok (s, n, true)) × (n ≤ len)
Carries len (ok (s, n, false)) whole later = (whole ≡ add_count n (later s)) × (n ≡ len)

on_chunked-shift :
    (s : RequestState) (k : ℕ) (r : Consumed)
    → on_chunked s (shift k r) ≡ add_count k (on_chunked s r)
on_chunked-shift s k (err e) = refl
on_chunked-shift s k (ok (c, n, finished)) = refl

-- The state of the chunked parser is all that the first part changes.
again_chunked :
    (s : RequestState) (c : ChunkedState) (r : Consumed)
    → on_chunked s r ≡ on_chunked (record s { chunked = some c }) r
again_chunked s c (err e) = refl
again_chunked s c (ok (c', n, finished)) = refl

chunked-Carries :
    (s : RequestState) (c : ChunkedState) (a b : List ℕ)
    → IsActive c
    → Carries
        (length a)
        (on_chunked s (consume_chunked c a))
        (on_chunked s (consume_chunked c (a ++ b)))
        (λ s'. consume_in s' s'.chunked b)
chunked-Carries s c a b h =
    go (consume_chunked c a) (consume_chunked c (a ++ b)) (consume_chunked-Continues c a b h)
  where
    go :
        (r whole : Consumed)
        → Continues (length a) r whole (λ c'. consume_chunked c' b)
        → Carries
            (length a)
            (on_chunked s r)
            (on_chunked s whole)
            (λ s'. consume_in s' s'.chunked b)
    go (err e) whole k = ap (on_chunked s) k
    go (ok (c', n, true)) whole k = (ap (on_chunked s) k.0, k.1)
    go (ok (c', n, false)) whole k = (
      ap (on_chunked s) k.0
          ∙ on_chunked-shift s n (consume_chunked c' b)
          ∙ ap (add_count n) (again_chunked s c' (consume_chunked c' b)),
      k.1,
    )

on_length_short :
    (s : RequestState) (n : ℕ) (buf : List ℕ)
    → length buf ≤ n
    → on_length s (pos (suc n)) buf
      ≡ ok (record s { remaining = pos (suc (n - length buf)) }, length buf, false)
on_length_short s n buf h =
    let left : suc n - length buf ≡ suc (n - length buf) = omega arith in ground (arith, left)

on_length_full :
    (s : RequestState) (n : ℕ) (buf : List ℕ)
    → suc n ≤ length buf
    → on_length s (pos (suc n)) buf ≡ ok (record s { remaining = pos 0 }, suc n, true)
on_length_full s n buf h = elim (Bool-cases (ltb (suc n) (length buf))) [
  | inl more ↦ ground (arith, more)
  | inr same ↦ let e : length buf ≡ suc n = ground (arith, same) in ground (arith, e)
]

length-Carries :
    (s : RequestState) (z : ℤ) (a b : List ℕ)
    → s.chunked ≡ none
    → Carries
        (length a)
        (on_length s z a)
        (on_length s z (a ++ b))
        (λ s'. consume_in s' s'.chunked b)
length-Carries s (negsuc n) a b e = (refl, omega arith)
length-Carries s (pos zero) a b e = (refl, omega arith)
length-Carries s (pos (suc n)) a b e = elim (Bool-cases (leb (length a) n)) [
  | inr full ↦
      let enough : suc n ≤ length a = ground (arith, full) in
      let more : suc n ≤ length (a ++ b) = omega (arith, length-append a b) in
      rw (on_length_full s n a enough, on_length_full s n (a ++ b) more) (refl, enough)
  | inl part ↦
      let short : length a ≤ n = ground (arith, part) in
      elim (Bool-cases (leb (length (a ++ b)) n)) [
        | inl small ↦
            let all : length (a ++ b) ≤ n = ground (arith, small) in
            let rest : length b ≤ n - length a = omega (arith, length-append a b) in
            let next : RequestState = record s { remaining = pos (suc (n - length a)) } in
            let left : n - length (a ++ b) ≡ n - length a - length b =
              omega (arith, length-append a b) in
            rw
              (
                on_length_short s n a short,
                on_length_short s n (a ++ b) all,
                left,
                length-append a b,
              )
              (
                sym (
                    ap (add_count (length a)) (
                      ap (λ o. consume_in next o b) e
                      ∙ on_length_short next (n - length a) b rest)),
                refl,
              )
        | inr large ↦
            let all : suc n ≤ length (a ++ b) = ground (arith, large) in
            let rest : suc (n - length a) ≤ length b = omega (arith, length-append a b) in
            let next : RequestState = record s { remaining = pos (suc (n - length a)) } in
            let count : suc n ≡ length a + suc (n - length a) = omega arith in
            rw (on_length_short s n a short, on_length_full s n (a ++ b) all)
              (
                ap (λ k. ok (record s { remaining = pos 0 }, k, true)) count
                    ∙ sym (
                        ap (add_count (length a)) (
                          ap (λ o. consume_in next o b) e
                          ∙ on_length_full next (n - length a) b rest)),
                refl,
              )
      ]
]

consume_in-Carries :
    (s : RequestState) (o : Option ChunkedState) (a b : List ℕ)
    → s.chunked ≡ o
    → IsReady o
    → Carries
        (length a)
        (consume_in s o a)
        (consume_in s o (a ++ b))
        (λ s'. consume_in s' s'.chunked b)
consume_in-Carries s (some c) a b e h = chunked-Carries s c a b h
consume_in-Carries s none a b e h = length-Carries s s.remaining a b e

limited_all : (buf : List ℕ) (limit : ℕ) → length buf ≤ limit → limited buf limit ≡ buf
limited_all buf limit h = ground (arith, h)

-- A request body may arrive in parts that fit the limit together: an error on the first part is the
-- error on the whole; a body that ends in the first part ends there, whatever follows; otherwise the
-- first part belongs to the body entirely, and the state carries on as if all bytes had come at
-- once. It holds for chunked bodies and for bodies with a length.
pub consume_request-Carries :
    (s : RequestState) (a b : List ℕ) (limit : ℕ)
    → IsReady s.chunked
    → length (a ++ b) ≤ limit
    → Carries
        (length a)
        (consume_request s a limit)
        (consume_request s (a ++ b) limit)
        (λ s'. consume_request s' b limit)
unfolding consume_request
consume_request-Carries s a b limit h le =
    rw
      (
        limited_all a limit (omega (arith, length-append a b)),
        limited_all (a ++ b) limit le,
        limited_all b limit (omega (arith, length-append a b)),
      )
      (consume_in-Carries s s.chunked a b refl h)
