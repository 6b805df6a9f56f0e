-- ===== src/Dialer/Accounts.antt =====
-- How the dials of network/dialer/dialer.go are counted: a step asks for one, answers one, or does
-- neither.
use gforward.Prelude.{
  ℕ, zero, suc, ◌+◌, ◌-◌, ◌≤◌, ◌≡◌, refl, Bool, true, false, Option, none, some, List, [], ◌∷◌,
  ◌++◌, length, ltb, if◌then◌else◌, ok, err, arith, Bool-cases, Option-cases, inl, inr,
}
use gforward.Message.{RecvMsg}
use gforward.Dialer.{
  Dialed, dial, Dialer, DialResult, Step, asks, acquires, dials, delivers, takes_msg, takes_result,
  keep_front, pick, held, deliver, on_acquired, on_dialed, on_answered, on_msg, on_result, step,
  run, max_concurrent_dials, recv_chan_size, dial_result_chan_size,
}

-- How many elements pass a test.
abbrev pub count {ℓ} : {A : Type ℓ} → (A → Bool) → List A → ℕ
count p [] = 0
count p (x ∷ xs) = (if p x then 1 else 0) + count p xs

count-append :
    {A : Type 0} (p : A → Bool) (xs ys : List A) → count p (xs ++ ys) ≡ count p xs + count p ys
count-append p [] ys = omega arith
count-append p (x ∷ xs) ys = omega (arith, count-append p xs ys)

abbrev CountsAs {ℓ} : {A : Type ℓ} → (A → Bool) → ℕ → Option (A × List A) → Type 0
CountsAs p n none = Unit
CountsAs p n (some (x, xs)) = n ≡ (if p x then 1 else 0) + count p xs

keep_front-CountsAs :
    {A : Type 0} (p : A → Bool) (x : A) (n : ℕ) (o : Option (A × List A))
    → CountsAs p n o
    → CountsAs p ((if p x then 1 else 0) + n) (keep_front x o)
keep_front-CountsAs p x n none h = tt
keep_front-CountsAs p x n (some (y, ys)) h = omega (arith, h)

pick-CountsAs :
    {A : Type 0} (p : A → Bool) (n : ℕ) (xs : List A) → CountsAs p (count p xs) (pick n xs)
pick-CountsAs p n [] = tt
pick-CountsAs p zero (x ∷ xs) = refl
pick-CountsAs p (suc n) (x ∷ xs) =
    keep_front-CountsAs p x (count p xs) (pick n xs) (pick-CountsAs p n xs)

module _ {T : Type 0} where
  abbrev pub test_token : (T → Bool) → T × Dialed → Bool
  test_token p (token, r) = p token

  -- The dials that have no answer yet.
  abbrev pub pending : (T → Bool) → Dialer T → ℕ
  pending p d = count p d.waiting + count p d.dialing + count (test_token p) d.answering

  -- The dials that a sequence of steps asks for.
  abbrev pub asked : List (Step T) → List T
  asked [] = []
  asked (asks token ∷ ss) = token ∷ asked ss
  asked (acquires n ∷ ss) = asked ss
  asked (dials n net enroll ∷ ss) = asked ss
  asked (delivers n ∷ ss) = asked ss
  asked (takes_msg ∷ ss) = asked ss
  asked (takes_result ∷ ss) = asked ss

  abbrev pub picked : Option ((T × Dialed) × List (T × Dialed)) → List (T × Dialed)
  picked none = []
  picked (some (x, xs)) = x ∷ []

  -- The answer that a step gives.
  abbrev pub answer : Dialer T → Step T → List (T × Dialed)
  answer d (asks token) = []
  answer d (acquires n) = []
  answer d (dials n net enroll) = []
  answer d (delivers n) = picked (pick n d.answering)
  answer d takes_msg = []
  answer d takes_result = []

  abbrev behind {ℓ} : {A : Type ℓ} → Option (Dialer T) → (Dialer T → List A) → List A
  behind none f = []
  behind (some d) f = f d

  -- What a sequence of steps shows, in order, where `f` is what a step shows.
  unfoldable pub shown {ℓ} :
      {A : Type ℓ} → (Dialer T → Step T → List A) → Bool → Dialer T → List (Step T) → List A
  shown f flag d [] = []
  shown f flag d (s ∷ ss) = f d s ++ behind (step flag d s) (λ d'. shown f flag d' ss)

  -- The answers that a sequence of steps gives.
  abbrev pub answers : Bool → Dialer T → List (Step T) → List (T × Dialed)
  answers flag d ss = shown answer flag d ss

  -- A dialer that has this many pending dials, if any.
  abbrev Leaves : (T → Bool) → ℕ → Option (Dialer T) → Type 0
  Leaves p n none = Unit
  Leaves p n (some d) = n ≡ pending p d

  deliver-Leaves :
      (p : T → Bool) (flag : Bool) (d : Dialer T) (token : T) (r : Dialed)
      → Leaves p (pending p d) (deliver flag d token r)
  unfolding deliver
  deliver-Leaves p true d token (ok c) = refl
  deliver-Leaves p true d token (err e) =
      elim (Bool-cases (ltb (length d.recv_chan) recv_chan_size)) [
        | inl room ↦ rw room refl
        | inr full ↦ rw full tt
      ]
  deliver-Leaves p false d token r =
      elim (Bool-cases (ltb (length d.dial_results) dial_result_chan_size)) [
        | inl room ↦ rw room refl
        | inr full ↦ rw full tt
      ]

  on_answered-Leaves :
      (p : T → Bool) (flag : Bool) (d : Dialer T) (o : Option ((T × Dialed) × List (T × Dialed)))
      (n : ℕ)
      → CountsAs (test_token p) (count (test_token p) d.answering) o
      → n + count (test_token p) (picked o) ≡ pending p d
      → Leaves p n (on_answered flag d o)
  on_answered-Leaves p flag d none n h e = tt
  on_answered-Leaves p flag d (some ((token, r), rest)) n h e =
      let same : n ≡ pending p (record d { answering = rest }) = omega (arith, h, e) in
      rw same (deliver-Leaves p flag (record d { answering = rest }) token r)

  on_acquired-Leaves :
      (p : T → Bool) (d : Dialer T) (o : Option (T × List T))
      → CountsAs p (count p d.waiting) o
      → Leaves p (pending p d) (on_acquired d o)
  on_acquired-Leaves p d none h = tt
  on_acquired-Leaves p d (some (token, rest)) h =
      omega (arith, h, count-append p d.dialing (token ∷ []))

  on_dialed-Leaves :
      (p : T → Bool) (d : Dialer T) (r : Dialed × List ℕ) (o : Option (T × List T))
      → CountsAs p (count p d.dialing) o
      → Leaves p (pending p d) (on_dialed d r o)
  on_dialed-Leaves p d r none h = tt
  on_dialed-Leaves p d (r, closed) (some (token, rest)) h =
      omega (arith, h, count-append (test_token p) d.answering ((token, r) ∷ []))

  on_msg-Leaves :
      (p : T → Bool) (d : Dialer T) (ms : List (RecvMsg T)) → Leaves p (pending p d) (on_msg d ms)
  on_msg-Leaves p d [] = tt
  on_msg-Leaves p d (m ∷ ms) = refl

  on_result-Leaves :
      (p : T → Bool) (d : Dialer T) (rs : List (DialResult T))
      → Leaves p (pending p d) (on_result d rs)
  on_result-Leaves p d [] = tt
  on_result-Leaves p d (r ∷ rs) = refl

  -- A step asks for a dial, answers one, or does neither.
  step-Leaves :
      (p : T → Bool) (flag : Bool) (d : Dialer T) (s : Step T) (n : ℕ)
      → n + count (test_token p) (answer d s) ≡ pending p d + count p (asked (s ∷ []))
      → Leaves p n (step flag d s)
  unfolding step
  step-Leaves p flag d (asks token) n e = omega (arith, e, count-append p d.waiting (token ∷ []))
  step-Leaves p flag d (acquires k) n e = elim (Bool-cases (ltb (held d) max_concurrent_dials)) [
    | inl free ↦
        let same : n ≡ pending p d = omega (arith, e) in
        rw (free, same) (on_acquired-Leaves p d (pick k d.waiting) (pick-CountsAs p k d.waiting))
    | inr full ↦ rw full tt
  ]
  step-Leaves p flag d (dials k net enroll) n e =
      let same : n ≡ pending p d = omega (arith, e) in
      rw same
        (on_dialed-Leaves p d (dial net enroll) (pick k d.dialing) (pick-CountsAs p k d.dialing))
  step-Leaves p flag d (delivers k) n e =
      on_answered-Leaves p flag d (pick k d.answering) n
        (pick-CountsAs (test_token p) k d.answering) (omega (arith, e))
  step-Leaves p flag d takes_msg n e =
      let same : n ≡ pending p d = omega (arith, e) in rw same (on_msg-Leaves p d d.recv_chan)
  step-Leaves p flag d takes_result n e =
      let same : n ≡ pending p d = omega (arith, e) in rw same (on_result-Leaves p d d.dial_results)

  asked-cons :
      (p : T → Bool) (s : Step T) (ss : List (Step T))
      → count p (asked (s ∷ ss)) ≡ count p (asked (s ∷ [])) + count p (asked ss)
  asked-cons p (asks token) ss = omega arith
  asked-cons p (acquires n) ss = omega arith
  asked-cons p (dials n net enroll) ss = omega arith
  asked-cons p (delivers n) ss = omega arith
  asked-cons p takes_msg ss = omega arith
  asked-cons p takes_result ss = omega arith

  -- An answer is one of the pending dials.
  answer_pending :
      (p : T → Bool) (d : Dialer T) (s : Step T) → count (test_token p) (answer d s) ≤ pending p d
  answer_pending p d (asks token) = omega arith
  answer_pending p d (acquires n) = omega arith
  answer_pending p d (dials n net enroll) = omega arith
  answer_pending p d (delivers n) =
      picked_pending (pick n d.answering) (pick-CountsAs (test_token p) n d.answering)
    where
      picked_pending :
          (o : Option ((T × Dialed) × List (T × Dialed)))
          → CountsAs (test_token p) (count (test_token p) d.answering) o
          → count (test_token p) (picked o) ≤ pending p d
      picked_pending none h = omega arith
      picked_pending (some (x, xs)) h = omega (arith, h)
  answer_pending p d takes_msg = omega arith
  answer_pending p d takes_result = omega arith

  pub run_pending :
      (p : T → Bool) (flag : Bool) (d : Dialer T) (ss : List (Step T)) (d' : Dialer T)
      → run flag d ss ≡ some d'
      → pending p d + count p (asked ss) ≡ pending p d' + count (test_token p) (answers flag d ss)
  unfolding run shown
  run_pending p flag d [] d' e = let same : d ≡ d' = cc in rw same (omega arith)
  run_pending p flag d (s ∷ ss) d' e = elim (Option-cases (step flag d s)) [
    | inl blocked ↦ let bad = rw blocked at e in absurd (cc)
    | inr (m, made) ↦
        let here = pending p d + count p (asked (s ∷ [])) - count (test_token p) (answer d s) in
        let fits = answer_pending p d s in
        let left : here ≡ pending p m =
          rw made at (step-Leaves p flag d s here (omega (arith, fits))) in
        let ih = run_pending p flag m ss d' (rw made at e) in
        let split = asked-cons p s ss in
        let joined = count-append (test_token p) (answer d s) (answers flag m ss) in
        rw made (omega (arith, left, ih, split, joined, fits))
  ]
