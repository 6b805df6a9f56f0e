-- ===== src/Dialer/Slots.antt =====
-- The bounds of network/dialer/dialer.go: the slots of `dialSem` and the channels.
use gforward.Prelude.{
  ℕ, zero, suc, ◌≤◌, ◌<◌, ◌≡◌, refl, Bool, true, false, Option, none, some, List, [], ◌∷◌, length,
  ltb, ok, err, arith, length-append, Bool-cases, Option-cases, inl, inr,
}
use gforward.Message.{RecvMsg}
use gforward.Dialer.{
  Dialed, dial, Dialer, DialResult, Step, asks, acquires, dials, delivers, takes_msg, takes_result,
  keep_front, pick, held, to_recv, to_results, deliver, on_acquired, on_dialed, on_answered, on_msg,
  on_result, step, run, new_dialer, max_concurrent_dials, recv_chan_size, dial_result_chan_size,
  dial_error, result_of,
}

-- A picked element leaves one element less.
abbrev IsPicked {ℓ} : {A : Type ℓ} → ℕ → Option (A × List A) → Type 0
IsPicked len none = Unit
IsPicked len (some (x, xs)) = len ≡ suc (length xs)

keep_front-IsPicked :
    {A : Type 0} (x : A) (len : ℕ) (o : Option (A × List A))
    → IsPicked len o
    → IsPicked (suc len) (keep_front x o)
keep_front-IsPicked x len none h = tt
keep_front-IsPicked x len (some (y, ys)) h = omega (arith, h)

pub pick-IsPicked : {A : Type 0} (n : ℕ) (xs : List A) → IsPicked (length xs) (pick n xs)
pick-IsPicked n [] = tt
pick-IsPicked zero (x ∷ xs) = refl
pick-IsPicked (suc n) (x ∷ xs) = keep_front-IsPicked x (length xs) (pick n xs) (pick-IsPicked n xs)

module _ {T : Type 0} where
  -- No more than 256 dials run at once, and no channel holds more than its buffer.
  pub record IsBounded (d : Dialer T) : Type 0 where
    pub slots : held d ≤ max_concurrent_dials
    pub msgs : length d.recv_chan ≤ recv_chan_size
    pub results : length d.dial_results ≤ dial_result_chan_size

  abbrev pub IsBoundedIf : Option (Dialer T) → Type 0
  IsBoundedIf none = Unit
  IsBoundedIf (some d) = IsBounded d

  to_recv-IsBoundedIf : (d : Dialer T) (msg : RecvMsg T) → IsBounded d → IsBoundedIf (to_recv d msg)
  to_recv-IsBoundedIf d msg b = elim (Bool-cases (ltb (length d.recv_chan) recv_chan_size)) [
    | inl room ↦ rw room (record {
      slots = b.slots;
      msgs = ground (arith, room, length-append d.recv_chan (msg ∷ []));
      results = b.results;
    })
    | inr full ↦ rw full tt
  ]

  to_results-IsBoundedIf :
      (d : Dialer T) (res : DialResult T) → IsBounded d → IsBoundedIf (to_results d res)
  to_results-IsBoundedIf d res b =
      elim (Bool-cases (ltb (length d.dial_results) dial_result_chan_size)) [
        | inl room ↦ rw room (record {
          slots = b.slots;
          msgs = b.msgs;
          results = ground (arith, room, length-append d.dial_results (res ∷ []));
        })
        | inr full ↦ rw full tt
      ]

  deliver-IsBoundedIf :
      (flag : Bool) (d : Dialer T) (token : T) (r : Dialed)
      → IsBounded d
      → IsBoundedIf (deliver flag d token r)
  unfolding deliver
  deliver-IsBoundedIf true d token (ok c) b = b
  deliver-IsBoundedIf true d token (err e) b = to_recv-IsBoundedIf d (dial_error token e) b
  deliver-IsBoundedIf false d token r b = to_results-IsBoundedIf d (result_of token r) b

  on_acquired-IsBoundedIf :
      (d : Dialer T) (o : Option (T × List T))
      → held d < max_concurrent_dials
      → IsBounded d
      → IsBoundedIf (on_acquired d o)
  on_acquired-IsBoundedIf d none lt b = tt
  on_acquired-IsBoundedIf d (some (token, rest)) lt b = record {
    slots = omega (arith, lt, length-append d.dialing (token ∷ []));
    msgs = b.msgs;
    results = b.results;
  }

  on_dialed-IsBoundedIf :
      (d : Dialer T) (r : Dialed × List ℕ) (o : Option (T × List T))
      → IsPicked (length d.dialing) o
      → IsBounded d
      → IsBoundedIf (on_dialed d r o)
  on_dialed-IsBoundedIf d r none h b = tt
  on_dialed-IsBoundedIf d (r, closed) (some (token, rest)) h b = record {
    slots = omega (arith, h, b.slots, length-append d.answering ((token, r) ∷ []));
    msgs = b.msgs;
    results = b.results;
  }

  on_answered-IsBoundedIf :
      (flag : Bool) (d : Dialer T) (o : Option ((T × Dialed) × List (T × Dialed)))
      → IsPicked (length d.answering) o
      → IsBounded d
      → IsBoundedIf (on_answered flag d o)
  on_answered-IsBoundedIf flag d none h b = tt
  on_answered-IsBoundedIf flag d (some ((token, r), rest)) h b =
      deliver-IsBoundedIf flag (record d { answering = rest }) token r
        (record { slots = omega (arith, h, b.slots); msgs = b.msgs; results = b.results })

  on_msg-IsBoundedIf :
      (d : Dialer T) (msgs : List (RecvMsg T))
      → length msgs ≤ recv_chan_size
      → IsBounded d
      → IsBoundedIf (on_msg d msgs)
  on_msg-IsBoundedIf d [] le b = tt
  on_msg-IsBoundedIf d (m ∷ ms) le b = record {
    slots = b.slots;
    msgs = omega (arith, le);
    results = b.results;
  }

  on_result-IsBoundedIf :
      (d : Dialer T) (rs : List (DialResult T))
      → length rs ≤ dial_result_chan_size
      → IsBounded d
      → IsBoundedIf (on_result d rs)
  on_result-IsBoundedIf d [] le b = tt
  on_result-IsBoundedIf d (r ∷ rs) le b = record {
    slots = b.slots;
    msgs = b.msgs;
    results = omega (arith, le);
  }

  pub step-IsBoundedIf :
      (flag : Bool) (d : Dialer T) (s : Step T) → IsBounded d → IsBoundedIf (step flag d s)
  unfolding step
  step-IsBoundedIf flag d (asks token) b = record {
    slots = b.slots;
    msgs = b.msgs;
    results = b.results;
  }
  step-IsBoundedIf flag d (acquires n) b = elim (Bool-cases (ltb (held d) max_concurrent_dials)) [
    | inl free ↦ rw free (on_acquired-IsBoundedIf d (pick n d.waiting) (ground (arith, free)) b)
    | inr full ↦ rw full tt
  ]
  step-IsBoundedIf flag d (dials n net enroll) b =
      on_dialed-IsBoundedIf d (dial net enroll) (pick n d.dialing) (pick-IsPicked n d.dialing) b
  step-IsBoundedIf flag d (delivers n) b =
      on_answered-IsBoundedIf flag d (pick n d.answering) (pick-IsPicked n d.answering) b
  step-IsBoundedIf flag d takes_msg b = on_msg-IsBoundedIf d d.recv_chan b.msgs b
  step-IsBoundedIf flag d takes_result b = on_result-IsBoundedIf d d.dial_results b.results b

  run-IsBoundedIf :
      (flag : Bool) (d : Dialer T) (ss : List (Step T)) → IsBounded d → IsBoundedIf (run flag d ss)
  unfolding run
  run-IsBoundedIf flag d [] b = b
  run-IsBoundedIf flag d (s ∷ ss) b = elim (Option-cases (step flag d s)) [
    | inl blocked ↦ rw blocked tt
    | inr (d', made) ↦
        let b' : IsBounded d' = rw made at (step-IsBoundedIf flag d s b) in
        rw made (run-IsBoundedIf flag d' ss b')
  ]

  pub new_dialer-IsBounded : IsBounded (new_dialer {T = T})
  new_dialer-IsBounded = record { slots = omega arith; msgs = omega arith; results = omega arith }

-- Whatever steps are made from the start, in whatever order: no more than 256 dials hold a slot, and
-- the channels hold no more than 256 messages and 20 results.
pub run-IsBounded :
    {T : Type 0} (flag : Bool) (ss : List (Step T)) (d : Dialer T)
    → run flag new_dialer ss ≡ some d
    → IsBounded d
run-IsBounded flag ss d made =
    let b : IsBoundedIf (run flag new_dialer ss) =
      run-IsBoundedIf flag new_dialer ss new_dialer-IsBounded in
    rw made at b
