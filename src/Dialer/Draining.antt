-- ===== src/Dialer/Draining.antt =====
-- The dials of network/dialer/dialer.go come to an end: whatever the state, and whatever the network
-- answers to each dial, the goroutines and the readers of the channels can move on until no dial is
-- left.
use gforward.Prelude.{
  ℕ, ◌≤◌, ◌<◌, ◌≡◌, refl, ◌∙◌, Bool, true, false, some, List, [], ◌∷◌, ◌++◌, length, ltb, ok, err,
  arith,
}
use gforward.Message.{RecvMsg}
use gforward.Dialer.{
  Dialed, dial, Dialer, DialResult, Step, asks, acquires, dials, delivers, takes_msg, takes_result,
  deliver, step, recv_chan_size, dial_result_chan_size, dial_error, result_of,
}
use gforward.Dialer.Slots.{IsBounded, IsBoundedIf, step-IsBoundedIf}

module _ {T : Type 0} where
  -- A step of the dialer or of a reader: it asks for no new dial, and has no answer of the network.
  abbrev pub IsInternal : Step T → Type 0
  IsInternal (asks token) = ⊥
  IsInternal (acquires n) = Unit
  IsInternal (dials n net enroll) = ⊥
  IsInternal (delivers n) = Unit
  IsInternal takes_msg = Unit
  IsInternal takes_result = Unit

  -- Internal steps lead to a dialer without dials, against a network that chooses its answers: where
  -- it is the network's turn, every answer leads there.
  pub data Ends (flag : Bool) : Dialer T → Type 0 where
    ended : (d : Dialer T) → d.waiting ≡ [] → d.dialing ≡ [] → d.answering ≡ [] → Ends flag d
    moves :
        (d m : Dialer T) (s : Step T)
        → IsInternal s
        → step flag d s ≡ some m
        → Ends flag m
        → Ends flag d
    hears :
        (d : Dialer T) (n : ℕ) (behind : Dialed → (ℕ → Dialed) → Dialer T)
        → ((net : Dialed) (enroll : ℕ → Dialed)
            → step flag d (dials n net enroll) ≡ some (behind net enroll))
        → ((net : Dialed) (enroll : ℕ → Dialed) → Ends flag (behind net enroll))
        → Ends flag d

  step-IsBounded :
      (flag : Bool) (d m : Dialer T) (s : Step T)
      → IsBounded d
      → step flag d s ≡ some m
      → IsBounded m
  step-IsBounded flag d m s b made =
      let b' : IsBoundedIf (step flag d s) = step-IsBoundedIf flag d s b in rw made at b'

  -- What is shown of every dialer with these goroutines.
  abbrev From : Bool → List T → List T → List (T × Dialed) → Type 0
  From flag w dl an =
      (m : Dialer T) → IsBounded m → m.waiting ≡ w → m.dialing ≡ dl → m.answering ≡ an → Ends flag m

  -- An internal step to a dialer with the goroutines that `next` is about.
  internal :
      (flag : Bool) (d m : Dialer T) (s : Step T)
      → IsBounded d
      → IsInternal s
      → step flag d s ≡ some m
      → From flag m.waiting m.dialing m.answering
      → Ends flag d
  internal flag d m s b quiet made next =
      moves d m s quiet made (next m (step-IsBounded flag d m s b made) refl refl refl)

  -- The first answer is delivered at once if its channel has room.
  error_delivered :
      (d : Dialer T) (token : T) (e : ℕ) (rest : List (T × Dialed))
      → IsBounded d
      → d.answering ≡ (token, err e) ∷ rest
      → length d.recv_chan < recv_chan_size
      → From true d.waiting d.dialing rest
      → Ends true d
  unfolding step deliver
  error_delivered d token e rest b an lt next =
      let room : ltb (length d.recv_chan) recv_chan_size ≡ true = ground (arith, lt) in
      internal true d
        (record d { answering = rest; recv_chan = d.recv_chan ++ (dial_error token e ∷ []) })
        (delivers 0) b tt (rw (an, room) refl) next

  result_delivered :
      (d : Dialer T) (token : T) (r : Dialed) (rest : List (T × Dialed))
      → IsBounded d
      → d.answering ≡ (token, r) ∷ rest
      → length d.dial_results < dial_result_chan_size
      → From false d.waiting d.dialing rest
      → Ends false d
  unfolding step deliver
  result_delivered d token r rest b an lt next =
      let room : ltb (length d.dial_results) dial_result_chan_size ≡ true = ground (arith, lt) in
      internal false d
        (record d { answering = rest; dial_results = d.dial_results ++ (result_of token r ∷ []) })
        (delivers 0) b tt (rw (an, room) refl) next

  -- A full channel is read first.
  error-Ends :
      (d : Dialer T) (token : T) (e : ℕ) (rest : List (T × Dialed)) (msgs : List (RecvMsg T))
      → IsBounded d
      → d.answering ≡ (token, err e) ∷ rest
      → d.recv_chan ≡ msgs
      → From true d.waiting d.dialing rest
      → Ends true d
  unfolding step
  error-Ends d token e rest [] b an chan next =
      error_delivered d token e rest b an (rw chan (omega arith)) next
  error-Ends d token e rest (x ∷ xs) b an chan next =
      let fits : length (x ∷ xs) ≤ recv_chan_size = rw chan at b.msgs in
      let read : Dialer T = record d { recv_chan = xs } in
      let made : step true d takes_msg ≡ some read = rw chan refl in
      moves d read takes_msg tt made (
        error_delivered read token e rest (step-IsBounded true d read takes_msg b made) an
          (omega (arith, fits)) next)

  result-Ends :
      (d : Dialer T) (token : T) (r : Dialed) (rest : List (T × Dialed))
      (results : List (DialResult T))
      → IsBounded d
      → d.answering ≡ (token, r) ∷ rest
      → d.dial_results ≡ results
      → From false d.waiting d.dialing rest
      → Ends false d
  unfolding step
  result-Ends d token r rest [] b an chan next =
      result_delivered d token r rest b an (rw chan (omega arith)) next
  result-Ends d token r rest (x ∷ xs) b an chan next =
      let fits : length (x ∷ xs) ≤ dial_result_chan_size = rw chan at b.results in
      let read : Dialer T = record d { dial_results = xs } in
      let made : step false d takes_result ≡ some read = rw chan refl in
      moves d read takes_result tt made (
        result_delivered read token r rest (step-IsBounded false d read takes_result b made) an
          (omega (arith, fits)) next)

  first-Ends :
      (flag : Bool) (d : Dialer T) (token : T) (r : Dialed) (rest : List (T × Dialed))
      → IsBounded d
      → d.answering ≡ (token, r) ∷ rest
      → From flag d.waiting d.dialing rest
      → Ends flag d
  unfolding step deliver
  first-Ends false d token r rest b an next =
      result-Ends d token r rest d.dial_results b an refl next
  first-Ends true d token (err e) rest b an next =
      error-Ends d token e rest d.recv_chan b an refl next
  first-Ends true d token (ok c) rest b an next =
      internal true d (record d { answering = rest }) (delivers 0) b tt (rw an refl) next

  -- All answers are delivered, then all dials made, then all slots given.
  answering-Ends :
      (flag : Bool) (w dl : List T) (an : List (T × Dialed)) → From flag w dl [] → From flag w dl an
  answering-Ends flag w dl [] next m b ew ed ea = next m b ew ed ea
  answering-Ends flag w dl ((token, r) ∷ rest) next m b ew ed ea =
      first-Ends flag m token r rest b ea
        (λ m' b' w' d' a'. answering-Ends flag w dl rest next m' b' (w' ∙ ew) (d' ∙ ed) a')

  dialing-Ends : (flag : Bool) (w dl : List T) → From flag w [] [] → From flag w dl []
  unfolding step
  dialing-Ends flag w [] next m b ew ed ea = next m b ew ed ea
  dialing-Ends flag w (token ∷ rest) next m b ew ed ea = hears m 0 behind made (λ net enroll.
      answering-Ends flag w rest (behind net enroll).answering (dialing-Ends flag w rest next)
        (behind net enroll)
        (step-IsBounded flag m (behind net enroll) (dials 0 net enroll) b (made net enroll)) ew refl
        refl)
    where
      behind : Dialed → (ℕ → Dialed) → Dialer T
      behind net enroll = record m {
        dialing = rest;
        answering = m.answering ++ ((token, (dial net enroll).0) ∷ []);
        closed = m.closed ++ (dial net enroll).1;
      }

      made :
          (net : Dialed) (enroll : ℕ → Dialed)
          → step flag m (dials 0 net enroll) ≡ some (behind net enroll)
      made net enroll = rw ed refl

  waiting-Ends : (flag : Bool) (w : List T) → From flag w [] []
  unfolding step
  waiting-Ends flag [] m b ew ed ea = ended m ew ed ea
  waiting-Ends flag (token ∷ rest) m b ew ed ea =
      internal flag m (record m { waiting = rest; dialing = m.dialing ++ (token ∷ []) })
        (acquires 0) b tt (rw (ed, ea, ew) refl)
        (λ m' b' w' d' a'.
          dialing-Ends flag rest (m.dialing ++ (token ∷ [])) (waiting-Ends flag rest) m' b' w' d'
            (a' ∙ ea))

-- From every dialer within its bounds, steps that ask for no new dial lead to one with no dial left,
-- whatever the network answers to each dial and whatever gnet answers to each enrolment, the choice
-- of the steps depending on these answers: no state of `AsyncDial` is stuck on a slot or on a full
-- channel for good, as long as the channels' readers go on.
pub IsBounded-Ends : {T : Type 0} (flag : Bool) (d : Dialer T) → IsBounded d → Ends flag d
IsBounded-Ends flag d b =
    answering-Ends flag d.waiting d.dialing d.answering
      (dialing-Ends flag d.waiting d.dialing (waiting-Ends flag d.waiting)) d b refl refl refl
