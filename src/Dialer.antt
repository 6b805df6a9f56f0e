-- ===== src/Dialer.antt =====
-- network/dialer/dialer.go and handler.go: dials in the background, and the events of dialed
-- connections. A connection and an error are numbers. `net.Dialer` and gnet's `EnrollContext` are
-- parameters of the steps; a step is one move of a goroutine or of a reader of a channel, and none
-- says that it cannot be made yet. `T` is the type of the tokens.
pub mod Handling
pub mod Relays
pub mod Slots
pub mod Accounts
pub mod Channels
pub mod Draining
mod Runs
use gforward.Prelude.{
  ℕ, zero, suc, ◌+◌, Bool, true, false, not, Option, none, some, List, [], ◌∷◌, ◌++◌, length, ltb,
  ◌==◌, if◌then◌else◌, Result, ok, err,
}
use gforward.Protocol.{InternalPacket}
use gforward.Message.{
  RecvMsg, recv_data, recv_close, recv_open, recv_dial_error, Outcome, received, violation, stuck,
  parse_available,
}

abbrev pub max_concurrent_dials : ℕ
max_concurrent_dials = 256

abbrev pub dial_result_chan_size : ℕ
dial_result_chan_size = 20

abbrev pub recv_chan_size : ℕ
recv_chan_size = 256

-- What `Dial` answers.
abbrev pub Dialed : Type 0
Dialed = Result ℕ ℕ

abbrev pub on_enrolled : ℕ → Dialed → Dialed × List ℕ
on_enrolled conn (err e) = (err e, conn ∷ [])
on_enrolled conn (ok c) = (ok c, [])

-- `Dial` from the result of `DialContext` and of `EnrollContext`, with the connections that it
-- closes.
unfoldable pub dial : Dialed → (ℕ → Dialed) → Dialed × List ℕ
dial (err e) enroll = (err e, [])
dial (ok conn) enroll = on_enrolled conn (enroll conn)

module _ (T : Type 0) where
  pub record DialResult : Type 0 where
    pub conn : Option ℕ
    pub err : Option ℕ
    pub token : T

  -- The goroutines of `AsyncDial` by where they are: before `dialSem`, in `Dial`, and before the
  -- channel with what `Dial` has answered. The last two hold a slot of `dialSem`.
  pub record Dialer : Type 0 where
    pub waiting : List T
    pub dialing : List T
    pub answering : List (T × Dialed)
    pub closed : List ℕ
    pub recv_chan : List (RecvMsg T)
    pub dial_results : List DialResult

  pub data Step : Type 0 where
    asks : T → Step
    acquires : ℕ → Step
    dials : ℕ → Dialed → (ℕ → Dialed) → Step
    delivers : ℕ → Step
    takes_msg takes_result : Step

abbrev pub keep_front {ℓ} : {A : Type ℓ} → A → Option (A × List A) → Option (A × List A)
keep_front x none = none
keep_front x (some (y, ys)) = some (y, x ∷ ys)

-- The n-th element, and the others.
abbrev pub pick {ℓ} : {A : Type ℓ} → ℕ → List A → Option (A × List A)
pick n [] = none
pick zero (x ∷ xs) = some (x, xs)
pick (suc n) (x ∷ xs) = keep_front x (pick n xs)

module _ {T : Type 0} where
  -- The slots of `dialSem` that are taken.
  abbrev pub held : Dialer T → ℕ
  held d = length d.dialing + length d.answering

  abbrev pub to_recv : Dialer T → RecvMsg T → Option (Dialer T)
  to_recv d msg =
      if ltb (length d.recv_chan) recv_chan_size
      then some (record d { recv_chan = d.recv_chan ++ (msg ∷ []) })
      else none

  abbrev pub to_results : Dialer T → DialResult T → Option (Dialer T)
  to_results d res =
      if ltb (length d.dial_results) dial_result_chan_size
      then some (record d { dial_results = d.dial_results ++ (res ∷ []) })
      else none

  abbrev pub dial_error : T → ℕ → RecvMsg T
  dial_error token e = record {
    event = recv_dial_error;
    conn = 0;
    pkts = [];
    err = some e;
    token = some token;
  }

  abbrev pub result_of : T → Dialed → DialResult T
  result_of token (ok c) = record { conn = some c; err = none; token = token }
  result_of token (err e) = record { conn = none; err = some e; token = token }

  -- Behind `Dial` in `AsyncDial`; `errors_to_recv` is `dialErrorToRecvChan`.
  unfoldable pub deliver : Bool → Dialer T → T → Dialed → Option (Dialer T)
  deliver true d token (ok c) = some d
  deliver true d token (err e) = to_recv d (dial_error token e)
  deliver false d token r = to_results d (result_of token r)

  abbrev pub on_acquired : Dialer T → Option (T × List T) → Option (Dialer T)
  on_acquired d none = none
  on_acquired d (some (token, rest)) =
      some (record d { waiting = rest; dialing = d.dialing ++ (token ∷ []) })

  abbrev pub on_dialed : Dialer T → Dialed × List ℕ → Option (T × List T) → Option (Dialer T)
  on_dialed d r none = none
  on_dialed d (r, closed) (some (token, rest)) = some (record d {
    dialing = rest;
    answering = d.answering ++ ((token, r) ∷ []);
    closed = d.closed ++ closed;
  })

  abbrev pub on_answered :
      Bool → Dialer T → Option ((T × Dialed) × List (T × Dialed)) → Option (Dialer T)
  on_answered errors_to_recv d none = none
  on_answered errors_to_recv d (some ((token, r), rest)) =
      deliver errors_to_recv (record d { answering = rest }) token r

  abbrev pub on_msg : Dialer T → List (RecvMsg T) → Option (Dialer T)
  on_msg d [] = none
  on_msg d (msg ∷ msgs) = some (record d { recv_chan = msgs })

  abbrev pub on_result : Dialer T → List (DialResult T) → Option (Dialer T)
  on_result d [] = none
  on_result d (res ∷ results) = some (record d { dial_results = results })

  -- `AsyncDial`: its call, the three parts of its goroutine, and the readers of the channels.
  unfoldable pub step : Bool → Dialer T → Step T → Option (Dialer T)
  step errors_to_recv d (asks token) = some (record d { waiting = d.waiting ++ (token ∷ []) })
  step errors_to_recv d (acquires n) =
      if ltb (held d) max_concurrent_dials then on_acquired d (pick n d.waiting) else none
  step errors_to_recv d (dials n net enroll) = on_dialed d (dial net enroll) (pick n d.dialing)
  step errors_to_recv d (delivers n) = on_answered errors_to_recv d (pick n d.answering)
  step errors_to_recv d takes_msg = on_msg d d.recv_chan
  step errors_to_recv d takes_result = on_result d d.dial_results

  abbrev pub and_then : Option (Dialer T) → (Dialer T → Option (Dialer T)) → Option (Dialer T)
  and_then none f = none
  and_then (some d) f = f d

  unfoldable pub run : Bool → Dialer T → List (Step T) → Option (Dialer T)
  run errors_to_recv d [] = some d
  run errors_to_recv d (s ∷ ss) =
      and_then (step errors_to_recv d s) (λ d'. run errors_to_recv d' ss)

  abbrev pub new_dialer : Dialer T
  new_dialer = record {
    waiting = [];
    dialing = [];
    answering = [];
    closed = [];
    recv_chan = [];
    dial_results = [];
  }
