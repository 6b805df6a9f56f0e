-- ===== src/Dialer/Channels.antt =====
-- What the channels of network/dialer/dialer.go carry: the answers of the dials, in order.
use gforward.Prelude.{◌≡◌, Bool, true, false, Option, none, some, List, [], ◌∷◌, ◌++◌, ok, err}
use gforward.Message.{RecvMsg, recv_dial_error}
use gforward.Dialer.{
  Dialed, Dialer, DialResult, Step, asks, acquires, dials, delivers, takes_msg, takes_result,
}

abbrev first {ℓ} : {A : Type ℓ} → List A → List A
first [] = []
first (x ∷ xs) = x ∷ []

module _ {T : Type 0} where
  -- What the reader of `dialResultChan` is to get: every answer, or nothing where the dialer reports
  -- errors on `recvChan` only.
  abbrev pub reported : Bool → List (T × Dialed) → List (DialResult T)
  reported true an = []
  reported false [] = []
  reported false ((token, ok c) ∷ an) =
      record { conn = some c; err = none; token = token } ∷ reported false an
  reported false ((token, err e) ∷ an) =
      record { conn = none; err = some e; token = token } ∷ reported false an

  -- What `AsyncDial` is to put on `recvChan`.
  abbrev pub notified : Bool → List (T × Dialed) → List (RecvMsg T)
  notified false an = []
  notified true [] = []
  notified true ((token, ok c) ∷ an) = notified true an
  notified true ((token, err e) ∷ an) =
      record { event = recv_dial_error; conn = 0; pkts = []; err = some e; token = some token }
      ∷ notified true an

  -- What the readers of the two channels take in a step.
  abbrev pub read_result : Dialer T → Step T → List (DialResult T)
  read_result d (asks token) = []
  read_result d (acquires n) = []
  read_result d (dials n net enroll) = []
  read_result d (delivers n) = []
  read_result d takes_msg = []
  read_result d takes_result = first d.dial_results

  abbrev pub read_msg : Dialer T → Step T → List (RecvMsg T)
  read_msg d (asks token) = []
  read_msg d (acquires n) = []
  read_msg d (dials n net enroll) = []
  read_msg d (delivers n) = []
  read_msg d takes_msg = first d.recv_chan
  read_msg d takes_result = []

  -- A step that takes `rs` and `ms` from the channels, and gives the answers `an`.
  abbrev Carries :
      Bool
      → Dialer T
      → List (DialResult T)
      → List (RecvMsg T)
      → List (T × Dialed)
      → Option (Dialer T)
      → Type 0
  Carries flag d rs ms an none = Unit
  Carries flag d rs ms an (some m) =
      (rs ++ m.dial_results ≡ d.dial_results ++ reported flag an)
      × (ms ++ m.recv_chan ≡ d.recv_chan ++ notified flag an)
