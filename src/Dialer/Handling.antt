-- ===== src/Dialer/Handling.antt =====
-- network/dialer/handler.go: the events of a dialed connection. Gnet calls them on the event loop of
-- the connection; what they send to `recvChan` is returned. `S` is what the callback `onOpen` may
-- change, and `T` the type of the tokens, which are the contexts of the connections.
use gforward.Prelude.{ℕ, Option, none, some, List, [], ◌∷◌, length, ◌==◌, if◌then◌else◌}
use gforward.Protocol.{InternalPacket}
use gforward.Message.{
  RecvMsg, recv_close, recv_open, Outcome, received, violation, stuck, parse_available,
}

pub data GnetAction : Type 0 where
  no_action close_conn : GnetAction

module _ {T : Type 0} where
  abbrev pub open_msg : ℕ → T → RecvMsg T
  open_msg conn token = record {
    event = recv_open;
    conn = conn;
    pkts = [];
    err = none;
    token = some token;
  }

  abbrev pub close_msg : ℕ → RecvMsg T
  close_msg conn = record { event = recv_close; conn = conn; pkts = []; err = none; token = none }

  abbrev on_open_by : {S : Type 0} → S × GnetAction → S × List (RecvMsg T) × GnetAction
  on_open_by (s, action) = (s, [], action)

  -- `OnOpen`
  unfoldable pub handle_open :
      {S : Type 0}
      → Option (S → ℕ → T → S × GnetAction)
      → S
      → ℕ
      → T
      → S × List (RecvMsg T) × GnetAction
  handle_open none s conn token = (s, open_msg conn token ∷ [], no_action)
  handle_open (some on_open) s conn token = on_open_by (on_open s conn token)

  -- `OnClose`
  unfoldable pub handle_close : ℕ → List (RecvMsg T) × GnetAction
  handle_close conn = (close_msg conn ∷ [], no_action)

  abbrev pub on_parsed : Outcome T × List ℕ → List (RecvMsg T) × GnetAction × List ℕ
  on_parsed (received msg, rest) = (if length msg.pkts == 0 then [] else msg ∷ [], no_action, rest)
  on_parsed (violation, rest) = ([], close_conn, rest)
  on_parsed (stuck, rest) = ([], close_conn, rest)

  -- `OnTraffic`, with the inbound buffer that it leaves. `ParseAvailable` never gets stuck.
  unfoldable pub handle_traffic :
      InternalPacket → ℕ → List ℕ → List (RecvMsg T) × GnetAction × List ℕ
  handle_traffic proto conn buf = on_parsed (parse_available conn proto buf)
