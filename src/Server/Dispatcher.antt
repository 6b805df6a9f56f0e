-- ===== src/Server/Dispatcher.antt =====
-- server/dispatcher.go: which worker gets the events of a connection. A channel is the list of the
-- messages sent to it, oldest first; that a full channel blocks its sender is left out. The atomic
-- counter is a 64-bit word.
pub mod Affinity
pub mod Balance
mod Runs
use gforward.Prelude.{
  ℕ, ◌+◌, ◌-◌, ◌*◌, ◌%◌, ◌^◌, Bool, true, false, Option, none, some, List, [], ◌∷◌, ◌++◌, length,
  ◌==◌, if◌then◌else◌, empty_map, insert, store,
}
use gforward.Protocol.{InternalPacket, forward, new_forward}
use gforward.Message.{RecvMsg, recv_close, Outcome, received, violation, stuck, parse_available}
use gforward.Server.Handler.{DialToken, GnetAction, no_action, close_conn}

abbrev pub Msg : Type 0
Msg = RecvMsg DialToken

-- `worker_of` is the `dispatchContext` of each connection.
pub record Dispatcher : Type 0 where
  pub workers : ℕ
  pub next_worker_index : ℕ
  pub worker_of : ℕ → Option ℕ
  pub channels : ℕ → List Msg

unfoldable pub new_dispatcher : ℕ → Dispatcher
new_dispatcher worker_num = record {
  workers = worker_num;
  next_worker_index = 0;
  worker_of = empty_map;
  channels = λ w. [];
}

-- `Add(1)` on the word, and the result less one.
abbrev pub word : ℕ → ℕ
word n = n % 2 ^ 64

abbrev pub add_one : ℕ → ℕ
add_one n = word (n + 1)

abbrev pub less_one : ℕ → ℕ
less_one n = word (n + (2 ^ 64 - 1))

unfoldable pub on_open : Dispatcher → ℕ → Dispatcher
on_open d conn =
    let added = add_one d.next_worker_index in
    record d {
      next_worker_index = added;
      worker_of = insert conn (less_one added % d.workers) d.worker_of;
    }

-- A connection without a context, which the type assertion answers with a panic, does not occur:
-- gnet opens a connection before its other events.
abbrev pub dispatch_to : Dispatcher → Msg → Option ℕ → Dispatcher
dispatch_to d msg none = d
dispatch_to d msg (some w) = record d { channels = store w (d.channels w ++ (msg ∷ [])) d.channels }

unfoldable pub dispatch : Dispatcher → Msg → Dispatcher
dispatch d msg = dispatch_to d msg (d.worker_of msg.conn)

abbrev pub close_msg : ℕ → Msg
close_msg conn = record { event = recv_close; conn = conn; pkts = []; err = none; token = none }

unfoldable pub on_close : Dispatcher → ℕ → Dispatcher
on_close d conn = dispatch d (close_msg conn)

-- A read without a whole packet is not dispatched.
abbrev pub on_parsed : Dispatcher → Outcome DialToken × List ℕ → Dispatcher × List ℕ × GnetAction
on_parsed d (violation, left) = (d, left, close_conn)
on_parsed d (stuck, left) = (d, left, no_action)
on_parsed d (received msg, left) =
    (if length msg.pkts == 0 then d else dispatch d msg, left, no_action)

-- The protocol of the clients, `&protocol.ForwardPacket{}`.
abbrev pub internal_protocol : InternalPacket
internal_protocol = forward new_forward

-- `OnTraffic` with the bytes in the inbound buffer, and those that stay there.
unfoldable pub on_traffic : Dispatcher → ℕ → List ℕ → Dispatcher × List ℕ × GnetAction
on_traffic d conn buf = on_parsed d (parse_available conn internal_protocol buf)
