-- ===== src/Server/Handler.antt =====
-- server/handler.go: what a worker does with the events of clients, dials and destinations. A
-- handler returns the new table and the calls that it makes outside the lock, in order. The dialer,
-- gnet and the logger are outside the model: `Effect` is what they are asked to do.
pub mod Delivery
pub mod Serving
pub mod Served
pub mod Workers
use gforward.Prelude.{
  ℕ, Bool, true, false, ◌||◌, Option, none, some, List, [], ◌∷◌, ◌++◌, length, ◌==◌, if◌then◌else◌,
}
use gforward.Protocol.{InternalPacket, packet_destination, get_payload}
use gforward.Message.{RecvMsg, RecvEvent, recv_data, recv_close, recv_open, recv_dial_error}
use gforward.Server.Session.{
  SessionTable, UpstreamAction, queued, forward, dial, admit_upstream, bind_dial, complete_dial,
  abort_dial, purge_by_client, purge_by_dest, get_by_dest,
}

-- The pointer stands for the session by which the result of a dial is checked.
pub record DialToken : Type 0 where
  pub client_conn : ℕ
  pub session : ℕ

-- `conn` counts only where `err` is nil.
pub record DialResult : Type 0 where
  pub conn : ℕ
  pub err : Option ℕ
  pub token : DialToken

-- The callback of `utils.AsyncWrite` on a failed write.
pub data OnError : Type 0 where
  ignores purges_dest : OnError

-- `conn.Close()`, `utils.AsyncWrite(conn, payload, logger, onError)` and `dialer.AsyncDial`.
pub data Effect : Type 0 where
  closes : ℕ → Effect
  writes : Option ℕ → List ℕ → OnError → Effect
  dials : List ℕ → DialToken → Effect

pub data GnetAction : Type 0 where
  no_action close_conn : GnetAction

abbrev pub close_all : Option ℕ → List Effect
close_all none = []
close_all (some conn) = closes conn ∷ []

abbrev pub on_opened : SessionTable × Bool → SessionTable × GnetAction
on_opened (t, true) = (t, no_action)
on_opened (t, false) = (t, close_conn)

-- `msgHandler.bindDial`, the callback of a connection that the dialer has opened.
unfoldable pub handle_dial_open : SessionTable → ℕ → DialToken → SessionTable × GnetAction
handle_dial_open t conn token = on_opened (bind_dial t token.client_conn token.session conn)

abbrev pub on_admitted : ℕ → SessionTable × UpstreamAction → SessionTable × List Effect
on_admitted conn (t, queued) = (t, [])
on_admitted conn (t, forward dest_conn payload) = (t, writes dest_conn payload purges_dest ∷ [])
on_admitted conn (t, dial old s dest) =
    (t, close_all old ++ (dials dest (record { client_conn = conn; session = s }) ∷ []))

unfoldable pub forward_upstream : SessionTable → ℕ → InternalPacket → SessionTable × List Effect
forward_upstream t conn pkt =
    on_admitted conn (admit_upstream t conn (packet_destination pkt) (get_payload pkt))

abbrev pub also : List Effect → SessionTable × List Effect → SessionTable × List Effect
also es (t, fs) = (t, es ++ fs)

-- The loop over the packets of one read.
unfoldable pub forward_all : SessionTable → ℕ → List InternalPacket → SessionTable × List Effect
forward_all t conn [] = (t, [])
forward_all t conn (pkt ∷ pkts) =
    let r : SessionTable × List Effect = forward_upstream t conn pkt in
    also r.1 (forward_all r.0 conn pkts)

abbrev pub on_purged : SessionTable × Option ℕ → SessionTable × List Effect
on_purged (t, conn) = (t, close_all conn)

abbrev pub is_close : RecvEvent → Bool
is_close recv_data = false
is_close recv_close = true
is_close recv_open = false
is_close recv_dial_error = false

-- `msg.Event == message.RecvEventClose || len(msg.Pkts) == 0`
abbrev pub is_closing : {T : Type 0} → RecvMsg T → Bool
is_closing msg = is_close msg.event || length msg.pkts == 0

unfoldable pub handle_client_msg : SessionTable → RecvMsg DialToken → SessionTable × List Effect
handle_client_msg t msg =
    if is_closing msg
    then on_purged (purge_by_client t msg.conn)
    else forward_all t msg.conn msg.pkts

-- The loop over the data that waited for the dial.
abbrev pub replay : ℕ → OnError → List (List ℕ) → List Effect
replay conn on_error [] = []
replay conn on_error (payload ∷ rest) =
    writes (some conn) payload on_error ∷ replay conn on_error rest

abbrev pub on_completed : ℕ → SessionTable × Option (List (List ℕ)) → SessionTable × List Effect
on_completed conn (t, none) = (t, closes conn ∷ [])
on_completed conn (t, some pending) = (t, replay conn purges_dest pending)

unfoldable pub handle_dial_result : SessionTable → DialResult → SessionTable × List Effect
handle_dial_result t res = elim res.err [
  | some e ↦ ((abort_dial t res.token.client_conn res.token.session).0, [])
  | none ↦ on_completed res.conn (complete_dial t res.token.client_conn res.token.session)
]

-- The loop over the downstream packets.
abbrev pub write_back : ℕ → List InternalPacket → List Effect
write_back conn [] = []
write_back conn (pkt ∷ pkts) = writes (some conn) (get_payload pkt) ignores ∷ write_back conn pkts

abbrev pub on_routed : SessionTable → List InternalPacket → Option ℕ → SessionTable × List Effect
on_routed t pkts none = (t, [])
on_routed t pkts (some client) = (t, write_back client pkts)

unfoldable pub handle_dest_msg : SessionTable → RecvMsg DialToken → SessionTable × List Effect
handle_dest_msg t msg =
    if is_closing msg
    then on_purged (purge_by_dest t msg.conn)
    else on_routed t msg.pkts (get_by_dest t msg.conn)

-- The callback `purges_dest` of a write to `conn` that failed.
unfoldable pub handle_write_error : SessionTable → ℕ → SessionTable × List Effect
handle_write_error t conn = ((purge_by_dest t conn).0, closes conn ∷ [])
