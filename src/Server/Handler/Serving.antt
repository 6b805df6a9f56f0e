-- ===== src/Server/Handler/Serving.antt =====
-- The handlers of server/handler.go against the map from clients to routes, in which no pointer is
-- left.
use gforward.Prelude.{
  ℕ, ◌≡◌, ◌≢◌, ◌⊎◌, Bool, true, false, Option, none, some, List, [], ◌∷◌, ◌++◌, ◌==◌, if◌then◌else◌,
}
use gforward.Protocol.{InternalPacket, packet_destination, get_payload}
use gforward.Message.{RecvMsg, RecvEvent, recv_data, recv_close, recv_open, recv_dial_error}
use gforward.Server.Session.{Session, SessionTable, get_by_dest}
use gforward.Server.Session.Refinement.{
  Route, view, RouteAction, waits, sends, connects, admit_route,
}
use gforward.Server.Session.Purges.{conn_of, drop_route}
use gforward.Server.Handler.{
  DialToken, DialResult, OnError, ignores, purges_dest, Effect, closes, writes, dials, no_action,
  close_conn, handle_dial_open, handle_client_msg, handle_dial_result, handle_dest_msg,
  handle_write_error,
}

-- What a handler asks for, without the pointer of a dial's token.
pub data Call : Type 0 where
  shuts : ℕ → Call
  pushes : Option ℕ → List ℕ → OnError → Call
  reaches : List ℕ → ℕ → Call

abbrev pub call : Effect → Call
call (closes conn) = shuts conn
call (writes conn payload on_error) = pushes conn payload on_error
call (dials dest token) = reaches dest token.client_conn

abbrev pub calls : List Effect → List Call
calls [] = []
calls (e ∷ es) = call e ∷ calls es

-- A message ends its connection if it says so, and also if it has no packets.
abbrev pub ends : RecvEvent → List InternalPacket → Bool
ends recv_close pkts = true
ends recv_data [] = true
ends recv_data (pkt ∷ pkts) = false
ends recv_open [] = true
ends recv_open (pkt ∷ pkts) = false
ends recv_dial_error [] = true
ends recv_dial_error (pkt ∷ pkts) = false

abbrev pub shut : Option ℕ → List Call
shut none = []
shut (some conn) = shuts conn ∷ []

abbrev pub acts : ℕ → RouteAction → List Call
acts client waits = []
acts client (sends conn payload) = pushes conn payload purges_dest ∷ []
acts client (connects old dest) = shut old ++ (reaches dest client ∷ [])

-- The packets of a read go through the client's route one after the other.
abbrev pub serve : ℕ → Route → List InternalPacket → Route × List Call
serve client r [] = (r, [])
serve client r (pkt ∷ pkts) =
    let (r', a) = admit_route r (packet_destination pkt) (get_payload pkt) in
    let (last, cs) = serve client (some r') pkts in (last, acts client a ++ cs)

abbrev pub on_client : RecvMsg DialToken → Route → Route × List Call
on_client msg r =
    if ends msg.event msg.pkts then (none, shut (conn_of r)) else serve msg.conn r msg.pkts

abbrev pub push_all : ℕ → List (List ℕ) → List Call
push_all conn [] = []
push_all conn (payload ∷ rest) = pushes (some conn) payload purges_dest ∷ push_all conn rest

-- The result of a client's current dial: the data that waited is sent, or the route is forgotten.
abbrev pub on_current : DialResult → Option ℕ → Session → Route × List Call
on_current res none s =
    (some (record s { dialing = false; pending = [] }), push_all res.conn s.pending)
on_current res (some e) s = (none, [])

-- A stale success closes its connection, and a stale failure does nothing.
abbrev pub on_stale : DialResult → Option ℕ → List Effect
on_stale res none = closes res.conn ∷ []
on_stale res (some e) = []

abbrev pub push_back : Option ℕ → List InternalPacket → List Call
push_back none pkts = []
push_back (some client) [] = []
push_back (some client) (pkt ∷ pkts) =
    pushes (some client) (get_payload pkt) ignores ∷ push_back (some client) pkts

-- The handlers on a table, as operations on the routes.
pub record IsServed (t : SessionTable) : Type 0 where
  pub client_msg :
      (msg : RecvMsg DialToken)
      → ((c : ℕ)
          → view (handle_client_msg t msg).0 c
            ≡ (if msg.conn == c then (on_client msg (view t msg.conn)).0 else view t c))
        × (calls (handle_client_msg t msg).1 ≡ (on_client msg (view t msg.conn)).1)
  pub dial_open :
      (conn : ℕ) (token : DialToken)
      → ((t.by_client token.client_conn ≡ some token.session)
          × ((handle_dial_open t conn token).1 ≡ no_action)
          × ((c : ℕ)
              → view (handle_dial_open t conn token).0 c ≡ (
                  if token.client_conn == c
                  then some (record (t.heap token.session) { dest_conn = some conn })
                  else view t c)))
        ⊎ ((t.by_client token.client_conn ≢ some token.session)
            × (handle_dial_open t conn token ≡ (t, close_conn)))
  pub dial_result :
      (res : DialResult)
      → let spec = on_current res res.err (t.heap res.token.session) in
        ((t.by_client res.token.client_conn ≡ some res.token.session)
          × ((c : ℕ)
              → view (handle_dial_result t res).0 c
                ≡ (if res.token.client_conn == c then spec.0 else view t c))
          × (calls (handle_dial_result t res).1 ≡ spec.1))
        ⊎ ((t.by_client res.token.client_conn ≢ some res.token.session)
            × (handle_dial_result t res ≡ (t, on_stale res res.err)))
  pub dest_msg :
      (msg : RecvMsg DialToken)
      → ((c : ℕ)
          → view (handle_dest_msg t msg).0 c
            ≡ (if ends msg.event msg.pkts then drop_route msg.conn (view t c) else view t c))
        × (calls (handle_dest_msg t msg).1 ≡ (
            if ends msg.event msg.pkts
            then shut (get_by_dest t msg.conn)
            else push_back (get_by_dest t msg.conn) msg.pkts))
  pub write_error :
      (conn : ℕ)
      → ((c : ℕ) → view (handle_write_error t conn).0 c ≡ drop_route conn (view t c))
        × ((handle_write_error t conn).1 ≡ closes conn ∷ [])
