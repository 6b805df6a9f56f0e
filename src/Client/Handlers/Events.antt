-- ===== src/Client/Handlers/Events.antt =====
-- The events that gnet and the dialer deliver to client/forwarder.go, as a step relation on the
-- client's state, and what holds of its table after any of them.
use gforward.Prelude.{
  ℕ, zero, suc, ◌≡◌, refl, Option, none, some, List, length, ◌==◌, ◌&&◌, Result, ok, err,
  Bool-cases, Option-cases, inl, inr,
}
use gforward.Protocol.{InternalPacket, PacketError, packet_marshal}
use gforward.Message.{RecvMsg, RecvEvent, recv_data, recv_close, recv_open, recv_dial_error}
use gforward.Destination.Parser.{
  ParseStatus, parse_need_more_data, parse_done, parse_rejected, ParseResult,
}
use gforward.Client.Session.{
  SessionTable, new_session_table, get_dest, get_by_server, complete_dial,
}
use gforward.Client.Session.Invariant.{
  IsWf, new_session_table-IsWf, admit_upstream-IsWf, complete_dial-IsWf, abort_dial-IsWf,
  purge_by_user-IsWf, purge_by_server-IsWf,
}
use gforward.Client.Forwarder.{
  Forwarder, Setup, Turn, Request, Found, stops, finds, Effect, DialToken, find_dest, on_dest,
  on_status, on_found, on_marshalled, peek_payload, is_none, cut, discarded, packet_for,
  traffic_loop, on_traffic,
}
use gforward.Client.Handlers.{
  on_close, handle_dial_close, handle_server_msg, on_user, handle_dial_open, on_completed,
  handle_dial_error, handle_event, with_token,
}

-- The tokens and connections that the dialer delivers with an event: a connection that has opened
-- is new to the table, and belongs to a dial whose session has no connection.
abbrev pub IsDelivered : {P : Type 0} → Forwarder P → RecvMsg DialToken → Type 0
IsDelivered f msg =
    (token : DialToken)
    → msg.token ≡ some token
    → (f.sessions.by_server msg.conn ≡ none) × ((f.sessions.heap token.session).server_conn ≡ none)

module _ {P : Type 0} (env : Setup P) where
  -- One event: user data in an inbound buffer, a user that closes, an event of the dialer.
  pub data Event (f : Forwarder P) : Forwarder P → Type 0 where
    traffic : (conn : ℕ) (buf : List ℕ) → Event f (on_traffic env f conn buf).state
    closed : (conn : ℕ) → Event f (on_close env f conn).0
    delivered : (msg : RecvMsg DialToken) → IsDelivered f msg → Event f (handle_event env f msg).0

  pub data Run (f : Forwarder P) : Forwarder P → Type 0 where
    starts : Run f f
    follows : {g k : Forwarder P} → Run f g → Event g k → Run f k

  abbrev KeepsFound : Found P → Type 0
  KeepsFound (stops t) = IsWf t.state.sessions
  KeepsFound (finds f buf es req) = IsWf f.sessions

  on_status-IsWf :
      (f : Forwarder P) (buf : List ℕ) (es : List Effect) (r : ParseResult) (s : ParseStatus)
      → IsWf f.sessions
      → KeepsFound (on_status f buf es r s)
  on_status-IsWf f buf es r parse_need_more_data w = w
  on_status-IsWf f buf es r parse_rejected w = w
  on_status-IsWf f buf es r parse_done w = elim (Bool-cases (length r.destination == 0)) [
    | inl blank ↦ rw blank w
    | inr named ↦ rw named w
  ]

  on_dest-IsWf :
      (f : Forwarder P) (conn : ℕ) (buf : List ℕ) (o : Option (List ℕ))
      → IsWf f.sessions
      → KeepsFound (on_dest env f conn buf o)
  on_dest-IsWf f conn buf (some dest) w = w
  on_dest-IsWf f conn buf none w =
      let e = env.parser.parse f.parser_state conn buf in
      elim (Option-cases e.result) [
        | inl failed ↦ rw failed w
        | inr (r, h) ↦
            rw h (on_status-IsWf (record f { parser_state = e.state }) e.buffer _ r r.status w)
      ]

  on_marshalled-IsWf :
      (f : Forwarder P) (conn : ℕ) (buf : List ℕ) (es : List Effect) (req : Request)
      (r : Result PacketError (List ℕ)) (again : Forwarder P → List ℕ → Turn P)
      → IsWf f.sessions
      → ((g : Forwarder P) (left : List ℕ) → IsWf g.sessions → IsWf (again g left).state.sessions)
      → IsWf (on_marshalled env f conn buf es req r again).state.sessions
  on_marshalled-IsWf f conn buf es req (err e) again w ih = w
  on_marshalled-IsWf f conn buf es req (ok bytes) again w ih =
      let kept = admit_upstream-IsWf f.sessions conn req.cached_dest bytes w in
      elim (Bool-cases (length buf == 0)) [
        | inl empty ↦ rw empty kept
        | inr more ↦ rw more (ih _ buf kept)
      ]

  on_found-IsWf :
      (conn : ℕ) (found : Found P) (again : Forwarder P → List ℕ → Turn P)
      → KeepsFound found
      → ((g : Forwarder P) (left : List ℕ) → IsWf g.sessions → IsWf (again g left).state.sessions)
      → IsWf (on_found env conn found again).state.sessions
  on_found-IsWf conn (stops t) again w ih = w
  on_found-IsWf conn (finds f buf es req) again w ih =
      elim (Option-cases (peek_payload env buf req req.decoded)) [
        | inl failed ↦ rw failed w
        | inr (payload, shown) ↦
            rw shown
              (elim (Bool-cases
                (length payload == 0 && (length req.cached_dest == 0 && is_none req.decoded))) [
                  | inl nothing ↦ rw nothing w
                  | inr something ↦ rw something (
                      on_marshalled-IsWf f conn (discarded env buf req (cut payload)) es req
                        (packet_marshal (packet_for env req.dest (cut payload))) again w ih)
                ])
      ]

  traffic_loop-IsWf :
      (fuel conn : ℕ) (f : Forwarder P) (buf : List ℕ)
      → IsWf f.sessions
      → IsWf (traffic_loop fuel env conn f buf).state.sessions
  unfolding traffic_loop find_dest
  traffic_loop-IsWf zero conn f buf w = w
  traffic_loop-IsWf (suc fuel) conn f buf w =
      on_found-IsWf conn (on_dest env f conn buf (get_dest f.sessions conn))
        (traffic_loop fuel env conn) (on_dest-IsWf f conn buf (get_dest f.sessions conn) w)
        (λ g left v. traffic_loop-IsWf fuel conn g left v)

  handle_server_msg-IsWf :
      (f : Forwarder P) (server : ℕ) (pkts : List InternalPacket) (o : Option ℕ)
      → IsWf f.sessions
      → IsWf (on_user env f pkts o).0.sessions
  handle_server_msg-IsWf f server pkts none w = w
  handle_server_msg-IsWf f server pkts (some user) w = w

  on_completed-IsWf :
      (f : Forwarder P) (conn : ℕ) (r : SessionTable × Option (List (List ℕ)))
      → IsWf r.0
      → IsWf (on_completed f conn r).0.sessions
  on_completed-IsWf f conn (t, none) w = w
  on_completed-IsWf f conn (t, some pending) w = w

  with_open-IsWf :
      (f : Forwarder P) (conn : ℕ) (o : Option DialToken)
      → ((token : DialToken)
          → o ≡ some token
          → (f.sessions.by_server conn ≡ none)
            × ((f.sessions.heap token.session).server_conn ≡ none))
      → IsWf f.sessions
      → IsWf (with_token f o (handle_dial_open f conn)).0.sessions
  unfolding handle_dial_open
  with_open-IsWf f conn none h w = w
  with_open-IsWf f conn (some token) h w =
      let (fresh, unbound) = h token refl in
      on_completed-IsWf f conn (complete_dial f.sessions token.user_conn token.session conn)
        (complete_dial-IsWf f.sessions token.user_conn token.session conn w fresh unbound)

  with_error-IsWf :
      (f : Forwarder P) (o : Option DialToken) (conn : ℕ)
      → ((token : DialToken)
          → o ≡ some token
          → (f.sessions.by_server conn ≡ none)
            × ((f.sessions.heap token.session).server_conn ≡ none))
      → IsWf f.sessions
      → IsWf (with_token f o (handle_dial_error f)).0.sessions
  unfolding handle_dial_error
  with_error-IsWf f none conn h w = w
  with_error-IsWf f (some token) conn h w =
      abort_dial-IsWf f.sessions token.user_conn token.session w (h token refl).1

  event-IsWf :
      (f : Forwarder P) (event : RecvEvent) (msg : RecvMsg DialToken)
      → msg.event ≡ event
      → IsDelivered f msg
      → IsWf f.sessions
      → IsWf (handle_event env f msg).0.sessions
  unfolding handle_event handle_server_msg handle_dial_close
  event-IsWf f recv_data msg e h w =
      rw e (handle_server_msg-IsWf f msg.conn msg.pkts (get_by_server f.sessions msg.conn) w)
  event-IsWf f recv_close msg e h w = rw e (purge_by_server-IsWf f.sessions msg.conn w)
  event-IsWf f recv_open msg e h w = rw e (with_open-IsWf f msg.conn msg.token h w)
  event-IsWf f recv_dial_error msg e h w = rw e (with_error-IsWf f msg.token msg.conn h w)

  Event-IsWf : {f g : Forwarder P} → Event f g → IsWf f.sessions → IsWf g.sessions
  Event-IsWf {f} (traffic conn buf) w =
      unfold on_traffic in traffic_loop-IsWf (suc (length buf)) conn f buf w
  Event-IsWf {f} (closed conn) w = unfold on_close in purge_by_user-IsWf f.sessions conn w
  Event-IsWf {f} (delivered msg h) w = event-IsWf f msg.event msg refl h w

  runs_keep : {f g : Forwarder P} → Run f g → IsWf f.sessions → IsWf g.sessions
  runs_keep starts w = w
  runs_keep (follows r e) w = Event-IsWf e (runs_keep r w)

-- Whatever users send, close and wait for, in whatever order the events arrive and for every
-- parser, the client's table stays well formed, if it starts empty and the dialer reports each
-- connection that opens once, for a dial whose session has none.
pub Run-IsWf :
    {P : Type 0} (env : Setup P) (p : P) (g : Forwarder P)
    → Run env (record { parser_state = p; sessions = new_session_table }) g
    → IsWf g.sessions
Run-IsWf env p g r = runs_keep env r new_session_table-IsWf
