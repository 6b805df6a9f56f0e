-- ===== src/Server/Handler/Workers.antt =====
-- `start` of server/handler.go: the two loops of a worker over its channels, beside the dialer's
-- event loop, as a step relation.
use gforward.Prelude.{
  ℕ, ◌≡◌, ◌≢◌, ◌⊎◌, refl, true, false, Bool, Option, none, some, List, [], ◌∷◌, Bool-cases, inl,
  inr,
}
use gforward.Protocol.{InternalPacket, packet_destination, get_payload}
use gforward.Message.{RecvMsg}
use gforward.Server.Session.{
  SessionTable, UpstreamAction, queued, forward, dial, admit_upstream, bind_dial, complete_dial,
  abort_dial, get_by_dest, new_session_table, is_session,
}
use gforward.Server.Session.Dialing.{is_session→eq}
use gforward.Server.Session.Invariant.{IsWf}
use gforward.Server.Handler.Serving.{IsServed}
use gforward.Server.Handler.Served.{IsWf-IsServed}
use gforward.Server.Session.Reachable.{
  Reach, Reach-new_session_table, here, next, admits, binds, completes, aborts, client_closes,
  dest_closes,
}
use gforward.Server.Handler.{
  DialToken, DialResult, Effect, on_opened, handle_dial_open, on_admitted, forward_upstream,
  forward_all, is_closing, handle_client_msg, on_completed, handle_dial_result, on_routed,
  handle_dest_msg, handle_write_error,
}

-- What a worker works on: its table, the messages of its clients, the results of its dials, and the
-- messages of its targets.
pub record Worker : Type 0 where
  pub table : SessionTable
  pub channel : List (RecvMsg DialToken)
  pub dial_results : List DialResult
  pub recv_chan : List (RecvMsg DialToken)

abbrev then_table : Worker → SessionTable × List Effect → Worker
then_table w (t, es) = record w { table = t }

-- The rounds of the loops, with the message that the round takes from its channel.
unfoldable pub client_round : Worker → RecvMsg DialToken → List (RecvMsg DialToken) → Worker
client_round w msg rest = record (then_table w (handle_client_msg w.table msg)) { channel = rest }

unfoldable pub result_round : Worker → DialResult → List DialResult → Worker
result_round w res rest = record (then_table w (handle_dial_result w.table res)) {
  dial_results = rest;
}

unfoldable pub dest_round : Worker → RecvMsg DialToken → List (RecvMsg DialToken) → Worker
dest_round w msg rest = record (then_table w (handle_dest_msg w.table msg)) { recv_chan = rest }

-- The dial is not the client's current one any more.
abbrev pub IsStale : SessionTable → DialToken → Type 0
IsStale t token = t.by_client token.client_conn ≢ some token.session

-- The dialer answers a current dial with a success only behind the opening of the session's
-- connection, and with a failure only without one. A stale dial has any answer.
abbrev pub IsAnswered : SessionTable → DialResult → Option ℕ → Type 0
IsAnswered t res none = IsStale t res.token ⊎ ((t.heap res.token.session).dest_conn ≢ none)
IsAnswered t res (some e) = IsStale t res.token ⊎ ((t.heap res.token.session).dest_conn ≡ none)

-- The connection that is opened for a current dial is new, and the only one of its session.
abbrev pub IsOpened : SessionTable → ℕ → DialToken → Type 0
IsOpened t conn token =
    IsStale t token ⊎ ((t.by_dest conn ≡ none) × ((t.heap token.session).dest_conn ≡ none))

abbrev pub on_bound : Worker → SessionTable × Bool → Worker
on_bound w (t, bound) = record w { table = t }

-- One step: a message comes, a round of a loop, the opening of a dialed connection, and a write that
-- failed.
pub data Event (w : Worker) : Worker → Type 0 where
  comes :
      (channel recv_chan : List (RecvMsg DialToken)) (results : List DialResult)
      → Event w (record w { channel = channel; recv_chan = recv_chan; dial_results = results })
  client_msg :
      (msg : RecvMsg DialToken) (rest : List (RecvMsg DialToken))
      → w.channel ≡ msg ∷ rest
      → Event w (client_round w msg rest)
  dial_result :
      (res : DialResult) (rest : List DialResult)
      → w.dial_results ≡ res ∷ rest
      → IsAnswered w.table res res.err
      → Event w (result_round w res rest)
  dest_msg :
      (msg : RecvMsg DialToken) (rest : List (RecvMsg DialToken))
      → w.recv_chan ≡ msg ∷ rest
      → Event w (dest_round w msg rest)
  dial_open :
      (conn : ℕ) (token : DialToken)
      → IsOpened w.table conn token
      → Event w (record w { table = (handle_dial_open w.table conn token).0 })
  write_error : (conn : ℕ) → Event w (record w { table = (handle_write_error w.table conn).0 })

pub data Run (w : Worker) : Worker → Type 0 where
  starts : Run w w
  follows : {u v : Worker} → Run w u → Event u v → Run w v

Reach-trans : {t u v : SessionTable} → Reach t u → Reach u v → Reach t v
Reach-trans r here = r
Reach-trans r (next s step) = next (Reach-trans r s) step

on_admitted-table :
    (conn : ℕ) (t : SessionTable) (a : UpstreamAction) → (on_admitted conn (t, a)).0 ≡ t
on_admitted-table conn t queued = refl
on_admitted-table conn t (forward d payload) = refl
on_admitted-table conn t (dial old s dest) = refl

forward_upstream-Reach :
    (t : SessionTable) (conn : ℕ) (pkt : InternalPacket) → Reach t (forward_upstream t conn pkt).0
unfolding forward_upstream
forward_upstream-Reach t conn pkt =
    let r = admit_upstream t conn (packet_destination pkt) (get_payload pkt) in
    rw (on_admitted-table conn r.0 r.1)
      (next here (admits conn (packet_destination pkt) (get_payload pkt)))

forward_all-Reach :
    (t : SessionTable) (conn : ℕ) (pkts : List InternalPacket) → Reach t (forward_all t conn pkts).0
unfolding forward_all
forward_all-Reach t conn [] = here
forward_all-Reach t conn (pkt ∷ pkts) =
    Reach-trans (forward_upstream-Reach t conn pkt)
      (forward_all-Reach (forward_upstream t conn pkt).0 conn pkts)

handle_client_msg-Reach :
    (t : SessionTable) (msg : RecvMsg DialToken) → Reach t (handle_client_msg t msg).0
unfolding handle_client_msg
handle_client_msg-Reach t msg = elim (Bool-cases (is_closing msg)) [
  | inl closing ↦ rw closing (next here (client_closes msg.conn))
  | inr data_here ↦ rw data_here (forward_all-Reach t msg.conn msg.pkts)
]

handle_dest_msg-Reach :
    (t : SessionTable) (msg : RecvMsg DialToken) → Reach t (handle_dest_msg t msg).0
unfolding handle_dest_msg
handle_dest_msg-Reach t msg = elim (Bool-cases (is_closing msg)) [
  | inl closing ↦ rw closing (next here (dest_closes msg.conn))
  | inr data_here ↦ rw data_here (of_route (get_by_dest t msg.conn))
]
  where
    of_route : (o : Option ℕ) → Reach t (on_routed t msg.pkts o).0
    of_route none = here
    of_route (some client) = here

on_completed-table :
    (conn : ℕ) (t : SessionTable) (o : Option (List (List ℕ))) → (on_completed conn (t, o)).0 ≡ t
on_completed-table conn t none = refl
on_completed-table conn t (some pending) = refl

stale_is_session : (o : Option ℕ) (s : ℕ) → o ≢ some s → is_session o s ≡ false
stale_is_session o s stale = elim (Bool-cases (is_session o s)) [
  | inl current ↦ absurd (stale (is_session→eq o s current))
  | inr other ↦ other
]

-- A stale result changes nothing.
handle_dial_result-Reach :
    (t : SessionTable) (res : DialResult) (o : Option ℕ)
    → res.err ≡ o
    → IsAnswered t res o
    → Reach t (handle_dial_result t res).0
unfolding handle_dial_result complete_dial abort_dial
handle_dial_result-Reach t res none e (inl stale) =
    rw (e, stale_is_session (t.by_client res.token.client_conn) res.token.session stale) here
handle_dial_result-Reach t res none e (inr bound) =
    let r = complete_dial t res.token.client_conn res.token.session in
    rw (e, on_completed-table res.conn r.0 r.1)
      (next here (completes res.token.client_conn res.token.session bound))
handle_dial_result-Reach t res (some x) e (inl stale) =
    rw (e, stale_is_session (t.by_client res.token.client_conn) res.token.session stale) here
handle_dial_result-Reach t res (some x) e (inr unbound) =
    rw e (next here (aborts res.token.client_conn res.token.session unbound))

on_opened-table : (t : SessionTable) (b : Bool) → (on_opened (t, b)).0 ≡ t
on_opened-table t true = refl
on_opened-table t false = refl

handle_dial_open-Reach :
    (t : SessionTable) (conn : ℕ) (token : DialToken)
    → IsOpened t conn token
    → Reach t (handle_dial_open t conn token).0
unfolding handle_dial_open bind_dial
handle_dial_open-Reach t conn token (inl stale) =
    rw (stale_is_session (t.by_client token.client_conn) token.session stale) here
handle_dial_open-Reach t conn token (inr (fresh, unbound)) =
    let r = bind_dial t token.client_conn token.session conn in
    rw (on_opened-table r.0 r.1)
      (next here (binds token.client_conn token.session conn fresh unbound))

Event-Reach : {w v : Worker} → Event w v → Reach w.table v.table
unfolding client_round result_round dest_round handle_write_error
Event-Reach {w} (comes channel recv_chan results) = here
Event-Reach {w} (client_msg msg rest e) = handle_client_msg-Reach w.table msg
Event-Reach {w} (dial_result res rest e answered) =
    handle_dial_result-Reach w.table res res.err refl answered
Event-Reach {w} (dest_msg msg rest e) = handle_dest_msg-Reach w.table msg
Event-Reach {w} (dial_open conn token opened) = handle_dial_open-Reach w.table conn token opened
Event-Reach {w} (write_error conn) = next here (dest_closes conn)

Run-Reach : {w v : Worker} → Run w v → Reach w.table v.table
Run-Reach starts = here
Run-Reach (follows r e) = Reach-trans (Run-Reach r) (Event-Reach e)

-- Whatever a worker's clients, dials and targets send, in whatever order its two loops and the
-- dialer's event loop take it, and whichever writes fail, if the dialer opens at most one connection
-- for a dial that is still the client's current one, a new one, and reports a success of such a dial
-- behind that and a failure without it (stale dials may be opened and answered in any way): at any
-- time the table is well formed and the handlers are operations on the routes. A client's packets go
-- through its route in order, each queued, sent, or opening a dial; a client's message that closes
-- the connection or has no packets forgets the route and closes the target's connection. An opened
-- connection joins the route, and the result of the dial sends what waited, in order, or forgets the
-- route; if the dial is stale, the connection is closed in both cases, a failure does nothing, and
-- the table stays. A target's packets are written back to the client with the route in order, and
-- the end of a target, as also a failed write to it, forgets its route and closes the connection on
-- the other side or, for the write, the target's. No other client's route changes.
pub Run-IsServed :
    {w v : Worker} → Run w v → w.table ≡ new_session_table → IsWf v.table × IsServed v.table
Run-IsServed {w} {v} run e =
    let r : Reach new_session_table v.table = rw e at (Run-Reach run) in
    let wf = Reach-new_session_table r in (wf, IsWf-IsServed v.table wf)
