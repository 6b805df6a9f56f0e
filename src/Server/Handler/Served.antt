-- ===== src/Server/Handler/Served.antt =====
-- The handlers of server/handler.go serve the routes of a well-formed table.
use gforward.Prelude.{
  ℕ, ◌≡◌, ◌≢◌, ◌⊎◌, refl, sym, ap, ◌∙◌, Bool, true, false, Option, none, some, List, [], ◌∷◌, ◌++◌,
  ◌==◌, if◌then◌else◌, Bool-cases, inl, inr, arith, ==_refl, ==→eq,
}
use gforward.Protocol.{InternalPacket, packet_destination, get_payload}
use gforward.Message.{RecvMsg, RecvEvent, recv_data, recv_close, recv_open, recv_dial_error}
use gforward.Server.Session.{
  SessionTable, UpstreamAction, queued, forward, dial, admit_upstream, bind_dial, complete_dial,
  purge_by_client, purge_by_dest, get_by_dest,
}
use gforward.Server.Session.Invariant.{IsWf, admit_upstream-IsWf}
use gforward.Server.Session.Refinement.{
  Route, view, erase, admit_route, admit_upstream-Refines, bind_dial-Refines, complete_dial-Refines,
}
use gforward.Server.Session.Purges.{
  drop_route, abort_dial-Refines, purge_by_client-Refines, purge_by_dest-Refines,
}
use gforward.Server.Handler.{
  DialToken, DialResult, ignores, purges_dest, Effect, dials, no_action, close_conn, close_all,
  on_opened, handle_dial_open, on_admitted, forward_upstream, forward_all, is_closing,
  handle_client_msg, replay, on_completed, handle_dial_result, write_back, on_routed,
  handle_dest_msg, handle_write_error,
}
use gforward.Server.Handler.Serving.{
  Call, pushes, reaches, call, calls, ends, shut, acts, serve, on_client, push_all, on_current,
  on_stale, push_back, IsServed,
}

calls-append : (es fs : List Effect) → calls (es ++ fs) ≡ calls es ++ calls fs
calls-append [] fs = refl
calls-append (e ∷ es) fs = ap (◌∷◌ (call e)) (calls-append es fs)

calls-close_all : (o : Option ℕ) → calls (close_all o) ≡ shut o
calls-close_all none = refl
calls-close_all (some conn) = refl

calls-replay :
    (conn : ℕ) (pending : List (List ℕ))
    → calls (replay conn purges_dest pending) ≡ push_all conn pending
calls-replay conn [] = refl
calls-replay conn (payload ∷ rest) =
    ap (◌∷◌ (pushes (some conn) payload purges_dest)) (calls-replay conn rest)

calls-write_back :
    (client : ℕ) (pkts : List InternalPacket)
    → calls (write_back client pkts) ≡ push_back (some client) pkts
calls-write_back client [] = refl
calls-write_back client (pkt ∷ pkts) =
    ap (◌∷◌ (pushes (some client) (get_payload pkt) ignores)) (calls-write_back client pkts)

is_closing-ends :
    (e : RecvEvent) (pkts : List InternalPacket) (msg : RecvMsg DialToken)
    → msg.event ≡ e
    → msg.pkts ≡ pkts
    → is_closing msg ≡ ends e pkts
is_closing-ends recv_close pkts msg h k = rw h refl
is_closing-ends recv_data [] msg h k = rw (h, k) refl
is_closing-ends recv_data (pkt ∷ pkts) msg h k = rw (h, k) (ground arith)
is_closing-ends recv_open [] msg h k = rw (h, k) refl
is_closing-ends recv_open (pkt ∷ pkts) msg h k = rw (h, k) (ground arith)
is_closing-ends recv_dial_error [] msg h k = rw (h, k) refl
is_closing-ends recv_dial_error (pkt ∷ pkts) msg h k = rw (h, k) (ground arith)

on_admitted-acts :
    (conn : ℕ) (t : SessionTable) (a : UpstreamAction)
    → calls (on_admitted conn (t, a)).1 ≡ acts conn (erase a)
on_admitted-acts conn t queued = refl
on_admitted-acts conn t (forward d payload) = refl
on_admitted-acts conn t (dial old s dest) =
    calls-append (close_all old) (dials dest (record { client_conn = conn; session = s }) ∷ [])
    ∙ ap (λ l. l ++ (reaches dest conn ∷ [])) (calls-close_all old)

on_admitted-table :
    (conn : ℕ) (t : SessionTable) (a : UpstreamAction) → (on_admitted conn (t, a)).0 ≡ t
on_admitted-table conn t queued = refl
on_admitted-table conn t (forward d payload) = refl
on_admitted-table conn t (dial old s dest) = refl

same_route :
    (t : SessionTable) (client c : ℕ) (r : Route)
    → view t client ≡ r
    → view t c ≡ (if client == c then r else view t c)
same_route t client c r e = elim (Bool-cases (client == c)) [
  | inl hit ↦ rw hit (ap (view t) (sym (==→eq client c hit)) ∙ e)
  | inr miss ↦ rw miss refl
]

-- The route of `client` and what the handler asks for, and no other route.
abbrev Serves : SessionTable → ℕ → Route × List Call → SessionTable × List Effect → Type 0
Serves t client spec r =
    ((c : ℕ) → view r.0 c ≡ (if client == c then spec.0 else view t c)) × (calls r.1 ≡ spec.1)

forward_upstream-Serves :
    (t : SessionTable) (client : ℕ) (pkt : InternalPacket)
    → IsWf t
    → let spec = admit_route (view t client) (packet_destination pkt) (get_payload pkt) in
      Serves t client (some spec.0, acts client spec.1) (forward_upstream t client pkt)
unfolding forward_upstream
forward_upstream-Serves t client pkt w =
    let r = admit_upstream t client (packet_destination pkt) (get_payload pkt) in
    let (f, a) = admit_upstream-Refines t client (packet_destination pkt) (get_payload pkt) w in
    (
      λ c. ap (λ u. view u c) (on_admitted-table client r.0 r.1) ∙ f c,
      on_admitted-acts client r.0 r.1 ∙ ap (acts client) a,
    )

forward_upstream-IsWf :
    (t : SessionTable) (client : ℕ) (pkt : InternalPacket)
    → IsWf t
    → IsWf (forward_upstream t client pkt).0
unfolding forward_upstream
forward_upstream-IsWf t client pkt w =
    let r = admit_upstream t client (packet_destination pkt) (get_payload pkt) in
    rw (on_admitted-table client r.0 r.1)
      (admit_upstream-IsWf t client (packet_destination pkt) (get_payload pkt) w)

forward_all-Serves :
    (t : SessionTable) (client : ℕ) (pkts : List InternalPacket)
    → IsWf t
    → Serves t client (serve client (view t client) pkts) (forward_all t client pkts)
unfolding forward_all
forward_all-Serves t client [] w = ((λ c. same_route t client c (view t client) refl), refl)
forward_all-Serves t client (pkt ∷ pkts) w =
    let (f, a) = forward_upstream-Serves t client pkt w in
    let r = forward_upstream t client pkt in
    let spec = admit_route (view t client) (packet_destination pkt) (get_payload pkt) in
    let mine : view r.0 client ≡ some spec.0 = rw (==_refl client) at (f client) in
    let (fs, asked) = forward_all-Serves r.0 client pkts (forward_upstream-IsWf t client pkt w) in
    (
      λ c. elim (Bool-cases (client == c)) [
        | inl hit ↦ rw hit ((rw hit at (fs c)) ∙ ap (λ v. (serve client v pkts).0) mine)
        | inr miss ↦ rw miss ((rw miss at (fs c)) ∙ (rw miss at (f c)))
      ],
      calls-append r.1 (forward_all r.0 client pkts).1
          ∙ ap (λ l. l ++ calls (forward_all r.0 client pkts).1) a
          ∙ ap (◌++◌ (acts client spec.1)) (asked ∙ ap (λ v. (serve client v pkts).1) mine),
    )

handle_client_msg-Serves :
    (t : SessionTable) (msg : RecvMsg DialToken)
    → IsWf t
    → Serves t msg.conn (on_client msg (view t msg.conn)) (handle_client_msg t msg)
unfolding handle_client_msg
handle_client_msg-Serves t msg w =
    let same = is_closing-ends msg.event msg.pkts msg refl refl in
    elim (Bool-cases (ends msg.event msg.pkts)) [
      | inl over ↦
          let (a, f, back) = purge_by_client-Refines t msg.conn w in
          rw (over, same ∙ over) (f, calls-close_all (purge_by_client t msg.conn).1 ∙ ap shut a)
      | inr data_here ↦ rw (data_here, same ∙ data_here) (forward_all-Serves t msg.conn msg.pkts w)
    ]

on_opened_bound : (r : SessionTable × Bool) → r.1 ≡ true → on_opened r ≡ (r.0, no_action)
on_opened_bound (t, true) e = refl
on_opened_bound (t, false) e = absurd (cc)

handle_dial_open-Serves :
    (t : SessionTable) (conn : ℕ) (token : DialToken)
    → IsWf t
    → ((t.by_client token.client_conn ≡ some token.session)
        × ((handle_dial_open t conn token).1 ≡ no_action)
        × ((c : ℕ)
            → view (handle_dial_open t conn token).0 c ≡ (
                if token.client_conn == c
                then some (record (t.heap token.session) { dest_conn = some conn })
                else view t c)))
      ⊎ ((t.by_client token.client_conn ≢ some token.session)
          × (handle_dial_open t conn token ≡ (t, close_conn)))
unfolding handle_dial_open
handle_dial_open-Serves t conn token w =
    elim (bind_dial-Refines t token.client_conn token.session conn w) [
      | inl (here, bound, f) ↦
          let e = on_opened_bound (bind_dial t token.client_conn token.session conn) bound in
          inl (here, ap (λ x. x.1) e, λ c. ap (λ x. view x.0 c) e ∙ f c)
      | inr (stale, e) ↦ inr (stale, ap on_opened e)
    ]

on_completed_current :
    (conn : ℕ) (r : SessionTable × Option (List (List ℕ))) (pending : List (List ℕ))
    → r.1 ≡ some pending
    → on_completed conn r ≡ (r.0, replay conn purges_dest pending)
on_completed_current conn (t, none) pending e = absurd (cc)
on_completed_current conn (t, some waited) pending e =
    let same : waited ≡ pending = cc in ap (λ l. (t, replay conn purges_dest l)) same

-- A result, by its error.
abbrev Answered : SessionTable → DialResult → Option ℕ → Type 0
Answered t res err =
    ((t.by_client res.token.client_conn ≡ some res.token.session)
      × ((c : ℕ)
          → view (handle_dial_result t res).0 c ≡ (
              if res.token.client_conn == c
              then (on_current res err (t.heap res.token.session)).0
              else view t c))
      × (calls (handle_dial_result t res).1 ≡ (on_current res err (t.heap res.token.session)).1))
    ⊎ ((t.by_client res.token.client_conn ≢ some res.token.session)
        × (handle_dial_result t res ≡ (t, on_stale res err)))

handle_dial_result-Answered :
    (t : SessionTable) (res : DialResult) (err : Option ℕ)
    → IsWf t
    → res.err ≡ err
    → Answered t res err
unfolding handle_dial_result
handle_dial_result-Answered t res none w h =
    rw h (elim (complete_dial-Refines t res.token.client_conn res.token.session w) [
      | inl (here, waited, f) ↦
          let pending = (t.heap res.token.session).pending in
          let r = complete_dial t res.token.client_conn res.token.session in
          let e = on_completed_current res.conn r pending waited in
          inl (
            here,
            λ c. ap (λ x. view x.0 c) e ∙ f c,
            ap (λ x. calls x.1) e ∙ calls-replay res.conn pending,
          )
      | inr (stale, e) ↦ inr (stale, ap (on_completed res.conn) e)
    ])
handle_dial_result-Answered t res (some x) w h =
    rw h (elim (abort_dial-Refines t res.token.client_conn res.token.session) [
      | inl (here, was, f) ↦ inl (here, f, refl)
      | inr (stale, e) ↦ inr (stale, ap (λ r. (r.0, [])) e)
    ])

handle_dest_msg-Serves :
    (t : SessionTable) (msg : RecvMsg DialToken)
    → IsWf t
    → ((c : ℕ)
        → view (handle_dest_msg t msg).0 c
          ≡ (if ends msg.event msg.pkts then drop_route msg.conn (view t c) else view t c))
      × (calls (handle_dest_msg t msg).1 ≡ (
          if ends msg.event msg.pkts
          then shut (get_by_dest t msg.conn)
          else push_back (get_by_dest t msg.conn) msg.pkts))
unfolding handle_dest_msg
handle_dest_msg-Serves t msg w =
    let same = is_closing-ends msg.event msg.pkts msg refl refl in
    elim (Bool-cases (ends msg.event msg.pkts)) [
      | inl over ↦
          let (a, f) = purge_by_dest-Refines t msg.conn w in
          rw (over, same ∙ over) (f, calls-close_all (purge_by_dest t msg.conn).1 ∙ ap shut a)
      | inr data_here ↦ rw (data_here, same ∙ data_here) (of_route (get_by_dest t msg.conn))
    ]
  where
    of_route :
        (o : Option ℕ)
        → ((c : ℕ) → view (on_routed t msg.pkts o).0 c ≡ view t c)
          × (calls (on_routed t msg.pkts o).1 ≡ push_back o msg.pkts)
    of_route none = (λ c. refl, refl)
    of_route (some client) = (λ c. refl, calls-write_back client msg.pkts)

pub IsWf-IsServed : (t : SessionTable) → IsWf t → IsServed t
unfolding handle_write_error
IsWf-IsServed t w = record {
  client_msg = λ msg. handle_client_msg-Serves t msg w;
  dial_open = λ conn token. handle_dial_open-Serves t conn token w;
  dial_result = λ res. handle_dial_result-Answered t res res.err w refl;
  dest_msg = λ msg. handle_dest_msg-Serves t msg w;
  write_error = λ conn. ((purge_by_dest-Refines t conn w).1, refl);
}
