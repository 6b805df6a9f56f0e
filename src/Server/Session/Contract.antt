-- ===== src/Server/Session/Contract.antt =====
-- The contract of the table of server/session.go: every method against the map from clients to
-- sessions, in every table that a worker and the dialer reach.
use gforward.Prelude.{ℕ, ◌≡◌, ◌≢◌, ◌↔◌, ◌⊎◌, true, false, none, some, List, [], ◌==◌, if◌then◌else◌}
use gforward.Server.Session.{
  Session, SessionTable, new_session_table, admit_upstream, bind_dial, complete_dial, abort_dial,
  purge_by_client, purge_by_dest, get_by_dest,
}
use gforward.Server.Session.Invariant.{IsWf}
use gforward.Server.Session.Reachable.{Reach, Reach-new_session_table}
use gforward.Server.Session.Refinement.{
  view, admit_route, Refines, admit_upstream-Refines, bind_dial-Refines, complete_dial-Refines,
}
use gforward.Server.Session.Purges.{
  conn_of, drop_route, get_by_dest_iff, abort_dial-Refines, purge_by_client-Refines,
  purge_by_dest-Refines,
}

-- The methods on a table, as operations on the map.
pub record IsRouted (t : SessionTable) : Type 0 where
  pub admits :
      (client : ℕ) (dest payload : List ℕ)
      → Refines t client
          (admit_route (view t client) dest payload)
          (admit_upstream t client dest payload)
  pub binds :
      (client s d : ℕ)
      → ((t.by_client client ≡ some s)
          × ((bind_dial t client s d).1 ≡ true)
          × ((c : ℕ)
              → view (bind_dial t client s d).0 c ≡ (
                  if client == c
                  then some (record (t.heap s) { dest_conn = some d })
                  else view t c)))
        ⊎ ((t.by_client client ≢ some s) × (bind_dial t client s d ≡ (t, false)))
  pub completes :
      (client s : ℕ)
      → ((t.by_client client ≡ some s)
          × ((complete_dial t client s).1 ≡ some (t.heap s).pending)
          × ((c : ℕ)
              → view (complete_dial t client s).0 c ≡ (
                  if client == c
                  then some (record (t.heap s) { dialing = false; pending = [] })
                  else view t c)))
        ⊎ ((t.by_client client ≢ some s) × (complete_dial t client s ≡ (t, none)))
  pub aborts :
      (client s : ℕ)
      → ((t.by_client client ≡ some s)
          × ((abort_dial t client s).1 ≡ true)
          × ((c : ℕ) → view (abort_dial t client s).0 c ≡ (if client == c then none else view t c)))
        ⊎ ((t.by_client client ≢ some s) × (abort_dial t client s ≡ (t, false)))
  pub client_closes :
      (client : ℕ)
      → ((purge_by_client t client).1 ≡ conn_of (view t client))
        × ((c : ℕ) → view (purge_by_client t client).0 c ≡ (if client == c then none else view t c))
        × ((d : ℕ) → get_by_dest (purge_by_client t client).0 d ≢ some client)
  pub dest_closes :
      (d : ℕ)
      → ((purge_by_dest t d).1 ≡ get_by_dest t d)
        × ((c : ℕ) → view (purge_by_dest t d).0 c ≡ drop_route d (view t c))
  pub finds :
      (d c : ℕ)
      → (get_by_dest t d ≡ some c) ↔ ((r : Session) × (view t c ≡ some r) × (r.dest_conn ≡ some d))

-- In every table of the server that the steps reach from the empty one, the methods are operations on
-- a map from clients to sessions. `admitUpstream` queues the payload, forwards it, opens a session or
-- switches to another target; `bindDial` records the connection and `completeDial` hands over the
-- data that waited, oldest first, if the dial is still the client's current one, and both refuse and
-- change nothing otherwise; a stale `abortDial` changes nothing. `getByDest` finds the client whose
-- session has the connection. The closing of a connection forgets its route and no other, and answers
-- with the connection on the other side. No method changes another client's route. And the table is
-- well formed: the two maps are inverse to each other through the sessions, no two clients share a
-- session or a destination connection, and a ready session has a connection and nothing to replay.
pub new_session_table-IsRouted :
    {t : SessionTable} → Reach new_session_table t → IsWf t × IsRouted t
new_session_table-IsRouted {t} r =
    let w = Reach-new_session_table r in
    (
      w,
      record {
        admits = λ client dest payload. admit_upstream-Refines t client dest payload w;
        binds = λ client s d. bind_dial-Refines t client s d w;
        completes = λ client s. complete_dial-Refines t client s w;
        aborts = λ client s. abort_dial-Refines t client s;
        client_closes = λ client. purge_by_client-Refines t client w;
        dest_closes = λ d. purge_by_dest-Refines t d w;
        finds = λ d c. get_by_dest_iff t d c w;
      },
    )
