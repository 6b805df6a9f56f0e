-- ===== src/Client/Session/Contract.antt =====
-- The contract of the table of client/session.go: every method against the map from users to
-- sessions, in every table that the event loops reach.
use gforward.Prelude.{ℕ, ◌≡◌, ◌≢◌, ◌↔◌, ◌⊎◌, true, false, none, some, List, [], ◌==◌, if◌then◌else◌}
use gforward.Client.Session.{
  Session, SessionTable, new_session_table, admit_upstream, complete_dial, abort_dial,
  purge_by_user, purge_by_server, get_by_server, view,
}
use gforward.Client.Session.Invariant.{IsWf}
use gforward.Client.Session.Reachable.{Reach, Reach-new_client_table}
use gforward.Client.Session.Routes.{
  admit_route, Refines, admit_upstream-Routes, complete_dial-Routes, abort_dial-Routes,
}
use gforward.Client.Session.Closings.{
  conn_of, drop_route, get_by_server_iff, purge_by_user-Routes, purge_by_server-Routes,
}

-- The methods on a table, as operations on the map.
pub record IsRouted (t : SessionTable) : Type 0 where
  pub admits :
      (user : ℕ) (dest packet : List ℕ)
      → Refines t user (admit_route (view t user) dest packet) (admit_upstream t user dest packet)
  pub completes :
      (user s server : ℕ)
      → ((t.by_user user ≡ some s)
          × ((complete_dial t user s server).1 ≡ some (t.heap s).pending)
          × ((u : ℕ)
              → view (complete_dial t user s server).0 u ≡ (
                  if user == u
                  then some (record (t.heap s) {
                    server_conn = some server;
                    dialing = false;
                    pending = [];
                  })
                  else view t u)))
        ⊎ ((t.by_user user ≢ some s) × (complete_dial t user s server ≡ (t, none)))
  pub aborts :
      (user s : ℕ)
      → ((t.by_user user ≡ some s)
          × ((abort_dial t user s).1 ≡ true)
          × ((u : ℕ) → view (abort_dial t user s).0 u ≡ (if user == u then none else view t u)))
        ⊎ ((t.by_user user ≢ some s) × (abort_dial t user s ≡ (t, false)))
  pub user_closes :
      (user : ℕ)
      → ((purge_by_user t user).1 ≡ conn_of (view t user))
        × ((u : ℕ) → view (purge_by_user t user).0 u ≡ (if user == u then none else view t u))
        × ((d : ℕ) → get_by_server (purge_by_user t user).0 d ≢ some user)
  pub server_closes :
      (d : ℕ)
      → ((purge_by_server t d).1 ≡ get_by_server t d)
        × ((u : ℕ) → view (purge_by_server t d).0 u ≡ drop_route d (view t u))
  pub finds :
      (d u : ℕ)
      → (get_by_server t d ≡ some u)
        ↔ ((r : Session) × (view t u ≡ some r) × (r.server_conn ≡ some d))

-- In every table of the client that the steps reach from the empty one, the methods are operations on
-- a map from users to sessions. `admitUpstream` queues the packet, sends it or opens a session, and
-- `completeDial` hands over the packets that waited, oldest first, if the dial is still the user's
-- current one; a stale `completeDial` or `abortDial` changes nothing. The closing of a connection
-- forgets its route and no other, and answers with the connection on the other side. `getByServer`
-- finds the user whose session has the connection. No method changes another user's route. And the
-- table is well formed: the two maps are inverse to each other through the sessions, no two users
-- share a session or a server connection, and a session dials exactly as long as it has no connection
-- and only then keeps packets.
pub new_client_table-IsRouted : {t : SessionTable} → Reach new_session_table t → IsWf t × IsRouted t
new_client_table-IsRouted {t} r =
    let w = Reach-new_client_table r in
    (
      w,
      record {
        admits = λ user dest packet. admit_upstream-Routes t user dest packet w;
        completes = λ user s server. complete_dial-Routes t user s server w;
        aborts = λ user s. abort_dial-Routes t user s;
        user_closes = λ user. purge_by_user-Routes t user w;
        server_closes = λ d. purge_by_server-Routes t d w;
        finds = λ d u. get_by_server_iff t d u w;
      },
    )
