-- ===== src/Client/Session/Reachable.antt =====
-- What the event loops can do to the table of client/session.go, as a step relation, and what holds
-- in every table that they reach.
use gforward.Prelude.{ℕ, ◌≡◌, none, List}
use gforward.Client.Session.{
  SessionTable, new_session_table, admit_upstream, complete_dial, abort_dial, purge_by_user,
  purge_by_server,
}
use gforward.Client.Session.Invariant.{
  IsWf, new_session_table-IsWf, admit_upstream-IsWf, complete_dial-IsWf, abort_dial-IsWf,
  purge_by_user-IsWf, purge_by_server-IsWf,
}

-- The dialer opens a connection that is new, once for each session, or reports a failure.
pub data Step (t : SessionTable) : SessionTable → Type 0 where
  admits : (user : ℕ) (dest packet : List ℕ) → Step t (admit_upstream t user dest packet).0
  completes :
      (user s server : ℕ)
      → t.by_server server ≡ none
      → (t.heap s).server_conn ≡ none
      → Step t (complete_dial t user s server).0
  aborts : (user s : ℕ) → (t.heap s).server_conn ≡ none → Step t (abort_dial t user s).0
  user_closes : (user : ℕ) → Step t (purge_by_user t user).0
  server_closes : (server : ℕ) → Step t (purge_by_server t server).0

pub data Reach (t : SessionTable) : SessionTable → Type 0 where
  here : Reach t t
  next : {u v : SessionTable} → Reach t u → Step u v → Reach t v

Step-IsWf : {t u : SessionTable} → Step t u → IsWf t → IsWf u
Step-IsWf {t} (admits user dest packet) w = admit_upstream-IsWf t user dest packet w
Step-IsWf {t} (completes user s server fresh unbound) w =
    complete_dial-IsWf t user s server w fresh unbound
Step-IsWf {t} (aborts user s unbound) w = abort_dial-IsWf t user s w unbound
Step-IsWf {t} (user_closes user) w = purge_by_user-IsWf t user w
Step-IsWf {t} (server_closes server) w = purge_by_server-IsWf t server w

Reach-IsWf : {t u : SessionTable} → Reach t u → IsWf t → IsWf u
Reach-IsWf here w = w
Reach-IsWf (next r s) w = Step-IsWf s (Reach-IsWf r w)

-- Every table of the client that the steps reach from the empty one is well formed: the two maps are
-- inverse to each other through the sessions, no two users share a session or a server connection,
-- and a session dials exactly as long as it has no connection and only then keeps packets.
pub Reach-new_client_table : {t : SessionTable} → Reach new_session_table t → IsWf t
Reach-new_client_table r = Reach-IsWf r new_session_table-IsWf
