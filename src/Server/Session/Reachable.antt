-- ===== src/Server/Session/Reachable.antt =====
-- What the worker's goroutines and the dialer's event loop can do to the table of
-- server/session.go, as a step relation, and what holds in every table that they reach.
use gforward.Prelude.{ℕ, ◌≡◌, none, List, ◌≢◌}
use gforward.Server.Session.{
  SessionTable, new_session_table, admit_upstream, bind_dial, complete_dial, abort_dial,
  purge_by_client, purge_by_dest,
}
use gforward.Server.Session.Invariant.{
  IsWf, new_session_table-IsWf, admit_upstream-IsWf, purge_by_client-IsWf, purge_by_dest-IsWf,
}
use gforward.Server.Session.Dialing.{bind_dial-IsWf, complete_dial-IsWf, abort_dial-IsWf}

-- The dialer opens a connection that is new and once for each session; it reports a success only
-- after the connection was opened, and a failure only if it was not.
pub data Step (t : SessionTable) : SessionTable → Type 0 where
  admits : (client : ℕ) (dest payload : List ℕ) → Step t (admit_upstream t client dest payload).0
  binds :
      (client s d : ℕ)
      → t.by_dest d ≡ none
      → (t.heap s).dest_conn ≡ none
      → Step t (bind_dial t client s d).0
  completes : (client s : ℕ) → (t.heap s).dest_conn ≢ none → Step t (complete_dial t client s).0
  aborts : (client s : ℕ) → (t.heap s).dest_conn ≡ none → Step t (abort_dial t client s).0
  client_closes : (client : ℕ) → Step t (purge_by_client t client).0
  dest_closes : (d : ℕ) → Step t (purge_by_dest t d).0

pub data Reach (t : SessionTable) : SessionTable → Type 0 where
  here : Reach t t
  next : {u v : SessionTable} → Reach t u → Step u v → Reach t v

pub Step-IsWf : {t u : SessionTable} → Step t u → IsWf t → IsWf u
Step-IsWf {t} (admits client dest payload) w = admit_upstream-IsWf t client dest payload w
Step-IsWf {t} (binds client s d fresh unbound) w = bind_dial-IsWf t client s d w fresh unbound
Step-IsWf {t} (completes client s bound) w = complete_dial-IsWf t client s w bound
Step-IsWf {t} (aborts client s unbound) w = abort_dial-IsWf t client s w unbound
Step-IsWf {t} (client_closes client) w = purge_by_client-IsWf t client w
Step-IsWf {t} (dest_closes d) w = purge_by_dest-IsWf t d w

Reach-IsWf : {t u : SessionTable} → Reach t u → IsWf t → IsWf u
Reach-IsWf here w = w
Reach-IsWf (next r s) w = Step-IsWf s (Reach-IsWf r w)

-- Every table that the steps reach from the empty one is well formed: the two maps are inverse to
-- each other through the sessions, no two clients share a session or a destination connection, and
-- a ready session has a connection and nothing to replay.
pub Reach-new_session_table : {t : SessionTable} → Reach new_session_table t → IsWf t
Reach-new_session_table r = Reach-IsWf r new_session_table-IsWf
