-- ===== src/Server/Session.antt =====
-- server/session.go: the table of sessions of one worker. A connection is a number, and so is a
-- pointer to a session: `heap` is what the pointers show, and `next` the next pointer to be
-- allocated. Each operation runs under the table's mutex, so it is one step.
pub mod Invariant
pub mod Dialing
pub mod Reachable
pub mod Contract
pub mod Refinement
pub mod Purges
use gforward.Prelude.{
  ℕ, suc, Bool, true, false, Option, none, some, List, [], ◌∷◌, ◌++◌, ◌==◌, if◌then◌else◌, str_eq,
  empty_map, insert, delete, store,
}

pub record Session : Type 0 where
  pub dest : List ℕ
  pub dest_conn : Option ℕ
  pub dialing : Bool
  pub pending : List (List ℕ)

-- The decision of `admitUpstream`, with the fields of `upstreamActionResult` that it sets.
pub data UpstreamAction : Type 0 where
  queued : UpstreamAction
  forward : Option ℕ → List ℕ → UpstreamAction
  dial : Option ℕ → ℕ → List ℕ → UpstreamAction

pub record SessionTable : Type 0 where
  pub heap : ℕ → Session
  pub next : ℕ
  pub by_client : ℕ → Option ℕ
  pub by_dest : ℕ → Option ℕ

abbrev no_session : Session
no_session = record { dest = []; dest_conn = none; dialing = false; pending = [] }

unfoldable pub new_session_table : SessionTable
new_session_table = record {
  heap = λ s. no_session;
  next = 0;
  by_client = empty_map;
  by_dest = empty_map;
}

-- `delete(t.byDest, sess.destConn)` if that is not nil.
abbrev pub delete_conn : Option ℕ → (ℕ → Option ℕ) → ℕ → Option ℕ
delete_conn none m = m
delete_conn (some d) m = delete d m

abbrev pub fresh_session : List ℕ → List ℕ → Session
fresh_session dest payload = record {
  dest = dest;
  dest_conn = none;
  dialing = true;
  pending = payload ∷ [];
}

-- A new session that is dialing and keeps the first payload.
unfoldable pub open_session :
    SessionTable → ℕ → List ℕ → List ℕ → Option ℕ → SessionTable × UpstreamAction
open_session t client dest payload old = (
  record t {
    heap = store t.next (fresh_session dest payload) t.heap;
    next = suc t.next;
    by_client = insert client t.next t.by_client;
  },
  dial old t.next dest,
)

unfoldable pub use_session : SessionTable → ℕ → List ℕ → SessionTable × UpstreamAction
use_session t s payload =
    if (t.heap s).dialing
    then (
      record t {
        heap =
            store s (record (t.heap s) { pending = (t.heap s).pending ++ (payload ∷ []) }) t.heap;
      },
      queued,
    )
    else (t, forward (t.heap s).dest_conn payload)

unfoldable pub drop_session : SessionTable → ℕ → ℕ → SessionTable
drop_session t client s = record t {
  by_client = delete client t.by_client;
  by_dest = delete_conn (t.heap s).dest_conn t.by_dest;
}

unfoldable pub admit_found :
    SessionTable → ℕ → List ℕ → List ℕ → Option ℕ → SessionTable × UpstreamAction
admit_found t client dest payload none = open_session t client dest payload none
admit_found t client dest payload (some s) =
    if str_eq (t.heap s).dest dest
    then use_session t s payload
    else open_session (drop_session t client s) client dest payload (t.heap s).dest_conn

unfoldable pub admit_upstream : SessionTable → ℕ → List ℕ → List ℕ → SessionTable × UpstreamAction
admit_upstream t client dest payload = admit_found t client dest payload (t.by_client client)

-- `cur, ok := t.byClient[clientConn]; ok && cur == sess`
abbrev pub is_session : Option ℕ → ℕ → Bool
is_session none s = false
is_session (some cur) s = cur == s

unfoldable pub bind_dial : SessionTable → ℕ → ℕ → ℕ → SessionTable × Bool
bind_dial t client s d =
    if is_session (t.by_client client) s
    then (
      record t {
        heap = store s (record (t.heap s) { dest_conn = some d }) t.heap;
        by_dest = insert d client t.by_dest;
      },
      true,
    )
    else (t, false)

-- `none` for a result that does not match.
unfoldable pub complete_dial : SessionTable → ℕ → ℕ → SessionTable × Option (List (List ℕ))
complete_dial t client s =
    if is_session (t.by_client client) s
    then (
      record t { heap = store s (record (t.heap s) { dialing = false; pending = [] }) t.heap },
      some (t.heap s).pending,
    )
    else (t, none)

unfoldable pub abort_dial : SessionTable → ℕ → ℕ → SessionTable × Bool
abort_dial t client s =
    if is_session (t.by_client client) s
    then (record t { by_client = delete client t.by_client }, true)
    else (t, false)

unfoldable pub purge_found : SessionTable → ℕ → Option ℕ → SessionTable × Option ℕ
purge_found t client none = (t, none)
purge_found t client (some s) = (drop_session t client s, (t.heap s).dest_conn)

unfoldable pub purge_by_client : SessionTable → ℕ → SessionTable × Option ℕ
purge_by_client t client = purge_found t client (t.by_client client)

-- `ok && sess.destConn == destConn` for the session that the client has, if any.
abbrev pub routes_to : SessionTable → Option ℕ → ℕ → Bool
routes_to t none d = false
routes_to t (some s) d = is_session (t.heap s).dest_conn d

unfoldable pub purge_route : SessionTable → ℕ → Option ℕ → SessionTable × Option ℕ
purge_route t d none = (t, none)
purge_route t d (some client) =
    let t' : SessionTable = record t { by_dest = delete d t.by_dest } in
    if routes_to t (t.by_client client) d
    then (record t' { by_client = delete client t.by_client }, some client)
    else (t', none)

unfoldable pub purge_by_dest : SessionTable → ℕ → SessionTable × Option ℕ
purge_by_dest t d = purge_route t d (t.by_dest d)

unfoldable pub get_by_dest : SessionTable → ℕ → Option ℕ
get_by_dest t d = t.by_dest d
