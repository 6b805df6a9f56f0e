-- ===== src/Client/Session.antt =====
-- client/session.go: the table of sessions. A connection is a number, and so is a pointer to a
-- session: `heap` is what the pointers show, and `next` the next pointer to be allocated. Each
-- operation runs under the table's mutex, so it is one step; `sendMu` is left out, since a handler
-- submits all its writes in one step.
pub mod Invariant
pub mod Reachable
pub mod Contract
pub mod Routes
pub mod Closings
use gforward.Prelude.{
  ℕ, suc, Bool, true, false, Option, none, some, List, [], ◌∷◌, ◌++◌, length, ◌==◌, if◌then◌else◌,
  empty_map, insert, delete, store,
}

pub record Session : Type 0 where
  pub dest : List ℕ
  pub server_conn : Option ℕ
  pub dialing : Bool
  pub pending : List (List ℕ)

-- The decision of `admitUpstream`, with the fields of `upstreamActionResult` that it sets.
pub data UpstreamAction : Type 0 where
  queued : UpstreamAction
  forward : Option ℕ → List ℕ → ℕ → UpstreamAction
  dial : ℕ → UpstreamAction

pub record SessionTable : Type 0 where
  pub heap : ℕ → Session
  pub next : ℕ
  pub by_user : ℕ → Option ℕ
  pub by_server : ℕ → Option ℕ

abbrev no_session : Session
no_session = record { dest = []; server_conn = none; dialing = false; pending = [] }

unfoldable pub new_session_table : SessionTable
new_session_table = record {
  heap = λ s. no_session;
  next = 0;
  by_user = empty_map;
  by_server = empty_map;
}

-- `delete(t.byServer, sess.serverConn)` if that is not nil.
abbrev pub delete_conn : Option ℕ → (ℕ → Option ℕ) → ℕ → Option ℕ
delete_conn none m = m
delete_conn (some d) m = delete d m

abbrev pub fresh_session : List ℕ → List ℕ → Session
fresh_session cached_dest packet = record {
  dest = cached_dest;
  server_conn = none;
  dialing = true;
  pending = packet ∷ [];
}

unfoldable pub admit_found :
    SessionTable → ℕ → List ℕ → List ℕ → Option ℕ → SessionTable × UpstreamAction
admit_found t user cached_dest packet none = (
  record t {
    heap = store t.next (fresh_session cached_dest packet) t.heap;
    next = suc t.next;
    by_user = insert user t.next t.by_user;
  },
  dial t.next,
)
admit_found t user cached_dest packet (some s) =
    if (t.heap s).dialing
    then (
      record t {
        heap = store s (record (t.heap s) { pending = (t.heap s).pending ++ (packet ∷ []) }) t.heap;
      },
      queued,
    )
    else (t, forward (t.heap s).server_conn packet s)

unfoldable pub admit_upstream : SessionTable → ℕ → List ℕ → List ℕ → SessionTable × UpstreamAction
admit_upstream t user cached_dest packet = admit_found t user cached_dest packet (t.by_user user)

abbrev pub cached : Option Session → Option (List ℕ)
cached none = none
cached (some sess) = if length sess.dest == 0 then none else some sess.dest

-- The route of a user: the session, without the pointer.
abbrev pub look : (ℕ → Session) → Option ℕ → Option Session
look heap none = none
look heap (some s) = some (heap s)

abbrev pub view : SessionTable → ℕ → Option Session
view t user = look t.heap (t.by_user user)

unfoldable pub get_dest : SessionTable → ℕ → Option (List ℕ)
get_dest t user = cached (view t user)

-- `cur, ok := t.byUser[userConn]; ok && cur == sess`
abbrev pub is_session : Option ℕ → ℕ → Bool
is_session none s = false
is_session (some cur) s = cur == s

-- `none` for a result that does not match.
unfoldable pub complete_dial : SessionTable → ℕ → ℕ → ℕ → SessionTable × Option (List (List ℕ))
complete_dial t user s server =
    if is_session (t.by_user user) s
    then (
      record t {
        heap =
            store s (record (t.heap s) { server_conn = some server; dialing = false; pending = [] })
              t.heap;
        by_server = insert server user t.by_server;
      },
      some (t.heap s).pending,
    )
    else (t, none)

unfoldable pub abort_dial : SessionTable → ℕ → ℕ → SessionTable × Bool
abort_dial t user s =
    if is_session (t.by_user user) s
    then (record t { by_user = delete user t.by_user }, true)
    else (t, false)

unfoldable pub purge_found : SessionTable → ℕ → Option ℕ → SessionTable × Option ℕ
purge_found t user none = (t, none)
purge_found t user (some s) = (
  record t {
    by_user = delete user t.by_user;
    by_server = delete_conn (t.heap s).server_conn t.by_server;
  },
  (t.heap s).server_conn,
)

unfoldable pub purge_by_user : SessionTable → ℕ → SessionTable × Option ℕ
purge_by_user t user = purge_found t user (t.by_user user)

-- `ok && sess.serverConn == serverConn` for the session that the user has, if any.
abbrev pub routes_to : Option Session → ℕ → Bool
routes_to none server = false
routes_to (some sess) server = is_session sess.server_conn server

unfoldable pub purge_route : SessionTable → ℕ → Option ℕ → SessionTable × Option ℕ
purge_route t server none = (t, none)
purge_route t server (some user) =
    let t' : SessionTable = record t { by_server = delete server t.by_server } in
    if routes_to (view t user) server
    then (record t' { by_user = delete user t.by_user }, some user)
    else (t', none)

unfoldable pub purge_by_server : SessionTable → ℕ → SessionTable × Option ℕ
purge_by_server t server = purge_route t server (t.by_server server)

unfoldable pub get_by_server : SessionTable → ℕ → Option ℕ
get_by_server t server = t.by_server server
