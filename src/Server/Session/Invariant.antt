-- ===== src/Server/Session/Invariant.antt =====
-- The well-formedness of the table of server/session.go, and the operations that open and close
-- sessions.
use gforward.Prelude.{
  ℕ, ◌<◌, ◌≡◌, refl, true, false, Option, none, some, List, [], str_eq, delete, arith, Bool-cases,
  inl, inr, ◌≢◌,
}
use gforward.Server.Session.{
  SessionTable, new_session_table, open_session, use_session, drop_session, admit_found,
  admit_upstream, purge_found, purge_by_client, purge_route, purge_by_dest, delete_conn, routes_to,
}

-- Sessions are allocated and have one client each; the two maps agree; a session that is ready has
-- a destination connection and nothing left to replay.
pub record IsWf (t : SessionTable) : Type 0 where
  pub allocated : (c s : ℕ) → t.by_client c ≡ some s → s < t.next
  pub owner : (c c' s : ℕ) → t.by_client c ≡ some s → t.by_client c' ≡ some s → c ≡ c'
  pub forth :
      (c s d : ℕ) → t.by_client c ≡ some s → (t.heap s).dest_conn ≡ some d → t.by_dest d ≡ some c
  pub back :
      (d c : ℕ)
      → t.by_dest d ≡ some c
      → (s : ℕ) × (t.by_client c ≡ some s) × ((t.heap s).dest_conn ≡ some d)
  pub ready :
      (c s : ℕ)
      → t.by_client c ≡ some s
      → (t.heap s).dialing ≡ false
      → ((t.heap s).pending ≡ []) × ((t.heap s).dest_conn ≢ none)

pub new_session_table-IsWf : IsWf new_session_table
unfolding new_session_table
new_session_table-IsWf = record {
  allocated = λ c s e. absurd (ground arith);
  owner = λ c c' s e. absurd (ground arith);
  forth = λ c s d e. absurd (ground arith);
  back = λ d c e. absurd (ground arith);
  ready = λ c s e. absurd (ground arith);
}

pub open_session-IsWf :
    (t : SessionTable) (client : ℕ) (dest payload : List ℕ) (old : Option ℕ)
    → IsWf t
    → t.by_client client ≡ none
    → IsWf (open_session t client dest payload old).0
unfolding open_session
open_session-IsWf t client dest payload old w e = record {
  allocated = λ c s h. ground (arith, w.allocated c s);
  owner = λ c c' s h h'. ground (arith, w.owner c c' s, w.allocated c s, w.allocated c' s);
  forth = λ c s d h h'. ground (arith, w.forth c s d, w.allocated c s);
  back = λ d c h. ground (arith, w.back d c h, w.allocated c (w.back d c h).0);
  ready = λ c s h h'. ground (arith, w.ready c s, w.allocated c s);
}

-- Both maps forget the session, and the client is left without one.
pub drop_session-IsWf :
    (t : SessionTable) (client s : ℕ)
    → IsWf t
    → t.by_client client ≡ some s
    → IsWf (drop_session t client s)
unfolding drop_session
drop_session-IsWf t client s w e = go (t.heap s).dest_conn refl
  where
    go :
        (o : Option ℕ)
        → (t.heap s).dest_conn ≡ o
        → IsWf
            (record t { by_client = delete client t.by_client; by_dest = delete_conn o t.by_dest })
    go none p = record {
      allocated = λ c x h. ground (arith, w.allocated c x);
      owner = λ c c' x h h'. ground (arith, w.owner c c' x);
      forth = λ c x d h h'. ground (arith, w.forth c x d);
      back = λ d c h. ground (arith, w.back d c h);
      ready = λ c x h h'. ground (arith, w.ready c x);
    }
    go (some d0) p = record {
      allocated = λ c x h. ground (arith, w.allocated c x);
      owner = λ c c' x h h'. ground (arith, w.owner c c' x);
      forth = λ c x d h h'. ground (arith, w.forth c x d, w.forth client s d);
      back = λ d c h. ground (arith, w.back d c, w.forth client s d0);
      ready = λ c x h h'. ground (arith, w.ready c x);
    }

pub drop_session_unmapped :
    (t : SessionTable) (client s : ℕ) → (drop_session t client s).by_client client ≡ none
unfolding drop_session
drop_session_unmapped t client s = ground arith

pub use_session-IsWf :
    (t : SessionTable) (client s : ℕ) (payload : List ℕ)
    → IsWf t
    → t.by_client client ≡ some s
    → IsWf (use_session t s payload).0
unfolding use_session
use_session-IsWf t client s payload w e = elim (Bool-cases (t.heap s).dialing) [
  | inr settled ↦ rw settled w
  | inl busy ↦ rw busy (record {
    allocated = w.allocated;
    owner = w.owner;
    forth = λ c x d h h'. ground (arith, w.forth c x d);
    back = λ d c h. ground (arith, w.back d c h);
    ready = λ c x h h'. ground (arith, w.ready c x);
  })
]

pub admit_found-IsWf :
    (t : SessionTable) (client : ℕ) (dest payload : List ℕ) (o : Option ℕ)
    → IsWf t
    → t.by_client client ≡ o
    → IsWf (admit_found t client dest payload o).0
unfolding admit_found
admit_found-IsWf t client dest payload none w e = open_session-IsWf t client dest payload none w e
admit_found-IsWf t client dest payload (some s) w e =
    elim (Bool-cases (str_eq (t.heap s).dest dest)) [
      | inl same ↦ rw same (use_session-IsWf t client s payload w e)
      | inr other ↦ rw other (
          open_session-IsWf (drop_session t client s) client dest payload (t.heap s).dest_conn
            (drop_session-IsWf t client s w e) (drop_session_unmapped t client s))
    ]

pub admit_upstream-IsWf :
    (t : SessionTable) (client : ℕ) (dest payload : List ℕ)
    → IsWf t
    → IsWf (admit_upstream t client dest payload).0
unfolding admit_upstream
admit_upstream-IsWf t client dest payload w =
    admit_found-IsWf t client dest payload (t.by_client client) w refl

purge_found-IsWf :
    (t : SessionTable) (client : ℕ) (o : Option ℕ)
    → IsWf t
    → t.by_client client ≡ o
    → IsWf (purge_found t client o).0
unfolding purge_found
purge_found-IsWf t client none w e = w
purge_found-IsWf t client (some s) w e = drop_session-IsWf t client s w e

pub purge_by_client-IsWf :
    (t : SessionTable) (client : ℕ) → IsWf t → IsWf (purge_by_client t client).0
unfolding purge_by_client
purge_by_client-IsWf t client w = purge_found-IsWf t client (t.by_client client) w refl

-- In a well-formed table the reverse route of a destination always leads to a client whose session
-- has this destination, so the guard of `purgeByDest` passes and both maps lose the route.
pub purge_route_agrees :
    (t : SessionTable) (d client : ℕ)
    → IsWf t
    → t.by_dest d ≡ some client
    → routes_to t (t.by_client client) d ≡ true
purge_route_agrees t d client w e =
    let (s, here, conn) = w.back d client e in ground (arith, here, conn)

purge_route-IsWf :
    (t : SessionTable) (d : ℕ) (o : Option ℕ)
    → IsWf t
    → t.by_dest d ≡ o
    → IsWf (purge_route t d o).0
unfolding purge_route
purge_route-IsWf t d none w e = w
purge_route-IsWf t d (some client) w e =
    let (s, here, conn) = w.back d client e in
    rw (purge_route_agrees t d client w e) (record {
      allocated = λ c x h. ground (arith, w.allocated c x);
      owner = λ c c' x h h'. ground (arith, w.owner c c' x);
      forth = λ c x d' h h'. ground (arith, w.forth c x d', w.owner c client x);
      back = λ d' c h. ground (arith, w.back d' c, here, conn);
      ready = λ c x h h'. ground (arith, w.ready c x);
    })

pub purge_by_dest-IsWf : (t : SessionTable) (d : ℕ) → IsWf t → IsWf (purge_by_dest t d).0
unfolding purge_by_dest
purge_by_dest-IsWf t d w = purge_route-IsWf t d (t.by_dest d) w refl
