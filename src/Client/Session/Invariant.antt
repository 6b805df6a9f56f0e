-- ===== src/Client/Session/Invariant.antt =====
-- The well-formedness of the table of client/session.go.
use gforward.Prelude.{
  ℕ, ◌<◌, ◌≡◌, refl, ap, true, false, Option, none, some, List, [], ◌==◌, delete, arith, Bool-cases,
  inl, inr, ◌≢◌, ==→eq,
}
use gforward.Client.Session.{
  SessionTable, new_session_table, admit_found, admit_upstream, complete_dial, abort_dial,
  purge_found, purge_by_user, purge_route, purge_by_server, delete_conn, is_session, routes_to,
  view,
}

-- Sessions are allocated and have one user each; the two maps agree; a session dials exactly as long
-- as it has no connection, and only then keeps packets.
pub record IsWf (t : SessionTable) : Type 0 where
  pub allocated : (u s : ℕ) → t.by_user u ≡ some s → s < t.next
  pub owner : (u u' s : ℕ) → t.by_user u ≡ some s → t.by_user u' ≡ some s → u ≡ u'
  pub forth :
      (u s d : ℕ) → t.by_user u ≡ some s → (t.heap s).server_conn ≡ some d → t.by_server d ≡ some u
  pub back :
      (d u : ℕ)
      → t.by_server d ≡ some u
      → (s : ℕ) × (t.by_user u ≡ some s) × ((t.heap s).server_conn ≡ some d)
  pub ready :
      (u s : ℕ)
      → t.by_user u ≡ some s
      → (t.heap s).dialing ≡ false
      → ((t.heap s).pending ≡ []) × ((t.heap s).server_conn ≢ none)
  pub dialing :
      (u s : ℕ) → t.by_user u ≡ some s → (t.heap s).dialing ≡ true → (t.heap s).server_conn ≡ none

pub new_session_table-IsWf : IsWf new_session_table
unfolding new_session_table
new_session_table-IsWf = record {
  allocated = λ u s e. absurd (ground arith);
  owner = λ u u' s e. absurd (ground arith);
  forth = λ u s d e. absurd (ground arith);
  back = λ d u e. absurd (ground arith);
  ready = λ u s e. absurd (ground arith);
  dialing = λ u s e. absurd (ground arith);
}

admit_found-IsWf :
    (t : SessionTable) (user : ℕ) (dest packet : List ℕ) (o : Option ℕ)
    → IsWf t
    → t.by_user user ≡ o
    → IsWf (admit_found t user dest packet o).0
unfolding admit_found
admit_found-IsWf t user dest packet none w e = record {
  allocated = λ u s h. ground (arith, w.allocated u s);
  owner = λ u u' s h h'. ground (arith, w.owner u u' s, w.allocated u s, w.allocated u' s);
  forth = λ u s d h h'. ground (arith, w.forth u s d, w.allocated u s);
  back = λ d u h. ground (arith, w.back d u h, w.allocated u (w.back d u h).0);
  ready = λ u s h h'. ground (arith, w.ready u s, w.allocated u s);
  dialing = λ u s h h'. ground (arith, w.dialing u s, w.allocated u s);
}
admit_found-IsWf t user dest packet (some s) w e = elim (Bool-cases (t.heap s).dialing) [
  | inr settled ↦ rw settled w
  | inl busy ↦ rw busy (record {
    allocated = w.allocated;
    owner = w.owner;
    forth = λ u x d h h'. ground (arith, w.forth u x d);
    back = λ d u h. ground (arith, w.back d u h);
    ready = λ u x h h'. ground (arith, w.ready u x);
    dialing = λ u x h h'. ground (arith, w.dialing u x);
  })
]

pub admit_upstream-IsWf :
    (t : SessionTable) (user : ℕ) (dest packet : List ℕ)
    → IsWf t
    → IsWf (admit_upstream t user dest packet).0
unfolding admit_upstream
admit_upstream-IsWf t user dest packet w =
    admit_found-IsWf t user dest packet (t.by_user user) w refl

pub is_session→eq : (o : Option ℕ) (s : ℕ) → is_session o s ≡ true → o ≡ some s
is_session→eq none s h = cc
is_session→eq (some cur) s h = ap some (==→eq cur s h)

-- The dial has opened a connection that no route uses yet, for a session that has none.
pub complete_dial-IsWf :
    (t : SessionTable) (user s server : ℕ)
    → IsWf t
    → t.by_server server ≡ none
    → (t.heap s).server_conn ≡ none
    → IsWf (complete_dial t user s server).0
unfolding complete_dial
complete_dial-IsWf t user s server w fresh unbound =
    elim (Bool-cases (is_session (t.by_user user) s)) [
      | inr stale ↦ rw stale w
      | inl current ↦
          let here = is_session→eq (t.by_user user) s current in
          rw current (record {
            allocated = w.allocated;
            owner = w.owner;
            forth = λ u x d h h'. ground (arith, w.forth u x d, w.owner u user x, here, fresh);
            back = λ d u h. elim (Bool-cases (server == d)) [
              | inl same ↦ (s, ground (arith, here, h), ground arith)
              | inr other ↦
                  let (x, p, q) = w.back d u (ground (arith, h)) in (x, p, ground (arith, unbound))
            ];
            ready = λ u x h h'. ground (arith, w.ready u x);
            dialing = λ u x h h'. ground (arith, w.dialing u x);
          })
    ]

pub abort_dial-IsWf :
    (t : SessionTable) (user s : ℕ)
    → IsWf t
    → (t.heap s).server_conn ≡ none
    → IsWf (abort_dial t user s).0
unfolding abort_dial
abort_dial-IsWf t user s w unbound = elim (Bool-cases (is_session (t.by_user user) s)) [
  | inr stale ↦ rw stale w
  | inl current ↦
      let here = is_session→eq (t.by_user user) s current in
      rw current (record {
        allocated = λ u x h. ground (arith, w.allocated u x);
        owner = λ u u' x h h'. ground (arith, w.owner u u' x);
        forth = λ u x d h h'. ground (arith, w.forth u x d);
        back = λ d u h. ground (arith, w.back d u, here, unbound);
        ready = λ u x h h'. ground (arith, w.ready u x);
        dialing = λ u x h h'. ground (arith, w.dialing u x);
      })
]

purge_found-IsWf :
    (t : SessionTable) (user : ℕ) (o : Option ℕ)
    → IsWf t
    → t.by_user user ≡ o
    → IsWf (purge_found t user o).0
unfolding purge_found
purge_found-IsWf t user none w e = w
purge_found-IsWf t user (some s) w e = go (t.heap s).server_conn refl
  where
    go :
        (o : Option ℕ)
        → (t.heap s).server_conn ≡ o
        → IsWf (record t { by_user = delete user t.by_user; by_server = delete_conn o t.by_server })
    go none p = record {
      allocated = λ u x h. ground (arith, w.allocated u x);
      owner = λ u u' x h h'. ground (arith, w.owner u u' x);
      forth = λ u x d h h'. ground (arith, w.forth u x d);
      back = λ d u h. ground (arith, w.back d u h);
      ready = λ u x h h'. ground (arith, w.ready u x);
      dialing = λ u x h h'. ground (arith, w.dialing u x);
    }
    go (some d0) p = record {
      allocated = λ u x h. ground (arith, w.allocated u x);
      owner = λ u u' x h h'. ground (arith, w.owner u u' x);
      forth = λ u x d h h'. ground (arith, w.forth u x d, w.forth user s d);
      back = λ d u h. ground (arith, w.back d u, w.forth user s d0);
      ready = λ u x h h'. ground (arith, w.ready u x);
      dialing = λ u x h h'. ground (arith, w.dialing u x);
    }

pub purge_by_user-IsWf : (t : SessionTable) (user : ℕ) → IsWf t → IsWf (purge_by_user t user).0
unfolding purge_by_user
purge_by_user-IsWf t user w = purge_found-IsWf t user (t.by_user user) w refl

-- The guard of `purgeByServer` passes in a well-formed table.
pub purge_route_agrees :
    (t : SessionTable) (server user : ℕ)
    → IsWf t
    → t.by_server server ≡ some user
    → routes_to (view t user) server ≡ true
purge_route_agrees t server user w e =
    let (s, here, conn) = w.back server user e in ground (arith, here, conn)

purge_route-IsWf :
    (t : SessionTable) (server : ℕ) (o : Option ℕ)
    → IsWf t
    → t.by_server server ≡ o
    → IsWf (purge_route t server o).0
unfolding purge_route
purge_route-IsWf t server none w e = w
purge_route-IsWf t server (some user) w e =
    let (s, here, conn) = w.back server user e in
    rw (purge_route_agrees t server user w e) (record {
      allocated = λ u x h. ground (arith, w.allocated u x);
      owner = λ u u' x h h'. ground (arith, w.owner u u' x);
      forth = λ u x d' h h'. ground (arith, w.forth u x d', w.owner u user x);
      back = λ d' u h. ground (arith, w.back d' u, here, conn);
      ready = λ u x h h'. ground (arith, w.ready u x);
      dialing = λ u x h h'. ground (arith, w.dialing u x);
    })

pub purge_by_server-IsWf :
    (t : SessionTable) (server : ℕ) → IsWf t → IsWf (purge_by_server t server).0
unfolding purge_by_server
purge_by_server-IsWf t server w = purge_route-IsWf t server (t.by_server server) w refl
