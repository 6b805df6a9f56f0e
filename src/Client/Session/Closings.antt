-- ===== src/Client/Session/Closings.antt =====
-- What closing a connection does to the routes of client/session.go.
use gforward.Prelude.{
  ℕ, ◌≡◌, refl, ap, Option, none, some, ◌==◌, if◌then◌else◌, delete, arith, Bool-cases,
  Option-cases, inl, inr, ◌≢◌, ==→eq, ==_refl, ◌↔◌,
}
use gforward.Client.Session.{
  Session, SessionTable, purge_found, purge_by_user, purge_route, purge_by_server, get_by_server,
  is_session, look, view,
}
use gforward.Client.Session.Invariant.{IsWf, is_session→eq, purge_by_user-IsWf, purge_route_agrees}

-- The reverse map of the client finds a user exactly if the user's route has the connection.
pub get_by_server_iff :
    (t : SessionTable) (d u : ℕ)
    → IsWf t
    → (get_by_server t d ≡ some u)
      ↔ ((r : Session) × (view t u ≡ some r) × (r.server_conn ≡ some d))
unfolding get_by_server
get_by_server_iff t d u w = (found, back)
  where
    found : t.by_server d ≡ some u → (r : Session) × (view t u ≡ some r) × (r.server_conn ≡ some d)
    found e = let (s, here, conn) = w.back d u e in (t.heap s, ap (look t.heap) here, conn)

    back : ((r : Session) × (view t u ≡ some r) × (r.server_conn ≡ some d)) → t.by_server d ≡ some u
    back (r, v, conn) = elim (Option-cases (t.by_user u)) [
      | inl h ↦ absurd (ground (arith, h, v))
      | inr (s, h) ↦ w.forth u s d h (ground (arith, h, v, conn))
    ]

abbrev pub conn_of : Option Session → Option ℕ
conn_of none = none
conn_of (some r) = r.server_conn

cleared :
    (t : SessionTable) (user u : ℕ)
    → look t.heap (delete user t.by_user u) ≡ (if user == u then none else view t u)
cleared t user u = elim (Bool-cases (user == u)) [ inl hit ↦ rw hit | inr miss ↦ rw miss ]

purge_found-view :
    (t : SessionTable) (user : ℕ) (o : Option ℕ)
    → t.by_user user ≡ o
    → ((purge_found t user o).1 ≡ conn_of (look t.heap o))
      × ((u : ℕ) → view (purge_found t user o).0 u ≡ (if user == u then none else view t u))
unfolding purge_found
purge_found-view t user none e = (refl, unchanged)
  where
    unchanged : (u : ℕ) → view t u ≡ (if user == u then none else view t u)
    unchanged u = elim (Bool-cases (user == u)) [
      | inl hit ↦ let same = ==→eq user u hit in ground (arith, e, same)
      | inr miss ↦ rw miss
    ]
purge_found-view t user (some s) e = (refl, cleared t user)

-- Closing a user's connection answers with the server connection of its route, forgets that route
-- and no other, and leaves no way back from a server connection to the user.
pub purge_by_user-Routes :
    (t : SessionTable) (user : ℕ)
    → IsWf t
    → ((purge_by_user t user).1 ≡ conn_of (view t user))
      × ((u : ℕ) → view (purge_by_user t user).0 u ≡ (if user == u then none else view t u))
      × ((d : ℕ) → get_by_server (purge_by_user t user).0 d ≢ some user)
purge_by_user-Routes t user w = (now.0, now.1, no_way_back)
  where
    now :
        ((purge_by_user t user).1 ≡ conn_of (view t user))
        × ((u : ℕ) → view (purge_by_user t user).0 u ≡ (if user == u then none else view t u))
    now = unfold purge_by_user in purge_found-view t user (t.by_user user) refl

    no_way_back : (d : ℕ) → get_by_server (purge_by_user t user).0 d ≢ some user
    no_way_back d e =
        let (r, v, conn) =
          (get_by_server_iff (purge_by_user t user).0 d user (purge_by_user-IsWf t user w)).0 e in
        ground (arith, v, now.1 user, ==_refl user)

-- The routes without the one over a connection.
abbrev pub drop_route : ℕ → Option Session → Option Session
drop_route d none = none
drop_route d (some r) = if is_session r.server_conn d then none else some r

-- A user to which the reverse map does not lead keeps its route.
untouched :
    (t : SessionTable) (d u : ℕ)
    → IsWf t
    → t.by_server d ≢ some u
    → view t u ≡ drop_route d (view t u)
untouched t d u w other = elim (Option-cases (t.by_user u)) [
  | inl h ↦ rw h
  | inr (s, h) ↦ elim (Bool-cases (is_session (t.heap s).server_conn d)) [
    | inl same ↦ absurd (other (w.forth u s d h (is_session→eq (t.heap s).server_conn d same)))
    | inr differs ↦ ground (arith, h, differs)
  ]
]

gone :
    (t : SessionTable) (d user u : ℕ)
    → IsWf t
    → t.by_server d ≡ some user
    → look t.heap (delete user t.by_user u) ≡ drop_route d (view t u)
gone t d user u w e = elim (Bool-cases (user == u)) [
  | inl hit ↦
      let same = ==→eq user u hit in
      let (s, here, conn) = w.back d user e in ground (arith, here, conn, same, ==_refl d)
  | inr miss ↦ rw miss (untouched t d u w (λ f. ground (arith, e, miss, f)))
]

-- Closing a server connection answers with the user whose route has it, if any, and forgets this
-- route and no other.
pub purge_by_server-Routes :
    (t : SessionTable) (d : ℕ)
    → IsWf t
    → ((purge_by_server t d).1 ≡ get_by_server t d)
      × ((u : ℕ) → view (purge_by_server t d).0 u ≡ drop_route d (view t u))
unfolding purge_by_server purge_route get_by_server
purge_by_server-Routes t d w = elim (Option-cases (t.by_server d)) [
  | inl nobody ↦ rw (nobody, purge_route) (refl, λ u. untouched t d u w (λ e. cc (e, nobody)))
  | inr (user, e) ↦
      rw (e, purge_route, purge_route_agrees t d user w e) (refl, λ u. gone t d user u w e)
]
