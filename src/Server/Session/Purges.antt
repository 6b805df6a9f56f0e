-- ===== src/Server/Session/Purges.antt =====
-- What closing a connection does to the routes of server/session.go.
use gforward.Prelude.{
  ℕ, ◌≡◌, refl, ap, ◌⊎◌, true, false, Option, none, some, ◌==◌, if◌then◌else◌, delete, arith,
  Bool-cases, Option-cases, inl, inr, ◌≢◌, ==→eq, ==_refl, ◌↔◌,
}
use gforward.Server.Session.{
  Session, SessionTable, purge_found, purge_by_client, purge_route, purge_by_dest, get_by_dest,
  abort_dial, drop_session, is_session,
}
use gforward.Server.Session.Invariant.{IsWf, purge_by_client-IsWf, purge_route_agrees}
use gforward.Server.Session.Dialing.{is_session→eq}
use gforward.Server.Session.Refinement.{Route, look, view}

-- The reverse map finds a client exactly if the client's route has the connection.
pub get_by_dest_iff :
    (t : SessionTable) (d c : ℕ)
    → IsWf t
    → (get_by_dest t d ≡ some c) ↔ ((r : Session) × (view t c ≡ some r) × (r.dest_conn ≡ some d))
unfolding get_by_dest
get_by_dest_iff t d c w = (found, back)
  where
    found : t.by_dest d ≡ some c → (r : Session) × (view t c ≡ some r) × (r.dest_conn ≡ some d)
    found e = let (s, here, conn) = w.back d c e in (t.heap s, ap (look t.heap) here, conn)

    back : ((r : Session) × (view t c ≡ some r) × (r.dest_conn ≡ some d)) → t.by_dest d ≡ some c
    back (r, v, conn) = elim (Option-cases (t.by_client c)) [
      | inl h ↦ absurd (ground (arith, h, v))
      | inr (s, h) ↦ w.forth c s d h (ground (arith, h, v, conn))
    ]

abbrev pub conn_of : Route → Option ℕ
conn_of none = none
conn_of (some r) = r.dest_conn

cleared :
    (t : SessionTable) (client c : ℕ)
    → look t.heap (delete client t.by_client c) ≡ (if client == c then none else view t c)
cleared t client c = elim (Bool-cases (client == c)) [ inl hit ↦ rw hit | inr miss ↦ rw miss ]

-- `abortDial` forgets the route of a dial that failed if it is still the client's current one, and
-- otherwise changes nothing.
pub abort_dial-Refines :
    (t : SessionTable) (client s : ℕ)
    → ((t.by_client client ≡ some s)
        × ((abort_dial t client s).1 ≡ true)
        × ((c : ℕ) → view (abort_dial t client s).0 c ≡ (if client == c then none else view t c)))
      ⊎ ((t.by_client client ≢ some s) × (abort_dial t client s ≡ (t, false)))
unfolding abort_dial
abort_dial-Refines t client s = elim (Bool-cases (is_session (t.by_client client) s)) [
  | inl current ↦
      rw current (inl (is_session→eq (t.by_client client) s current, refl, cleared t client))
  | inr stale ↦ rw stale (inr ((λ e. ground arith), refl))
]

purge_found-view :
    (t : SessionTable) (client : ℕ) (o : Option ℕ)
    → t.by_client client ≡ o
    → ((purge_found t client o).1 ≡ conn_of (look t.heap o))
      × ((c : ℕ) → view (purge_found t client o).0 c ≡ (if client == c then none else view t c))
unfolding purge_found drop_session
purge_found-view t client none e = (refl, unchanged)
  where
    unchanged : (c : ℕ) → view t c ≡ (if client == c then none else view t c)
    unchanged c = elim (Bool-cases (client == c)) [
      | inl hit ↦ let same = ==→eq client c hit in ground (arith, e, same)
      | inr miss ↦ rw miss
    ]
purge_found-view t client (some s) e = (refl, cleared t client)

-- Closing a client's connection answers with the destination connection of its route, forgets that
-- route and no other, and leaves no way back from a destination connection to the client.
pub purge_by_client-Refines :
    (t : SessionTable) (client : ℕ)
    → IsWf t
    → ((purge_by_client t client).1 ≡ conn_of (view t client))
      × ((c : ℕ) → view (purge_by_client t client).0 c ≡ (if client == c then none else view t c))
      × ((d : ℕ) → get_by_dest (purge_by_client t client).0 d ≢ some client)
purge_by_client-Refines t client w = (now.0, now.1, no_way_back)
  where
    now :
        ((purge_by_client t client).1 ≡ conn_of (view t client))
        × ((c : ℕ) → view (purge_by_client t client).0 c ≡ (if client == c then none else view t c))
    now = unfold purge_by_client in purge_found-view t client (t.by_client client) refl

    no_way_back : (d : ℕ) → get_by_dest (purge_by_client t client).0 d ≢ some client
    no_way_back d e =
        let (r, v, conn) =
          (get_by_dest_iff (purge_by_client t client).0 d client
              (purge_by_client-IsWf t client w)).0
            e in
        ground (arith, v, now.1 client, ==_refl client)

-- The routes without the one over a connection.
abbrev pub drop_route : ℕ → Route → Route
drop_route d none = none
drop_route d (some r) = if is_session r.dest_conn d then none else some r

-- A client to which the reverse map does not lead keeps its route.
untouched :
    (t : SessionTable) (d c : ℕ)
    → IsWf t
    → t.by_dest d ≢ some c
    → view t c ≡ drop_route d (view t c)
untouched t d c w other = elim (Option-cases (t.by_client c)) [
  | inl h ↦ rw h
  | inr (s, h) ↦ elim (Bool-cases (is_session (t.heap s).dest_conn d)) [
    | inl same ↦ absurd (other (w.forth c s d h (is_session→eq (t.heap s).dest_conn d same)))
    | inr differs ↦ ground (arith, h, differs)
  ]
]

gone :
    (t : SessionTable) (d client c : ℕ)
    → IsWf t
    → t.by_dest d ≡ some client
    → look t.heap (delete client t.by_client c) ≡ drop_route d (view t c)
gone t d client c w e = elim (Bool-cases (client == c)) [
  | inl hit ↦
      let same = ==→eq client c hit in
      let (s, here, conn) = w.back d client e in ground (arith, here, conn, same, ==_refl d)
  | inr miss ↦ rw miss (untouched t d c w (λ f. ground (arith, e, miss, f)))
]

-- Closing a destination connection answers with the client whose route has it, if any, and forgets
-- this route and no other.
pub purge_by_dest-Refines :
    (t : SessionTable) (d : ℕ)
    → IsWf t
    → ((purge_by_dest t d).1 ≡ get_by_dest t d)
      × ((c : ℕ) → view (purge_by_dest t d).0 c ≡ drop_route d (view t c))
unfolding purge_by_dest purge_route get_by_dest
purge_by_dest-Refines t d w = elim (Option-cases (t.by_dest d)) [
  | inl nobody ↦ rw (nobody, purge_route) (refl, λ c. untouched t d c w (λ e. cc (e, nobody)))
  | inr (client, e) ↦
      rw (e, purge_route, purge_route_agrees t d client w e) (refl, λ c. gone t d client c w e)
]
