-- ===== src/Client/Session/Routes.antt =====
-- The table of client/session.go refines a map from users to sessions, which knows neither pointers
-- nor the reverse map.
use gforward.Prelude.{
  ℕ, ◌<◌, ◌≡◌, refl, ap, true, false, Option, none, some, List, [], ◌∷◌, ◌++◌, ◌==◌, if◌then◌else◌,
  insert, delete, store, arith, Bool-cases, Option-cases, ◌⊎◌, inl, inr, ◌≢◌, ==→eq,
}
use gforward.Client.Session.{
  Session, SessionTable, UpstreamAction, queued, forward, dial, fresh_session, admit_found,
  admit_upstream, complete_dial, abort_dial, is_session, look, view,
}
use gforward.Client.Session.Invariant.{IsWf, is_session→eq}

pub data RouteAction : Type 0 where
  waits connects : RouteAction
  sends : Option ℕ → List ℕ → RouteAction

abbrev pub erase : UpstreamAction → RouteAction
erase queued = waits
erase (forward conn packet s) = sends conn packet
erase (dial s) = connects

-- What a packet does to the route of its user. The target counts only where there is no route.
abbrev pub admit_route : Option Session → List ℕ → List ℕ → Session × RouteAction
admit_route none cached_dest packet = (fresh_session cached_dest packet, connects)
admit_route (some r) cached_dest packet =
    if r.dialing
    then (record r { pending = r.pending ++ (packet ∷ []) }, waits)
    else (r, sends r.server_conn packet)

abbrev pub Refines :
    SessionTable → ℕ → Session × RouteAction → SessionTable × UpstreamAction → Type 0
Refines t user spec r =
    ((u : ℕ) → view r.0 u ≡ (if user == u then some spec.0 else view t u)) × (erase r.1 ≡ spec.1)

-- A session that is allocated is not the next one.
look-store :
    (t : SessionTable) (x : Session) (o : Option ℕ)
    → ((s : ℕ) → o ≡ some s → s < t.next)
    → look (store t.next x t.heap) o ≡ look t.heap o
look-store t x none h = refl
look-store t x (some s) h = ground (arith, h s refl)

-- A write to the session of one user is seen by no other user.
view-store :
    (t : SessionTable) (user s : ℕ) (x : Session)
    → IsWf t
    → t.by_user user ≡ some s
    → (u : ℕ) → look (store s x t.heap) (t.by_user u) ≡ (if user == u then some x else view t u)
view-store t user s x w e u = elim (Bool-cases (user == u)) [
  | inl hit ↦ let same = ==→eq user u hit in ground (arith, e, same)
  | inr miss ↦ elim (Option-cases (t.by_user u)) [
    | inl h ↦ ground (arith, h, miss)
    | inr (y, h) ↦ ground (arith, h, miss, e, w.owner user u s)
  ]
]

unchanged :
    (t : SessionTable) (user : ℕ) (o : Option Session)
    → view t user ≡ o
    → (u : ℕ) → view t u ≡ (if user == u then o else view t u)
unchanged t user o e u = elim (Bool-cases (user == u)) [
  | inl hit ↦ let same = ==→eq user u hit in ground (arith, e, same)
  | inr miss ↦ rw miss
]

opened :
    (t : SessionTable) (user : ℕ) (x : Session)
    → IsWf t
    → (u : ℕ)
    → look (store t.next x t.heap) (insert user t.next t.by_user u)
      ≡ (if user == u then some x else view t u)
opened t user x w u = elim (Bool-cases (user == u)) [
  | inl hit ↦ ground arith
  | inr miss ↦ rw miss (look-store t x (t.by_user u) (w.allocated u))
]

admit_found-Refines :
    (t : SessionTable) (user : ℕ) (dest packet : List ℕ) (o : Option ℕ)
    → IsWf t
    → t.by_user user ≡ o
    → Refines t user (admit_route (look t.heap o) dest packet) (admit_found t user dest packet o)
unfolding admit_found
admit_found-Refines t user dest packet none w e =
    (opened t user (fresh_session dest packet) w, refl)
admit_found-Refines t user dest packet (some s) w e = elim (Bool-cases (t.heap s).dialing) [
  | inl busy ↦ rw busy (view-store t user s _ w e, refl)
  | inr settled ↦ simp settled (unchanged t user (some (t.heap s)) (ap (look t.heap) e), refl)
]

-- `admitUpstream` does to the user's route what the specification says, answers with the same
-- decision, and leaves every other user's route alone: in every well-formed table of the client.
pub admit_upstream-Routes :
    (t : SessionTable) (user : ℕ) (dest packet : List ℕ)
    → IsWf t
    → Refines t user (admit_route (view t user) dest packet) (admit_upstream t user dest packet)
unfolding admit_upstream
admit_upstream-Routes t user dest packet w =
    admit_found-Refines t user dest packet (t.by_user user) w refl

-- `completeDial` of the client hands over the packets that waited, oldest first, and makes the route
-- ready, if the dial is still the user's current one; otherwise it refuses and changes nothing.
pub complete_dial-Routes :
    (t : SessionTable) (user s server : ℕ)
    → IsWf t
    → ((t.by_user user ≡ some s)
        × ((complete_dial t user s server).1 ≡ some (t.heap s).pending)
        × ((u : ℕ)
            → view (complete_dial t user s server).0 u ≡ (
                if user == u
                then some
                    (record (t.heap s) { server_conn = some server; dialing = false; pending = [] })
                else view t u)))
      ⊎ ((t.by_user user ≢ some s) × (complete_dial t user s server ≡ (t, none)))
unfolding complete_dial
complete_dial-Routes t user s server w = elim (Bool-cases (is_session (t.by_user user) s)) [
  | inl current ↦
      let here = is_session→eq (t.by_user user) s current in
      rw current (inl (here, refl, view-store t user s _ w here))
  | inr stale ↦ rw stale (inr ((λ e. ground arith), refl))
]

cleared :
    (t : SessionTable) (user u : ℕ)
    → look t.heap (delete user t.by_user u) ≡ (if user == u then none else view t u)
cleared t user u = elim (Bool-cases (user == u)) [ inl hit ↦ rw hit | inr miss ↦ rw miss ]

-- `abortDial` forgets the route of a dial that failed if it is still the user's current one, and
-- otherwise changes nothing.
pub abort_dial-Routes :
    (t : SessionTable) (user s : ℕ)
    → ((t.by_user user ≡ some s)
        × ((abort_dial t user s).1 ≡ true)
        × ((u : ℕ) → view (abort_dial t user s).0 u ≡ (if user == u then none else view t u)))
      ⊎ ((t.by_user user ≢ some s) × (abort_dial t user s ≡ (t, false)))
unfolding abort_dial
abort_dial-Routes t user s = elim (Bool-cases (is_session (t.by_user user) s)) [
  | inl current ↦ rw current (inl (is_session→eq (t.by_user user) s current, refl, cleared t user))
  | inr stale ↦ rw stale (inr ((λ e. ground arith), refl))
]
