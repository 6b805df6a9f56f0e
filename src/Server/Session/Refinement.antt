-- ===== src/Server/Session/Refinement.antt =====
-- The table of server/session.go refines a map from clients to routes, which knows neither
-- pointers nor the reverse map.
use gforward.Prelude.{
  ℕ, ◌<◌, ◌≡◌, refl, true, false, Option, none, some, List, [], ◌∷◌, ◌++◌, ◌==◌, if◌then◌else◌,
  str_eq, insert, delete, store, arith, Bool-cases, Option-cases, ◌⊎◌, inl, inr, ◌≢◌, ==→eq,
}
use gforward.Server.Session.{
  Session, SessionTable, UpstreamAction, queued, forward, dial, fresh_session, open_session,
  use_session, drop_session, admit_found, admit_upstream, bind_dial, complete_dial, is_session,
}
use gforward.Server.Session.Invariant.{IsWf}
use gforward.Server.Session.Dialing.{is_session→eq}

-- The route of a client: its session, without the pointer.
abbrev pub Route : Type 0
Route = Option Session

abbrev pub look : (ℕ → Session) → Option ℕ → Route
look heap none = none
look heap (some s) = some (heap s)

abbrev pub view : SessionTable → ℕ → Route
view t c = look t.heap (t.by_client c)

pub data RouteAction : Type 0 where
  waits : RouteAction
  sends : Option ℕ → List ℕ → RouteAction
  connects : Option ℕ → List ℕ → RouteAction

abbrev pub erase : UpstreamAction → RouteAction
erase queued = waits
erase (forward conn payload) = sends conn payload
erase (dial old s dest) = connects old dest

-- What upstream data does to a route: it waits or is sent if the target is the same, and otherwise
-- the route is replaced by one that dials and keeps the data.
abbrev pub route_data : Session → List ℕ → Session × RouteAction
route_data r payload =
    if r.dialing
    then (record r { pending = r.pending ++ (payload ∷ []) }, waits)
    else (r, sends r.dest_conn payload)

abbrev pub admit_route : Route → List ℕ → List ℕ → Session × RouteAction
admit_route none dest payload = (fresh_session dest payload, connects none dest)
admit_route (some r) dest payload =
    if str_eq r.dest dest
    then route_data r payload
    else (fresh_session dest payload, connects r.dest_conn dest)

abbrev pub Refines :
    SessionTable → ℕ → Session × RouteAction → SessionTable × UpstreamAction → Type 0
Refines t client spec r =
    ((c : ℕ) → view r.0 c ≡ (if client == c then some spec.0 else view t c)) × (erase r.1 ≡ spec.1)

-- A session that is allocated is not the next one.
look-store :
    (t : SessionTable) (x : Session) (o : Option ℕ)
    → ((s : ℕ) → o ≡ some s → s < t.next)
    → look (store t.next x t.heap) o ≡ look t.heap o
look-store t x none h = refl
look-store t x (some s) h = ground (arith, h s refl)

open_session-Refines :
    (t u : SessionTable) (client : ℕ) (dest payload : List ℕ) (old : Option ℕ)
    → IsWf t
    → u.heap ≡ t.heap
    → u.next ≡ t.next
    → ((c : ℕ) → (client == c) ≡ false → u.by_client c ≡ t.by_client c)
    → Refines t client
        (fresh_session dest payload, connects old dest)
        (open_session u client dest payload old)
unfolding open_session
open_session-Refines t u client dest payload old w eh en same = (step, refl)
  where
    step :
        (c : ℕ)
        → look
            (store u.next (fresh_session dest payload) u.heap)
            (insert client u.next u.by_client c)
          ≡ (if client == c then some (fresh_session dest payload) else view t c)
    step c = elim (Bool-cases (client == c)) [
      | inl hit ↦ ground arith
      | inr miss ↦
          rw (miss, same c miss, eh, en)
            (look-store t (fresh_session dest payload) (t.by_client c) (w.allocated c))
    ]

-- A write to the session of one client is seen by no other client.
view-store :
    (t : SessionTable) (client s : ℕ) (x : Session)
    → IsWf t
    → t.by_client client ≡ some s
    → (c : ℕ) → look (store s x t.heap) (t.by_client c) ≡ (if client == c then some x else view t c)
view-store t client s x w e c = elim (Bool-cases (client == c)) [
  | inl hit ↦ let same = ==→eq client c hit in ground (arith, e, same)
  | inr miss ↦ elim (Option-cases (t.by_client c)) [
    | inl h ↦ ground (arith, h, miss)
    | inr (y, h) ↦ ground (arith, h, miss, e, w.owner client c s)
  ]
]

use_session-Refines :
    (t : SessionTable) (client s : ℕ) (payload : List ℕ)
    → IsWf t
    → t.by_client client ≡ some s
    → Refines t client (route_data (t.heap s) payload) (use_session t s payload)
unfolding use_session
use_session-Refines t client s payload w e = elim (Bool-cases (t.heap s).dialing) [
  | inl busy ↦ rw busy (view-store t client s _ w e, refl)
  | inr settled ↦ simp settled (unchanged, refl)
]
  where
    unchanged : (c : ℕ) → view t c ≡ (if client == c then some (t.heap s) else view t c)
    unchanged c = elim (Bool-cases (client == c)) [
      | inl hit ↦ let same = ==→eq client c hit in ground (arith, e, same)
      | inr miss ↦ rw miss
    ]

delete_ne :
    {c : ℕ} (client : ℕ) (m : ℕ → Option ℕ) → (client == c) ≡ false → delete client m c ≡ m c
delete_ne client m h = rw h

admit_found-Refines :
    (t : SessionTable) (client : ℕ) (dest payload : List ℕ) (o : Option ℕ)
    → IsWf t
    → t.by_client client ≡ o
    → Refines t client
        (admit_route (look t.heap o) dest payload)
        (admit_found t client dest payload o)
unfolding admit_found
admit_found-Refines t client dest payload none w e =
    open_session-Refines t t client dest payload none w refl refl (λ c h. refl)
admit_found-Refines t client dest payload (some s) w e =
    elim (Bool-cases (str_eq (t.heap s).dest dest)) [
      | inl same ↦ rw same (use_session-Refines t client s payload w e)
      | inr other ↦ rw other (
          open_session-Refines t (drop_session t client s) client dest payload (t.heap s).dest_conn
            w (unfold drop_session in refl) (unfold drop_session in refl)
            (unfold drop_session in λ c h. delete_ne client t.by_client h))
    ]

-- `admitUpstream` does to the client's route what the specification says, answers with the same
-- decision, and leaves every other client's route alone: in every well-formed table.
pub admit_upstream-Refines :
    (t : SessionTable) (client : ℕ) (dest payload : List ℕ)
    → IsWf t
    → Refines t client
        (admit_route (view t client) dest payload)
        (admit_upstream t client dest payload)
unfolding admit_upstream
admit_upstream-Refines t client dest payload w =
    admit_found-Refines t client dest payload (t.by_client client) w refl

-- `bindDial` records the connection in the route if the dial is still the client's current one;
-- otherwise it refuses and changes no route.
pub bind_dial-Refines :
    (t : SessionTable) (client s d : ℕ)
    → IsWf t
    → ((t.by_client client ≡ some s)
        × ((bind_dial t client s d).1 ≡ true)
        × ((c : ℕ)
            → view (bind_dial t client s d).0 c ≡ (
                if client == c then some (record (t.heap s) { dest_conn = some d }) else view t c)))
      ⊎ ((t.by_client client ≢ some s) × (bind_dial t client s d ≡ (t, false)))
unfolding bind_dial
bind_dial-Refines t client s d w = elim (Bool-cases (is_session (t.by_client client) s)) [
  | inl current ↦
      let here = is_session→eq (t.by_client client) s current in
      rw current (inl (here, refl, view-store t client s _ w here))
  | inr stale ↦ rw stale (inr ((λ e. ground arith), refl))
]

-- `completeDial` hands over the data that waited, oldest first, and makes the route ready, if the
-- dial is still the client's current one; otherwise it refuses and changes nothing.
pub complete_dial-Refines :
    (t : SessionTable) (client s : ℕ)
    → IsWf t
    → ((t.by_client client ≡ some s)
        × ((complete_dial t client s).1 ≡ some (t.heap s).pending)
        × ((c : ℕ)
            → view (complete_dial t client s).0 c ≡ (
                if client == c
                then some (record (t.heap s) { dialing = false; pending = [] })
                else view t c)))
      ⊎ ((t.by_client client ≢ some s) × (complete_dial t client s ≡ (t, none)))
unfolding complete_dial
complete_dial-Refines t client s w = elim (Bool-cases (is_session (t.by_client client) s)) [
  | inl current ↦
      let here = is_session→eq (t.by_client client) s current in
      rw current (inl (here, refl, view-store t client s _ w here))
  | inr stale ↦ rw stale (inr ((λ e. ground arith), refl))
]
