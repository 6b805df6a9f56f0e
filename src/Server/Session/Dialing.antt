-- ===== src/Server/Session/Dialing.antt =====
-- The operations of server/session.go on a dial's result: `bindDial`, `completeDial`, `abortDial`.
use gforward.Prelude.{
  ℕ, ◌≡◌, ap, true, Option, none, some, ◌==◌, arith, Bool-cases, inl, inr, ◌≢◌, ==→eq,
}
use gforward.Server.Session.{SessionTable, bind_dial, complete_dial, abort_dial, is_session}
use gforward.Server.Session.Invariant.{IsWf}

pub is_session→eq : (o : Option ℕ) (s : ℕ) → is_session o s ≡ true → o ≡ some s
is_session→eq none s h = cc
is_session→eq (some cur) s h = ap some (==→eq cur s h)

-- A dial opens one connection, which no route uses yet, for a session that has none.
pub bind_dial-IsWf :
    (t : SessionTable) (client s d : ℕ)
    → IsWf t
    → t.by_dest d ≡ none
    → (t.heap s).dest_conn ≡ none
    → IsWf (bind_dial t client s d).0
unfolding bind_dial
bind_dial-IsWf t client s d w fresh unbound =
    elim (Bool-cases (is_session (t.by_client client) s)) [
      | inr stale ↦ rw stale w
      | inl current ↦
          let here = is_session→eq (t.by_client client) s current in
          rw current (record {
            allocated = w.allocated;
            owner = w.owner;
            forth = λ c x d' h h'. ground (arith, w.forth c x d', w.owner c client x, here, fresh);
            back = λ d' c h. elim (Bool-cases (d == d')) [
              | inl same ↦ (s, ground (arith, here, h), ground arith)
              | inr other ↦
                  let (x, p, q) = w.back d' c (ground (arith, h)) in (x, p, ground (arith, unbound))
            ];
            ready = λ c x h h'. ground (arith, w.ready c x);
          })
    ]

pub complete_dial-IsWf :
    (t : SessionTable) (client s : ℕ)
    → IsWf t
    → (t.heap s).dest_conn ≢ none
    → IsWf (complete_dial t client s).0
unfolding complete_dial
complete_dial-IsWf t client s w bound = elim (Bool-cases (is_session (t.by_client client) s)) [
  | inr stale ↦ rw stale w
  | inl current ↦
      let here = is_session→eq (t.by_client client) s current in
      rw current (record {
        allocated = w.allocated;
        owner = w.owner;
        forth = λ c x d' h h'. ground (arith, w.forth c x d');
        back = λ d' c h. ground (arith, w.back d' c);
        ready = λ c x h h'. ground (arith, w.ready c x, bound);
      })
]

pub abort_dial-IsWf :
    (t : SessionTable) (client s : ℕ)
    → IsWf t
    → (t.heap s).dest_conn ≡ none
    → IsWf (abort_dial t client s).0
unfolding abort_dial
abort_dial-IsWf t client s w unbound = elim (Bool-cases (is_session (t.by_client client) s)) [
  | inr stale ↦ rw stale w
  | inl current ↦
      let here = is_session→eq (t.by_client client) s current in
      rw current (record {
        allocated = λ c x h. ground (arith, w.allocated c x);
        owner = λ c c' x h h'. ground (arith, w.owner c c' x);
        forth = λ c x d' h h'. ground (arith, w.forth c x d');
        back = λ d' c h. ground (arith, w.back d' c, here, unbound);
        ready = λ c x h h'. ground (arith, w.ready c x);
      })
]
