-- ===== src/Server/Dispatcher/Affinity.antt =====
-- The workers of server/dispatcher.go and their channels: each connection has one worker for life.
use native.Mathlib.Nat.{mod-lt}
use gforward.Prelude.{
  ℕ, ◌%◌, ◌<◌, ◌≡◌, refl, ap, ◌∙◌, ==→eq, Option, none, some, List, [], ◌∷◌, length, ◌==◌, arith,
  All, All-append, Bool-cases, inl, inr,
}
use gforward.Message.{Outcome, received, violation, stuck, parse_available}
use gforward.Server.Handler.{DialToken}
use gforward.Server.Dispatcher.{
  Dispatcher, Msg, new_dispatcher, on_open, less_one, add_one, dispatch, dispatch_to, on_close,
  close_msg, on_parsed, on_traffic, internal_protocol,
}

-- A connection's worker exists, and a worker's channel has only messages of its connections.
pub record IsAffine (d : Dispatcher) : Type 0 where
  pub some_worker : 0 < d.workers
  pub bounded : (conn w : ℕ) → d.worker_of conn ≡ some w → w < d.workers
  pub sent : (w : ℕ) → All (λ msg. d.worker_of msg.conn ≡ some w) (d.channels w)

-- The events of gnet: a connection that opens has not been open before.
pub data Event (d : Dispatcher) : Dispatcher → Type 0 where
  opens : (conn : ℕ) → d.worker_of conn ≡ none → Event d (on_open d conn)
  reads : (conn : ℕ) (buf : List ℕ) → Event d (on_traffic d conn buf).0
  closes : (conn : ℕ) → Event d (on_close d conn)

pub data Run (d : Dispatcher) : Dispatcher → Type 0 where
  starts : Run d d
  follows : {e f : Dispatcher} → Run d e → Event e f → Run d f

All-map :
    {A : Type 0} {P Q : A → Type 0} (xs : List A) → ((x : A) → P x → Q x) → All P xs → All Q xs
All-map [] f h = tt
All-map (x ∷ xs) f h = (f x h.0, All-map xs f h.1)

on_open-IsAffine :
    (d : Dispatcher) (conn : ℕ) → d.worker_of conn ≡ none → IsAffine d → IsAffine (on_open d conn)
unfolding on_open
on_open-IsAffine d conn fresh a = record {
  some_worker = a.some_worker;
  bounded = λ c w e. elim (Bool-cases (conn == c)) [
    | inl hit ↦
        let here : less_one (add_one d.next_worker_index) % d.workers ≡ w =
          ground (arith, hit, e) in
        rw (here) at (mod-lt (less_one (add_one d.next_worker_index)) a.some_worker)
    | inr miss ↦ a.bounded c w (ground (arith, miss, e))
  ];
  sent = λ w. All-map (d.channels w) (λ msg e. ground (arith, fresh, e)) (a.sent w);
}

dispatch_to-IsAffine :
    (d : Dispatcher) (msg : Msg) (o : Option ℕ)
    → d.worker_of msg.conn ≡ o
    → IsAffine d
    → IsAffine (dispatch_to d msg o)
dispatch_to-IsAffine d msg none e a = a
dispatch_to-IsAffine d msg (some w) e a = record {
  some_worker = a.some_worker;
  bounded = a.bounded;
  sent = λ v. elim (Bool-cases (w == v)) [
    | inl hit ↦
        let same = ==→eq w v hit in
        rw hit (
          All-append _ (d.channels w) (msg ∷ [])
            (All-map (d.channels w) (λ m h. h ∙ ap some same) (a.sent w)) (e ∙ ap some same, tt))
    | inr miss ↦ rw miss (a.sent v)
  ];
}

dispatch-IsAffine : (d : Dispatcher) (msg : Msg) → IsAffine d → IsAffine (dispatch d msg)
unfolding dispatch
dispatch-IsAffine d msg a = dispatch_to-IsAffine d msg (d.worker_of msg.conn) refl a

on_parsed-IsAffine :
    (d : Dispatcher) (r : Outcome DialToken × List ℕ) → IsAffine d → IsAffine (on_parsed d r).0
on_parsed-IsAffine d (violation, left) a = a
on_parsed-IsAffine d (stuck, left) a = a
on_parsed-IsAffine d (received msg, left) a = elim (Bool-cases (length msg.pkts == 0)) [
  | inl nothing ↦ rw nothing a
  | inr some_pkts ↦ rw some_pkts (dispatch-IsAffine d msg a)
]

Event-IsAffine : {d e : Dispatcher} → Event d e → IsAffine d → IsAffine e
unfolding on_traffic on_close
Event-IsAffine {d} (opens conn fresh) a = on_open-IsAffine d conn fresh a
Event-IsAffine {d} (reads conn buf) a =
    on_parsed-IsAffine d (parse_available conn internal_protocol buf) a
Event-IsAffine {d} (closes conn) a = dispatch-IsAffine d (close_msg conn) a

IsAffine-Run : {d e : Dispatcher} → Run d e → IsAffine d → IsAffine e
IsAffine-Run starts a = a
IsAffine-Run (follows r e) a = Event-IsAffine e (IsAffine-Run r a)

new_dispatcher-IsAffine : (n : ℕ) → 0 < n → IsAffine (new_dispatcher n)
unfolding new_dispatcher
new_dispatcher-IsAffine n h = record { some_worker = h; bounded = λ conn w e. cc; sent = λ w. tt }

-- With one worker or more, and however connections open, send and close: the worker of each
-- connection exists, and the channel of a worker holds messages of its own connections only. A
-- connection that opens has not been open before.
pub Run-IsAffine :
    (worker_num : ℕ) (d : Dispatcher)
    → 0 < worker_num
    → Run (new_dispatcher worker_num) d
    → IsAffine d
Run-IsAffine worker_num d h r = IsAffine-Run r (new_dispatcher-IsAffine worker_num h)
