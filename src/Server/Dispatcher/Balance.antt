-- ===== src/Server/Dispatcher/Balance.antt =====
-- The turns in which server/dispatcher.go gives new connections to its workers.
use gforward.Prelude.{
  ℕ, ◌+◌, ◌%◌, ◌^◌, ◌<◌, ◌≡◌, refl, ap, ◌∙◌, some, List, [], ◌∷◌, length, arith, ==_refl,
}
use gforward.Server.Dispatcher.{Dispatcher, on_open, less_one, add_one}

-- Connections that open one behind the other.
abbrev pub open_all : Dispatcher → List ℕ → Dispatcher
open_all d [] = d
open_all d (conn ∷ conns) = open_all (on_open d conn) conns

less_one-add_one : (n : ℕ) → n < 2 ^ 64 → less_one (add_one n) ≡ n
less_one-add_one n h = omega arith

add_one_small : (n : ℕ) → n + 1 < 2 ^ 64 → add_one n ≡ n + 1
add_one_small n h = omega arith

open_all-index :
    (conns : List ℕ) (d : Dispatcher)
    → d.next_worker_index + length conns < 2 ^ 64
    → ((open_all d conns).next_worker_index ≡ d.next_worker_index + length conns)
      × ((open_all d conns).workers ≡ d.workers)
unfolding on_open
open_all-index [] d h = (omega arith, refl)
open_all-index (conn ∷ conns) d h =
    let one = add_one_small d.next_worker_index (omega arith) in
    let (index, same) =
      open_all-index conns (on_open d conn) (unfold on_open in omega (arith, one)) in
    (index ∙ ap (λ k. k + length conns) one ∙ omega arith, same)

-- Behind any connections that open one behind the other, the next one gets the worker whose turn it
-- is: the counter and the number of these connections, modulo the number of workers. It holds until
-- the counter of connections reaches 2 ^ 64.
pub on_open-open_all :
    (d : Dispatcher) (before : List ℕ) (conn : ℕ)
    → d.next_worker_index + length before < 2 ^ 64
    → (on_open (open_all d before) conn).worker_of conn
      ≡ some ((d.next_worker_index + length before) % d.workers)
unfolding on_open
on_open-open_all d before conn h =
    let (index, same) = open_all-index before d h in
    let turn = less_one-add_one (d.next_worker_index + length before) h in
    rw (==_refl conn, index, same, turn) refl
