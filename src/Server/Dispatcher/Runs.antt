-- ===== src/Server/Dispatcher/Runs.antt =====
-- The theorems on server/dispatcher.go at concrete inputs.
use gforward.Prelude.{◌+◌, ◌%◌, ◌≡◌, refl, none, some, [], ◌∷◌, arith}
use gforward.Server.Dispatcher.{Dispatcher, new_dispatcher, on_open, on_close}
use gforward.Server.Dispatcher.Affinity.{IsAffine, starts, follows, opens, closes, Run-IsAffine}
use gforward.Server.Dispatcher.Balance.{open_all, on_open-open_all}

abbrev two_workers : Dispatcher
two_workers = new_dispatcher 2

nobody : two_workers.worker_of 7 ≡ none
unfolding new_dispatcher
nobody = refl

Run-IsAffine_example : IsAffine (on_close (on_open two_workers 7) 7)
Run-IsAffine_example =
    Run-IsAffine 2 (on_close (on_open two_workers 7) 7) (omega arith)
      (follows (follows starts (opens 7 nobody)) (closes 7))

index_zero : two_workers.next_worker_index ≡ 0
unfolding new_dispatcher
index_zero = refl

on_open-open_all_example :
    (on_open (open_all two_workers (7 ∷ 8 ∷ 9 ∷ [])) 10).worker_of 10
    ≡ some ((two_workers.next_worker_index + 3) % two_workers.workers)
on_open-open_all_example =
    on_open-open_all two_workers (7 ∷ 8 ∷ 9 ∷ []) 10 (omega (arith, index_zero))
