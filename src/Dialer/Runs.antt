-- ===== src/Dialer/Runs.antt =====
-- The theorems on network/dialer/ at concrete inputs.
use gforward.Prelude.{ℕ, ◌≡◌, refl, false, some, List, [], ◌∷◌, ok, err, arith, insert, empty_map}
use gforward.Protocol.{packet_type_plain, new_internal_packet}
use gforward.Dialer.{
  Dialer, dial, Step, asks, acquires, dials, delivers, step, run, new_dialer, deliver, result_of,
}
use gforward.Dialer.Slots.{IsBounded, run-IsBounded}
use gforward.Dialer.Draining.{Ends, IsBounded-Ends}
use gforward.Dialer.Relays.{relay, writes_to, relay-writes_to}
use gforward.Server.Session.{SessionTable, new_session_table, get_by_dest}

-- Two dials are asked for; the second one overtakes the first and fails.
abbrev steps : List (Step ℕ)
steps = asks 5 ∷ asks 6 ∷ acquires 0 ∷ acquires 0 ∷ dials 1 (err 1) (λ c. ok c) ∷ delivers 0 ∷ []

abbrev behind_steps : Dialer ℕ
behind_steps = record {
  waiting = [];
  dialing = 5 ∷ [];
  answering = [];
  closed = [];
  recv_chan = [];
  dial_results = result_of 6 (err 1) ∷ [];
}

steps_made : run false new_dialer steps ≡ some behind_steps
unfolding run step dial deliver
steps_made = refl

run-IsBounded_example : IsBounded behind_steps
run-IsBounded_example = run-IsBounded false steps behind_steps steps_made

IsBounded-Ends_example : Ends false behind_steps
IsBounded-Ends_example =
    IsBounded-Ends false behind_steps
      (record { slots = omega arith; msgs = omega arith; results = omega arith })

-- The connection 4 of a target belongs to the client 8.
abbrev table : SessionTable
table = record new_session_table { by_dest = insert 4 8 empty_map }

routed : get_by_dest table 4 ≡ some 8
unfolding get_by_dest
routed = refl

relay-writes_to_example :
    relay (new_internal_packet packet_type_plain) table 4 [] ((b'a' ∷ []) ∷ (b'b' ∷ b'c' ∷ []) ∷ [])
    ≡ (table, writes_to 8 ((b'a' ∷ []) ∷ (b'b' ∷ b'c' ∷ []) ∷ []))
relay-writes_to_example =
    relay-writes_to table 4 8 ((b'a' ∷ []) ∷ (b'b' ∷ b'c' ∷ []) ∷ []) routed
      (omega arith, (omega arith, tt))
