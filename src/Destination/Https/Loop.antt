-- ===== src/Destination/Https/Loop.antt =====
-- The loop over the extensions in client/destination/https.go ends.
use gforward.Prelude.{
  ℕ, zero, suc, ◌+◌, ◌≤◌, ◌≢◌, Bool, true, false, if◌then◌else◌, List, [], ◌∷◌, length, take, drop,
  ltb, ◌==◌, get_or, be_u16, arith, length-drop,
}
use gforward.Destination.Https.{
  Sniffed, rejects, out_of_fuel, server_name, find_name, in_extensions, behind_session_id,
  client_hello, be_u24, sniff,
}

server_name-ne-out_of_fuel :
    (rest : List ℕ) (n : ℕ) (again : Sniffed)
    → again ≢ out_of_fuel
    → server_name rest n again ≢ out_of_fuel
server_name-ne-out_of_fuel rest n again h e = ground (arith, h, e)

round-ne-out_of_fuel :
    (a b c : Bool) (named again : Sniffed)
    → named ≢ out_of_fuel
    → again ≢ out_of_fuel
    → (if a then rejects else if b then rejects else if c then named else again) ≢ out_of_fuel
round-ne-out_of_fuel true b c named again h k e = cc
round-ne-out_of_fuel false true c named again h k e = cc
round-ne-out_of_fuel false false true named again h k e = h e
round-ne-out_of_fuel false false false named again h k e = k e

-- A round takes four bytes at least.
find_name-ne-out_of_fuel :
    (fuel : ℕ) (rest : List ℕ) → length rest ≤ fuel → find_name fuel rest ≢ out_of_fuel
unfolding find_name
find_name-ne-out_of_fuel zero [] h e = cc
find_name-ne-out_of_fuel (suc fuel) [] h e = cc
find_name-ne-out_of_fuel zero (x ∷ xs) h e = absurd (omega (arith, h))
find_name-ne-out_of_fuel (suc fuel) (x ∷ xs) h e =
    let n : ℕ = be_u16 (x ∷ xs) 2 in
    let later = drop (4 + n) (x ∷ xs) in
    let less : length later ≤ fuel = omega (arith, h, length-drop (4 + n) (x ∷ xs)) in
    let ih = find_name-ne-out_of_fuel fuel later less in
    let named = server_name-ne-out_of_fuel (x ∷ xs) n (find_name fuel later) ih in
    round-ne-out_of_fuel (ltb (length (x ∷ xs)) 4) (ltb (length (x ∷ xs)) (4 + n))
      (be_u16 (x ∷ xs) 0 == 0) (server_name (x ∷ xs) n (find_name fuel later))
      (find_name fuel later) named ih e

in_extensions-ne-out_of_fuel : (hs : List ℕ) (n : ℕ) → in_extensions hs n ≢ out_of_fuel
unfolding in_extensions
in_extensions-ne-out_of_fuel hs n e =
    let le : length (drop (n + 2) hs) ≤ length hs = omega (arith, length-drop (n + 2) hs) in
    let found = find_name-ne-out_of_fuel (length hs) (drop (n + 2) hs) le in
    ground (arith, found, e)

behind_session_id-ne-out_of_fuel : (hs : List ℕ) (n : ℕ) → behind_session_id hs n ≢ out_of_fuel
unfolding behind_session_id
behind_session_id-ne-out_of_fuel hs n e =
    let suites : ℕ = be_u16 hs (35 + n) in
    let found = in_extensions-ne-out_of_fuel hs (38 + n + suites + get_or hs (37 + n + suites) 0) in
    ground (arith, found, e)

client_hello-ne-out_of_fuel : (hs : List ℕ) → client_hello hs ≢ out_of_fuel
unfolding client_hello
client_hello-ne-out_of_fuel hs e =
    let found = behind_session_id-ne-out_of_fuel hs (get_or hs 34 0) in ground (arith, found, e)

pub sniff-ne-out_of_fuel : (buf : List ℕ) → sniff buf ≢ out_of_fuel
unfolding sniff
sniff-ne-out_of_fuel buf e =
    let found = client_hello-ne-out_of_fuel (take (be_u24 buf 6) (drop 9 buf)) in
    ground (arith, found, e)
