-- ===== src/Destination/Https.antt =====
-- client/destination/https.go: the server name in a TLS ClientHello. The parser reads the buffer
-- and changes nothing, so it is a function of the bytes.
pub mod Names
pub mod Hellos
pub mod Stability
pub mod Loop
mod Runs
use gforward.Prelude.{
  ℕ, zero, suc, ◌+◌, ◌-◌, ◌*◌, false, not, Option, none, some, List, [], ◌∷◌, length, take, drop,
  get_or, be_u16, ltb, ◌==◌, if◌then◌else◌,
}
use gforward.Destination.Parser.{ParseResult, parse_need_more_data, parse_done}
use gforward.Destination.Hosts.{extract_dest_with_port}

-- What is known of the server name; a rejection is an error.
pub data Sniffed : Type 0 where
  waits rejects out_of_fuel : Sniffed
  names : List ℕ → Sniffed

-- The server name extension at the start of `rest`, and `again` for the extensions behind it.
abbrev pub server_name : List ℕ → ℕ → Sniffed → Sniffed
server_name rest extension_len again =
    if ltb extension_len 5
    then rejects
    else if not (get_or rest 6 0 == 0)
    then again
    else if ltb (4 + extension_len) (9 + be_u16 rest 7)
    then rejects
    else names (take (be_u16 rest 7) (drop 9 rest))

-- The loop over the extensions, `rest` for `hsBuf[pos:]`.
unfoldable pub find_name : ℕ → List ℕ → Sniffed
find_name fuel [] = rejects
find_name zero (x ∷ xs) = out_of_fuel
find_name (suc fuel) (x ∷ xs) =
    let rest = x ∷ xs in
    let extension_len : ℕ = be_u16 rest 2 in
    let again = find_name fuel (drop (4 + extension_len) rest) in
    if ltb (length rest) 4
    then rejects
    else if ltb (length rest) (4 + extension_len)
    then rejects
    else if be_u16 rest 0 == 0
    then server_name rest extension_len again
    else again

-- The extensions of a hello; a round of the loop takes four bytes at least.
unfoldable pub in_extensions : List ℕ → ℕ → Sniffed
in_extensions hs len_pos =
    if ltb (length hs) (len_pos + 2)
    then rejects
    else if not (length hs - (len_pos + 2) == be_u16 hs len_pos)
    then rejects
    else find_name (length hs) (drop (len_pos + 2) hs)

-- The part behind the session id, of `sid` bytes.
unfoldable pub behind_session_id : List ℕ → ℕ → Sniffed
behind_session_id hs sid =
    if ltb (length hs) (37 + sid)
    then rejects
    else let suites : ℕ = be_u16 hs (35 + sid) in
      if ltb (length hs) (38 + sid + suites)
      then rejects
      else in_extensions hs (38 + sid + suites + get_or hs (37 + sid + suites) 0)

unfoldable pub client_hello : List ℕ → Sniffed
client_hello hs = if ltb (length hs) 35 then rejects else behind_session_id hs (get_or hs 34 0)

abbrev pub be_u24 : List ℕ → ℕ → ℕ
be_u24 buf i = (get_or buf i 0 * 256 + get_or buf (i + 1) 0) * 256 + get_or buf (i + 2) 0

unfoldable pub sniff : List ℕ → Sniffed
sniff buf =
    if length buf == 0
    then waits
    else if not (get_or buf 0 0 == 22)
    then rejects
    else if ltb (length buf) 5
    then waits
    else if not (get_or buf 1 0 == 3)
    then rejects
    else if ltb (length buf) 6
    then waits
    else if not (get_or buf 5 0 == 1)
    then rejects
    else if ltb (length buf) 9
    then waits
    else if ltb (length buf) (9 + be_u24 buf 6)
    then waits
    else client_hello (take (be_u24 buf 6) (drop 9 buf))

abbrev pub sniff_result : Sniffed → Option ParseResult
sniff_result rejects = none
sniff_result out_of_fuel = none
sniff_result waits = some (record {
  status = parse_need_more_data;
  destination = [];
  per_request = false;
  payload_len = 0;
  payload = none;
})
sniff_result (names host) = some (record {
  status = parse_done;
  destination = extract_dest_with_port host 443;
  per_request = false;
  payload_len = 0;
  payload = none;
})

-- The result of `Parse` on the buffered bytes; none is an error.
unfoldable pub parse_https : List ℕ → Option ParseResult
parse_https buf = sniff_result (sniff buf)
