-- ===== src/Destination/Http.antt =====
-- client/destination/http.go: the parser for HTTP requests whose host name was answered with the
-- client's own address. `http.ReadRequest` is a parameter, as for the proxy mode.
use gforward.Prelude.{ℕ, false, Option, none, some, List, []}
use gforward.Destination.Parser.{Gnet, ParseResult, parse_need_more_data, parse_done}
use gforward.Destination.HttpProxy.{ReadEnd, read, short, malformed}
use gforward.Destination.Hosts.{extract_dest_with_port}

abbrev pub waits_for_request : ParseResult
waits_for_request = record {
  status = parse_need_more_data;
  destination = [];
  per_request = false;
  payload_len = 0;
  payload = none;
}

abbrev pub request_to : List ℕ → ParseResult
request_to host = record {
  status = parse_done;
  destination = extract_dest_with_port host 80;
  per_request = false;
  payload_len = 0;
  payload = none;
}

abbrev pub on_request : ReadEnd → Option ParseResult
on_request (read req n) = some (request_to req.host)
on_request short = some waits_for_request
on_request malformed = none

abbrev pub on_peeked : (List ℕ → ReadEnd) → Option (List ℕ) → Option ParseResult
on_peeked read_request none = none
on_peeked read_request (some buf) = on_request (read_request buf)

-- The result of `Parse` on the inbound buffer, which it leaves alone; none is an error.
unfoldable pub parse_http : Gnet → (List ℕ → ReadEnd) → List ℕ → Option ParseResult
parse_http g read_request buffer = on_peeked read_request (g.peek buffer 0)
