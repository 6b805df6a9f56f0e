-- ===== src/Destination/HttpProxy.antt =====
-- client/destination/http_proxy.go: the parser of the proxy mode, around the chunked body parser.
-- gnet, `http.ReadRequest` and `conn.Write` are parameters. The map of request states is a function
-- from connections; what `consume` does to a state in the map is written back to it.
pub mod Counts
pub mod Bounds
pub mod Progress
pub mod Lengths
mod Runs
use gforward.Prelude.{
  ℕ, zero, suc, ◌+◌, ◌-◌, ◌<◌, ◌≤◌, ◌≡◌, Bool, true, false, not, Option, none, some, List, [], ◌∷◌,
  ◌++◌, length, take, drop, ltb, ◌==◌, if◌then◌else◌, str_eq, Result, ok, err, insert, delete,
}
use gforward.Destination.Parser.{
  Gnet, ParseResult, ParseEnd, parse_need_more_data, parse_done, parse_rejected,
}
use gforward.Destination.Chunked.{ChunkedState, new_chunked, consume_chunked, Consumed, ChunkError}
use gforward.Destination.Hosts.{extract_dest_with_port, has_chunked_transfer_encoding}

-- The int64 of a length; `negsuc n` is - n - 1.
pub data ℤ : Type 0 where
  pos negsuc : ℕ → ℤ

-- The fields of `http.Request` that the parsers read.
pub record HttpRequest : Type 0 where
  pub method : List ℕ
  pub proto : List ℕ
  pub host : List ℕ
  pub content_length : ℤ
  pub transfer_encoding : List (List ℕ)

-- What `http.ReadRequest` makes of the buffered bytes: a request and the number of bytes it read,
-- the error EOF or unexpected EOF, or another error.
pub data ReadEnd : Type 0 where
  read : HttpRequest → ℕ → ReadEnd
  short malformed : ReadEnd

-- `write_ok` says whether a `conn.Write` succeeds.
pub record HttpEnv : Type 0 where
  pub gnet : Gnet
  pub read_request : List ℕ → ReadEnd
  pub write_ok : ℕ → List ℕ → Bool

pub record RequestState : Type 0 where
  pub destination : List ℕ
  pub remaining : ℤ
  pub chunked : Option ChunkedState

abbrev pub States : Type 0
States = ℕ → Option RequestState

abbrev pub max_payload_len : ℕ
max_payload_len = 65535

abbrev pub Taken : Type 0
Taken = Result ChunkError (RequestState × ℕ × Bool)

abbrev pub on_chunked : RequestState → Consumed → Taken
on_chunked s (err e) = err e
on_chunked s (ok (c, n, ended)) = ok (record s { chunked = some c }, n, ended)

-- A body with `Content-Length`: the count is capped by what remains.
abbrev pub on_length : RequestState → ℤ → List ℕ → Taken
on_length s (negsuc n) buf = ok (s, 0, true)
on_length s (pos zero) buf = ok (s, 0, true)
on_length s (pos (suc n)) buf =
    let len = if ltb (suc n) (length buf) then suc n else length buf in
    ok (record s { remaining = pos (suc n - len) }, len, suc n - len == 0)

abbrev pub consume_in : RequestState → Option ChunkedState → List ℕ → Taken
consume_in s (some c) buf = on_chunked s (consume_chunked c buf)
consume_in s none buf = on_length s s.remaining buf

abbrev pub limited : List ℕ → ℕ → List ℕ
limited buf limit = if ltb limit (length buf) then take limit buf else buf

-- `httpProxyRequestState.consume`
unfoldable pub consume_request : RequestState → List ℕ → ℕ → Taken
consume_request s buf limit = consume_in s s.chunked (limited buf limit)

abbrev pub ended : States → List ℕ → Option ParseResult → ParseEnd States
ended m buf r = record { state = m; buffer = buf; written = []; result = r }

abbrev pub waits_for_more : ParseResult
waits_for_more = record {
  status = parse_need_more_data;
  destination = [];
  per_request = false;
  payload_len = 0;
  payload = none;
}

abbrev pub sends_bytes : List ℕ → ℕ → ParseResult
sends_bytes dest n = record {
  status = parse_done;
  destination = dest;
  per_request = true;
  payload_len = n;
  payload = none;
}

abbrev pub tunnels_to : List ℕ → ParseResult
tunnels_to dest = record {
  status = parse_done;
  destination = dest;
  per_request = false;
  payload_len = 0;
  payload = none;
}

-- The state of a body is kept as long as the body goes on.
abbrev pub keep : States → ℕ → RequestState → Bool → States
keep m conn s true = delete conn m
keep m conn s false = insert conn s m

-- A connection whose request body goes on.
abbrev pub continue_body : States → ℕ → List ℕ → Taken → ParseEnd States
continue_body m conn buf (err e) = ended (delete conn m) buf none
continue_body m conn buf (ok (s, n, finished)) =
    ended (keep m conn s finished) buf (some (sends_bytes s.destination n))

-- The first bytes of a body, behind a header of `header_len` bytes.
abbrev pub start_body : States → ℕ → List ℕ → ℕ → Taken → ParseEnd States
start_body m conn buf header_len (err e) = ended m buf none
start_body m conn buf header_len (ok (s, n, true)) =
    ended m buf (some (sends_bytes s.destination (header_len + n)))
start_body m conn buf header_len (ok (s, n, false)) =
    ended (insert conn s m) buf (some (sends_bytes s.destination (header_len + n)))

abbrev pub new_request : HttpRequest → RequestState
new_request req = record {
  destination = extract_dest_with_port req.host 80;
  remaining = req.content_length;
  chunked = if has_chunked_transfer_encoding req.transfer_encoding then some new_chunked else none;
}

abbrev pub connect_name : List ℕ
connect_name = b'C' ∷ b'O' ∷ b'N' ∷ b'N' ∷ b'E' ∷ b'C' ∷ b'T' ∷ []

-- "%s 200 OK\r\n\r\n"
abbrev pub ack : List ℕ → List ℕ
ack proto = proto ++ (b' ' ∷ b'2' ∷ b'0' ∷ b'0' ∷ b' ' ∷ b'O' ∷ b'K' ∷ 13 ∷ 10 ∷ 13 ∷ 10 ∷ [])

-- A CONNECT request is answered and taken out of the buffer.
abbrev pub connect : HttpEnv → States → ℕ → List ℕ → HttpRequest → ℕ → ParseEnd States
connect env m conn buf req header_len =
    if env.write_ok conn (ack req.proto)
    then record {
      state = m;
      buffer = env.gnet.discard buf header_len;
      written = ack req.proto ∷ [];
      result = some (tunnels_to (extract_dest_with_port req.host 443));
    }
    else ended m buf none

abbrev pub on_read : HttpEnv → States → ℕ → List ℕ → ReadEnd → ParseEnd States
on_read env m conn buf short = ended m buf (some waits_for_more)
on_read env m conn buf malformed = ended m buf none
on_read env m conn buf (read req header_len) =
    if ltb max_payload_len header_len
    then ended m buf none
    else if str_eq req.method connect_name
    then connect env m conn buf req header_len
    else start_body m conn buf header_len
        (consume_request (new_request req) (drop header_len buf) (max_payload_len - header_len))

abbrev pub on_state : HttpEnv → States → ℕ → List ℕ → Option RequestState → ParseEnd States
on_state env m conn buf (some s) = continue_body m conn buf (consume_request s buf max_payload_len)
on_state env m conn buf none = on_read env m conn buf (env.read_request buf)

abbrev pub on_peek : HttpEnv → States → ℕ → List ℕ → Option (List ℕ) → ParseEnd States
on_peek env m conn buffer none = ended m buffer none
on_peek env m conn buffer (some buf) = on_state env m conn buf (m conn)

-- `HTTPProxyParser.Parse`
unfoldable pub parse_http_proxy : HttpEnv → States → ℕ → List ℕ → ParseEnd States
parse_http_proxy env m conn buf = on_peek env m conn buf (env.gnet.peek buf 0)

-- `HTTPProxyParser.Clear`
unfoldable pub clear_http_proxy : States → ℕ → States
clear_http_proxy m conn = delete conn m
