-- ===== src/Destination/Socks5.antt =====
-- client/destination/socks5.go: the handshake of SOCKS5. gnet, `conn.Write` and the readers and
-- replies of github.com/txthinking/socks5 are parameters; the numbers are those of RFC 1928.
pub mod Handshakes
pub mod Progress
mod Runs
use gforward.Prelude.{
  ℕ, zero, suc, ◌+◌, Bool, true, false, not, ◌||◌, Option, none, some, List, [], ◌∷◌, ◌++◌, length,
  take, get_or, ltb, leb, ◌==◌, if◌then◌else◌, insert, delete,
}
use gforward.Destination.Parser.{Gnet, ParseResult, ParseEnd, parse_need_more_data, parse_done}

pub data ConnState : Type 0 where
  conn_init conn_negotiated conn_connected : ConnState

abbrev pub ConnStates : Type 0
ConnStates = ℕ → Option ConnState

-- The fields of `socks5.Request` that are read, and its `Address()`.
pub record Socks5Request : Type 0 where
  pub cmd : ℕ
  pub atyp : ℕ
  pub address : List ℕ

-- `NewNegotiationRequestFrom` gives the methods, and `NewRequestFrom` the request, or an error; the
-- replies are given by their code, and by their address type; `write_ok` says whether a write to
-- the connection succeeds.
pub record Socks5Env : Type 0 where
  pub gnet : Gnet
  pub negotiation_from : List ℕ → Option (List ℕ)
  pub request_from : List ℕ → Option Socks5Request
  pub negotiation_reply : ℕ → List ℕ
  pub reply : ℕ → ℕ → List ℕ
  pub write_ok : ℕ → List ℕ → Bool

-- `packetLen` and `complete`; none is an error.
abbrev pub PacketLen : Type 0
PacketLen = Option (ℕ × Bool)

abbrev pub incomplete : PacketLen
incomplete = some (0, false)

abbrev pub complete_at : ℕ → List ℕ → PacketLen
complete_at n buf = some (n, leb n (length buf))

unfoldable pub negotiation_packet_len : List ℕ → PacketLen
negotiation_packet_len buf =
    if ltb (length buf) 2
    then incomplete
    else if not (get_or buf 0 0 == 5)
    then none
    else if get_or buf 1 0 == 0
    then none
    else complete_at (2 + get_or buf 1 0) buf

-- The switch on the address type: IPv4, IPv6, a domain name.
abbrev pub request_len : List ℕ → ℕ → PacketLen
request_len buf atyp =
    if atyp == 1
    then complete_at (4 + 4 + 2) buf
    else if atyp == 4
    then complete_at (4 + 16 + 2) buf
    else if not (atyp == 3)
    then none
    else if ltb (length buf) 5
    then incomplete
    else if get_or buf 4 0 == 0
    then none
    else complete_at (5 + get_or buf 4 0 + 2) buf

unfoldable pub request_packet_len : List ℕ → PacketLen
request_packet_len buf =
    if ltb (length buf) 4
    then incomplete
    else if not (get_or buf 0 0 == 5)
    then none
    else request_len buf (get_or buf 3 0)

-- What a handler wrote, and its answer; none is an error.
abbrev pub Answer : Type 0 → Type 0
Answer A = List (List ℕ) × Option A

-- One write, then the answer if it succeeded. Every write is recorded.
abbrev pub answer : {A : Type 0} → Socks5Env → ℕ → List ℕ → Option A → Answer A
answer env conn bytes r = (bytes ∷ [], if env.write_ok conn bytes then r else none)

abbrev pub has_method : ℕ → List ℕ → Bool
has_method m [] = false
has_method m (x ∷ xs) = x == m || has_method m xs

abbrev pub on_methods : Socks5Env → ℕ → Option (List ℕ) → Answer Unit
on_methods env conn none = ([], none)
on_methods env conn (some methods) =
    if has_method 0 methods
    then answer env conn (env.negotiation_reply 0) (some tt)
    else answer env conn (env.negotiation_reply 255) none

unfoldable pub handle_negotiation_request : Socks5Env → ℕ → List ℕ → Answer Unit
handle_negotiation_request env conn buf = on_methods env conn (env.negotiation_from buf)

abbrev pub on_request : Socks5Env → ℕ → Option Socks5Request → Answer (List ℕ)
on_request env conn none = ([], none)
on_request env conn (some req) =
    if req.cmd == 1
    then answer env conn (env.reply 0 1) (some req.address)
    else answer env conn (env.reply 7 (if req.atyp == 1 || req.atyp == 3 then 1 else 4)) none

unfoldable pub handle_request : Socks5Env → ℕ → List ℕ → Answer (List ℕ)
handle_request env conn buf = on_request env conn (env.request_from buf)

abbrev pub result_for : List ℕ → ParseResult
result_for dest = record {
  status = parse_done;
  destination = dest;
  per_request = false;
  payload_len = 0;
  payload = none;
}

abbrev pub need_more : ParseResult
need_more = record {
  status = parse_need_more_data;
  destination = [];
  per_request = false;
  payload_len = 0;
  payload = none;
}

abbrev pub ends : ConnStates → List ℕ → List (List ℕ) → Option ParseResult → ParseEnd ConnStates
ends m buf written r = record { state = m; buffer = buf; written = written; result = r }

-- `reject`
abbrev pub reject : ConnStates → ℕ → List ℕ → List (List ℕ) → ParseEnd ConnStates
reject m conn buf written = ends (delete conn m) buf written none

abbrev pub on_negotiated :
    Socks5Env
    → ConnStates
    → ℕ
    → List ℕ
    → ℕ
    → Answer Unit
    → (ConnStates → List ℕ → ParseEnd ConnStates)
    → ParseEnd ConnStates
on_negotiated env m conn buf n (written, none) again = reject m conn buf written
on_negotiated env m conn buf n (written, some u) again =
    let e = again (insert conn conn_negotiated m) (env.gnet.discard buf n) in
    record e { written = written ++ e.written }

abbrev pub on_connected :
    Socks5Env → ConnStates → ℕ → List ℕ → ℕ → Answer (List ℕ) → ParseEnd ConnStates
on_connected env m conn buf n (written, none) = reject m conn buf written
on_connected env m conn buf n (written, some dest) =
    ends (insert conn conn_connected m) (env.gnet.discard buf n) written (some (result_for dest))

abbrev pub in_init :
    Socks5Env
    → ConnStates
    → ℕ
    → List ℕ
    → PacketLen
    → (ConnStates → List ℕ → ParseEnd ConnStates)
    → ParseEnd ConnStates
in_init env m conn buf none again = reject m conn buf []
in_init env m conn buf (some (n, false)) again = ends m buf [] (some need_more)
in_init env m conn buf (some (n, true)) again =
    on_negotiated env m conn buf n (handle_negotiation_request env conn (take n buf)) again

abbrev pub in_negotiated : Socks5Env → ConnStates → ℕ → List ℕ → PacketLen → ParseEnd ConnStates
in_negotiated env m conn buf none = reject m conn buf []
in_negotiated env m conn buf (some (n, false)) = ends m buf [] (some need_more)
in_negotiated env m conn buf (some (n, true)) =
    on_connected env m conn buf n (handle_request env conn (take n buf))

-- `getConnState` stores the first state of a connection.
abbrev pub in_state :
    Socks5Env
    → ConnStates
    → ℕ
    → List ℕ
    → Option ConnState
    → (ConnStates → List ℕ → ParseEnd ConnStates)
    → ParseEnd ConnStates
in_state env m conn buf none again =
    in_init env (insert conn conn_init m) conn buf (negotiation_packet_len buf) again
in_state env m conn buf (some conn_init) again =
    in_init env m conn buf (negotiation_packet_len buf) again
in_state env m conn buf (some conn_negotiated) again =
    in_negotiated env m conn buf (request_packet_len buf)
in_state env m conn buf (some conn_connected) again = reject m conn buf []

abbrev pub on_peek :
    Socks5Env
    → ConnStates
    → ℕ
    → List ℕ
    → Option (List ℕ)
    → (ConnStates → List ℕ → ParseEnd ConnStates)
    → ParseEnd ConnStates
on_peek env m conn buffer none again = reject m conn buffer []
on_peek env m conn buffer (some buf) again = in_state env m conn buf (m conn) again

-- The loop of `Parse`, one round for each unit of fuel; `out` is the answer without fuel.
unfoldable pub socks5_loop :
    ℕ → ParseEnd ConnStates → Socks5Env → ℕ → ConnStates → List ℕ → ParseEnd ConnStates
socks5_loop zero out env conn m buf = out
socks5_loop (suc fuel) out env conn m buf =
    on_peek env m conn buf (env.gnet.peek buf 0) (socks5_loop fuel out env conn)

-- Only the first state goes round again, so two rounds are enough.
unfoldable pub parse_socks5 : Socks5Env → ConnStates → ℕ → List ℕ → ParseEnd ConnStates
parse_socks5 env m conn buf = socks5_loop 2 (reject m conn buf []) env conn m buf

unfoldable pub clear_socks5 : ConnStates → ℕ → ConnStates
clear_socks5 m conn = delete conn m
