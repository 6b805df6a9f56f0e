-- ===== src/Client/Forwarder.antt =====
-- client/forwarder.go: the state of the client, and `OnTraffic`. A handler returns the new state and
-- the calls that it makes, in order. gnet, the parser of destinations and the dialer are parameters; log entries
-- are left out.
pub mod Traffic
pub mod Raw
pub mod Tunnels
use gforward.Prelude.{
  ℕ, zero, suc, Bool, true, false, not, ◌&&◌, Option, none, some, List, [], ◌∷◌, ◌++◌, length, take,
  ltb, ◌==◌, if◌then◌else◌, Result, ok, err, str_eq, drop, ◌-◌,
}
use gforward.Protocol.{
  InternalPacket, new_packet, set_payload, set_packet_destination, packet_marshal, PacketError,
  get_payload,
}
use gforward.Message.{RecvMsg, recv_data, recv_close, recv_open, recv_dial_error}
use gforward.Destination.Parser.{
  Gnet, ParseStatus, parse_need_more_data, parse_done, parse_rejected, ParseResult, ParseEnd,
  Parser, ParserProto, new_parser,
}
use gforward.Client.Session.{
  SessionTable, new_session_table, UpstreamAction, queued, forward, dial, get_dest, admit_upstream,
  complete_dial, abort_dial, purge_by_user, purge_by_server, get_by_server,
}

pub record DialToken : Type 0 where
  pub user_conn : ℕ
  pub session : ℕ

-- The fields that the handlers change; `P` is the state of the parser.
pub record Forwarder (P : Type 0) : Type 0 where
  pub parser_state : P
  pub sessions : SessionTable

-- The fields that stay: gnet's buffers, `destinationParser`, `internalProtocol`, `serverAddr`.
pub record Setup (P : Type 0) : Type 0 where
  pub gnet : Gnet
  pub parser : Parser P
  pub proto : InternalPacket
  pub server_addr : List ℕ

-- `conn.Write`, `conn.Close()`, `utils.AsyncWrite` without a callback, and `dialer.AsyncDial`.
pub data Effect : Type 0 where
  answers : ℕ → List ℕ → Effect
  closes : ℕ → Effect
  writes : Option ℕ → List ℕ → Effect
  dials : List ℕ → DialToken → Effect

-- `stuck` is no Go value: the loop ran out of fuel.
pub data GnetAction : Type 0 where
  no_action close_conn stuck : GnetAction

pub record Turn (P : Type 0) : Type 0 where
  pub state : Forwarder P
  pub buffer : List ℕ
  pub effects : List Effect
  pub action : GnetAction

-- What is to be sent: `dest`, `cachedDest`, `payloadLen` and `decodedPayload`.
pub record Request : Type 0 where
  pub dest : List ℕ
  pub cached_dest : List ℕ
  pub payload_len : ℕ
  pub decoded : Option (List ℕ)

-- The first half of a round: the handler returns, or it has found where to send data.
pub data Found (P : Type 0) : Type 0 where
  stops : Turn P → Found P
  finds : Forwarder P → List ℕ → List Effect → Request → Found P

-- The suffix that `strings.TrimSuffix` cuts off.
abbrev pub dns_suffix : List ℕ
dns_suffix = b'_' ∷ b'd' ∷ b'n' ∷ b's' ∷ []

-- The protocol of a mode: the name without "_dns" at its end.
unfoldable pub mode_proto : List ℕ → List ℕ
mode_proto mode =
    if not (ltb (length mode) 4) && str_eq (drop (length mode - 4) mode) dns_suffix
    then take (length mode - 4) mode
    else mode

abbrev pub answer_all : ℕ → List (List ℕ) → List Effect
answer_all conn [] = []
answer_all conn (x ∷ xs) = answers conn x ∷ answer_all conn xs

abbrev pub request_of : ParseResult → Request
request_of r = record {
  dest = r.destination;
  cached_dest = if r.per_request then [] else r.destination;
  payload_len = r.payload_len;
  decoded = r.payload;
}

abbrev pub is_none : Option (List ℕ) → Bool
is_none none = true
is_none (some x) = false

abbrev pub cut_to : ℕ → List ℕ → List ℕ
cut_to n payload = if ltb n (length payload) then take n payload else payload

-- `if len(buf) > 65535 { buf = buf[:65535] }`
unfoldable pub cut : List ℕ → List ℕ
cut payload = cut_to 65535 payload

module _ {P : Type 0} where
  abbrev pub turn : Forwarder P → List ℕ → List Effect → GnetAction → Turn P
  turn f buf es action = record { state = f; buffer = buf; effects = es; action = action }

  abbrev pub on_status : Forwarder P → List ℕ → List Effect → ParseResult → ParseStatus → Found P
  on_status f buf es r parse_need_more_data = stops (turn f buf es no_action)
  on_status f buf es r parse_done =
      if length r.destination == 0
      then stops (turn f buf es close_conn)
      else finds f buf es (request_of r)
  on_status f buf es r parse_rejected = stops (turn f buf es close_conn)

  abbrev pub on_result : Forwarder P → List ℕ → List Effect → Option ParseResult → Found P
  on_result f buf es none = stops (turn f buf es close_conn)
  on_result f buf es (some r) = on_status f buf es r r.status

  abbrev pub on_parse_end : Forwarder P → ℕ → ParseEnd P → Found P
  on_parse_end f conn e =
      on_result (record f { parser_state = e.state }) e.buffer (answer_all conn e.written) e.result

  abbrev pub on_dest : Setup P → Forwarder P → ℕ → List ℕ → Option (List ℕ) → Found P
  on_dest env f conn buf none = on_parse_end f conn (env.parser.parse f.parser_state conn buf)
  on_dest env f conn buf (some dest) =
      finds f buf [] (record { dest = dest; cached_dest = []; payload_len = 0; decoded = none })

  unfoldable pub find_dest : Setup P → Forwarder P → ℕ → List ℕ → Found P
  find_dest env f conn buf = on_dest env f conn buf (get_dest f.sessions conn)

  -- `buf` of the handler: the decoded payload, or the bytes that `Peek` shows.
  abbrev pub peek_payload : Setup P → List ℕ → Request → Option (List ℕ) → Option (List ℕ)
  peek_payload env buf req none = env.gnet.peek buf req.payload_len
  peek_payload env buf req (some payload) = some payload

  abbrev pub admitted : Setup P → ℕ → List ℕ → UpstreamAction → List Effect
  admitted env conn bytes queued = []
  admitted env conn bytes (forward server packet s) = writes server bytes ∷ []
  admitted env conn bytes (dial s) =
      dials env.server_addr (record { user_conn = conn; session = s }) ∷ []

  -- The effects of a round come before those of the rounds behind it.
  abbrev pub after : List Effect → Turn P → Turn P
  after es t = record t { effects = es ++ t.effects }

  abbrev pub on_admitted :
      Setup P
      → Forwarder P
      → ℕ
      → List ℕ
      → List Effect
      → List ℕ
      → SessionTable × UpstreamAction
      → (Forwarder P → List ℕ → Turn P)
      → Turn P
  on_admitted env f conn buf es bytes (t, action) again =
      let f' : Forwarder P = record f { sessions = t } in
      let es' = es ++ admitted env conn bytes action in
      let rest = again f' buf in
      if length buf == 0 then turn f' buf es' no_action else after es' rest

  abbrev pub on_marshalled :
      Setup P
      → Forwarder P
      → ℕ
      → List ℕ
      → List Effect
      → Request
      → Result PacketError (List ℕ)
      → (Forwarder P → List ℕ → Turn P)
      → Turn P
  on_marshalled env f conn buf es req (err e) again = turn f buf es no_action
  on_marshalled env f conn buf es req (ok bytes) again =
      on_admitted env f conn buf es bytes (admit_upstream f.sessions conn req.cached_dest bytes)
        again

  -- The packet that carries a payload to a destination.
  abbrev pub packet_for : Setup P → List ℕ → List ℕ → InternalPacket
  packet_for env dest payload =
      set_packet_destination (set_payload (new_packet env.proto) payload) dest

  abbrev pub discarded : Setup P → List ℕ → Request → List ℕ → List ℕ
  discarded env buf req payload =
      if is_none req.decoded then env.gnet.discard buf (length payload) else buf

  abbrev pub on_payload :
      Setup P
      → Forwarder P
      → ℕ
      → List ℕ
      → List Effect
      → Request
      → Option (List ℕ)
      → (Forwarder P → List ℕ → Turn P)
      → Turn P
  on_payload env f conn buf es req none again = turn f buf es close_conn
  on_payload env f conn buf es req (some payload) again =
      if length payload == 0 && (length req.cached_dest == 0 && is_none req.decoded)
      then turn f buf es no_action
      else on_marshalled env f conn (discarded env buf req (cut payload)) es req
          (packet_marshal (packet_for env req.dest (cut payload))) again

  -- The second half of a round.
  abbrev pub on_found : Setup P → ℕ → Found P → (Forwarder P → List ℕ → Turn P) → Turn P
  on_found env conn (stops t) again = t
  on_found env conn (finds f buf es req) again =
      on_payload env f conn buf es req (peek_payload env buf req req.decoded) again

  unfoldable pub traffic_loop : ℕ → Setup P → ℕ → Forwarder P → List ℕ → Turn P
  traffic_loop zero env conn f buf = turn f buf [] stuck
  traffic_loop (suc fuel) env conn f buf =
      on_found env conn (find_dest env f conn buf) (traffic_loop fuel env conn)

  -- `OnTraffic` with the bytes `buf` in the inbound buffer.
  unfoldable pub on_traffic : Setup P → Forwarder P → ℕ → List ℕ → Turn P
  on_traffic env f conn buf = traffic_loop (suc (length buf)) env conn f buf
