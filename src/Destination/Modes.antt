-- ===== src/Destination/Modes.antt =====
-- client/forwarder.go over each parser of client/destination/: the client's loop ends in every mode.
use gforward.Prelude.{ℕ, ◌≡◌, ◌≢◌, refl, err, Option, none, some, List, [], arith}
use gforward.Protocol.{InternalPacket}
use gforward.Destination.Parser.{Gnet, IsGnet, Parser, ParseResult, ParseEnd}
use gforward.Destination.HttpProxy.{ReadEnd, read, short, malformed, HttpEnv, States}
use gforward.Destination.HttpProxy.Bounds.{IsReader}
use gforward.Destination.HttpProxy.Progress.{proxy_setup, proxy_setup-IsConsuming}
use gforward.Destination.Http.{parse_http, on_peeked, on_request}
use gforward.Destination.Https.{
  parse_https, sniff_result, sniff, Sniffed, rejects, waits, names, out_of_fuel,
}
use gforward.Destination.Socks5.{ConnStates, Socks5Env, parse_socks5, socks5_loop, clear_socks5}
use gforward.Destination.Shadowsocks.Conns.{SsEnv, SsParser}
use gforward.Destination.Shadowsocks.Progress.{shadowsocks_setup, shadowsocks_setup-IsConsuming}
use gforward.Client.Forwarder.{Setup, Forwarder, on_traffic, stuck}
use gforward.Client.Forwarder.Raw.{IsRaw, raw-IsConsuming}
use gforward.Destination.Socks5.Progress.{parse_socks5-Calm, socks5_loop-ends}
use gforward.Destination.Https.Loop.{sniff-ne-out_of_fuel}
use gforward.Destination.Chunked
use gforward.Destination.Chunked.{ChunkedState, consume_chunked}
use gforward.Destination.Chunked.Bytewise.{IsActive}
use gforward.Destination.Chunked.Agreement.{consume_chunked-run}
use gforward.Destination.Shadowsocks
use gforward.Destination.Shadowsocks.{SsState, decrypt, max_decoded_payload}
use gforward.Destination.Shadowsocks.Limits.{decrypt-ne-out_of_fuel}
use gforward.Client.Forwarder.Traffic.{on_traffic-ne-stuck}

-- The client with a parser.
abbrev setup_of : {P : Type 0} → Gnet → Parser P → InternalPacket → List ℕ → Setup P
setup_of g parser proto server_addr = record {
  gnet = g;
  parser = parser;
  proto = proto;
  server_addr = server_addr;
}

-- A parser that keeps no state and leaves the buffer alone.
abbrev stateless : (List ℕ → Option ParseResult) → Parser Unit
stateless parse = record {
  parse = λ s conn buf. record { state = tt; buffer = buf; written = []; result = parse buf };
  clear = none;
  encode_payload = none;
}

abbrev pub http_setup : Gnet → (List ℕ → ReadEnd) → InternalPacket → List ℕ → Setup Unit
http_setup g read_request = setup_of g (stateless (parse_http g read_request))

abbrev shown_https : Option (List ℕ) → Option ParseResult
shown_https none = none
shown_https (some buf) = parse_https buf

abbrev pub https_setup : Gnet → InternalPacket → List ℕ → Setup Unit
https_setup g = setup_of g (stateless (λ buf. shown_https (g.peek buf 0)))

abbrev pub socks5_setup : Socks5Env → InternalPacket → List ℕ → Setup ConnStates
socks5_setup env =
    setup_of env.gnet
      (record { parse = parse_socks5 env; clear = some clear_socks5; encode_payload = none })

parse_http-IsRaw :
    (g : Gnet) (read_request : List ℕ → ReadEnd) (buf : List ℕ)
    → IsRaw (parse_http g read_request buf)
unfolding parse_http
parse_http-IsRaw g read_request buf = of_peek (g.peek buf 0)
  where
    of_read : (o : ReadEnd) → IsRaw (on_request o)
    of_read (read req n) = refl
    of_read short = refl
    of_read malformed = tt

    of_peek : (o : Option (List ℕ)) → IsRaw (on_peeked read_request o)
    of_peek none = tt
    of_peek (some b) = of_read (read_request b)

shown_https-IsRaw : (o : Option (List ℕ)) → IsRaw (shown_https o)
unfolding parse_https
shown_https-IsRaw none = tt
shown_https-IsRaw (some buf) = of_sniff (sniff buf)
  where
    of_sniff : (s : Sniffed) → IsRaw (sniff_result s)
    of_sniff rejects = tt
    of_sniff out_of_fuel = tt
    of_sniff waits = refl
    of_sniff (names host) = refl

-- In every mode the client's `OnTraffic` returns, on every buffer and in every state, if gnet's
-- buffer behaves as documented and, in the proxy mode, `http.ReadRequest` reads some bytes and no
-- more than there are. And the loops inside the parsers end as well: those over the extensions of a
-- TLS hello, over the pieces of a chunked body (from a state whose data phase has data to come) and
-- over the chunks of a Shadowsocks stream never use up their fuel, whatever the cryptography does,
-- and the answer of the SOCKS5 loop does not depend on what it would answer without fuel.
pub on_traffic-every_mode :
    (proto : InternalPacket) (server_addr : List ℕ) (conn : ℕ) (buf : List ℕ) (env : HttpEnv)
    (socks5_env : Socks5Env) (ss_env : SsEnv) (plain : Forwarder Unit) (states : Forwarder States)
    (conn_states : Forwarder ConnStates) (ss : Forwarder SsParser) (out out' : ParseEnd ConnStates)
    (chunked : ChunkedState) (dec : SsState)
    → IsGnet env.gnet
    → IsReader env
    → IsGnet socks5_env.gnet
    → IsGnet ss_env.gnet
    → IsActive chunked
    → ((on_traffic (http_setup env.gnet env.read_request proto server_addr) plain conn buf).action
        ≢ stuck)
      × ((on_traffic (https_setup env.gnet proto server_addr) plain conn buf).action ≢ stuck)
      × ((on_traffic (proxy_setup env proto server_addr) states conn buf).action ≢ stuck)
      × ((on_traffic (socks5_setup socks5_env proto server_addr) conn_states conn buf).action
          ≢ stuck)
      × ((on_traffic (shadowsocks_setup ss_env proto server_addr) ss conn buf).action ≢ stuck)
      × (sniff buf ≢ out_of_fuel)
      × (consume_chunked chunked buf ≢ err Chunked.out_of_fuel)
      × (decrypt ss_env.crypto ss_env.cipher dec buf max_decoded_payload
          ≢ err Shadowsocks.out_of_fuel)
      × (socks5_loop 2 out socks5_env conn conn_states.parser_state buf
          ≡ socks5_loop 2 out' socks5_env conn conn_states.parser_state buf)
on_traffic-every_mode proto server_addr conn buf env socks5_env ss_env plain states conn_states ss
      out out' chunked dec laws reader laws' laws'' active =
    (
      on_traffic-ne-stuck (http_setup env.gnet env.read_request proto server_addr) plain conn buf (
          raw-IsConsuming (http_setup env.gnet env.read_request proto server_addr) laws
            (λ p c b. (omega arith, parse_http-IsRaw env.gnet env.read_request b))),
      on_traffic-ne-stuck (https_setup env.gnet proto server_addr) plain conn buf (
          raw-IsConsuming (https_setup env.gnet proto server_addr) laws
            (λ p c b. (omega arith, shown_https-IsRaw (env.gnet.peek b 0)))),
      on_traffic-ne-stuck (proxy_setup env proto server_addr) states conn buf
          (proxy_setup-IsConsuming env proto server_addr laws reader),
      on_traffic-ne-stuck (socks5_setup socks5_env proto server_addr) conn_states conn buf (
          raw-IsConsuming (socks5_setup socks5_env proto server_addr) laws'
            (λ p c b. parse_socks5-Calm socks5_env c p b laws')),
      on_traffic-ne-stuck (shadowsocks_setup ss_env proto server_addr) ss conn buf
          (shadowsocks_setup-IsConsuming ss_env proto server_addr laws''),
      sniff-ne-out_of_fuel buf,
      (consume_chunked-run chunked buf active).1,
      decrypt-ne-out_of_fuel ss_env.crypto ss_env.cipher dec buf max_decoded_payload (omega arith),
      socks5_loop-ends socks5_env conn out out' conn_states.parser_state buf,
    )
