-- ===== src/Destination/HttpProxy/Progress.antt =====
-- client/forwarder.go over the parser of client/destination/http_proxy.go: the client's loop ends.
use gforward.Prelude.{
  ℕ, ◌<◌, ◌≤◌, ◌≡◌, ◌≢◌, refl, true, false, Option, none, some, List, length, ltb, ok, err, arith,
  Bool-cases, inl, inr, str_eq,
}
use gforward.Protocol.{InternalPacket}
use gforward.Destination.Parser.{IsGnet, ParseResult, ParseEnd}
use gforward.Destination.HttpProxy.{
  HttpEnv, ReadEnd, read, short, malformed, RequestState, States, Taken, ended, waits_for_more,
  tunnels_to, continue_body, start_body, on_read, on_state, parse_http_proxy, clear_http_proxy,
  max_payload_len, connect_name, ack, HttpRequest,
}
use gforward.Destination.HttpProxy.Bounds.{IsReader, discard-length}
use gforward.Client.Forwarder.{Setup, Forwarder, on_traffic, stuck}
use gforward.Client.Forwarder.Raw.{raw_decodes}
use gforward.Client.Forwarder.Traffic.{IsConsuming, on_traffic-ne-stuck}

-- The client in the proxy mode.
abbrev pub proxy_setup : HttpEnv → InternalPacket → List ℕ → Setup States
proxy_setup env proto server_addr = record {
  gnet = env.gnet;
  parser = record {
    parse = parse_http_proxy env;
    clear = some clear_http_proxy;
    encode_payload = none;
  };
  proto = proto;
  server_addr = server_addr;
}

-- The buffer does not grow, and no payload is decoded.
record Keeps (buf : List ℕ) (e : ParseEnd States) : Type 0 where
  shrinks : length e.buffer ≤ length buf
  raw : (r : ParseResult) → e.result ≡ some r → r.payload ≡ none

failed-Keeps : (m : States) (buf : List ℕ) → Keeps buf (ended m buf none)
failed-Keeps m buf = record { shrinks = omega arith; raw = λ r e. cc }

ended-Keeps :
    (m : States) (buf : List ℕ) (x : ParseResult)
    → x.payload ≡ none
    → Keeps buf (ended m buf (some x))
ended-Keeps m buf x h = record { shrinks = omega arith; raw = λ r e. raw_decodes (some x) r h e }

continue_body-Keeps :
    (m : States) (conn : ℕ) (buf : List ℕ) (r : Taken) → Keeps buf (continue_body m conn buf r)
continue_body-Keeps m conn buf (err e) = failed-Keeps _ buf
continue_body-Keeps m conn buf (ok (s, n, finished)) = ended-Keeps _ buf _ refl

start_body-Keeps :
    (m : States) (conn : ℕ) (buf : List ℕ) (k : ℕ) (r : Taken)
    → Keeps buf (start_body m conn buf k r)
start_body-Keeps m conn buf k (err e) = failed-Keeps m buf
start_body-Keeps m conn buf k (ok (s, n, true)) = ended-Keeps m buf _ refl
start_body-Keeps m conn buf k (ok (s, n, false)) = ended-Keeps _ buf _ refl

on_read-Keeps :
    (env : HttpEnv) (m : States) (conn : ℕ) (buf : List ℕ) (o : ReadEnd)
    → IsGnet env.gnet
    → ((req : HttpRequest) (k : ℕ) → o ≡ read req k → (0 < k) × (k ≤ length buf))
    → Keeps buf (on_read env m conn buf o)
on_read-Keeps env m conn buf short laws law = ended-Keeps m buf waits_for_more refl
on_read-Keeps env m conn buf malformed laws law = failed-Keeps m buf
on_read-Keeps env m conn buf (read req k) laws law = elim (Bool-cases (ltb max_payload_len k)) [
  | inl large ↦ rw large (failed-Keeps m buf)
  | inr small ↦ rw small (elim (Bool-cases (str_eq req.method connect_name)) [
    | inr other ↦ rw other (start_body-Keeps m conn buf k _)
    | inl connects ↦ rw connects (elim (Bool-cases (env.write_ok conn (ack req.proto))) [
      | inl acked ↦
          let (lo, fits) = law req k refl in
          rw acked (record {
            shrinks = discard-length env buf k laws lo fits;
            raw = λ r e. raw_decodes (some (tunnels_to _)) r refl e;
          })
      | inr broken ↦ rw broken (failed-Keeps m buf)
    ])
  ])
]

on_state-Keeps :
    (env : HttpEnv) (m : States) (conn : ℕ) (buf : List ℕ) (o : Option RequestState)
    → IsGnet env.gnet
    → IsReader env
    → Keeps buf (on_state env m conn buf o)
on_state-Keeps env m conn buf none laws law =
    on_read-Keeps env m conn buf (env.read_request buf) laws (law buf)
on_state-Keeps env m conn buf (some s) laws law = continue_body-Keeps m conn buf _

parse_http_proxy-Keeps :
    (env : HttpEnv) (m : States) (conn : ℕ) (buf : List ℕ)
    → IsGnet env.gnet
    → IsReader env
    → Keeps buf (parse_http_proxy env m conn buf)
unfolding parse_http_proxy
parse_http_proxy-Keeps env m conn buf laws law =
    rw (laws.peek_all buf) (on_state-Keeps env m conn buf (m conn) laws law)

pub proxy_setup-IsConsuming :
    (env : HttpEnv) (proto : InternalPacket) (server_addr : List ℕ)
    → IsGnet env.gnet
    → IsReader env
    → IsConsuming (proxy_setup env proto server_addr)
proxy_setup-IsConsuming env proto server_addr laws law = record {
  gnet_laws = laws;
  shrinks = λ m conn buf. (parse_http_proxy-Keeps env m conn buf laws law).shrinks;
  decodes =
      λ m conn buf r e has. absurd (has ((parse_http_proxy-Keeps env m conn buf laws law).raw r e));
}

-- In the proxy mode the client's `OnTraffic` returns on every buffer and in every state, if gnet's
-- buffer behaves as documented and `http.ReadRequest` reads some bytes and no more than there are.
pub on_traffic-parse_http_proxy :
    (env : HttpEnv) (proto : InternalPacket) (server_addr : List ℕ) (f : Forwarder States)
    (conn : ℕ) (buf : List ℕ)
    → IsGnet env.gnet
    → IsReader env
    → (on_traffic (proxy_setup env proto server_addr) f conn buf).action ≢ stuck
on_traffic-parse_http_proxy env proto server_addr f conn buf laws law =
    on_traffic-ne-stuck (proxy_setup env proto server_addr) f conn buf
      (proxy_setup-IsConsuming env proto server_addr laws law)
