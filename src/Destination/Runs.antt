-- ===== src/Destination/Runs.antt =====
-- The client's loop over every parser, at concrete inputs.
use gforward.Prelude.{
  ℕ, ◌≡◌, ◌≢◌, err, true, none, some, List, [], ◌∷◌, length, ltb, if◌then◌else◌, arith, empty_map,
  Bool-cases, inl, inr,
}
use gforward.Protocol.{forward, new_forward}
use gforward.Destination.PlainGnet.{plain_gnet, plain_gnet-IsGnet}
use gforward.Destination.HttpProxy.{pos, HttpRequest, ReadEnd, read, short, HttpEnv}
use gforward.Destination.HttpProxy.Bounds.{IsReader}
use gforward.Destination.HttpProxy.Progress.{proxy_setup}
use gforward.Destination.Socks5.{Socks5Env, socks5_loop, ends}
use gforward.Destination.Https.{sniff, out_of_fuel}
use gforward.Destination.Chunked
use gforward.Destination.Chunked.{new_chunked, consume_chunked}
use gforward.Destination.Shadowsocks
use gforward.Destination.Shadowsocks.{zeros, aes_256_gcm, decrypt, fresh_state, max_decoded_payload}
use gforward.Destination.Shadowsocks.Conns.{SsEnv, empty_parser}
use gforward.Destination.Shadowsocks.Progress.{shadowsocks_setup}
use gforward.Destination.Modes.{http_setup, https_setup, socks5_setup, on_traffic-every_mode}
use gforward.Client.Session.{new_session_table}
use gforward.Client.Forwarder.{Forwarder, on_traffic, stuck}

-- A request to the host "a" without a body, behind a header of two bytes.
abbrev get : HttpRequest
get = record {
  method = b'G' ∷ [];
  proto = b'H' ∷ [];
  host = b'a' ∷ [];
  content_length = pos 0;
  transfer_encoding = [];
}

abbrev read_two : List ℕ → ReadEnd
read_two buf = if ltb (length buf) 2 then short else read get 2

abbrev env : HttpEnv
env = record { gnet = plain_gnet; read_request = read_two; write_ok = λ conn bytes. true }

env-IsReader : IsReader env
env-IsReader buf req k e = elim (Bool-cases (ltb (length buf) 2)) [
  | inl few ↦ absurd (ground (arith, e, few))
  | inr enough ↦ ground (arith, e, enough)
]

abbrev socks5_env : Socks5Env
socks5_env = record {
  gnet = plain_gnet;
  negotiation_from = λ buf. some (0 ∷ []);
  request_from = λ buf. none;
  negotiation_reply = λ code. 5 ∷ code ∷ [];
  reply = λ code atyp. 5 ∷ code ∷ 0 ∷ atyp ∷ [];
  write_ok = λ conn bytes. true;
}

abbrev ss_env : SsEnv
ss_env = record {
  gnet = plain_gnet;
  crypto = record {
    md5 = λ bytes. zeros 16;
    hkdf = λ key salt info n. some (zeros n);
    aes_gcm = λ key. none;
    chacha20_poly1305 = λ key. none;
    random = λ draw n. some (zeros n);
  };
  cipher = record { method = aes_256_gcm; master_key = zeros 32; key_len = 32; salt_len = 32 };
}

abbrev client : {P : Type 0} → P → Forwarder P
client p = record { parser_state = p; sessions = new_session_table }

abbrev bytes : List ℕ
bytes = 5 ∷ 1 ∷ 0 ∷ []

on_traffic-every_mode_example :
    ((on_traffic
        (http_setup plain_gnet read_two (forward new_forward) (b's' ∷ []))
        (client tt)
        7
        bytes).action
      ≢ stuck)
    × ((on_traffic
          (https_setup plain_gnet (forward new_forward) (b's' ∷ []))
          (client tt)
          7
          bytes).action
        ≢ stuck)
    × ((on_traffic
          (proxy_setup env (forward new_forward) (b's' ∷ []))
          (client empty_map)
          7
          bytes).action
        ≢ stuck)
    × ((on_traffic
          (socks5_setup socks5_env (forward new_forward) (b's' ∷ []))
          (client empty_map)
          7
          bytes).action
        ≢ stuck)
    × ((on_traffic
          (shadowsocks_setup ss_env (forward new_forward) (b's' ∷ []))
          (client empty_parser)
          7
          bytes).action
        ≢ stuck)
    × (sniff bytes ≢ out_of_fuel)
    × (consume_chunked new_chunked bytes ≢ err Chunked.out_of_fuel)
    × (decrypt ss_env.crypto ss_env.cipher fresh_state bytes max_decoded_payload
        ≢ err Shadowsocks.out_of_fuel)
    × (socks5_loop 2 (ends empty_map [] [] none) socks5_env 7 empty_map bytes
        ≡ socks5_loop 2 (ends empty_map bytes [] none) socks5_env 7 empty_map bytes)
on_traffic-every_mode_example =
    on_traffic-every_mode (forward new_forward) (b's' ∷ []) 7 bytes env socks5_env ss_env
      (client tt) (client empty_map) (client empty_map) (client empty_parser)
      (ends empty_map [] [] none) (ends empty_map bytes [] none) new_chunked fresh_state
      plain_gnet-IsGnet env-IsReader plain_gnet-IsGnet plain_gnet-IsGnet (λ e. cc)
