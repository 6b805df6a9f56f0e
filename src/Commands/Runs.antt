-- ===== src/Commands/Runs.antt =====
-- The theorems on the options of the commands at concrete inputs.
use gforward.Prelude.{ℕ, ◌≡◌, refl, Option, none, some, List, [], ◌∷◌, str_eq, inr}
use gforward.Destination.PlainGnet.{plain_gnet}
use gforward.Destination.Shadowsocks.{Crypto, zeros, chacha20_ietf_poly1305}
use gforward.Destination.Shadowsocks.Address.{ip4_string}
use gforward.Destination.Shadowsocks.Conns.{ParseConfig}
use gforward.Protocol.HostPort.{split_host_port, last_index_byte, contains_byte, index_byte}
use gforward.Protocol.Decimal.{itoa, format_digits, parse_digits}
use gforward.Commands.{
  mode_https_dns, mode_shadowsocks, ClientOptions, client_run, parse_ipv4_addr, any_addr, port_443,
  default_client_listener_addr, resolve_shadowsocks_config,
}
use gforward.Commands.Addresses.{parse_ip4, ip4_loop}
use gforward.Commands.Starts.{IsStart, client_run-IsStart}
use gforward.Commands.Defaults.{default_hijack, client_run-defaults}

abbrev no_ip6 : List ℕ → Option (List ℕ)
no_ip6 text = none

abbrev crypto : Crypto
crypto = record {
  md5 = λ bytes. zeros 16;
  hkdf = λ key salt info n. some (zeros n);
  aes_gcm = λ key. none;
  chacha20_poly1305 = λ key. none;
  random = λ draw n. some (zeros n);
}

-- 127.0.0.1:9989
abbrev local_server : List ℕ
local_server =
    b'1' ∷ b'2' ∷ b'7' ∷ b'.' ∷ b'0' ∷ b'.' ∷ b'0' ∷ b'.' ∷ b'1' ∷ b':' ∷ b'9' ∷ b'9' ∷ b'8' ∷ b'9'
    ∷ []

abbrev dns_options : ClientOptions
dns_options = record {
  mode = mode_https_dns;
  listener_addr = any_addr port_443;
  server_addr = local_server;
  ss_method = [];
  ss_password = [];
}

client_run-IsStart_example : IsStart no_ip6 plain_gnet crypto (client_run dns_options)
client_run-IsStart_example = client_run-IsStart no_ip6 plain_gnet crypto dns_options

server_read :
    parse_ipv4_addr local_server
    ≡ some (
      b'1' ∷ b'2' ∷ b'7' ∷ b'.' ∷ b'0' ∷ b'.' ∷ b'0' ∷ b'.' ∷ b'1' ∷ [],
      b'9' ∷ b'9' ∷ b'8' ∷ b'9' ∷ [],
    )
unfolding parse_ipv4_addr split_host_port last_index_byte contains_byte index_byte parse_ip4
    ip4_loop ip4_string itoa format_digits parse_digits
server_read = refl

abbrev ss_config : ParseConfig
ss_config = record { method = chacha20_ietf_poly1305; password = b'p' ∷ [] }

config_read :
    resolve_shadowsocks_config mode_shadowsocks chacha20_ietf_poly1305 (b'p' ∷ [])
    ≡ some (some ss_config)
unfolding resolve_shadowsocks_config str_eq
config_read = refl

client_run-defaults_example :
    (addr : List ℕ) × (default_client_listener_addr mode_shadowsocks ≡ some addr)
    × (client_run (record {
      mode = mode_shadowsocks;
      listener_addr = [];
      server_addr = local_server;
      ss_method = chacha20_ietf_poly1305;
      ss_password = b'p' ∷ [];
    })
        ≡ some (record {
          dns_hijack_ip = default_hijack mode_shadowsocks;
          mode = mode_shadowsocks;
          server_addr = local_server;
          config = some ss_config;
          listener_addr = addr;
        }))
client_run-defaults_example =
    client_run-defaults mode_shadowsocks local_server chacha20_ietf_poly1305 (b'p' ∷ [])
      (
        b'1' ∷ b'2' ∷ b'7' ∷ b'.' ∷ b'0' ∷ b'.' ∷ b'0' ∷ b'.' ∷ b'1' ∷ [],
        b'9' ∷ b'9' ∷ b'8' ∷ b'9' ∷ [],
      )
      (some ss_config) (inr (inr (inr (inr refl)))) server_read config_read
