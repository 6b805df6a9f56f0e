-- ===== src/Commands.antt =====
-- cmd/client.go and cmd/server.go: how the options of the commands are checked before the engines
-- start. A command returns what it starts; the logger's set-up is left out.
pub mod Addresses
pub mod Bounds
pub mod Octets
pub mod Starts
pub mod Defaults
mod Runs
use gforward.Prelude.{
  ℕ, suc, ◌<◌, Bool, true, false, not, ◌&&◌, ◌||◌, Option, none, some, List, [], ◌∷◌, ◌++◌, length,
  ltb, leb, ◌==◌, if◌then◌else◌, str_eq, Result, ok, err,
}
use gforward.Protocol.HostPort.{split_host_port}
use gforward.Destination.Parser.{
  ParserProto, http, https, http_proxy, socks5, shadowsocks, proto_name, new_parser, Gnet,
}
use gforward.Destination.Shadowsocks.{Crypto, aes_256_gcm, chacha20_ietf_poly1305, is_method}
use gforward.Destination.Shadowsocks.Address.{ip4_string}
use gforward.Destination.Shadowsocks.Conns.{ParseConfig, new_shadowsocks_parser}
use gforward.Client.Forwarder.{mode_proto, dns_suffix}
use gforward.Commands.Addresses.{parse_ip4, atoi_pos}

-- The modes; a name ends in "_dns" where a DNS server runs beside the client.
abbrev pub mode_http_dns : List ℕ
mode_http_dns = proto_name http ++ dns_suffix

abbrev pub mode_https_dns : List ℕ
mode_https_dns = proto_name https ++ dns_suffix

abbrev pub mode_http_proxy : List ℕ
mode_http_proxy = proto_name http_proxy

abbrev pub mode_http_socks5 : List ℕ
mode_http_socks5 = proto_name socks5

abbrev pub mode_shadowsocks : List ℕ
mode_shadowsocks = proto_name shadowsocks

abbrev pub on_port : List ℕ → List ℕ → Option ℕ → Option (List ℕ × List ℕ)
on_port ip port none = none
on_port ip port (some n) = if ltb n 1 || ltb 65535 n then none else some (ip4_string ip, port)

abbrev pub on_ip : List ℕ → Option (List ℕ) → Option (List ℕ × List ℕ)
on_ip port none = none
on_ip port (some ip) = on_port ip port (atoi_pos port)

abbrev pub on_host_port : Option (List ℕ × List ℕ) → Option (List ℕ × List ℕ)
on_host_port none = none
on_host_port (some (host, port)) = on_ip port (parse_ip4 host)

-- `parseIPv4Addr`; none is an error.
unfoldable pub parse_ipv4_addr : List ℕ → Option (List ℕ × List ℕ)
parse_ipv4_addr addr = on_host_port (split_host_port addr)

-- "0.0.0.0:" and a port.
abbrev pub any_addr : List ℕ → List ℕ
any_addr port = b'0' ∷ b'.' ∷ b'0' ∷ b'.' ∷ b'0' ∷ b'.' ∷ b'0' ∷ b':' ∷ port

abbrev pub port_80 : List ℕ
port_80 = b'8' ∷ b'0' ∷ []

abbrev pub port_443 : List ℕ
port_443 = b'4' ∷ b'4' ∷ b'3' ∷ []

unfoldable pub default_client_listener_addr : List ℕ → Option (List ℕ)
default_client_listener_addr mode =
    if str_eq mode mode_http_dns
    then some (any_addr port_80)
    else if str_eq mode mode_https_dns
    then some (any_addr port_443)
    else if str_eq mode mode_http_proxy
    then some (any_addr (b'8' ∷ b'0' ∷ b'8' ∷ b'0' ∷ []))
    else if str_eq mode mode_http_socks5
    then some (any_addr (b'1' ∷ b'0' ∷ b'8' ∷ b'0' ∷ []))
    else if str_eq mode mode_shadowsocks
    then some (any_addr (b'8' ∷ b'3' ∷ b'8' ∷ b'8' ∷ []))
    else none

-- The address for the DNS server, where one is to run; the outer none is an error.
abbrev pub Hijack : Type 0
Hijack = Option (Option (List ℕ))

abbrev pub on_listener : List ℕ → Option (List ℕ × List ℕ) → Hijack
on_listener mode none = none
on_listener mode (some (ip, port)) =
    if str_eq mode mode_http_dns
    then (if str_eq port port_80 then some (some ip) else none)
    else if str_eq mode mode_https_dns
    then (if str_eq port port_443 then some (some ip) else none)
    else if str_eq mode mode_http_proxy
        || str_eq mode mode_http_socks5
        || str_eq mode mode_shadowsocks
    then some none
    else none

unfoldable pub resolve_client_mode : List ℕ → List ℕ → Hijack
resolve_client_mode mode listener_addr = on_listener mode (parse_ipv4_addr listener_addr)

-- The outer none is an error; the inner one is nil.
unfoldable pub resolve_shadowsocks_config : List ℕ → List ℕ → List ℕ → Option (Option ParseConfig)
resolve_shadowsocks_config mode method password =
    if not (str_eq mode mode_shadowsocks)
    then some none
    else if not (is_method method)
    then none
    else if length password == 0
    then none
    else some (some (record { method = method; password = password }))

-- The options of the command `client`.
pub record ClientOptions : Type 0 where
  pub mode : List ℕ
  pub listener_addr : List ℕ
  pub server_addr : List ℕ
  pub ss_method : List ℕ
  pub ss_password : List ℕ

-- What the command starts: the DNS server with its address, and the client.
pub record ClientStart : Type 0 where
  pub dns_hijack_ip : Option (List ℕ)
  pub mode : List ℕ
  pub server_addr : List ℕ
  pub config : Option ParseConfig
  pub listener_addr : List ℕ

abbrev pub listener_of : ClientOptions → Option (List ℕ)
listener_of o =
    if length o.listener_addr == 0
    then default_client_listener_addr o.mode
    else some o.listener_addr

abbrev pub on_server : ClientStart → Option (List ℕ × List ℕ) → Option ClientStart
on_server start none = none
on_server start (some addr) = some start

abbrev pub on_config :
    ClientOptions → List ℕ → Option (List ℕ) → Option (Option ParseConfig) → Option ClientStart
on_config o addr hijack none = none
on_config o addr hijack (some config) =
    on_server
      (record {
        dns_hijack_ip = hijack;
        mode = o.mode;
        server_addr = o.server_addr;
        config = config;
        listener_addr = addr;
      })
      (parse_ipv4_addr o.server_addr)

abbrev pub on_mode : ClientOptions → List ℕ → Hijack → Option ClientStart
on_mode o addr none = none
on_mode o addr (some hijack) =
    on_config o addr hijack (resolve_shadowsocks_config o.mode o.ss_method o.ss_password)

abbrev pub on_addr : ClientOptions → Option (List ℕ) → Option ClientStart
on_addr o none = none
on_addr o (some addr) = on_mode o addr (resolve_client_mode o.mode addr)

-- `clientRun`; none is `log.Fatal`.
unfoldable pub client_run : ClientOptions → Option ClientStart
client_run o = on_addr o (listener_of o)

abbrev pub on_server_addr : Bool → ℕ → Option (List ℕ × List ℕ) → Option ℕ
on_server_addr multicore cpus none = none
on_server_addr multicore cpus (some addr) = some (if multicore then cpus else 1)

-- `serverRun`: the number of workers, or none for `log.Fatal`.
unfoldable pub server_run : List ℕ → Bool → ℕ → Option ℕ
server_run listener_addr multicore cpus =
    on_server_addr multicore cpus (parse_ipv4_addr listener_addr)

abbrev pub is_made : {A : Type 0} → Option A → Bool
is_made none = false
is_made (some x) = true

-- Whether `NewParser` returns in `NewForwarder`: an unknown protocol panics, and so may the parser
-- of Shadowsocks.
abbrev pub builds : Gnet → Crypto → Option ParseConfig → Option ParserProto → Bool
builds g crypto cfg none = false
builds g crypto cfg (some http) = true
builds g crypto cfg (some https) = true
builds g crypto cfg (some http_proxy) = true
builds g crypto cfg (some socks5) = true
builds g crypto cfg (some shadowsocks) = is_made (new_shadowsocks_parser g crypto cfg)

unfoldable pub new_forwarder_builds : Gnet → Crypto → List ℕ → Option ParseConfig → Bool
new_forwarder_builds g crypto mode cfg = builds g crypto cfg (new_parser (mode_proto mode))
