-- ===== src/Commands/Starts.antt =====
-- What cmd/client.go lets through, the packages client and client/destination accept.
use gforward.Prelude.{
  ℕ, ◌≡◌, refl, true, false, ◌||◌, Option, none, some, List, length, ltb, ◌==◌, str_eq, str_eq→eq,
  Bool-cases, Option-cases, inl, inr, ◌⊎◌,
}
use gforward.Protocol.HostPort.{split_host_port}
use gforward.Destination.Parser.{http, https, http_proxy, socks5, shadowsocks, new_parser, Gnet}
use gforward.Destination.Shadowsocks.{Crypto, is_method, new_ss_aead}
use gforward.Destination.Shadowsocks.Address.{ip4_string}
use gforward.Destination.Shadowsocks.Conns.{ParseConfig, new_shadowsocks_parser}
use gforward.Client.Forwarder.{mode_proto}
use gforward.Client.Dns.{new_dns_handler}
use gforward.Commands.{
  mode_http_dns, mode_https_dns, mode_http_proxy, mode_http_socks5, mode_shadowsocks, on_port,
  parse_ipv4_addr, port_80, port_443, Hijack, on_listener, resolve_client_mode,
  resolve_shadowsocks_config, ClientOptions, ClientStart, listener_of, on_config, on_mode,
  client_run, is_made, builds, new_forwarder_builds,
}
use gforward.Commands.Addresses.{parse_ip4, atoi_pos}
use gforward.Commands.Bounds.{IsIp4, parse_ip4-IsIp4}
use gforward.Commands.Octets.{parse_ip4-ip4_string}

-- The address of a good host and port is the text of an IPv4 address.
IsIp4Text : Option (List ℕ × List ℕ) → Type 0
IsIp4Text none = Unit
IsIp4Text (some (text, port)) = (ip : List ℕ) × IsIp4 ip × (text ≡ ip4_string ip)

on_port-IsIp4Text : (ip port : List ℕ) (n : Option ℕ) → IsIp4 ip → IsIp4Text (on_port ip port n)
unfolding IsIp4Text
on_port-IsIp4Text ip port none h = tt
on_port-IsIp4Text ip port (some n) h = elim (Bool-cases (ltb n 1 || ltb 65535 n)) [
  | inl bad ↦ rw bad tt
  | inr good ↦ rw good (ip, h, refl)
]

parse_ipv4_addr-IsIp4Text : (addr : List ℕ) → IsIp4Text (parse_ipv4_addr addr)
unfolding IsIp4Text parse_ipv4_addr
parse_ipv4_addr-IsIp4Text addr = elim (Option-cases (split_host_port addr)) [
  | inl bad ↦ rw bad tt
  | inr ((host, port), split) ↦ rw split (elim (Option-cases (parse_ip4 host)) [
    | inl bad ↦ rw bad tt
    | inr (ip, read) ↦
        rw read (on_port-IsIp4Text ip port (atoi_pos port) (parse_ip4-IsIp4 host ip read))
  ])
]

-- A mode that is accepted, and what goes with it.
abbrev pub IsMode : List ℕ → Type 0
IsMode mode =
    (mode ≡ mode_http_dns)
    ⊎ (mode ≡ mode_https_dns)
    ⊎ (mode ≡ mode_http_proxy)
    ⊎ (mode ≡ mode_http_socks5)
    ⊎ (mode ≡ mode_shadowsocks)

-- The hijack address is given to the DNS server for an IPv4 text only.
abbrev IsHijack : List ℕ → Hijack → Type 0
IsHijack mode none = Unit
IsHijack mode (some none) = IsMode mode
IsHijack mode (some (some text)) = IsMode mode × ((ip : List ℕ) × IsIp4 ip × (text ≡ ip4_string ip))

on_listener-IsHijack :
    (mode : List ℕ) (addr : Option (List ℕ × List ℕ))
    → IsIp4Text addr
    → IsHijack mode (on_listener mode addr)
unfolding IsIp4Text
on_listener-IsHijack mode none h = tt
on_listener-IsHijack mode (some (text, port)) h = elim (Bool-cases (str_eq mode mode_http_dns)) [
  | inl m ↦ rw m (elim (Bool-cases (str_eq port port_80)) [
    | inl right ↦ rw right (inl (str_eq→eq mode mode_http_dns m), h)
    | inr wrong ↦ rw wrong tt
  ])
  | inr m1 ↦ rw m1 (elim (Bool-cases (str_eq mode mode_https_dns)) [
    | inl m ↦ rw m (elim (Bool-cases (str_eq port port_443)) [
      | inl right ↦ rw right (inr (inl (str_eq→eq mode mode_https_dns m)), h)
      | inr wrong ↦ rw wrong tt
    ])
    | inr m2 ↦ rw m2 (elim (Bool-cases (str_eq mode mode_http_proxy)) [
      | inl m ↦ rw m (inr (inr (inl (str_eq→eq mode mode_http_proxy m))))
      | inr m3 ↦ rw m3 (elim (Bool-cases (str_eq mode mode_http_socks5)) [
        | inl m ↦ rw m (inr (inr (inr (inl (str_eq→eq mode mode_http_socks5 m)))))
        | inr m4 ↦ rw m4 (elim (Bool-cases (str_eq mode mode_shadowsocks)) [
          | inl m ↦ rw m (inr (inr (inr (inr (str_eq→eq mode mode_shadowsocks m)))))
          | inr m5 ↦ rw m5 tt
        ])
      ])
    ])
  ])
]

-- A configuration that the shadowsocks mode accepts.
abbrev IsConfig : List ℕ → Option ParseConfig → Type 0
IsConfig mode none = str_eq mode mode_shadowsocks ≡ false
IsConfig mode (some cfg) = is_method cfg.method ≡ true

abbrev IsConfigIf : List ℕ → Option (Option ParseConfig) → Type 0
IsConfigIf mode none = Unit
IsConfigIf mode (some cfg) = IsConfig mode cfg

resolve_shadowsocks_config-IsConfigIf :
    (mode method password : List ℕ)
    → IsConfigIf mode (resolve_shadowsocks_config mode method password)
unfolding resolve_shadowsocks_config
resolve_shadowsocks_config-IsConfigIf mode method password =
    elim (Bool-cases (str_eq mode mode_shadowsocks)) [
      | inr other ↦ rw other other
      | inl ss ↦ rw ss (elim (Bool-cases (is_method method)) [
        | inr bad ↦ rw bad tt
        | inl good ↦ rw good (elim (Bool-cases (length password == 0)) [
          | inl blank ↦ rw blank tt
          | inr there ↦ rw there good
        ])
      ])
    ]

new_shadowsocks_parser-is_made :
    (g : Gnet) (crypto : Crypto) (cfg : ParseConfig)
    → is_method cfg.method ≡ true
    → is_made (new_shadowsocks_parser g crypto (some cfg)) ≡ true
unfolding new_shadowsocks_parser new_ss_aead
new_shadowsocks_parser-is_made g crypto cfg e = rw e refl

proto_of_mode :
    (new_parser (mode_proto mode_http_dns) ≡ some http)
    × (new_parser (mode_proto mode_https_dns) ≡ some https)
    × (new_parser (mode_proto mode_http_proxy) ≡ some http_proxy)
    × (new_parser (mode_proto mode_http_socks5) ≡ some socks5)
    × (new_parser (mode_proto mode_shadowsocks) ≡ some shadowsocks)
unfolding new_parser mode_proto str_eq
proto_of_mode = (refl, refl, refl, refl, refl)

shadowsocks_builds :
    (g : Gnet) (crypto : Crypto) (cfg : Option ParseConfig)
    → IsConfig mode_shadowsocks cfg
    → builds g crypto cfg (some shadowsocks) ≡ true
unfolding str_eq
shadowsocks_builds g crypto none h = absurd (cc)
shadowsocks_builds g crypto (some cfg) h = new_shadowsocks_parser-is_made g crypto cfg h

mode_builds :
    (g : Gnet) (crypto : Crypto) (mode : List ℕ) (cfg : Option ParseConfig)
    → IsMode mode
    → IsConfig mode cfg
    → new_forwarder_builds g crypto mode cfg ≡ true
unfolding new_forwarder_builds
mode_builds g crypto mode cfg (inl m) c = rw (m, proto_of_mode.0) refl
mode_builds g crypto mode cfg (inr (inl m)) c = rw (m, proto_of_mode.1) refl
mode_builds g crypto mode cfg (inr (inr (inl m))) c = rw (m, proto_of_mode.2) refl
mode_builds g crypto mode cfg (inr (inr (inr (inl m)))) c = rw (m, proto_of_mode.3) refl
mode_builds g crypto mode cfg (inr (inr (inr (inr m)))) c =
    let c' : IsConfig mode_shadowsocks cfg = rw m at c in
    rw (m, proto_of_mode.4) (shadowsocks_builds g crypto cfg c')

-- The DNS server, where one is started, takes the text that it is given as an IPv4 address.
abbrev pub DnsStarts : (List ℕ → Option (List ℕ)) → Option (List ℕ) → Type 0
DnsStarts parse_ip6 none = Unit
DnsStarts parse_ip6 (some text) =
    (ip : List ℕ) × IsIp4 ip × (new_dns_handler parse_ip6 text ≡ some ip)

-- What is known of what the command starts.
abbrev pub IsStart : (List ℕ → Option (List ℕ)) → Gnet → Crypto → Option ClientStart → Type 0
IsStart parse_ip6 g crypto none = Unit
IsStart parse_ip6 g crypto (some start) =
    (new_forwarder_builds g crypto start.mode start.config ≡ true)
    × DnsStarts parse_ip6 start.dns_hijack_ip

module _ (parse_ip6 : List ℕ → Option (List ℕ)) (g : Gnet) (crypto : Crypto) (o : ClientOptions)
    (addr : List ℕ) where
  hijack_mode : (h : Option (List ℕ)) → IsHijack o.mode (some h) → IsMode o.mode
  hijack_mode none h = h
  hijack_mode (some text) h = h.0

  hijack-DnsStarts : (h : Option (List ℕ)) → IsHijack o.mode (some h) → DnsStarts parse_ip6 h
  unfolding new_dns_handler
  hijack-DnsStarts none h = tt
  hijack-DnsStarts (some text) (m, (ip, four, shown)) =
      (ip, four, rw (shown, parse_ip4-ip4_string ip four) refl)

  on_config-IsStart :
      (h : Option (List ℕ)) (cfg : Option (Option ParseConfig))
      → IsHijack o.mode (some h)
      → IsConfigIf o.mode cfg
      → IsStart parse_ip6 g crypto (on_config o addr h cfg)
  on_config-IsStart h none is_h c = tt
  on_config-IsStart h (some cfg) is_h c = elim (Option-cases (parse_ipv4_addr o.server_addr)) [
    | inl bad ↦ rw bad tt
    | inr (server, read) ↦
        rw read (mode_builds g crypto o.mode cfg (hijack_mode h is_h) c, hijack-DnsStarts h is_h)
  ]

  on_mode-IsStart : (h : Hijack) → IsHijack o.mode h → IsStart parse_ip6 g crypto (on_mode o addr h)
  on_mode-IsStart none is_h = tt
  on_mode-IsStart (some h) is_h =
      on_config-IsStart h (resolve_shadowsocks_config o.mode o.ss_method o.ss_password) is_h
        (resolve_shadowsocks_config-IsConfigIf o.mode o.ss_method o.ss_password)

-- Whatever the options of the command `client` are, it stops with an error, or what it starts does
-- not fail: `NewForwarder` finds a parser for the mode and never panics, in the shadowsocks mode with
-- the configuration that has been checked, and the DNS server, where one is started, accepts the
-- address that it is given as an IPv4 address.
pub client_run-IsStart :
    (parse_ip6 : List ℕ → Option (List ℕ)) (g : Gnet) (crypto : Crypto) (o : ClientOptions)
    → IsStart parse_ip6 g crypto (client_run o)
unfolding client_run resolve_client_mode
client_run-IsStart parse_ip6 g crypto o = elim (Option-cases (listener_of o)) [
  | inl unknown ↦ rw unknown tt
  | inr (addr, given) ↦ rw given (
      on_mode-IsStart parse_ip6 g crypto o addr (on_listener o.mode (parse_ipv4_addr addr))
        (on_listener-IsHijack o.mode (parse_ipv4_addr addr) (parse_ipv4_addr-IsIp4Text addr)))
]
