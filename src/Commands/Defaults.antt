-- ===== src/Commands/Defaults.antt =====
-- The defaults of cmd/client.go: the listener's address for each mode passes the check of the mode.
use gforward.Prelude.{
  ℕ, ◌≡◌, refl, Option, none, some, List, [], ◌∷◌, str_eq, inl, inr, if◌then◌else◌,
}
use gforward.Protocol.HostPort.{split_host_port, last_index_byte, contains_byte, index_byte}
use gforward.Protocol.Decimal.{itoa, format_digits, parse_digits}
use gforward.Destination.Shadowsocks.Address.{ip4_string}
use gforward.Destination.Shadowsocks.Conns.{ParseConfig}
use gforward.Commands.{
  mode_http_dns, mode_https_dns, parse_ipv4_addr, default_client_listener_addr, resolve_client_mode,
  resolve_shadowsocks_config, client_run, any_addr, port_80, port_443,
}
use gforward.Commands.Addresses.{parse_ip4, ip4_loop}
use gforward.Commands.Starts.{IsMode}

-- "0.0.0.0"
abbrev pub any_ip : List ℕ
any_ip = b'0' ∷ b'.' ∷ b'0' ∷ b'.' ∷ b'0' ∷ b'.' ∷ b'0' ∷ []

-- Whether a mode has a DNS server, with the address of all interfaces.
abbrev pub default_hijack : List ℕ → Option (List ℕ)
default_hijack mode =
    if str_eq mode mode_http_dns
    then some any_ip
    else if str_eq mode mode_https_dns
    then some any_ip
    else none

abbrev DefaultsTo : List ℕ → List ℕ → Type 0
DefaultsTo mode addr =
    (default_client_listener_addr mode ≡ some addr)
    × (resolve_client_mode mode addr ≡ some (default_hijack mode))

defaults : (mode : List ℕ) → IsMode mode → (addr : List ℕ) × DefaultsTo mode addr
unfolding default_client_listener_addr resolve_client_mode parse_ipv4_addr split_host_port
    last_index_byte contains_byte index_byte parse_ip4 ip4_loop ip4_string itoa format_digits
    parse_digits str_eq
defaults mode (inl m) = (any_addr port_80, rw m (refl, refl))
defaults mode (inr (inl m)) = (any_addr port_443, rw m (refl, refl))
defaults mode (inr (inr (inl m))) = (any_addr (b'8' ∷ b'0' ∷ b'8' ∷ b'0' ∷ []), rw m (refl, refl))
defaults mode (inr (inr (inr (inl m)))) =
    (any_addr (b'1' ∷ b'0' ∷ b'8' ∷ b'0' ∷ []), rw m (refl, refl))
defaults mode (inr (inr (inr (inr m)))) =
    (any_addr (b'8' ∷ b'3' ∷ b'8' ∷ b'8' ∷ []), rw m (refl, refl))

-- Without an address to listen on, every mode starts, if the server's address is good and the
-- Shadowsocks options are: the default address has the port that the mode demands, and the modes
-- with a DNS server, and no others, start it with 0.0.0.0.
pub client_run-defaults :
    (mode server_addr ss_method ss_password : List ℕ) (server : List ℕ × List ℕ)
    (config : Option ParseConfig)
    → IsMode mode
    → parse_ipv4_addr server_addr ≡ some server
    → resolve_shadowsocks_config mode ss_method ss_password ≡ some config
    → (addr : List ℕ) × (default_client_listener_addr mode ≡ some addr)
      × (client_run (record {
        mode = mode;
        listener_addr = [];
        server_addr = server_addr;
        ss_method = ss_method;
        ss_password = ss_password;
      })
          ≡ some (record {
            dns_hijack_ip = default_hijack mode;
            mode = mode;
            server_addr = server_addr;
            config = config;
            listener_addr = addr;
          }))
unfolding client_run
client_run-defaults mode server_addr ss_method ss_password server config known good_server
      good_config =
    let (addr, (given, resolved)) = defaults mode known in
    (addr, given, rw (given, resolved, good_config, good_server) refl)
