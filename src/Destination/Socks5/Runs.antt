-- ===== src/Destination/Socks5/Runs.antt =====
-- The theorem on client/destination/socks5.go at a concrete handshake.
use gforward.Prelude.{ℕ, ◌≡◌, refl, true, some, List, [], ◌∷◌, ◌++◌, arith, empty_map, insert}
use gforward.Destination.PlainGnet.{plain_gnet, plain_gnet-IsGnet}
use gforward.Destination.Socks5.{
  conn_init, conn_negotiated, conn_connected, Socks5Env, parse_socks5, ends, result_for,
}
use gforward.Destination.Socks5.Handshakes.{
  negotiation, domain_request, IsWelcome, parse_socks5-handshake,
}

abbrev env : Socks5Env
env = record {
  gnet = plain_gnet;
  negotiation_from = λ buf. some (0 ∷ []);
  request_from = λ buf. some (record { cmd = 1; atyp = 3; address = b'a' ∷ b':' ∷ b'1' ∷ [] });
  negotiation_reply = λ code. 5 ∷ code ∷ [];
  reply = λ code atyp. 5 ∷ code ∷ 0 ∷ atyp ∷ [];
  write_ok = λ conn bytes. true;
}

abbrev asks_for_a : List ℕ
asks_for_a = domain_request 0 1 (b'a' ∷ 0 ∷ 1 ∷ [])

env-IsWelcome : IsWelcome env 7 (0 ∷ []) asks_for_a (b'a' ∷ b':' ∷ b'1' ∷ [])
env-IsWelcome = record {
  gnet_laws = plain_gnet-IsGnet;
  reads_methods = refl;
  reads_request =
      (record { cmd = 1; atyp = 3; address = b'a' ∷ b':' ∷ b'1' ∷ [] }, refl, refl, refl);
  writes = λ bytes. refl;
}

parse_socks5-handshake_example :
    parse_socks5 env empty_map 7 (negotiation (0 ∷ []) ++ (asks_for_a ++ (22 ∷ 3 ∷ [])))
    ≡ ends
        (insert 7 conn_connected (insert 7 conn_negotiated (insert 7 conn_init empty_map)))
        (22 ∷ 3 ∷ [])
        ((5 ∷ 0 ∷ []) ∷ (5 ∷ 0 ∷ 0 ∷ 1 ∷ []) ∷ [])
        (some (result_for (b'a' ∷ b':' ∷ b'1' ∷ [])))
parse_socks5-handshake_example =
    (parse_socks5-handshake env 7 (0 ∷ []) 0 1 (b'a' ∷ 0 ∷ 1 ∷ []) (b'a' ∷ b':' ∷ b'1' ∷ [])
      empty_map (22 ∷ 3 ∷ []) env-IsWelcome refl (omega arith) (omega arith) (omega arith) refl).0
