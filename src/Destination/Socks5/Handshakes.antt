-- ===== src/Destination/Socks5/Handshakes.antt =====
-- The handshake of client/destination/socks5.go from its first byte to its last.
use gforward.Prelude.{
  ℕ, suc, ◌+◌, ◌<◌, ◌≡◌, refl, ap, ◌∙◌, true, none, some, List, [], ◌∷◌, ◌++◌, length, insert,
  arith, length-append, take_append, drop_append, ==_refl,
}
use gforward.Destination.Parser.{IsGnet, ParseEnd}
use gforward.Destination.Socks5.{
  ConnStates, conn_init, conn_negotiated, conn_connected, Socks5Env, Socks5Request,
  negotiation_packet_len, request_packet_len, handle_negotiation_request, handle_request,
  socks5_loop, parse_socks5, result_for, need_more, ends, has_method,
}

-- Version 5, the number of methods, the methods.
abbrev pub negotiation : List ℕ → List ℕ
negotiation methods = 5 ∷ length methods ∷ methods

-- A CONNECT to a domain name of a length, with what stands behind that length: name and port.
abbrev pub request : ℕ → List ℕ → List ℕ
request reserved name_port = 5 ∷ 1 ∷ reserved ∷ 3 ∷ name_port

negotiation_packet_len_lem :
    (methods later : List ℕ)
    → 0 < length methods
    → negotiation_packet_len (negotiation methods ++ later)
      ≡ some (length (negotiation methods), true)
unfolding negotiation_packet_len
negotiation_packet_len_lem methods later h = ground (arith, length-append methods later)

-- A domain name of `n` bytes and the two bytes of the port behind its length.
abbrev pub domain_request : ℕ → ℕ → List ℕ → List ℕ
domain_request reserved n name_port = request reserved (n ∷ name_port)

request_packet_len_lem :
    (reserved n : ℕ) (name_port later : List ℕ)
    → 0 < n
    → length name_port ≡ n + 2
    → request_packet_len (domain_request reserved n name_port ++ later)
      ≡ some (length (domain_request reserved n name_port), true)
unfolding request_packet_len
request_packet_len_lem reserved n name_port later lo h =
    let size : length (name_port ++ later) ≡ n + 2 + length later =
      omega (arith, length-append name_port later, h) in
    let same : 5 + n + 2 ≡ length (domain_request reserved n name_port) = omega (arith, h) in
    ground (arith, size, same)

discard_front :
    (env : Socks5Env) (front later : List ℕ)
    → IsGnet env.gnet
    → 0 < length front
    → env.gnet.discard (front ++ later) (length front) ≡ later
discard_front env front later laws lo =
    laws.discard_some (front ++ later) (length front) lo (omega (arith, length-append front later))
    ∙ drop_append front later

-- The library and the connection on one handshake: they read what the client sent, and the writes
-- succeed.
pub record IsWelcome (env : Socks5Env) (conn : ℕ) (methods req dest : List ℕ) : Type 0 where
  pub gnet_laws : IsGnet env.gnet
  pub reads_methods : env.negotiation_from (negotiation methods) ≡ some methods
  pub reads_request :
      (r : Socks5Request) × (env.request_from req ≡ some r) × (r.cmd ≡ 1) × (r.address ≡ dest)
  pub writes : (bytes : List ℕ) → env.write_ok conn bytes ≡ true

module _ (env : Socks5Env) (conn : ℕ) (methods : List ℕ) (reserved n : ℕ) (name_port dest : List ℕ)
    (w : IsWelcome env conn methods (domain_request reserved n name_port) dest)
    (offers : has_method 0 methods ≡ true) (some_methods : 0 < length methods) (lo : 0 < n)
    (len : length name_port ≡ n + 2) where
  negotiates :
      (fuel : ℕ) (out : ParseEnd ConnStates) (m : ConnStates) (later : List ℕ)
      → m conn ≡ none
      → socks5_loop (suc fuel) out env conn m (negotiation methods ++ later) ≡ (
          let e =
            socks5_loop fuel out env conn
              (insert conn conn_negotiated (insert conn conn_init m))
              later in
          record e { written = env.negotiation_reply 0 ∷ e.written })
  unfolding socks5_loop handle_negotiation_request
  negotiates fuel out m later fresh =
      rw
        (
          w.gnet_laws.peek_all (negotiation methods ++ later),
          fresh,
          negotiation_packet_len_lem methods later some_methods,
          take_append (negotiation methods) later,
          w.reads_methods,
          offers,
          w.writes (env.negotiation_reply 0),
          discard_front env (negotiation methods) later w.gnet_laws (omega arith),
        )
        refl

  connects :
      (fuel : ℕ) (out : ParseEnd ConnStates) (m : ConnStates) (later : List ℕ)
      → m conn ≡ some conn_negotiated
      → socks5_loop (suc fuel) out env conn m (domain_request reserved n name_port ++ later)
        ≡ ends (insert conn conn_connected m) later (env.reply 0 1 ∷ []) (some (result_for dest))
  unfolding socks5_loop handle_request
  connects fuel out m later ready =
      let (r, read, cmd, address) = w.reads_request in
      let req = domain_request reserved n name_port in
      rw
        (
          w.gnet_laws.peek_all (req ++ later),
          ready,
          request_packet_len_lem reserved n name_port later lo len,
          take_append req later,
          read,
          cmd,
          w.writes (env.reply 0 1),
          discard_front env req later w.gnet_laws (omega arith),
          address,
        )
        refl

abbrev behind_reply : Socks5Env → ParseEnd ConnStates → ParseEnd ConnStates
behind_reply env e = record e { written = env.negotiation_reply 0 ∷ e.written }

waits :
    (env : Socks5Env) (conn fuel : ℕ) (out : ParseEnd ConnStates) (m : ConnStates)
    → IsGnet env.gnet
    → m conn ≡ some conn_negotiated
    → socks5_loop (suc fuel) out env conn m [] ≡ ends m [] [] (some need_more)
unfolding socks5_loop request_packet_len
waits env conn fuel out m laws ready = rw (laws.peek_all [], ready) refl

-- The handshake of a new connection that offers the method without authentication and asks for a
-- CONNECT to a domain name. In one read with bytes of the tunnel behind it, the parser answers
-- twice, names the destination, and leaves exactly the bytes of the tunnel. In two reads, it takes
-- the negotiation, answers it and waits; behind the second read it says the same as before, and its
-- state is the same in the end.
pub parse_socks5-handshake :
    (env : Socks5Env) (conn : ℕ) (methods : List ℕ) (reserved n : ℕ) (name_port dest : List ℕ)
    (m : ConnStates) (tunnel : List ℕ)
    → IsWelcome env conn methods (domain_request reserved n name_port) dest
    → has_method 0 methods ≡ true
    → 0 < length methods
    → 0 < n
    → length name_port ≡ n + 2
    → m conn ≡ none
    → let req = domain_request reserved n name_port in
      let negotiated = insert conn conn_negotiated (insert conn conn_init m) in
      let connected = insert conn conn_connected negotiated in
      (parse_socks5 env m conn (negotiation methods ++ (req ++ tunnel))
        ≡ ends connected tunnel
            (env.negotiation_reply 0 ∷ env.reply 0 1 ∷ [])
            (some (result_for dest)))
      × (parse_socks5 env m conn (negotiation methods ++ [])
          ≡ ends negotiated [] (env.negotiation_reply 0 ∷ []) (some need_more))
      × (parse_socks5 env negotiated conn (req ++ tunnel)
          ≡ ends connected tunnel (env.reply 0 1 ∷ []) (some (result_for dest)))
unfolding parse_socks5
parse_socks5-handshake env conn methods reserved n name_port dest m tunnel w offers some_methods lo
      len fresh =
    let req = domain_request reserved n name_port in
    let negotiated : ConnStates = insert conn conn_negotiated (insert conn conn_init m) in
    let now : negotiated conn ≡ some conn_negotiated = ground (arith, ==_refl conn) in
    (
      negotiates env conn methods reserved n name_port dest w offers some_methods lo len 1 _ m
            (req ++ tunnel) fresh
          ∙ ap (behind_reply env) (
              connects env conn methods reserved n name_port dest w offers some_methods lo len 0 _
                negotiated tunnel now),
      negotiates env conn methods reserved n name_port dest w offers some_methods lo len 1 _ m []
            fresh
          ∙ ap (behind_reply env) (waits env conn 0 _ negotiated w.gnet_laws now),
      connects env conn methods reserved n name_port dest w offers some_methods lo len 1 _
          negotiated tunnel now,
    )
