-- ===== src/Destination/Socks5/Progress.antt =====
-- The loop of client/destination/socks5.go puts nothing into the buffer and decodes nothing.
use gforward.Prelude.{
  ℕ, ◌+◌, ◌≤◌, ◌<◌, refl, true, false, not, Option, none, some, List, length, take, leb, ltb, ◌==◌,
  get_or, arith, Bool-cases, inl, inr, length-drop, insert, ◌≡◌, ◌++◌, [], ap, ==_refl,
}
use gforward.Destination.Parser.{IsGnet, ParseEnd}
use gforward.Destination.Socks5.{
  ConnStates, ConnState, conn_init, conn_negotiated, conn_connected, Socks5Env, PacketLen,
  complete_at, negotiation_packet_len, request_packet_len, request_len, Answer,
  handle_negotiation_request, handle_request, on_negotiated, on_connected, in_init, in_negotiated,
  in_state, on_peek, reject, socks5_loop, parse_socks5,
}
use gforward.Client.Forwarder.Raw.{IsRaw}

-- A complete packet is not empty, and stands in the buffer.
abbrev IsWhole : ℕ → PacketLen → Type 0
IsWhole len none = Unit
IsWhole len (some (n, false)) = Unit
IsWhole len (some (n, true)) = (0 < n) × (n ≤ len)

complete_at-IsWhole : (n : ℕ) (buf : List ℕ) → 0 < n → IsWhole (length buf) (complete_at n buf)
complete_at-IsWhole n buf lo = elim (Bool-cases (leb n (length buf))) [
  | inl whole ↦ rw whole (lo, ground (arith, whole))
  | inr part ↦ rw part tt
]

negotiation_packet_len-IsWhole : (buf : List ℕ) → IsWhole (length buf) (negotiation_packet_len buf)
unfolding negotiation_packet_len
negotiation_packet_len-IsWhole buf = elim (Bool-cases (ltb (length buf) 2)) [
  | inl few ↦ rw few tt
  | inr two ↦ rw two (elim (Bool-cases (not (get_or buf 0 0 == 5))) [
    | inl bad ↦ rw bad tt
    | inr five ↦ rw five (elim (Bool-cases (get_or buf 1 0 == 0)) [
      | inl nothing ↦ rw nothing tt
      | inr methods ↦ rw methods (complete_at-IsWhole (2 + get_or buf 1 0) buf (omega arith))
    ])
  ])
]

request_len-IsWhole : (buf : List ℕ) (atyp : ℕ) → IsWhole (length buf) (request_len buf atyp)
request_len-IsWhole buf atyp = elim (Bool-cases (atyp == 1)) [
  | inl v4 ↦ rw v4 (complete_at-IsWhole (4 + 4 + 2) buf (omega arith))
  | inr no4 ↦ rw no4 (elim (Bool-cases (atyp == 4)) [
    | inl v6 ↦ rw v6 (complete_at-IsWhole (4 + 16 + 2) buf (omega arith))
    | inr no6 ↦ rw no6 (elim (Bool-cases (not (atyp == 3))) [
      | inl bad ↦ rw bad tt
      | inr name ↦ rw name (elim (Bool-cases (ltb (length buf) 5)) [
        | inl few ↦ rw few tt
        | inr five ↦ rw five (elim (Bool-cases (get_or buf 4 0 == 0)) [
          | inl nothing ↦ rw nothing tt
          | inr some_name ↦
              rw some_name (complete_at-IsWhole (5 + get_or buf 4 0 + 2) buf (omega arith))
        ])
      ])
    ])
  ])
]

request_packet_len-IsWhole : (buf : List ℕ) → IsWhole (length buf) (request_packet_len buf)
unfolding request_packet_len
request_packet_len-IsWhole buf = elim (Bool-cases (ltb (length buf) 4)) [
  | inl few ↦ rw few tt
  | inr four ↦ rw four (elim (Bool-cases (not (get_or buf 0 0 == 5))) [
    | inl bad ↦ rw bad tt
    | inr five ↦ rw five (request_len-IsWhole buf (get_or buf 3 0))
  ])
]

abbrev pub Calm : ℕ → ParseEnd ConnStates → Type 0
Calm len e = (length e.buffer ≤ len) × IsRaw e.result

discard_le :
    (env : Socks5Env) (buf : List ℕ) (n : ℕ)
    → IsGnet env.gnet
    → 0 < n
    → n ≤ length buf
    → length (env.gnet.discard buf n) ≤ length buf
discard_le env buf n laws lo le =
    rw (laws.discard_some buf n lo le) (omega (arith, length-drop n buf))

module _ (env : Socks5Env) (laws : IsGnet env.gnet) (conn : ℕ)
    (again : ConnStates → List ℕ → ParseEnd ConnStates)
    (ih : (m : ConnStates) (buf : List ℕ)
      → m conn ≡ some conn_negotiated
      → Calm (length buf) (again m buf)) where
  on_negotiated-Calm :
      (m : ConnStates) (buf : List ℕ) (n : ℕ) (a : Answer Unit)
      → (0 < n) × (n ≤ length buf)
      → Calm (length buf) (on_negotiated env m conn buf n a again)
  on_negotiated-Calm m buf n (written, none) h = (omega arith, tt)
  on_negotiated-Calm m buf n (written, some u) h =
      let ready : insert conn conn_negotiated m conn ≡ some conn_negotiated =
        ground (arith, ==_refl conn) in
      let (le, raw) = ih (insert conn conn_negotiated m) (env.gnet.discard buf n) ready in
      (omega (arith, le, discard_le env buf n laws h.0 h.1), raw)

  in_init-Calm :
      (m : ConnStates) (buf : List ℕ) (p : PacketLen)
      → IsWhole (length buf) p
      → Calm (length buf) (in_init env m conn buf p again)
  in_init-Calm m buf none h = (omega arith, tt)
  in_init-Calm m buf (some (n, false)) h = (omega arith, refl)
  in_init-Calm m buf (some (n, true)) h =
      on_negotiated-Calm m buf n (handle_negotiation_request env conn (take n buf)) h

  on_connected-Calm :
      (m : ConnStates) (buf : List ℕ) (n : ℕ) (a : Answer (List ℕ))
      → (0 < n) × (n ≤ length buf)
      → Calm (length buf) (on_connected env m conn buf n a)
  on_connected-Calm m buf n (written, none) h = (omega arith, tt)
  on_connected-Calm m buf n (written, some dest) h = (discard_le env buf n laws h.0 h.1, refl)

  in_negotiated-Calm :
      (m : ConnStates) (buf : List ℕ) (p : PacketLen)
      → IsWhole (length buf) p
      → Calm (length buf) (in_negotiated env m conn buf p)
  in_negotiated-Calm m buf none h = (omega arith, tt)
  in_negotiated-Calm m buf (some (n, false)) h = (omega arith, refl)
  in_negotiated-Calm m buf (some (n, true)) h =
      on_connected-Calm m buf n (handle_request env conn (take n buf)) h

  in_state-Calm :
      (m : ConnStates) (buf : List ℕ) (s : Option ConnState)
      → Calm (length buf) (in_state env m conn buf s again)
  in_state-Calm m buf none =
      in_init-Calm (insert conn conn_init m) buf (negotiation_packet_len buf)
        (negotiation_packet_len-IsWhole buf)
  in_state-Calm m buf (some conn_init) =
      in_init-Calm m buf (negotiation_packet_len buf) (negotiation_packet_len-IsWhole buf)
  in_state-Calm m buf (some conn_negotiated) =
      in_negotiated-Calm m buf (request_packet_len buf) (request_packet_len-IsWhole buf)
  in_state-Calm m buf (some conn_connected) = (omega arith, tt)

module _ (env : Socks5Env) (conn : ℕ) where
  -- A round in the second state is the last.
  second_round-Calm :
      (out : ParseEnd ConnStates) (m : ConnStates) (buf : List ℕ)
      → IsGnet env.gnet
      → m conn ≡ some conn_negotiated
      → Calm (length buf) (socks5_loop 1 out env conn m buf)
  unfolding socks5_loop
  second_round-Calm out m buf laws ready =
      rw (laws.peek_all buf, ready)
        (in_negotiated-Calm env laws conn (λ m' buf'. reject m' conn buf' [])
          (λ m' buf' r. (omega arith, tt)) m buf (request_packet_len buf)
          (request_packet_len-IsWhole buf))

  pub parse_socks5-Calm :
      (m : ConnStates) (buf : List ℕ)
      → IsGnet env.gnet
      → Calm (length buf) (parse_socks5 env m conn buf)
  unfolding parse_socks5 socks5_loop
  parse_socks5-Calm m buf laws =
      let out = reject m conn buf [] in
      rw (laws.peek_all buf) (
        in_state-Calm env laws conn (socks5_loop 1 out env conn)
          (λ m' buf' ready. second_round-Calm out m' buf' laws ready) m buf (m conn))

  second_round-same :
      (out out' : ParseEnd ConnStates) (m : ConnStates) (buf : List ℕ)
      → m conn ≡ some conn_negotiated
      → socks5_loop 1 out env conn m buf ≡ socks5_loop 1 out' env conn m buf
  unfolding socks5_loop
  second_round-same out out' m buf ready = of_peek (env.gnet.peek buf 0)
    where
      of_peek :
          (o : Option (List ℕ))
          → on_peek env m conn buf o (socks5_loop 0 out env conn)
            ≡ on_peek env m conn buf o (socks5_loop 0 out' env conn)
      of_peek none = refl
      of_peek (some b) = rw ready refl

  abbrev behind : List (List ℕ) → ParseEnd ConnStates → ParseEnd ConnStates
  behind written e = record e { written = written ++ e.written }

  module _ (again again' : ConnStates → List ℕ → ParseEnd ConnStates)
      (same : (m : ConnStates) (buf : List ℕ)
        → m conn ≡ some conn_negotiated
        → again m buf ≡ again' m buf) where
    on_negotiated-same :
        (m : ConnStates) (buf : List ℕ) (n : ℕ) (a : Answer Unit)
        → on_negotiated env m conn buf n a again ≡ on_negotiated env m conn buf n a again'
    on_negotiated-same m buf n (written, none) = refl
    on_negotiated-same m buf n (written, some u) =
        let ready : insert conn conn_negotiated m conn ≡ some conn_negotiated =
          ground (arith, ==_refl conn) in
        let e = same (insert conn conn_negotiated m) (env.gnet.discard buf n) ready in
        ap (behind written) e

    in_init-same :
        (m : ConnStates) (buf : List ℕ) (p : PacketLen)
        → in_init env m conn buf p again ≡ in_init env m conn buf p again'
    in_init-same m buf none = refl
    in_init-same m buf (some (n, false)) = refl
    in_init-same m buf (some (n, true)) =
        on_negotiated-same m buf n (handle_negotiation_request env conn (take n buf))

    in_state-same :
        (m : ConnStates) (buf : List ℕ) (s : Option ConnState)
        → in_state env m conn buf s again ≡ in_state env m conn buf s again'
    in_state-same m buf none =
        in_init-same (insert conn conn_init m) buf (negotiation_packet_len buf)
    in_state-same m buf (some conn_init) = in_init-same m buf (negotiation_packet_len buf)
    in_state-same m buf (some conn_negotiated) = refl
    in_state-same m buf (some conn_connected) = refl

  -- Two rounds never use up their fuel: what the loop would answer then does not matter.
  pub socks5_loop-ends :
      (out out' : ParseEnd ConnStates) (m : ConnStates) (buf : List ℕ)
      → socks5_loop 2 out env conn m buf ≡ socks5_loop 2 out' env conn m buf
  unfolding socks5_loop
  socks5_loop-ends out out' m buf = of_peek (env.gnet.peek buf 0)
    where
      of_peek :
          (o : Option (List ℕ))
          → on_peek env m conn buf o (socks5_loop 1 out env conn)
            ≡ on_peek env m conn buf o (socks5_loop 1 out' env conn)
      of_peek none = refl
      of_peek (some b) =
          in_state-same (socks5_loop 1 out env conn) (socks5_loop 1 out' env conn)
            (second_round-same out out') m b (m conn)
