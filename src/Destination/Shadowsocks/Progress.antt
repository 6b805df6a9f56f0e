-- ===== src/Destination/Shadowsocks/Progress.antt =====
-- client/forwarder.go over the parser of client/destination/shadowsocks.go: the client's loop ends.
use gforward.Prelude.{
  ℕ, ◌≤◌, ◌<◌, ◌≡◌, ◌≢◌, refl, true, false, Bool, none, some, List, ◌++◌, length, ltb, ◌==◌,
  if◌then◌else◌, ok, err, arith, Bool-cases, inl, inr, length-drop,
}
use gforward.Protocol.{InternalPacket}
use gforward.Destination.Parser.{IsGnet, ParseResult, ParseEnd}
use gforward.Destination.Shadowsocks.{Decrypted, decrypt, max_decoded_payload}
use gforward.Destination.Shadowsocks.Limits.{IsCounted, decrypt-IsCounted}
use gforward.Destination.Shadowsocks.Address.{
  Address, address_waits, address_bad, address_at, parse_shadowsocks_address,
}
use gforward.Destination.Shadowsocks.Conns.{
  SsConn, SsParser, SsEnv, DecodeEnd, on_decrypted, decode_payload, on_address, on_plain,
  on_decoded, no_plain, waits_in_tunnel, waits_for_address, parse_shadowsocks, shadowsocks_parser,
  get_conn,
}
use gforward.Client.Forwarder.{Setup, Forwarder, on_traffic, stuck}
use gforward.Client.Forwarder.Raw.{raw_decodes}
use gforward.Client.Forwarder.Traffic.{IsConsuming, on_traffic-ne-stuck}

-- The client in the Shadowsocks mode.
abbrev pub shadowsocks_setup : SsEnv → InternalPacket → List ℕ → Setup SsParser
shadowsocks_setup env proto server_addr = record {
  gnet = env.gnet;
  parser = shadowsocks_parser env;
  proto = proto;
  server_addr = server_addr;
}

-- The buffer has not grown, and is shorter if there is plaintext.
abbrev pub IsTaken : List ℕ → DecodeEnd → Type 0
IsTaken buf none = Unit
IsTaken buf (some (sc, rest, plain)) =
    (length rest ≤ length buf) × (0 < length plain → length rest < length buf)

on_decrypted-IsTaken :
    (Q : Type 0) (limit : ℕ) (env : SsEnv) (sc : SsConn) (buf : List ℕ) (r : Decrypted)
    → IsGnet env.gnet
    → IsCounted Q limit (length buf) r
    → IsTaken buf (on_decrypted env sc buf r)
on_decrypted-IsTaken Q limit env sc buf (err e) laws h = tt
on_decrypted-IsTaken Q limit env sc buf (ok (d, plain, n)) laws h = elim (Bool-cases (ltb 0 n)) [
  | inl some_taken ↦
      let pos : 0 < n = ground (arith, some_taken) in
      rw (some_taken, laws.discard_some buf n pos h.1)
        (omega (arith, length-drop n buf), λ lt. omega (arith, length-drop n buf, pos, h.1))
  | inr nothing ↦ rw nothing (omega arith, λ lt. absurd (ground (arith, nothing, h.2 lt)))
]

pub decode_payload-IsTaken :
    (env : SsEnv) (sc : SsConn) (buf : List ℕ)
    → IsGnet env.gnet
    → IsTaken buf (decode_payload env sc buf)
unfolding decode_payload
decode_payload-IsTaken env sc buf laws = rw (laws.peek_all buf) (
    on_decrypted-IsTaken _ max_decoded_payload env sc buf
      (decrypt env.crypto env.cipher sc.dec buf max_decoded_payload) laws
      (decrypt-IsCounted env.crypto env.cipher sc.dec buf max_decoded_payload (omega arith)))

-- The buffer does not grow, and is shorter if a payload is decoded.
record Takes (buf : List ℕ) (e : ParseEnd SsParser) : Type 0 where
  shrinks : length e.buffer ≤ length buf
  decodes : (r : ParseResult) → e.result ≡ some r → r.payload ≢ none → length e.buffer < length buf

on_address-Takes :
    (buf : List ℕ) (p : SsParser) (conn : ℕ) (sc : SsConn) (plain rest : List ℕ) (a : Address)
    → length rest < length buf
    → Takes buf (on_address p conn sc plain rest a)
on_address-Takes buf p conn sc plain rest address_bad lt = record {
  shrinks = omega arith;
  decodes = λ r e has. lt;
}
on_address-Takes buf p conn sc plain rest address_waits lt = record {
  shrinks = omega arith;
  decodes = λ r e has. lt;
}
on_address-Takes buf p conn sc plain rest (address_at host port n) lt = record {
  shrinks = omega arith;
  decodes = λ r e has. lt;
}

on_plain-Takes :
    (buf : List ℕ) (p : SsParser) (conn : ℕ) (sc : SsConn) (rest plain : List ℕ) (named : Bool)
    → length rest < length buf
    → Takes buf (on_plain p conn sc rest plain named)
on_plain-Takes buf p conn sc rest plain true lt = record {
  shrinks = omega arith;
  decodes = λ r e has. lt;
}
on_plain-Takes buf p conn sc rest plain false lt =
    on_address-Takes buf p conn sc (sc.plaintext ++ plain) rest
      (parse_shadowsocks_address (sc.plaintext ++ plain)) lt

on_decoded-Takes :
    (buf : List ℕ) (p : SsParser) (conn : ℕ) (o : DecodeEnd)
    → IsTaken buf o
    → Takes buf (on_decoded p conn buf o)
on_decoded-Takes buf p conn none h = record {
  shrinks = omega arith;
  decodes = λ r e has. absurd (cc);
}
on_decoded-Takes buf p conn (some (sc, rest, plain)) h = elim (Bool-cases (length plain == 0)) [
  | inl empty ↦ rw empty (record {
    shrinks = h.0;
    decodes = λ r e has. absurd (has (raw_decodes (some (no_plain sc)) r (raw sc.addr_done) e));
  })
  | inr more ↦
      rw more (on_plain-Takes buf p conn sc rest plain sc.addr_done (h.1 (ground (arith, more))))
]
  where
    raw : (b : Bool) → (if b then waits_in_tunnel sc.dest else waits_for_address).payload ≡ none
    raw true = refl
    raw false = refl

pub shadowsocks_setup-IsConsuming :
    (env : SsEnv) (proto : InternalPacket) (server_addr : List ℕ)
    → IsGnet env.gnet
    → IsConsuming (shadowsocks_setup env proto server_addr)
unfolding parse_shadowsocks
shadowsocks_setup-IsConsuming env proto server_addr laws = record {
  gnet_laws = laws;
  shrinks = λ p conn buf.
      (on_decoded-Takes buf p conn (decode_payload env (get_conn p conn) buf)
        (decode_payload-IsTaken env (get_conn p conn) buf laws)).shrinks;
  decodes = λ p conn buf r e has.
      (on_decoded-Takes buf p conn (decode_payload env (get_conn p conn) buf)
          (decode_payload-IsTaken env (get_conn p conn) buf laws)).decodes
        r e has;
}

-- In the Shadowsocks mode the client's `OnTraffic` returns on every buffer, in every state and
-- whatever the cryptography does, if gnet's buffer behaves as documented.
pub on_traffic-parse_shadowsocks :
    (env : SsEnv) (proto : InternalPacket) (server_addr : List ℕ) (f : Forwarder SsParser)
    (conn : ℕ) (buf : List ℕ)
    → IsGnet env.gnet
    → (on_traffic (shadowsocks_setup env proto server_addr) f conn buf).action ≢ stuck
on_traffic-parse_shadowsocks env proto server_addr f conn buf laws =
    on_traffic-ne-stuck (shadowsocks_setup env proto server_addr) f conn buf
      (shadowsocks_setup-IsConsuming env proto server_addr laws)
