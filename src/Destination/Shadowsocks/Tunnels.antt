-- ===== src/Destination/Shadowsocks/Tunnels.antt =====
-- A user of Shadowsocks and the client: what a user seals with `encrypt`, message by message,
-- through `Parse` of client/destination/shadowsocks.go; and what `EncodePayload` answers.
use gforward.Prelude.{
  ℕ, ◌≤◌, ◌<◌, ◌≡◌, refl, ap, ◌∙◌, true, false, Option, none, some, List, [], ◌∷◌, ◌++◌, length,
  drop, ltb, ◌==◌, if◌then◌else◌, ok, arith, ==_refl, length-append, drop_append, append-nil,
  Bool-cases, inl, inr, length_zero,
}
use gforward.Destination.Parser.{IsGnet, ParseResult}
use gforward.Destination.Shadowsocks.{SsState, Decrypted, decrypt, max_decoded_payload, fresh_state}
use gforward.Destination.Shadowsocks.Encrypter.{encrypt}
use gforward.Destination.Shadowsocks.RoundTrip.{IsCrypto, InStep, before_salt, decrypt-encrypt}
use gforward.Destination.Shadowsocks.Headers.{
  domain_header, parse_shadowsocks_address-domain_header, length-domain_header,
}
use gforward.Destination.Shadowsocks.Conns.{
  SsConn, SsParser, SsEnv, decode_payload, parse_shadowsocks, get_conn, on_plain, put, new_ss_conn,
  payload_for, dest_of, ss_end,
}

-- The user seals plaintexts that are not empty and fit a read, each in a message of its own.
pub data Sends (env : SsEnv) : SsState → List (List ℕ) → List (List ℕ) → Type 0 where
  sends_none : (e : SsState) → Sends env e [] []
  sends :
      (e e' : SsState) (draw : ℕ) (plain bytes : List ℕ) (plains msgs : List (List ℕ))
      → 0 < length plain
      → length plain ≤ max_decoded_payload
      → encrypt env.crypto env.cipher draw e plain ≡ ok (e', bytes)
      → Sends env e' plains msgs
      → Sends env e (plain ∷ plains) (bytes ∷ msgs)

-- `Parse` on one message after the other: what it answers and what it leaves of each.
unfoldable pub parse_all : SsEnv → SsParser → ℕ → List (List ℕ) → List (Option ParseResult × List ℕ)
parse_all env p conn [] = []
parse_all env p conn (msg ∷ msgs) =
    let e = parse_shadowsocks env p conn msg in
    (e.result, e.buffer) ∷ parse_all env e.state conn msgs

-- The answers that hand over these payloads, and leave nothing.
abbrev pub handed_over : List ℕ → List (List ℕ) → List (Option ParseResult × List ℕ)
handed_over dest [] = []
handed_over dest (plain ∷ plains) = (some (payload_for dest plain), []) ∷ handed_over dest plains

plus_nil :
    (d : SsState) (bytes : List ℕ) (env : SsEnv) (r : Decrypted)
    → decrypt env.crypto env.cipher d (bytes ++ []) max_decoded_payload ≡ r
    → decrypt env.crypto env.cipher d bytes max_decoded_payload ≡ r
plus_nil d bytes env r e = rw (append-nil bytes) at e

drop_all : (xs : List ℕ) → drop (length xs) xs ≡ []
drop_all xs =
    let e : drop (length xs) (xs ++ []) ≡ [] = drop_append xs [] in rw (append-nil xs) at e

-- What has been shown is discarded whole.
discards_all :
    (env : SsEnv) (buf : List ℕ)
    → IsGnet env.gnet
    → (if ltb 0 (length buf) then env.gnet.discard buf (length buf) else buf) ≡ []
discards_all env buf gnet = elim (Bool-cases (ltb 0 (length buf))) [
  | inl some_shown ↦
      rw (some_shown, gnet.discard_some buf (length buf) (ground (arith, some_shown)) (omega arith))
        (drop_all buf)
  | inr nothing ↦ rw nothing (length_zero buf (ground (arith, nothing)))
]

decode_payload_lem :
    (env : SsEnv) (sc : SsConn) (d : SsState) (plain bytes : List ℕ)
    → IsGnet env.gnet
    → decrypt env.crypto env.cipher sc.dec (bytes ++ []) max_decoded_payload
      ≡ ok (d, plain, length bytes)
    → decode_payload env sc bytes ≡ some (record sc { dec = d }, [], plain)
unfolding decode_payload
decode_payload_lem env sc d plain bytes gnet opens =
    let opened = plus_nil sc.dec bytes env (ok (d, plain, length bytes)) opens in
    rw (gnet.peek_all bytes, opened)
      (ap (λ rest. some (record sc { dec = d }, rest, plain)) (discards_all env bytes gnet))

-- `decodePayload` on a sealed message.
decode_payload-encrypt :
    (env : SsEnv) (sc : SsConn) (draw : ℕ) (e e' : SsState) (plain bytes : List ℕ)
    → IsGnet env.gnet
    → IsCrypto env.crypto env.cipher
    → InStep e sc.dec
    → length plain ≤ max_decoded_payload
    → encrypt env.crypto env.cipher draw e plain ≡ ok (e', bytes)
    → (d : SsState) × (decode_payload env sc bytes ≡ some (record sc { dec = d }, [], plain))
      × InStep e' d
decode_payload-encrypt env sc draw e e' plain bytes gnet laws step fits sealed =
    let (d, opens, step') =
      decrypt-encrypt env.crypto env.cipher max_decoded_payload plain [] draw e sc.dec e' bytes laws
        step sealed (λ a h. omega arith) fits in
    (d, decode_payload_lem env sc d plain bytes gnet opens, step')

abbrev named_conn : SsState → List ℕ → SsConn
named_conn d dest = record {
  dec = d;
  enc = fresh_state;
  plaintext = [];
  addr_done = true;
  dest = dest;
}

parse_named :
    (env : SsEnv) (p : SsParser) (conn : ℕ) (sc sc' : SsConn) (plain bytes : List ℕ)
    → p.conns conn ≡ some sc
    → decode_payload env sc bytes ≡ some (sc', [], plain)
    → 0 < length plain
    → sc'.addr_done ≡ true
    → parse_shadowsocks env p conn bytes
      ≡ ss_end (put p conn sc') [] (some (payload_for sc'.dest plain))
unfolding parse_shadowsocks get_conn
parse_named env p conn sc sc' plain bytes there decoded lo named =
    let more : (length plain == 0) ≡ false = ground (arith, lo) in
    rw (there, decoded, more) (ap (on_plain p conn sc' [] plain) named)

parse_new :
    (env : SsEnv) (p : SsParser) (conn : ℕ) (d : SsState) (name plain bytes : List ℕ) (port : ℕ)
    → p.conns conn ≡ none
    → decode_payload env new_ss_conn bytes
      ≡ some (record new_ss_conn { dec = d }, [], domain_header name port ++ plain)
    → 0 < length name
    → port < 65536
    → parse_shadowsocks env p conn bytes
      ≡ ss_end
          (put p conn (named_conn d (dest_of name port)))
          []
          (some (payload_for (dest_of name port) plain))
unfolding parse_shadowsocks get_conn
parse_new env p conn d name plain bytes port fresh decoded lo fits =
    let size = length-append (domain_header name port) plain in
    let header = length-domain_header name port in
    let more : (length (domain_header name port ++ plain) == 0) ≡ false = ground (arith, size) in
    rw
      (
        fresh,
        decoded,
        more,
        parse_shadowsocks_address-domain_header name port plain lo fits,
        drop_append (domain_header name port) plain,
      )
      refl

-- A connection with an address, in step with the user.
parse_all-tunnel :
    (env : SsEnv) (p : SsParser) (conn : ℕ) (sc : SsConn) (e : SsState)
    (plains msgs : List (List ℕ))
    → IsGnet env.gnet
    → IsCrypto env.crypto env.cipher
    → p.conns conn ≡ some sc
    → sc.addr_done ≡ true
    → InStep e sc.dec
    → Sends env e plains msgs
    → parse_all env p conn msgs ≡ handed_over sc.dest plains
unfolding parse_all
parse_all-tunnel env p conn sc _ _ _ gnet laws there named step (sends_none e) = refl
parse_all-tunnel env p conn sc _ _ _ gnet laws there named step
      (sends e e' draw plain bytes plains msgs lo fits sealed rest) =
    let (d, decoded, step') =
      decode_payload-encrypt env sc draw e e' plain bytes gnet laws step fits sealed in
    let sc' : SsConn = record sc { dec = d } in
    let ih =
      parse_all-tunnel env (put p conn sc') conn sc' e' plains msgs gnet laws
        (let same = ==_refl conn in rw same refl) named step' rest in
    ap (λ end. (end.result, end.buffer) ∷ parse_all env end.state conn msgs)
      (parse_named env p conn sc sc' plain bytes there decoded lo named)
    ∙ ap (◌∷◌ (some (payload_for sc.dest plain), [])) ih

-- A user of a new connection asks for a domain name and a port, with data behind, and then sends
-- more data, each message sealed by `encrypt` and at most 65535 bytes before: `Parse` hands over the
-- host and the port, and the data of each message, in order and without the header, and leaves
-- nothing of a message in the buffer.
pub parse_all-Sends :
    (env : SsEnv) (p : SsParser) (conn : ℕ) (name : List ℕ) (port : ℕ) (first : List ℕ)
    (plains msgs : List (List ℕ))
    → IsGnet env.gnet
    → IsCrypto env.crypto env.cipher
    → p.conns conn ≡ none
    → 0 < length name
    → port < 65536
    → Sends env fresh_state ((domain_header name port ++ first) ∷ plains) msgs
    → parse_all env p conn msgs ≡ handed_over (dest_of name port) (first ∷ plains)
unfolding parse_all
parse_all-Sends env p conn name port first plains _ gnet laws fresh lo small
      (sends _ e' draw _ bytes _ msgs some_plain fits sealed rest) =
    let (d, decoded, step') =
      decode_payload-encrypt env new_ss_conn draw fresh_state e' (domain_header name port ++ first)
        bytes gnet laws before_salt fits sealed in
    let sc = named_conn d (dest_of name port) in
    let ih =
      parse_all-tunnel env (put p conn sc) conn sc e' plains msgs gnet laws
        (let same = ==_refl conn in rw same refl) refl step' rest in
    ap (λ end. (end.result, end.buffer) ∷ parse_all env end.state conn msgs)
      (parse_new env p conn d name first bytes port fresh decoded lo small)
    ∙ ap (◌∷◌ (some (payload_for (dest_of name port) first), [])) ih
