-- ===== src/Destination/Shadowsocks/Conns.antt =====
-- `shadowsocksConn` and `ShadowsocksParser` of client/destination/shadowsocks.go: the connections
-- and the methods of the parser. `draws` counts the calls of `rand.Read`.
use gforward.Prelude.{
  ℕ, suc, Bool, true, false, Option, none, some, List, [], ◌++◌, length, drop, ltb, ◌==◌,
  if◌then◌else◌, ok, err, empty_map, insert, delete,
}
use gforward.Protocol.Decimal.{itoa}
use gforward.Protocol.HostPort.{join_host_port}
use gforward.Destination.Parser.{
  Gnet, Parser, ParseResult, ParseEnd, parse_need_more_data, parse_done,
}
use gforward.Destination.Shadowsocks.{
  Crypto, SsAead, SsState, fresh_state, new_ss_aead, max_decoded_payload, Decrypted, decrypt,
}
use gforward.Destination.Shadowsocks.Encrypter.{Encrypted, encrypt}
use gforward.Destination.Shadowsocks.Address.{
  Address, address_waits, address_bad, address_at, parse_shadowsocks_address,
}

-- A payload that is handed over leaves no plaintext behind.
pub record SsConn : Type 0 where
  pub dec : SsState
  pub enc : SsState
  pub plaintext : List ℕ
  pub addr_done : Bool
  pub dest : List ℕ

pub record SsParser : Type 0 where
  pub conns : ℕ → Option SsConn
  pub draws : ℕ

-- What stays: gnet's buffers, the cryptography and the field `cipher`.
pub record SsEnv : Type 0 where
  pub gnet : Gnet
  pub crypto : Crypto
  pub cipher : SsAead

-- `ParseConfig`
pub record ParseConfig : Type 0 where
  pub method : List ℕ
  pub password : List ℕ

abbrev pub empty_parser : SsParser
empty_parser = record { conns = empty_map; draws = 0 }

abbrev pub with_cipher : Gnet → Crypto → Option SsAead → Option (SsEnv × SsParser)
with_cipher g crypto none = none
with_cipher g crypto (some c) =
    some (record { gnet = g; crypto = crypto; cipher = c }, empty_parser)

-- `NewShadowsocksParser`; a missing configuration and none of a result are the panics.
unfoldable pub new_shadowsocks_parser :
    Gnet → Crypto → Option ParseConfig → Option (SsEnv × SsParser)
new_shadowsocks_parser g crypto none = none
new_shadowsocks_parser g crypto (some cfg) =
    with_cipher g crypto (new_ss_aead crypto cfg.method cfg.password)

abbrev pub new_ss_conn : SsConn
new_ss_conn = record {
  dec = fresh_state;
  enc = fresh_state;
  plaintext = [];
  addr_done = false;
  dest = [];
}

abbrev pub or_new : Option SsConn → SsConn
or_new none = new_ss_conn
or_new (some sc) = sc

-- `getConn`; `put` is also how a method's changes through the pointer are seen in the map.
unfoldable pub get_conn : SsParser → ℕ → SsConn
get_conn p conn = or_new (p.conns conn)

abbrev pub put : SsParser → ℕ → SsConn → SsParser
put p conn sc = record p { conns = insert conn sc p.conns }

unfoldable pub clear_shadowsocks : SsParser → ℕ → SsParser
clear_shadowsocks p conn = record p { conns = delete conn p.conns }

-- `encrypt` draws a salt if there is no session.
abbrev pub count_draw : {A : Type 0} → Option A → ℕ → ℕ
count_draw none draws = suc draws
count_draw (some a) draws = draws

abbrev pub on_encrypted : SsParser → ℕ → SsConn → Encrypted → SsParser × Option (List ℕ)
on_encrypted p conn sc (err e) = (record p { draws = count_draw sc.enc.aead p.draws }, none)
on_encrypted p conn sc (ok (e, bytes)) = (
  put (record p { draws = count_draw sc.enc.aead p.draws }) conn (record sc { enc = e }),
  some bytes,
)

abbrev pub encode_for : SsEnv → SsParser → ℕ → List ℕ → Option SsConn → SsParser × Option (List ℕ)
encode_for env p conn payload none = (p, none)
encode_for env p conn payload (some sc) =
    on_encrypted p conn sc (encrypt env.crypto env.cipher p.draws sc.enc payload)

-- `EncodePayload`; `encrypt` leaves its state as it was when it fails.
unfoldable pub encode_payload : SsEnv → SsParser → ℕ → List ℕ → SsParser × Option (List ℕ)
encode_payload env p conn payload = encode_for env p conn payload (p.conns conn)

-- What `decodePayload` leaves: a failure, or the connection, the buffer and the plaintext, none if
-- it is to wait. `Discard` of what has been shown does not fail.
abbrev pub DecodeEnd : Type 0
DecodeEnd = Option (SsConn × List ℕ × List ℕ)

abbrev pub on_decrypted : SsEnv → SsConn → List ℕ → Decrypted → DecodeEnd
on_decrypted env sc buf (err e) = none
on_decrypted env sc buf (ok (d, plain, consumed)) =
    some
      (record sc { dec = d }, if ltb 0 consumed then env.gnet.discard buf consumed else buf, plain)

abbrev pub on_shown : SsEnv → SsConn → List ℕ → Option (List ℕ) → DecodeEnd
on_shown env sc buf none = none
on_shown env sc buf (some shown) =
    on_decrypted env sc buf (decrypt env.crypto env.cipher sc.dec shown max_decoded_payload)

unfoldable pub decode_payload : SsEnv → SsConn → List ℕ → DecodeEnd
decode_payload env sc buf = on_shown env sc buf (env.gnet.peek buf 0)

abbrev pub ss_end : SsParser → List ℕ → Option ParseResult → ParseEnd SsParser
ss_end p buf r = record { state = p; buffer = buf; written = []; result = r }

abbrev pub payload_for : List ℕ → List ℕ → ParseResult
payload_for dest payload = record {
  status = parse_done;
  destination = dest;
  per_request = true;
  payload_len = 0;
  payload = some payload;
}

abbrev pub waits_in_tunnel : List ℕ → ParseResult
waits_in_tunnel dest = record {
  status = parse_need_more_data;
  destination = dest;
  per_request = true;
  payload_len = 0;
  payload = none;
}

abbrev pub waits_for_address : ParseResult
waits_for_address = record {
  status = parse_need_more_data;
  destination = [];
  per_request = false;
  payload_len = 0;
  payload = none;
}

-- `reject`: the connection is forgotten.
abbrev pub reject : SsParser → ℕ → List ℕ → ParseEnd SsParser
reject p conn buf = ss_end (clear_shadowsocks p conn) buf none

-- `net.JoinHostPort(host, strconv.Itoa(port))`
abbrev pub dest_of : List ℕ → ℕ → List ℕ
dest_of host port = join_host_port host (itoa port)

-- The plaintext so far, behind `parseShadowsocksAddress`.
abbrev pub on_address : SsParser → ℕ → SsConn → List ℕ → List ℕ → Address → ParseEnd SsParser
on_address p conn sc plain buf address_bad = reject p conn buf
on_address p conn sc plain buf address_waits =
    ss_end (put p conn (record sc { plaintext = plain })) buf (some waits_for_address)
on_address p conn sc plain buf (address_at host port n) =
    ss_end (put p conn (record sc { plaintext = []; addr_done = true; dest = dest_of host port }))
      buf (some (payload_for (dest_of host port) (drop n plain)))

abbrev pub on_plain : SsParser → ℕ → SsConn → List ℕ → List ℕ → Bool → ParseEnd SsParser
on_plain p conn sc buf plain true = ss_end (put p conn sc) buf (some (payload_for sc.dest plain))
on_plain p conn sc buf plain false =
    on_address p conn sc (sc.plaintext ++ plain) buf
      (parse_shadowsocks_address (sc.plaintext ++ plain))

abbrev pub no_plain : SsConn → ParseResult
no_plain sc = if sc.addr_done then waits_in_tunnel sc.dest else waits_for_address

abbrev pub on_decoded : SsParser → ℕ → List ℕ → DecodeEnd → ParseEnd SsParser
on_decoded p conn buf none = reject p conn buf
on_decoded p conn buf (some (sc, rest, plain)) =
    if length plain == 0
    then ss_end (put p conn sc) rest (some (no_plain sc))
    else on_plain p conn sc rest plain sc.addr_done

-- `Parse`
unfoldable pub parse_shadowsocks : SsEnv → SsParser → ℕ → List ℕ → ParseEnd SsParser
parse_shadowsocks env p conn buf = on_decoded p conn buf (decode_payload env (get_conn p conn) buf)

-- The parser's methods, as the client uses them.
abbrev pub shadowsocks_parser : SsEnv → Parser SsParser
shadowsocks_parser env = record {
  parse = parse_shadowsocks env;
  clear = some clear_shadowsocks;
  encode_payload = some (encode_payload env);
}
