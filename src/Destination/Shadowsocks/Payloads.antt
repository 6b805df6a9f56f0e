-- ===== src/Destination/Shadowsocks/Payloads.antt =====
-- client/destination/shadowsocks.go under client/forwarder.go: the sizes of the decoded payloads.
use gforward.Prelude.{
  ℕ, ◌≤◌, ◌≡◌, refl, sym, ◌∙◌, true, false, Bool, none, some, List, ◌++◌, length, drop, ltb, ◌==◌,
  if◌then◌else◌, ok, err, arith, Bool-cases, Option-cases, inl, inr, length-drop, length-append,
}
use gforward.Destination.Parser.{IsGnet, ParseResult, ParseEnd}
use gforward.Destination.Shadowsocks.{Decrypted, decrypt, max_decoded_payload}
use gforward.Destination.Shadowsocks.Encrypter.{Encrypted}
use gforward.Destination.Shadowsocks.RoundTrip.{IsCrypto}
use gforward.Destination.Shadowsocks.Limits.{IsMeasured, decrypt-IsMeasured}
use gforward.Destination.Shadowsocks.Address.{
  Address, address_waits, address_bad, address_at, parse_shadowsocks_address,
}
use gforward.Destination.Shadowsocks.Headers.{IsHeaderOf, parse_shadowsocks_address-IsHeaderOf}
use gforward.Destination.Shadowsocks.Conns.{
  SsConn, SsParser, SsEnv, DecodeEnd, on_decrypted, decode_payload, on_address, on_plain,
  on_decoded, parse_shadowsocks, get_conn, clear_shadowsocks, encode_payload, on_encrypted,
  empty_parser, count_draw, no_plain, waits_in_tunnel, waits_for_address, payload_for, dest_of,
}
use gforward.Destination.Shadowsocks.Soundness.{
  IsConn, IsParser, DecryptsSoundly, decrypt_soundly, EncryptsSoundly, encrypt_soundly,
  put-IsParser, clear-IsParser, get_conn-IsConn,
}
use gforward.Client.Forwarder.{cut, cut_to}

-- Behind `Parse`: every connection is sound, and a decoded payload is 65535 bytes at most.
record IsFit (e : ParseEnd SsParser) : Type 0 where
  all : IsParser e.state
  fits : (r : ParseResult) (x : List ℕ) → e.result ≡ some r → r.payload ≡ some x → length x ≤ 65535

some_inj : {A : Type 0} (x y : A) → some x ≡ some y → x ≡ y
some_inj x y e = cc

-- A result with this payload, or without one.
fits_if :
    (r r' : ParseResult) (x x' : List ℕ)
    → r.payload ≡ some x
    → length x ≤ 65535
    → some r ≡ some r'
    → r'.payload ≡ some x'
    → length x' ≤ 65535
fits_if r r' x x' has le same has' =
    let e = some_inj r r' same in
    let has'' : some x ≡ some x' = sym has ∙ (rw e has') in
    let e' = some_inj x x' has'' in rw e' at le

without_payload :
    (r r' : ParseResult) (x : List ℕ)
    → r.payload ≡ none
    → some r ≡ some r'
    → r'.payload ≡ some x
    → length x ≤ 65535
without_payload r r' x bare same has =
    let e = some_inj r r' same in let bad = rw e at bare in absurd (cc)

-- The plaintext with its predecessors, up to an address header.
on_address-IsFit :
    (p : SsParser) (conn : ℕ) (sc : SsConn) (old more rest : List ℕ) (a : Address)
    → IsParser p
    → IsConn sc
    → length more ≤ 65535
    → parse_shadowsocks_address (old ++ more) ≡ a
    → IsHeaderOf old more a
    → IsFit (on_address p conn sc (old ++ more) rest a)
on_address-IsFit p conn sc old more rest address_bad all one le e h = record {
  all = clear-IsParser p conn all;
  fits = λ r x e. absurd (cc);
}
on_address-IsFit p conn sc old more rest address_waits all one le e h = record {
  all =
      put-IsParser p conn (record sc { plaintext = old ++ more }) all
        (record { dec_sound = one.dec_sound; enc_sound = one.enc_sound; waits = λ f. e });
  fits = λ r x. without_payload waits_for_address r x refl;
}
on_address-IsFit p conn sc old more rest (address_at host port n) all one le e h = record {
  all =
      put-IsParser p conn _ all
        (record { dec_sound = one.dec_sound; enc_sound = one.enc_sound; waits = λ f. absurd (cc) });
  fits = λ r x.
      fits_if (payload_for (dest_of host port) (drop n (old ++ more))) r (drop n (old ++ more)) x
        refl (omega (arith, length-drop n (old ++ more), length-append old more, h.0, le));
}

-- What `decodePayload` leaves is sound, and its plaintext within the limit.
abbrev IsDecoded : DecodeEnd → Type 0
IsDecoded none = Unit
IsDecoded (some (sc, rest, plain)) = IsConn sc × (length plain ≤ 65535)

on_decrypted-IsDecoded :
    (env : SsEnv) (sc : SsConn) (buf : List ℕ) (r : Decrypted) (len : ℕ)
    → IsConn sc
    → IsMeasured max_decoded_payload len r
    → DecryptsSoundly r
    → IsDecoded (on_decrypted env sc buf r)
on_decrypted-IsDecoded env sc buf (err e) len one h s = tt
on_decrypted-IsDecoded env sc buf (ok (d, plain, n)) len one h s =
    (record { dec_sound = s; enc_sound = one.enc_sound; waits = one.waits }, h.0)

decode_payload-IsDecoded :
    (env : SsEnv) (sc : SsConn) (buf : List ℕ)
    → IsGnet env.gnet
    → IsCrypto env.crypto env.cipher
    → IsConn sc
    → IsDecoded (decode_payload env sc buf)
unfolding decode_payload
decode_payload-IsDecoded env sc buf gnet laws one =
    let r = decrypt env.crypto env.cipher sc.dec buf max_decoded_payload in
    rw (gnet.peek_all buf) (
      on_decrypted-IsDecoded env sc buf r (length buf) one
        (decrypt-IsMeasured env.crypto env.cipher sc.dec buf max_decoded_payload laws one.dec_sound
          (omega arith))
        (decrypt_soundly env.crypto env.cipher sc.dec buf max_decoded_payload laws one.dec_sound))

on_plain-IsFit :
    (p : SsParser) (conn : ℕ) (sc : SsConn) (rest plain : List ℕ) (named : Bool)
    → IsParser p
    → IsConn sc
    → sc.addr_done ≡ named
    → length plain ≤ 65535
    → IsFit (on_plain p conn sc rest plain named)
on_plain-IsFit p conn sc rest plain true all one e le = record {
  all = put-IsParser p conn sc all one;
  fits = λ r x. fits_if (payload_for sc.dest plain) r plain x refl le;
}
on_plain-IsFit p conn sc rest plain false all one e le =
    on_address-IsFit p conn sc sc.plaintext plain rest
      (parse_shadowsocks_address (sc.plaintext ++ plain)) all one le refl
      (parse_shadowsocks_address-IsHeaderOf sc.plaintext plain (one.waits e))

bare_no_plain :
    (dest : List ℕ) (b : Bool)
    → (if b then waits_in_tunnel dest else waits_for_address).payload ≡ none
bare_no_plain dest true = refl
bare_no_plain dest false = refl

on_decoded-IsFit :
    (p : SsParser) (conn : ℕ) (buf : List ℕ) (o : DecodeEnd)
    → IsParser p
    → IsDecoded o
    → IsFit (on_decoded p conn buf o)
on_decoded-IsFit p conn buf none all h = record {
  all = clear-IsParser p conn all;
  fits = λ r x e. absurd (cc);
}
on_decoded-IsFit p conn buf (some (sc, rest, plain)) all (one, le) =
    elim (Bool-cases (length plain == 0)) [
      | inl empty ↦ rw empty (record {
        all = put-IsParser p conn sc all one;
        fits = λ r x. without_payload (no_plain sc) r x (bare_no_plain sc.dest sc.addr_done);
      })
      | inr more ↦ rw more (on_plain-IsFit p conn sc rest plain sc.addr_done all one refl le)
    ]

parse_shadowsocks-IsFit :
    (env : SsEnv) (p : SsParser) (conn : ℕ) (buf : List ℕ)
    → IsGnet env.gnet
    → IsCrypto env.crypto env.cipher
    → IsParser p
    → IsFit (parse_shadowsocks env p conn buf)
unfolding parse_shadowsocks
parse_shadowsocks-IsFit env p conn buf gnet laws all =
    on_decoded-IsFit p conn buf (decode_payload env (get_conn p conn) buf) all
      (decode_payload-IsDecoded env (get_conn p conn) buf gnet laws (get_conn-IsConn p conn all))

on_encrypted-IsParser :
    (p : SsParser) (conn : ℕ) (sc : SsConn) (r : Encrypted)
    → IsParser p
    → IsConn sc
    → EncryptsSoundly r
    → IsParser (on_encrypted p conn sc r).0
on_encrypted-IsParser p conn sc (err e) all one s = all
on_encrypted-IsParser p conn sc (ok (e, bytes)) all one s =
    put-IsParser (record p { draws = count_draw sc.enc.aead p.draws }) conn (record sc { enc = e })
      all (record { dec_sound = one.dec_sound; enc_sound = s; waits = one.waits })

encode_payload-IsParser :
    (env : SsEnv) (p : SsParser) (conn : ℕ) (payload : List ℕ)
    → IsCrypto env.crypto env.cipher
    → IsParser p
    → IsParser (encode_payload env p conn payload).0
unfolding encode_payload
encode_payload-IsParser env p conn payload laws all = elim (Option-cases (p.conns conn)) [
  | inl missing ↦ rw missing all
  | inr (sc, there) ↦
      let one = all conn sc there in
      rw there (
        on_encrypted-IsParser p conn sc _ all one
          (encrypt_soundly env.crypto env.cipher p.draws sc.enc payload laws one.enc_sound))
]

-- The states of the parser: the first one, and what its methods make of one.
pub data Reach (env : SsEnv) : SsParser → Type 0 where
  at_first : Reach env empty_parser
  parsed :
      (p : SsParser) (conn : ℕ) (buf : List ℕ)
      → Reach env p
      → Reach env (parse_shadowsocks env p conn buf).state
  encoded :
      (p : SsParser) (conn : ℕ) (payload : List ℕ)
      → Reach env p
      → Reach env (encode_payload env p conn payload).0
  cleared : (p : SsParser) (conn : ℕ) → Reach env p → Reach env (clear_shadowsocks p conn)

Reach-IsParser :
    (env : SsEnv) (p : SsParser)
    → IsGnet env.gnet
    → IsCrypto env.crypto env.cipher
    → Reach env p
    → IsParser p
Reach-IsParser env _ gnet laws at_first = λ conn sc e. absurd (cc)
Reach-IsParser env _ gnet laws (parsed p conn buf r) =
    (parse_shadowsocks-IsFit env p conn buf gnet laws (Reach-IsParser env p gnet laws r)).all
Reach-IsParser env _ gnet laws (encoded p conn payload r) =
    encode_payload-IsParser env p conn payload laws (Reach-IsParser env p gnet laws r)
Reach-IsParser env _ gnet laws (cleared p conn r) =
    clear-IsParser p conn (Reach-IsParser env p gnet laws r)

cut_short : (n : ℕ) (x : List ℕ) → length x ≤ n → cut_to n x ≡ x
cut_short n x h = let short : ltb n (length x) ≡ false = ground (arith, h) in rw short refl

-- A payload that `Parse` hands to the client is sent whole: `OnTraffic` of the client cuts nothing
-- off it. So it is in every state that the parser comes to from its first one, whatever it parses,
-- encodes and clears on whatever connections.
pub Reach-cut :
    (env : SsEnv) (p : SsParser) (conn : ℕ) (buf : List ℕ) (r : ParseResult) (payload : List ℕ)
    → IsGnet env.gnet
    → IsCrypto env.crypto env.cipher
    → Reach env p
    → (parse_shadowsocks env p conn buf).result ≡ some r
    → r.payload ≡ some payload
    → cut payload ≡ payload
unfolding cut
Reach-cut env p conn buf r payload gnet laws reached e has = cut_short 65535 payload (
    (parse_shadowsocks-IsFit env p conn buf gnet laws (Reach-IsParser env p gnet laws reached)).fits
      r payload e has)
