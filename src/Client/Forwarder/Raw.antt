-- ===== src/Client/Forwarder/Raw.antt =====
-- client/forwarder.go over a parser that decodes nothing: what `OnTraffic` needs of it to end.
use gforward.Prelude.{ℕ, ◌≤◌, ◌≡◌, Option, none, some, List, length}
use gforward.Destination.Parser.{IsGnet, ParseResult}
use gforward.Client.Forwarder.{Setup}
use gforward.Client.Forwarder.Traffic.{IsConsuming}

-- A result without a decoded payload.
abbrev pub IsRaw : Option ParseResult → Type 0
IsRaw none = Unit
IsRaw (some r) = r.payload ≡ none

pub raw_decodes :
    (o : Option ParseResult) (r : ParseResult) → IsRaw o → o ≡ some r → r.payload ≡ none
raw_decodes none r h e = absurd (cc)
raw_decodes (some x) r h e = let same : x ≡ r = cc in rw same at h

-- A parser that puts nothing into the buffer and decodes nothing.
pub raw-IsConsuming :
    {P : Type 0} (env : Setup P)
    → IsGnet env.gnet
    → ((p : P) (conn : ℕ) (buf : List ℕ)
        → (length (env.parser.parse p conn buf).buffer ≤ length buf)
          × IsRaw (env.parser.parse p conn buf).result)
    → IsConsuming env
raw-IsConsuming env laws raw = record {
  gnet_laws = laws;
  shrinks = λ p conn buf. (raw p conn buf).0;
  decodes = λ p conn buf r e has.
      absurd (has (raw_decodes (env.parser.parse p conn buf).result r (raw p conn buf).1 e));
}
