-- ===== src/Destination/Parser.antt =====
-- client/destination/parser.go: what a parser of destinations is to the client, and the parser that
-- a protocol name chooses. gnet is outside the model: `Gnet` is the inbound buffer's interface. A
-- parser changes its own state and the buffer, and may write to the connection at once.
use gforward.Prelude.{
  ℕ, ◌<◌, ◌≤◌, ◌≡◌, Bool, Option, none, some, List, [], ◌∷◌, length, take, drop, str_eq,
  if◌then◌else◌,
}

-- `Peek(n)` and `Discard(n)` on the bytes that are buffered; `none` is an error, and 0 stands for
-- every n that is not positive.
pub record Gnet : Type 0 where
  pub peek : List ℕ → ℕ → Option (List ℕ)
  pub discard : List ℕ → ℕ → List ℕ

-- The documented behaviour: `Peek` shows the first n bytes, or all for n ≤ 0, and fails if there
-- are fewer; `Discard` drops n bytes of those buffered.
pub record IsGnet (g : Gnet) : Type 0 where
  pub peek_all : (buf : List ℕ) → g.peek buf 0 ≡ some buf
  pub peek_some : (buf : List ℕ) (n : ℕ) → 0 < n → n ≤ length buf → g.peek buf n ≡ some (take n buf)
  pub peek_short : (buf : List ℕ) (n : ℕ) → length buf < n → g.peek buf n ≡ none
  pub discard_some : (buf : List ℕ) (n : ℕ) → 0 < n → n ≤ length buf → g.discard buf n ≡ drop n buf
  pub discard_empty : (n : ℕ) → g.discard [] n ≡ []

pub data ParseStatus : Type 0 where
  parse_need_more_data parse_done parse_rejected : ParseStatus

pub record ParseResult : Type 0 where
  pub status : ParseStatus
  pub destination : List ℕ
  pub per_request : Bool
  pub payload_len : ℕ
  pub payload : Option (List ℕ)

-- What `Parse` leaves: the parser's state, the inbound buffer, what it wrote to the connection,
-- and its result, or none for an error.
pub record ParseEnd (P : Type 0) : Type 0 where
  pub state : P
  pub buffer : List ℕ
  pub written : List (List ℕ)
  pub result : Option ParseResult

-- The interfaces `Parser`, `ConnStateCleaner` and `PayloadEncoder`; a parser need not implement the
-- last two.
pub record Parser (P : Type 0) : Type 0 where
  pub parse : P → ℕ → List ℕ → ParseEnd P
  pub clear : Option (P → ℕ → P)
  pub encode_payload : Option (P → ℕ → List ℕ → P × Option (List ℕ))

pub data ParserProto : Type 0 where
  http https http_proxy socks5 shadowsocks : ParserProto

abbrev pub proto_name : ParserProto → List ℕ
proto_name http = b'h' ∷ b't' ∷ b't' ∷ b'p' ∷ []
proto_name https = b'h' ∷ b't' ∷ b't' ∷ b'p' ∷ b's' ∷ []
proto_name http_proxy = b'h' ∷ b't' ∷ b't' ∷ b'p' ∷ b'_' ∷ b'p' ∷ b'r' ∷ b'o' ∷ b'x' ∷ b'y' ∷ []
proto_name socks5 = b's' ∷ b'o' ∷ b'c' ∷ b'k' ∷ b's' ∷ b'5' ∷ []
proto_name shadowsocks =
    b's' ∷ b'h' ∷ b'a' ∷ b'd' ∷ b'o' ∷ b'w' ∷ b's' ∷ b'o' ∷ b'c' ∷ b'k' ∷ b's' ∷ []

-- The switch of `NewParser`; none is the panic.
unfoldable pub new_parser : List ℕ → Option ParserProto
new_parser proto =
    if str_eq proto (proto_name http)
    then some http
    else if str_eq proto (proto_name https)
    then some https
    else if str_eq proto (proto_name http_proxy)
    then some http_proxy
    else if str_eq proto (proto_name socks5)
    then some socks5
    else if str_eq proto (proto_name shadowsocks)
    then some shadowsocks
    else none
