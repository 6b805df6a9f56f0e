-- ===== src/Destination/Chunked.antt =====
-- The incremental parser of a chunked request body, `httpChunkedBodyState` in
-- client/destination/http_proxy.go. After an error the callers forget the state, so an error does
-- not carry it.
pub mod Bytewise
pub mod Agreement
pub mod Splitting
pub mod Lines
pub mod Trims
pub mod Sizes
pub mod Bodies
mod Runs
use mathlib.Core.Option.{get_or}
use gforward.Prelude.{
  ℕ, zero, suc, ◌+◌, ◌-◌, ◌*◌, Bool, true, false, not, Option, none, some, List, [], ◌∷◌, ◌++◌,
  Result, ok, err, length, take, drop, ltb, leb, ◌==◌, if◌then◌else◌,
}
use gforward.Protocol.HostPort.{index_byte}
use gforward.Destination.Text.{trim_space, parse_hex64}

pub data ChunkedPhase : Type 0 where
  in_size in_data in_data_end in_trailer : ChunkedPhase

pub data ChunkError : Type 0 where
  metadata_too_large invalid_line_ending invalid_chunk_size invalid_data_ending : ChunkError
  out_of_fuel : ChunkError

pub record ChunkedState : Type 0 where
  pub phase : ChunkedPhase
  pub line : List ℕ
  pub remaining : ℕ
  pub crlf_pos : ℕ

abbrev pub new_chunked : ChunkedState
new_chunked = record { phase = in_size; line = []; remaining = 0; crlf_pos = 0 }

abbrev pub max_metadata : ℕ
max_metadata = 8192

-- The byte at the end of a slice, `k` from the end; 0 where there is none.
unfoldable pub last_byte : List ℕ → ℕ
last_byte [] = 0
last_byte (x ∷ []) = x
last_byte (x ∷ y ∷ ys) = last_byte (y ∷ ys)

unfoldable pub before_last : List ℕ → ℕ
before_last [] = 0
before_last (x ∷ []) = 0
before_last (x ∷ y ∷ []) = x
before_last (x ∷ y ∷ z ∷ zs) = before_last (y ∷ z ∷ zs)

abbrev pub cut_at : List ℕ → Option ℕ → List ℕ
cut_at s none = s
cut_at s (some i) = take i s

-- The size in a line without its CRLF: spaces and a chunk extension are cut off.
unfoldable pub chunk_size : List ℕ → Option ℕ
chunk_size text = let s = trim_space text in parse_hex64 (trim_space (cut_at s (index_byte s b';')))

-- What a step makes of the state, and whether the body has ended.
abbrev pub Stepped : Type 0
Stepped = Result ChunkError (ChunkedState × Bool)

abbrev pub on_size : ChunkedState → Option ℕ → Stepped
on_size s none = err invalid_chunk_size
on_size s (some n) =
    if n == 0
    then ok (record s { line = []; phase = in_trailer }, false)
    else ok (record s { line = []; remaining = n; phase = in_data }, false)

abbrev pub is_trailer : ChunkedPhase → Bool
is_trailer in_size = false
is_trailer in_data = false
is_trailer in_data_end = false
is_trailer in_trailer = true

-- A line is complete.
unfoldable pub end_line : ChunkedState → List ℕ → Stepped
end_line s line =
    if is_trailer s.phase
    then ok (record s { line = [] }, length line == 2)
    else on_size s (chunk_size (take (length line - 2) line))

-- A byte of a size line or of a trailer line.
unfoldable pub line_byte : ChunkedState → ℕ → Stepped
line_byte s b =
    let line = s.line ++ (b ∷ []) in
    if ltb max_metadata (length line)
    then err metadata_too_large
    else if not (last_byte line == 10)
    then ok (record s { line = line }, false)
    else if ltb (length line) 2
    then err invalid_line_ending
    else if not (before_last line == 13)
    then err invalid_line_ending
    else end_line s line

-- A byte of the CRLF behind the data.
unfoldable pub data_end_byte : ChunkedState → ℕ → Stepped
data_end_byte s b =
    let expected = if s.crlf_pos == 0 then 13 else 10 in
    if not (b == expected)
    then err invalid_data_ending
    else if s.crlf_pos + 1 == 2
    then ok (record s { crlf_pos = 0; phase = in_size }, false)
    else ok (record s { crlf_pos = s.crlf_pos + 1 }, false)

-- The state behind `n` bytes of data.
unfoldable pub take_data : ChunkedState → ℕ → ChunkedState
take_data s n =
    if s.remaining - n == 0
    then record s { remaining = 0; phase = in_data_end }
    else record s { remaining = s.remaining - n }

abbrev pub Consumed : Type 0
Consumed = Result ChunkError (ChunkedState × ℕ × Bool)

-- `again` is the loop on the next state and position, unless the body has ended.
abbrev pub then_loop : ℕ → Stepped → (ChunkedState → Consumed) → Consumed
then_loop pos (err e) again = err e
then_loop pos (ok (s, true)) again = ok (s, pos, true)
then_loop pos (ok (s, false)) again = again s

abbrev pub data_len : ChunkedState → List ℕ → ℕ
data_len s bytes = if ltb s.remaining (length bytes) then s.remaining else length bytes

-- One round of the loop: the switch on the phase, at the byte `b` behind `pos`.
abbrev pub consume_round :
    ChunkedPhase → ChunkedState → ℕ → ℕ → List ℕ → (ChunkedState → ℕ → List ℕ → Consumed) → Consumed
consume_round in_size s pos b bs again =
    then_loop (pos + 1) (line_byte s b) (λ s'. again s' (pos + 1) bs)
consume_round in_trailer s pos b bs again =
    then_loop (pos + 1) (line_byte s b) (λ s'. again s' (pos + 1) bs)
consume_round in_data s pos b bs again =
    let n = data_len s (b ∷ bs) in again (take_data s n) (pos + n) (drop n (b ∷ bs))
consume_round in_data_end s pos b bs again =
    then_loop (pos + 1) (data_end_byte s b) (λ s'. again s' (pos + 1) bs)

-- The loop over the bytes behind `pos`.
unfoldable pub consume_loop : ℕ → ChunkedState → ℕ → List ℕ → Consumed
consume_loop fuel s pos [] = ok (s, pos, false)
consume_loop zero s pos (b ∷ bs) = err out_of_fuel
consume_loop (suc fuel) s pos (b ∷ bs) = consume_round s.phase s pos b bs (consume_loop fuel)

-- A round takes a byte, or leaves the data phase, so two rounds for each byte are enough.
unfoldable pub consume_chunked : ChunkedState → List ℕ → Consumed
consume_chunked s buf = consume_loop (2 * length buf + 2) s 0 buf
