-- ===== src/Destination/Chunked/Runs.antt =====
-- Concrete runs of the chunked parser of client/destination/http_proxy.go, and its theorems at
-- concrete inputs.
use gforward.Prelude.{ℕ, ◌≡◌, refl, true, some, none, [], ◌∷◌, ◌++◌, ok, err, arith}
use gforward.Protocol.HostPort.{index_byte}
use gforward.Destination.Text.{trim_space, parse_hex64}
use gforward.Destination.Chunked.{
  ChunkedState, in_data, new_chunked, consume_chunked, consume_loop, chunk_size, line_byte,
  end_line, last_byte, before_last, invalid_line_ending,
}
use gforward.Destination.Chunked.Splitting.{Continues, consume_chunked-Continues}
use gforward.Destination.Chunked.Sizes.{SizeLine}
use gforward.Destination.Chunked.Bodies.{
  Body, IsBody, body_bytes, in_trailers, consume_chunked-body_bytes,
}

abbrev one_digit : ℕ → SizeLine
one_digit n = record {
  digits = record { value = n; upper = true } ∷ [];
  blanks = [];
  extension = none;
}

-- "A ;x", CRLF, "abcdefghij", CRLF, "0", CRLF, "t", CRLF, CRLF.
abbrev small : Body
small = record {
  chunks =
      record {
        size = record (one_digit 10) { blanks = b' ' ∷ []; extension = some (b'x' ∷ []) };
        content = b'a' ∷ b'b' ∷ b'c' ∷ b'd' ∷ b'e' ∷ b'f' ∷ b'g' ∷ b'h' ∷ b'i' ∷ b'j' ∷ [];
      }
      ∷ [];
  last = one_digit 0;
  trailers = (b't' ∷ []) ∷ [];
}

size_three : chunk_size (b'3' ∷ b' ' ∷ b';' ∷ b'x' ∷ []) ≡ some 3
unfolding chunk_size trim_space index_byte parse_hex64
size_three = refl

size_hex : chunk_size (b'1' ∷ b'F' ∷ b'\t' ∷ []) ≡ some 31
unfolding chunk_size trim_space index_byte parse_hex64
size_hex = refl

-- No-break space, "a", as Go's `TrimSpace` trims it.
size_nbsp : chunk_size (0xc2 ∷ 0xa0 ∷ b'a' ∷ []) ≡ some 10
unfolding chunk_size trim_space index_byte parse_hex64
size_nbsp = refl

size_signed : chunk_size (b'-' ∷ b'1' ∷ []) ≡ none
unfolding chunk_size trim_space index_byte parse_hex64
size_signed = refl

bare_feed : consume_chunked new_chunked (b'3' ∷ 10 ∷ []) ≡ err invalid_line_ending
unfolding consume_chunked consume_loop line_byte last_byte before_last end_line
bare_feed = refl

small-IsBody : IsBody small
small-IsBody = record {
  good_chunks = ((omega arith, omega arith, omega arith), tt);
  last_line = omega arith;
  last_size = omega arith;
  good_trailers = omega arith;
}

consume_chunked-body_bytes_example :
    consume_chunked new_chunked (body_bytes small ++ (b'G' ∷ [])) ≡ ok (in_trailers, 26, true)
consume_chunked-body_bytes_example = consume_chunked-body_bytes small (b'G' ∷ []) small-IsBody

-- In the middle of five bytes of data.
abbrev in_five : ChunkedState
in_five = record { phase = in_data; line = []; remaining = 5; crlf_pos = 0 }

consume_chunked-Continues_example :
    Continues 2
      (consume_chunked in_five (1 ∷ 2 ∷ []))
      (consume_chunked in_five (1 ∷ 2 ∷ 3 ∷ 4 ∷ 5 ∷ 13 ∷ []))
      (λ s. consume_chunked s (3 ∷ 4 ∷ 5 ∷ 13 ∷ []))
consume_chunked-Continues_example =
    consume_chunked-Continues in_five (1 ∷ 2 ∷ []) (3 ∷ 4 ∷ 5 ∷ 13 ∷ []) (λ e. omega arith)
