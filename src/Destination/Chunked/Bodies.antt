-- ===== src/Destination/Chunked/Bodies.antt =====
-- Well-formed chunked bodies, as the parser of client/destination/http_proxy.go reads them.
use gforward.Prelude.{
  ℕ, suc, ◌+◌, ◌-◌, ◌<◌, ◌≡◌, refl, sym, ap, ◌∙◌, true, false, some, List, [], ◌∷◌, ◌++◌,
  append_assoc, ok, arith, length, length-append, take, drop, take_append, drop_append, All, inl,
  inr,
}
use gforward.Destination.Chunked.{
  ChunkedState, in_data, in_data_end, in_trailer, new_chunked, consume_chunked, take_data,
  line_byte, last_byte, before_last, end_line, data_end_byte, on_size, chunk_size,
}
use gforward.Destination.Chunked.Bytewise.{shift, run}
use gforward.Destination.Chunked.Agreement.{consume_chunked-run, run-data, shift_zero}
use gforward.Destination.Chunked.Sizes.{SizeLine, size_text, IsSizeLine, chunk_size-size_text}
use gforward.Destination.Chunked.Lines.{IsLine, Eats, Eats-append, Eats-byte, Eats-line}

-- The size line, and the data.
pub record Chunk : Type 0 where
  pub size : SizeLine
  pub content : List ℕ

abbrev pub IsChunk : Chunk → Type 0
IsChunk c =
    IsLine (size_text c.size) × IsSizeLine (length c.content) c.size × (0 < length c.content)

abbrev crlf : List ℕ
crlf = 13 ∷ 10 ∷ []

abbrev pub chunk_bytes : Chunk → List ℕ
chunk_bytes c = (size_text c.size ++ crlf) ++ (c.content ++ crlf)

abbrev pub chunks_bytes : List Chunk → List ℕ
chunks_bytes [] = []
chunks_bytes (c ∷ cs) = chunk_bytes c ++ chunks_bytes cs

abbrev pub trailers_bytes : List (List ℕ) → List ℕ
trailers_bytes [] = []
trailers_bytes (t ∷ ts) = (t ++ crlf) ++ trailers_bytes ts

-- Chunks, the size line of the last chunk, trailer lines, and an empty line.
pub record Body : Type 0 where
  pub chunks : List Chunk
  pub last : SizeLine
  pub trailers : List (List ℕ)

abbrev pub IsTrailer : List ℕ → Type 0
IsTrailer t = IsLine t × (0 < length t)

pub record IsBody (b : Body) : Type 0 where
  pub good_chunks : All IsChunk b.chunks
  pub last_line : IsLine (size_text b.last)
  pub last_size : IsSizeLine 0 b.last
  pub good_trailers : All IsTrailer b.trailers

abbrev pub body_bytes : Body → List ℕ
body_bytes b =
    chunks_bytes b.chunks ++ ((size_text b.last ++ crlf) ++ (trailers_bytes b.trailers ++ crlf))

abbrev pub in_trailers : ChunkedState
in_trailers = record { phase = in_trailer; line = []; remaining = 0; crlf_pos = 0 }

abbrev with_data : ℕ → ChunkedState
with_data n = record { phase = in_data; line = []; remaining = n; crlf_pos = 0 }

abbrev behind_data : ChunkedState
behind_data = record { phase = in_data_end; line = []; remaining = 0; crlf_pos = 0 }

take_line : (text : List ℕ) → take (length (text ++ crlf) - 2) (text ++ crlf) ≡ text
take_line text =
    let e : length (text ++ crlf) - 2 ≡ length text = omega (arith, length-append text crlf) in
    ap (λ k. take k (text ++ crlf)) e ∙ take_append text crlf

end_line-size :
    (text : List ℕ) → end_line new_chunked (text ++ crlf) ≡ on_size new_chunked (chunk_size text)
unfolding end_line
end_line-size text = ap (λ t. on_size new_chunked (chunk_size t)) (take_line text)

Eats-size :
    (text : List ℕ) (n : ℕ)
    → IsLine text
    → chunk_size text ≡ some n
    → 0 < n
    → Eats new_chunked (text ++ crlf) (with_data n)
Eats-size text n l e h =
    Eats-line text new_chunked (with_data n) refl (inl refl) l
      (end_line-size text ∙ ap (on_size new_chunked) e ∙ ground (arith, h))

take_data_all : (n : ℕ) → take_data (with_data (suc n)) (suc n) ≡ behind_data
unfolding take_data
take_data_all n = let e : suc n - suc n ≡ 0 = omega arith in rw e refl

Eats-content :
    (content : List ℕ) → 0 < length content → Eats (with_data (length content)) content behind_data
Eats-content [] h bs = absurd (omega arith)
Eats-content (x ∷ xs) h bs =
    run-data (length xs) (with_data (suc (length xs))) (x ∷ (xs ++ bs)) refl (omega arith)
      (omega (arith, length-append xs bs))
    ∙ ap (λ t. shift (suc (length xs)) (run t (drop (length xs) (xs ++ bs))))
        (take_data_all (length xs))
    ∙ ap (λ l. shift (suc (length xs)) (run behind_data l)) (drop_append xs bs)

Eats-crlf : Eats behind_data crlf new_chunked
Eats-crlf =
    Eats-append behind_data (record behind_data { crlf_pos = 1 }) new_chunked (13 ∷ []) (10 ∷ [])
      (Eats-byte behind_data _ 13 (unfold data_end_byte in refl))
      (Eats-byte _ new_chunked 10 (unfold data_end_byte in refl))

Eats-chunk : (c : Chunk) → IsChunk c → Eats new_chunked (chunk_bytes c) new_chunked
Eats-chunk c h =
    Eats-append new_chunked (with_data (length c.content)) new_chunked (size_text c.size ++ crlf)
      (c.content ++ crlf)
      (Eats-size (size_text c.size) (length c.content) h.0
        (chunk_size-size_text (length c.content) c.size h.1) h.2)
      (Eats-append (with_data (length c.content)) behind_data new_chunked c.content crlf
        (Eats-content c.content h.2) Eats-crlf)

Eats-chunks : (cs : List Chunk) → All IsChunk cs → Eats new_chunked (chunks_bytes cs) new_chunked
Eats-chunks [] h bs = sym (shift_zero (run new_chunked bs))
Eats-chunks (c ∷ cs) h bs =
    Eats-append new_chunked new_chunked new_chunked (chunk_bytes c) (chunks_bytes cs)
      (Eats-chunk c h.0) (Eats-chunks cs h.1) bs

Eats-last :
    (text : List ℕ)
    → IsLine text
    → chunk_size text ≡ some 0
    → Eats new_chunked (text ++ crlf) in_trailers
Eats-last text l e =
    Eats-line text new_chunked in_trailers refl (inl refl) l
      (end_line-size text ∙ ap (on_size new_chunked) e)

end_line-trailer :
    (t : List ℕ) → 0 < length t → end_line in_trailers (t ++ crlf) ≡ ok (in_trailers, false)
unfolding end_line
end_line-trailer t h = ground (arith, length-append t crlf)

Eats-trailer : (t : List ℕ) → IsTrailer t → Eats in_trailers (t ++ crlf) in_trailers
Eats-trailer t h = Eats-line t in_trailers in_trailers refl (inr refl) h.0 (end_line-trailer t h.1)

Eats-trailers :
    (ts : List (List ℕ)) → All IsTrailer ts → Eats in_trailers (trailers_bytes ts) in_trailers
Eats-trailers [] h bs = sym (shift_zero (run in_trailers bs))
Eats-trailers (t ∷ ts) h bs =
    Eats-append in_trailers in_trailers in_trailers (t ++ crlf) (trailers_bytes ts)
      (Eats-trailer t h.0) (Eats-trailers ts h.1) bs

run-blank : (bs : List ℕ) → run in_trailers (13 ∷ 10 ∷ bs) ≡ ok (in_trailers, 2, true)
unfolding run line_byte last_byte before_last end_line
run-blank bs = refl

-- A well-formed chunked body is consumed to its end and no further: the parser reports the end of
-- the request right behind the empty line, whatever bytes follow. It is chunks, a last chunk of size
-- 0, trailer lines and an empty line; a chunk is its size in hexadecimal digits of either case, below
-- 2^64, with blanks and an extension if any, on a line within the limit, and as many bytes of data.
pub consume_chunked-body_bytes :
    (b : Body) (rest : List ℕ)
    → IsBody b
    → consume_chunked new_chunked (body_bytes b ++ rest)
      ≡ ok (in_trailers, length (body_bytes b), true)
consume_chunked-body_bytes b rest h =
    (consume_chunked-run new_chunked (body_bytes b ++ rest) (λ e. absurd (cc))).0
    ∙ ap (run new_chunked) (ap (λ l. l ++ rest) whole ∙ append_assoc front crlf rest)
    ∙ Eats-append new_chunked new_chunked in_trailers (chunks_bytes b.chunks) behind
        (Eats-chunks b.chunks h.good_chunks)
        (Eats-append new_chunked in_trailers in_trailers (size_text b.last ++ crlf)
          (trailers_bytes b.trailers)
          (Eats-last (size_text b.last) h.last_line (chunk_size-size_text 0 b.last h.last_size))
          (Eats-trailers b.trailers h.good_trailers))
        (crlf ++ rest)
    ∙ ap (shift (length front)) (run-blank rest)
    ∙ ap (λ k. ok (in_trailers, k, true)) size
  where
    behind : List ℕ
    behind = (size_text b.last ++ crlf) ++ trailers_bytes b.trailers

    front : List ℕ
    front = chunks_bytes b.chunks ++ behind

    whole : body_bytes b ≡ front ++ crlf
    whole =
        ap (◌++◌ (chunks_bytes b.chunks))
          (sym (append_assoc (size_text b.last ++ crlf) (trailers_bytes b.trailers) crlf))
        ∙ sym (append_assoc (chunks_bytes b.chunks) behind crlf)

    size : length front + 2 ≡ length (body_bytes b)
    size = omega (arith, ap length whole, length-append front crlf)
