-- ===== src/Destination/Shadowsocks/Opening.antt =====
-- The loop of `decrypt` in client/destination/shadowsocks.go on a stream of sealed pieces.
use gforward.Prelude.{
  ℕ, zero, suc, ◌+◌, ◌<◌, ◌≤◌, ◌≡◌, refl, ap, sym, ◌∙◌, true, false, not, ◌&&◌, ◌||◌, some, List,
  [], ◌∷◌, ◌++◌, length, take, drop, ltb, ◌==◌, ok, be_u16, arith, All, length-append, take_append,
  drop_append, append_assoc, append-nil,
}
use gforward.Destination.Shadowsocks.{
  Aead, IsAead, increment, max_chunk_size, chunk_need, open_loop, open_from,
}
use gforward.Destination.Shadowsocks.Encrypter.{len_bytes}
use gforward.Destination.Shadowsocks.Sealing.{join, IsPiece, sealed_piece, stream, nonce_behind}

be_u16-len_bytes : (n : ℕ) → n < 65536 → be_u16 (len_bytes n) 0 ≡ n
be_u16-len_bytes n h = omega arith

length-sealed_piece :
    (a : Aead) (nonce c : List ℕ)
    → IsAead a
    → length (sealed_piece a nonce c) ≡ chunk_need a (length c)
length-sealed_piece a nonce c laws =
    length-append (a.seal nonce (len_bytes (length c))) (a.seal (increment nonce) c)
    ∙ omega
        (arith, laws.length-seal nonce (len_bytes (length c)), laws.length-seal (increment nonce) c)

pub take_at : (n : ℕ) (xs ys : List ℕ) → n ≡ length xs → take n (xs ++ ys) ≡ xs
take_at n xs ys e = rw e (take_append xs ys)

pub drop_at : (n : ℕ) (xs ys : List ℕ) → n ≡ length xs → drop n (xs ++ ys) ≡ ys
drop_at n xs ys e = rw e (drop_append xs ys)

-- A round of the loop over a sealed piece, as long as the plaintext stays within the limit.
open_loop-piece :
    (fuel : ℕ) (a : Aead) (limit : ℕ) (nonce c later out : List ℕ) (consumed : ℕ)
    → IsAead a
    → IsPiece c
    → length out + length c ≤ limit
    → open_loop (suc fuel) a limit nonce (sealed_piece a nonce c ++ later) out consumed
      ≡ open_loop fuel a limit
          (increment (increment nonce))
          later
          (out ++ c)
          (consumed + length (sealed_piece a nonce c))
unfolding open_loop
open_loop-piece fuel a limit nonce c later out consumed laws piece fits =
    let rem = sealed_piece a nonce c ++ later in
    let head = a.seal nonce (len_bytes (length c)) in
    let body = a.seal (increment nonce) c in
    let head_len : 2 + a.overhead ≡ length head =
      omega (arith, laws.length-seal nonce (len_bytes (length c))) in
    let need_len : chunk_need a (length c) ≡ length (sealed_piece a nonce c) =
      sym (length-sealed_piece a nonce c laws) in
    let size : length rem ≡ chunk_need a (length c) + length later =
      length-append (sealed_piece a nonce c) later ∙ omega (arith, need_len) in
    let first : take (2 + a.overhead) rem ≡ head =
      ap (take (2 + a.overhead)) (append_assoc head body later)
      ∙ take_at (2 + a.overhead) head (body ++ later) head_len in
    let whole : take (chunk_need a (length c)) rem ≡ head ++ body =
      take_at (chunk_need a (length c)) (sealed_piece a nonce c) later need_len in
    let second : drop (2 + a.overhead) (head ++ body) ≡ body =
      drop_at (2 + a.overhead) head body head_len in
    let behind : drop (chunk_need a (length c)) rem ≡ later =
      drop_at (chunk_need a (length c)) (sealed_piece a nonce c) later need_len in
    let len : be_u16 (len_bytes (length c)) 0 ≡ length c =
      be_u16-len_bytes (length c) (omega (arith, piece.1)) in
    let enough : ltb (length rem) (2 + a.overhead) ≡ false = ground (arith, size) in
    let allowed : (length c == 0 || ltb max_chunk_size (length c)) ≡ false =
      ground (arith, piece) in
    let there : ltb (length rem) (chunk_need a (length c)) ≡ false = ground (arith, size) in
    let room : (not (length out == 0) && ltb limit (length out + length c)) ≡ false =
      ground (arith, fits) in
    rw
      (
        enough,
        first,
        laws.unseal-seal nonce (len_bytes (length c)),
        len,
        allowed,
        there,
        room,
        whole,
        second,
        laws.unseal-seal (increment nonce) c,
        behind,
        need_len,
      )
      refl

open_loop-short :
    (fuel : ℕ) (a : Aead) (limit : ℕ) (nonce rem out : List ℕ) (consumed : ℕ)
    → length rem < 2 + a.overhead
    → open_loop (suc fuel) a limit nonce rem out consumed ≡ ok (nonce, out, consumed)
unfolding open_loop
open_loop-short fuel a limit nonce rem out consumed h =
    let short : ltb (length rem) (2 + a.overhead) ≡ true = ground (arith, h) in rw short refl

-- The loop takes one piece after the other and keeps what it opens.
open_loop-stream :
    (cs : List (List ℕ)) (fuel : ℕ) (a : Aead) (limit : ℕ) (nonce later out : List ℕ) (consumed : ℕ)
    → IsAead a
    → All IsPiece cs
    → length later < 2 + a.overhead
    → length out + length (join cs) ≤ limit
    → length (stream a nonce cs) < fuel
    → open_loop fuel a limit nonce (stream a nonce cs ++ later) out consumed
      ≡ ok (nonce_behind nonce cs, out ++ join cs, consumed + length (stream a nonce cs))
open_loop-stream [] zero a limit nonce later out consumed laws h short fits lt =
    absurd (omega arith)
open_loop-stream [] (suc fuel) a limit nonce later out consumed laws h short fits lt =
    let none_more : consumed ≡ consumed + 0 = omega arith in
    open_loop-short fuel a limit nonce later out consumed short
    ∙ rw (append-nil out) (ap (λ k. ok (nonce, out, k)) none_more)
open_loop-stream (c ∷ cs) zero a limit nonce later out consumed laws h short fits lt =
    absurd (omega arith)
open_loop-stream (c ∷ cs) (suc fuel) a limit nonce later out consumed laws h short fits lt =
    let next = increment (increment nonce) in
    let piece = sealed_piece a nonce c in
    let rest = stream a next cs in
    let total = length-append c (join cs) in
    let size = length-append piece rest in
    let grown = length-append out c in
    let count : consumed + length piece + length rest ≡ consumed + length (piece ++ rest) =
      omega (arith, size) in
    ap (λ l. open_loop (suc fuel) a limit nonce l out consumed) (append_assoc piece rest later)
    ∙ open_loop-piece fuel a limit nonce c (rest ++ later) out consumed laws h.0
        (omega (arith, total))
    ∙ open_loop-stream cs fuel a limit next later (out ++ c) (consumed + length piece) laws h.1
        short (omega (arith, total, grown))
        (omega (arith, size, length-sealed_piece a nonce c laws))
    ∙ rw (append_assoc out c (join cs))
        (ap (λ k. ok (nonce_behind next cs, out ++ (c ++ join cs), k)) count)

-- `decrypt` from a session's nonce opens the stream from this nonce.
pub open_from-stream :
    (a : Aead) (limit : ℕ) (nonce later : List ℕ) (cs : List (List ℕ)) (consumed : ℕ)
    → IsAead a
    → All IsPiece cs
    → length later < 2 + a.overhead
    → length (join cs) ≤ limit
    → open_from a limit nonce (stream a nonce cs ++ later) consumed
      ≡ ok (
        record { aead = some a; nonce = nonce_behind nonce cs },
        join cs,
        consumed + length (stream a nonce cs),
      )
unfolding open_from
open_from-stream a limit nonce later cs consumed laws h short fits =
    rw
      (open_loop-stream cs (suc (length (stream a nonce cs ++ later))) a limit nonce later []
        consumed laws h short (omega (arith, fits))
        (omega (arith, length-append (stream a nonce cs) later)))
      refl
