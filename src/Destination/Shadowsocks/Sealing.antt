-- ===== src/Destination/Shadowsocks/Sealing.antt =====
-- What `encrypt` of client/destination/shadowsocks.go writes: the salt, and for each piece of the
-- plaintext its length and the piece, sealed under the next two nonces.
use gforward.Prelude.{
  ℕ, zero, suc, ◌<◌, ◌≤◌, ◌≡◌, refl, ap, sym, ◌∙◌, some, List, [], ◌∷◌, ◌++◌, length, take, drop,
  ltb, ok, arith, All, Bool-cases, inl, inr, length-take, length-drop, take-append-drop, take_all,
  append_assoc,
}
use gforward.Destination.Shadowsocks.{
  Aead, Crypto, SsAead, SsState, fresh_state, increment, zeros, max_chunk_size, new_aead,
}
use gforward.Destination.Shadowsocks.Encrypter.{
  chunk_of, chunk_to, len_bytes, seal_loop, seal_all, encrypt,
}
use gforward.Destination.Shadowsocks.Nonces.{nonce_at}

abbrev pub join : List (List ℕ) → List ℕ
join [] = []
join (x ∷ xs) = x ++ join xs

-- Pieces of one chunk each.
abbrev pub IsPiece : List ℕ → Type 0
IsPiece c = (0 < length c) × (length c ≤ max_chunk_size)

abbrev pub sealed_piece : Aead → List ℕ → List ℕ → List ℕ
sealed_piece a nonce c = a.seal nonce (len_bytes (length c)) ++ a.seal (increment nonce) c

-- The pieces sealed from a nonce on, and the nonce behind them.
abbrev pub stream : Aead → List ℕ → List (List ℕ) → List ℕ
stream a nonce [] = []
stream a nonce (c ∷ cs) = sealed_piece a nonce c ++ stream a (increment (increment nonce)) cs

abbrev pub nonce_behind : List ℕ → List (List ℕ) → List ℕ
nonce_behind nonce [] = nonce
nonce_behind nonce (c ∷ cs) = nonce_behind (increment (increment nonce)) cs

chunk_to_lem :
    (n : ℕ) (xs : List ℕ)
    → 0 < n
    → 0 < length xs
    → (0 < length (chunk_to n xs))
      × (length (chunk_to n xs) ≤ n)
      × (length (chunk_to n xs) ≤ length xs)
      × (chunk_to n xs ++ drop (length (chunk_to n xs)) xs ≡ xs)
chunk_to_lem n xs lo pos = elim (Bool-cases (ltb n (length xs))) [
  | inl long ↦
      let size : length (take n xs) ≡ n = ground (arith, length-take n xs, long) in
      rw (long, size) (lo, omega arith, ground (arith, long), take-append-drop n xs)
  | inr short ↦ rw short (
    pos,
    ground (arith, short),
    omega arith,
    ap (λ l. l ++ drop (length xs) xs) (sym (take_all xs)) ∙ take-append-drop (length xs) xs,
  )
]

chunk_of_lem :
    (xs : List ℕ)
    → 0 < length xs
    → IsPiece (chunk_of xs)
      × (length (chunk_of xs) ≤ length xs)
      × (chunk_of xs ++ drop (length (chunk_of xs)) xs ≡ xs)
unfolding chunk_of
chunk_of_lem xs pos =
    let (a, b, c, d) = chunk_to_lem max_chunk_size xs (omega arith) pos in ((a, b), c, d)

-- The pieces that the loop cuts off.
abbrev pub cut_loop : ℕ → List ℕ → List (List ℕ)
cut_loop zero plain = []
cut_loop (suc fuel) [] = []
cut_loop (suc fuel) (x ∷ xs) =
    chunk_of (x ∷ xs) ∷ cut_loop fuel (drop (length (chunk_of (x ∷ xs))) (x ∷ xs))

abbrev pub pieces : List ℕ → List (List ℕ)
pieces plain = cut_loop (length plain) plain

seal_loop-stream :
    (fuel : ℕ) (a : Aead) (nonce plain : List ℕ)
    → seal_loop fuel a nonce plain
      ≡ (nonce_behind nonce (cut_loop fuel plain), stream a nonce (cut_loop fuel plain))
unfolding seal_loop
seal_loop-stream zero a nonce plain = refl
seal_loop-stream (suc fuel) a nonce [] = refl
seal_loop-stream (suc fuel) a nonce (x ∷ xs) =
    let c = chunk_of (x ∷ xs) in
    let left = drop (length c) (x ∷ xs) in
    let next = increment (increment nonce) in
    rw (seal_loop-stream fuel a next left) (
      ap (λ l. (nonce_behind next (cut_loop fuel left), l))
        (sym (
          append_assoc (a.seal nonce (len_bytes (length c))) (a.seal (increment nonce) c)
            (stream a next (cut_loop fuel left)))))

cut_loop_lem :
    (fuel : ℕ) (plain : List ℕ)
    → length plain ≤ fuel
    → (join (cut_loop fuel plain) ≡ plain) × All IsPiece (cut_loop fuel plain)
cut_loop_lem zero [] h = (refl, tt)
cut_loop_lem zero (x ∷ xs) h = absurd (omega arith)
cut_loop_lem (suc fuel) [] h = (refl, tt)
cut_loop_lem (suc fuel) (x ∷ xs) h =
    let c = chunk_of (x ∷ xs) in
    let (piece, fits, whole) = chunk_of_lem (x ∷ xs) (omega arith) in
    let (joined, rest) =
      cut_loop_lem fuel (drop (length c) (x ∷ xs))
        (omega (arith, length-drop (length c) (x ∷ xs), piece.0)) in
    (ap (λ l. c ++ l) joined ∙ whole, (piece, rest))

pub join-pieces : (plain : List ℕ) → join (pieces plain) ≡ plain
join-pieces plain = (cut_loop_lem (length plain) plain (omega arith)).0

pub pieces-All : (plain : List ℕ) → All IsPiece (pieces plain)
pieces-All plain = (cut_loop_lem (length plain) plain (omega arith)).1

pub seal_all-stream :
    (a : Aead) (nonce plain : List ℕ)
    → seal_all a nonce plain ≡ (nonce_behind nonce (pieces plain), stream a nonce (pieces plain))
unfolding seal_all
seal_all-stream a nonce plain = seal_loop-stream (length plain) a nonce plain

-- The stream of a session by numbers: piece and length under the nonces `k` and `k + 1`.
abbrev pub stream_at : Aead → ℕ → List (List ℕ) → List ℕ
stream_at a k [] = []
stream_at a k (c ∷ cs) =
    (a.seal (nonce_at a.nonce_size k) (len_bytes (length c))
      ++ a.seal (nonce_at a.nonce_size (suc k)) c)
    ++ stream_at a (suc (suc k)) cs

abbrev pub index_behind : ℕ → List (List ℕ) → ℕ
index_behind k [] = k
index_behind k (c ∷ cs) = index_behind (suc (suc k)) cs

stream_at-stream :
    (a : Aead) (k : ℕ) (cs : List (List ℕ))
    → (stream a (nonce_at a.nonce_size k) cs ≡ stream_at a k cs)
      × (nonce_behind (nonce_at a.nonce_size k) cs ≡ nonce_at a.nonce_size (index_behind k cs))
stream_at-stream a k [] = (refl, refl)
stream_at-stream a k (c ∷ cs) =
    let (s, n) = stream_at-stream a (suc (suc k)) cs in
    (ap (λ l. sealed_piece a (nonce_at a.nonce_size k) c ++ l) s, n)

-- The state of a session that has used the first `k` nonces.
abbrev pub session_at : Aead → ℕ → SsState
session_at a k = record { aead = some a; nonce = nonce_at a.nonce_size k }

-- `encrypt` cuts the plaintext into pieces of 1 to 16383 bytes and seals, for each in turn, its
-- length and the piece under the next two nonces of the session, counted from zero. A first call
-- draws the salt, derives the session from it and writes it in front; a later call goes on where
-- the last one stopped.
pub encrypt-stream_at :
    (crypto : Crypto) (c : SsAead) (draw : ℕ) (a : Aead) (k : ℕ) (salt plain : List ℕ)
    → crypto.random draw c.salt_len ≡ some salt
    → new_aead crypto c salt ≡ some a
    → let cs = pieces plain in
      (join cs ≡ plain)
      × All IsPiece cs
      × (encrypt crypto c draw fresh_state plain
          ≡ ok (session_at a (index_behind 0 cs), salt ++ stream_at a 0 cs))
      × (encrypt crypto c draw (session_at a k) plain
          ≡ ok (session_at a (index_behind k cs), stream_at a k cs))
unfolding encrypt
encrypt-stream_at crypto c draw a k salt plain drawn derived =
    let cs = pieces plain in
    let (first, behind) = stream_at-stream a 0 cs in
    let (later, behind_later) = stream_at-stream a k cs in
    (
      join-pieces plain,
      pieces-All plain,
      rw (drawn, derived, seal_all-stream a (zeros a.nonce_size) plain, first, behind) refl,
      rw (seal_all-stream a (nonce_at a.nonce_size k) plain, later, behind_later) refl,
    )
