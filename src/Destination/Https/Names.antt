-- ===== src/Destination/Https/Names.antt =====
-- The parser of client/destination/https.go on a ClientHello that is built from its parts.
use gforward.Prelude.{
  ℕ, zero, suc, ◌+◌, ◌-◌, ◌/◌, ◌%◌, ◌<◌, ◌≡◌, refl, sym, ap, ◌∙◌, true, false, List, [], ◌∷◌, ◌++◌,
  length, drop, get_or, be_u16, put_u16, ltb, ◌==◌, arith, length-append, drop_append, append_assoc,
}
use gforward.Destination.Https.{find_name, in_extensions, behind_session_id, client_hello}

get_or_skip : (xs ys : List ℕ) (i d : ℕ) → get_or (xs ++ ys) (length xs + i) d ≡ get_or ys i d
get_or_skip [] ys i d = let e : zero + i ≡ i = omega arith in ap (λ k. get_or ys k d) e
get_or_skip (x ∷ xs) ys i d =
    let e : suc (length xs) + i ≡ suc (length xs + i) = omega arith in
    ap (λ k. get_or (x ∷ (xs ++ ys)) k d) e ∙ get_or_skip xs ys i d

-- The byte, or the 16-bit number, behind a part of the bytes.
get_at : (hs xs ys : List ℕ) (v n : ℕ) → hs ≡ xs ++ (v ∷ ys) → n ≡ length xs + 0 → get_or hs n 0 ≡ v
get_at hs xs ys v n e at = rw (e, at) (get_or_skip xs (v ∷ ys) 0 0)

pub be_u16_at :
    (hs xs ys : List ℕ) (v n : ℕ)
    → hs ≡ xs ++ (put_u16 v ++ ys)
    → n ≡ length xs
    → v < 65536
    → be_u16 hs n ≡ v
be_u16_at hs xs ys v n e at small =
    let hi : get_or hs n 0 ≡ v / 256 % 256 =
      get_at hs xs ((v % 256) ∷ ys) (v / 256 % 256) n e (omega (arith, at)) in
    let one : n + 1 ≡ length xs + 1 = omega (arith, at) in
    let lo : get_or hs (n + 1) 0 ≡ v % 256 =
      ap (λ l. get_or l (n + 1) 0) e
      ∙ ap (λ k. get_or (xs ++ (put_u16 v ++ ys)) k 0) one
      ∙ get_or_skip xs (put_u16 v ++ ys) 1 0 in
    omega (arith, hi, lo)

pub drop_at : (hs xs ys : List ℕ) (n : ℕ) → hs ≡ xs ++ ys → n ≡ length xs → drop n hs ≡ ys
drop_at hs xs ys n e at = rw (e, at) (drop_append xs ys)

in_extensions_lem :
    (hs front ex : List ℕ) (n : ℕ)
    → hs ≡ front ++ (put_u16 (length ex) ++ ex)
    → n ≡ length front
    → length ex < 65536
    → in_extensions hs n ≡ find_name (length hs) ex
unfolding in_extensions
in_extensions_lem hs front ex n e at small =
    let size : length hs ≡ n + 2 + length ex =
      ap length e ∙ length-append front (put_u16 (length ex) ++ ex) ∙ omega (arith, at) in
    let len = be_u16_at hs front ex (length ex) n e at small in
    let two : n + 2 ≡ length (front ++ put_u16 (length ex)) =
      omega (arith, at, length-append front (put_u16 (length ex))) in
    let rest : drop (n + 2) hs ≡ ex =
      drop_at hs (front ++ put_u16 (length ex)) ex (n + 2)
        (e ∙ sym (append_assoc front (put_u16 (length ex)) ex)) two in
    let fits : ltb (length hs) (n + 2) ≡ false = ground (arith, size) in
    let same : (length hs - (n + 2) == be_u16 hs n) ≡ true = ground (arith, size, len) in
    rw (fits, same, rest) refl

-- What stands behind the session id: cipher suites, compression methods, extensions.
abbrev pub hello_tail : List ℕ → List ℕ → List ℕ → List ℕ
hello_tail suites methods ex =
    put_u16 (length suites)
    ++ (suites ++ (length methods ∷ (methods ++ (put_u16 (length ex) ++ ex))))

behind_session_id_lem :
    (hs front suites methods ex : List ℕ) (sid : ℕ)
    → hs ≡ front ++ hello_tail suites methods ex
    → 35 + sid ≡ length front
    → length suites < 65536
    → length ex < 65536
    → behind_session_id hs sid ≡ find_name (length hs) ex
unfolding behind_session_id
behind_session_id_lem hs front suites methods ex sid e at small_suites small_ex =
    let behind = length methods ∷ (methods ++ (put_u16 (length ex) ++ ex)) in
    let before = front ++ (put_u16 (length suites) ++ suites) in
    let split : hs ≡ before ++ behind =
      e ∙ sym (append_assoc front (put_u16 (length suites) ++ suites) behind) in
    let last = before ++ (length methods ∷ methods) in
    let split_last : hs ≡ last ++ (put_u16 (length ex) ++ ex) =
      split ∙ sym (append_assoc before (length methods ∷ methods) (put_u16 (length ex) ++ ex)) in
    let size_before : length before ≡ 37 + sid + length suites =
      omega (arith, length-append front (put_u16 (length suites) ++ suites), at) in
    let size_last : length last ≡ 38 + sid + length suites + length methods =
      omega (arith, length-append before (length methods ∷ methods), size_before) in
    let size : length hs ≡ 40 + sid + length suites + length methods + length ex =
      ap length split_last
      ∙ length-append last (put_u16 (length ex) ++ ex)
      ∙ omega (arith, size_last) in
    let count = be_u16_at hs front _ (length suites) (35 + sid) e at small_suites in
    let method_count : get_or hs (37 + sid + length suites) 0 ≡ length methods =
      get_at hs before _ (length methods) (37 + sid + length suites) split
        (omega (arith, size_before)) in
    let long : ltb (length hs) (37 + sid) ≡ false = ground (arith, size) in
    let longer : ltb (length hs) (38 + sid + length suites) ≡ false = ground (arith, size) in
    rw (long, count, longer, method_count)
      (in_extensions_lem hs last ex (38 + sid + length suites + length methods) split_last
        (sym size_last) small_ex)

-- A handshake message: 34 bytes of version and random, the session id, and the rest.
abbrev pub hello : List ℕ → List ℕ → List ℕ → List ℕ → List ℕ → List ℕ
hello random sid suites methods ex = random ++ (length sid ∷ (sid ++ hello_tail suites methods ex))

pub client_hello_lem :
    (random sid suites methods ex : List ℕ)
    → length random ≡ 34
    → length suites < 65536
    → length ex < 65536
    → client_hello (hello random sid suites methods ex)
      ≡ find_name (length (hello random sid suites methods ex)) ex
unfolding client_hello
client_hello_lem random sid suites methods ex h small_suites small_ex =
    let hs = hello random sid suites methods ex in
    let front = random ++ (length sid ∷ sid) in
    let size : length hs ≡ 35 + length (sid ++ hello_tail suites methods ex) =
      length-append random (length sid ∷ (sid ++ hello_tail suites methods ex))
      ∙ omega (arith, h) in
    let long : ltb (length hs) 35 ≡ false = ground (arith, size) in
    let sid_len : get_or hs 34 0 ≡ length sid =
      get_at hs random (sid ++ hello_tail suites methods ex) (length sid) 34 refl
        (omega (arith, h)) in
    rw (long, sid_len)
      (behind_session_id_lem hs front suites methods ex (length sid)
        (sym (append_assoc random (length sid ∷ sid) (hello_tail suites methods ex)))
        (omega (arith, length-append random (length sid ∷ sid), h)) small_suites small_ex)
