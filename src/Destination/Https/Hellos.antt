-- ===== src/Destination/Https/Hellos.antt =====
-- A ClientHello built from its parts, and the name that client/destination/https.go finds in it.
use gforward.Prelude.{
  ℕ, zero, suc, ◌+◌, ◌/◌, ◌%◌, ◌<◌, ◌≤◌, ◌≡◌, ◌≢◌, refl, ap, ◌∙◌, false, List, [], ◌∷◌, ◌++◌,
  length, drop, be_u16, put_u16, ltb, ◌==◌, arith, length-append, take_append, append_assoc,
}
use gforward.Destination.Https.{names, find_name, client_hello, be_u24, sniff}
use gforward.Destination.Https.Names.{hello, hello_tail, client_hello_lem, drop_at}

-- An extension, but not the one of the server name.
pub record Extension : Type 0 where
  pub kind : ℕ
  pub body : List ℕ

pub record IsOther (e : Extension) : Type 0 where
  pub not_name : e.kind ≢ 0
  pub kind_lt : e.kind < 65536
  pub body_lt : length e.body < 65536

abbrev pub extension : ℕ → List ℕ → List ℕ
extension kind body = put_u16 kind ++ (put_u16 (length body) ++ body)

abbrev pub extensions : List Extension → List ℕ
extensions [] = []
extensions (e ∷ es) = extension e.kind e.body ++ extensions es

abbrev pub AllOther : List Extension → Type 0
AllOther [] = Unit
AllOther (e ∷ es) = IsOther e × AllOther es

-- The server name extension with one host name.
abbrev pub name_body : List ℕ → List ℕ
name_body host = put_u16 (3 + length host) ++ (0 ∷ (put_u16 (length host) ++ host))

put_back : (v : ℕ) (xs : List ℕ) → v < 65536 → be_u16 (put_u16 v ++ xs) 0 ≡ v
put_back v xs h = omega arith

-- A round over the name extension finds the host.
find_name-here :
    (fuel : ℕ) (host rest : List ℕ)
    → length host + 5 < 65536
    → find_name (suc fuel) (extension 0 (name_body host) ++ rest) ≡ names host
unfolding find_name
find_name-here fuel host rest h =
    let bytes = extension 0 (name_body host) ++ rest in
    let len : be_u16 bytes 2 ≡ 5 + length host = omega arith in
    let size : length bytes ≡ 9 + length host + length rest =
      omega (arith, length-append host rest) in
    let host_len : be_u16 bytes 7 ≡ length host = omega arith in
    let a : ltb (length bytes) 4 ≡ false = ground (arith, size) in
    let b : ltb (length bytes) (4 + (5 + length host)) ≡ false = ground (arith, size) in
    let c : ltb (5 + length host) 5 ≡ false = ground arith in
    let d : ltb (4 + (5 + length host)) (9 + length host) ≡ false = ground arith in
    rw (len, a, b, c, host_len, d) (ap names (take_append host rest))

-- A round over another extension goes on behind it.
find_name-other :
    (fuel : ℕ) (e : Extension) (rest : List ℕ)
    → IsOther e
    → find_name (suc fuel) (extension e.kind e.body ++ rest) ≡ find_name fuel rest
unfolding find_name
find_name-other fuel e rest h =
    let bytes = extension e.kind e.body ++ rest in
    let len : be_u16 bytes 2 ≡ length e.body = omega (arith, h.body_lt) in
    let kind : be_u16 bytes 0 ≡ e.kind = omega (arith, h.kind_lt) in
    let size : length bytes ≡ 4 + length e.body + length rest =
      omega (arith, length-append e.body rest) in
    let behind : drop (4 + length e.body) bytes ≡ rest =
      drop_at bytes (extension e.kind e.body) rest (4 + length e.body) refl (omega arith) in
    let a : ltb (length bytes) 4 ≡ false = ground (arith, size) in
    let b : ltb (length bytes) (4 + length e.body) ≡ false = ground (arith, size) in
    let c : (e.kind == 0) ≡ false = ground (arith, h.not_name) in
    rw (len, a, b, kind, c, behind) refl

find_name-extensions :
    (es : List Extension) (fuel : ℕ) (host after : List ℕ)
    → AllOther es
    → length host + 5 < 65536
    → length es < fuel
    → find_name fuel (extensions es ++ (extension 0 (name_body host) ++ after)) ≡ names host
find_name-extensions es zero host after h small lt = absurd (omega arith)
find_name-extensions [] (suc fuel) host after h small lt = find_name-here fuel host after small
find_name-extensions (e ∷ es) (suc fuel) host after h small lt =
    let behind = extension 0 (name_body host) ++ after in
    ap (find_name (suc fuel)) (append_assoc (extension e.kind e.body) (extensions es) behind)
    ∙ find_name-other fuel e (extensions es ++ behind) h.0
    ∙ find_name-extensions es fuel host after h.1 small (omega arith)

length-extensions :
    (es : List Extension) (xs : List ℕ) → length es + length xs ≤ length (extensions es ++ xs)
length-extensions [] xs = omega arith
length-extensions (e ∷ es) xs = omega (
  arith,
  ap length (append_assoc (extension e.kind e.body) (extensions es) xs),
  length-append e.body (extensions es ++ xs),
  length-extensions es xs,
)

abbrev put_u24 : ℕ → List ℕ
put_u24 v = (v / 65536 % 256) ∷ (v / 256 % 256) ∷ (v % 256) ∷ []

-- A record with a handshake message of type ClientHello.
abbrev pub record_of : ℕ → ℕ → List ℕ → List ℕ
record_of minor record_len hs =
    22 ∷ 3 ∷ minor ∷ (put_u16 record_len ++ (1 ∷ (put_u24 (length hs) ++ hs)))

sniff-record_of :
    (minor record_len : ℕ) (hs later : List ℕ)
    → length hs < 16777216
    → sniff (record_of minor record_len hs ++ later) ≡ client_hello hs
unfolding sniff
sniff-record_of minor record_len hs later small =
    let buf = record_of minor record_len hs ++ later in
    let len : be_u24 buf 6 ≡ length hs = omega arith in
    let size : length buf ≡ 9 + length hs + length later = omega (arith, length-append hs later) in
    let a : (length buf == 0) ≡ false = ground (arith, size) in
    let b : ltb (length buf) 5 ≡ false = ground (arith, size) in
    let c : ltb (length buf) 6 ≡ false = ground (arith, size) in
    let d : ltb (length buf) 9 ≡ false = ground (arith, size) in
    let e : ltb (length buf) (9 + length hs) ≡ false = ground (arith, size) in
    rw (a, b, c, d, len, e) (ap client_hello (take_append hs later))

length-hello :
    (random sid suites methods ex : List ℕ)
    → length ex < length (hello random sid suites methods ex)
length-hello random sid suites methods ex = omega (
  arith,
  length-append random (length sid ∷ (sid ++ hello_tail suites methods ex)),
  length-append sid (hello_tail suites methods ex),
  length-append suites (length methods ∷ (methods ++ (put_u16 (length ex) ++ ex))),
  length-append methods (put_u16 (length ex) ++ ex),
)

-- In a buffer that begins with a record with a whole ClientHello - any session id, cipher suites,
-- compression methods, and any extensions around the server name extension, of lengths that their
-- fields can carry - the parser finds the host of the server name extension, whatever follows.
pub sniff-hello :
    (minor record_len : ℕ) (random sid suites methods : List ℕ) (es : List Extension)
    (host after later : List ℕ)
    → length random ≡ 34
    → length suites < 65536
    → AllOther es
    → let ex = extensions es ++ (extension 0 (name_body host) ++ after) in
      length ex < 65536
      → length (hello random sid suites methods ex) < 16777216
      → sniff (record_of minor record_len (hello random sid suites methods ex) ++ later)
        ≡ names host
sniff-hello minor record_len random sid suites methods es host after later h hs others he hl =
    let named = extension 0 (name_body host) ++ after in
    let ex = extensions es ++ named in
    let long : 9 + length host ≤ length named = omega (arith, length-append host after) in
    let total : length es + length named ≤ length ex = length-extensions es named in
    let small : length host + 5 < 65536 =
      omega (arith, length-append (extensions es) named, he, long) in
    let most : length ex < length (hello random sid suites methods ex) =
      length-hello random sid suites methods ex in
    sniff-record_of minor record_len (hello random sid suites methods ex) later hl
    ∙ client_hello_lem random sid suites methods ex h hs he
    ∙ find_name-extensions es (length (hello random sid suites methods ex)) host after others small
        (omega (arith, total, most, long))
