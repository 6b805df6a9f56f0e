-- ===== src/Destination/Shadowsocks/Headers.antt =====
-- What `parseShadowsocksAddress` of client/destination/shadowsocks.go makes of a header and of a part
-- of one.
use gforward.Prelude.{
  ℕ, suc, ◌+◌, ◌/◌, ◌%◌, ◌<◌, ◌≤◌, ◌≡◌, refl, true, false, List, [], ◌∷◌, ◌++◌, length, take,
  get_or, ltb, ◌==◌, if◌then◌else◌, be_u16, put_u16, arith, length-append, take_append, drop_append,
  get_or-drop, get_or_short, append_assoc, Bool-cases, inl, inr, ap, ◌∙◌, sym,
}
use gforward.Destination.Shadowsocks.Address.{
  Address, address_at, ip_address, domain_address, parse_shadowsocks_address, address_waits,
  address_bad,
}

-- The header of a domain name: type, length, name, port.
abbrev pub domain_header : List ℕ → ℕ → List ℕ
domain_header name port = 3 ∷ length name ∷ (name ++ put_u16 port)

pub length-domain_header :
    (name : List ℕ) (port : ℕ) → length (domain_header name port) ≡ 2 + length name + 2
length-domain_header name port = omega (arith, length-append name (put_u16 port))

get_behind : (xs ys : List ℕ) (i : ℕ) → get_or (xs ++ ys) (length xs + i) 0 ≡ get_or ys i 0
get_behind xs ys i =
    sym (get_or-drop (length xs) i (xs ++ ys) 0) ∙ ap (λ l. get_or l i 0) (drop_append xs ys)

-- What stands behind a type and a length.
be_u16-behind :
    (n : ℕ) (name : List ℕ) (port : ℕ) (later : List ℕ)
    → port < 65536
    → be_u16 (3 ∷ n ∷ (name ++ (put_u16 port ++ later))) (2 + length name) ≡ port
be_u16-behind n name port later h =
    let text = name ++ (put_u16 port ++ later) in
    let hi = get_behind name (put_u16 port ++ later) 0 in
    let lo = get_behind name (put_u16 port ++ later) 1 in
    let first : suc (suc (length name + 0)) ≡ 2 + length name = omega arith in
    let second : suc (suc (length name + 1)) ≡ 2 + length name + 1 = omega arith in
    let front : get_or (3 ∷ n ∷ text) (2 + length name) 0 ≡ port / 256 % 256 =
      ap (λ k. get_or (3 ∷ n ∷ text) k 0) (sym first) ∙ hi in
    let back : get_or (3 ∷ n ∷ text) (2 + length name + 1) 0 ≡ port % 256 =
      ap (λ k. get_or (3 ∷ n ∷ text) k 0) (sym second) ∙ lo in
    omega (arith, front, back, h)

domain_address_lem :
    (n : ℕ) (text : List ℕ)
    → 0 < n
    → n + 2 ≤ length text
    → parse_shadowsocks_address (3 ∷ n ∷ text)
      ≡ address_at (take n text) (be_u16 (3 ∷ n ∷ text) (2 + n)) (2 + n + 2)
unfolding parse_shadowsocks_address
domain_address_lem n text lo le =
    let any : ltb (length (3 ∷ n ∷ text)) 1 ≡ false = ground (arith) in
    let two : ltb (length (3 ∷ n ∷ text)) 2 ≡ false = ground (arith) in
    let named : (n == 0) ≡ false = ground (arith, lo) in
    let there : ltb (length (3 ∷ n ∷ text)) (2 + n + 2) ≡ false = ground (arith, le) in
    rw (any, two, named, there) refl

-- The header of a domain name of at most 255 bytes and a port is read to its end whatever follows,
-- with this name and this port.
pub parse_shadowsocks_address-domain_header :
    (name : List ℕ) (port : ℕ) (later : List ℕ)
    → 0 < length name
    → port < 65536
    → parse_shadowsocks_address (domain_header name port ++ later)
      ≡ address_at name port (length (domain_header name port))
parse_shadowsocks_address-domain_header name port later lo fits =
    let text = name ++ (put_u16 port ++ later) in
    let total : 2 + length name + 2 ≡ length (domain_header name port) =
      omega (arith, length-domain_header name port) in
    ap (λ l. parse_shadowsocks_address (3 ∷ length name ∷ l))
      (append_assoc name (put_u16 port) later)
    ∙ domain_address_lem (length name) text lo
        (omega (arith, length-append name (put_u16 port ++ later)))
    ∙ rw
        (
          take_append name (put_u16 port ++ later),
          be_u16-behind (length name) name port later fits,
          total,
        )
        refl

-- What is known of the answer on `old ++ more` if `old` was not enough: a header is longer than
-- `old`, and no longer than both.
abbrev pub IsHeaderOf : List ℕ → List ℕ → Address → Type 0
IsHeaderOf old more address_waits = Unit
IsHeaderOf old more address_bad = Unit
IsHeaderOf old more (address_at host port n) = (length old < n) × (n ≤ length old + length more)

ip_address-IsHeaderOf :
    (n : ℕ) (old more : List ℕ)
    → length old < 1 + n + 2
    → IsHeaderOf old more (ip_address n (old ++ more))
ip_address-IsHeaderOf n old more lt = elim (Bool-cases (ltb (length (old ++ more)) (1 + n + 2))) [
  | inl short ↦ rw short tt
  | inr whole ↦ rw whole (lt, ground (arith, whole, length-append old more))
]

domain_address-IsHeaderOf :
    (old more : List ℕ)
    → length old < 2 + get_or (old ++ more) 1 0 + 2
    → IsHeaderOf old more (domain_address (old ++ more))
domain_address-IsHeaderOf old more lt = elim (Bool-cases (ltb (length (old ++ more)) 2)) [
  | inl no_length ↦ rw no_length tt
  | inr more_than ↦ rw more_than (elim (Bool-cases (get_or (old ++ more) 1 0 == 0)) [
    | inl empty ↦ rw empty tt
    | inr named ↦
        rw named
          (elim (Bool-cases (ltb (length (old ++ more)) (2 + get_or (old ++ more) 1 0 + 2))) [
            | inl short ↦ rw short tt
            | inr whole ↦ rw whole (lt, ground (arith, whole, length-append old more))
          ])
  ])
]

ip_address_waits : (n : ℕ) (b : List ℕ) → ip_address n b ≡ address_waits → length b < 1 + n + 2
ip_address_waits n b h = ground (arith, h)

domain_address_waits :
    (b more : List ℕ) → domain_address b ≡ address_waits → length b < 2 + get_or (b ++ more) 1 0 + 2
domain_address_waits b more h = ground (arith, h, get_or_short b more 1 0)

-- The branches behind the first byte.
typed_address : ℕ → List ℕ → Address
typed_address x b =
    if x == 1
    then ip_address 4 b
    else if x == 3
    then domain_address b
    else if x == 4
    then ip_address 16 b
    else address_bad

typed_address-IsHeaderOf :
    (x : ℕ) (old more : List ℕ)
    → (x == 1 ≡ true → length old < 7)
    → (x == 3 ≡ true → length old < 2 + get_or (old ++ more) 1 0 + 2)
    → (x == 4 ≡ true → length old < 19)
    → IsHeaderOf old more (typed_address x (old ++ more))
unfolding typed_address
typed_address-IsHeaderOf x old more a b c = elim (Bool-cases (x == 1)) [
  | inl v4 ↦ rw v4 (ip_address-IsHeaderOf 4 old more (a v4))
  | inr not_v4 ↦ rw not_v4 (elim (Bool-cases (x == 3)) [
    | inl name ↦ rw name (domain_address-IsHeaderOf old more (b name))
    | inr no_name ↦ rw no_name (elim (Bool-cases (x == 4)) [
      | inl v6 ↦ rw v6 (ip_address-IsHeaderOf 16 old more (c v6))
      | inr bad ↦ rw bad tt
    ])
  ])
]

parse_typed : (x : ℕ) (xs : List ℕ) → parse_shadowsocks_address (x ∷ xs) ≡ typed_address x (x ∷ xs)
unfolding parse_shadowsocks_address typed_address
parse_typed x xs = let any : ltb (length (x ∷ xs)) 1 ≡ false = ground (arith) in rw any refl

pub parse_shadowsocks_address-IsHeaderOf :
    (old more : List ℕ)
    → parse_shadowsocks_address old ≡ address_waits
    → IsHeaderOf old more (parse_shadowsocks_address (old ++ more))
unfolding parse_shadowsocks_address typed_address
parse_shadowsocks_address-IsHeaderOf [] [] h = tt
parse_shadowsocks_address-IsHeaderOf [] (x ∷ xs) h = rw (parse_typed x xs) (
    typed_address-IsHeaderOf x [] (x ∷ xs) (λ e. omega arith) (λ e. omega arith) (λ e. omega arith))
parse_shadowsocks_address-IsHeaderOf (x ∷ xs) more h =
    let waits = sym (parse_typed x xs) ∙ h in
    rw (parse_typed x (xs ++ more)) (
      typed_address-IsHeaderOf x (x ∷ xs) more (λ e. ip_address_waits 4 (x ∷ xs) (rw e at waits))
        (λ e.
          let e1 : (x == 1) ≡ false = ground (arith, e) in
          domain_address_waits (x ∷ xs) more (rw (e1, e) at waits))
        (λ e.
          let e1 : (x == 1) ≡ false = ground (arith, e) in
          let e3 : (x == 3) ≡ false = ground (arith, e) in
          ip_address_waits 16 (x ∷ xs) (rw (e1, e3, e) at waits)))
