-- ===== src/Protocol/Destinations.antt =====
-- `GetDestination` and `SetDestination` of protocol/forward.go.
use gforward.Prelude.{
  ℕ, zero, suc, ◌-◌, ◌/◌, ◌%◌, ◌<◌, ◌≡◌, refl, sym, ap, ◌∙◌, false, ◌||◌, Option, none, some, List,
  [], ◌∷◌, ◌++◌, arith, length, drop, get_or, ◌==◌, Bool-cases, inl, inr, take_append,
  length-append, append_assoc, ==_refl, ◌⊎◌,
}
use gforward.Protocol.HostPort.{
  index_byte, last_index_byte, contains_byte, join_host_port, split_host_port, split_plain,
  split_bracket,
}
use gforward.Protocol.Decimal.{
  parse_uint16, parse_uint16-lt, itoa, format_digits, digit, parse_uint16-itoa,
}
use gforward.Protocol.{ForwardPacket, get_destination, set_destination, set_port, set_parts}

pub contains_byte-append :
    (xs ys : List ℕ) (c : ℕ)
    → contains_byte (xs ++ ys) c ≡ (contains_byte xs c || contains_byte ys c)
unfolding contains_byte
contains_byte-append [] ys c = refl
contains_byte-append (x ∷ xs) ys c = ground (arith, contains_byte-append xs ys c)

pub last_index_byte-none :
    (ys : List ℕ) (c : ℕ) → contains_byte ys c ≡ false → last_index_byte ys c ≡ none
unfolding contains_byte last_index_byte
last_index_byte-none [] c h = refl
last_index_byte-none (y ∷ ys) c h = ground (arith, last_index_byte-none ys c)

pub last_index_byte-append :
    (xs ys : List ℕ) (c : ℕ)
    → contains_byte ys c ≡ false
    → last_index_byte (xs ++ (c ∷ ys)) c ≡ some (length xs)
unfolding last_index_byte
last_index_byte-append [] ys c h = ground (arith, last_index_byte-none ys c h)
last_index_byte-append (x ∷ xs) ys c h = ground (arith, last_index_byte-append xs ys c h)

pub index_byte-append :
    (xs ys : List ℕ) (c : ℕ)
    → contains_byte xs c ≡ false
    → index_byte (xs ++ (c ∷ ys)) c ≡ some (length xs)
unfolding index_byte contains_byte
index_byte-append [] ys c h = ground arith
index_byte-append (x ∷ xs) ys c h = ground (arith, index_byte-append xs ys c)

-- Decimal text holds digits alone.
contains_byte-format_digits :
    (fuel n c : ℕ) (rest : List ℕ)
    → 57 < c
    → contains_byte (format_digits fuel n rest) c ≡ contains_byte rest c
unfolding format_digits contains_byte
contains_byte-format_digits zero n c rest h = refl
contains_byte-format_digits (suc fuel) n c rest h =
    ground (arith, contains_byte-format_digits fuel (n / 10) c (digit (n % 10) ∷ rest) h)

pub contains_byte-itoa : (n c : ℕ) → 57 < c → contains_byte (itoa n) c ≡ false
unfolding itoa
contains_byte-itoa n c h = contains_byte-format_digits 20 n c [] h ∙ unfold contains_byte in refl

contains_byte_cons :
    (xs : List ℕ) (x c : ℕ) → contains_byte (x ∷ xs) c ≡ (x == c || contains_byte xs c)
unfolding contains_byte
contains_byte_cons xs x c = refl

pub drop-suc_append : (xs ys : List ℕ) (c : ℕ) → drop (suc (length xs)) (xs ++ (c ∷ ys)) ≡ ys
drop-suc_append [] ys c = refl
drop-suc_append (x ∷ xs) ys c = drop-suc_append xs ys c

pub drop_two_append :
    (xs ys : List ℕ) (a b : ℕ) → drop (suc (suc (length xs))) (xs ++ (a ∷ b ∷ ys)) ≡ ys
drop_two_append [] ys a b = refl
drop_two_append (x ∷ xs) ys a b = drop_two_append xs ys a b

pred_suc : (n : ℕ) → suc n - 1 ≡ n
pred_suc n = omega arith

-- A host with no square bracket.
abbrev pub IsBare : List ℕ → Type 0
IsBare host = (contains_byte host b'[' ≡ false) × (contains_byte host b']' ≡ false)

split_plain_lem :
    (host port : List ℕ)
    → IsBare host
    → contains_byte host b':' ≡ false
    → IsBare port
    → split_plain (host ++ (b':' ∷ port)) (length host) ≡ some (host, port)
split_plain_lem host port h no_colon hp = ground (
  arith,
  take_append host (b':' ∷ port),
  drop-suc_append host port b':',
  contains_byte-append host (b':' ∷ port) b'[',
  contains_byte-append host (b':' ∷ port) b']',
  contains_byte_cons port b':' b'[',
  contains_byte_cons port b':' b']',
)

first_not_bracket :
    (host rest : List ℕ)
    → 0 < length host
    → contains_byte host b'[' ≡ false
    → (get_or (host ++ rest) 0 0 == b'[') ≡ false
unfolding contains_byte
first_not_bracket [] rest pos h = absurd (omega arith)
first_not_bracket (x ∷ xs) rest pos h = ground arith

split_host_port-plain :
    (host port : List ℕ)
    → 0 < length host
    → IsBare host
    → contains_byte host b':' ≡ false
    → IsBare port
    → contains_byte port b':' ≡ false
    → split_host_port (host ++ (b':' ∷ port)) ≡ some (host, port)
unfolding split_host_port
split_host_port-plain host port pos h no_colon hp hc =
    rw (last_index_byte-append host port b':' hc, first_not_bracket host (b':' ∷ port) pos h.0)
      (split_plain_lem host port h no_colon hp)

split_bracket_lem :
    (host port : List ℕ)
    → IsBare host
    → IsBare port
    → split_bracket
        (b'[' ∷ (host ++ (b']' ∷ b':' ∷ port)))
        (suc (suc (length host)))
        (some (suc (length host)))
      ≡ some (host, port)
split_bracket_lem host port h hp = ground (
  arith,
  take_append host (b']' ∷ b':' ∷ port),
  drop-suc_append host (b':' ∷ port) b']',
  contains_byte-append host (b']' ∷ b':' ∷ port) b'[',
  contains_byte_cons (b':' ∷ port) b']' b'[',
  contains_byte_cons port b':' b'[',
  contains_byte_cons port b':' b']',
  drop_two_append host port b']' b':',
  ==_refl (suc (suc (length host))),
  pred_suc (length host),
)

pub bracket_last_colon :
    (host port : List ℕ)
    → contains_byte port b':' ≡ false
    → last_index_byte (b'[' ∷ (host ++ (b']' ∷ b':' ∷ port))) b':' ≡ some (suc (suc (length host)))
bracket_last_colon host port hc =
    let n : length (host ++ (b']' ∷ [])) ≡ suc (length host) =
      omega (arith, length-append host (b']' ∷ [])) in
    ap (λ s. last_index_byte (b'[' ∷ s) b':') (sym (append_assoc host (b']' ∷ []) (b':' ∷ port)))
    ∙ last_index_byte-append (b'[' ∷ (host ++ (b']' ∷ []))) port b':' hc
    ∙ ap (λ k. some (suc k)) n

bracket_stop :
    (host port : List ℕ)
    → contains_byte host b']' ≡ false
    → index_byte (b'[' ∷ (host ++ (b']' ∷ b':' ∷ port))) b']' ≡ some (suc (length host))
bracket_stop host port h =
    index_byte-append (b'[' ∷ host) (b':' ∷ port) b']' (contains_byte_cons host b'[' b']' ∙ h)

split_host_port-bracket :
    (host port : List ℕ)
    → IsBare host
    → IsBare port
    → contains_byte port b':' ≡ false
    → split_host_port (b'[' ∷ (host ++ (b']' ∷ b':' ∷ port))) ≡ some (host, port)
unfolding split_host_port
split_host_port-bracket host port h hp hc =
    rw (bracket_last_colon host port hc, bracket_stop host port h.1)
      (split_bracket_lem host port h hp)

-- `net.SplitHostPort` takes apart what `net.JoinHostPort` put together.
pub split_host_port-join_host_port :
    (host port : List ℕ)
    → 0 < length host
    → IsBare host
    → IsBare port
    → contains_byte port b':' ≡ false
    → split_host_port (join_host_port host port) ≡ some (host, port)
unfolding join_host_port
split_host_port-join_host_port host port pos h hp hc = elim (Bool-cases (contains_byte host b':')) [
  | inl colon ↦ rw colon (split_host_port-bracket host port h hp hc)
  | inr plain ↦ rw plain (split_host_port-plain host port pos h plain hp hc)
]

-- A packet's destination, set on any other packet, brings its address and port back and leaves the
-- payload alone: for a non-empty address with no square bracket (a name, an IPv4 or an IPv6
-- address) and a port between 1 and 65535.
pub set_destination-get_destination :
    (p q : ForwardPacket)
    → 0 < length p.addr
    → IsBare p.addr
    → 0 < p.port
    → p.port < 65536
    → set_destination q (get_destination p) ≡ record q { addr = p.addr; port = p.port }
unfolding set_destination get_destination
set_destination-get_destination p q pos bare lo hi = ground (
  arith,
  split_host_port-join_host_port p.addr (itoa p.port) pos bare
      (contains_byte-itoa p.port b'[' (omega arith), contains_byte-itoa p.port b']' (omega arith))
      (contains_byte-itoa p.port b':' (omega arith)),
  parse_uint16-itoa p.port lo hi,
)

abbrev pub HasRoute : ForwardPacket → ForwardPacket → Type 0
HasRoute q p =
    ((p ≡ record q { addr = []; port = 0 }) ⊎ ((0 < p.port) × (p.port < 65536)))
    × (p.payload ≡ q.payload)

set_port-HasRoute :
    (q : ForwardPacket) (addr : List ℕ) (port : Option ℕ)
    → ((n : ℕ) → port ≡ some n → n < 65536)
    → HasRoute q (set_port q addr port)
set_port-HasRoute q addr none h = (inl refl, refl)
set_port-HasRoute q addr (some n) h = elim (Bool-cases (n == 0)) [
  | inl zero_port ↦ rw zero_port (inl refl, refl)
  | inr port ↦ rw port (inr (ground arith, h n refl), refl)
]

set_parts-HasRoute :
    (q : ForwardPacket) (parts : Option (List ℕ × List ℕ)) → HasRoute q (set_parts q parts)
set_parts-HasRoute q none = (inl refl, refl)
set_parts-HasRoute q (some (addr, text)) =
    set_port-HasRoute q addr (parse_uint16 text) (parse_uint16-lt text)

-- Whatever text is set, the packet's address and port are both cleared, or its port is a 16-bit
-- number other than zero; the payload is left alone.
pub set_destination-HasRoute :
    (q : ForwardPacket) (text : List ℕ) → HasRoute q (set_destination q text)
unfolding set_destination
set_destination-HasRoute q text = set_parts-HasRoute q (split_host_port text)
