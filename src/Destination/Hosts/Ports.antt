-- ===== src/Destination/Hosts/Ports.antt =====
-- What `extractDestWithPort` of client/destination/https.go makes of a host.
use gforward.Prelude.{
  ℕ, zero, suc, ◌<◌, ◌≤◌, ◌≡◌, refl, ap, ◌∙◌, true, false, Option, none, some, List, [], ◌∷◌, ◌++◌,
  length, drop, ◌==◌, if◌then◌else◌, arith, Bool-cases, append_assoc, Option-cases, inl, inr,
}
use gforward.Protocol.HostPort.{last_index_byte, contains_byte, join_host_port}
use gforward.Protocol.Decimal.{itoa}
use gforward.Protocol.Destinations.{
  IsBare, last_index_byte-none, last_index_byte-append, drop-suc_append, contains_byte-itoa,
  bracket_last_colon, drop_two_append,
}
use gforward.Destination.Hosts.{extract_dest_with_port, extract_at, with_port}

-- A host as HTTP writes it: an IPv6 address is put in square brackets.
abbrev pub host_text : List ℕ → List ℕ
host_text host = if contains_byte host b':' then b'[' ∷ (host ++ (b']' ∷ [])) else host

-- A text that ends in another byte has the last `c` in front of it.
last_index_byte_front :
    (xs : List ℕ) (c d i : ℕ)
    → (d == c) ≡ false
    → last_index_byte (xs ++ (d ∷ [])) c ≡ some i
    → i < length xs
unfolding last_index_byte
last_index_byte_front [] c d i ne e = absurd (ground (arith, ne, e))
last_index_byte_front (x ∷ xs) c d i ne e =
    elim (Option-cases (last_index_byte (xs ++ (d ∷ [])) c)) [
      | inl h ↦ ground (arith, h, e)
      | inr (j, h) ↦ ground (arith, h, e, last_index_byte_front xs c d j ne h)
    ]

drop-contains :
    (xs : List ℕ) (d k : ℕ) → k ≤ length xs → contains_byte (drop k (xs ++ (d ∷ []))) d ≡ true
unfolding contains_byte
drop-contains [] d zero h = ground arith
drop-contains [] d (suc k) h = absurd (omega arith)
drop-contains (x ∷ xs) d zero h = ground (arith, drop-contains xs d zero)
drop-contains (x ∷ xs) d (suc k) h = drop-contains xs d k (omega arith)

bracketed :
    (xs : List ℕ) (port : ℕ) (o : Option ℕ)
    → ((i : ℕ) → o ≡ some i → i < length xs)
    → extract_at (xs ++ (b']' ∷ [])) port o ≡ with_port (xs ++ (b']' ∷ [])) port
bracketed xs port none h = refl
bracketed xs port (some i) h = rw (drop-contains xs b']' (suc i) (h i refl)) refl

-- For a host with no square bracket of its own, written as HTTP writes it: without a port it gets
-- the default one, joined as `net.JoinHostPort` does; with a port of its own it stays as it is.
pub extract_dest_with_port-join_host_port :
    (host : List ℕ) (default_port port : ℕ)
    → IsBare host
    → (extract_dest_with_port (host_text host) default_port
        ≡ join_host_port host (itoa default_port))
      × (extract_dest_with_port (join_host_port host (itoa port)) default_port
          ≡ join_host_port host (itoa port))
unfolding extract_dest_with_port join_host_port
extract_dest_with_port-join_host_port host default_port port bare =
    elim (Bool-cases (contains_byte host b':')) [
      | inl colon ↦ rw colon (
        bracketed (b'[' ∷ host) default_port (last_index_byte (b'[' ∷ (host ++ (b']' ∷ []))) b':')
              (λ i e. last_index_byte_front (b'[' ∷ host) b':' b']' i refl e)
            ∙ ap (◌∷◌ b'[') (append_assoc host (b']' ∷ []) (b':' ∷ itoa default_port)),
        rw
            (
              bracket_last_colon host (itoa port) (contains_byte-itoa port b':' (omega arith)),
              drop_two_append host (itoa port) b']' b':',
              contains_byte-itoa port b']' (omega arith),
            )
            refl,
      )
      | inr plain ↦ rw plain (
        rw (last_index_byte-none host b':' plain) refl,
        rw
            (
              last_index_byte-append host (itoa port) b':'
                  (contains_byte-itoa port b':' (omega arith)),
              drop-suc_append host (itoa port) b':',
              contains_byte-itoa port b']' (omega arith),
            )
            refl,
      )
    ]
