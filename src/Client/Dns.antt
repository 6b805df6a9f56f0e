-- ===== src/Client/Dns.antt =====
-- client/dns.go: the DNS server that answers every query for an IPv4 address with the client's own.
-- The messages of github.com/miekg/dns are records with the fields that the code reads or sets. The
-- routing of the operating system is a parameter: the answer to the k-th request for the local
-- address towards the querier.
pub mod Replies
mod Runs
use gforward.Prelude.{
  ℕ, suc, Bool, true, false, not, ◌&&◌, ◌||◌, Option, none, some, List, [], ◌∷◌, drop, length, ◌==◌,
  if◌then◌else◌,
}
use gforward.Destination.Shadowsocks.Address.{is_mapped}
use gforward.Commands.Addresses.{parse_ip4}

abbrev pub dns_record_ttl : ℕ
dns_record_ttl = 60

-- `IP.To4` of 16 bytes.
abbrev to4 : Option (List ℕ) → Option (List ℕ)
to4 none = none
to4 (some ip) = if is_mapped ip then some (drop 12 ip) else none

abbrev on_ip4 : Option (List ℕ) → Option (List ℕ) → Option (List ℕ)
on_ip4 (some ip) ip6 = some ip
on_ip4 none ip6 = to4 ip6

-- `newDNSHandler`: the field `hijackIP`, or none for an error. `parse_ip6` is Go's `net.ParseIP` on
-- the text of an IPv6 address.
unfoldable pub new_dns_handler : (List ℕ → Option (List ℕ)) → List ℕ → Option (List ℕ)
new_dns_handler parse_ip6 hijack_ip = on_ip4 (parse_ip4 hijack_ip) (parse_ip6 hijack_ip)

pub record Question : Type 0 where
  pub name : List ℕ
  pub qtype : ℕ
  pub qclass : ℕ

-- The resource record `dns.A`.
pub record ARecord : Type 0 where
  pub name : List ℕ
  pub rrtype : ℕ
  pub class : ℕ
  pub ttl : ℕ
  pub ip : List ℕ

pub data Rcode : Type 0 where
  rcode_success rcode_server_failure : Rcode

pub record Response : Type 0 where
  pub authoritative : Bool
  pub rcode : Rcode
  pub answer : List ARecord

-- The type A and the class of the internet.
abbrev pub is_wanted : Question → Bool
is_wanted q = q.qclass == 1 && q.qtype == 1

abbrev pub a_record : List ℕ → Question → ARecord
a_record ip q = record { name = q.name; rrtype = 1; class = 1; ttl = dns_record_ttl; ip = ip }

-- 0.0.0.0
abbrev pub is_unspecified : List ℕ → Bool
is_unspecified [] = true
is_unspecified (b ∷ bs) = b == 0 && is_unspecified bs

abbrev pub fails : Response
fails = record { authoritative = true; rcode = rcode_server_failure; answer = [] }

abbrev pub in_front : ARecord → Response → Response
in_front a r = record r { answer = a ∷ r.answer }

abbrev pub on_local_ip : Question → Option (List ℕ) → Response → Response
on_local_ip q none rest = fails
on_local_ip q (some ip) rest = in_front (a_record ip q) rest

-- The loop over the questions; the answers of a round stand in front of those of the rounds behind.
unfoldable pub answer_loop : List ℕ → (ℕ → Option (List ℕ)) → ℕ → List Question → Response
answer_loop hijack_ip local_ip k [] = record {
  authoritative = true;
  rcode = rcode_success;
  answer = [];
}
answer_loop hijack_ip local_ip k (q ∷ qs) =
    let asks = is_wanted q && is_unspecified hijack_ip in
    let rest = answer_loop hijack_ip local_ip (if asks then suc k else k) qs in
    if not (is_wanted q)
    then rest
    else if is_unspecified hijack_ip
    then on_local_ip q (local_ip k) rest
    else in_front (a_record hijack_ip q) rest

-- `ServeDNS`, up to the write of the response.
unfoldable pub serve_dns : List ℕ → (ℕ → Option (List ℕ)) → List Question → Response
serve_dns hijack_ip local_ip questions = answer_loop hijack_ip local_ip 0 questions
