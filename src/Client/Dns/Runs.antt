-- ===== src/Client/Dns/Runs.antt =====
-- The theorem on the DNS server's answers at a concrete input.
use gforward.Prelude.{ℕ, zero, suc, Option, none, some, List, [], ◌∷◌}
use gforward.Client.Dns.{Question, serve_dns}
use gforward.Client.Dns.Replies.{ip4_queries, address, Covers, serve_dns-Covers}

-- The system finds one local address, and then none.
abbrev once : ℕ → Option (List ℕ)
once zero = some (10 ∷ 0 ∷ 0 ∷ 1 ∷ [])
once (suc k) = none

-- A query for IPv4, one for IPv6, one for IPv4.
abbrev three : List Question
three =
    record { name = b'a' ∷ []; qtype = 1; qclass = 1 }
    ∷ record { name = b'b' ∷ []; qtype = 28; qclass = 1 }
    ∷ record { name = b'c' ∷ []; qtype = 1; qclass = 1 }
    ∷ []

serve_dns-Covers_example :
    Covers
      (address (0 ∷ 0 ∷ 0 ∷ 0 ∷ []) once)
      0
      (ip4_queries three)
      (serve_dns (0 ∷ 0 ∷ 0 ∷ 0 ∷ []) once three).rcode
      (serve_dns (0 ∷ 0 ∷ 0 ∷ 0 ∷ []) once three).answer
serve_dns-Covers_example = serve_dns-Covers (0 ∷ 0 ∷ 0 ∷ 0 ∷ []) once three
