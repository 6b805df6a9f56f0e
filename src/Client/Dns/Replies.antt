-- ===== src/Client/Dns/Replies.antt =====
-- What the DNS server of client/dns.go answers.
use gforward.Prelude.{
  ℕ, suc, ◌+◌, ◌≡◌, refl, sym, ap, ◌∙◌, Bool, true, false, Option, none, some, List, [], ◌∷◌, ◌++◌,
  length, ◌==◌, if◌then◌else◌, Bool-cases, inl, inr, arith,
}
use gforward.Client.Dns.{
  Question, ARecord, Rcode, rcode_success, rcode_server_failure, Response, is_wanted, a_record,
  is_unspecified, on_local_ip, answer_loop, serve_dns,
}

-- A query for an IPv4 address: RFC 1035 numbers the type A and the class IN as 1.
abbrev pub is_ip4_query : Question → Bool
is_ip4_query q = if q.qtype == 1 then q.qclass == 1 else false

abbrev pub ip4_queries : List Question → List Question
ip4_queries [] = []
ip4_queries (q ∷ qs) = if is_ip4_query q then q ∷ ip4_queries qs else ip4_queries qs

abbrev pub sum : List ℕ → ℕ
sum [] = 0
sum (b ∷ bs) = b + sum bs

-- The address for the k-th of the queries for an IPv4 address, if there is one: the system is asked
-- where 0.0.0.0 is configured.
abbrev pub address : List ℕ → (ℕ → Option (List ℕ)) → ℕ → Option (List ℕ)
address hijack_ip local_ip = if sum hijack_ip == 0 then local_ip else λ k. some hijack_ip

-- The records answer the queries from the k-th one on, in order.
abbrev pub Answers : (ℕ → Option (List ℕ)) → ℕ → List Question → List ARecord → Type 0
Answers address_of k [] [] = Unit
Answers address_of k [] (a ∷ rs) = ⊥
Answers address_of k (q ∷ qs) [] = ⊥
Answers address_of k (q ∷ qs) (a ∷ rs) =
    (a.name ≡ q.name)
    × (address_of k ≡ some a.ip)
    × (a.rrtype ≡ 1)
    × (a.class ≡ 1)
    × (a.ttl ≡ 60)
    × Answers address_of (suc k) qs rs

-- With the code of success all queries from the k-th one on are answered, and with the code of a
-- failure those before the first one for which there is no address.
abbrev pub Covers : (ℕ → Option (List ℕ)) → ℕ → List Question → Rcode → List ARecord → Type 0
Covers address_of k qs rcode_success rs = Answers address_of k qs rs
Covers address_of k qs rcode_server_failure rs =
    (done : List Question) × (q : Question) × (later : List Question) × (qs ≡ done ++ (q ∷ later))
    × Answers address_of k done rs
    × (address_of (k + length done) ≡ none)

is_wanted-is_ip4_query : (q : Question) → is_wanted q ≡ is_ip4_query q
is_wanted-is_ip4_query q = elim (Bool-cases (q.qtype == 1)) [
  | inl a ↦ ground (arith, a)
  | inr other ↦ ground (arith, other)
]

is_unspecified-sum : (ip : List ℕ) → is_unspecified ip ≡ (sum ip == 0)
is_unspecified-sum [] = refl
is_unspecified-sum (b ∷ bs) = elim (Bool-cases (b == 0)) [
  | inl z ↦ ground (arith, z, is_unspecified-sum bs)
  | inr other ↦ ground (arith, other)
]

Covers-in_front :
    (f : ℕ → Option (List ℕ)) (k : ℕ) (q : Question) (qs : List Question) (ip : List ℕ) (c : Rcode)
    (rs : List ARecord)
    → f k ≡ some ip
    → Covers f (suc k) qs c rs
    → Covers f k (q ∷ qs) c (a_record ip q ∷ rs)
Covers-in_front f k q qs ip rcode_success rs e h = (refl, e, refl, refl, refl, h)
Covers-in_front f k q qs ip rcode_server_failure rs e (done, first, later, split, named, gone) =
    let same : k + suc (length done) ≡ suc k + length done = omega arith in
    (q ∷ done, first, later, ap (◌∷◌ q) split, (refl, e, refl, refl, refl, named), ap f same ∙ gone)

-- Only the questions for the system are counted by the code.
Covers-fixed :
    (ip : List ℕ) (j k : ℕ) (qs : List Question) (c : Rcode) (rs : List ARecord)
    → Covers (λ n. some ip) j qs c rs
    → Covers (λ n. some ip) k qs c rs
Covers-fixed ip j k qs rcode_success rs h = answers_fixed j k qs rs h
  where
    answers_fixed :
        (j k : ℕ) (qs : List Question) (rs : List ARecord)
        → Answers (λ n. some ip) j qs rs
        → Answers (λ n. some ip) k qs rs
    answers_fixed j k [] [] h = h
    answers_fixed j k [] (a ∷ rs) h = h
    answers_fixed j k (q ∷ qs) [] h = h
    answers_fixed j k (q ∷ qs) (a ∷ rs) (n, i, t, c, l, h) =
        (n, i, t, c, l, answers_fixed (suc j) (suc k) qs rs h)
Covers-fixed ip j k qs rcode_server_failure rs (done, q, later, split, named, gone) =
    absurd (cc (gone))

module _ (hijack_ip : List ℕ) (local_ip : ℕ → Option (List ℕ)) where
  abbrev Good : (ℕ → Option (List ℕ)) → ℕ → List Question → Response → Type 0
  Good f k qs r = Covers f k qs r.rcode r.answer

  on_local_ip-Good :
      (q : Question) (qs : List Question) (k : ℕ) (o : Option (List ℕ)) (rest : Response)
      → local_ip k ≡ o
      → Good local_ip (suc k) qs rest
      → Good local_ip k (q ∷ qs) (on_local_ip q o rest)
  on_local_ip-Good q qs k none rest e h =
      let same : k + 0 ≡ k = omega arith in ([], q, qs, refl, tt, ap local_ip same ∙ e)
  on_local_ip-Good q qs k (some ip) rest e h =
      Covers-in_front local_ip k q qs ip rest.rcode rest.answer e h

  answer_any :
      (k : ℕ) (qs : List Question)
      → is_unspecified hijack_ip ≡ true
      → Good local_ip k (ip4_queries qs) (answer_loop hijack_ip local_ip k qs)
  unfolding answer_loop
  answer_any k [] any = tt
  answer_any k (q ∷ qs) any = rw (sym (is_wanted-is_ip4_query q)) (elim (Bool-cases (is_wanted q)) [
    | inr other ↦ rw other (answer_any k qs any)
    | inl asked ↦
        rw (asked, any)
          (on_local_ip-Good q (ip4_queries qs) k (local_ip k)
            (answer_loop hijack_ip local_ip (suc k) qs) refl (answer_any (suc k) qs any))
  ])

  answer_fixed :
      (k : ℕ) (qs : List Question)
      → is_unspecified hijack_ip ≡ false
      → Good (λ n. some hijack_ip) k (ip4_queries qs) (answer_loop hijack_ip local_ip k qs)
  unfolding answer_loop
  answer_fixed k [] fixed = tt
  answer_fixed k (q ∷ qs) fixed =
      rw (sym (is_wanted-is_ip4_query q)) (elim (Bool-cases (is_wanted q)) [
        | inr other ↦ rw other (answer_fixed k qs fixed)
        | inl asked ↦
            let r = answer_loop hijack_ip local_ip k qs in
            rw (asked, fixed)
              (Covers-in_front (λ n. some hijack_ip) k q (ip4_queries qs) hijack_ip r.rcode r.answer
                refl
                (Covers-fixed hijack_ip k (suc k) (ip4_queries qs) r.rcode r.answer
                  (answer_fixed k qs fixed)))
      ])

-- The server answers the queries for an IPv4 address and no others, in their order, each by one
-- record of type A, class IN and 60 seconds under the query's name: all of them with the code of
-- success, or with the code of a failure those before the first one for which there is no address.
-- The address is the configured one; if this is 0.0.0.0, it is for the k-th query what the system
-- answers to the k-th request for the local address, and there is none if that fails.
pub serve_dns-Covers :
    (hijack_ip : List ℕ) (local_ip : ℕ → Option (List ℕ)) (questions : List Question)
    → let r = serve_dns hijack_ip local_ip questions in
      Covers (address hijack_ip local_ip) 0 (ip4_queries questions) r.rcode r.answer
unfolding serve_dns
serve_dns-Covers hijack_ip local_ip questions =
    let same = is_unspecified-sum hijack_ip in
    elim (Bool-cases (sum hijack_ip == 0)) [
      | inl zeros ↦ rw zeros (answer_any hijack_ip local_ip 0 questions (same ∙ zeros))
      | inr other ↦ rw other (answer_fixed hijack_ip local_ip 0 questions (same ∙ other))
    ]
