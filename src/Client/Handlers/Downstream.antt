-- ===== src/Client/Handlers/Downstream.antt =====
-- `handleServerMsg` of client/forwarder.go: what comes from the server goes to the user, in order.
use gforward.Prelude.{ℕ, ◌≡◌, refl, ap, Option, none, some, List, [], ◌∷◌, ◌++◌, inl, inr, ◌⊎◌}
use gforward.Protocol.{InternalPacket, get_payload}
use gforward.Client.Session.{get_by_server}
use gforward.Client.Forwarder.{Forwarder, Setup, Effect, closes, writes}
use gforward.Client.Handlers.{encode, write_encoded, write_down, handle_server_msg, replay}

module _ {P : Type 0} (env : Setup P) (user : ℕ) where
  abbrev encoded : P → InternalPacket → P × Option (List ℕ)
  encoded p pkt = encode env.parser.encode_payload p user (get_payload pkt)

  -- The parser encodes the payloads one behind the other, each in the state that the last one left.
  pub data Encodes : P → List InternalPacket → List (List ℕ) → P → Type 0 where
    no_more : (p : P) → Encodes p [] [] p
    one_more :
        (p q r : P) (pkt : InternalPacket) (bytes : List ℕ) {pkts : List InternalPacket}
        {rest : List (List ℕ)}
        → encode env.parser.encode_payload p user (get_payload pkt) ≡ (q, some bytes)
        → Encodes q pkts rest r
        → Encodes p (pkt ∷ pkts) (bytes ∷ rest) r

  -- All payloads are written; or those in front of the first one that cannot be encoded, and then
  -- the user's connection is closed.
  abbrev pub Written : P → List InternalPacket → P × List Effect → Type 0
  Written p pkts r =
      (sent : List InternalPacket) × (left : List InternalPacket) × (outs : List (List ℕ)) × (q : P)
      × (sent ++ left ≡ pkts)
      × Encodes p sent outs q
      × (((left ≡ []) × (r ≡ (q, replay user outs)))
          ⊎ ((pkt : InternalPacket) × (rest : List InternalPacket) × (s : P) × (left ≡ pkt ∷ rest)
              × (encode env.parser.encode_payload q user (get_payload pkt) ≡ (s, none))
              × (r ≡ (s, replay user outs ++ (closes user ∷ [])))))

  extend :
      (p q : P) (pkt : InternalPacket) (bytes : List ℕ) (pkts : List InternalPacket)
      (r : P × List Effect)
      → encode env.parser.encode_payload p user (get_payload pkt) ≡ (q, some bytes)
      → Written q pkts r
      → Written p (pkt ∷ pkts) (r.0, writes (some user) bytes ∷ r.1)
  extend p q pkt bytes pkts r e (sent, left, outs, k, split, coded, inl (all, h)) = (
    pkt ∷ sent,
    left,
    bytes ∷ outs,
    k,
    ap (◌∷◌ pkt) split,
    one_more p q k pkt bytes e coded,
    inl (all, ap (λ x. (x.0, writes (some user) bytes ∷ x.1)) h),
  )
  extend p q pkt bytes pkts r e (sent, left, outs, k, split, coded, inr (bad, rest, s, at, f, h)) =
      (
        pkt ∷ sent,
        left,
        bytes ∷ outs,
        k,
        ap (◌∷◌ pkt) split,
        one_more p q k pkt bytes e coded,
        inr (bad, rest, s, at, f, ap (λ x. (x.0, writes (some user) bytes ∷ x.1)) h),
      )

  write_down-Written :
      (pkts : List InternalPacket) (p : P) → Written p pkts (write_down env user pkts p)
  unfolding write_down
  write_down-Written [] p = ([], [], [], p, refl, no_more p, inl (refl, refl))
  write_down-Written (pkt ∷ pkts) p = next (encoded p pkt) refl (write_down-Written pkts)
    where
      next :
          (r : P × Option (List ℕ))
          → encoded p pkt ≡ r
          → ((q : P) → Written q pkts (write_down env user pkts q))
          → Written p (pkt ∷ pkts) (write_encoded user r (write_down env user pkts))
      next (q, none) e ih =
          ([], pkt ∷ pkts, [], p, refl, no_more p, inr (pkt, pkts, q, refl, e, refl))
      next (q, some bytes) e ih = extend p q pkt bytes pkts (write_down env user pkts q) e (ih q)

-- A read from a server connection that the table maps to a user: the client writes to that user, in
-- the order of the packets, the payloads as the parser encodes them one behind the other. It writes
-- all of them, or those in front of the first that cannot be encoded, and then closes the user's
-- connection. The table stays as it is.
pub handle_server_msg-Written :
    {P : Type 0} (env : Setup P) (f : Forwarder P) (server user : ℕ) (pkts : List InternalPacket)
    → get_by_server f.sessions server ≡ some user
    → let r = handle_server_msg env f server pkts in
      (r.0.sessions ≡ f.sessions) × Written env user f.parser_state pkts (r.0.parser_state, r.1)
unfolding handle_server_msg
handle_server_msg-Written env f server user pkts e =
    rw e (refl, write_down-Written env user pkts f.parser_state)
