-- ===== src/Server/Handler/Delivery.antt =====
-- The order in which the handlers of server/handler.go write upstream data.
use gforward.Prelude.{
  ℕ, suc, ◌≡◌, refl, ap, true, false, Option, none, some, List, [], ◌∷◌, ◌++◌, append-nil,
  append_assoc, str_eq_refl, insert, store, arith, ==_refl, All,
}
use gforward.Protocol.{InternalPacket, packet_destination, get_payload}
use gforward.Server.Session.{
  Session, SessionTable, admit_upstream, admit_found, use_session, open_session, fresh_session,
  bind_dial, complete_dial,
}
use gforward.Server.Handler.{
  DialToken, OnError, writes, dials, purges_dest, forward_upstream, forward_all, replay,
  handle_dial_result, handle_dial_open, no_action,
}

-- Every packet names the target.
abbrev pub AreFor : List ℕ → List InternalPacket → Type 0
AreFor dest pkts = All (λ pkt. packet_destination pkt ≡ dest) pkts

abbrev pub payloads : List InternalPacket → List (List ℕ)
payloads [] = []
payloads (pkt ∷ pkts) = get_payload pkt ∷ payloads pkts

-- The session of a client, by its pointer.
record Holds (t : SessionTable) (client s : ℕ) (sess : Session) : Type 0 where
  mapped : t.by_client client ≡ some s
  content : t.heap s ≡ sess

abbrev waiting : List ℕ → Option ℕ → List (List ℕ) → Session
waiting dest conn pending = record {
  dest = dest;
  dest_conn = conn;
  dialing = true;
  pending = pending;
}

abbrev settled : List ℕ → ℕ → Session
settled dest conn = record { dest = dest; dest_conn = some conn; dialing = false; pending = [] }

-- While the dial runs, a packet for the same target joins the queue.
forward_upstream-waiting :
    (t : SessionTable) (client s : ℕ) (dest : List ℕ) (conn : Option ℕ) (pending : List (List ℕ))
    (pkt : InternalPacket)
    → Holds t client s (waiting dest conn pending)
    → packet_destination pkt ≡ dest
    → forward_upstream t client pkt ≡ (
      record t { heap = store s (waiting dest conn (pending ++ (get_payload pkt ∷ []))) t.heap },
      [],
    )
unfolding forward_upstream admit_upstream admit_found use_session
forward_upstream-waiting t client s dest conn pending pkt h e =
    ground (arith, h.mapped, h.content, e, str_eq_refl dest)

forward_upstream-settled :
    (t : SessionTable) (client s : ℕ) (dest : List ℕ) (conn : ℕ) (pkt : InternalPacket)
    → Holds t client s (settled dest conn)
    → packet_destination pkt ≡ dest
    → forward_upstream t client pkt ≡ (t, writes (some conn) (get_payload pkt) purges_dest ∷ [])
unfolding forward_upstream admit_upstream admit_found use_session
forward_upstream-settled t client s dest conn pkt h e =
    ground (arith, h.mapped, h.content, e, str_eq_refl dest)

forward_all-waiting :
    (pkts : List InternalPacket) (t : SessionTable) (client s : ℕ) (dest : List ℕ) (conn : Option ℕ)
    (pending : List (List ℕ))
    → Holds t client s (waiting dest conn pending)
    → AreFor dest pkts
    → (u : SessionTable) × (forward_all t client pkts ≡ (u, []))
      × Holds u client s (waiting dest conn (pending ++ payloads pkts))
unfolding forward_all
forward_all-waiting [] t client s dest conn pending h a = (t, refl, rw (append-nil pending) h)
forward_all-waiting (pkt ∷ pkts) t client s dest conn pending h a =
    let next = store s (waiting dest conn (pending ++ (get_payload pkt ∷ []))) t.heap in
    let (u, e, k) =
      forward_all-waiting pkts (record t { heap = next }) client s dest conn
        (pending ++ (get_payload pkt ∷ []))
        (record { mapped = h.mapped; content = ground (arith, ==_refl s) }) a.1 in
    (
      u,
      rw (forward_upstream-waiting t client s dest conn pending pkt h a.0, e) refl,
      rw (append_assoc pending (get_payload pkt ∷ []) (payloads pkts)) at k,
    )

forward_all-settled :
    (pkts : List InternalPacket) (t : SessionTable) (client s : ℕ) (dest : List ℕ) (conn : ℕ)
    → Holds t client s (settled dest conn)
    → AreFor dest pkts
    → forward_all t client pkts ≡ (t, replay conn purges_dest (payloads pkts))
unfolding forward_all
forward_all-settled [] t client s dest conn h a = refl
forward_all-settled (pkt ∷ pkts) t client s dest conn h a =
    rw
      (
        forward_upstream-settled t client s dest conn pkt h a.0,
        forward_all-settled pkts t client s dest conn h a.1,
      )
      refl

abbrev token_of : ℕ → SessionTable → DialToken
token_of client t = record { client_conn = client; session = t.next }

-- The first packet of a client that has no session starts the dial.
forward_all_first :
    (t : SessionTable) (client : ℕ) (dest : List ℕ) (pkt : InternalPacket)
    (pkts : List InternalPacket)
    → t.by_client client ≡ none
    → packet_destination pkt ≡ dest
    → AreFor dest pkts
    → (u : SessionTable) × (forward_all t client (pkt ∷ pkts)
        ≡ (u, dials dest (token_of client t) ∷ []))
      × Holds u client t.next (waiting dest none (payloads (pkt ∷ pkts)))
unfolding forward_all
forward_all_first t client dest pkt pkts e d a =
    let (u, rest, k) =
      forward_all-waiting pkts (opened d) client t.next dest none (get_payload pkt ∷ [])
        (record {
          mapped = ground (arith, ==_refl client);
          content = ground (arith, ==_refl t.next);
        })
        a in
    (u, rw (first, rest) refl, k)
  where
    opened : packet_destination pkt ≡ dest → SessionTable
    opened x = record t {
      heap = store t.next (fresh_session dest (get_payload pkt)) t.heap;
      next = suc t.next;
      by_client = insert client t.next t.by_client;
    }

    first : forward_upstream t client pkt ≡ (opened d, dials dest (token_of client t) ∷ [])
    first = unfold forward_upstream admit_upstream admit_found open_session in ground (arith, e, d)

open_matches :
    (t : SessionTable) (client s conn : ℕ) (dest : List ℕ) (pending : List (List ℕ))
    → Holds t client s (waiting dest none pending)
    → (u : SessionTable) × (handle_dial_open t conn (record { client_conn = client; session = s })
        ≡ (u, no_action))
      × Holds u client s (waiting dest (some conn) pending)
unfolding handle_dial_open bind_dial
open_matches t client s conn dest pending h = (
  record t {
    heap = store s (record (t.heap s) { dest_conn = some conn }) t.heap;
    by_dest = insert conn client t.by_dest;
  },
  ground (arith, h.mapped, ==_refl s),
  record { mapped = h.mapped; content = ground (arith, h.content, ==_refl s) },
)

result_matches :
    (t : SessionTable) (client s conn : ℕ) (dest : List ℕ) (pending : List (List ℕ))
    → Holds t client s (waiting dest (some conn) pending)
    → (u : SessionTable) × (handle_dial_result t
          (record { conn = conn; err = none; token = record { client_conn = client; session = s } })
        ≡ (u, replay conn purges_dest pending))
      × Holds u client s (settled dest conn)
unfolding handle_dial_result complete_dial
result_matches t client s conn dest pending h = (
  record t { heap = store s (record (t.heap s) { dialing = false; pending = [] }) t.heap },
  ground (arith, h.mapped, h.content, ==_refl s),
  record { mapped = h.mapped; content = ground (arith, h.content, ==_refl s) },
)

replay-append :
    (conn : ℕ) (f : OnError) (xs ys : List (List ℕ))
    → replay conn f xs ++ replay conn f ys ≡ replay conn f (xs ++ ys)
replay-append conn f [] ys = refl
replay-append conn f (x ∷ xs) ys = ap (◌∷◌ (writes (some conn) x f)) (replay-append conn f xs ys)

-- A client without a session sends packets for one target: some before the connection opens, some
-- before the worker sees the dial's result, some later. The worker dials once, keeps quiet until
-- the result, and then writes every payload to the connection, once and in the order of arrival.
pub upstream_in_order :
    (t : SessionTable) (client : ℕ) (dest : List ℕ) (conn : ℕ) (pkt : InternalPacket)
    (ps qs rs : List InternalPacket)
    → t.by_client client ≡ none
    → packet_destination pkt ≡ dest
    → AreFor dest ps
    → AreFor dest qs
    → AreFor dest rs
    → let token = token_of client t in
      let first = forward_all t client (pkt ∷ ps) in
      let opened = handle_dial_open first.0 conn token in
      let second = forward_all opened.0 client qs in
      let result =
        handle_dial_result second.0 (record { conn = conn; err = none; token = token }) in
      let third = forward_all result.0 client rs in
      (first.1 ≡ dials dest token ∷ [])
      × (opened.1 ≡ no_action)
      × (second.1 ≡ [])
      × (result.1 ++ third.1
          ≡ replay conn purges_dest ((payloads (pkt ∷ ps) ++ payloads qs) ++ payloads rs))
upstream_in_order t client dest conn pkt ps qs rs e d ap' aq ar =
    let (t1, e1, h1) = forward_all_first t client dest pkt ps e d ap' in
    let (t2, e2, h2) = open_matches t1 client t.next conn dest (payloads (pkt ∷ ps)) h1 in
    let (t3, e3, h3) =
      forward_all-waiting qs t2 client t.next dest (some conn) (payloads (pkt ∷ ps)) h2 aq in
    let (t4, e4, h4) =
      result_matches t3 client t.next conn dest (payloads (pkt ∷ ps) ++ payloads qs) h3 in
    let e5 = forward_all-settled rs t4 client t.next dest conn h4 ar in
    rw (e1, e2, e3, e4, e5)
      (
        refl,
        refl,
        refl,
        replay-append conn purges_dest (payloads (pkt ∷ ps) ++ payloads qs) (payloads rs),
      )
