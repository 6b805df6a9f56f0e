-- ===== src/Client/Forwarder/Tunnels/Orders.antt =====
-- The order of a user's bytes on the server connection, through client/forwarder.go and back through
-- network/message/message.go on the other side.
use gforward.Prelude.{
  ℕ, suc, ◌≤◌, ◌≡◌, refl, ap, sym, ◌∙◌, false, some, List, [], ◌∷◌, ◌++◌, arith, length, append-nil,
  All-append, append_assoc, ==_refl, store, insert,
}
use gforward.Protocol.{ForwardPacket, frame, forward}
use gforward.Protocol.Frames.{marshal-frame}
use gforward.Message.{received, data_msg, parse_available}
use gforward.Message.Streams.{frames}
use gforward.Message.Wires.{Wire, nothing, one_more, as_packets, parse_available-Wire}
use gforward.Destination.Parser.{IsGnet}
use gforward.Client.Session.{SessionTable, complete_dial}
use gforward.Client.Forwarder.{Forwarder, Setup, DialToken, on_traffic, writes, no_action, turn}
use gforward.Client.Handlers.{handle_dial_open, replay}
use gforward.Client.Forwarder.Tunnels.{sealed, IsTarget, sealed-IsSendable, join, frames_for, Fit}
use gforward.Client.Forwarder.Tunnels.Sending.{Holds, waiting, ready, loop-ready, loop-waiting}

replay-append :
    (conn : ℕ) (xs ys : List (List ℕ)) → replay conn xs ++ replay conn ys ≡ replay conn (xs ++ ys)
replay-append conn [] ys = refl
replay-append conn (x ∷ xs) ys = ap (◌∷◌ (writes (some conn) x)) (replay-append conn xs ys)

frames_for-append :
    (dest : List ℕ) (xs ys : List (List ℕ))
    → frames_for dest xs ++ frames_for dest ys ≡ frames_for dest (xs ++ ys)
frames_for-append dest [] ys = refl
frames_for-append dest (x ∷ xs) ys = ap (◌∷◌ (frame (sealed dest x))) (frames_for-append dest xs ys)

join-append : (xs ys : List (List ℕ)) → join xs ++ join ys ≡ join (xs ++ ys)
join-append [] ys = refl
join-append (x ∷ xs) ys = append_assoc x (join xs) (join ys) ∙ ap (◌++◌ x) (join-append xs ys)

open_matches :
    {P : Type 0} (f : Forwarder P) (user s server : ℕ) (dest : List ℕ) (pending : List (List ℕ))
    → Holds f.sessions user s (waiting dest pending)
    → (u : SessionTable) × (handle_dial_open f server (record { user_conn = user; session = s })
        ≡ (record f { sessions = u }, replay server pending))
      × Holds u user s (ready dest server)
unfolding handle_dial_open complete_dial
open_matches f user s server dest pending h = (
  record f.sessions {
    heap =
        store s
          (record (f.sessions.heap s) { server_conn = some server; dialing = false; pending = [] })
          f.sessions.heap;
    by_server = insert server user f.sessions.by_server;
  },
  ground (arith, h.mapped, h.content, ==_refl s),
  record { mapped = h.mapped; content = ground (arith, h.content, ==_refl s) },
)

-- A user's session waits for its dial with some packets queued. The bytes `front` arrive before the
-- connection opens and the bytes `back` after it. Nothing is written before it opens; then the
-- server connection gets the queued packets and behind them frames to the session's destination,
-- whose payloads are exactly the bytes of `front` and `back` in order, at most 65535 in each. The
-- inbound buffer is empty after either event, and the user's connection stays open.
pub upload_in_order :
    {P : Type 0} (env : Setup P) (p : ForwardPacket) (dest : List ℕ) (f : Forwarder P)
    (user s server : ℕ) (pending : List (List ℕ)) (front back : List ℕ)
    → IsGnet env.gnet
    → env.proto ≡ forward p
    → IsTarget dest
    → Holds f.sessions user s (waiting dest pending)
    → let first = on_traffic env f user front in
      let opened = handle_dial_open first.state server (record { user_conn = user; session = s }) in
      let second = on_traffic env opened.0 user back in
      (first.effects ≡ [])
      × ((first.buffer ≡ []) × (first.action ≡ no_action))
      × ((second.buffer ≡ []) × (second.action ≡ no_action))
      × ((cs : List (List ℕ)) × Fit cs
          × (join cs ≡ front ++ back)
          × (opened.1 ++ second.effects ≡ replay server (pending ++ frames_for dest cs)))
unfolding on_traffic
upload_in_order env p dest f user s server pending front back laws proto target h =
    let (cs, t1, j1, fit1, e1, h1) =
      loop-waiting env p dest laws proto target (suc (length front)) user s f pending front h
        (omega arith) in
    let queue = pending ++ frames_for dest cs in
    let (t2, e2, h2) = open_matches (record f { sessions = t1 }) user s server dest queue h1 in
    let (ds, j2, fit2, e3) =
      loop-ready env p dest laws proto target (suc (length back)) user s server
        (record f { sessions = t2 }) back h2 (omega arith) in
    rw (e1, e2, e3)
      (
        refl,
        (refl, refl),
        (refl, refl),
        (
          cs ++ ds,
          All-append (λ c. length c ≤ 65535) cs ds fit1 fit2,
          sym (join-append cs ds) ∙ ap (λ l. l ++ join ds) j1 ∙ ap (λ l. front ++ l) j2,
          replay-append server queue (frames_for dest ds)
              ∙ ap (replay server) (
                  append_assoc pending (frames_for dest cs) (frames_for dest ds)
                  ∙ ap (λ l. pending ++ l) (frames_for-append dest cs ds)),
        ),
      )

abbrev pub seal_all : List ℕ → List (List ℕ) → List ForwardPacket
seal_all dest [] = []
seal_all dest (c ∷ cs) = sealed dest c ∷ seal_all dest cs

frames_for-Wire :
    (dest : List ℕ) (cs : List (List ℕ))
    → IsTarget dest
    → Fit cs
    → Wire (seal_all dest cs) (join (frames_for dest cs))
frames_for-Wire dest [] h fit = nothing
frames_for-Wire dest (c ∷ cs) h fit =
    let sendable = sealed-IsSendable dest c h fit.0 in
    one_more (sealed dest c) (frame (sealed dest c)) (join (frames_for dest cs)) _ sendable.port_lt
      (marshal-frame (sealed dest c) sendable) refl (frames_for-Wire dest cs h fit.1)

-- A user's session is ready. `OnTraffic` empties the inbound buffer, keeps the connection open and
-- writes frames to the server connection; `ParseAvailable`, on the bytes of these frames in one
-- read, returns as many packets, all to the session's destination, whose payloads are exactly the
-- user's bytes in order, and leaves nothing in its buffer.
pub on_traffic-parse_available :
    {P : Type 0} (env : Setup P) (p : ForwardPacket) (dest : List ℕ) (f : Forwarder P)
    (user s server conn : ℕ) (buf : List ℕ)
    → IsGnet env.gnet
    → env.proto ≡ forward p
    → IsTarget dest
    → Holds f.sessions user s (ready dest server)
    → (cs : List (List ℕ)) × (join cs ≡ buf)
      × (on_traffic env f user buf ≡ turn f [] (replay server (frames_for dest cs)) no_action)
      × (parse_available {T = DialToken} conn frames (join (frames_for dest cs))
          ≡ (received (data_msg conn (as_packets (seal_all dest cs))), []))
unfolding on_traffic
on_traffic-parse_available env p dest f user s server conn buf laws proto target h =
    let (cs, joined, fit, e) =
      loop-ready env p dest laws proto target (suc (length buf)) user s server f buf h
        (omega arith) in
    let none_left = append-nil (join (frames_for dest cs)) in
    let blank = sealed dest [] in
    (
      cs,
      joined,
      e,
      ap (parse_available conn frames) (sym none_left)
          ∙ parse_available-Wire conn (seal_all dest cs) (join (frames_for dest cs)) blank [] _ _
              (frames_for-Wire dest cs target fit) target.1.port_lt (marshal-frame blank target.1),
    )
