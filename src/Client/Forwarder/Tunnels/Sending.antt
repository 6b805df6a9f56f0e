-- ===== src/Client/Forwarder/Tunnels/Sending.antt =====
-- The rounds of `OnTraffic` in client/forwarder.go for a user whose session holds the destination.
use gforward.Prelude.{
  ℕ, zero, suc, ◌<◌, ◌≡◌, refl, ap, sym, ◌∙◌, true, false, none, some, List, [], ◌∷◌, ◌++◌, arith,
  length, drop, append-nil, append_assoc, length-drop, length_zero, Bool-cases, inl, inr, ◌==◌,
  ==_refl, store,
}
use gforward.Protocol.{ForwardPacket, frame, forward}
use gforward.Destination.Parser.{IsGnet}
use gforward.Client.Session.{
  Session, SessionTable, UpstreamAction, admit_found, admit_upstream, get_dest,
}
use gforward.Client.Forwarder.{
  Forwarder, Setup, Turn, find_dest, on_found, on_admitted, traffic_loop, cut, turn, no_action,
}
use gforward.Client.Handlers.{replay}
use gforward.Client.Forwarder.Traffic.{length-cut}
use gforward.Client.Forwarder.Tunnels.{
  sealed, IsTarget, packet_marshal-sealed, cut-append-drop, join, frames_for, Fit,
}

-- The session of a user, by its pointer.
pub record Holds (t : SessionTable) (user s : ℕ) (sess : Session) : Type 0 where
  pub mapped : t.by_user user ≡ some s
  pub content : t.heap s ≡ sess

abbrev pub waiting : List ℕ → List (List ℕ) → Session
waiting dest pending = record { dest = dest; server_conn = none; dialing = true; pending = pending }

abbrev pub ready : List ℕ → ℕ → Session
ready dest server = record { dest = dest; server_conn = some server; dialing = false; pending = [] }

get_dest-Holds :
    (t : SessionTable) (user s : ℕ) (sess : Session)
    → Holds t user s sess
    → 0 < length sess.dest
    → get_dest t user ≡ some sess.dest
unfolding get_dest
get_dest-Holds t user s sess h pos = ground (arith, h.mapped, h.content, pos)

admit-ready :
    (t : SessionTable) (user s server : ℕ) (dest bytes : List ℕ)
    → Holds t user s (ready dest server)
    → admit_upstream t user [] bytes ≡ (t, UpstreamAction.forward (some server) bytes s)
unfolding admit_upstream admit_found
admit-ready t user s server dest bytes h = ground (arith, h.mapped, h.content)

-- The table with one packet more in the session's queue.
abbrev queued_in : SessionTable → ℕ → List ℕ → List (List ℕ) → SessionTable
queued_in t s dest pending = record t { heap = store s (waiting dest pending) t.heap }

admit-waiting :
    (t : SessionTable) (user s : ℕ) (dest : List ℕ) (pending : List (List ℕ)) (bytes : List ℕ)
    → Holds t user s (waiting dest pending)
    → admit_upstream t user [] bytes
      ≡ (queued_in t s dest (pending ++ (bytes ∷ [])), UpstreamAction.queued)
unfolding admit_upstream admit_found
admit-waiting t user s dest pending bytes h = ground (arith, h.mapped, h.content)

module _ {P : Type 0} (env : Setup P) (p : ForwardPacket) (dest : List ℕ) (laws : IsGnet env.gnet)
    (proto : env.proto ≡ forward p) (target : IsTarget dest) where
  -- A round with nothing in the buffer does nothing.
  round-empty :
      (f : Forwarder P) (user : ℕ) (again : Forwarder P → List ℕ → Turn P)
      → get_dest f.sessions user ≡ some dest
      → on_found env user (find_dest env f user []) again ≡ turn f [] [] no_action
  unfolding find_dest
  round-empty f user again e = rw (e, laws.peek_all []) refl

  -- A round with bytes in the buffer submits one frame and leaves the bytes behind it.
  round-sends :
      (f : Forwarder P) (user : ℕ) (buf : List ℕ) (again : Forwarder P → List ℕ → Turn P)
      → get_dest f.sessions user ≡ some dest
      → 0 < length buf
      → on_found env user (find_dest env f user buf) again
        ≡ on_admitted env f user
            (drop (length (cut buf)) buf)
            []
            (frame (sealed dest (cut buf)))
            (admit_upstream f.sessions user [] (frame (sealed dest (cut buf))))
            again
  unfolding find_dest
  round-sends f user buf again e pos =
      let (small, fits, some_bytes) = length-cut buf in
      let filled : (length buf == 0) ≡ false = ground (arith, pos) in
      rw
        (
          e,
          laws.peek_all buf,
          filled,
          laws.discard_some buf (length (cut buf)) (some_bytes pos) fits,
          packet_marshal-sealed env p dest (cut buf) proto target small,
        )
        refl

  -- A ready session writes every byte of the buffer to the server, in frames.
  pub loop-ready :
      (fuel user s server : ℕ) (f : Forwarder P) (buf : List ℕ)
      → Holds f.sessions user s (ready dest server)
      → length buf < fuel
      → (cs : List (List ℕ)) × (join cs ≡ buf)
        × Fit cs
        × (traffic_loop fuel env user f buf
            ≡ turn f [] (replay server (frames_for dest cs)) no_action)
  unfolding traffic_loop
  loop-ready zero user s server f buf h lt = absurd (omega arith)
  loop-ready (suc fuel) user s server f [] h lt = (
    [],
    refl,
    tt,
    round-empty f user (traffic_loop fuel env user)
        (get_dest-Holds f.sessions user s (ready dest server) h target.0),
  )
  loop-ready (suc fuel) user s server f (x ∷ xs) h lt =
      let buf = x ∷ xs in
      let c = cut buf in
      let left = drop (length c) buf in
      let sent =
        round-sends f user buf (traffic_loop fuel env user)
          (get_dest-Holds f.sessions user s (ready dest server) h target.0) (omega arith) in
      let decided = admit-ready f.sessions user s server dest (frame (sealed dest c)) h in
      elim (Bool-cases (length left == 0)) [
        | inl last ↦
            let empty : left ≡ [] = length_zero left (ground (arith, last)) in
            (
              c ∷ [],
              ap (λ l. c ++ l) (sym empty) ∙ cut-append-drop buf,
              ((length-cut buf).0, tt),
              rw (sent, decided, last, empty) refl,
            )
        | inr more ↦
            let shorter : length left < fuel =
              omega (arith, length-drop (length c) buf, (length-cut buf).2 (omega arith)) in
            let (cs, joined, fit, rest) = loop-ready fuel user s server f left h shorter in
            (
              c ∷ cs,
              ap (λ l. c ++ l) joined ∙ cut-append-drop buf,
              ((length-cut buf).0, fit),
              rw (sent, decided, more, rest) refl,
            )
      ]

  -- A session that waits for its dial puts every byte of the buffer into its queue, in frames.
  pub loop-waiting :
      (fuel user s : ℕ) (f : Forwarder P) (pending : List (List ℕ)) (buf : List ℕ)
      → Holds f.sessions user s (waiting dest pending)
      → length buf < fuel
      → (cs : List (List ℕ)) × (u : SessionTable) × (join cs ≡ buf)
        × Fit cs
        × (traffic_loop fuel env user f buf ≡ turn (record f { sessions = u }) [] [] no_action)
        × Holds u user s (waiting dest (pending ++ frames_for dest cs))
  unfolding traffic_loop
  loop-waiting zero user s f pending buf h lt = absurd (omega arith)
  loop-waiting (suc fuel) user s f pending [] h lt = (
    [],
    f.sessions,
    refl,
    tt,
    round-empty f user (traffic_loop fuel env user)
        (get_dest-Holds f.sessions user s (waiting dest pending) h target.0),
    rw (append-nil pending) h,
  )
  loop-waiting (suc fuel) user s f pending (x ∷ xs) h lt =
      let buf = x ∷ xs in
      let c = cut buf in
      let left = drop (length c) buf in
      let bytes = frame (sealed dest c) in
      let t = queued_in f.sessions s dest (pending ++ (bytes ∷ [])) in
      let sent =
        round-sends f user buf (traffic_loop fuel env user)
          (get_dest-Holds f.sessions user s (waiting dest pending) h target.0) (omega arith) in
      let decided = admit-waiting f.sessions user s dest pending bytes h in
      let held : Holds t user s (waiting dest (pending ++ (bytes ∷ []))) = record {
        mapped = h.mapped;
        content = ground (arith, ==_refl s);
      } in
      elim (Bool-cases (length left == 0)) [
        | inl last ↦
            let empty : left ≡ [] = length_zero left (ground (arith, last)) in
            (
              c ∷ [],
              t,
              ap (λ l. c ++ l) (sym empty) ∙ cut-append-drop buf,
              ((length-cut buf).0, tt),
              rw (sent, decided, last, empty) refl,
              held,
            )
        | inr more ↦
            let shorter : length left < fuel =
              omega (arith, length-drop (length c) buf, (length-cut buf).2 (omega arith)) in
            let (cs, u, joined, fit, rest, kept) =
              loop-waiting fuel user s (record f { sessions = t }) (pending ++ (bytes ∷ [])) left
                held shorter in
            (
              c ∷ cs,
              u,
              ap (λ l. c ++ l) joined ∙ cut-append-drop buf,
              ((length-cut buf).0, fit),
              rw (sent, decided, more, rest) refl,
              rw (append_assoc pending (bytes ∷ []) (frames_for dest cs)) at kept,
            )
      ]
