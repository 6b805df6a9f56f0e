-- ===== src/Client/Forwarder/Traffic.antt =====
-- The loop of `OnTraffic` in client/forwarder.go: it ends for every parser that does not spin.
use gforward.Prelude.{
  ℕ, zero, suc, ◌≤◌, ◌<◌, ◌≡◌, ◌≢◌, refl, Option, none, some, List, arith, length, length-take,
  length-drop, length_zero, Result, ok, err, ◌==◌, Bool-cases, Option-cases, leb, ◌&&◌, Nat-cases,
  inl, inr, ◌⊎◌,
}
use gforward.Protocol.{PacketError}
use gforward.Destination.Parser.{
  Gnet, IsGnet, ParseStatus, parse_need_more_data, parse_done, parse_rejected, ParseResult,
}
use gforward.Client.Session.{get_dest}
use gforward.Client.Forwarder.{
  Forwarder, Setup, Turn, Request, Found, stops, finds, stuck, find_dest, on_dest, on_result,
  on_status, on_found, on_payload, on_marshalled, peek_payload, is_none, cut, cut_to, discarded,
  traffic_loop, on_traffic, Effect,
}

-- gnet behaves as documented; `Parse` puts nothing into the inbound buffer, and takes bytes out of
-- it whenever it hands over a decoded payload.
pub record IsConsuming {P : Type 0} (env : Setup P) : Type 0 where
  pub gnet_laws : IsGnet env.gnet
  pub shrinks :
      (p : P) (conn : ℕ) (buf : List ℕ) → length (env.parser.parse p conn buf).buffer ≤ length buf
  pub decodes :
      (p : P) (conn : ℕ) (buf : List ℕ) (r : ParseResult)
      → (env.parser.parse p conn buf).result ≡ some r
      → r.payload ≢ none
      → length (env.parser.parse p conn buf).buffer < length buf

length-cut_to :
    (n : ℕ) (payload : List ℕ)
    → 0 < n
    → (length (cut_to n payload) ≤ n)
      × (length (cut_to n payload) ≤ length payload)
      × (0 < length payload → 0 < length (cut_to n payload))
length-cut_to n payload h = ground (arith, length-take n payload)

pub length-cut :
    (payload : List ℕ)
    → (length (cut payload) ≤ 65535)
      × (length (cut payload) ≤ length payload)
      × (0 < length payload → 0 < length (cut payload))
unfolding cut
length-cut payload = length-cut_to 65535 payload (omega arith)

-- What `Peek` shows is no longer than the buffer, and empty only if the buffer is.
pub peek_length :
    (g : Gnet) (buf : List ℕ) (n : ℕ) (payload : List ℕ)
    → IsGnet g
    → g.peek buf n ≡ some payload
    → (length payload ≤ length buf) × (length payload ≡ 0 → length buf ≡ 0)
peek_length g buf zero payload w e = ground (arith, w.peek_all buf, e)
peek_length g buf (suc n) payload w e = elim (Bool-cases (leb (suc n) (length buf))) [
  | inl enough ↦
      ground (arith, w.peek_some buf (suc n) (omega arith), e, length-take (suc n) buf, enough)
  | inr short ↦ absurd (ground (arith, w.peek_short buf (suc n), e, short))
]

discard_less :
    (g : Gnet)
    → IsGnet g
    → (buf : List ℕ) (n : ℕ) (payload : List ℕ) (k : ℕ) → g.peek buf n ≡ some payload
    → length buf ≤ k
    → (length (g.discard buf (length (cut payload))) ≡ 0)
      ⊎ (length (g.discard buf (length (cut payload))) < k)
discard_less g w buf n payload k p le =
    let (fits, empty) = peek_length g buf n payload w p in
    let (x, cut_le, cut_pos) = length-cut payload in
    elim (Nat-cases (length payload) 0) [
      | inl nothing ↦
          let none_left = length_zero buf (empty nothing) in
          inl (ground (arith, none_left, w.discard_empty (length (cut payload))))
      | inr something ↦
          let pos : 0 < length (cut payload) = cut_pos (omega arith) in
          inr (
            ground (
              arith,
              pos,
              w.discard_some buf (length (cut payload)) pos (omega arith),
              length-drop (length (cut payload)) buf,
            ))
    ]

module _ {P : Type 0} (env : Setup P) (laws : IsConsuming env) where
  -- The half of a round that finds data has put nothing into the buffer, and has taken something out
  -- of it if the data is decoded.
  abbrev Progresses : ℕ → Found P → Type 0
  Progresses k (stops t) = t.action ≢ stuck
  Progresses k (finds f buf es req) = (length buf ≤ k) × (req.decoded ≢ none → length buf < k)

  on_status-Progresses :
      (f : Forwarder P) (buf : List ℕ) (es : List Effect) (r : ParseResult) (s : ParseStatus)
      (k : ℕ)
      → length buf ≤ k
      → (r.payload ≢ none → length buf < k)
      → Progresses k (on_status f buf es r s)
  on_status-Progresses f buf es r parse_need_more_data k le lt = λ e. ground arith
  on_status-Progresses f buf es r parse_rejected k le lt = λ e. ground arith
  on_status-Progresses f buf es r parse_done k le lt =
      elim (Bool-cases (length r.destination == 0)) [
        | inl blank ↦ rw blank (λ e. ground arith)
        | inr named ↦ rw named (le, lt)
      ]

  on_result-Progresses :
      (f : Forwarder P) (buf : List ℕ) (es : List Effect) (o : Option ParseResult) (k : ℕ)
      → length buf ≤ k
      → ((r : ParseResult) → o ≡ some r → r.payload ≢ none → length buf < k)
      → Progresses k (on_result f buf es o)
  on_result-Progresses f buf es none k le lt = λ e. ground arith
  on_result-Progresses f buf es (some r) k le lt =
      on_status-Progresses f buf es r r.status k le (lt r refl)

  on_dest-Progresses :
      (f : Forwarder P) (conn : ℕ) (buf : List ℕ) (o : Option (List ℕ))
      → Progresses (length buf) (on_dest env f conn buf o)
  on_dest-Progresses f conn buf none =
      on_result-Progresses _ (env.parser.parse f.parser_state conn buf).buffer _
        (env.parser.parse f.parser_state conn buf).result (length buf)
        (laws.shrinks f.parser_state conn buf) (laws.decodes f.parser_state conn buf)
  on_dest-Progresses f conn buf (some dest) = (omega arith, λ h. absurd (h refl))

  -- Behind a packet the buffer is empty or shorter.
  discarded_less :
      (buf : List ℕ) (req : Request) (payload : List ℕ) (k : ℕ) (o : Option (List ℕ))
      → req.decoded ≡ o
      → peek_payload env buf req o ≡ some payload
      → length buf ≤ k
      → (req.decoded ≢ none → length buf < k)
      → (length (discarded env buf req (cut payload)) ≡ 0)
        ⊎ (length (discarded env buf req (cut payload)) < k)
  discarded_less buf req payload k (some x) e p le lt = inr (rw e (lt (λ n. ground arith)))
  discarded_less buf req payload k none e p le lt =
      rw e (discard_less env.gnet laws.gnet_laws buf req.payload_len payload k p le)

  on_marshalled_ends :
      (f : Forwarder P) (conn : ℕ) (buf : List ℕ) (es : List Effect) (req : Request) (k : ℕ)
      (r : Result PacketError (List ℕ)) (again : Forwarder P → List ℕ → Turn P)
      → (length buf ≡ 0) ⊎ (length buf < k)
      → ((f : Forwarder P) (buf : List ℕ) → length buf < k → (again f buf).action ≢ stuck)
      → (on_marshalled env f conn buf es req r again).action ≢ stuck
  on_marshalled_ends f conn buf es req k (err e) again less ih = λ h. ground arith
  on_marshalled_ends f conn buf es req k (ok bytes) again less ih =
      elim (Bool-cases (length buf == 0)) [
        | inl empty ↦ rw empty (λ h. ground arith)
        | inr more ↦ rw more (ih _ buf (ground arith))
      ]

  on_found_ends :
      (conn k : ℕ) (found : Found P) (again : Forwarder P → List ℕ → Turn P)
      → Progresses k found
      → ((f : Forwarder P) (buf : List ℕ) → length buf < k → (again f buf).action ≢ stuck)
      → (on_found env conn found again).action ≢ stuck
  on_found_ends conn k (stops t) again p ih = p
  on_found_ends conn k (finds f buf es req) again p ih =
      elim (Option-cases (peek_payload env buf req req.decoded)) [
        | inl failed ↦ rw failed (λ h. ground arith)
        | inr (payload, shown) ↦ rw shown (sent payload shown)
      ]
    where
      sent :
          (payload : List ℕ)
          → peek_payload env buf req req.decoded ≡ some payload
          → (on_payload env f conn buf es req (some payload) again).action ≢ stuck
      sent payload shown =
          elim (Bool-cases
            (length payload == 0 && (length req.cached_dest == 0 && is_none req.decoded))) [
              | inl nothing ↦ rw nothing (λ h. ground arith)
              | inr something ↦ rw something (
                  on_marshalled_ends f conn (discarded env buf req (cut payload)) es req k _ again
                    (discarded_less buf req payload k req.decoded refl shown p.0 p.1) ih)
            ]

  traffic_loop_ends :
      (fuel conn : ℕ) (f : Forwarder P) (buf : List ℕ)
      → length buf < fuel
      → (traffic_loop fuel env conn f buf).action ≢ stuck
  unfolding traffic_loop find_dest
  traffic_loop_ends zero conn f buf h = absurd (omega arith)
  traffic_loop_ends (suc fuel) conn f buf h =
      on_found_ends conn (length buf) (on_dest env f conn buf (get_dest f.sessions conn))
        (traffic_loop fuel env conn) (on_dest-Progresses f conn buf (get_dest f.sessions conn))
        (λ g rest le. traffic_loop_ends fuel conn g rest (omega arith))

-- `OnTraffic` returns for every buffer and every state of the client, if gnet's buffer behaves as
-- documented and the parser takes bytes out of it whenever it hands over a decoded payload: the
-- loop never runs out of fuel.
pub on_traffic-ne-stuck :
    {P : Type 0} (env : Setup P) (f : Forwarder P) (conn : ℕ) (buf : List ℕ)
    → IsConsuming env
    → (on_traffic env f conn buf).action ≢ stuck
unfolding on_traffic
on_traffic-ne-stuck env f conn buf laws =
    traffic_loop_ends env laws (suc (length buf)) conn f buf (omega arith)
