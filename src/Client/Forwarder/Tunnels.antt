-- ===== src/Client/Forwarder/Tunnels.antt =====
-- What `OnTraffic` and `handleDialOpen` of client/forwarder.go make of the bytes of a user whose
-- destination is known: the frames for the server.
pub mod Sending
pub mod Orders
use gforward.Prelude.{
  ℕ, ◌≤◌, ◌<◌, ◌≡◌, refl, ap, sym, ◌∙◌, true, false, Option, none, some, List, [], ◌∷◌, ◌++◌, arith,
  length, take, drop, append-nil, append_assoc, take-append-drop, take_all, length-take, Bool-cases,
  inl, inr, ltb, ok, All,
}
use gforward.Protocol.{
  ForwardPacket, new_forward, set_destination, set_parts, set_port, frame, marshal, forward,
  InternalPacket, new_packet, set_payload, set_packet_destination, packet_marshal,
}
use gforward.Protocol.HostPort.{split_host_port}
use gforward.Protocol.Decimal.{parse_uint16}
use gforward.Protocol.Frames.{IsSendable, marshal-frame}
use gforward.Client.Forwarder.{Setup, cut, cut_to, packet_for}
use gforward.Client.Forwarder.Traffic.{length-cut}

-- The packet that carries a payload to a destination in text.
abbrev pub sealed : List ℕ → List ℕ → ForwardPacket
sealed dest payload = record (set_destination new_forward dest) { payload = payload }

-- The text names a destination to which a packet can be sent.
abbrev pub IsTarget : List ℕ → Type 0
IsTarget dest = (0 < length dest) × IsSendable (sealed dest [])

pub sealed-IsSendable :
    (dest payload : List ℕ)
    → IsTarget dest
    → length payload ≤ 65535
    → IsSendable (sealed dest payload)
sealed-IsSendable dest payload h le = record {
  addr_pos = h.1.addr_pos;
  addr_le = h.1.addr_le;
  port_pos = h.1.port_pos;
  port_lt = h.1.port_lt;
  payload_le = le;
}

set_port-payload :
    (addr payload : List ℕ) (port : Option ℕ)
    → set_port (record new_forward { payload = payload }) addr port
      ≡ record (set_port new_forward addr port) { payload = payload }
set_port-payload addr payload none = refl
set_port-payload addr payload (some n) = ground arith

set_parts-payload :
    (payload : List ℕ) (parts : Option (List ℕ × List ℕ))
    → set_parts (record new_forward { payload = payload }) parts
      ≡ record (set_parts new_forward parts) { payload = payload }
set_parts-payload payload none = refl
set_parts-payload payload (some (addr, text)) = set_port-payload addr payload (parse_uint16 text)

set_destination-payload :
    (dest payload : List ℕ)
    → set_destination (record new_forward { payload = payload }) dest ≡ sealed dest payload
unfolding set_destination
set_destination-payload dest payload = set_parts-payload payload (split_host_port dest)

-- The packet that the client builds is marshalled to this frame.
pub packet_marshal-sealed :
    {P : Type 0} (env : Setup P) (p : ForwardPacket) (dest payload : List ℕ)
    → env.proto ≡ forward p
    → IsTarget dest
    → length payload ≤ 65535
    → packet_marshal (packet_for env dest payload) ≡ ok (frame (sealed dest payload))
unfolding packet_marshal set_packet_destination set_payload new_packet
packet_marshal-sealed env p dest payload e h le =
    rw (e, set_destination-payload dest payload)
      (marshal-frame (sealed dest payload) (sealed-IsSendable dest payload h le))

cut_to-append : (n : ℕ) (xs : List ℕ) → cut_to n xs ++ drop (length (cut_to n xs)) xs ≡ xs
cut_to-append n xs = elim (Bool-cases (ltb n (length xs))) [
  | inl long ↦
      let size : length (take n xs) ≡ n = ground (arith, length-take n xs, long) in
      rw (long, size) (take-append-drop n xs)
  | inr short ↦
      rw short
        (ap (λ l. l ++ drop (length xs) xs) (sym (take_all xs)) ∙ take-append-drop (length xs) xs)
]

-- The bytes behind a packet are those that it does not carry.
pub cut-append-drop : (xs : List ℕ) → cut xs ++ drop (length (cut xs)) xs ≡ xs
unfolding cut
cut-append-drop xs = cut_to-append 65535 xs

abbrev pub join : List (List ℕ) → List ℕ
join [] = []
join (x ∷ xs) = x ++ join xs

-- The frames that carry the payloads to a destination.
abbrev pub frames_for : List ℕ → List (List ℕ) → List (List ℕ)
frames_for dest [] = []
frames_for dest (c ∷ cs) = frame (sealed dest c) ∷ frames_for dest cs

-- Payloads for one packet each.
abbrev pub Fit : List (List ℕ) → Type 0
Fit cs = All (λ c. length c ≤ 65535) cs
