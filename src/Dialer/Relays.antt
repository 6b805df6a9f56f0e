-- ===== src/Dialer/Relays.antt =====
-- network/dialer/handler.go and server/handler.go together: from a target's bytes to the writes to
-- the client.
use gforward.Prelude.{
  ℕ, suc, ◌<◌, ◌≡◌, refl, false, some, List, [], ◌∷◌, ◌++◌, length, drop, ◌==◌, All, arith,
  append-nil, drop_append, str_eq,
}
use gforward.Protocol.{
  InternalPacket, plain, packet_type_plain, new_internal_packet, new_packet, packet_unmarshal,
  plain_unmarshal, get_payload,
}
use gforward.Message.{RecvMsg, parse_available, parse_loop, after_parse, data_msg}
use gforward.Server.Session.{SessionTable, get_by_dest}
use gforward.Server.Handler.{DialToken, Effect, writes, ignores, handle_dest_msg}
use gforward.Dialer.Handling.{no_action, handle_traffic}

drop_all : (xs : List ℕ) → drop (length xs) xs ≡ []
drop_all xs =
    let e : drop (length xs) (xs ++ []) ≡ [] = drop_append xs [] in rw (append-nil xs) at e

abbrev pub packet_of : List ℕ → InternalPacket
packet_of buf = plain (record { payload = buf })

module _ {T : Type 0} where
  -- In the plain protocol all bytes of a read become one packet of one message.
  pub handle_traffic_lem :
      (proto : InternalPacket) (conn b : ℕ) (bs : List ℕ)
      → new_packet proto ≡ packet_of []
      → handle_traffic {T = T} proto conn (b ∷ bs)
        ≡ (data_msg conn (packet_of (b ∷ bs) ∷ []) ∷ [], no_action, [])
  unfolding handle_traffic parse_available parse_loop after_parse packet_unmarshal plain_unmarshal
  handle_traffic_lem proto conn b bs e =
      let left : drop (length bs) bs ≡ [] = drop_all bs in
      let any : (suc (length bs) == 0) ≡ false = ground (arith) in rw (e, any, left) refl

-- The messages go to the worker one after the other.
abbrev pub also : List Effect → SessionTable × List Effect → SessionTable × List Effect
also es (t, fs) = (t, es ++ fs)

abbrev pub relay_msgs : SessionTable → List (RecvMsg DialToken) → SessionTable × List Effect
relay_msgs t [] = (t, [])
relay_msgs t (msg ∷ msgs) = let (t', es) = handle_dest_msg t msg in also es (relay_msgs t' msgs)

-- The reads of a target's connection, each on what the last one left, up to the worker's calls.
unfoldable pub relay :
    InternalPacket → SessionTable → ℕ → List ℕ → List (List ℕ) → SessionTable × List Effect
relay proto t d left [] = (t, [])
relay proto t d left (buf ∷ bufs) =
    let (msgs, action, left') = handle_traffic proto d (left ++ buf) in
    let (t', es) = relay_msgs t msgs in also es (relay proto t' d left' bufs)

abbrev pub writes_to : ℕ → List (List ℕ) → List Effect
writes_to client [] = []
writes_to client (buf ∷ bufs) = writes (some client) buf ignores ∷ writes_to client bufs

abbrev IsRead : List ℕ → Type 0
IsRead buf = 0 < length buf

handle_dest_msg-plain :
    (t : SessionTable) (d client : ℕ) (buf : List ℕ)
    → get_by_dest t d ≡ some client
    → handle_dest_msg t (data_msg d (packet_of buf ∷ []))
      ≡ (t, writes (some client) buf ignores ∷ [])
unfolding handle_dest_msg get_payload
handle_dest_msg-plain t d client buf e = rw e refl

proto_plain : new_packet (new_internal_packet packet_type_plain) ≡ packet_of []
unfolding new_packet new_internal_packet str_eq
proto_plain = refl

-- What a target sends reaches the client byte for byte: as long as the target's connection belongs to
-- a client, every read of it becomes one write of the same bytes to this client's connection, in the
-- order of the reads, and the table stays as it is.
pub relay-writes_to :
    (t : SessionTable) (d client : ℕ) (bufs : List (List ℕ))
    → get_by_dest t d ≡ some client
    → All IsRead bufs
    → relay (new_internal_packet packet_type_plain) t d [] bufs ≡ (t, writes_to client bufs)
unfolding relay
relay-writes_to t d client [] e h = refl
relay-writes_to t d client ([] ∷ bufs) e h = absurd (omega (arith, h.0))
relay-writes_to t d client ((b ∷ bs) ∷ bufs) e h =
    let ih = relay-writes_to t d client bufs e h.1 in
    rw
      (
        handle_traffic_lem (new_internal_packet packet_type_plain) d b bs proto_plain,
        handle_dest_msg-plain t d client (b ∷ bs) e,
        ih,
      )
      refl
