-- ===== src/Client/Handlers.antt =====
-- client/forwarder.go: the handlers of a user that closes and of the dialer's events. They return the
-- new state and the calls that they make, in order.
pub mod Events
pub mod Downstream
use gforward.Prelude.{
  ℕ, zero, suc, Bool, true, false, not, ◌&&◌, Option, none, some, List, [], ◌∷◌, ◌++◌, length, take,
  ltb, ◌==◌, if◌then◌else◌, Result, ok, err, str_eq, drop, ◌-◌,
}
use gforward.Protocol.{
  InternalPacket, new_packet, set_payload, set_packet_destination, packet_marshal, PacketError,
  get_payload,
}
use gforward.Message.{RecvMsg, recv_data, recv_close, recv_open, recv_dial_error}
use gforward.Destination.Parser.{
  Gnet, ParseStatus, parse_need_more_data, parse_done, parse_rejected, ParseResult, ParseEnd,
  Parser, ParserProto, new_parser,
}
use gforward.Client.Session.{
  SessionTable, new_session_table, UpstreamAction, queued, forward, dial, get_dest, admit_upstream,
  complete_dial, abort_dial, purge_by_user, purge_by_server, get_by_server,
}
use gforward.Client.Forwarder.{Forwarder, Setup, DialToken, Effect, answers, closes, writes, dials}

abbrev pub close_all : Option ℕ → List Effect
close_all none = []
close_all (some conn) = closes conn ∷ []

-- The loop over the packets that waited for the dial.
abbrev pub replay : ℕ → List (List ℕ) → List Effect
replay conn [] = []
replay conn (packet ∷ packets) = writes (some conn) packet ∷ replay conn packets

module _ {P : Type 0} where
  abbrev pub cleared : P → ℕ → Option (P → ℕ → P) → P
  cleared p conn none = p
  cleared p conn (some clear) = clear p conn

  unfoldable pub on_close : Setup P → Forwarder P → ℕ → Forwarder P × List Effect
  on_close env f conn =
      let r : SessionTable × Option ℕ = purge_by_user f.sessions conn in
      (
        record { parser_state = cleared f.parser_state conn env.parser.clear; sessions = r.0 },
        close_all r.1,
      )

  unfoldable pub handle_dial_close : Forwarder P → ℕ → Forwarder P × List Effect
  handle_dial_close f server =
      let r : SessionTable × Option ℕ = purge_by_server f.sessions server in
      (record f { sessions = r.0 }, close_all r.1)

  abbrev pub encode :
      Option (P → ℕ → List ℕ → P × Option (List ℕ)) → P → ℕ → List ℕ → P × Option (List ℕ)
  encode none p user payload = (p, some payload)
  encode (some encoder) p user payload = encoder p user payload

  -- A payload that cannot be encoded closes the user's connection and ends the loop.
  abbrev pub write_encoded : ℕ → P × Option (List ℕ) → (P → P × List Effect) → P × List Effect
  write_encoded user (p, none) again = (p, closes user ∷ [])
  write_encoded user (p, some payload) again =
      let rest = again p in (rest.0, writes (some user) payload ∷ rest.1)

  -- The loop over the downstream packets.
  unfoldable pub write_down : Setup P → ℕ → List InternalPacket → P → P × List Effect
  write_down env user [] p = (p, [])
  write_down env user (pkt ∷ pkts) p =
      write_encoded user (encode env.parser.encode_payload p user (get_payload pkt))
        (write_down env user pkts)

  abbrev pub on_written : Forwarder P → P × List Effect → Forwarder P × List Effect
  on_written f (p, es) = (record f { parser_state = p }, es)

  abbrev pub on_user :
      Setup P → Forwarder P → List InternalPacket → Option ℕ → Forwarder P × List Effect
  on_user env f pkts none = (f, [])
  on_user env f pkts (some user) = on_written f (write_down env user pkts f.parser_state)

  unfoldable pub handle_server_msg :
      Setup P → Forwarder P → ℕ → List InternalPacket → Forwarder P × List Effect
  handle_server_msg env f server pkts = on_user env f pkts (get_by_server f.sessions server)

  abbrev pub on_completed :
      Forwarder P → ℕ → SessionTable × Option (List (List ℕ)) → Forwarder P × List Effect
  on_completed f conn (t, none) = (record f { sessions = t }, closes conn ∷ [])
  on_completed f conn (t, some pending) = (record f { sessions = t }, replay conn pending)

  unfoldable pub handle_dial_open : Forwarder P → ℕ → DialToken → Forwarder P × List Effect
  handle_dial_open f conn token =
      on_completed f conn (complete_dial f.sessions token.user_conn token.session conn)

  unfoldable pub handle_dial_error : Forwarder P → DialToken → Forwarder P × List Effect
  handle_dial_error f token =
      (record f { sessions = (abort_dial f.sessions token.user_conn token.session).0 }, [])

  -- `msg.Token.(*dialToken)`, which panics without a token: the dialer passes it on with every
  -- result of a dial, and the model does nothing without it.
  abbrev pub with_token :
      Forwarder P
      → Option DialToken
      → (DialToken → Forwarder P × List Effect)
      → Forwarder P × List Effect
  with_token f none k = (f, [])
  with_token f (some token) k = k token

  -- The loop of `start` on one event of the dialer.
  unfoldable pub handle_event :
      Setup P → Forwarder P → RecvMsg DialToken → Forwarder P × List Effect
  handle_event env f msg = elim msg.event [
    | recv_data ↦ handle_server_msg env f msg.conn msg.pkts
    | recv_close ↦ handle_dial_close f msg.conn
    | recv_open ↦ with_token f msg.token (handle_dial_open f msg.conn)
    | recv_dial_error ↦ with_token f msg.token (handle_dial_error f)
  ]
