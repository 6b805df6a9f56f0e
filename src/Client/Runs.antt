-- ===== src/Client/Runs.antt =====
-- Concrete runs of client/session.go and client/forwarder.go, and their theorems at concrete inputs.
use gforward.Prelude.{ℕ, suc, ◌≡◌, refl, false, none, some, List, [], ◌∷◌, arith}
use gforward.Protocol.{forward as forward_packet, new_forward, set_destination}
use gforward.Protocol.HostPort.{split_host_port, last_index_byte, contains_byte, index_byte}
use gforward.Protocol.Decimal.{parse_uint16, parse_digits}
use gforward.Message.{received, data_msg, parse_available}
use gforward.Message.Streams.{frames}
use gforward.Message.Wires.{as_packets}
use gforward.Destination.Parser.{parse_done}
use gforward.Client.Session.{
  SessionTable, new_session_table, admit_upstream, admit_found, complete_dial, get_by_server,
}
use gforward.Client.Session.Invariant.{
  IsWf, new_session_table-IsWf, admit_upstream-IsWf, complete_dial-IsWf,
}
use gforward.Client.Session.Reachable.{here, next, admits, completes}
use gforward.Client.Session.Contract.{IsRouted, new_client_table-IsRouted}
use gforward.Destination.PlainGnet.{plain_gnet, plain_gnet-IsGnet}
use gforward.Client.Forwarder.{Setup, Forwarder, on_traffic, no_action, turn, DialToken}
use gforward.Client.Handlers.{replay, on_close, handle_server_msg}
use gforward.Client.Forwarder.Traffic.{IsConsuming}
use gforward.Client.Forwarder.Tunnels.{IsTarget, join, frames_for}
use gforward.Client.Forwarder.Tunnels.Sending.{Holds, waiting, ready}
use gforward.Client.Forwarder.Tunnels.Orders.{upload_in_order, seal_all, on_traffic-parse_available}
use gforward.Client.Handlers.Events.{starts, follows, traffic, closed, Run-IsWf}
use gforward.Client.Handlers.Downstream.{Written, handle_server_msg-Written}

-- User 7 has sent one packet for a:1, and server connection 20 was opened for it.
abbrev site : List ℕ
site = b'a' ∷ b':' ∷ b'1' ∷ []

abbrev dialing_table : SessionTable
dialing_table = (admit_upstream new_session_table 7 site (1 ∷ [])).0

abbrev ready_table : SessionTable
ready_table = (complete_dial dialing_table 7 0 20).0

dialing_table-IsWf : IsWf dialing_table
dialing_table-IsWf = admit_upstream-IsWf new_session_table 7 site (1 ∷ []) new_session_table-IsWf

no_server : dialing_table.by_server 20 ≡ none
unfolding admit_upstream admit_found new_session_table
no_server = refl

no_conn : (dialing_table.heap 0).server_conn ≡ none
unfolding admit_upstream admit_found new_session_table
no_conn = refl

ready_table-IsWf : IsWf ready_table
ready_table-IsWf = complete_dial-IsWf dialing_table 7 0 20 dialing_table-IsWf no_server no_conn

routed : get_by_server ready_table 20 ≡ some 7
unfolding get_by_server complete_dial admit_upstream admit_found new_session_table
routed = refl

replayed : (complete_dial dialing_table 7 0 20).1 ≡ some ((1 ∷ []) ∷ [])
unfolding complete_dial admit_upstream admit_found new_session_table
replayed = refl

stale_result : (complete_dial dialing_table 7 1 20).1 ≡ none
unfolding complete_dial admit_upstream admit_found new_session_table
stale_result = refl

-- A parser that sends every connection to a:1.
abbrev setup : Setup ℕ
setup = record {
  gnet = plain_gnet;
  parser = record {
    parse = λ p conn buf. record {
      state = suc p;
      buffer = buf;
      written = [];
      result = some (record {
        status = parse_done;
        destination = site;
        per_request = false;
        payload_len = 0;
        payload = none;
      });
    };
    clear = none;
    encode_payload = none;
  };
  proto = forward_packet new_forward;
  server_addr = site;
}

setup-IsConsuming : IsConsuming setup
setup-IsConsuming = record {
  gnet_laws = plain_gnet-IsGnet;
  shrinks = λ p conn buf. omega arith;
  decodes = λ p conn buf r e has. absurd (ground (arith, e, has));
}

site-IsTarget : IsTarget site
unfolding set_destination split_host_port last_index_byte contains_byte index_byte parse_uint16
    parse_digits
site-IsTarget = (
  omega arith,
  record {
    addr_pos = omega arith;
    addr_le = omega arith;
    port_pos = omega arith;
    port_lt = omega arith;
    payload_le = omega arith;
  },
)

abbrev dialing_client : Forwarder ℕ
dialing_client = record { parser_state = 0; sessions = dialing_table }

abbrev empty_client : Forwarder ℕ
empty_client = record { parser_state = 0; sessions = new_session_table }

abbrev ready_client : Forwarder ℕ
ready_client = record { parser_state = 0; sessions = ready_table }

dialing_client-Holds : Holds dialing_table 7 0 (waiting site ((1 ∷ []) ∷ []))
unfolding admit_upstream admit_found new_session_table
dialing_client-Holds = record { mapped = refl; content = refl }

ready_client-Holds : Holds ready_table 7 0 (ready site 20)
unfolding complete_dial admit_upstream admit_found new_session_table
ready_client-Holds = record { mapped = refl; content = refl }

upload_in_order_example : (on_traffic setup dialing_client 7 (5 ∷ 6 ∷ [])).effects ≡ []
upload_in_order_example =
    (upload_in_order setup new_forward site dialing_client 7 0 20 ((1 ∷ []) ∷ []) (5 ∷ 6 ∷ [])
      (8 ∷ []) plain_gnet-IsGnet refl site-IsTarget dialing_client-Holds).0

on_traffic-parse_available_example :
    (cs : List (List ℕ)) × (join cs ≡ 5 ∷ 6 ∷ [])
    × (on_traffic setup ready_client 7 (5 ∷ 6 ∷ [])
        ≡ turn ready_client [] (replay 20 (frames_for site cs)) no_action)
    × (parse_available {T = DialToken} 3 frames (join (frames_for site cs))
        ≡ (received (data_msg 3 (as_packets (seal_all site cs))), []))
on_traffic-parse_available_example =
    on_traffic-parse_available setup new_forward site ready_client 7 0 20 3 (5 ∷ 6 ∷ [])
      plain_gnet-IsGnet refl site-IsTarget ready_client-Holds

Run-IsWf_example :
    IsWf (on_close setup (on_traffic setup empty_client 7 (5 ∷ [])).state 7).0.sessions
Run-IsWf_example = Run-IsWf setup 0 _ (follows (follows starts (traffic 7 (5 ∷ []))) (closed 7))

handle_server_msg-Written_example :
    let pkts = forward_packet (record { addr = b'a' ∷ []; port = 1; payload = 9 ∷ [] }) ∷ [] in
    let r = handle_server_msg setup ready_client 20 pkts in
    (r.0.sessions ≡ ready_table) × Written setup 7 0 pkts (r.0.parser_state, r.1)
handle_server_msg-Written_example =
    handle_server_msg-Written setup ready_client 20 7
      (forward_packet (record { addr = b'a' ∷ []; port = 1; payload = 9 ∷ [] }) ∷ []) routed

new_client_table-IsRouted_example : IsWf ready_table × IsRouted ready_table
new_client_table-IsRouted_example =
    new_client_table-IsRouted
      (next (next here (admits 7 site (1 ∷ []))) (completes 7 0 20 no_server no_conn))
