-- ===== src/Server/Runs.antt =====
-- Concrete runs of server/session.go and server/handler.go, and the theorems at concrete inputs.
use gforward.Prelude.{ℕ, ◌≡◌, ◌≢◌, refl, none, some, inl, List, [], ◌∷◌, str_eq}
use gforward.Protocol.{
  InternalPacket, forward as forward_packet, packet_destination, get_destination,
}
use gforward.Protocol.HostPort.{join_host_port, contains_byte}
use gforward.Protocol.Decimal.{itoa, format_digits}
use gforward.Server.Session.{
  SessionTable, new_session_table, admit_upstream, admit_found, open_session, use_session,
  drop_session, bind_dial, complete_dial, forward, dial,
}
use gforward.Server.Session.Invariant.{IsWf, new_session_table-IsWf, admit_upstream-IsWf}
use gforward.Server.Session.Dialing.{bind_dial-IsWf, complete_dial-IsWf}
use gforward.Server.Session.Reachable.{here, next, admits, binds, completes}
use gforward.Server.Session.Contract.{IsRouted, new_session_table-IsRouted}
use gforward.Server.Handler.{dials, forward_all, DialResult, handle_client_msg, forward_upstream}
use gforward.Message.{data_msg}
use gforward.Server.Handler.Serving.{IsServed}
use gforward.Server.Handler.Workers.{
  Worker, client_round, result_round, starts, follows, client_msg, comes, dial_result, Run-IsServed,
}
use gforward.Server.Handler.Delivery.{upstream_in_order}

-- Client 7 has sent one payload, connection 20 was opened for it, and the dial has ended.
abbrev dialing_table : SessionTable
dialing_table = (admit_upstream new_session_table 7 (b'a' ∷ []) (1 ∷ [])).0

abbrev bound_table : SessionTable
bound_table = (bind_dial dialing_table 7 0 20).0

abbrev ready_table : SessionTable
ready_table = (complete_dial bound_table 7 0).0

dialing_table-IsWf : IsWf dialing_table
dialing_table-IsWf =
    admit_upstream-IsWf new_session_table 7 (b'a' ∷ []) (1 ∷ []) new_session_table-IsWf

no_dest : dialing_table.by_dest 20 ≡ none
unfolding admit_upstream admit_found open_session new_session_table
no_dest = refl

no_conn : (dialing_table.heap 0).dest_conn ≡ none
unfolding admit_upstream admit_found open_session new_session_table
no_conn = refl

bound_table-IsWf : IsWf bound_table
bound_table-IsWf = bind_dial-IsWf dialing_table 7 0 20 dialing_table-IsWf no_dest no_conn

has_conn : (bound_table.heap 0).dest_conn ≢ none
unfolding bind_dial admit_upstream admit_found open_session new_session_table
has_conn e = cc

ready_table-IsWf : IsWf ready_table
ready_table-IsWf = complete_dial-IsWf bound_table 7 0 bound_table-IsWf has_conn

switches_target :
    (admit_upstream ready_table 7 (b'b' ∷ []) (2 ∷ [])).1 ≡ dial (some 20) 1 (b'b' ∷ [])
unfolding complete_dial bind_dial admit_upstream admit_found open_session drop_session
    new_session_table str_eq
switches_target = refl

forwards_at_once :
    (admit_upstream ready_table 7 (b'a' ∷ []) (2 ∷ [])).1 ≡ forward (some 20) (2 ∷ [])
unfolding complete_dial bind_dial admit_upstream admit_found open_session use_session
    new_session_table str_eq
forwards_at_once = refl

-- A packet for a:1 with one byte of payload.
abbrev note : ℕ → InternalPacket
note k = forward_packet (record { addr = b'a' ∷ []; port = 1; payload = k ∷ [] })

abbrev note_dest : List ℕ
note_dest = b'a' ∷ b':' ∷ b'1' ∷ []

upstream_in_order_example :
    (forward_all new_session_table 7 (note 1 ∷ [])).1
    ≡ dials note_dest (record { client_conn = 7; session = 0 }) ∷ []
unfolding packet_destination get_destination join_host_port contains_byte itoa format_digits
    new_session_table
upstream_in_order_example =
    (upstream_in_order new_session_table 7 note_dest 20 (note 1) [] (note 2 ∷ []) (note 3 ∷ []) refl
      refl tt (refl, tt) (refl, tt)).0

new_session_table-IsRouted_example : IsWf ready_table × IsRouted ready_table
new_session_table-IsRouted_example = new_session_table-IsRouted (
    next (next (next here (admits 7 (b'a' ∷ []) (1 ∷ []))) (binds 7 0 20 no_dest no_conn))
      (completes 7 0 has_conn))

-- A worker to which client 7 has sent one packet.
abbrev busy_worker : Worker
busy_worker = record {
  table = new_session_table;
  channel = data_msg 7 (note 1 ∷ []) ∷ [];
  dial_results = [];
  recv_chan = [];
}

abbrev served : Worker
served = client_round busy_worker (data_msg 7 (note 1 ∷ [])) []

-- A success of a dial that client 7 does not wait for.
abbrev stale_result : DialResult
stale_result = record { conn = 30; err = none; token = record { client_conn = 7; session = 9 } }

abbrev answered : Worker
answered =
    result_round (record served { channel = []; recv_chan = []; dial_results = stale_result ∷ [] })
      stale_result []

is_stale : served.table.by_client 7 ≢ some 9
unfolding client_round handle_client_msg forward_all forward_upstream admit_upstream admit_found
    open_session new_session_table
is_stale e = cc

Run-IsServed_example : IsWf answered.table × IsServed answered.table
Run-IsServed_example =
    Run-IsServed
      (follows
        (follows (follows starts (client_msg (data_msg 7 (note 1 ∷ [])) [] refl))
          (comes [] [] (stale_result ∷ [])))
        (dial_result stale_result [] refl (inl is_stale)))
      refl
