-- ===== src/ChatClient/Tests.antt =====
-- Runs of a chat client.
use ds_project.Base.{
  ◌+◌, ◌≡◌, ◌≤◌, refl, true, List, [], ◌∷◌, ◌++◌, Option, none, some, Result, ok, err, pos,
  error_return, arith, length, All, take,
}
use ds_project.ChatClient.Sockets.{
  join_multicast, group_multicast, get_tcp_socket, connect_toserver,
}
use ds_project.Text.{
  Bytes, codes, print_int, print, scan, scan_int, skip_space, scan_text, digits, scan_digits,
  scan_nat, span,
}
use ds_project.Frame.{
  buffer_size, overlay, filled_with_x, sprintf_into, pad_message, receive, c_string, clear_message,
}
use ds_project.Frame.RoundTrip.{IsPlain, is_plain-IsPlain, end_mark}
use ds_project.SocketChanges.{client, parse}
use ds_project.SocketChanges.Understood.{IsAddress, is_address-IsAddress, IsReadAs}
use ds_project.Server.Examples.{calm}
use ds_project.Server.Examples.{start as idle_server}
use ds_project.Peers.{ServerInfo}
use ds_project.GroupChat.{Client, fill_buffer, handle_user_input, send_unicast, unicast}
use ds_project.HoldBack.{max_group_size}
use ds_project.HoldBack.Causal.{Counts, IsCausal}
use ds_project.Clients.{index_message}
use ds_project.Joining.{client_text, new_client, peer_mcast_receive}
use ds_project.ChatClient.{Call, Host, Chat, accepting, sent, closed}
use ds_project.ChatClient.Start.{
  gave_up, running, start, call_server, join_group, index_request, get_service_info_mcast, announce,
  await_leader, ask_index, await_index, read_index, new_client_text,
}
use ds_project.ChatClient.Loop.{
  Round, globals, run, act, chat_loop, chat_round, finish, hear_group, hear_server, read_line,
}
use ds_project.ChatClient.Calls.{Works}
use ds_project.ChatClient.Started.{with_heard, announcing, answered}
use ds_project.ChatClient.Called.{requested, in_chat}
use ds_project.ChatClient.Joined.{start-joined}
use ds_project.ChatClient.Lost.{call_server-lost, Unreached}
use ds_project.ChatClient.Texts.{service_read, requests-understood, unicast_line}
use ds_project.ChatClient.Keeps.{run-IsCausal}

abbrev leader : ServerInfo
leader = record {
  id = pos 4;
  addr = codes "10.0.0.1";
  port = pos 9034;
  leader = pos 1;
  tcp_socket = pos 0;
  last_heartbeat = 0;
}

addressed : IsAddress leader.addr
addressed = is_address-IsAddress leader.addr refl

plain : All IsPlain leader.addr
plain = is_plain-IsPlain leader.addr refl

-- Descriptors are counted by the calls; the leader gives the ID 107, the server the index 2.
abbrev answer_of : List Call → Option Bytes
answer_of (accepting fd ∷ t) = some (client_text (pos 107) leader ++ codes "xx")
answer_of (sent fd bytes ∷ t) = some (index_message (pos 2) ++ codes "xx")
answer_of _ = none

abbrev host : Host
host = record {
  getaddrinfo = λ t node port. pos 0;
  socket = λ t. pos (3 + length t);
  bind = λ t fd. pos 0;
  setsockopt = λ t fd ip. pos 0;
  connect = λ t fd ip port. pos 0;
  listen = λ t fd. pos 0;
  accept = λ t fd. pos (3 + length t);
  recv = λ t fd. answer_of t;
  send = λ t fd bytes. pos (length bytes);
  sendto = λ t fd ip port bytes. pos (length bytes);
}

host-Works : Works host
host-Works = record {
  resolved = λ t node port. refl;
  opens = λ t. refl;
  binds = λ t fd. refl;
  admits = λ t fd ip. refl;
  connects = λ t fd ip port. refl;
  listens = λ t fd. refl;
  accepts = λ t fd. refl;
  sends = λ t fd bytes. refl;
}

abbrev told : Chat
told =
    with_heard (client_text (pos 107) leader ++ codes "xx")
      (answered host (codes "10.0.0.9") (codes "7000")
        (announcing host (codes "10.0.0.9") (codes "7000") []))
      globals

start-joined_example :
    start host (codes "10.0.0.9") (codes "7000") globals
    ≡ ok (
      running (host.socket (requested host told (pos 107) leader)) (host.socket told.trace),
      in_chat host told (pos 107) leader (pos 2) (codes "xx"),
    )
unfolding print print_int
start-joined_example =
    start-joined host host-Works globals (codes "10.0.0.9") (codes "7000") (pos 107) leader (pos 2)
      (codes "xx") (codes "xx") (omega arith) (omega arith) addressed plain (omega arith)
      (omega arith) (omega arith) (omega arith) refl refl

-- A host that resolves no name, and on which nothing can be sent.
abbrev cut_off : Host
cut_off = record host {
  getaddrinfo = λ t node port. error_return;
  send = λ t fd bytes. error_return;
}

call_server-lost_example :
    call_server cut_off (service_read (pos 107) leader) globals
    ≡ ok (
      gave_up 0,
      record globals {
        client = record globals.client {
          self_id = pos 107;
          buffer = overlay (index_request (pos 107)) filled_with_x;
        };
        master = pos 0 ∷ [];
        trace =
            closed (pos 0) ∷ sent (pos 0) (overlay (index_request (pos 107)) filled_with_x) ∷ [];
      },
    )
unfolding print print_int
call_server-lost_example =
    call_server-lost cut_off globals (pos 107) leader [] addressed (omega arith) (omega arith)
      (Unreached.not_resolved refl refl) refl

-- The client sends a line to client 9, and the server closes the connection.
abbrev typed : List Round
typed =
    record { selected = true; group = none; server = none; line = some (some (codes "9:hi\n")) }
    ∷ record { selected = true; group = none; server = some none; line = none }
    ∷ []

abbrev end_of : {A : Type 0} → Result (A × Chat) → Chat
end_of (ok r) = r.1
end_of (err e) = globals

run-typed :
    run host (codes "10.0.0.9") (codes "7000") typed globals
    ≡ ok (some 0, end_of (run host (codes "10.0.0.9") (codes "7000") typed globals))
unfolding print print_int scan scan_int skip_space scan_text digits scan_digits scan_nat span start
    get_service_info_mcast announce await_leader call_server ask_index await_index join_group
    read_index join_multicast group_multicast get_tcp_socket connect_toserver run act chat_loop
    chat_round finish hear_group hear_server read_line fill_buffer handle_user_input send_unicast
    sprintf_into pad_message receive c_string clear_message overlay
run-typed = refl

run-IsCausal_example :
    (let t = end_of (run host (codes "10.0.0.9") (codes "7000") typed globals) in
      (t.client.mode ≤ 1)
      × (length t.client.delivery.delivered ≡ max_group_size)
      × Counts t.client.delivery.delivered t.client.delivery.log
      × IsCausal t.client.delivery.log)
run-IsCausal_example =
    run-IsCausal host (codes "10.0.0.9") (codes "7000") typed (some 0) _ run-typed

requests-understood_example :
    ((read : Bytes) × (new_client_text (print_int (pos 7000)) ≡ read ++ end_mark)
      × (peer_mcast_receive calm read (codes "10.0.0.9") idle_server
          ≡ new_client calm (pos 7000) (codes "10.0.0.9") idle_server))
    × IsReadAs (index_request (pos 0)) true (client (pos 0) (pos 0) (codes "GET_INDEX"))
    × ((payload read : Bytes) × (d : Client) × (send_unicast globals.client
            (unicast_line (pos 9) (codes "hi"))
          ≡ ok (unicast payload, d))
        × (receive (overlay (take buffer_size payload) []) ≡ some read)
        × (parse true read ≡ client (pos 0) (pos 9) (codes "hi")))
unfolding print print_int
requests-understood_example =
    requests-understood calm idle_server (pos 7000) (codes "10.0.0.9") true globals.client (pos 9)
      (codes "hi") [] (λ e. cc) (is_plain-IsPlain (codes "hi") refl) (omega arith)
