-- ===== src/ChatClient/Called.antt =====
-- A chat client that was told of a server is given a place in the vector clocks by it
-- (chat-c/client/client_s.c).
use ds_project.Base.{
  ◌≡◌, ◌≢◌, ◌<◌, ◌≤◌, ◌∙◌, refl, ap, List, [], ◌∷◌, ◌++◌, append_assoc, some, ok, ℤ, pos, length,
  arith, take_all,
}
use ds_project.Text.{Bytes, print_int, print}
use ds_project.Frame.{buffer_size, overlay, filled_with_x, filled_with_zero, receive}
use ds_project.Frame.RoundTrip.{end_mark, receive-overlay, length-overlay}
use ds_project.Peers.{ServerInfo}
use ds_project.Clients.{index_message, multicast_ip, random_port}
use ds_project.SocketChanges.Understood.{IsAddress}
use ds_project.ChatClient.{Call, Host, Chat, receiving, sent, ◌>>=◌, ◌>>◌, hear}
use ds_project.ChatClient.Start.{
  index_request, running, join_group, read_index, await_index, ask_index, call_server,
}
use ds_project.ChatClient.Calls.{
  Works, joining, reaching, join_multicast_lem, connect_toserver_lem, fill_buffer_fits,
}
use ds_project.ChatClient.Started.{copied_fits}
use ds_project.ChatClient.Texts.{
  service_read, index_read, service_values-scan, index_message_parts, index_read-IsText,
  index_values-scan,
}

-- An answer that is not empty.
await_some :
    (host : Host) (fd : ℤ) (payload : Bytes) (s : Chat)
    → payload ≢ []
    → await_index host fd (some payload) s ≡ (hear payload >> read_index host fd) s
unfolding await_index
await_some host fd [] s some_byte = absurd (some_byte refl)
await_some host fd (c ∷ payload) s some_byte = refl

module _ (host : Host) (s : Chat) (id : ℤ) (head : ServerInfo) where
  -- The sockets, and the calls from the leader's answer to the loop.
  abbrev pub server_socket : ℤ
  server_socket = host.socket s.trace

  abbrev pub requested : List Call
  requested =
      receiving server_socket
      ∷ sent server_socket (overlay (index_request id) filled_with_x)
      ∷ reaching host head.addr (print_int head.port) s.trace

  -- The client at its loop, in the place `index`; `v` is what came behind the answer.
  abbrev pub in_chat : ℤ → Bytes → Chat
  in_chat index v = record s {
    client = record s.client {
      self_id = id;
      clk_index = index;
      buffer = overlay (index_message index ++ v) filled_with_zero;
    };
    group_ip = multicast_ip;
    group_port = print_int random_port;
    master = pos 0 ∷ host.socket requested ∷ server_socket ∷ s.master;
    trace = joining host multicast_ip (print_int random_port) requested;
  }

module _ (host : Host) (works : Works host) (s : Chat) (id : ℤ) (head : ServerInfo) (index : ℤ)
    (v : Bytes) where
  abbrev socket_peer : ℤ
  socket_peer = server_socket host s id head

  abbrev socket_group : ℤ
  socket_group = host.socket (requested host s id head)

  abbrev heard_index : Chat
  heard_index = record s {
    client = record s.client {
      self_id = id;
      buffer = overlay (index_message index ++ v) filled_with_zero;
    };
    master = socket_peer ∷ s.master;
    trace = requested host s id head;
  }

  join_group_lem :
      join_group host socket_peer multicast_ip random_port index heard_index
      ≡ ok (running socket_group socket_peer, in_chat host s id head index v)
  unfolding join_group
  join_group_lem =
      rw
        (
          join_group,
          ◌>>◌,
          ◌>>=◌,
          copied_fits 6 (print_int random_port) (unfold print_int in omega arith),
          join_multicast_lem host works
              (record heard_index {
                client = record s.client {
                  self_id = id;
                  clk_index = index;
                  buffer = overlay (index_message index ++ v) filled_with_zero;
                };
                group_ip = multicast_ip;
                group_port = print_int random_port;
              })
              multicast_ip (print_int random_port),
          works.opens (requested host s id head),
        )
        (rw (works.opens (requested host s id head)) refl)

  read_index_lem :
      read_index host socket_peer heard_index
      ≡ ok (running socket_group socket_peer, in_chat host s id head index v)
  unfolding read_index
  read_index_lem =
      let parts : index_message index ++ v ≡ index_read index ++ (end_mark ++ v) =
        ap (λ x. x ++ v) (index_message_parts index) ∙ append_assoc (index_read index) end_mark v in
      let read : receive (overlay (index_message index ++ v) filled_with_zero)
          ≡ some (index_read index) =
        ap (λ x. receive (overlay x filled_with_zero)) parts
        ∙ receive-overlay (index_read index) v filled_with_zero (index_read-IsText index) in
      rw (read_index, read, index_values-scan index) join_group_lem

  -- The request has been sent.
  abbrev asked : Chat
  asked = record heard_index {
    client = record s.client { self_id = id; buffer = overlay (index_request id) filled_with_x };
  }

  await_index_lem :
      length (index_message index ++ v) ≤ buffer_size
      → await_index host socket_peer (some (index_message index ++ v)) asked
        ≡ ok (running socket_group socket_peer, in_chat host s id head index v)
  await_index_lem fits =
      await_some host socket_peer (index_message index ++ v) asked (λ e. index_some e)
      ∙ rw (take_all buffer_size (index_message index ++ v) fits) read_index_lem
    where
      index_some : index_message index ++ v ≢ []
      index_some e = unfold print in cc

  -- The server is reached.
  abbrev reached : Chat
  reached = record s {
    client = record s.client { self_id = id };
    trace = reaching host head.addr (print_int head.port) s.trace;
  }

  ask_index_lem :
      length (index_request id) < buffer_size
      → length (index_message index ++ v) ≤ buffer_size
      → host.recv
          (sent socket_peer (overlay (index_request id) filled_with_x) ∷ reached.trace)
          socket_peer
        ≡ some (index_message index ++ v)
      → ask_index host socket_peer reached
        ≡ ok (running socket_group socket_peer, in_chat host s id head index v)
  unfolding ask_index
  ask_index_lem request_fits fits heard =
      let text = overlay (index_request id) filled_with_x in
      let whole : length text ≡ buffer_size =
        length-overlay (index_request id) filled_with_x (omega (arith, request_fits)) in
      let sending : host.send reached.trace socket_peer text ≡ pos 256 =
        works.sends reached.trace socket_peer text ∙ ap pos whole in
      rw (ask_index, works.opens s.trace)
        (rw
          (
            ◌>>◌,
            ◌>>=◌,
            works.opens s.trace,
            fill_buffer_fits (record s.client { self_id = id }) (index_request id) request_fits,
            sending,
            heard,
          )
          (await_index_lem fits))

  pub call_server_lem :
      IsAddress head.addr
      → length (print_int head.port) < 6
      → length (index_request id) < buffer_size
      → length (index_message index ++ v) ≤ buffer_size
      → host.recv
          (sent socket_peer (overlay (index_request id) filled_with_x) ∷ reached.trace)
          socket_peer
        ≡ some (index_message index ++ v)
      → call_server host (service_read id head) s
        ≡ ok (running socket_group socket_peer, in_chat host s id head index v)
  unfolding call_server
  call_server_lem addressed port_fits request_fits fits heard =
      rw
        (
          call_server,
          ◌>>◌,
          ◌>>=◌,
          service_values-scan id head addressed,
          copied_fits 6 (print_int head.port) port_fits,
          connect_toserver_lem host works (record s { client = record s.client { self_id = id } })
              head.addr (print_int head.port),
        )
        (ask_index_lem request_fits fits heard)
