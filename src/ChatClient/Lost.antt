-- ===== src/ChatClient/Lost.antt =====
-- A chat client that does not reach the server, or cannot join its group.
use ds_project.Base.{
  ◌≡◌, ◌<◌, refl, true, false, List, ◌∷◌, some, none, ok, err, out_of_range, ℤ, pos,
  is_valid_socket, error_return, ltb_ℤ, ◌==ℤ◌, length,
}
use ds_project.Text.{Bytes, print_int}
use ds_project.Frame.{buffer_size, overlay, filled_with_x}
use ds_project.Peers.{ServerInfo}
use ds_project.SocketChanges.Understood.{IsAddress}
use ds_project.ChatClient.{
  Call, Host, Chat, opened, bound, member, connecting, sent, closed, ◌>>=◌, ◌>>◌,
}
use ds_project.ChatClient.Sockets.{fails, connect_toserver, join_multicast}
use ds_project.ChatClient.Start.{gave_up, index_request, join_group, ask_index, call_server}
use ds_project.ChatClient.Calls.{fill_buffer_fits}
use ds_project.ChatClient.Started.{copied_fits}
use ds_project.ChatClient.Texts.{service_read, service_values-scan}

module _ (host : Host) (t : List Call) where
  -- The three ways in which a server is not reached, with the calls that were made.
  pub data Unreached (address port : Bytes) (after : List Call) : Type 0 where
    not_resolved :
        fails (host.getaddrinfo t (some address) port) ≡ true
        → after ≡ t
        → Unreached address port after
    no_socket :
        fails (host.getaddrinfo t (some address) port) ≡ false
        → is_valid_socket (host.socket t) ≡ false
        → after ≡ opened (host.socket t) ∷ t
        → Unreached address port after
    not_connected :
        fails (host.getaddrinfo t (some address) port) ≡ false
        → is_valid_socket (host.socket t) ≡ true
        → fails (host.connect (opened (host.socket t) ∷ t) (host.socket t) address port) ≡ true
        → after ≡ connecting (host.socket t) address port ∷ opened (host.socket t) ∷ t
        → Unreached address port after

  -- The four ways in which a group is not joined.
  pub data Unjoined (ip port : Bytes) : Type 0 where
    not_resolved : fails (host.getaddrinfo t none port) ≡ true → Unjoined ip port
    no_socket :
        fails (host.getaddrinfo t none port) ≡ false
        → is_valid_socket (host.socket t) ≡ false
        → Unjoined ip port
    not_bound :
        fails (host.getaddrinfo t none port) ≡ false
        → is_valid_socket (host.socket t) ≡ true
        → (host.bind (opened (host.socket t) ∷ t) (host.socket t) ==ℤ error_return) ≡ true
        → Unjoined ip port
    not_admitted :
        fails (host.getaddrinfo t none port) ≡ false
        → is_valid_socket (host.socket t) ≡ true
        → (host.bind (opened (host.socket t) ∷ t) (host.socket t) ==ℤ error_return) ≡ false
        → ltb_ℤ
            (host.setsockopt
              (bound (host.socket t) none port ∷ opened (host.socket t) ∷ t)
              (host.socket t)
              ip)
            (pos 0)
          ≡ true
        → Unjoined ip port

connect_toserver-lost :
    (host : Host) (s : Chat) (address port : Bytes) (after : List Call)
    → Unreached host s.trace address port after
    → connect_toserver host address port s ≡ ok (pos 0, record s { trace = after })
unfolding connect_toserver
connect_toserver-lost host s address port after (not_resolved r e) = rw (r, e) refl
connect_toserver-lost host s address port after (no_socket r o e) = rw (r, o, e) refl
connect_toserver-lost host s address port after (not_connected r o c e) = rw (r, o, c, e) refl

join_multicast-lost :
    (host : Host) (s : Chat) (ip port : Bytes)
    → Unjoined host s.trace ip port
    → (after : List Call) × (join_multicast host ip port s
        ≡ ok (error_return, record s { trace = after }))
unfolding join_multicast
join_multicast-lost host s ip port (not_resolved r) = (s.trace, rw r refl)
join_multicast-lost host s ip port (no_socket r o) =
    (opened (host.socket s.trace) ∷ s.trace, rw (r, o) refl)
join_multicast-lost host s ip port (not_bound r o b) = (
  bound (host.socket s.trace) none port ∷ opened (host.socket s.trace) ∷ s.trace,
  rw (r, o, b) refl,
)
join_multicast-lost host s ip port (not_admitted r o b a) = (
  member (host.socket s.trace) ip
      ∷ bound (host.socket s.trace) none port
      ∷ opened (host.socket s.trace)
      ∷ s.trace,
  rw (r, o, b, a) refl,
)

ask_index-input :
    (host : Host) (s : Chat)
    → length (index_request s.client.self_id) < buffer_size
    → ltb_ℤ
        (host.send s.trace (pos 0) (overlay (index_request s.client.self_id) filled_with_x))
        (pos 1)
      ≡ true
    → ask_index host (pos 0) s
      ≡ ok (
        gave_up 0,
        record s {
          client = record s.client {
            buffer = overlay (index_request s.client.self_id) filled_with_x;
          };
          master = pos 0 ∷ s.master;
          trace =
              closed (pos 0)
              ∷ sent (pos 0) (overlay (index_request s.client.self_id) filled_with_x)
              ∷ s.trace;
        },
      )
unfolding ask_index
ask_index-input host s fits unsent =
    rw
      (
        ask_index,
        ◌>>◌,
        ◌>>=◌,
        fill_buffer_fits s.client (index_request s.client.self_id) fits,
        unsent,
      )
      refl

-- A server that is not reached, because its address does not resolve or the socket or the connection
-- fails, is taken for the descriptor 0, which is the client's input: the request goes there, and if
-- nothing can be sent on it, the client closes its input and ends with exit code 0 and no error of the
-- connection. The address has 1 to 15 bytes without a colon, the port at most 5, and the request
-- fits the buffer.
pub call_server-lost :
    (host : Host) (s : Chat) (id : ℤ) (head : ServerInfo) (after : List Call)
    → IsAddress head.addr
    → length (print_int head.port) < 6
    → length (index_request id) < buffer_size
    → Unreached host s.trace head.addr (print_int head.port) after
    → ltb_ℤ (host.send after (pos 0) (overlay (index_request id) filled_with_x)) (pos 1) ≡ true
    → call_server host (service_read id head) s
      ≡ ok (
        gave_up 0,
        record s {
          client = record s.client {
            self_id = id;
            buffer = overlay (index_request id) filled_with_x;
          };
          master = pos 0 ∷ s.master;
          trace = closed (pos 0) ∷ sent (pos 0) (overlay (index_request id) filled_with_x) ∷ after;
        },
      )
unfolding call_server
call_server-lost host s id head after addressed port_fits fits lost unsent =
    rw
      (
        call_server,
        ◌>>◌,
        ◌>>=◌,
        service_values-scan id head addressed,
        copied_fits 6 (print_int head.port) port_fits,
        connect_toserver-lost host (record s { client = record s.client { self_id = id } })
            head.addr (print_int head.port) after lost,
      )
      (ask_index-input host (record s { client = record s.client { self_id = id }; trace = after })
        fits unsent)

-- A group that cannot be joined, because its port does not resolve, or the socket, its binding or the
-- membership fails, is no error that the client reports: it puts the descriptor -1 into the set
-- before it tests it. The port has at most 5 bytes.
join_group-lost :
    (host : Host) (s : Chat) (socket_peer index port : ℤ) (ip : Bytes)
    → length (print_int port) < 6
    → Unjoined host s.trace ip (print_int port)
    → join_group host socket_peer ip port index s ≡ err out_of_range
unfolding join_group
join_group-lost host s socket_peer index port ip fits lost =
    let (after, went) =
      join_multicast-lost host
        (record s {
          client = record s.client { clk_index = index };
          group_ip = ip;
          group_port = print_int port;
        })
        ip (print_int port) lost in
    rw (join_group, ◌>>◌, ◌>>=◌, copied_fits 6 (print_int port) fits, went) refl
