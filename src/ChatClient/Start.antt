-- ===== src/ChatClient/Start.antt =====
-- The client up to its loop: `get_service_info_mcast` of chat-c/client/service_infom.c, and the first
-- half of `main` of chat-c/client/client_s.c.
use ds_project.Base.{
  ℕ, List, [], ◌∷◌, ◌++◌, Option, none, some, Result, ok, err, out_of_range, error_return, ℤ, pos,
  ltb_ℤ, ◌==ℤ◌, is_valid_socket, not, ltb, if◌then◌else◌, length,
}
use ds_project.Text.{
  Bytes, codes, Directive, int, word, upto, lits, Value, num, txt, scan, print, print_int,
}
use ds_project.Frame.{c_string, receive}
use ds_project.GroupChat.{fill_buffer}
use ds_project.ChatClient.{Host, M, ◌>>=◌, ◌>>◌, return, lift, change_client, watch, hear}
use ds_project.ChatClient.Sockets.{
  close_fd, send_fd, accept_on, receive_on, group_multicast, join_multicast, connect_toserver,
  get_tcp_socket,
}

-- `SERVICE_MULTICAST_IP` and `SERVICE_MULTICAST_PORT`.
abbrev pub service_multicast_ip : Bytes
service_multicast_ip = codes "239.255.255.250"

abbrev pub service_multicast_port : Bytes
service_multicast_port = codes "12345"

-- A text that is put into an array of `size` bytes, with its terminator.
abbrev pub copied : ℕ → Bytes → Result Bytes
copied size text = if ltb (length text) size then ok text else err out_of_range

-- The text by which a client asks for a server, and the request for its place in the vector clocks.
abbrev pub new_client_text : Bytes → Bytes
new_client_text port = print (lits "NEW_CLIENT:" ++ (word 5 ∷ lits "\n\n")) (txt port ∷ [])

abbrev pub index_request : ℤ → Bytes
index_request self_id =
    print (lits "CLIENT:" ++ (int ∷ (lits ":" ++ (int ∷ lits ":GET_INDEX\n\n"))))
      (num self_id ∷ num (pos 0) ∷ [])

abbrev pub service_format : List Directive
service_format =
    lits "LEADER:YOUR_ID:"
    ++ (int ∷ (lits ":SERVER_IP:" ++ (upto 15 b':' ∷ (lits ":SERVER_PORT:" ++ (int ∷ [])))))

abbrev pub service_values : List Value → Option (ℤ × Bytes × ℤ)
service_values (num id ∷ txt ip ∷ num port ∷ []) = some (id, ip, port)
service_values _ = none

abbrev pub index_format : List Directive
index_format =
    lits "GROUP_IP:"
    ++ (upto 15 b':' ∷ (lits ":GROUP_PORT:" ++ (int ∷ (lits ":INDEX:" ++ (int ∷ [])))))

abbrev pub index_values : List Value → Option (Bytes × ℤ × ℤ)
index_values (txt ip ∷ num port ∷ num index ∷ []) = some (ip, port, index)
index_values _ = none

-- `sprintf` of a port into an array of 6 bytes.
abbrev pub port_text : ℤ → Result Bytes
port_text port = copied 6 (print_int port)

-- A message is printed and padded into `Buffer`.
abbrev pub put_message : Bytes → M (Unit {0})
put_message text s = (lift (fill_buffer s.client text) >>= λ c. change_client (λ _. c)) s

-- How `main` comes to its loop: not at all, with an exit code, or with the sockets of the group and
-- of the server.
pub data Outset : Type 0 where
  gave_up : ℕ → Outset
  running : (group_socket socket_peer : ℤ) → Outset

module _ (host : Host) where
  -- The text is sent to the group, which the client leaves.
  unfoldable pub announce : ℤ → Bytes → Bytes → Bytes → M (Unit {0})
  announce socket_listen mcast_ip mcast_port local_port =
      put_message (new_client_text local_port)
      >> (λ s. group_multicast host socket_listen mcast_ip mcast_port (c_string s.client.buffer) s)
      >> close_fd host socket_listen

  -- The text that the leader sends on the connection that it opens.
  unfoldable pub await_leader : ℤ → M (Option Bytes)
  await_leader tcp_socket = accept_on host tcp_socket >>= λ new_socket.
      if new_socket ==ℤ error_return
      then return none
      else (receive_on host new_socket >>= λ received. elim received [
        | none ↦ return none
        | some payload ↦ hear payload >> (λ s. elim (receive s.client.buffer) [
          | none ↦ return none s
          | some clean_message ↦
              (close_fd host new_socket >> close_fd host tcp_socket >> return (some clean_message))
                s
        ])
      ])

  -- `none` where the source returns NULL.
  unfoldable pub get_service_info_mcast : Bytes → Bytes → Bytes → Bytes → M (Option Bytes)
  get_service_info_mcast ip port device_ip device_port = lift (copied 16 ip) >>= λ mcast_ip.
      lift (copied 6 port) >>= λ mcast_port. lift (copied 16 device_ip) >>= λ local_ip.
      lift (copied 6 device_port) >>= λ local_port.
      join_multicast host mcast_ip mcast_port >>= λ socket_listen.
      if not (is_valid_socket socket_listen)
      then return none
      else (announce socket_listen mcast_ip mcast_port local_port
          >> (get_tcp_socket host local_ip local_port >>= λ tcp_socket.
              if not (is_valid_socket tcp_socket) then return none else await_leader tcp_socket))

  -- The group that the server named is joined. Its socket is put into the set before it is tested.
  unfoldable pub join_group : ℤ → Bytes → ℤ → ℤ → M Outset
  join_group socket_peer ip port index =
      change_client (λ c. record c { clk_index = index })
      >> (lift (port_text port) >>= λ group_port.
          (λ s. ok (tt, record s { group_ip = ip; group_port = group_port }))
          >> (join_multicast host ip group_port >>= λ group_socket.
              watch group_socket
              >> (if not (is_valid_socket group_socket)
                  then close_fd host socket_peer >> return (gave_up 0)
                  else (watch (pos 0) >> return (running group_socket socket_peer)))))

  -- The text that was received is taken apart.
  unfoldable pub read_index : ℤ → M Outset
  read_index socket_peer s = elim (receive s.client.buffer) [
    | none ↦ return (gave_up 0) s
    | some message ↦ elim (index_values (scan index_format message)) [
      | none ↦ (close_fd host socket_peer >> return (gave_up 0)) s
      | some v ↦ join_group socket_peer v.0 v.1 v.2 s
    ]
  ]

  -- The answer to the request.
  unfoldable pub await_index : ℤ → Option Bytes → M Outset
  await_index socket_peer none = close_fd host socket_peer >> return (gave_up 0)
  await_index socket_peer (some []) = close_fd host socket_peer >> return (gave_up 0)
  await_index socket_peer (some (c ∷ payload)) = hear (c ∷ payload) >> read_index socket_peer

  -- `send` gets the 256 bytes of the buffer.
  unfoldable pub ask_index : ℤ → M Outset
  ask_index socket_peer =
      if not (is_valid_socket socket_peer)
      then return (gave_up 1)
      else (watch socket_peer
          >> (λ s. put_message (index_request s.client.self_id) s)
          >> ((λ s. send_fd host socket_peer s.client.buffer s) >>= λ sent.
              if ltb_ℤ sent (pos 1)
              then close_fd host socket_peer >> return (gave_up 0)
              else (receive_on host socket_peer >>= await_index socket_peer)))

  unfoldable pub call_server : Bytes → M Outset
  call_server service_info = elim (service_values (scan service_format service_info)) [
    | none ↦ return (gave_up 0)
    | some v ↦
        change_client (λ c. record c { self_id = v.0 })
        >> (lift (port_text v.2) >>= λ port. connect_toserver host v.1 port >>= ask_index)
  ]

  -- `ip` and `port` are the arguments of the program.
  unfoldable pub start : Bytes → Bytes → M Outset
  start ip port =
      get_service_info_mcast service_multicast_ip service_multicast_port ip port >>= λ info.
      elim info [ none ↦ return (gave_up 0) | some service_info ↦ call_server service_info ]
