-- ===== src/Joining.antt =====
-- chat-c/multicast.c at the leader and at the other servers: what a datagram to the multicast group
-- does. A server that joins, or that looks for its new leader, is put on the ring and told its
-- successor, and its predecessor is told of it; a client is told its ID and where to connect.
pub mod Places
pub mod Steps
pub mod Ring
pub mod OwnId
pub mod Keeps
mod Tests
use ds_project.Base.{
  ℕ, zero, suc, ◌-◌, Bool, List, [], ◌∷◌, ◌++◌, Option, none, some, err, null_pointer, out_of_range,
  error_return, ℤ, pos, negsuc, ◌==ℤ◌, is_valid_socket, not, if◌then◌else◌, get_elem?, set, take,
  length,
}
use ds_project.Text.{Bytes, codes, int, word, lits, Value, num, txt, scan, print}
use ds_project.Frame.{buffer_size, filled_with_zero, overlay, receive}
use ds_project.Peers.{
  ServerInfo, append_server_sorted, get_successor, get_predecessor, get_last_server,
}
use ds_project.Election.{alone}
use ds_project.Disconnection.{update_text}
use ds_project.Server.{
  Env, M, ◌>>=◌, ◌>>◌, return, lift, get_state, peer, update_peer, set_peers, pad_buffer,
  send_buffer, close_socket, time_now, connect_to, random_id,
}

-- The answer to a server that joins: the leader's ID, and address, port and ID of the successor.
abbrev pub welcome_text : ℤ → Bytes → ℤ → ℤ → Bytes
welcome_text leader_id addr port id =
    print
      (int
        ∷ (lits ":"
            ++ (word buffer_size ∷ (lits ":" ++ (int ∷ (lits ":" ++ (int ∷ lits "\n\n")))))))
      (num leader_id ∷ txt addr ∷ num port ∷ num id ∷ [])

-- What a new leader tells a server: itself, and a successor.
abbrev pub know_text : ServerInfo → ℤ → Bytes → ℤ → Bytes
know_text head id addr port =
    print
      (lits "KNOW_NEW_LEADER:"
        ++ (int
            ∷ (lits ":"
                ++ (word buffer_size
                    ∷ (lits ":"
                        ++ (int
                            ∷ (lits ":"
                                ++ (int
                                    ∷ (lits ":"
                                        ++ (word buffer_size
                                            ∷ (lits ":" ++ (int ∷ lits "\n\n"))))))))))))
      (num head.id ∷ txt head.addr ∷ num head.port ∷ num id ∷ txt addr ∷ num port ∷ [])

abbrev pub client_text : ℤ → ServerInfo → Bytes
client_text client_id head =
    print
      (lits "LEADER:YOUR_ID:"
        ++ (int
            ∷ (lits ":SERVER_IP:"
                ++ (word buffer_size ∷ (lits ":SERVER_PORT:" ++ (int ∷ lits "\n\n"))))))
      (num client_id ∷ txt head.addr ∷ num head.port ∷ [])

-- Of `new_server`: for the only server, `'0'` is printed as a number, and the last field is `leader`.
abbrev pub first_welcome : ServerInfo → Bytes
first_welcome head = welcome_text head.id (codes "0.0.0.0") (pos b'0') head.leader

abbrev pub welcome : ServerInfo → ServerInfo → Bytes
welcome head successor = welcome_text head.id successor.addr successor.port successor.id

-- Of `ring_reconstruction`.
abbrev pub first_know : ServerInfo → Bytes
first_know head = know_text head (pos 0) (codes "0.0.0.0") (pos 0)

abbrev pub know : ServerInfo → ServerInfo → Bytes
know head successor = know_text head successor.id successor.addr successor.port

-- The two numbers, and the one number, that a format stored.
abbrev pub two_numbers : List Value → Option (ℤ × ℤ)
two_numbers (num a ∷ num b ∷ []) = some (a, b)
two_numbers _ = none

abbrev pub one_number : List Value → Option ℤ
one_number (num a ∷ []) = some a
one_number _ = none

-- The node that a pointer names.
abbrev pub node_at : Option ℕ → M ServerInfo
node_at none s = err null_pointer
node_at (some at) s = peer at s

-- `if (connected_peers == predecessor) predecessor = get_last_server(connected_peers);`
pub ring_predecessor : ℤ → M ServerInfo
ring_predecessor id s =
    (lift (get_predecessor id s.connected_peers) >>= λ found. elim found [
      | some zero ↦ lift (get_last_server s.connected_peers) >>= peer
      | some (suc k) ↦ peer (suc k)
      | none ↦ node_at none
    ])
      s

module _ (env : Env) where
  abbrev pub add_sorted : ℤ → Bytes → ℤ → ℤ → M (Unit {0})
  add_sorted id addr port fd s =
      (lift (
            append_server_sorted (env.malloc s.trace) (env.time s.trace) s.connected_peers id addr
              port (pos 0) fd)
          >>= set_peers)
        s

  -- The buffer goes to a socket; what follows is left out if that fails, with `error_return`.
  abbrev pub send_or_fail : Bytes → ℤ → M ℤ → M ℤ
  send_or_fail text fd next =
      pad_buffer text
      >> (send_buffer env fd >>= λ sent. if sent ==ℤ negsuc 0 then return error_return else next)

  -- The message to the server that joins, once it is in the list.
  abbrev pub answer : Bool → (ServerInfo → Bytes) → (ServerInfo → ServerInfo → Bytes) → ℤ → M Bytes
  answer first single ring id s =
      (peer 0 >>= λ head.
      if first
      then return (single head)
      else (lift (get_successor id s.connected_peers) >>= node_at >>= λ successor.
          return (ring head successor)))
        s

  -- The message to its predecessor, if there is another peer.
  pub inform : (ServerInfo → Bytes) → ℤ → ℤ → M ℤ
  unfolding ring_predecessor
  inform update id fd s =
      (peer 0 >>= λ head. peer 1 >>= λ first. elim (get_elem? s.connected_peers 2) [
        | none ↦ return fd
        | some second ↦ ring_predecessor id >>= λ predecessor.
            send_or_fail (update head) predecessor.tcp_socket (return fd)
      ])
        s

  -- The connection, the place on the ring and the answer, with what follows once that is sent.
  abbrev pub answer_joining :
      (single : ServerInfo → Bytes) (ring : ServerInfo → ServerInfo → Bytes)
      → ℤ
      → ℤ
      → Bytes
      → (next : ℤ → M ℤ) → M ℤ
  answer_joining single ring id port addr next = get_state >>= λ s.
      connect_to env addr port >>= λ fd.
      if not (is_valid_socket fd)
      then return error_return
      else (add_sorted id addr port fd
          >> (answer (alone s) single ring id >>= λ text. send_or_fail text fd (next fd)))

  -- The common course of `new_server` and `ring_reconstruction`, which differ in their messages only:
  -- the answer is followed by the message to the predecessor.
  pub join :
      (single : ServerInfo → Bytes) (ring : ServerInfo → ServerInfo → Bytes)
      (update : ServerInfo → Bytes)
      → ℤ
      → ℤ
      → Bytes
      → M ℤ
  unfolding inform
  join single ring update id port addr =
      answer_joining single ring id port addr (λ fd. inform update id fd)

  pub new_server : ℤ → ℤ → Bytes → M ℤ
  unfolding join
  new_server id port addr =
      join first_welcome welcome (λ head. update_text addr id port) id port addr

  pub ring_reconstruction : ℤ → ℤ → Bytes → M ℤ
  unfolding join
  ring_reconstruction id port addr =
      join first_know know (λ head. know_text head id addr port) id port addr

  pub new_client : ℤ → Bytes → M ℤ
  new_client port addr = connect_to env addr port >>= λ fd.
      if not (is_valid_socket fd)
      then return error_return
      else (random_id env 100 1000 >>= λ client_id. peer 0 >>= λ head.
          send_or_fail (client_text client_id head) fd (close_socket env fd >> return error_return))

  -- `SERVER_HEARTBEAT` and unknown messages are only printed.
  unfoldable pub peer_mcast_receive : Bytes → Bytes → M ℤ
  unfolding new_server ring_reconstruction new_client
  peer_mcast_receive buf addr =
      elim (two_numbers (scan (lits "LEADER_DISCOVERY:" ++ (int ∷ (lits ":" ++ (int ∷ [])))) buf)) [
        | some v ↦ new_server v.0 v.1 addr
        | none ↦
            elim (two_numbers
              (scan (lits "WHO_IS_LEADER:" ++ (int ∷ (lits ":" ++ (int ∷ [])))) buf)) [
                | some v ↦ ring_reconstruction v.0 v.1 addr
                | none ↦ elim (one_number (scan (lits "NEW_CLIENT:" ++ (int ∷ [])) buf)) [
                  | some port ↦ new_client port addr
                  | none ↦ return error_return
                ]
              ]
      ]

  -- A heartbeat that the leader multicasts, at another server.
  pub leader_heartbeat : ℤ → M ℤ
  leader_heartbeat received_id = peer 1 >>= λ leader.
      if received_id ==ℤ leader.id
      then (get_state >>= λ s. time_now env >>= λ now.
          set_peers (update_peer 1 (λ p. record p { last_heartbeat = now }) s.connected_peers)
          >> return error_return)
      else return error_return

  -- A datagram with its sender, `none` if `recvfrom` fails. The byte before the end is overwritten,
  -- which an empty datagram has none of.
  pub handle_mcast_receive : Option (Bytes × Bytes) → M ℤ
  unfolding peer_mcast_receive leader_heartbeat
  handle_mcast_receive none = return error_return
  handle_mcast_receive (some ([], addr)) = lift (err out_of_range)
  handle_mcast_receive (some (c ∷ payload, addr)) =
      let heard = take buffer_size (c ∷ payload) in
      let read_buf = set (overlay heard filled_with_zero) (length heard - 1) 0 in
      elim (receive read_buf) [
        | none ↦ return error_return
        | some buf ↦ peer 0 >>= λ head.
            if head.leader ==ℤ pos 1
            then peer_mcast_receive buf addr
            else elim (one_number (scan (lits "HEARTBEAT:" ++ (int ∷ [])) buf)) [
              | none ↦ return error_return
              | some received_id ↦ leader_heartbeat received_id
            ]
      ]
