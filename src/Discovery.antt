-- ===== src/Discovery.antt =====
-- chat-c/service_discovery.c: a server that starts asks the multicast group for a leader, and waits
-- for the leader to connect and to say who comes next on the ring.
pub mod Understood
pub mod Answer
pub mod Keeps
mod Tests
use ds_project.Base.{
  ℕ, zero, suc, not, List, [], ◌∷◌, ◌++◌, Option, none, some, ok, err, out_of_range, error_return,
  ℤ, pos, leb, ltb, is_valid_socket, if◌then◌else◌, length, take,
}
use ds_project.Text.{Bytes, Directive, int, upto, lits, Value, num, txt, scan, print}
use ds_project.Frame.{buffer_size, filled_with_zero, overlay, receive}
use ds_project.Peers.{ServerInfo}
use ds_project.Clients.{assign_client_info}
use ds_project.SocketChanges.{add_last}
use ds_project.Server.{
  Env, M, ◌>>=◌, ◌>>◌, return, lift, get_state, peer, update_peer, set_peers, print_buffer,
  close_socket, connect_to, set_successor, do_multicast,
}

abbrev pub discovery_text : ServerInfo → Bytes
discovery_text head =
    print (lits "LEADER_DISCOVERY:" ++ (int ∷ (lits ":" ++ (int ∷ lits "\n\n"))))
      (num head.id ∷ num head.port ∷ [])

abbrev pub welcome_format : List Directive
welcome_format =
    int ∷ (lits ":" ++ (upto 15 b':' ∷ (lits ":" ++ (int ∷ (lits ":" ++ (int ∷ lits "\n\n"))))))

-- The leader's ID, and address, port and ID of the successor.
pub record Welcome : Type 0 where
  pub id : ℤ
  pub successor_ip : Bytes
  pub port : ℤ
  pub successor_id : ℤ

abbrev pub welcome_values : List Value → Option Welcome
welcome_values (num id ∷ txt ip ∷ num port ∷ num ids ∷ []) =
    some (record { id = id; successor_ip = ip; port = port; successor_id = ids })
welcome_values _ = none

-- What happens on a socket that `select` reports: a connection, with its socket and the texts of its
-- address, or what `recv` gives on the connection.
pub data Arrival : Type 0 where
  connection : ℤ → Option Bytes → Bytes → Arrival
  data_on : Option Bytes → Arrival

-- The outcome of `select`.
pub data Activity : Type 0 where
  failed : Activity
  silent : Activity
  ready : List Arrival → Activity

-- The connection that was accepted, and the text of its address.
pub record Caller : Type 0 where
  pub socket : ℤ
  pub addr : Bytes

-- How the walk over the reported sockets ends: with the function's result, or with the caller.
pub data Outcome : Type 0 where
  finished : ℤ → Outcome
  waiting : Caller → Outcome

module _ (env : Env) where
  -- The successor is connected, if the address that was named has eight bytes or more, as `0.0.0.0`
  -- has not.
  pub connect_successor : Caller → Welcome → M ℤ
  connect_successor caller w =
      if leb 8 (length w.successor_ip)
      then (connect_to env w.successor_ip w.port >>= λ fd.
          if not (is_valid_socket fd)
          then close_socket env caller.socket >> return error_return
          else (set_successor fd
              >> add_last env w.successor_id w.successor_ip w.port (pos 0) fd
              >> return caller.socket))
      else return caller.socket

  -- The leader is put into the list, and the successor.
  pub leader_answered : Caller → Welcome → M ℤ
  unfolding connect_successor
  leader_answered caller w = get_state >>= λ s.
      set_peers (update_peer 0 (λ p. record p { leader = pos 0 }) s.connected_peers)
      >> (peer 0 >>= λ head.
          add_last env w.id caller.addr head.port (pos 1) caller.socket
          >> connect_successor caller w)

  -- What follows `recv`: `readBuf[bytes_received] = '\0'` is outside of the 256 bytes if as many were
  -- received.
  pub read_heard : Caller → Bytes → M Outcome
  unfolding leader_answered
  read_heard caller heard =
      if ltb (length heard) buffer_size
      then elim (receive (overlay heard filled_with_zero)) [
        | none ↦ return (finished error_return)
        | some buf ↦ elim (welcome_values (scan welcome_format buf)) [
          | some w ↦ leader_answered caller w >>= λ fd. return (finished fd)
          | none ↦ close_socket env caller.socket >> return (waiting caller)
        ]
      ]
      else lift (err out_of_range)

  pub read_answer : Caller → Option Bytes → M Outcome
  unfolding read_heard
  read_answer caller none = return (finished error_return)
  read_answer caller (some []) = return (finished error_return)
  read_answer caller (some (c ∷ payload)) = read_heard caller (take buffer_size (c ∷ payload))

  pub take_arrivals : List Arrival → Caller → M Outcome
  unfolding read_answer
  take_arrivals [] caller s = ok (waiting caller, s)
  take_arrivals (connection fd ip addr ∷ rest) caller s =
      if not (is_valid_socket fd)
      then ok (finished error_return, s)
      else (assign_client_info env fd ip
            >> take_arrivals rest (record { socket = fd; addr = addr }))
          s
  take_arrivals (data_on received ∷ rest) caller s =
      (read_answer caller received >>= λ outcome. elim outcome [
        | finished fd ↦ return (finished fd)
        | waiting c ↦ take_arrivals rest c
      ])
        s

  -- At most three rounds; a silent one ends the search after one more question.
  pub attempts : ℕ → List Activity → Caller → M ℤ
  unfolding take_arrivals
  attempts zero rounds caller s = ok (error_return, s)
  attempts (suc n) [] caller s = ok (error_return, s)
  attempts (suc n) (failed ∷ rounds) caller s = ok (error_return, s)
  attempts (suc n) (silent ∷ rounds) caller s = (do_multicast env >>= λ sent. return error_return) s
  attempts (suc n) (ready arrivals ∷ rounds) caller s =
      (take_arrivals arrivals caller >>= λ outcome. elim outcome [
        | finished fd ↦ return fd
        | waiting c ↦ attempts n rounds c
      ])
        s

  -- `caller` is what the locals `socket_client` and `address_buffer` hold uninitialised.
  pub service_discovery : List Activity → Caller → M ℤ
  unfolding attempts
  service_discovery rounds caller =
      (peer 0 >>= λ head. print_buffer (discovery_text head))
      >> (do_multicast env >>= λ sent.
          if not (is_valid_socket sent) then return error_return else attempts 3 rounds caller)
