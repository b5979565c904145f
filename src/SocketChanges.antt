-- ===== src/SocketChanges.antt =====
-- chat-c/socket_changes.c: what a readable TCP socket does, at any server.
pub mod Understood
pub mod Whole
pub mod Successor
pub mod Won
pub mod Announced
pub mod Keeps
mod Tests
use ds_project.Base.{
  ℕ, Bool, true, false, not, List, [], ◌∷◌, ◌++◌, Option, none, some, ok, err, out_of_range, exited,
  error_return, ℤ, pos, ◌==ℤ◌, ltb, leb, is_valid_socket, if◌then◌else◌, get_elem?, length, take,
}
use ds_project.Text.{Bytes, codes, Directive, int, upto, lits, Value, num, txt, scan, print}
use ds_project.Frame.{buffer_size, newline, filled_with_zero, overlay, receive}
use ds_project.Peers.{ServerInfo, append_server, update_heartbeat_timeout}
use ds_project.Election.{alone, unlink, lcr_election, leader_found}
use ds_project.Clients.{handle_client_message}
use ds_project.Disconnection.{handle_disconnection}
use ds_project.Server.{
  Env, Server, M, ◌>>=◌, ◌>>◌, return, lift, get_state, peer, set_peers, pad_buffer, close_socket,
  time_now, connect_to, fd_set, fd_clr, set_successor, set_ltcp, do_multicast,
}

abbrev pub update_format : List Directive
update_format =
    lits "UPDATE_FROM_LEADER:" ++ (upto 15 b':' ∷ (lits ":" ++ (int ∷ (lits ":" ++ (int ∷ [])))))

abbrev pub client_format : List Directive
client_format =
    lits "CLIENT:" ++ (int ∷ (lits ":" ++ (int ∷ (lits ":" ++ (upto 1023 newline ∷ [])))))

abbrev pub election_format : List Directive
election_format = lits "ELECTION:" ++ (upto 7 b':' ∷ (lits ":" ++ (int ∷ [])))

abbrev pub know_format : List Directive
know_format =
    lits "KNOW_NEW_LEADER:"
    ++ (int
        ∷ (lits ":"
            ++ (upto 15 b':'
                ∷ (lits ":"
                    ++ (int
                        ∷ (lits ":"
                            ++ (int ∷ (lits ":" ++ (upto 15 b':' ∷ (lits ":" ++ (int ∷ [])))))))))))

abbrev pub heartbeat_format : List Directive
heartbeat_format = lits "HEARTBEAT:" ++ (int ∷ [])

-- A message as the function takes it apart; `sscanf` is asked for one format after the other, the
-- first only on the leader's socket.
pub data Message : Type 0 where
  update_from_leader : Bytes → ℤ → ℤ → Message
  client : ℤ → ℤ → Bytes → Message
  election : Bytes → ℤ → Message
  know_new_leader : ℤ → Bytes → ℤ → ℤ → Bytes → ℤ → Message
  heartbeat : ℤ → Message
  unknown : Message

abbrev pub update_values : List Value → Option Message
update_values (txt ip ∷ num id ∷ num port ∷ []) = some (update_from_leader ip id port)
update_values _ = none

abbrev pub client_values : List Value → Option Message
client_values (num sender ∷ num dest ∷ txt message ∷ []) = some (client sender dest message)
client_values _ = none

abbrev pub election_values : List Value → Option Message
election_values (txt keyword ∷ num id ∷ []) = some (election keyword id)
election_values _ = none

abbrev pub know_values : List Value → Option Message
know_values (num id ∷ txt ip ∷ num port ∷ num s_id ∷ txt s_ip ∷ num s_port ∷ []) =
    some (know_new_leader id ip port s_id s_ip s_port)
know_values _ = none

abbrev pub heartbeat_values : List Value → Option Message
heartbeat_values (num id ∷ []) = some (heartbeat id)
heartbeat_values _ = none

-- The first that has an answer.
abbrev pub or_else : Option Message → Message → Message
or_else none m = m
or_else (some m) _ = m

unfoldable pub parse : Bool → Bytes → Message
parse from_leader read =
    let rest = or_else (client_values (scan client_format read)) (
      or_else (election_values (scan election_format read)) (
        or_else (know_values (scan know_format read))
          (or_else (heartbeat_values (scan heartbeat_format read)) unknown))) in
    if from_leader then or_else (update_values (scan update_format read)) rest else rest

abbrev pub who_is_leader_text : ServerInfo → Bytes
who_is_leader_text head =
    print (lits "WHO_IS_LEADER:" ++ (int ∷ (lits ":" ++ (int ∷ lits "\n\n"))))
      (num head.id ∷ num head.port ∷ [])

module _ (env : Env) where
  abbrev pub add_last : ℤ → Bytes → ℤ → ℤ → ℤ → M (Unit {0})
  add_last id addr port leader fd s =
      (lift (
            append_server (env.malloc s.trace) (env.time s.trace) s.connected_peers id addr port
              leader fd)
          >>= set_peers)
        s

  -- `FD_CLR` and `CLOSESOCKET`.
  abbrev pub forget : ℤ → M (Unit {0})
  forget fd = fd_clr fd >> close_socket env fd

  -- The new successor, once it is connected, takes the place of the one known so far.
  pub replace_successor : ℤ → Bytes → ℤ → ℤ → M (Unit {0})
  replace_successor id addr port fd s =
      if not (is_valid_socket fd)
      then err (exited 1)
      else ((peer 1 >>= λ leader. elim (get_elem? s.connected_peers 2) [
        | some old ↦ unlink old.id >> add_last id addr port (pos 0) fd >> forget s.successor_socket
        | none ↦ add_last id addr port (pos 0) fd
      ])
            >> set_successor fd
            >> fd_set fd)
          s

  pub take_successor : ℤ → Bytes → ℤ → M (Unit {0})
  unfolding replace_successor
  take_successor id addr port = connect_to env addr port >>= replace_successor id addr port

  -- The successor's connection, if there is one, is given up.
  pub drop_successor : M (Unit {0})
  drop_successor s =
      if is_valid_socket s.successor_socket
      then (forget s.successor_socket >> set_successor error_return) s
      else ok (tt, s)

  -- A new leader was announced: the old leader and the successor are forgotten, and the new leader
  -- is asked for.
  pub leader_changed : M (Unit {0})
  unfolding drop_successor
  leader_changed s =
      if alone s
      then ok (tt, s)
      else (peer 1 >>= λ old.
            unlink old.id
            >> (peer 1 >>= λ successor.
                forget successor.tcp_socket
                >> unlink successor.id
                >> (peer 0 >>= λ head. pad_buffer (who_is_leader_text head))
                >> drop_successor
                >> (do_multicast env >>= λ sent. return tt)))
          s

  -- The election is won: the successor is forgotten, and will ask for its new leader.
  pub election_won : M (Unit {0})
  unfolding drop_successor
  election_won s =
      if alone s
      then ok (tt, s)
      else (drop_successor
            >> (peer 1 >>= λ successor. forget successor.tcp_socket >> unlink successor.id))
          s

  -- A text with `LEADER:` in it is an announcement, whatever its keyword.
  pub handle_election : Bytes → Bytes → ℤ → M (Unit {0})
  unfolding leader_changed election_won
  handle_election read keyword pred_id =
      let value = leader_found read in
      (if value ==ℤ pos 0
        then lcr_election env keyword pred_id
        else lcr_election env (codes "LEADER") value)
      >>= λ result. peer 0 >>= λ head.
          if result ==ℤ pos 1
          then leader_changed
          else if head.id ==ℤ result
          then election_won
          else return tt

  pub know_leader : ℤ → Bytes → ℤ → ℤ → Bytes → ℤ → ℤ → M (Unit {0})
  unfolding take_successor
  know_leader id addr port s_id s_addr s_port i =
      (get_state >>= λ s. if alone s then add_last id addr port (pos 1) i else return tt)
      >> (if s_port ==ℤ pos 0 then return tt else take_successor s_id s_addr s_port)
      >> set_ltcp i

  pub handle_message : ℤ → Bytes → Message → M (Unit {0})
  unfolding handle_election know_leader take_successor
  handle_message i read (update_from_leader ip id port) = take_successor id ip port
  handle_message i read (client sender dest message) =
      handle_client_message env sender dest message i >>= λ result. return tt
  handle_message i read (election keyword id) = handle_election read keyword id
  handle_message i read (know_new_leader id ip port s_id s_ip s_port) =
      know_leader id ip port s_id s_ip s_port i
  handle_message i read (heartbeat id) = get_state >>= λ s.
      time_now env >>= λ now. set_peers (update_heartbeat_timeout now s.connected_peers id)
  handle_message i read unknown = return tt

  -- A socket that its other side has closed, or that failed.
  pub hang_up : ℤ → M (Unit {0})
  hang_up i = get_state >>= λ s.
      handle_disconnection env i s.udp_socket s.mc_socket s.ltcp_socket s.successor_socket
      >> (if i ==ℤ s.ltcp_socket then set_ltcp error_return else return tt)
      >> forget i

  -- What follows `recv`: `read[byte_received] = '\0'` is outside of the 256 bytes of `read` if as many
  -- were received.
  pub take_message : ℤ → Bytes → M (Unit {0})
  unfolding handle_message
  take_message i heard s = elim (receive (overlay heard filled_with_zero)) [
    | none ↦ ok (tt, s)
    | some read ↦
        if i ==ℤ s.udp_socket
        then ok (tt, s)
        else if ltb (length heard) buffer_size
        then handle_message i read (parse (i ==ℤ s.ltcp_socket) read) s
        else err out_of_range
  ]

  -- `received` is what `recv` gives, `none` for -1.
  pub handle_socket_change : ℤ → Option Bytes → M (Unit {0})
  unfolding hang_up take_message
  handle_socket_change i none = hang_up i
  handle_socket_change i (some []) = hang_up i
  handle_socket_change i (some (c ∷ payload)) = take_message i (take buffer_size (c ∷ payload))
