-- ===== src/SocketChanges/Keeps.antt =====
-- What a readable socket sets off keeps what a server keeps.
use ds_project.Base.{
  ℕ, inl, inr, Bool-cases, not, List, [], ◌∷◌, Option, none, some, err, out_of_range, exited,
  error_return, ℤ, pos, ltb, ◌==ℤ◌, is_valid_socket, if◌then◌else◌, get_elem?, length, take,
}
use ds_project.Text.{Bytes, codes}
use ds_project.Frame.{buffer_size, filled_with_zero, overlay, receive}
use ds_project.Peers.{ServerInfo, append_server, update_heartbeat_timeout}
use ds_project.Election.{alone, lcr_election, leader_found}
use ds_project.Election.Keeps.{unlink_kept, lcr_election-Keeps}
use ds_project.Clients.{handle_client_message}
use ds_project.Clients.Keeps.{handle_client_message-Keeps}
use ds_project.Disconnection.{handle_disconnection}
use ds_project.Disconnection.Keeps.{handle_disconnection-Keeps}
use ds_project.Server.{Env, Server, get_state, ◌>>=◌}
use ds_project.Kept.{
  Kept, Keeps, IsHeadedBy, run, stop, ◌then◌, ◌next◌, test, test_end, given, given_end, done,
}
use ds_project.Kept.Heads.{headed-append_server}
use ds_project.Kept.Parts.{
  peer_kept, pad_kept, time_kept, close_kept, connect_kept, fd_set_kept, fd_clr_kept,
  set_successor_kept, set_ltcp_kept, multicast_kept, set_peers_kept, Ends-set_peers,
}
use ds_project.SocketChanges.{
  Message, update_from_leader, client, election, know_new_leader, heartbeat, unknown, parse,
  who_is_leader_text, add_last, replace_successor, take_successor, drop_successor, leader_changed,
  election_won, handle_election, know_leader, handle_message, hang_up, take_message,
  handle_socket_change,
}

headed-update_heartbeat :
    (self : ServerInfo) (now : ℕ) (l : List ServerInfo) (id : ℤ)
    → IsHeadedBy self l
    → IsHeadedBy self (update_heartbeat_timeout now l id)
unfolding update_heartbeat_timeout
headed-update_heartbeat self now [] id h = absurd h
headed-update_heartbeat self now (p ∷ rest) id h = elim (Bool-cases (p.id ==ℤ id)) [
  | inl e ↦ rw e h
  | inr e ↦ rw e h
]

module _ (self : ServerInfo) (env : Env) where
  pub add_last-Keeps :
      (id : ℤ) (addr : Bytes) (port leader fd : ℤ)
      → Keeps self (add_last env id addr port leader fd)
  add_last-Keeps id addr port leader fd s h =
      Ends-set_peers self
        (append_server (env.malloc s.trace) (env.time s.trace) s.connected_peers id addr port leader
          fd)
        s h
        (λ l e.
          headed-append_server self (env.malloc s.trace) (env.time s.trace) s.connected_peers id
            addr port leader fd l e h.2)

module _ {self : ServerInfo} (env : Env) where
  abbrev pub add_last_kept : ℤ → Bytes → ℤ → ℤ → ℤ → Kept self (Unit {0})
  add_last_kept id addr port leader fd = record {
    act = add_last env id addr port leader fd;
    keeps = add_last-Keeps self env id addr port leader fd;
  }

  abbrev forget_kept : ℤ → Kept self (Unit {0})
  forget_kept fd = fd_clr_kept fd next close_kept env fd

module _ (self : ServerInfo) (env : Env) where
  replace_successor-Keeps :
      (id : ℤ) (addr : Bytes) (port fd : ℤ) → Keeps self (replace_successor env id addr port fd)
  unfolding replace_successor
  replace_successor-Keeps id addr port fd s h =
      let m : Kept self (Unit {0}) =
        (peer_kept 1 then λ leader.
        given (get_elem? s.connected_peers 2) (add_last_kept env id addr port (pos 0) fd) (λ old.
          unlink_kept old.id
          next add_last_kept env id addr port (pos 0) fd
          next forget_kept env s.successor_socket))
        next set_successor_kept fd
        next fd_set_kept fd in
      (test_end {self = self} (not (is_valid_socket fd))
        (record { result = err (exited 1); ends = tt }) (run m s h)).ends

  take_successor-Keeps :
      (id : ℤ) (addr : Bytes) (port : ℤ) → Keeps self (take_successor env id addr port)
  unfolding take_successor
  take_successor-Keeps id addr port =
      let m : Kept self (Unit {0}) = connect_kept env addr port then λ fd. record {
        act = replace_successor env id addr port fd;
        keeps = replace_successor-Keeps id addr port fd;
      } in
      m.keeps

  drop_successor-Keeps : Keeps self (drop_successor env)
  unfolding drop_successor
  drop_successor-Keeps s h =
      (test_end {self = self} (is_valid_socket s.successor_socket)
        (run (forget_kept env s.successor_socket next set_successor_kept error_return) s h)
        (stop tt s h)).ends

  leader_changed-Keeps : Keeps self (leader_changed env)
  unfolding leader_changed
  leader_changed-Keeps s h =
      (test_end {self = self} (alone s) (stop tt s h) (
        run
          (peer_kept 1 then λ old.
            unlink_kept old.id
            next (peer_kept 1 then λ successor.
                forget_kept env successor.tcp_socket
                next unlink_kept successor.id
                next (peer_kept 0 then λ head. pad_kept (who_is_leader_text head))
                next record { act = drop_successor env; keeps = drop_successor-Keeps }
                next (multicast_kept env then λ sent. done tt)))
          s h)).ends

  election_won-Keeps : Keeps self (election_won env)
  unfolding election_won
  election_won-Keeps s h =
      (test_end {self = self} (alone s) (stop tt s h) (
        run
          (record { act = drop_successor env; keeps = drop_successor-Keeps }
            next (peer_kept 1 then λ successor.
                forget_kept env successor.tcp_socket next unlink_kept successor.id))
          s h)).ends

  handle_election-Keeps :
      (read keyword : Bytes) (id : ℤ) → Keeps self (handle_election env read keyword id)
  unfolding handle_election
  handle_election-Keeps read keyword id =
      let vote : Bytes → ℤ → Kept self ℤ =
        λ k v. record { act = lcr_election env k v; keeps = lcr_election-Keeps self env k v } in
      let m : Kept self (Unit {0}) =
        test (leader_found read ==ℤ pos 0) (vote keyword id)
          (vote (codes "LEADER") (leader_found read))
        then λ result. peer_kept 0 then λ head.
            test (result ==ℤ pos 1)
              (record { act = leader_changed env; keeps = leader_changed-Keeps })
              (test (head.id ==ℤ result)
                (record { act = election_won env; keeps = election_won-Keeps }) (done tt)) in
      m.keeps

  know_leader-Keeps :
      (id : ℤ) (addr : Bytes) (port s_id : ℤ) (s_addr : Bytes) (s_port i : ℤ)
      → Keeps self (know_leader env id addr port s_id s_addr s_port i)
  unfolding know_leader
  know_leader-Keeps id addr port s_id s_addr s_port i =
      let first : Server → Kept self (Unit {0}) =
        λ t. test (alone t) (add_last_kept env id addr port (pos 1) i) (done tt) in
      let m : Kept self (Unit {0}) =
        record { act = get_state >>= λ t. (first t).act; keeps = λ t k. (first t).keeps t k }
        next test (s_port ==ℤ pos 0) (done tt) (record {
          act = take_successor env s_id s_addr s_port;
          keeps = take_successor-Keeps s_id s_addr s_port;
        })
        next set_ltcp_kept i in
      m.keeps

  handle_message-Keeps :
      (i : ℤ) (read : Bytes) (m : Message) → Keeps self (handle_message env i read m)
  unfolding handle_message
  handle_message-Keeps i read (update_from_leader ip id port) = take_successor-Keeps id ip port
  handle_message-Keeps i read (client sender dest message) =
      let m : Kept self (Unit {0}) =
        record {
          act = handle_client_message env sender dest message i;
          keeps = handle_client_message-Keeps self env sender dest message i;
        }
        then λ result. done tt in
      m.keeps
  handle_message-Keeps i read (election keyword id) = handle_election-Keeps read keyword id
  handle_message-Keeps i read (know_new_leader id ip port s_id s_ip s_port) =
      know_leader-Keeps id ip port s_id s_ip s_port i
  handle_message-Keeps i read (heartbeat id) = λ s h.
      let m : Kept self (Unit {0}) = time_kept env then λ now.
      set_peers_kept (update_heartbeat_timeout now s.connected_peers id)
        (headed-update_heartbeat self now s.connected_peers id h.2) in
      m.keeps s h
  handle_message-Keeps i read unknown = λ s h. h

  hang_up-Keeps : (i : ℤ) → Keeps self (hang_up env i)
  unfolding hang_up
  hang_up-Keeps i s h =
      let m : Kept self (Unit {0}) =
        record {
          act =
              handle_disconnection env i s.udp_socket s.mc_socket s.ltcp_socket s.successor_socket;
          keeps =
              handle_disconnection-Keeps self env i s.udp_socket s.mc_socket s.ltcp_socket
                s.successor_socket;
        }
        next test (i ==ℤ s.ltcp_socket) (set_ltcp_kept error_return) (done tt)
        next forget_kept env i in
      m.keeps s h

  take_message-Keeps : (i : ℤ) (heard : Bytes) → Keeps self (take_message env i heard)
  unfolding take_message
  take_message-Keeps i heard s h =
      (given_end {self = self} (receive (overlay heard filled_with_zero)) (stop tt s h) (λ read.
        test_end (i ==ℤ s.udp_socket) (stop tt s h) (
          test_end (ltb (length heard) buffer_size)
            (run
              (record {
                act = handle_message env i read (parse (i ==ℤ s.ltcp_socket) read);
                keeps = handle_message-Keeps i read (parse (i ==ℤ s.ltcp_socket) read);
              })
              s h)
            (record { result = err out_of_range; ends = tt })))).ends

  pub handle_socket_change-Keeps :
      (i : ℤ) (received : Option Bytes) → Keeps self (handle_socket_change env i received)
  unfolding handle_socket_change
  handle_socket_change-Keeps i none = hang_up-Keeps i
  handle_socket_change-Keeps i (some []) = hang_up-Keeps i
  handle_socket_change-Keeps i (some (c ∷ payload)) =
      take_message-Keeps i (take buffer_size (c ∷ payload))
