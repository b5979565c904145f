-- ===== src/Joining/Keeps.antt =====
-- What the multicast group sets off keeps what a server keeps.
use ds_project.Base.{
  Bool, ℕ, zero, suc, ◌-◌, not, [], ◌∷◌, ◌++◌, Option, none, some, error_return, ℤ, pos, negsuc,
  ◌==ℤ◌, if◌then◌else◌, get_elem?, is_valid_socket, set, take, length,
}
use ds_project.Text.{Bytes, int, lits, scan}
use ds_project.Frame.{buffer_size, filled_with_zero, overlay, receive}
use ds_project.Peers.{
  ServerInfo, append_server_sorted, get_successor, get_predecessor, get_last_server,
}
use ds_project.Election.{alone}
use ds_project.Disconnection.{update_text}
use ds_project.Server.{
  Env, Server, get_state, peer, time_now, set_peers, return, update_peer, ◌>>=◌, ◌>>◌,
}
use ds_project.Kept.{Kept, Keeps, IsKept, ◌then◌, ◌next◌, test, given, done, lifted}
use ds_project.Kept.Heads.{headed-append_server_sorted}
use ds_project.Kept.Parts.{
  peer_kept, pad_kept, send_kept, time_kept, close_kept, connect_kept, random_id_kept,
  set_peers_kept, Ends-set_peers, headed-update_behind,
}
use ds_project.Joining.{
  first_welcome, welcome, first_know, know, know_text, client_text, two_numbers, one_number,
  node_at, ring_predecessor, add_sorted, answer, inform, join, new_server, ring_reconstruction,
  new_client, peer_mcast_receive, leader_heartbeat, handle_mcast_receive,
}

module _ (self : ServerInfo) where
  node_at-Keeps : (found : Option ℕ) → Keeps self (node_at found)
  node_at-Keeps none s h = tt
  node_at-Keeps (some at) s h = (peer_kept {self = self} at).keeps s h

  found-Keeps :
      (last : Kept self ServerInfo) (found : Option ℕ)
      → Keeps self
          (elim found [ some zero ↦ last.act | some (suc k) ↦ peer (suc k) | none ↦ node_at none ])
  found-Keeps last none s h = tt
  found-Keeps last (some zero) s h = last.keeps s h
  found-Keeps last (some (suc k)) s h = (peer_kept {self = self} (suc k)).keeps s h

  ring_predecessor-Keeps : (id : ℤ) → Keeps self (ring_predecessor id)
  unfolding ring_predecessor
  ring_predecessor-Keeps id s h =
      let last : Kept self ServerInfo = lifted (get_last_server s.connected_peers) then peer_kept in
      let m : Kept self ServerInfo = lifted (get_predecessor id s.connected_peers) then λ found.
      record {
        act = elim found [
          | some zero ↦ last.act
          | some (suc k) ↦ peer (suc k)
          | none ↦ node_at none
        ];
        keeps = found-Keeps last found;
      } in
      m.keeps s h

  module _ (env : Env) where
    add_sorted-Keeps :
        (id : ℤ) (addr : Bytes) (port fd : ℤ) → Keeps self (add_sorted env id addr port fd)
    add_sorted-Keeps id addr port fd s h =
        Ends-set_peers self
          (append_server_sorted (env.malloc s.trace) (env.time s.trace) s.connected_peers id addr
            port (pos 0) fd)
          s h
          (λ l e.
            headed-append_server_sorted self (env.malloc s.trace) (env.time s.trace)
              s.connected_peers id addr port (pos 0) fd l e h.2)

    answer-Keeps :
        (first : Bool) (single : ServerInfo → Bytes) (reply : ServerInfo → ServerInfo → Bytes)
        (id : ℤ)
        → Keeps self (answer env first single reply id)
    answer-Keeps first single reply id s h =
        let m : Kept self Bytes = peer_kept 0 then λ head. test first (done (single head)) (
          lifted (get_successor id s.connected_peers)
          then (λ at. record { act = node_at at; keeps = node_at-Keeps at })
          then λ successor. done (reply head successor)) in
        m.keeps s h

module _ {self : ServerInfo} (env : Env) where
  abbrev send_or_fail_kept : Bytes → ℤ → Kept self ℤ → Kept self ℤ
  send_or_fail_kept text fd after =
      pad_kept text
      next (send_kept env fd then λ sent. test (sent ==ℤ negsuc 0) (done error_return) after)

module _ (self : ServerInfo) (env : Env) where
  inform-Keeps : (update : ServerInfo → Bytes) (id fd : ℤ) → Keeps self (inform env update id fd)
  unfolding inform
  inform-Keeps update id fd s h =
      let m : Kept self ℤ = peer_kept 0 then λ head. peer_kept 1 then λ first.
      given (get_elem? s.connected_peers 2) (done fd) (λ second.
        record { act = ring_predecessor id; keeps = ring_predecessor-Keeps self id }
        then λ predecessor. send_or_fail_kept env (update head) predecessor.tcp_socket (done fd)) in
      m.keeps s h

  join-Keeps :
      (single : ServerInfo → Bytes) (reply : ServerInfo → ServerInfo → Bytes)
      (update : ServerInfo → Bytes) (id port : ℤ) (addr : Bytes)
      → Keeps self (join env single reply update id port addr)
  unfolding join
  join-Keeps single reply update id port addr s h =
      let m : Kept self ℤ = connect_kept env addr port then λ fd.
      test (not (is_valid_socket fd)) (done error_return) (
        record {
          act = add_sorted env id addr port fd;
          keeps = add_sorted-Keeps self env id addr port fd;
        }
        next (record {
          act = answer env (alone s) single reply id;
          keeps = answer-Keeps self env (alone s) single reply id;
        }
            then λ text.
                send_or_fail_kept env text fd
                  (record { act = inform env update id fd; keeps = inform-Keeps update id fd }))) in
      m.keeps s h

  new_server-Keeps : (id port : ℤ) (addr : Bytes) → Keeps self (new_server env id port addr)
  unfolding new_server
  new_server-Keeps id port addr =
      join-Keeps first_welcome welcome (λ head. update_text addr id port) id port addr

  ring_reconstruction-Keeps :
      (id port : ℤ) (addr : Bytes) → Keeps self (ring_reconstruction env id port addr)
  unfolding ring_reconstruction
  ring_reconstruction-Keeps id port addr =
      join-Keeps first_know know (λ head. know_text head id addr port) id port addr

  new_client-Keeps : (port : ℤ) (addr : Bytes) → Keeps self (new_client env port addr)
  unfolding new_client
  new_client-Keeps port addr =
      let m : Kept self ℤ = connect_kept env addr port then λ fd.
      test (not (is_valid_socket fd)) (done error_return) (
        random_id_kept env 100 1000 then λ client_id. peer_kept 0 then λ head.
        send_or_fail_kept env (client_text client_id head) fd
          (close_kept env fd next done error_return)) in
      m.keeps

  peer_mcast_receive-Keeps : (buf addr : Bytes) → Keeps self (peer_mcast_receive env buf addr)
  unfolding peer_mcast_receive
  peer_mcast_receive-Keeps buf addr =
      let m : Kept self ℤ =
        given
          (two_numbers (scan (lits "LEADER_DISCOVERY:" ++ (int ∷ (lits ":" ++ (int ∷ [])))) buf))
          (given
            (two_numbers (scan (lits "WHO_IS_LEADER:" ++ (int ∷ (lits ":" ++ (int ∷ [])))) buf))
            (given (one_number (scan (lits "NEW_CLIENT:" ++ (int ∷ [])) buf)) (done error_return)
              (λ port. record {
                act = new_client env port addr;
                keeps = new_client-Keeps port addr;
              }))
            (λ v. record {
              act = ring_reconstruction env v.0 v.1 addr;
              keeps = ring_reconstruction-Keeps v.0 v.1 addr;
            }))
          (λ v. record {
            act = new_server env v.0 v.1 addr;
            keeps = new_server-Keeps v.0 v.1 addr;
          }) in
      m.keeps

  leader_heartbeat-Keeps : (id : ℤ) → Keeps self (leader_heartbeat env id)
  unfolding leader_heartbeat
  leader_heartbeat-Keeps id s h =
      let beat : (t : Server) → IsKept self t → Kept self ℤ = λ t k. time_kept env then λ now.
      set_peers_kept (update_peer 1 (λ p. record p { last_heartbeat = now }) t.connected_peers)
        (headed-update_behind self 0 (λ p. record p { last_heartbeat = now }) t.connected_peers k.2)
      next done error_return in
      let m : Kept self ℤ = peer_kept 1 then λ leader.
      test (id ==ℤ leader.id)
        (record {
          act = get_state >>= λ s. time_now env >>= λ now.
              set_peers (update_peer 1 (λ p. record p { last_heartbeat = now }) s.connected_peers)
              >> return error_return;
          keeps = λ t k. (beat t k).keeps t k;
        })
        (done error_return) in
      m.keeps s h

  pub handle_mcast_receive-Keeps :
      (datagram : Option (Bytes × Bytes)) → Keeps self (handle_mcast_receive env datagram)
  unfolding handle_mcast_receive
  handle_mcast_receive-Keeps none s h = h
  handle_mcast_receive-Keeps (some ([], addr)) s h = tt
  handle_mcast_receive-Keeps (some (c ∷ payload, addr)) s h =
      let heard = take buffer_size (c ∷ payload) in
      let read_buf = set (overlay heard filled_with_zero) (length heard - 1) 0 in
      let m : Kept self ℤ = given (receive read_buf) (done error_return) (λ buf.
        peer_kept 0 then λ head.
        test (head.leader ==ℤ pos 1)
          (record {
            act = peer_mcast_receive env buf addr;
            keeps = peer_mcast_receive-Keeps buf addr;
          })
          (given (one_number (scan (lits "HEARTBEAT:" ++ (int ∷ [])) buf)) (done error_return)
            (λ id. record { act = leader_heartbeat env id; keeps = leader_heartbeat-Keeps id }))) in
      m.keeps s h
