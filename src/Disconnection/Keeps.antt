-- ===== src/Disconnection/Keeps.antt =====
-- The handling of failures keeps what a server keeps.
use ds_project.Base.{
  ◌≡◌, refl, ℕ, zero, suc, ◌+◌, Bool, true, false, not, ◌&&◌, [], ◌∷◌, Option, none, some, Result,
  ok, err, exited, ℤ, pos, negsuc, ltb, ◌==ℤ◌, ◌==◌, if◌then◌else◌, get_elem?, length, List,
}
use ds_project.Peers.{ServerInfo, delete_server, ist_peer_server, get_last_server, find_before}
use ds_project.Election.{send_ele_msg}
use ds_project.Election.Keeps.{send_ele_msg-Keeps}
use ds_project.Clients.{remove_client_from_list}
use ds_project.Clients.Keeps.{remove_client_from_list-Keeps}
use ds_project.Server.{Env, Server, get_state, ◌>>=◌}
use ds_project.Kept.{
  Kept, Keeps, IsKept, IsHeadedBy, Ends, run, stop, ◌then◌, ◌next◌, test, test_end, given,
  given_end, done, lifted,
}
use ds_project.Kept.Parts.{headed-delete_server, peer_kept, pad_kept, send_kept, time_kept}
use ds_project.Disconnection.{
  update_message, relocate, delete_peer, new_successor, update_ring, repair, repair_behind, cut_out,
  cut_behind, ring_status, heartbeat_loop, check_heartbeat_timeout, check_leader_timeout,
  handle_disconnection,
}

module _ (self : ServerInfo) where
  Ends-deleted_from :
      (l : List ServerInfo) (r : Result (List ServerInfo × ℕ)) (id : ℤ) (s : Server)
      → IsKept self s
      → ((q : List ServerInfo × ℕ) → r ≡ ok q → IsHeadedBy self q.0)
      → Ends {A = ℕ} self (elim r [
        | err e ↦ err e
        | ok q ↦ elim l [
          | [] ↦ ok (0, s)
          | head ∷ rest ↦ elim (find_before 0 rest id) [
            | none ↦ ok (0, s)
            | some at ↦ ok (suc at, record s { connected_peers = q.0 })
          ]
        ]
      ])
  Ends-deleted_from l (err e) id s h headed = tt
  Ends-deleted_from [] (ok q) id s h headed = h
  Ends-deleted_from (head ∷ rest) (ok q) id s h headed =
      (given_end {self = self} (find_before 0 rest id) (stop 0 s h) (λ at. record {
        result = ok (suc at, record s { connected_peers = q.0 });
        ends = (h.0, h.1, headed q refl);
      })).ends

  delete_peer-Keeps : (id : ℤ) → Keeps self (delete_peer id)
  delete_peer-Keeps id s h =
      Ends-deleted_from s.connected_peers (delete_server s.connected_peers id) id s h
        (λ r e. headed-delete_server self s.connected_peers id r e h.2)

  new_successor-Keeps : (first : Option ServerInfo) (k : ℕ) → Keeps self (new_successor first k)
  unfolding new_successor
  new_successor-Keeps (some first) k s h = h
  new_successor-Keeps none k s h =
      (given_end {self = self} (get_elem? s.connected_peers (suc k)) (run (peer_kept 1) s h)
        (λ p. stop p s h)).ends

module _ {self : ServerInfo} where
  abbrev delete_peer_kept : ℤ → Kept self ℕ
  delete_peer_kept id = record { act = delete_peer id; keeps = delete_peer-Keeps self id }

module _ {self : ServerInfo} (env : Env) where
  update_ring_kept : Option ServerInfo → ℕ → Kept self ℤ
  update_ring_kept first k = peer_kept k then λ pred.
      record { act = new_successor first k; keeps = new_successor-Keeps self first k }
      then λ next_node.
          pad_kept (update_message next_node)
          next (send_kept env pred.tcp_socket then λ sent.
              done (if sent ==ℤ negsuc 0 then negsuc 0 else pos 0))

module _ (self : ServerInfo) (env : Env) where
  repair-Keeps : (first : Option ServerInfo) (k : ℕ) → Keeps self (repair env first k)
  unfolding repair update_ring update_ring_kept
  repair-Keeps first k =
      let m : Kept self (Unit {0}) = update_ring_kept env first k then λ sent.
      test (sent ==ℤ negsuc 0) (lifted (err (exited 1))) (done tt) in
      m.keeps

  repair_behind-Keeps :
      (first : Bool) (freed pred_i : ℕ) → Keeps self (repair_behind env first freed pred_i)
  unfolding repair_behind
  repair_behind-Keeps first freed pred_i s h =
      let mend : Option ServerInfo → ℕ → Kept self (Unit {0}) =
        λ f p. record { act = repair env f p; keeps = repair-Keeps f p } in
      (test_end {self = self} (ltb 2 (length s.connected_peers))
        (run
          (lifted (relocate freed pred_i) then λ pred.
            test first (peer_kept 1 then λ next_node. mend (some next_node) pred) (mend none pred))
          s h)
        (stop tt s h)).ends

  cut_out-Keeps : (first : Bool) (id : ℤ) (pred_i : ℕ) → Keeps self (cut_out env first id pred_i)
  unfolding cut_out
  cut_out-Keeps first id pred_i =
      let m : Kept self ℕ = delete_peer_kept id then λ freed.
      record {
        act = repair_behind env first freed pred_i;
        keeps = repair_behind-Keeps first freed pred_i;
      }
      next done freed in
      m.keeps

  cut_behind-Keeps : (found : Option ℕ) → Keeps self (cut_behind env found)
  unfolding cut_behind
  cut_behind-Keeps none s h = tt
  cut_behind-Keeps (some zero) s h =
      let m : Kept self ℕ = peer_kept 1 then λ gone.
      lifted (get_last_server s.connected_peers) then λ last. record {
        act = cut_out env true gone.id last;
        keeps = cut_out-Keeps true gone.id last;
      } in
      m.keeps s h
  cut_behind-Keeps (some (suc k)) s h =
      let m : Kept self ℕ = peer_kept (suc (suc k)) then λ gone. record {
        act = cut_out env false gone.id (suc k);
        keeps = cut_out-Keeps false gone.id (suc k);
      } in
      m.keeps s h

  ring_status-Keeps : (i : ℤ) → Keeps self (ring_status env i)
  unfolding ring_status
  ring_status-Keeps i s h =
      let m : Kept self ℕ = lifted (ist_peer_server i s.connected_peers) then λ found. record {
        act = cut_behind env found;
        keeps = cut_behind-Keeps found;
      } in
      m.keeps s h

  heartbeat_loop-Keeps :
      (fuel now timeout current : ℕ) → Keeps self (heartbeat_loop env fuel now timeout current)
  unfolding heartbeat_loop
  heartbeat_loop-Keeps zero now timeout current s h = h
  heartbeat_loop-Keeps (suc fuel) now timeout current s h =
      let again : ℕ → Kept self (Unit {0}) = λ at. record {
        act = heartbeat_loop env fuel now timeout at;
        keeps = heartbeat_loop-Keeps fuel now timeout at;
      } in
      let after : ℕ → Server → Kept self (Unit {0}) = λ freed t.
        test (length t.connected_peers == current) (done tt)
          (lifted (relocate freed (suc current)) then again) in
      (given_end {self = self} (get_elem? s.connected_peers current) (stop tt s h) (λ node.
        test_end (ltb now (node.last_heartbeat + timeout)) (run (again (suc current)) s h) (
          run
            (record {
              act = ring_status env node.tcp_socket;
              keeps = ring_status-Keeps node.tcp_socket;
            }
              then λ freed. record {
                act = get_state >>= λ t. (after freed t).act;
                keeps = λ t k. (after freed t).keeps t k;
              })
            s h))).ends

  pub check_heartbeat_timeout-Keeps :
      (timeout : ℕ) → Keeps self (check_heartbeat_timeout env timeout)
  unfolding check_heartbeat_timeout
  check_heartbeat_timeout-Keeps timeout s h =
      heartbeat_loop-Keeps (length s.connected_peers) (env.time s.trace) timeout 1 s h

  pub check_leader_timeout-Keeps : (timeout : ℕ) → Keeps self (check_leader_timeout env timeout)
  unfolding check_leader_timeout
  check_leader_timeout-Keeps timeout =
      let m : Kept self (Unit {0}) =
        peer_kept 0
        next (time_kept env then λ now. peer_kept 1 then λ leader.
            test (ltb now (leader.last_heartbeat + timeout)) (done tt)
              (record { act = send_ele_msg env; keeps = send_ele_msg-Keeps self env })) in
      m.keeps

  pub handle_disconnection-Keeps :
      (i udp mc ltcp successor : ℤ) → Keeps self (handle_disconnection env i udp mc ltcp successor)
  unfolding handle_disconnection
  handle_disconnection-Keeps i udp mc ltcp successor s h =
      let m : Kept self (Unit {0}) = peer_kept 0 then λ head.
      test ((i ==ℤ successor) && not (head.leader ==ℤ pos 1))
        (peer_kept 2 then λ gone. delete_peer_kept gone.id next done tt)
        (lifted (ist_peer_server i s.connected_peers) then λ pred.
          given pred
            (record {
              act = remove_client_from_list i;
              keeps = remove_client_from_list-Keeps self i;
            })
            (λ at. done tt)) in
      (test_end {self = self} (i ==ℤ udp) (stop tt s h)
        (test_end (i ==ℤ mc) (stop tt s h) (test_end (i ==ℤ ltcp) (stop tt s h) (run m s h)))).ends
