-- ===== src/Disconnection.antt =====
-- chat-c/disconnection_handler.c: peers and leaders whose heartbeats stop, and connections that
-- close. A pointer to a node is its position in the list; when a node is freed the pointers behind
-- it move with their nodes, and a pointer to it dangles.
pub mod Ring
pub mod Closes
pub mod Leader
pub mod Keeps
pub mod Bounded
pub mod Fuel
mod Tests
use ds_project.Base.{
  ℕ, zero, suc, ◌+◌, ◌-◌, Bool, true, false, not, ◌&&◌, [], ◌∷◌, ◌++◌, Option, none, some, Result,
  ok, err, exited, null_pointer, freed_node, ℤ, pos, negsuc, ◌==ℤ◌, ◌==◌, ltb, if◌then◌else◌,
  get_elem?, length, take,
}
use ds_project.Text.{Bytes, int, word, lits, txt, num, print}
use ds_project.Frame.{buffer_size}
use ds_project.Peers.{ServerInfo, delete_server, ist_peer_server, get_last_server, find_before}
use ds_project.Server.{
  Env, M, ◌>>=◌, ◌>>◌, return, lift, get_state, peer, pad_buffer, send_buffer, time_now,
}
use ds_project.Election.{send_ele_msg}
use ds_project.Clients.{remove_client_from_list}

-- `snprintf` into 1024 bytes.
abbrev pub update_text : Bytes → ℤ → ℤ → Bytes
update_text addr id port = take 1023 (
    print
      (lits "UPDATE_FROM_LEADER:"
        ++ (word buffer_size ∷ (lits ":" ++ (int ∷ (lits ":" ++ (int ∷ lits "\n\n"))))))
      (txt addr ∷ num id ∷ num port ∷ []))

abbrev pub update_message : ServerInfo → Bytes
update_message p = update_text p.addr p.id p.port

-- Where a pointer to the node at a position stands after the node at another one is freed.
abbrev pub relocate : ℕ → ℕ → Result ℕ
relocate freed at =
    if at == freed then err freed_node else if ltb at freed then ok at else ok (at - 1)

-- `delete_server` on the list of the state, with the position of the node that it frees.
abbrev pub delete_peer : ℤ → M ℕ
delete_peer id s = elim (delete_server s.connected_peers id) [
  | err e ↦ err e
  | ok r ↦ elim s.connected_peers [
    | [] ↦ ok (0, s)
    | head ∷ next ↦ elim (find_before 0 next id) [
      | none ↦ ok (0, s)
      | some at ↦ ok (suc at, record s { connected_peers = r.0 })
    ]
  ]
]

-- The node that the message of `update_ring` names.
pub new_successor : Option ServerInfo → ℕ → M ServerInfo
new_successor (some first) pred_i s = ok (first, s)
new_successor none pred_i s = elim (get_elem? s.connected_peers (suc pred_i)) [
  | none ↦ peer 1 s
  | some next ↦ ok (next, s)
]

module _ (env : Env) where
  pub update_ring : Option ServerInfo → ℕ → M ℤ
  unfolding new_successor
  update_ring first pred_i = peer pred_i >>= λ pred. new_successor first pred_i >>= λ next.
      pad_buffer (update_message next)
      >> (send_buffer env pred.tcp_socket >>= λ sent.
          return (if sent ==ℤ negsuc 0 then negsuc 0 else pos 0))

  -- The update, whose failure exits with 1.
  pub repair : Option ServerInfo → ℕ → M (Unit {0})
  unfolding update_ring
  repair first pred_i = update_ring first pred_i >>= λ done.
      if done ==ℤ negsuc 0 then lift (err (exited 1)) else return tt

  -- What `ring_status` does once the node is gone: nothing with at most one peer left. `pred_i` is
  -- read only if there are more, so it may dangle before.
  pub repair_behind : Bool → ℕ → ℕ → M (Unit {0})
  unfolding repair
  repair_behind first freed pred_i s =
      if ltb 2 (length s.connected_peers)
      then (lift (relocate freed pred_i) >>= λ pred.
            if first then (peer 1 >>= λ next. repair (some next) pred) else repair none pred)
          s
      else ok (tt, s)

  -- The position of the freed node is returned for the pointers that the caller holds.
  pub cut_out : Bool → ℤ → ℕ → M ℕ
  unfolding repair_behind
  cut_out first id pred_i =
      delete_peer id >>= λ freed. repair_behind first freed pred_i >> return freed

  -- `ring_status` from its test `pred_i == head` on; a NULL `pred_i` is read in its second branch.
  pub cut_behind : Option ℕ → M ℕ
  unfolding cut_out
  cut_behind none s = err null_pointer
  cut_behind (some zero) s =
      (peer 1 >>= λ gone.
      lift (get_last_server s.connected_peers) >>= λ last. cut_out true gone.id last)
        s
  cut_behind (some (suc k)) s = (peer (suc (suc k)) >>= λ gone. cut_out false gone.id (suc k)) s

  pub ring_status : ℤ → M ℕ
  unfolding cut_behind
  ring_status i s = (lift (ist_peer_server i s.connected_peers) >>= cut_behind) s

  -- The loop, on fuel: `current` is a position.
  pub heartbeat_loop : ℕ → (now : ℕ) → (timeout : ℕ) → ℕ → M (Unit {0})
  heartbeat_loop zero now timeout current s = ok (tt, s)
  heartbeat_loop (suc fuel) now timeout current s = elim (get_elem? s.connected_peers current) [
    | none ↦ ok (tt, s)
    | some node ↦
        if ltb now (node.last_heartbeat + timeout)
        then heartbeat_loop fuel now timeout (suc current) s
        else (ring_status node.tcp_socket >>= λ freed. get_state >>= λ t.
              if length t.connected_peers == current
              then return tt
              else (lift (relocate freed (suc current)) >>= heartbeat_loop fuel now timeout))
            s
  ]

  pub check_heartbeat_timeout : ℕ → M (Unit {0})
  unfolding heartbeat_loop
  check_heartbeat_timeout timeout s =
      heartbeat_loop (length s.connected_peers) (env.time s.trace) timeout 1 s

  pub check_leader_timeout : ℕ → M (Unit {0})
  check_leader_timeout timeout =
      peer 0
      >> (time_now env >>= λ now. peer 1 >>= λ leader.
          if ltb now (leader.last_heartbeat + timeout) then return tt else send_ele_msg env)

  pub handle_disconnection : ℤ → ℤ → ℤ → ℤ → ℤ → M (Unit {0})
  handle_disconnection i udp_socket mc_socket ltcp_socket successor_socket s =
      if i ==ℤ udp_socket
      then ok (tt, s)
      else if i ==ℤ mc_socket
      then ok (tt, s)
      else if i ==ℤ ltcp_socket
      then ok (tt, s)
      else (peer 0 >>= λ head.
            if (i ==ℤ successor_socket) && not (head.leader ==ℤ pos 1)
            then (peer 2 >>= λ gone. delete_peer gone.id >> return tt)
            else (lift (ist_peer_server i s.connected_peers) >>= λ pred. elim pred [
              | some at ↦ return tt
              | none ↦ remove_client_from_list i
            ]))
          s
