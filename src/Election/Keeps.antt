-- ===== src/Election/Keeps.antt =====
-- The election keeps what a server keeps.
use ds_project.Base.{refl, ℤ, pos, negsuc, ltb_ℤ, ◌==ℤ◌, if◌then◌else◌, get_elem?}
use ds_project.Text.{Bytes, codes}
use ds_project.Peers.{ServerInfo, delete_server}
use ds_project.Server.{Env, update_peer}
use ds_project.Kept.{Kept, Keeps, run, stop, ◌then◌, ◌next◌, test, test_end, given, done}
use ds_project.Kept.Heads.{headed-update_peer}
use ds_project.Kept.Parts.{
  headed-update_behind, headed-delete_server, Ends-deleted, set_peers_kept, peer_kept,
  set_participant_kept, print_kept, send_kept,
}
use ds_project.Election.{
  same_bytes, vote_message, leader_message, alone, unlink, forward, greater_vote, smaller_vote,
  own_vote, leader_announced, lcr_election, send_ele_msg,
}

module _ {self : ServerInfo} where
  abbrev pub unlink_kept : ℤ → Kept self (Unit {0})
  unlink_kept id = record {
    act = unlink id;
    keeps = λ s h.
        Ends-deleted self (delete_server s.connected_peers id) s h
          (λ r e. headed-delete_server self s.connected_peers id r e h.2);
  }

  module _ (env : Env) where
    forward_kept : Bytes → Kept self ℤ
    unfolding forward
    forward_kept text =
        print_kept text next (peer_kept 2 then λ successor. send_kept env successor.tcp_socket)

module _ (self : ServerInfo) (env : Env) where
  greater_vote-Keeps : (pred_id : ℤ) → Keeps self (greater_vote env pred_id)
  unfolding greater_vote forward_kept
  greater_vote-Keeps pred_id s h =
      (test_end {self = self} (alone s) (stop (pos 0) s h) (
        run
          (forward_kept env (vote_message pred_id) then λ sent.
            done (if sent ==ℤ negsuc 0 then negsuc 0 else pos 0))
          s h)).ends

  smaller_vote-Keeps : (p : ServerInfo) → Keeps self (smaller_vote env p)
  unfolding smaller_vote forward_kept
  smaller_vote-Keeps p s h =
      (test_end {self = self} (alone s) (stop (pos 0) s h) (
        test_end (s.participant ==ℤ pos 1) (stop (pos 0) s h) (
          run
            (set_participant_kept (pos 1)
              next (forward_kept env (vote_message p.id) then λ sent.
                  done (if sent ==ℤ negsuc 0 then negsuc 0 else pos 0)))
            s h))).ends

  own_vote-Keeps : (p : ServerInfo) (pred_id : ℤ) → Keeps self (own_vote env p pred_id)
  unfolding own_vote forward_kept
  own_vote-Keeps p pred_id s h =
      let headed =
        headed-update_peer self 0 (λ p. record p { leader = pos 1 }) s.connected_peers
          (λ p. (refl, refl, refl)) h.2 in
      (test_end {self = self} (p.leader ==ℤ pos 1) (stop (pos 0) s h) (
        run
          (set_participant_kept (pos 1)
            next (set_peers_kept
                  (update_peer 0 (λ p. record p { leader = pos 1 }) s.connected_peers) headed
                next (forward_kept env (leader_message p.id) then λ sent.
                    test (sent ==ℤ negsuc 0) (done (negsuc 0))
                      (peer_kept 1 then λ old. unlink_kept old.id next done pred_id))))
          s h)).ends

  leader_announced-Keeps :
      (p : ServerInfo) (pred_id : ℤ) → Keeps self (leader_announced env p pred_id)
  unfolding leader_announced forward_kept
  leader_announced-Keeps p pred_id s h =
      let renamed = λ (q : ServerInfo). record q { id = pred_id; leader = pos 1 } in
      (test_end {self = self} (pred_id ==ℤ p.id)
        (run (set_participant_kept (pos 0) next done (pos 0)) s h)
        (test_end (alone s) (stop (pos 0) s h) (
          run
            (set_participant_kept (pos 0)
              next (set_peers_kept (update_peer 1 renamed s.connected_peers)
                    (headed-update_behind self 0 renamed s.connected_peers h.2)
                  next (forward_kept env (leader_message pred_id) then λ sent.
                      done (if sent ==ℤ negsuc 0 then pos 0 else pos 1))))
            s h))).ends

  pub lcr_election-Keeps :
      (keyword : Bytes) (pred_id : ℤ) → Keeps self (lcr_election env keyword pred_id)
  unfolding lcr_election
  lcr_election-Keeps keyword pred_id =
      let vote = same_bytes keyword (codes "VOTE") in
      let announcement = same_bytes keyword (codes "LEADER") in
      let m : Kept self ℤ = peer_kept 0 then λ p.
      test vote
        (test (ltb_ℤ p.id pred_id)
          (record { act = greater_vote env pred_id; keeps = greater_vote-Keeps pred_id })
          (test (ltb_ℤ pred_id p.id)
            (record { act = smaller_vote env p; keeps = smaller_vote-Keeps p })
            (record { act = own_vote env p pred_id; keeps = own_vote-Keeps p pred_id })))
        (test announcement
          (record {
            act = leader_announced env p pred_id;
            keeps = leader_announced-Keeps p pred_id;
          })
          (done (pos 0))) in
      m.keeps

  pub send_ele_msg-Keeps : Keeps self (send_ele_msg env)
  unfolding send_ele_msg
  send_ele_msg-Keeps s h =
      let headed =
        headed-update_peer self 0 (λ p. record p { leader = pos 1 }) s.connected_peers
          (λ p. (refl, refl, refl)) h.2 in
      let m : Kept self (Unit {0}) = peer_kept 0 then λ me. peer_kept 1 then λ old.
      given (get_elem? s.connected_peers 2)
        (set_peers_kept (update_peer 0 (λ p. record p { leader = pos 1 }) s.connected_peers) headed
          next unlink_kept old.id)
        (λ successor.
          print_kept (vote_message me.id)
          next test (s.participant ==ℤ pos 1) (done tt) (
              send_kept env successor.tcp_socket then λ sent.
              test (sent ==ℤ negsuc 0) (done tt) (set_participant_kept (pos 1)))) in
      m.keeps s h
