-- ===== src/Disconnection/Tests.antt =====
-- Failures on concrete rings.
use ds_project.Base.{◌+◌, ◌++◌, ◌≡◌, refl, [], ◌∷◌, ok, pos, arith}
use ds_project.Text.{Bytes, codes, print, print_int}
use ds_project.Frame.{filled_with_zero, sprintf_into, overlay, filled_with_x, pad_message}
use ds_project.Server.Examples.{calm, node, leader_node, start}
use ds_project.Election.{vote_message}
use ds_project.Election.Start.{started}
use ds_project.Disconnection.Fuel.{check_heartbeat_timeout-more}
use ds_project.Disconnection.{
  check_heartbeat_timeout, heartbeat_loop, check_leader_timeout, update_message, ring_status,
}
use ds_project.Disconnection.Ring.{with_peers, told}
use ds_project.Disconnection.Leader.{check_leader_timeout-on_ring}
use ds_project.Disconnection.Closes.{ring_status_lem}

abbrev update_buffer : Bytes
update_buffer = overlay (codes "UPDATE_FROM_LEADER:10.0.0.7:2:4040\n\n") filled_with_x

update_fits : pad_message (update_message (node (pos 2))) ≡ ok update_buffer
unfolding pad_message print print_int
update_fits = refl

-- The last of three peers is gone: the second is told that the first comes next.
ring_status_example :
    ring_status calm
      (pos 9)
      (with_peers (leader_node ∷ node (pos 2) ∷ node (pos 5) ∷ node (pos 9) ∷ []) start)
    ≡ ok (
      3,
      told
          (pos 5)
          update_buffer
          (with_peers (leader_node ∷ node (pos 2) ∷ node (pos 5) ∷ []) start),
    )
ring_status_example =
    ring_status_lem calm start leader_node (node (pos 9)) (node (pos 2) ∷ node (pos 5) ∷ []) []
      (node (pos 2)) (node (pos 5) ∷ []) update_buffer refl (cc, (cc, tt)) (cc, (cc, tt)) refl
      (omega arith) update_fits refl

abbrev vote_buffer : Bytes
vote_buffer = overlay (codes "ELECTION:VOTE:4\n\n" ++ 0 ∷ []) filled_with_zero

vote_fits : sprintf_into filled_with_zero (vote_message (pos 4)) ≡ ok vote_buffer
unfolding sprintf_into print print_int
vote_fits = refl

-- The heartbeat is 40 seconds old.
check_leader_timeout-on_ring_example :
    check_leader_timeout calm 4 (with_peers (node (pos 4) ∷ leader_node ∷ node (pos 7) ∷ []) start)
    ≡ ok (
      tt,
      started calm start
          (node (pos 7))
          vote_buffer
          (with_peers (node (pos 4) ∷ leader_node ∷ node (pos 7) ∷ []) start),
    )
check_leader_timeout-on_ring_example =
    check_leader_timeout-on_ring calm start (node (pos 4)) leader_node (node (pos 7)) [] 4
      vote_buffer vote_fits

-- The heartbeats of all three peers are 40 seconds old.
check_heartbeat_timeout-more_example :
    check_heartbeat_timeout calm 8
      (with_peers (leader_node ∷ node (pos 2) ∷ node (pos 5) ∷ node (pos 9) ∷ []) start)
    ≡ heartbeat_loop calm
        (3 + 4)
        100
        8
        1
        (with_peers (leader_node ∷ node (pos 2) ∷ node (pos 5) ∷ node (pos 9) ∷ []) start)
check_heartbeat_timeout-more_example =
    check_heartbeat_timeout-more calm 8 3
      (with_peers (leader_node ∷ node (pos 2) ∷ node (pos 5) ∷ node (pos 9) ∷ []) start)
