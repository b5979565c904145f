-- ===== src/SocketChanges/Tests.antt =====
-- Messages on the sockets of concrete servers.
use ds_project.Base.{◌≡◌, refl, [], ◌∷◌, ◌++◌, some, ok, err, out_of_range, pos, true, false, arith}
use ds_project.Text.{Bytes, codes, print, print_int}
use ds_project.Frame.{overlay, filled_with_zero, filled_with_x, sprintf_into, pad_message}
use ds_project.Frame.RoundTrip.{is_text-IsText, is_plain-IsPlain, end_mark}
use ds_project.Peers.{server_info_exist}
use ds_project.Election.{vote_message, leader_message, leader_found}
use ds_project.Election.Vote.{on_ring}
use ds_project.SocketChanges.Won.{in_charge, handle_election-vote_won}
use ds_project.Server.{Server, closed, sent}
use ds_project.Server.Examples.{calm, connects, node, leader_node, start}
use ds_project.Disconnection.{update_text}
use ds_project.Joining.{know_text}
use ds_project.ServerLoop.{heartbeat_text}
use ds_project.SocketChanges.{
  handle_election, handle_message, parse, who_is_leader_text, handle_socket_change,
  update_from_leader, election, know_new_leader, heartbeat,
}
use ds_project.SocketChanges.Understood.{IsAddress, is_address-IsAddress, IsReadAs, texts-IsReadAs}
use ds_project.SocketChanges.Announced.{stood_down, leader_read-handled}
use ds_project.Election.Announcement.{leader_read}
use ds_project.SocketChanges.Whole.{handle_socket_change_whole}
use ds_project.SocketChanges.Successor.{with_successor, update_text-handled}

ten-IsAddress : IsAddress (codes "10.0.0.7")
ten-IsAddress = is_address-IsAddress (codes "10.0.0.7") refl

texts-IsReadAs_example :
    IsReadAs
      (update_text (codes "10.0.0.7") (pos 7) (pos 4040))
      true
      (update_from_leader (codes "10.0.0.7") (pos 7) (pos 4040))
    × IsReadAs (vote_message (pos 7)) false (election (codes "VOTE") (pos 7))
    × IsReadAs (leader_message (pos 7)) false (election (codes "LEADER") (pos 7))
    × IsReadAs (know_text leader_node (pos 7) (codes "10.0.0.7") (pos 4040)) false (
        know_new_leader (pos 1) (codes "10.0.0.7") (pos 4040) (pos 7) (codes "10.0.0.7") (pos 4040))
    × IsReadAs (heartbeat_text (pos 7)) false (heartbeat (pos 7))
unfolding print print_int
texts-IsReadAs_example =
    texts-IsReadAs false leader_node (codes "10.0.0.7") (pos 7) (pos 4040) ten-IsAddress
      ten-IsAddress (omega arith)

handle_socket_change_whole_example :
    ((padded : Bytes) × (pad_message (codes "HEARTBEAT:2" ++ end_mark) ≡ ok padded)
      × (handle_socket_change calm (pos 5) (some padded) start ≡ err out_of_range))
    × ((printed : Bytes) × (sprintf_into filled_with_zero (codes "HEARTBEAT:2" ++ end_mark)
          ≡ ok printed)
        × (handle_socket_change calm (pos 5) (some printed) start ≡ err out_of_range))
handle_socket_change_whole_example =
    handle_socket_change_whole calm start (pos 5) (codes "HEARTBEAT:2") filled_with_zero
      (is_text-IsText (codes "HEARTBEAT:2") refl) (omega arith) refl refl

-- The leader's socket is 4, and the old successor's 6.
abbrev member : Server
member = record start { ltcp_socket = pos 4; successor_socket = pos 6; master = pos 6 ∷ pos 4 ∷ [] }

update_text-handled_example :
    handle_socket_change calm
      (pos 4)
      (some (update_text (codes "10.0.0.7") (pos 7) (pos 4040) ++ codes "xx"))
      (record member { connected_peers = node (pos 5) ∷ leader_node ∷ node (pos 6) ∷ [] })
    ≡ ok (
      tt,
      with_successor calm member
          (node (pos 5))
          leader_node
          (pos 7)
          (codes "10.0.0.7")
          (pos 4040)
          (pos 9),
    )
unfolding print print_int server_info_exist
update_text-handled_example =
    update_text-handled calm member (node (pos 5)) leader_node (node (pos 6)) (pos 7) (pos 4040)
      (pos 9) (codes "10.0.0.7") (codes "xx") connects (λ e. cc) refl ten-IsAddress
      (is_plain-IsPlain (codes "10.0.0.7") refl) (omega arith) refl

abbrev leader_buffer : Bytes
leader_buffer = overlay (codes "ELECTION:LEADER:4\n\n" ++ 0 ∷ []) filled_with_zero

leader_fits : sprintf_into filled_with_zero (leader_message (pos 4)) ≡ ok leader_buffer
unfolding sprintf_into print print_int
leader_fits = refl

-- The socket of the state, 6, and the one in the successor's node are one.
handle_election-vote_won_example :
    handle_election calm
      (codes "ELECTION:VOTE:4")
      (codes "VOTE")
      (pos 4)
      (on_ring (node (pos 4)) leader_node (node (pos 6)) [] member)
    ≡ ok (tt, in_charge calm member (node (pos 4)) leader_node (node (pos 6)) [] leader_buffer)
unfolding leader_found
handle_election-vote_won_example =
    handle_election-vote_won calm member (node (pos 4)) leader_node (node (pos 6)) [] leader_buffer
      (codes "ELECTION:VOTE:4") refl leader_fits refl refl refl refl

-- One descriptor is closed twice.
in_charge_test :
    (in_charge calm member (node (pos 4)) leader_node (node (pos 6)) [] leader_buffer).trace
    ≡ closed (pos 6) ∷ closed (pos 6) ∷ sent (pos 6) leader_buffer ∷ []
in_charge_test = refl

abbrev announced_buffer : Bytes
announced_buffer = overlay (codes "ELECTION:LEADER:9\n\n" ++ 0 ∷ []) filled_with_zero

announced_fits : sprintf_into filled_with_zero (leader_message (pos 9)) ≡ ok announced_buffer
unfolding sprintf_into print print_int
announced_fits = refl

abbrev asked_buffer : Bytes
asked_buffer = overlay (codes "WHO_IS_LEADER:5:4040\n\n") filled_with_x

asked_fits : pad_message (who_is_leader_text (node (pos 5))) ≡ ok asked_buffer
unfolding pad_message print print_int
asked_fits = refl

-- Server 5 hears from its predecessor that 9 leads; server 5 itself could be alone.
leader_read-handled_example :
    let text = leader_read (pos 9) in
    let own = leader_read (pos 5) in
    (leader_message (pos 9) ≡ text ++ end_mark)
    × (handle_message calm
          (pos 8)
          text
          (parse false text)
          (on_ring (node (pos 5)) leader_node (node (pos 6)) [] member)
        ≡ ok (
          tt,
          stood_down calm member
              (node (pos 5))
              leader_node
              (node (pos 6))
              []
              (pos 9)
              announced_buffer
              asked_buffer,
        ))
    × (handle_message calm
          (pos 8)
          own
          (parse false own)
          (record member { connected_peers = node (pos 5) ∷ [] })
        ≡ ok (tt, record member { connected_peers = node (pos 5) ∷ []; participant = pos 0 }))
leader_read-handled_example =
    leader_read-handled calm member (node (pos 5)) leader_node (node (pos 6)) [] [] (pos 9)
      announced_buffer asked_buffer (pos 8) false refl refl refl announced_fits asked_fits refl
