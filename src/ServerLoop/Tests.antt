-- ===== src/ServerLoop/Tests.antt =====
-- The server's loop on concrete servers.
use ds_project.Base.{
  ◌≡◌, refl, ◌+◌, true, false, [], ◌∷◌, ◌++◌, none, some, ok, pos, leb, if◌then◌else◌, arith,
}
use ds_project.Text.{Bytes, codes, print, print_int}
use ds_project.Frame.{overlay, filled_with_zero, sprintf_into}
use ds_project.Election.{vote_message}
use ds_project.Election.Vote.{on_ring}
use ds_project.Disconnection.Ring.{with_peers}
use ds_project.Server.{Env, Server, sent}
use ds_project.Server.Examples.{calm, node, leader_node, start}
use ds_project.Kept.{Ends}
use ds_project.ServerLoop.{
  Ready, exit_keyword, heartbeat_timeout, heartbeat_text, heartbeats, send_heartbeats, main_loop,
}
use ds_project.ServerLoop.Keeps.{main_loop_keeps}
use ds_project.ServerLoop.Heartbeats.{sent_to_all, heartbeats-sent_to_all}
use ds_project.ServerLoop.Late.{send_heartbeats-late}

exit_keyword_test : exit_keyword (some (codes "exit\n")) ≡ true
unfolding exit_keyword
exit_keyword_test = refl

exit_keyword_longer : exit_keyword (some (codes "exit now\n")) ≡ false
unfolding exit_keyword
exit_keyword_longer = refl

-- A connection on the listening socket 3, then a datagram without a byte on socket 4.
abbrev arrivals : Ready
arrivals = record {
  fd = pos 4;
  accepted = pos 8;
  ip = some (codes "10.0.0.9");
  datagram = none;
  received = some (codes "CLIENT:7:1:GET_INDEX\n\n");
}

main_loop_keeps_example :
    Ends
      (node (pos 1))
      (main_loop calm (pos 4) 0 ((none, arrivals ∷ []) ∷ (some none, arrivals ∷ []) ∷ []) start)
main_loop_keeps_example =
    main_loop_keeps (node (pos 1)) calm (pos 4) 0
      ((none, arrivals ∷ []) ∷ (some none, arrivals ∷ []) ∷ []) start
      (refl, omega arith, (refl, refl, refl))

-- The clock stands at 63, three seconds after the last heartbeat.
abbrev early : Env
early = record calm { time = λ trace. 63 }

abbrev beat : Bytes
beat = overlay (codes "HEARTBEAT:5\n\n" ++ 0 ∷ []) filled_with_zero

beat_fits : sprintf_into filled_with_zero (heartbeat_text (pos 5)) ≡ ok beat
unfolding sprintf_into print print_int
beat_fits = refl

heartbeats-sent_to_all_example :
    heartbeats early 50 63 (with_peers (node (pos 5) ∷ leader_node ∷ node (pos 7) ∷ []) start) ≡ (
      if leb (50 + heartbeat_timeout) 63
      then ok (
        63,
        record (with_peers
            (node (pos 5) ∷ leader_node ∷ node (pos 7) ∷ [])
            (record start { send_buf = beat })) {
              trace = sent_to_all beat (leader_node ∷ node (pos 7) ∷ []) [];
            },
      )
      else ok (
        50,
        with_peers
            (node (pos 5) ∷ leader_node ∷ node (pos 7) ∷ [])
            (record start { send_buf = beat }),
      ))
heartbeats-sent_to_all_example =
    heartbeats-sent_to_all early (node (pos 5)) leader_node (node (pos 7) ∷ []) (λ t. refl) start 50
      63 beat refl beat_fits

abbrev vote : Bytes
vote = overlay (codes "ELECTION:VOTE:5\n\n" ++ 0 ∷ []) filled_with_zero

vote_fits : sprintf_into filled_with_zero (vote_message (pos 5)) ≡ ok vote
unfolding sprintf_into print print_int
vote_fits = refl

abbrev beating : Server
beating = record start { send_buf = beat }

-- At 100 the leader's last heartbeat is 40 seconds old.
send_heartbeats-late_example :
    send_heartbeats calm
      (leader_node ∷ node (pos 7) ∷ [])
      (on_ring (node (pos 5)) leader_node (node (pos 7)) [] beating)
    ≡ ok (
      tt,
      on_ring (node (pos 5)) leader_node (node (pos 7)) [] (record start {
        participant = pos 1;
        send_buf = vote;
        trace = sent (pos 7) vote ∷ sent (pos 7) vote ∷ sent (pos 1) beat ∷ [];
      }),
    )
send_heartbeats-late_example =
    send_heartbeats-late calm beating (node (pos 5)) leader_node (node (pos 7)) vote (λ t. refl)
      vote_fits (λ trace fd m. refl) refl
