-- ===== src/Election/Tests.antt =====
-- The election on a concrete ring.
use ds_project.Base.{◌≡◌, refl, ◌&&◌, [], ◌∷◌, ◌++◌, ok, pos, negsuc, ltb_ℤ, ◌==ℤ◌, if◌then◌else◌}
use ds_project.Text.{Bytes, codes, print, print_int}
use ds_project.Frame.{overlay, filled_with_zero, sprintf_into}
use ds_project.Server.{Server, sent}
use ds_project.Server.Examples.{calm, node, start}
use ds_project.Election.{lcr_election, vote_message, leader_message}
use ds_project.Election.Network.{vote_reply}
use ds_project.Election.Network.Code.{Replies, lcr_election-vote_reply}
use ds_project.Election.Vote.{on_ring, vote_passed, vote_won}

abbrev ring : Server
ring = on_ring (node (pos 4)) (node (pos 9)) (node (pos 7)) [] start

abbrev vote_buffer : Bytes
vote_buffer = overlay (codes "ELECTION:VOTE:6\n\n" ++ 0 ∷ []) filled_with_zero

vote_fits : sprintf_into filled_with_zero (vote_message (pos 6)) ≡ ok vote_buffer
unfolding sprintf_into print print_int
vote_fits = refl

vote_passed_example : lcr_election calm (codes "VOTE") (pos 6) ring ≡ (
    if ltb_ℤ (pos 6) (pos 4) && (start.participant ==ℤ pos 1)
    then ok (pos 0, ring)
    else ok (
      if calm.send [] (pos 7) vote_buffer ==ℤ negsuc 0 then negsuc 0 else pos 0,
      record ring {
        participant = if ltb_ℤ (pos 6) (pos 4) then pos 1 else start.participant;
        send_buf = vote_buffer;
        trace = sent (pos 7) vote_buffer ∷ [];
      },
    ))
vote_passed_example =
    vote_passed calm start (node (pos 4)) (node (pos 9)) (node (pos 7)) [] (pos 6) vote_buffer refl
      vote_fits

abbrev leader_buffer : Bytes
leader_buffer = overlay (codes "ELECTION:LEADER:4\n\n" ++ 0 ∷ []) filled_with_zero

leader_fits : sprintf_into filled_with_zero (leader_message (pos 4)) ≡ ok leader_buffer
unfolding sprintf_into print print_int
leader_fits = refl

vote_won_example :
    lcr_election calm (codes "VOTE") (pos 4) ring
    ≡ ok (
      pos 4,
      record start {
        connected_peers = record (node (pos 4)) { leader = pos 1 } ∷ node (pos 7) ∷ [];
        participant = pos 1;
        send_buf = leader_buffer;
        trace = sent (pos 7) leader_buffer ∷ [];
      },
    )
vote_won_example =
    vote_won calm start (node (pos 4)) (node (pos 9)) (node (pos 7)) [] leader_buffer refl
      leader_fits

abbrev own_buffer : Bytes
own_buffer = overlay (codes "ELECTION:VOTE:4\n\n" ++ 0 ∷ []) filled_with_zero

own_fits : sprintf_into filled_with_zero (vote_message (pos 4)) ≡ ok own_buffer
unfolding sprintf_into print print_int
own_fits = refl

lcr_election-vote_reply_example :
    Replies calm start
      (node (pos 4))
      (node (pos 9))
      (node (pos 7))
      []
      (pos 6)
      vote_buffer
      (vote_reply (pos 4) (start.participant ==ℤ pos 1) (pos 6))
unfolding vote_reply
lcr_election-vote_reply_example =
    lcr_election-vote_reply calm start (node (pos 4)) (node (pos 9)) (node (pos 7)) [] (pos 6)
      vote_buffer own_buffer refl own_fits vote_fits
