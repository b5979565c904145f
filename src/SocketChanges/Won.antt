-- ===== src/SocketChanges/Won.antt =====
-- A server whose own vote comes back.
use ds_project.Base.{
  ◌≡◌, ◌∙◌, refl, true, false, List, ◌∷◌, ok, pos, negsuc, ◌==ℤ◌, ==ℤ_refl, if◌then◌else◌,
  error_return, is_valid_socket,
}
use ds_project.Text.{Bytes, codes}
use ds_project.Frame.{sprintf_into, filled_with_zero}
use ds_project.Peers.{ServerInfo}
use ds_project.Peers.Delete.{delete_server-second}
use ds_project.Election.{lcr_election, leader_found, leader_message, unlink}
use ds_project.Election.Vote.{on_ring, vote_won}
use ds_project.Server.{Env, Server, ◌>>=◌, ◌>>◌, return, peer, sent, closed, without_fd, bind_ok}
use ds_project.SocketChanges.{handle_election, leader_changed, election_won, drop_successor}

module _ (env : Env) (s : Server) (self old successor : ServerInfo) (rest : List ServerInfo)
    (buffer : Bytes) where
  -- The state once the vote has been counted, and the one in the end.
  abbrev elected : Server
  elected = record s {
    connected_peers = record self { leader = pos 1 } ∷ successor ∷ rest;
    participant = pos 1;
    send_buf = buffer;
    trace = sent successor.tcp_socket buffer ∷ s.trace;
  }

  abbrev pub in_charge : Server
  in_charge = record s {
    connected_peers = record self { leader = pos 1 } ∷ rest;
    participant = pos 1;
    send_buf = buffer;
    master = without_fd successor.tcp_socket (without_fd s.successor_socket s.master);
    successor_socket = error_return;
    trace =
        closed successor.tcp_socket
        ∷ closed s.successor_socket
        ∷ sent successor.tcp_socket buffer
        ∷ s.trace;
  }

  election_won_lem :
      is_valid_socket s.successor_socket ≡ true → election_won env elected ≡ ok (tt, in_charge)
  unfolding election_won drop_successor
  election_won_lem valid =
      rw
        (
          election_won,
          ◌>>◌,
          ◌>>=◌,
          drop_successor,
          valid,
          unlink,
          delete_server-second (record self { leader = pos 1 }) successor rest,
        )
        refl

  counted :
      (self.leader ==ℤ pos 1) ≡ false
      → sprintf_into filled_with_zero (leader_message self.id) ≡ ok buffer
      → (env.send s.trace successor.tcp_socket buffer ==ℤ negsuc 0) ≡ false
      → lcr_election env (codes "VOTE") self.id (on_ring self old successor rest s)
        ≡ ok (self.id, elected)
  counted follower fits sends =
      vote_won env s self old successor rest buffer follower fits ∙ rw sends refl

  -- A server on a ring of at least three, no leader yet, whose own vote comes back tells its successor
  -- that it leads, and is then the leader: the old leader and the successor are unlinked,
  -- the connection to the successor is given up, and no message is expected on it. Of the two `close`
  -- calls one is for the socket that the state keeps for the successor, the other for the one in the
  -- successor's node. The message must be sent, the socket of the state be valid, the ID not be 1, which
  -- is the code of another outcome, and the text hold no announcement.
  pub handle_election-vote_won :
      (read : Bytes)
      → (self.leader ==ℤ pos 1) ≡ false
      → sprintf_into filled_with_zero (leader_message self.id) ≡ ok buffer
      → (env.send s.trace successor.tcp_socket buffer ==ℤ negsuc 0) ≡ false
      → is_valid_socket s.successor_socket ≡ true
      → (self.id ==ℤ pos 1) ≡ false
      → leader_found read ≡ pos 0
      → handle_election env read (codes "VOTE") self.id (on_ring self old successor rest s)
        ≡ ok (tt, in_charge)
  unfolding handle_election
  handle_election-vote_won read follower fits sends valid other plain =
      rw (handle_election, plain)
        (bind_ok (lcr_election env (codes "VOTE") self.id)
            (λ result. peer 0 >>= λ head.
              if result ==ℤ pos 1
              then leader_changed env
              else if head.id ==ℤ result
              then election_won env
              else return tt)
            {s = on_ring self old successor rest s} {t = elected} (counted follower fits sends)
          ∙ rw (other, ==ℤ_refl self.id) (election_won_lem valid))
