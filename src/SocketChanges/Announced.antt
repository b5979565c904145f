-- ===== src/SocketChanges/Announced.antt =====
-- A server that is told who has won the election: `handle_socket_change` of chat-c/socket_changes.c
-- with `lcr_election` of chat-c/election_lcr.c.
use ds_project.Base.{
  ◌≡◌, ◌∙◌, refl, inl, inr, true, false, Bool, Bool-cases, List, ◌∷◌, ◌++◌, append_assoc,
  append-nil, ok, ℤ, pos, negsuc, ◌==ℤ◌, if◌then◌else◌, error_return, is_valid_socket, all-All, not,
  ◌==◌, arith,
}
use ds_project.Text.{Bytes, codes, print}
use ds_project.Frame.RoundTrip.{end_mark}
use ds_project.Frame.{sprintf_into, filled_with_zero, pad_message}
use ds_project.Peers.{ServerInfo}
use ds_project.Peers.Delete.{delete_server-second}
use ds_project.Election.{lcr_election, leader_message, unlink}
use ds_project.Election.Vote.{on_ring}
use ds_project.Election.Announcement.{
  leader_read, leader_found-leader_read, told, lcr_election-told, lcr_election-own,
}
use ds_project.Server.{
  Env, Server, Event, ◌>>=◌, ◌>>◌, return, peer, sent, closed, multicast, without_fd, bind_ok, M,
}
use ds_project.SocketChanges.{
  election, handle_election, handle_message, parse, leader_changed, election_won, drop_successor,
  who_is_leader_text,
}
use ds_project.SocketChanges.Understood.{parse-election}

-- What follows the answer of `lcr_election`.
abbrev follow_up : Env → ℤ → M (Unit {0})
follow_up env result = peer 0 >>= λ head.
    if result ==ℤ pos 1
    then leader_changed env
    else if head.id ==ℤ result
    then election_won env
    else return tt

-- Whatever its number, the announcement is taken for one.
handle_election-leader_read :
    (env : Env) (id : ℤ) (s : Server)
    → handle_election env (leader_read id) (codes "LEADER") id s
      ≡ (lcr_election env (codes "LEADER") id >>= follow_up env) s
unfolding handle_election
handle_election-leader_read env id s =
    rw (handle_election, leader_found-leader_read id)
      (elim (Bool-cases (id ==ℤ pos 0)) [ inl e ↦ rw e refl | inr e ↦ rw e refl ])

-- The announcement has been passed on, and the connection to the successor is given up.
abbrev pub hung_up : Server → ServerInfo → Bytes → List Event
hung_up s successor passed =
    closed s.successor_socket
    ∷ closed successor.tcp_socket
    ∷ sent successor.tcp_socket passed
    ∷ s.trace

module _ (env : Env) (s : Server) (self old successor : ServerInfo) (rest : List ServerInfo)
    (id : ℤ) (passed asked : Bytes) where
  -- The leader and the successor are forgotten, and the leader is asked for.
  abbrev pub stood_down : Server
  stood_down = record s {
    connected_peers = self ∷ rest;
    participant = pos 0;
    send_buf = asked;
    master = without_fd s.successor_socket (without_fd successor.tcp_socket s.master);
    successor_socket = error_return;
    trace = multicast s.mc_socket asked ∷ hung_up s successor passed;
  }

  leader_changed_lem :
      is_valid_socket s.successor_socket ≡ true
      → pad_message (who_is_leader_text self) ≡ ok asked
      → (env.getaddrinfo (hung_up s successor passed) (codes "239.255.255.250") (pos 12345)
          ==ℤ pos 0)
        ≡ true
      → leader_changed env (told env s self old successor rest id passed) ≡ ok (tt, stood_down)
  unfolding leader_changed drop_successor
  leader_changed_lem valid fits found =
      rw
        (
          leader_changed,
          ◌>>◌,
          ◌>>=◌,
          unlink,
          delete_server-second self (record old { id = id; leader = pos 1 }) (successor ∷ rest),
          delete_server-second self successor rest,
          fits,
          drop_successor,
          valid,
          found,
        )
        (elim (Bool-cases
          (env.sendto (hung_up s successor passed) s.mc_socket asked ==ℤ negsuc 0)) [
            | inl e ↦ rw e refl
            | inr e ↦ rw e refl
          ])

  after_answer :
      (self.id ==ℤ pos 0) ≡ false
      → is_valid_socket s.successor_socket ≡ true
      → pad_message (who_is_leader_text self) ≡ ok asked
      → (env.getaddrinfo (hung_up s successor passed) (codes "239.255.255.250") (pos 12345)
          ==ℤ pos 0)
        ≡ true
      → let lost = env.send s.trace successor.tcp_socket passed ==ℤ negsuc 0 in
        let t = told env s self old successor rest id passed in
        follow_up env (if lost then pos 0 else pos 1) t ≡ ok (tt, if lost then t else stood_down)
  after_answer numbered valid fits found =
      elim (Bool-cases (env.send s.trace successor.tcp_socket passed ==ℤ negsuc 0)) [
        | inl e ↦ rw (e, numbered) refl
        | inr e ↦ rw e (leader_changed_lem valid fits found)
      ]

parse-leader_read : (b : Bool) (id : ℤ) → parse b (leader_read id) ≡ election (codes "LEADER") id
unfolding print
parse-leader_read b id =
    parse-election b (codes "LEADER") id
      ((λ e. cc), omega arith, all-All (λ c. not (c == b':')) (codes "LEADER") refl, refl)

leader_message_parts : (id : ℤ) → leader_message id ≡ leader_read id ++ end_mark
unfolding print
leader_message_parts id = simp (append_assoc, append-nil)

-- A server on a ring of at least three that receives the announcement of another server, a text
-- that comes without its end mark, takes part no more and passes the same announcement on to its
-- successor. If that cannot be sent, the node of its old leader has the ID of the new one from
-- then on, and nothing else happens; otherwise the old leader and the successor are taken out of
-- its list, both descriptors of the successor are closed, no message is expected on them, and the
-- group of the servers is asked who leads. When the announcement of a server comes back to it, it
-- takes part no more, whatever its list, and sends nothing. The server's ID is not 0, the socket
-- of its state is valid, the texts fit the buffer, and the address of the group can be resolved.
pub leader_read-handled :
    (env : Env) (s : Server) (self old successor : ServerInfo) (rest peers : List ServerInfo)
    (id : ℤ) (passed asked : Bytes) (i : ℤ) (b : Bool)
    → (id ==ℤ self.id) ≡ false
    → (self.id ==ℤ pos 0) ≡ false
    → is_valid_socket s.successor_socket ≡ true
    → sprintf_into filled_with_zero (leader_message id) ≡ ok passed
    → pad_message (who_is_leader_text self) ≡ ok asked
    → (env.getaddrinfo (hung_up s successor passed) (codes "239.255.255.250") (pos 12345) ==ℤ pos 0)
      ≡ true
    → (leader_message id ≡ leader_read id ++ end_mark)
      × (handle_message env i
            (leader_read id)
            (parse b (leader_read id))
            (on_ring self old successor rest s)
          ≡ ok (
            tt,
            if env.send s.trace successor.tcp_socket passed ==ℤ negsuc 0
                then told env s self old successor rest id passed
                else stood_down env s self old successor rest id passed asked,
          ))
      × (handle_message env i
            (leader_read self.id)
            (parse b (leader_read self.id))
            (record s { connected_peers = self ∷ peers })
          ≡ ok (tt, record s { connected_peers = self ∷ peers; participant = pos 0 }))
unfolding handle_message
leader_read-handled env s self old successor rest peers id passed asked i b other numbered valid
      fits asks found =
    (
      leader_message_parts id,
      rw (parse-leader_read b id) (
          handle_election-leader_read env id (on_ring self old successor rest s)
          ∙ bind_ok (lcr_election env (codes "LEADER") id) (follow_up env)
              (lcr_election-told env s self old successor rest id passed other fits)
          ∙ after_answer env s self old successor rest id passed asked numbered valid asks found),
      rw (parse-leader_read b self.id) (
          handle_election-leader_read env self.id (record s { connected_peers = self ∷ peers })
          ∙ bind_ok (lcr_election env (codes "LEADER") self.id) (follow_up env)
              (lcr_election-own env s self peers)
          ∙ rw numbered refl),
    )
