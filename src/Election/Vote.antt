-- ===== src/Election/Vote.antt =====
-- `lcr_election` on a vote: which vote goes on round the ring, and when a server has won.
use ds_project.Base.{
  ◌≡◌, inl, inr, refl, true, false, Bool-cases, ◌&&◌, List, ◌∷◌, ok, ℤ, pos, negsuc, ltb_ℤ, ◌==ℤ◌,
  if◌then◌else◌, arith, ap, ◌∙◌,
}
use ds_project.Text.{Bytes, codes}
use ds_project.Peers.{ServerInfo}
use ds_project.Peers.Delete.{delete_server-second}
use ds_project.Frame.{sprintf_into, filled_with_zero}
use ds_project.Server.Steps.{print_buffer_lem}
use ds_project.Server.{
  Env, Server, ◌>>=◌, return, lift, set_peers, print_buffer, peer, send_buffer, ◌>>◌, sent, bind_ok,
}
use ds_project.Election.{unlink, forward, own_vote, lcr_election, vote_message, leader_message}

-- The state with the list: itself, the leader, the successor, and the others.
abbrev pub on_ring : ServerInfo → ServerInfo → ServerInfo → List ServerInfo → Server → Server
on_ring self old successor rest s = record s { connected_peers = self ∷ old ∷ successor ∷ rest }

module _ (env : Env) (s : Server) (self old successor : ServerInfo) (rest : List ServerInfo) where
  abbrev after_send : Bytes → ℤ → Server → Server
  after_send buffer fd t = record t { send_buf = buffer; trace = sent fd buffer ∷ t.trace }

  forward_lem :
      (text buffer : Bytes)
      → sprintf_into filled_with_zero text ≡ ok buffer
      → forward env text (on_ring self old successor rest s)
        ≡ ok (
          env.send s.trace successor.tcp_socket buffer,
          after_send buffer successor.tcp_socket (on_ring self old successor rest s),
        )
  unfolding forward
  forward_lem text buffer fits =
      bind_ok (print_buffer text) (λ _. peer 2 >>= λ next. send_buffer env next.tcp_socket)
        {s = on_ring self old successor rest s}
        {t = record s { connected_peers = self ∷ old ∷ successor ∷ rest; send_buf = buffer }}
        (print_buffer_lem text buffer (on_ring self old successor rest s) fits)

  pub forward_then :
      (text buffer : Bytes) (f : ℤ → ℤ)
      → sprintf_into filled_with_zero text ≡ ok buffer
      → (forward env text >>= λ r. return (f r)) (on_ring self old successor rest s)
        ≡ ok (
          f (env.send s.trace successor.tcp_socket buffer),
          after_send buffer successor.tcp_socket (on_ring self old successor rest s),
        )
  forward_then text buffer f fits =
      bind_ok (forward env text) (λ r. return (f r)) (forward_lem text buffer fits)

-- A vote that is not its own makes a server on a ring of at least three pass on, to its successor,
-- the greater of the vote and its own ID, and take part from then on if that was its own; only a
-- smaller vote that meets a server that takes part already goes no further. The answer is -1 exactly
-- if the message could not be sent, and the list of servers stays as it is.
pub vote_passed :
    (env : Env) (s : Server) (self old successor : ServerInfo) (rest : List ServerInfo) (vote : ℤ)
    (buffer : Bytes)
    → (vote ==ℤ self.id) ≡ false
    → sprintf_into filled_with_zero (vote_message (if ltb_ℤ self.id vote then vote else self.id))
      ≡ ok buffer
    → let ring = on_ring self old successor rest s in
      lcr_election env (codes "VOTE") vote ring ≡ (
        if ltb_ℤ vote self.id && (s.participant ==ℤ pos 1)
        then ok (pos 0, ring)
        else ok (
          if env.send s.trace successor.tcp_socket buffer ==ℤ negsuc 0 then negsuc 0 else pos 0,
          record ring {
            participant = if ltb_ℤ vote self.id then pos 1 else s.participant;
            send_buf = buffer;
            trace = sent successor.tcp_socket buffer ∷ s.trace;
          },
        ))
unfolding lcr_election
vote_passed env s self old successor rest vote buffer other fits =
    elim (Bool-cases (ltb_ℤ vote self.id)) [
      | inl down ↦
          let up : ltb_ℤ self.id vote ≡ false = ground (arith, down) in
          elim (Bool-cases (s.participant ==ℤ pos 1)) [
            | inl taking ↦ rw (up, down, taking) refl
            | inr free ↦
                rw (up, down, free)
                  (forward_then env (record s { participant = pos 1 }) self old successor rest
                    (vote_message self.id) buffer (λ r. if r ==ℤ negsuc 0 then negsuc 0 else pos 0)
                    (rw up at fits))
          ]
      | inr not_down ↦
          let up : ltb_ℤ self.id vote ≡ true = ground (arith, not_down, other) in
          rw (up, not_down)
            (forward_then env s self old successor rest (vote_message vote) buffer
              (λ r. if r ==ℤ negsuc 0 then negsuc 0 else pos 0) (rw up at fits))
    ]

not_above : (v : ℤ) → ltb_ℤ v v ≡ false
not_above v = ground arith

unlink_second :
    (self old : ServerInfo) (l : List ServerInfo) (t : Server)
    → (unlink old.id >> return self.id) (record t { connected_peers = self ∷ old ∷ l })
      ≡ ok (self.id, record t { connected_peers = self ∷ l })
unlink_second self old l t =
    ap
      (λ r.
        (lift r >>= (λ q. set_peers q.0) >> return self.id)
          (record t { connected_peers = self ∷ old ∷ l }))
      (delete_server-second self old l)

-- A server that is not the leader has won when its own vote comes back: it announces its ID to its
-- successor, marks itself the leader, takes the old leader, which stands behind it in the list, out
-- of the list, and answers its ID. If the announcement cannot be sent, the answer is -1 and the old
-- leader stays in the list, but the server is marked the leader all the same.
pub vote_won :
    (env : Env) (s : Server) (self old successor : ServerInfo) (rest : List ServerInfo)
    (buffer : Bytes)
    → (self.leader ==ℤ pos 1) ≡ false
    → sprintf_into filled_with_zero (leader_message self.id) ≡ ok buffer
    → let leader = record self { leader = pos 1 } in
      let lost = env.send s.trace successor.tcp_socket buffer ==ℤ negsuc 0 in
      lcr_election env (codes "VOTE") self.id (on_ring self old successor rest s)
      ≡ ok (
        if lost then negsuc 0 else self.id,
        record s {
          connected_peers =
              if lost then leader ∷ old ∷ successor ∷ rest else leader ∷ successor ∷ rest;
          participant = pos 1;
          send_buf = buffer;
          trace = sent successor.tcp_socket buffer ∷ s.trace;
        },
      )
unfolding lcr_election own_vote
vote_won env s self old successor rest buffer follower fits =
    rw (not_above self.id, follower)
      (bind_ok (forward env (leader_message self.id))
          (λ r.
            if r ==ℤ negsuc 0
            then return (negsuc 0)
            else peer 1 >>= λ second. unlink second.id >> return self.id)
          {s = record s {
            connected_peers = record self { leader = pos 1 } ∷ old ∷ successor ∷ rest;
            participant = pos 1;
          }}
          {t = record s {
            connected_peers = record self { leader = pos 1 } ∷ old ∷ successor ∷ rest;
            participant = pos 1;
            send_buf = buffer;
            trace = sent successor.tcp_socket buffer ∷ s.trace;
          }}
          (forward_lem env (record s { participant = pos 1 }) (record self { leader = pos 1 }) old
            successor rest (leader_message self.id) buffer fits)
        ∙ elim (Bool-cases (env.send s.trace successor.tcp_socket buffer ==ℤ negsuc 0)) [
          | inl e ↦ rw e refl
          | inr e ↦ rw e (
              unlink_second (record self { leader = pos 1 }) old (successor ∷ rest)
                (after_send env s self old successor rest buffer successor.tcp_socket
                  (record s { participant = pos 1 })))
        ])
