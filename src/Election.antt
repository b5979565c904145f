-- ===== src/Election.antt =====
-- chat-c/election_lcr.c: the election on the ring. A server takes part with its ID, passes greater
-- votes on, swallows smaller ones, and has won when its own vote comes back.
pub mod Vote
pub mod Announcement
pub mod Start
pub mod Network
pub mod Keeps
mod Tests
use ds_project.Base.{
  Bool, true, false, ◌&&◌, [], ◌∷◌, ◌++◌, Option, none, some, ok, ℤ, pos, negsuc, ltb_ℤ, ◌==ℤ◌,
  ◌==◌, if◌then◌else◌, get_elem?,
}
use ds_project.Text.{Bytes, codes, int, lits, num, print, scan_int, skip_space}
use ds_project.Peers.{ServerInfo, delete_server}
use ds_project.Server.{
  Env, Server, M, ◌>>=◌, ◌>>◌, return, lift, peer, update_peer, set_peers, set_participant,
  print_buffer, send_buffer,
}

abbrev pub same_bytes : Bytes → Bytes → Bool
same_bytes [] [] = true
same_bytes (c ∷ s) (d ∷ t) = c == d && same_bytes s t
same_bytes _ _ = false

abbrev pub vote_message : ℤ → Bytes
vote_message id = print (lits "ELECTION:VOTE:" ++ (int ∷ lits "\n\n")) (num id ∷ [])

abbrev pub leader_message : ℤ → Bytes
leader_message id = print (lits "ELECTION:LEADER:" ++ (int ∷ lits "\n\n")) (num id ∷ [])

-- `connected_peers->next == NULL`.
abbrev pub alone : Server → Bool
alone s = elim (get_elem? s.connected_peers 1) [ none ↦ true | some p ↦ false ]

abbrev pub unlink : ℤ → M (Unit {0})
unlink id s = (lift (delete_server s.connected_peers id) >>= λ r. set_peers r.0) s

module _ (env : Env) where
  -- The message goes to `connected_peers->next->next`; -1 is a failure.
  pub forward : Bytes → M ℤ
  forward text = print_buffer text >> (peer 2 >>= λ successor. send_buffer env successor.tcp_socket)

  greater_vote : ℤ → M ℤ
  unfolding forward
  greater_vote pred_id s =
      if alone s
      then ok (pos 0, s)
      else (forward (vote_message pred_id) >>= λ sent.
            return (if sent ==ℤ negsuc 0 then negsuc 0 else pos 0))
          s

  smaller_vote : ServerInfo → M ℤ
  unfolding forward
  smaller_vote self s =
      if alone s
      then ok (pos 0, s)
      else if s.participant ==ℤ pos 1
      then ok (pos 0, s)
      else (set_participant (pos 1)
            >> (forward (vote_message self.id) >>= λ sent.
                return (if sent ==ℤ negsuc 0 then negsuc 0 else pos 0)))
          s

  -- The own vote came back.
  pub own_vote : ServerInfo → ℤ → M ℤ
  unfolding forward
  own_vote self pred_id s =
      if self.leader ==ℤ pos 1
      then ok (pos 0, s)
      else (set_participant (pos 1)
            >> (set_peers (update_peer 0 (λ p. record p { leader = pos 1 }) s.connected_peers)
                >> (forward (leader_message self.id) >>= λ sent.
                    if sent ==ℤ negsuc 0
                    then return (negsuc 0)
                    else (peer 1 >>= λ old. unlink old.id >> return pred_id))))
          s

  pub leader_announced : ServerInfo → ℤ → M ℤ
  unfolding forward
  leader_announced self pred_id s =
      if pred_id ==ℤ self.id
      then (set_participant (pos 0) >> return (pos 0)) s
      else if alone s
      then ok (pos 0, s)
      else (set_participant (pos 0)
            >> (set_peers
                  (update_peer 1 (λ p. record p { id = pred_id; leader = pos 1 }) s.connected_peers)
                >> (forward (leader_message pred_id) >>= λ sent.
                    return (if sent ==ℤ negsuc 0 then pos 0 else pos 1))))
          s

  pub lcr_election : Bytes → ℤ → M ℤ
  unfolding greater_vote smaller_vote own_vote leader_announced
  lcr_election keyword pred_id s =
      (peer 0 >>= λ self.
      if same_bytes keyword (codes "VOTE")
      then (if ltb_ℤ self.id pred_id
          then greater_vote pred_id
          else if ltb_ℤ pred_id self.id
          then smaller_vote self
          else own_vote self pred_id)
      else if same_bytes keyword (codes "LEADER")
      then leader_announced self pred_id
      else return (pos 0))
        s

  -- Called when the leader's heartbeats stop. With no successor the server becomes leader itself.
  pub send_ele_msg : M (Unit {0})
  send_ele_msg s =
      (peer 0 >>= λ self. peer 1 >>= λ old. elim (get_elem? s.connected_peers 2) [
        | none ↦
            set_peers (update_peer 0 (λ p. record p { leader = pos 1 }) s.connected_peers)
            >> unlink old.id
        | some successor ↦
            print_buffer (vote_message self.id)
            >> (if s.participant ==ℤ pos 1
                then return tt
                else (send_buffer env successor.tcp_socket >>= λ sent.
                    if sent ==ℤ negsuc 0 then return tt else set_participant (pos 1)))
      ])
        s

-- `strstr(message, "LEADER:")`, and what stands behind it.
abbrev drop_prefix : Bytes → Bytes → Option Bytes
drop_prefix [] s = some s
drop_prefix (p ∷ ps) [] = none
drop_prefix (p ∷ ps) (c ∷ s) = if p == c then drop_prefix ps s else none

find_behind : Bytes → Bytes → Option Bytes
find_behind pattern [] = drop_prefix pattern []
find_behind pattern (c ∷ s) = elim (drop_prefix pattern (c ∷ s)) [
  | some rest ↦ some rest
  | none ↦ find_behind pattern s
]

-- `strtol`: 0 if no number stands there.
unfoldable pub leader_found : Bytes → ℤ
unfolding find_behind
leader_found message = elim (find_behind (codes "LEADER:") message) [
  | none ↦ pos 0
  | some rest ↦ elim (scan_int (skip_space rest)) [ none ↦ pos 0 | some r ↦ r.0 ]
]
