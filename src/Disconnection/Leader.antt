-- ===== src/Disconnection/Leader.antt =====
-- `check_leader_timeout`, with the election that it starts.
use ds_project.Base.{
  ◌≡◌, ◌+◌, ℕ, true, refl, inl, inr, Bool-cases, List, [], ◌∷◌, ok, ltb, pos, if◌then◌else◌,
}
use ds_project.Text.{Bytes}
use ds_project.Frame.{sprintf_into, filled_with_zero}
use ds_project.Peers.{ServerInfo}
use ds_project.Server.{Env, Server}
use ds_project.Election.{vote_message}
use ds_project.Election.Vote.{on_ring}
use ds_project.Election.Start.{started, send_ele_msg-on_ring, send_ele_msg_last}
use ds_project.Disconnection.{check_leader_timeout}

-- A server that knows at least a leader and a successor does nothing while the leader's last heartbeat
-- is younger than the timeout. Afterwards it prints its own vote, and, unless it takes part already,
-- sends it to its successor and takes part if that succeeded.
pub check_leader_timeout-on_ring :
    (env : Env) (s : Server) (self old successor : ServerInfo) (rest : List ServerInfo)
    (timeout : ℕ) (buffer : Bytes)
    → sprintf_into filled_with_zero (vote_message self.id) ≡ ok buffer
    → let ring = on_ring self old successor rest s in
      check_leader_timeout env timeout ring ≡ (
        if ltb (env.time s.trace) (old.last_heartbeat + timeout)
        then ok (tt, ring)
        else ok (tt, started env s successor buffer ring))
unfolding check_leader_timeout
check_leader_timeout-on_ring env s self old successor rest timeout buffer fits =
    elim (Bool-cases (ltb (env.time s.trace) (old.last_heartbeat + timeout))) [
      | inl young ↦ rw young refl
      | inr late ↦ rw late (send_ele_msg-on_ring env s self old successor rest buffer fits)
    ]

-- A server that knows its leader only becomes the leader itself, and is left alone in its list, as
-- soon as the leader's last heartbeat is as old as the timeout; before, nothing changes, and nothing
-- is sent in either case.
pub check_leader_timeout_last :
    (env : Env) (s : Server) (self old : ServerInfo) (timeout : ℕ)
    → check_leader_timeout env timeout (record s { connected_peers = self ∷ old ∷ [] })
      ≡ ok (
        tt,
        if ltb (env.time s.trace) (old.last_heartbeat + timeout)
            then record s { connected_peers = self ∷ old ∷ [] }
            else record s { connected_peers = record self { leader = pos 1 } ∷ [] },
      )
unfolding check_leader_timeout
check_leader_timeout_last env s self old timeout =
    elim (Bool-cases (ltb (env.time s.trace) (old.last_heartbeat + timeout))) [
      | inl young ↦ rw young refl
      | inr late ↦ rw late (send_ele_msg_last env s self old)
    ]

pub check_leader_timeout-young :
    (env : Env) (s : Server) (self leader : ServerInfo) (rest : List ServerInfo) (timeout : ℕ)
    → ltb (env.time s.trace) (leader.last_heartbeat + timeout) ≡ true
    → check_leader_timeout env timeout (record s { connected_peers = self ∷ leader ∷ rest })
      ≡ ok (tt, record s { connected_peers = self ∷ leader ∷ rest })
unfolding check_leader_timeout
check_leader_timeout-young env s self leader rest timeout young = rw young refl
