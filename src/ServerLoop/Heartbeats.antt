-- ===== src/ServerLoop/Heartbeats.antt =====
-- The heartbeats of a server that is not the leader.
use ds_project.Base.{
  ◌≡◌, ◌∙◌, refl, ◌*◌, ◌+◌, true, false, ℕ, List, [], ◌∷◌, ok, pos, ◌==ℤ◌, leb, ltb, if◌then◌else◌,
  drop, Bool-cases, inl, inr,
}
use ds_project.Text.{Bytes}
use ds_project.Frame.{sprintf_into, filled_with_zero}
use ds_project.Peers.{ServerInfo}
use ds_project.Disconnection.{check_leader_timeout}
use ds_project.Disconnection.Ring.{with_peers}
use ds_project.Disconnection.Leader.{check_leader_timeout-young}
use ds_project.Server.Steps.{print_buffer_lem}
use ds_project.Server.{
  Env, Event, Server, ◌>>=◌, ◌>>◌, return, get_state, print_buffer, time_now, sent, bind_ok,
}
use ds_project.ServerLoop.{
  heartbeat_timeout, heartbeat_text, leader_heartbeats, send_heartbeats, heartbeats,
}

-- The messages to the nodes of a list, the first first.
abbrev pub sent_to_all : Bytes → List ServerInfo → List Event → List Event
sent_to_all buffer [] trace = trace
sent_to_all buffer (p ∷ rest) trace = sent_to_all buffer rest (sent p.tcp_socket buffer ∷ trace)

module _ (env : Env) (self leader : ServerInfo) (rest : List ServerInfo)
    (young : (t : List Event)
      → ltb (env.time t) (leader.last_heartbeat + 2 * heartbeat_timeout) ≡ true) where
  send_heartbeats_young :
      (l : List ServerInfo) (s : Server)
      → send_heartbeats env l (with_peers (self ∷ leader ∷ rest) s)
        ≡ ok (
          tt,
          with_peers (self ∷ leader ∷ rest) (record s { trace = sent_to_all s.send_buf l s.trace }),
        )
  unfolding send_heartbeats
  send_heartbeats_young [] s = refl
  send_heartbeats_young (p ∷ l) s =
      let told = record s { trace = sent p.tcp_socket s.send_buf ∷ s.trace } in
      bind_ok (check_leader_timeout env (2 * heartbeat_timeout)) (λ _. send_heartbeats env l)
        {s = with_peers (self ∷ leader ∷ rest) told}
        (check_leader_timeout-young env told self leader rest (2 * heartbeat_timeout)
          (young told.trace))
      ∙ send_heartbeats_young l told

  -- While the leader's heartbeat is younger than eight seconds, a round of a server that is no leader
  -- and knows one sends its heartbeat to each of its peers, in the order of its list, once at least four
  -- seconds have passed since the last time, and asks the clock for the next start; before, it only
  -- prints the heartbeat.
  pub heartbeats-sent_to_all :
      (s : Server) (start now : ℕ) (buffer : Bytes)
      → (self.leader ==ℤ pos 1) ≡ false
      → sprintf_into filled_with_zero (heartbeat_text self.id) ≡ ok buffer
      → let printed = with_peers (self ∷ leader ∷ rest) (record s { send_buf = buffer }) in
        let trace = sent_to_all buffer (leader ∷ rest) s.trace in
        heartbeats env start now (with_peers (self ∷ leader ∷ rest) s) ≡ (
          if leb (start + heartbeat_timeout) now
          then ok (env.time trace, record printed { trace = trace })
          else ok (start, printed))
  unfolding heartbeats
  heartbeats-sent_to_all s start now buffer follower fits =
      let printed = record s { send_buf = buffer } in
      bind_ok (print_buffer (heartbeat_text self.id))
        (λ _.
          if leb (start + heartbeat_timeout) now
          then ((if self.leader ==ℤ pos 1
                then leader_heartbeats env
                else (get_state >>= λ s. send_heartbeats env (drop 1 s.connected_peers)))
              >> time_now env)
          else return start)
        {s = with_peers (self ∷ leader ∷ rest) s} {t = with_peers (self ∷ leader ∷ rest) printed}
        (print_buffer_lem (heartbeat_text self.id) buffer (with_peers (self ∷ leader ∷ rest) s)
          fits)
      ∙ elim (Bool-cases (leb (start + heartbeat_timeout) now)) [
        | inl due ↦
            rw (due, follower)
              (bind_ok (send_heartbeats env (leader ∷ rest)) (λ _. time_now env)
                {s = with_peers (self ∷ leader ∷ rest) printed}
                (send_heartbeats_young (leader ∷ rest) printed))
        | inr early ↦ rw early refl
      ]
