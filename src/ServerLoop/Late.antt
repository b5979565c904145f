-- ===== src/ServerLoop/Late.antt =====
-- The heartbeats of a server whose leader is late.
use ds_project.Base.{◌≡◌, ◌∙◌, refl, ◌*◌, ◌+◌, false, List, [], ◌∷◌, ok, pos, ◌==ℤ◌, ltb}
use ds_project.Text.{Bytes}
use ds_project.Frame.{sprintf_into, filled_with_zero}
use ds_project.Peers.{ServerInfo}
use ds_project.Election.{vote_message}
use ds_project.Election.Vote.{on_ring}
use ds_project.Election.Start.{started}
use ds_project.Disconnection.{check_leader_timeout}
use ds_project.Disconnection.Leader.{check_leader_timeout-on_ring}
use ds_project.Joining.Steps.{Sends}
use ds_project.Server.{Env, Event, Server, sent, bind_ok}
use ds_project.ServerLoop.{heartbeat_timeout, send_heartbeats}

module _ (env : Env) (s : Server) (self old successor : ServerInfo) (vote : Bytes)
    (late : (t : List Event)
      → ltb (env.time t) (old.last_heartbeat + 2 * heartbeat_timeout) ≡ false)
    (fits : sprintf_into filled_with_zero (vote_message self.id) ≡ ok vote) where
  -- One turn of the loop: the buffer to the peer, and the election if need be.
  turn :
      (t : Server) (p : ServerInfo) (l : List ServerInfo)
      → let told = record t { trace = sent p.tcp_socket t.send_buf ∷ t.trace } in
        send_heartbeats env (p ∷ l) (on_ring self old successor [] t)
        ≡ send_heartbeats env l
            (started env told successor vote (on_ring self old successor [] told))
  unfolding send_heartbeats
  turn t p l =
      let told = record t { trace = sent p.tcp_socket t.send_buf ∷ t.trace } in
      bind_ok (check_leader_timeout env (2 * heartbeat_timeout)) (λ _. send_heartbeats env l)
        {s = on_ring self old successor [] told}
        (check_leader_timeout-on_ring env told self old successor [] (2 * heartbeat_timeout) vote
            fits
          ∙ rw (late told.trace) refl)

  -- A server on a ring of three whose leader is late for the whole round, and that takes no part yet:
  -- the leader gets what the buffer holds, the heartbeat, but the successor gets the vote, twice: from
  -- the election that the leader's silence starts, and again in place of its heartbeat, since the
  -- election has printed the vote over the heartbeat. The server takes part from then on. All messages
  -- must be sent, and the vote fit the buffer.
  pub send_heartbeats-late :
      Sends env
      → (s.participant ==ℤ pos 1) ≡ false
      → send_heartbeats env (old ∷ successor ∷ []) (on_ring self old successor [] s)
        ≡ ok (
          tt,
          on_ring self old successor [] (record s {
            participant = pos 1;
            send_buf = vote;
            trace =
                sent successor.tcp_socket vote
                ∷ sent successor.tcp_socket vote
                ∷ sent old.tcp_socket s.send_buf
                ∷ s.trace;
          }),
        )
  unfolding send_heartbeats
  send_heartbeats-late sends free =
      let first = sent old.tcp_socket s.send_buf ∷ s.trace in
      let voted = record s {
        participant = pos 1;
        send_buf = vote;
        trace = sent successor.tcp_socket vote ∷ first;
      } in
      turn s old (successor ∷ [])
      ∙ rw (free, sends first successor.tcp_socket vote) (turn voted successor [])
