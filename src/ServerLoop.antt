-- ===== src/ServerLoop.antt =====
-- `main` of chat-c/server_s.c: how a server starts, and one round of its loop.
pub mod Keeps
pub mod Heartbeats
pub mod Late
mod Tests
use ds_project.Base.{
  ℕ, ◌*◌, ◌+◌, Bool, true, false, List, [], ◌∷◌, ◌++◌, Option, none, some, ok, ℤ, pos, ◌==ℤ◌, leb,
  is_valid_socket, if◌then◌else◌, take, drop,
}
use ds_project.Text.{Bytes, codes, int, lits, num, print}
use ds_project.Peers.{ServerInfo}
use ds_project.Election.{alone, same_bytes}
use ds_project.Clients.{accept_new_client}
use ds_project.Disconnection.{check_heartbeat_timeout, check_leader_timeout}
use ds_project.Joining.{handle_mcast_receive}
use ds_project.SocketChanges.{handle_socket_change}
use ds_project.Server.{
  Env, M, ◌>>=◌, ◌>>◌, return, get_state, peer, print_buffer, send_buffer, time_now, fd_set,
  do_multicast,
}

-- `HEARTBEAT_TIMEOUT`.
abbrev pub heartbeat_timeout : ℕ
heartbeat_timeout = 4

abbrev pub heartbeat_text : ℤ → Bytes
heartbeat_text id = print (lits "HEARTBEAT:" ++ (int ∷ lits "\n\n")) (num id ∷ [])

-- `line` is the line that is typed, with its newline, and `none` at the end of the input; `fgets`
-- takes five bytes of it.
pub exit_keyword : Option Bytes → Bool
exit_keyword none = false
exit_keyword (some line) = same_bytes (take 5 line) (codes "exit\n")

-- A descriptor that `select` reports, with what reading from it gives: the connection and its
-- address, the datagram and its sender, or the bytes.
pub record Ready : Type 0 where
  pub fd : ℤ
  pub accepted : ℤ
  pub ip : Option Bytes
  pub datagram : Option (Bytes × Bytes)
  pub received : Option Bytes

module _ (env : Env) where
  -- The loop over the peers of a server that is not the leader. The next node is read before the
  -- check, which frees none but the one that was just passed.
  pub send_heartbeats : List ServerInfo → M (Unit {0})
  send_heartbeats [] s = ok (tt, s)
  send_heartbeats (current ∷ next) s =
      (send_buffer env current.tcp_socket
          >> check_leader_timeout env (2 * heartbeat_timeout)
          >> send_heartbeats next)
        s

  pub leader_heartbeats : M (Unit {0})
  leader_heartbeats s =
      if alone s
      then ok (tt, s)
      else ((do_multicast env >>= λ sent. return tt)
            >> check_heartbeat_timeout env (2 * heartbeat_timeout))
          s

  -- The part of a round that the clock sets off; `start` is when it last was, and the answer is the
  -- new one.
  pub heartbeats : ℕ → ℕ → M ℕ
  unfolding send_heartbeats leader_heartbeats
  heartbeats start now = peer 0 >>= λ head.
      print_buffer (heartbeat_text head.id)
      >> (if leb (start + heartbeat_timeout) now
          then ((if head.leader ==ℤ pos 1
                then leader_heartbeats
                else (get_state >>= λ s. send_heartbeats (drop 1 s.connected_peers)))
              >> time_now env)
          else return start)

  pub serve : ℤ → Ready → M (Unit {0})
  serve socket_listen r = get_state >>= λ s.
      if r.fd ==ℤ socket_listen
      then accept_new_client env r.accepted r.ip
      else if r.fd ==ℤ s.mc_socket
      then (handle_mcast_receive env r.datagram >>= λ fd.
          if is_valid_socket fd then fd_set fd else return tt)
      else handle_socket_change env r.fd r.received

  -- The loop over the reported descriptors, by rising number; a handler adds none to them.
  pub serve_all : ℤ → List Ready → M (Unit {0})
  unfolding serve
  serve_all socket_listen [] s = ok (tt, s)
  serve_all socket_listen (r ∷ rest) s = (serve socket_listen r >> serve_all socket_listen rest) s

  -- One round, once `select` has returned: `typed` is the line if standard input is readable. The
  -- answer is `none` if the loop is left.
  pub loop_round : ℤ → ℕ → Option (Option Bytes) → List Ready → M (Option ℕ)
  unfolding heartbeats serve_all exit_keyword
  loop_round socket_listen start typed ready = time_now env >>= λ now.
      heartbeats start now >>= λ next. elim typed [
        | none ↦ serve_all socket_listen ready >> return (some next)
        | some line ↦
            if exit_keyword line
            then return none
            else (serve_all socket_listen ready >> return (some next))
      ]

  -- The loop, over what each round finds typed and reported; the answer tells whether it was left.
  pub main_loop : ℤ → ℕ → List (Option (Option Bytes) × List Ready) → M Bool
  unfolding loop_round
  main_loop socket_listen start [] s = ok (false, s)
  main_loop socket_listen start (found ∷ rest) s =
      (loop_round socket_listen start found.0 found.1 >>= λ next. elim next [
        | none ↦ return true
        | some again ↦ main_loop socket_listen again rest
      ])
        s
