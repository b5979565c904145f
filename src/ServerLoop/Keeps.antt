-- ===== src/ServerLoop/Keeps.antt =====
-- A round of the server's loop keeps what a server keeps.
use ds_project.Base.{
  ℕ, ◌*◌, ◌+◌, Bool, true, List, [], ◌∷◌, Option, none, some, ℤ, pos, ◌==ℤ◌, leb, is_valid_socket,
  if◌then◌else◌, drop,
}
use ds_project.Text.{Bytes}
use ds_project.Peers.{ServerInfo}
use ds_project.Election.{alone}
use ds_project.Clients.{accept_new_client}
use ds_project.Clients.Keeps.{accept_new_client-Keeps}
use ds_project.Disconnection.{check_heartbeat_timeout, check_leader_timeout}
use ds_project.Disconnection.Keeps.{check_heartbeat_timeout-Keeps, check_leader_timeout-Keeps}
use ds_project.Joining.{handle_mcast_receive}
use ds_project.Joining.Keeps.{handle_mcast_receive-Keeps}
use ds_project.SocketChanges.{handle_socket_change}
use ds_project.SocketChanges.Keeps.{handle_socket_change-Keeps}
use ds_project.Server.{Env, Server, get_state, ◌>>=◌}
use ds_project.Kept.{
  Kept, Keeps, IsKept, Ends, run, stop, ◌then◌, ◌next◌, test, test_end, given, done,
}
use ds_project.Kept.Parts.{peer_kept, print_kept, send_kept, time_kept, fd_set_kept, multicast_kept}
use ds_project.ServerLoop.{
  Ready, heartbeat_timeout, heartbeat_text, exit_keyword, send_heartbeats, leader_heartbeats,
  heartbeats, serve, serve_all, loop_round, main_loop,
}

module _ (self : ServerInfo) (env : Env) where
  send_heartbeats-Keeps : (l : List ServerInfo) → Keeps self (send_heartbeats env l)
  unfolding send_heartbeats
  send_heartbeats-Keeps [] s h = h
  send_heartbeats-Keeps (current ∷ rest) s h =
      let m : Kept self (Unit {0}) =
        send_kept env current.tcp_socket
        next record {
          act = check_leader_timeout env (2 * heartbeat_timeout);
          keeps = check_leader_timeout-Keeps self env (2 * heartbeat_timeout);
        }
        next record { act = send_heartbeats env rest; keeps = send_heartbeats-Keeps rest } in
      m.keeps s h

  leader_heartbeats-Keeps : Keeps self (leader_heartbeats env)
  unfolding leader_heartbeats
  leader_heartbeats-Keeps s h =
      (test_end {self = self} (alone s) (stop tt s h) (
        run
          ((multicast_kept env then λ sent. done tt) next record {
            act = check_heartbeat_timeout env (2 * heartbeat_timeout);
            keeps = check_heartbeat_timeout-Keeps self env (2 * heartbeat_timeout);
          })
          s h)).ends

  heartbeats-Keeps : (start now : ℕ) → Keeps self (heartbeats env start now)
  unfolding heartbeats
  heartbeats-Keeps start now =
      let to_peers : Server → Kept self (Unit {0}) = λ t. record {
        act = send_heartbeats env (drop 1 t.connected_peers);
        keeps = send_heartbeats-Keeps (drop 1 t.connected_peers);
      } in
      let m : Kept self ℕ = peer_kept 0 then λ head.
      print_kept (heartbeat_text head.id)
      next test (leb (start + heartbeat_timeout) now)
          (test (head.leader ==ℤ pos 1)
              (record { act = leader_heartbeats env; keeps = leader_heartbeats-Keeps })
              (record {
                act = get_state >>= λ t. (to_peers t).act;
                keeps = λ t k. (to_peers t).keeps t k;
              })
            next time_kept env)
          (done start) in
      m.keeps

  serve-Keeps : (socket_listen : ℤ) (r : Ready) → Keeps self (serve env socket_listen r)
  unfolding serve
  serve-Keeps socket_listen r s h =
      let m : Kept self (Unit {0}) =
        test (r.fd ==ℤ socket_listen)
          (record {
            act = accept_new_client env r.accepted r.ip;
            keeps = accept_new_client-Keeps self env r.accepted r.ip;
          })
          (test (r.fd ==ℤ s.mc_socket)
            (record {
              act = handle_mcast_receive env r.datagram;
              keeps = handle_mcast_receive-Keeps self env r.datagram;
            }
              then λ fd. test (is_valid_socket fd) (fd_set_kept fd) (done tt))
            (record {
              act = handle_socket_change env r.fd r.received;
              keeps = handle_socket_change-Keeps self env r.fd r.received;
            })) in
      m.keeps s h

  serve_all-Keeps :
      (socket_listen : ℤ) (l : List Ready) → Keeps self (serve_all env socket_listen l)
  unfolding serve_all
  serve_all-Keeps socket_listen [] s h = h
  serve_all-Keeps socket_listen (r ∷ rest) s h =
      let m : Kept self (Unit {0}) =
        record { act = serve env socket_listen r; keeps = serve-Keeps socket_listen r }
        next record {
          act = serve_all env socket_listen rest;
          keeps = serve_all-Keeps socket_listen rest;
        } in
      m.keeps s h

  loop_round-Keeps :
      (socket_listen : ℤ) (start : ℕ) (typed : Option (Option Bytes)) (ready : List Ready)
      → Keeps self (loop_round env socket_listen start typed ready)
  unfolding loop_round
  loop_round-Keeps socket_listen start typed ready =
      let served : ℕ → Kept self (Option ℕ) = λ next_start.
        record {
          act = serve_all env socket_listen ready;
          keeps = serve_all-Keeps socket_listen ready;
        }
        next done (some next_start) in
      let m : Kept self (Option ℕ) = time_kept env then λ now.
      record { act = heartbeats env start now; keeps = heartbeats-Keeps start now }
      then λ next_start.
          given typed (served next_start)
            (λ line. test (exit_keyword line) (done none) (served next_start)) in
      m.keeps

  -- However many rounds the server's loop makes, whatever is typed and whatever arrives on whichever
  -- descriptors: if the table of clients has its 20 entries with a count within it, and the server's own
  -- node is at the head of its list of servers, then, unless the program was stopped, the same holds
  -- afterwards, with the same ID, address and port: the count of clients never passes the table, and no
  -- handler removes or renames the server itself.
  pub main_loop_keeps :
      (socket_listen : ℤ) (start : ℕ) (found : List (Option (Option Bytes) × List Ready))
      (s : Server)
      → IsKept self s
      → Ends self (main_loop env socket_listen start found s)
  unfolding main_loop
  main_loop_keeps socket_listen start [] s h = h
  main_loop_keeps socket_listen start (f ∷ rest) s h =
      let m : Kept self Bool =
        record {
          act = loop_round env socket_listen start f.0 f.1;
          keeps = loop_round-Keeps socket_listen start f.0 f.1;
        }
        then λ outcome. given outcome (done true) (λ again. record {
          act = main_loop env socket_listen again rest;
          keeps = main_loop_keeps socket_listen again rest;
        }) in
      m.keeps s h
