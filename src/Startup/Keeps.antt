-- ===== src/Startup/Keeps.antt =====
-- A whole run of a server keeps what a server keeps.
use ds_project.Base.{
  ◌≡◌, ◌≤◌, refl, ℕ, ◌+◌, ◌-◌, ◌%◌, inl, inr, Bool, Bool-cases, true, false, not, List, [], ◌∷◌,
  Option, err, out_of_range, error_return, ℤ, pos, ◌==ℤ◌, is_valid_socket, if◌then◌else◌, get_elem?,
  length, arith,
}
use ds_project.Text.{Bytes}
use ds_project.Peers.{ServerInfo, server_info_exist}
use ds_project.Peers.Insert.{fresh_server, append_server_cases}
use ds_project.SocketChanges.{add_last}
use ds_project.Discovery.{Activity, Caller, service_discovery}
use ds_project.Discovery.Keeps.{service_discovery-Keeps}
use ds_project.ServerLoop.{Ready, main_loop}
use ds_project.ServerLoop.Keeps.{main_loop_keeps}
use ds_project.Kept.{Kept, Keeps, Ends, run, stop, ◌then◌, ◌next◌, test, test_end, given_end, done}
use ds_project.Kept.Heads.{headed-update_peer}
use ds_project.Kept.Parts.{fd_set_kept, set_ltcp_kept, time_kept}
use ds_project.Server.{Env, Server, max_connection, ◌>>=◌, ◌>>◌}
use ds_project.Startup.{set_sockets, watch_successor, follow, watch_client, settle, start_up, main}

module _ (self : ServerInfo) where
  watch_successor-Keeps : Keeps self watch_successor
  watch_successor-Keeps s h =
      (test_end {self = self} (not (s.successor_socket ==ℤ error_return))
        (run (fd_set_kept s.successor_socket) s h) (stop tt s h)).ends

  follow-Keeps : Keeps self follow
  follow-Keeps s h = (
    h.0,
    h.1,
    headed-update_peer self 0 (λ p. record p { leader = pos 0 }) s.connected_peers
        (λ p. (refl, refl, refl)) h.2,
  )

  watch_client-Keeps : Keeps self watch_client
  watch_client-Keeps s h =
      (given_end {self = self} (get_elem? s.client_array 1)
        (record { result = err out_of_range; ends = tt })
        (λ c.
          test_end (not (c.socket ==ℤ pos 0)) (run (fd_set_kept c.socket) s h) (stop tt s h))).ends

  settle-Keeps : (env : Env) (mc_socket fd : ℤ) → Keeps self (settle env mc_socket fd)
  unfolding settle
  settle-Keeps env mc_socket fd =
      let m : Kept self Bool =
        set_ltcp_kept fd
        next test (is_valid_socket fd)
            (fd_set_kept fd
              next record { act = watch_successor; keeps = watch_successor-Keeps }
              next record { act = follow; keeps = follow-Keeps }
              next record { act = watch_client; keeps = watch_client-Keeps })
            (done tt)
        next fd_set_kept mc_socket
        next done true in
      m.keeps

-- The ID that is drawn, and the node that the server makes of itself.
abbrev pub drawn : Env → Server → ℕ
drawn env s = env.rand (env.time s.trace) % (10000 - 1 + 1) + 1

abbrev pub own_node : Env → Server → ℤ → ℤ → Bytes → ServerInfo
own_node env s socket_listen port addr =
    fresh_server (env.time s.trace) (pos (drawn env s)) addr port (pos 1) socket_listen

module _ (env : Env) (s : Server) (socket_listen mc_socket port : ℤ) (addr : Bytes) where
  -- What follows once the server is in its list.
  abbrev goes_on :
      List Activity
      → Caller
      → List (Option (Option Bytes) × List Ready)
      → Kept (own_node env s socket_listen port addr) Bool
  goes_on rounds caller found =
      (record { act = set_sockets socket_listen mc_socket; keeps = λ s h. h }
        next test (not (is_valid_socket mc_socket)) (done false) (
            record {
              act = service_discovery env rounds caller;
              keeps =
                  service_discovery-Keeps (own_node env s socket_listen port addr) env rounds
                    caller;
            }
            then λ fd. record {
              act = settle env mc_socket fd;
              keeps = settle-Keeps (own_node env s socket_listen port addr) env mc_socket fd;
            }))
      then λ started.
          test started
            (time_kept env then λ start. record {
              act = main_loop env socket_listen start found;
              keeps =
                  main_loop_keeps (own_node env s socket_listen port addr) env socket_listen start
                    found;
            })
            (done true)

  -- A server that starts with an empty list and a table of 20 entries draws an ID from 1 to 10000; and
  -- however its search for a leader and the rounds of its loop go, if the program is not stopped on the
  -- way, it ends with a table of 20 entries, a count within it, and itself at the head of its list,
  -- under that ID, its address and its port. The listening socket is valid.
  pub main_keeps :
      (rounds : List Activity) (caller : Caller) (found : List (Option (Option Bytes) × List Ready))
      → length s.client_array ≡ max_connection
      → s.client_count ≤ max_connection
      → is_valid_socket socket_listen ≡ true
      → (1 ≤ drawn env s)
        × (drawn env s ≤ 10000)
        × Ends (own_node env s socket_listen port addr) (
            main env socket_listen mc_socket addr port rounds caller found
              (record s { connected_peers = [] }))
  unfolding main start_up server_info_exist
  main_keeps rounds caller found size count valid =
      let added =
        append_server_cases (env.malloc s.trace) (env.time s.trace) [] (pos (drawn env s)) addr port
          (pos 1) socket_listen in
      let listed = record s {
        connected_peers = (own_node env s socket_listen port addr) ∷ [];
        group_id = pos (env.rand (env.time s.trace) % (1000000 - 20000 + 1) + 20000);
      } in
      (
        omega arith,
        omega arith,
        elim (Bool-cases (env.malloc s.trace)) [
          | inl memory ↦
              rw (valid, ◌>>◌, ◌>>=◌, add_last, added, memory)
                ((goes_on rounds caller found).keeps listed (size, count, (refl, refl, refl)))
          | inr gone ↦ rw (valid, ◌>>◌, ◌>>=◌, add_last, added, gone) tt
        ],
      )
