-- ===== src/Startup.antt =====
-- `main` of chat-c/server_s.c: how a server starts, and that its loop follows. The arguments are its
-- address and port, the listening socket and the one that joined the multicast group.
pub mod Keeps
mod Tests
use ds_project.Base.{
  ℕ, Bool, true, false, not, List, [], ◌∷◌, Option, none, some, ok, err, out_of_range, error_return,
  ℤ, pos, ◌==ℤ◌, is_valid_socket, if◌then◌else◌, get_elem?,
}
use ds_project.Text.{Bytes}
use ds_project.SocketChanges.{add_last}
use ds_project.Discovery.{Activity, Caller, service_discovery}
use ds_project.ServerLoop.{Ready, main_loop}
use ds_project.Server.{
  Env, Server, M, ◌>>=◌, ◌>>◌, return, update_peer, time_now, random_id, fd_set, set_ltcp,
}

abbrev pub set_group : ℤ → M (Unit {0})
set_group id s = ok (tt, record s { group_id = id })

-- `FD_ZERO`, `FD_SET` of the listening socket, and the locals for the sockets.
abbrev pub set_sockets : ℤ → ℤ → M (Unit {0})
set_sockets socket_listen mc_socket s = ok (
  tt,
  record s {
    master = socket_listen ∷ [];
    socket_max = socket_listen;
    udp_socket = error_return;
    mc_socket = mc_socket;
    successor_socket = error_return;
  },
)

abbrev pub watch_successor : M (Unit {0})
watch_successor s =
    if not (s.successor_socket ==ℤ error_return) then fd_set s.successor_socket s else ok (tt, s)

abbrev pub follow : M (Unit {0})
follow s = ok (
  tt,
  record s { connected_peers = update_peer 0 (λ p. record p { leader = pos 0 }) s.connected_peers },
)

-- `ClientArray[1].socket`.
abbrev pub watch_client : M (Unit {0})
watch_client s = elim (get_elem? s.client_array 1) [
  | none ↦ err out_of_range
  | some c ↦ if not (c.socket ==ℤ pos 0) then fd_set c.socket s else ok (tt, s)
]

module _ (env : Env) where
  -- From the answer of `service_discovery` on.
  pub settle : ℤ → ℤ → M Bool
  settle mc_socket fd =
      set_ltcp fd
      >> (if is_valid_socket fd
          then fd_set fd >> watch_successor >> follow >> watch_client
          else return tt)
      >> fd_set mc_socket
      >> return true

  -- The answer tells whether the loop is reached.
  pub start_up : ℤ → ℤ → Bytes → ℤ → List Activity → Caller → M Bool
  unfolding settle
  start_up socket_listen mc_socket addr port rounds caller =
      random_id env 20000 1000000 >>= λ group.
      set_group group
      >> (if not (is_valid_socket socket_listen)
          then return false
          else (random_id env 1 10000 >>= λ id.
              add_last env id addr port (pos 1) socket_listen
              >> set_sockets socket_listen mc_socket
              >> (if not (is_valid_socket mc_socket)
                  then return false
                  else (service_discovery env rounds caller >>= settle mc_socket))))

  pub main :
      ℤ
      → ℤ
      → Bytes
      → ℤ
      → List Activity
      → Caller
      → List (Option (Option Bytes) × List Ready)
      → M Bool
  unfolding start_up
  main socket_listen mc_socket addr port rounds caller found =
      start_up socket_listen mc_socket addr port rounds caller >>= λ started.
      if started
      then (time_now env >>= λ start. main_loop env socket_listen start found)
      else return true
