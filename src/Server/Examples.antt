-- ===== src/Server/Examples.antt =====
-- A server, its peers and an operating system for the tests.
use ds_project.Base.{refl, arith, ℕ, List, [], ◌∷◌, ℤ, pos, negsuc, true, replicate}
use ds_project.Text.{codes, print_int}
use ds_project.Frame.{filled_with_zero}
use ds_project.Peers.{ServerInfo}
use ds_project.Server.Steps.{Connects}
use ds_project.Server.{Env, Server, ClientInfo, max_connection}

-- Every call succeeds.
abbrev pub calm : Env
calm = record {
  send = λ trace fd message. pos 256;
  time = λ trace. 100;
  malloc = λ trace. true;
  getaddrinfo = λ trace address port. pos 0;
  socket = λ trace. pos 9;
  connect = λ trace fd address port. pos 0;
  sendto = λ trace fd message. pos 256;
  rand = λ seed. seed;
}

abbrev pub node : ℤ → ServerInfo
node id = record {
  id = id;
  addr = codes "10.0.0.7";
  port = pos 4040;
  leader = pos 0;
  tcp_socket = id;
  last_heartbeat = 60;
}

abbrev pub leader_node : ServerInfo
leader_node = record (node (pos 1)) { leader = pos 1 }

abbrev pub no_client : ClientInfo
no_client = record { id = pos 0; socket = pos 0; ip_addr = [] }

-- A server with its table of clients.
abbrev pub with_clients : ℕ → List ClientInfo → Server
with_clients n array = record {
  connected_peers = node (pos 1) ∷ [];
  participant = pos 0;
  send_buf = filled_with_zero;
  group_id = pos 1;
  client_array = array;
  client_count = n;
  clk_index = pos 0;
  master = [];
  socket_max = pos 0;
  udp_socket = negsuc 0;
  mc_socket = pos 3;
  ltcp_socket = negsuc 0;
  successor_socket = negsuc 0;
  trace = [];
}

abbrev pub start : Server
start = with_clients 0 (replicate max_connection no_client)

pub connects : Connects calm [] (codes "10.0.0.7") (pos 4040) (pos 9)
unfolding print_int
connects = record {
  found = refl;
  opened = refl;
  valid = refl;
  connected = refl;
  memory = refl;
  short = omega arith;
}
