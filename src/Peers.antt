-- ===== src/Peers.antt =====
-- chat-c/server_struct.c: the list of servers that a server knows. The first node is the server
-- itself; a non-leader keeps its leader second and its successor third. A pointer to a node is its
-- position in the list, and NULL is `none`.
pub mod Order
pub mod Delete
pub mod Insert
pub mod Neighbours
pub mod Positions
mod Tests
use ds_project.Base.{
  ℕ, suc, Bool, true, false, not, List, [], ◌∷◌, Option, none, some, Result, ok, err, null_pointer,
  exited, ◌>>=◌, deref, ℤ, pos, ltb_ℤ, ◌==ℤ◌, if◌then◌else◌, get_elem?,
}

-- A C string is the bytes before its terminator.
abbrev pub Bytes : Type 0
Bytes = List ℕ

pub record ServerInfo : Type 0 where
  pub id : ℤ
  pub addr : Bytes
  pub port : ℤ
  pub leader : ℤ
  pub tcp_socket : ℤ
  pub last_heartbeat : ℕ

unfoldable pub server_info_exist : ℤ → List ServerInfo → Bool
server_info_exist id [] = false
server_info_exist id (current ∷ next) =
    if current.id ==ℤ id then true else server_info_exist id next

-- `malloc` gives memory or not, and `now` is the clock.
pub create_server : (malloc : Bool) (now : ℕ) → ℤ → Bytes → ℤ → ℤ → ℤ → Result ServerInfo
create_server malloc now id address port leader tcp_socket =
    if not malloc
    then err (exited 1)
    else ok (record {
      id = id;
      addr = address;
      port = port;
      leader = leader;
      tcp_socket = tcp_socket;
      last_heartbeat = now;
    })

-- The walk to the last node, and the link behind it.
pub link_last : List ServerInfo → ServerInfo → List ServerInfo
link_last [] new_server = new_server ∷ []
link_last (current ∷ next) new_server = current ∷ link_last next new_server

pub append_server :
    (malloc : Bool) (now : ℕ) → List ServerInfo → ℤ → Bytes → ℤ → ℤ → ℤ → Result (List ServerInfo)
append_server malloc now head id address port leader tcp_socket =
    if server_info_exist id head
    then ok head
    else create_server malloc now id address port leader tcp_socket >>= λ new_server.
        ok (link_last head new_server)

-- The loop of `delete_server` reads `current->next->ID` with no test of `current->next`.
pub delete_server : List ServerInfo → ℤ → Result (List ServerInfo × ℕ)
delete_server [] id = ok ([], 0)
delete_server (current ∷ []) id = err null_pointer
delete_server (current ∷ next ∷ rest) id =
    let later = delete_server (next ∷ rest) id in
    if next.id ==ℤ id
    then ok (current ∷ rest, 1)
    else later >>= λ found. ok (current ∷ found.0, found.1)

-- The loop of `append_server_sorted`, from `current` on; the first node is never compared.
pub link_sorted : ServerInfo → List ServerInfo → ServerInfo → List ServerInfo
link_sorted current [] new_server = current ∷ new_server ∷ []
link_sorted current (next ∷ rest) new_server =
    if ltb_ℤ new_server.id next.id
    then current ∷ new_server ∷ next ∷ rest
    else current ∷ link_sorted next rest new_server

pub place_sorted : List ServerInfo → ServerInfo → List ServerInfo
unfolding link_sorted
place_sorted [] new_server = new_server ∷ []
place_sorted (head ∷ next) new_server = link_sorted head next new_server

pub append_server_sorted :
    (malloc : Bool) (now : ℕ) → List ServerInfo → ℤ → Bytes → ℤ → ℤ → ℤ → Result (List ServerInfo)
append_server_sorted malloc now head id address port leader tcp_socket =
    if server_info_exist id head
    then ok head
    else create_server malloc now id address port leader tcp_socket >>= λ new_server.
        ok (place_sorted head new_server)

-- The position whose next node has the socket, counted from `at`.
pub find_peer_socket : ℕ → ServerInfo → List ServerInfo → ℤ → Option ℕ
find_peer_socket at current [] sockfd = none
find_peer_socket at current (next ∷ rest) sockfd =
    if next.tcp_socket ==ℤ sockfd then some at else find_peer_socket (suc at) next rest sockfd

pub ist_peer_server : ℤ → List ServerInfo → Result (Option ℕ)
unfolding find_peer_socket
ist_peer_server sockfd [] = err null_pointer
ist_peer_server sockfd (head ∷ next) =
    if not (head.leader ==ℤ pos 1) then ok none else ok (find_peer_socket 0 head next sockfd)

pred_socket_from : ServerInfo → List ServerInfo → ℤ → Option ℤ
pred_socket_from current [] id = none
pred_socket_from current (next ∷ rest) id =
    if ltb_ℤ id next.id then some current.tcp_socket else pred_socket_from next rest id

get_pred_socket : ℤ → List ServerInfo → Result ℤ
unfolding pred_socket_from
get_pred_socket id [] = err null_pointer
get_pred_socket id (head ∷ []) = err null_pointer
get_pred_socket id (head ∷ first ∷ rest) = elim (pred_socket_from first rest id) [
  | some tcp_socket ↦ ok tcp_socket
  | none ↦ ok first.tcp_socket
]

get_last_peer_socket : List ServerInfo → Result ℤ
get_last_peer_socket [] = err null_pointer
get_last_peer_socket (current ∷ []) = ok current.tcp_socket
get_last_peer_socket (current ∷ next ∷ rest) = get_last_peer_socket (next ∷ rest)

-- The position of the first node behind the head whose ID is greater.
pub find_greater : ℕ → List ServerInfo → ℤ → Option ℕ
find_greater at [] id = none
find_greater at (next ∷ rest) id =
    if ltb_ℤ id next.id then some at else find_greater (suc at) rest id

-- `head->next`, which is NULL in a list of one node.
abbrev first_peer : List ServerInfo → Option ℕ
first_peer [] = none
first_peer (next ∷ rest) = some 1

pub get_successor : ℤ → List ServerInfo → Result (Option ℕ)
unfolding find_greater
get_successor id [] = err null_pointer
get_successor id (head ∷ next) = elim (find_greater 1 next id) [
  | some at ↦ ok (some at)
  | none ↦ ok (first_peer next)
]

pub find_before : ℕ → List ServerInfo → ℤ → Option ℕ
find_before at [] id = none
find_before at (next ∷ rest) id = if next.id ==ℤ id then some at else find_before (suc at) rest id

pub get_predecessor : ℤ → List ServerInfo → Result (Option ℕ)
unfolding find_before
get_predecessor id [] = err null_pointer
get_predecessor id (head ∷ next) = ok (find_before 0 next id)

pub last_from : ℕ → List ServerInfo → ℕ
last_from at [] = at
last_from at (next ∷ rest) = last_from (suc at) rest

pub get_last_server : List ServerInfo → Result ℕ
unfolding last_from
get_last_server [] = err null_pointer
get_last_server (head ∷ next) = ok (last_from 0 next)

unfoldable pub update_heartbeat_timeout : (now : ℕ) → List ServerInfo → ℤ → List ServerInfo
update_heartbeat_timeout now [] id = []
update_heartbeat_timeout now (current ∷ next) id =
    if current.id ==ℤ id
    then record current { last_heartbeat = now } ∷ next
    else current ∷ update_heartbeat_timeout now next id
