-- ===== src/TcpClients.antt =====
-- chat-c/server_struct.c: the list of TCP clients, and what its three operations promise.
use ds_project.Base.{
  ◌≤◌, ◌≡◌, refl, List, [], ◌∷◌, Option, none, some, ℤ, ◌==ℤ◌, if◌then◌else◌, length, length-take,
  take, arith,
}
use ds_project.Peers.{Bytes}

pub record TcpClient : Type 0 where
  pub socket_fd : ℤ
  pub ip : Bytes
  pub port : ℤ

-- `strncpy` into 16 bytes with the last one cleared keeps the first 15.
abbrev pub clip_ip : Bytes → Bytes
clip_ip ip = take 15 ip

-- The walk to the last client, and the link behind it.
pub append_tcp_client : List TcpClient → ℤ → Bytes → ℤ → List TcpClient
append_tcp_client [] socket_fd ip port =
    record { socket_fd = socket_fd; ip = clip_ip ip; port = port } ∷ []
append_tcp_client (current ∷ next) socket_fd ip port =
    current ∷ append_tcp_client next socket_fd ip port

pub delete_tcp_client : List TcpClient → ℤ → List TcpClient
delete_tcp_client [] socket_fd = []
delete_tcp_client (current ∷ next) socket_fd =
    if current.socket_fd ==ℤ socket_fd then next else current ∷ delete_tcp_client next socket_fd

pub search_tcp_client : List TcpClient → ℤ → Option TcpClient
search_tcp_client [] socket_fd = none
search_tcp_client (current ∷ next) socket_fd =
    if current.socket_fd ==ℤ socket_fd then some current else search_tcp_client next socket_fd

-- A search after an append: a socket that was known is answered as before; the new socket, if it was
-- not known, is answered by the new client, whose address has at most 15 bytes; any other is unknown.
pub search-append_tcp_client :
    (l : List TcpClient) (fd query : ℤ) (ip : Bytes) (port : ℤ)
    → (search_tcp_client (append_tcp_client l fd ip port) query ≡ elim (search_tcp_client l query) [
      | some c ↦ some c
      | none ↦
          if fd ==ℤ query
          then some (record { socket_fd = fd; ip = clip_ip ip; port = port })
          else none
    ])
      × (length (clip_ip ip) ≤ 15)
unfolding search_tcp_client append_tcp_client
search-append_tcp_client [] fd query ip port = (refl, omega (arith, length-take 15 ip))
search-append_tcp_client (c ∷ next) fd query ip port =
    ground (arith, search-append_tcp_client next fd query ip port)

-- A deletion of a socket that is not in the list changes nothing, and one of a socket that was just
-- appended, and was not known before, undoes the append.
pub delete-append_tcp_client :
    (l : List TcpClient) (fd : ℤ) (ip : Bytes) (port : ℤ)
    → search_tcp_client l fd ≡ none
    → (delete_tcp_client l fd ≡ l) × (delete_tcp_client (append_tcp_client l fd ip port) fd ≡ l)
unfolding search_tcp_client append_tcp_client delete_tcp_client
delete-append_tcp_client [] fd ip port h = (refl, ground arith)
delete-append_tcp_client (c ∷ next) fd ip port h =
    ground (arith, delete-append_tcp_client next fd ip port)
