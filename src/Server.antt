-- ===== src/Server.antt =====
-- The state of a chat server: its globals (chat-c/server_s.c, chat-c/chat_client.c,
-- chat-c/election_lcr.c) and its list of servers, and what it asks of the operating system. An
-- operation takes the state to a value and the next state, or stops.
pub mod Examples
pub mod Steps
use ds_project.Base.{
  ◌≡◌, ap, ℕ, zero, suc, ◌+◌, ◌-◌, ◌%◌, negsuc, length, ltb, out_of_range, Bool, not, List, [], ◌∷◌,
  Result, ok, err, deref, ℤ, pos, error_return, is_valid_socket, ltb_ℤ, ◌==ℤ◌, if◌then◌else◌,
  get_elem?,
}
use ds_project.Text.{Bytes, codes, print_int}
use ds_project.Peers.{ServerInfo}
use ds_project.Frame.{filled_with_zero, pad_message, sprintf_into}

-- `MAX_CONNECTION`.
abbrev pub max_connection : ℕ
max_connection = 20

pub record ClientInfo : Type 0 where
  pub id : ℤ
  pub socket : ℤ
  pub ip_addr : Bytes

-- What reached the operating system.
pub data Event : Type 0 where
  sent : ℤ → Bytes → Event
  closed : ℤ → Event
  connecting : ℤ → Bytes → ℤ → Event
  multicast : ℤ → Bytes → Event

-- The answers of the operating system, which may depend on all that happened before.
pub record Env : Type 0 where
  pub send : List Event → ℤ → Bytes → ℤ
  pub time : List Event → ℕ
  pub malloc : List Event → Bool
  pub getaddrinfo : List Event → Bytes → ℤ → ℤ
  pub socket : List Event → ℤ
  pub connect : List Event → ℤ → Bytes → ℤ → ℤ
  pub sendto : List Event → ℤ → Bytes → ℤ
  pub rand : ℕ → ℕ

-- `trace` is newest first. `master`, the set of descriptors that `main` waits on, `socket_max`, the
-- greatest of them, and the four sockets are locals of `main` that the functions reach through
-- pointers.
pub record Server : Type 0 where
  pub connected_peers : List ServerInfo
  pub participant : ℤ
  pub send_buf : Bytes
  pub group_id : ℤ
  pub client_array : List ClientInfo
  pub client_count : ℕ
  pub clk_index : ℤ
  pub master : List ℤ
  pub socket_max : ℤ
  pub udp_socket : ℤ
  pub mc_socket : ℤ
  pub ltcp_socket : ℤ
  pub successor_socket : ℤ
  pub trace : List Event

abbrev pub M : Type 0 → Type 0
M A = Server → Result (A × Server)

infixl 5 ◌>>=◌ ◌>>◌
abbrev pub ◌>>=◌ : {A B : Type 0} → M A → (A → M B) → M B
◌>>=◌ m f s = elim (m s) [ ok r ↦ f r.0 r.1 | err e ↦ err e ]

abbrev pub ◌>>◌ : {A B : Type 0} → M A → M B → M B
m >> k = m >>= λ _. k

abbrev pub return : {A : Type 0} → A → M A
return a s = ok (a, s)

abbrev pub lift : {A : Type 0} → Result A → M A
lift (ok a) s = ok (a, s)
lift (err e) s = err e

pub bind_ok :
    {A B : Type 0} (m : M A) (f : A → M B) {s t : Server} {a : A}
    → m s ≡ ok (a, t)
    → (m >>= f) s ≡ f a t
bind_ok m f e = ap (λ r. elim r [ ok q ↦ f q.0 q.1 | err w ↦ err w ]) e

abbrev pub get_state : M Server
get_state s = ok (s, s)

abbrev pub put_state : Server → M (Unit {0})
put_state t s = ok (tt, t)

-- The node at a position of the list; NULL stops the run.
abbrev pub peer : ℕ → M ServerInfo
peer k s = lift (deref (get_elem? s.connected_peers k)) s

-- A write to the node at a position.
abbrev pub update_peer : ℕ → (ServerInfo → ServerInfo) → List ServerInfo → List ServerInfo
update_peer k f [] = []
update_peer zero f (p ∷ rest) = f p ∷ rest
update_peer (suc k) f (p ∷ rest) = p ∷ update_peer k f rest

abbrev pub set_peers : List ServerInfo → M (Unit {0})
set_peers l s = ok (tt, record s { connected_peers = l })

abbrev pub set_participant : ℤ → M (Unit {0})
set_participant v s = ok (tt, record s { participant = v })

-- `memset(sendBuf, 0, …); sprintf(sendBuf, …)`.
abbrev pub print_buffer : Bytes → M (Unit {0})
print_buffer text s = elim (sprintf_into filled_with_zero text) [
  | ok buffer ↦ ok (tt, record s { send_buf = buffer })
  | err e ↦ err e
]

-- `sprintf(sendBuf, …)` over what the buffer holds.
abbrev pub overprint_buffer : Bytes → M (Unit {0})
overprint_buffer text s = elim (sprintf_into s.send_buf text) [
  | ok buffer ↦ ok (tt, record s { send_buf = buffer })
  | err e ↦ err e
]

-- `memset(sendBuf, 'x', …)`, the terminator, and `memcpy(sendBuf, message, strlen(message))`.
abbrev pub pad_buffer : Bytes → M (Unit {0})
pad_buffer text s = elim (pad_message text) [
  | ok buffer ↦ ok (tt, record s { send_buf = buffer })
  | err e ↦ err e
]

-- `FD_SET`, and the update of `socket_max` that follows it everywhere.
abbrev pub fd_set : ℤ → M (Unit {0})
fd_set fd s = ok (
  tt,
  record s {
    master = fd ∷ s.master;
    socket_max = if ltb_ℤ s.socket_max fd then fd else s.socket_max;
  },
)

-- The set without a descriptor.
abbrev pub without_fd : ℤ → List ℤ → List ℤ
without_fd fd [] = []
without_fd fd (d ∷ rest) = if d ==ℤ fd then without_fd fd rest else d ∷ without_fd fd rest

-- `FD_CLR`; a descriptor that is in no set, as -1, changes nothing.
abbrev pub fd_clr : ℤ → M (Unit {0})
fd_clr fd s = ok (tt, record s { master = without_fd fd s.master })

abbrev pub set_successor : ℤ → M (Unit {0})
set_successor fd s = ok (tt, record s { successor_socket = fd })

abbrev pub set_ltcp : ℤ → M (Unit {0})
set_ltcp fd s = ok (tt, record s { ltcp_socket = fd })

-- `char port[6]; sprintf(port, "%d", …)`: the text and its terminator must fit.
abbrev pub check_port : ℤ → M (Unit {0})
check_port port s = if ltb (length (print_int port)) 6 then ok (tt, s) else err out_of_range

module _ (env : Env) where
  -- `send(fd, sendBuf, BUFFER_SIZE, 0)`.
  abbrev pub send_buffer : ℤ → M ℤ
  send_buffer fd s =
      ok (env.send s.trace fd s.send_buf, record s { trace = sent fd s.send_buf ∷ s.trace })

  abbrev pub close_socket : ℤ → M (Unit {0})
  close_socket fd s = ok (tt, record s { trace = closed fd ∷ s.trace })

  abbrev pub time_now : M ℕ
  time_now s = ok (env.time s.trace, s)

  -- chat-c/socket_setup.c.
  unfoldable pub setup_tcp_client : Bytes → ℤ → M ℤ
  setup_tcp_client address port s =
      let fd = env.socket s.trace in
      let asked = record s { trace = connecting fd address port ∷ s.trace } in
      if not (env.getaddrinfo s.trace address port ==ℤ pos 0)
      then ok (error_return, s)
      else if not (is_valid_socket fd)
      then ok (error_return, s)
      else if not (env.connect s.trace fd address port ==ℤ pos 0)
      then ok (error_return, asked)
      else ok (fd, asked)

  -- A connection to an address, with its port put into text first.
  abbrev pub connect_to : Bytes → ℤ → M ℤ
  connect_to address port = check_port port >> setup_tcp_client address port

  -- `getRadomId` of chat-c/server_s.c seeds the generator with the time.
  abbrev pub random_id : ℕ → ℕ → M ℤ
  random_id min max = time_now >>= λ now. return (pos (env.rand now % (max - min + 1) + min))

  -- `do_multicast` of chat-c/multicast.c, which every caller gives the socket of the state and
  -- `sendBuf`. The copy of the text that it makes afterwards is not used.
  abbrev pub do_multicast : M ℤ
  do_multicast s =
      let done = record s { trace = multicast s.mc_socket s.send_buf ∷ s.trace } in
      if not (env.getaddrinfo s.trace (codes "239.255.255.250") (pos 12345) ==ℤ pos 0)
      then ok (error_return, s)
      else if env.sendto s.trace s.mc_socket s.send_buf ==ℤ negsuc 0
      then ok (error_return, done)
      else ok (pos 0, done)
