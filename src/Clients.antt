-- ===== src/Clients.antt =====
-- chat-c/chat_client.c: the table of connected clients and the messages between them, and
-- `accept_new_client` of chat-c/server_s.c. The table is an array of 20 entries, of which the first
-- `client_count` are in use. The copy that `addr` points to, which is only freed, is left out.
pub mod Table
pub mod Messages
pub mod Keeps
mod Tests
use ds_project.Base.{
  ℕ, zero, suc, ◌+◌, ◌-◌, Bool, true, false, not, ◌&&◌, List, [], ◌∷◌, ◌++◌, Option, none, some,
  Result, ok, err, exited, out_of_range, ℤ, pos, negsuc, is_valid_socket, ltb_ℤ, ◌==ℤ◌, ◌==◌, ltb,
  if◌then◌else◌, get_elem?, set, length, take, int_max,
}
use ds_project.Text.{Bytes, codes, Directive, int, word, lits, num, txt, print}
use ds_project.Frame.{buffer_size}
use ds_project.HoldBack.{increment}
use ds_project.Election.{same_bytes}
use ds_project.Server.{
  Env, Server, ClientInfo, max_connection, M, ◌>>=◌, ◌>>◌, return, lift, get_state, put_state,
  pad_buffer, overprint_buffer, send_buffer, close_socket, fd_set,
}

-- The entries in use.
abbrev pub clients : Server → List ClientInfo
clients s = take s.client_count s.client_array

-- `randomPort` and `MULTICAST_IP`.
abbrev pub random_port : ℤ
random_port = pos 8081

abbrev pub multicast_ip : Bytes
multicast_ip = codes "239.255.255.250"

-- A write to an array entry; one past the end stops the run.
abbrev pub write_client : ℕ → ClientInfo → M (Unit {0})
write_client k c s =
    if ltb k (length s.client_array)
    then ok (tt, record s { client_array = set s.client_array k c })
    else err out_of_range

-- The first client that passes the test, with its position.
abbrev pub find_client : (ClientInfo → Bool) → ℕ → List ClientInfo → Option (ℕ × ClientInfo)
find_client test k [] = none
find_client test k (c ∷ rest) = if test c then some (k, c) else find_client test (suc k) rest

-- `ClientArray[ci].id = sender_id` for every client with the socket.
abbrev register : ℤ → ℤ → ℕ → List ClientInfo → List ClientInfo
register fd id zero array = array
register fd id (suc n) [] = []
register fd id (suc n) (c ∷ rest) =
    (if c.socket ==ℤ fd then record c { id = id } else c) ∷ register fd id n rest

-- `for (cj = …; cj < client_count - 1; ++cj) ClientArray[cj] = ClientArray[cj + 1];`, by the rounds
-- that are left.
pub shift_left : ℕ → ℕ → List ClientInfo → List ClientInfo
shift_left zero cj array = array
shift_left (suc n) cj array = elim (get_elem? array (suc cj)) [
  | none ↦ array
  | some c ↦ shift_left n (suc cj) (set array cj c)
]

pub remove_client_from_list : ℤ → M (Unit {0})
unfolding shift_left
remove_client_from_list sockfd s = elim (find_client (λ c. c.socket ==ℤ sockfd) 0 (clients s)) [
  | none ↦ ok (tt, s)
  | some r ↦ ok (
    tt,
    record s {
      client_array = shift_left (s.client_count - 1 - r.0) r.0 s.client_array;
      client_count = s.client_count - 1;
    },
  )
]

get_client_id : ℤ → M ℤ
get_client_id socket s = elim (find_client (λ c. c.socket ==ℤ socket) 0 (clients s)) [
  | none ↦ ok (negsuc 0, s)
  | some r ↦ ok (r.1.id, s)
]

abbrev pub index_message : ℤ → Bytes
index_message clk_index =
    print
      (lits "GROUP_IP:"
        ++ (word buffer_size
            ∷ (lits ":GROUP_PORT:" ++ (int ∷ (lits ":INDEX:" ++ (int ∷ lits "\n\n"))))))
      (txt multicast_ip ∷ num random_port ∷ num clk_index ∷ [])

abbrev direct_message : ℤ → Bytes → Bytes
direct_message sender_id message =
    print
      (lits "[SENDER]: " ++ (int ∷ (lits "\n\t[MESSAGE]: " ++ (word buffer_size ∷ lits "\n\n"))))
      (num sender_id ∷ txt message ∷ [])

abbrev pub group_text : ℤ → ℤ → Bytes → Bytes
group_text sender_id group_id message =
    print
      (lits "[SENDER]: "
        ++ (int
            ∷ (lits "\n\t[GROUP]: "
                ++ (int ∷ (lits "\n\t[MESSAGE]: " ++ (word buffer_size ∷ lits "\n\n"))))))
      (num sender_id ∷ num group_id ∷ txt message ∷ [])

module _ (env : Env) where
  -- `client_ip` is what `getnameinfo` gives, `none` for a failure.
  pub assign_client_info : ℤ → Option Bytes → M (Unit {0})
  assign_client_info socket_client none s = ok (tt, s)
  assign_client_info socket_client (some client_ip) s =
      if s.client_count == max_connection
      then close_socket env socket_client s
      else if not (env.malloc s.trace)
      then err (exited 1)
      else (write_client s.client_count
              (record { id = pos 0; socket = socket_client; ip_addr = take 16 client_ip })
            >> (get_state >>= λ t. put_state (record t { client_count = suc t.client_count })))
          s

  -- `socket_client` is what `accept` gives.
  pub accept_new_client : ℤ → Option Bytes → M (Unit {0})
  unfolding assign_client_info
  accept_new_client socket_client client_ip s =
      if not (is_valid_socket socket_client)
      then ok (tt, s)
      else (fd_set socket_client >> assign_client_info socket_client client_ip) s

  -- One `send` of the buffer to each of the clients but the sender.
  pub send_to_others : ℤ → List ClientInfo → M (Unit {0})
  send_to_others sender_id [] s = ok (tt, s)
  send_to_others sender_id (c ∷ rest) s =
      if not (c.id ==ℤ sender_id)
      then (send_buffer env c.socket >> send_to_others sender_id rest) s
      else send_to_others sender_id rest s

  -- A client asks for its place in the vector clocks.
  get_index : ℤ → ℤ → M ℤ
  get_index sender_id fd s =
      (put_state (record s { client_array = register fd sender_id s.client_count s.client_array })
          >> (lift (increment s.clk_index) >>= λ next. get_state >>= λ t.
              put_state (record t { clk_index = next })
              >> pad_buffer (index_message s.clk_index)
              >> (send_buffer env fd >>= λ sent.
                  if ltb_ℤ sent (pos 1)
                  then close_socket env fd >> return (negsuc 0)
                  else return (pos 0))))
        s

  -- The part of `handle_client_message` that looks for one client.
  pub send_to_client : ℤ → ℤ → Bytes → M (Unit {0})
  send_to_client sender_id dest_id message s =
      elim (find_client (λ c. c.id ==ℤ dest_id) 0 (clients s)) [
        | none ↦ ok (tt, s)
        | some r ↦
            (overprint_buffer (direct_message sender_id message)
                >> (send_buffer env r.1.socket >>= λ sent. return tt))
              s
      ]

  pub handle_client_message : ℤ → ℤ → Bytes → ℤ → M ℤ
  unfolding get_index send_to_client send_to_others
  handle_client_message sender_id dest_id message fd s =
      if same_bytes message (codes "GET_INDEX")
      then get_index sender_id fd s
      else (send_to_client sender_id dest_id message
            >> (get_state >>= λ t.
                if dest_id ==ℤ t.group_id
                then overprint_buffer (group_text sender_id t.group_id message)
                  >> send_to_others sender_id (clients t)
                  >> return (pos 1)
                else return (pos 0)))
          s
