-- ===== src/ChatClient/Texts.antt =====
-- The texts between a chat client and a server: each is printed by one program and scanned by the
-- other.
use ds_project.Base.{
  ◌≡◌, ◌≢◌, ◌≤◌, refl, Bool, true, [], ◌∷◌, ◌++◌, append_assoc, append-nil, some, ℤ, pos, All,
  all-All, length, length-append, arith, not, ◌==◌, take, ok, ◌+◌, ◌<◌,
}
use ds_project.Text.{Bytes, codes, lits, int, num, txt, scan, print, print_int}
use ds_project.Frame.{newline, overlay, buffer_size, receive, c_string, filled_with_x}
use ds_project.Frame.RoundTrip.{
  IsText, IsPlain, IsText-append, is_text-IsText, IsPlain-IsText, end_mark, receive-datagram,
}
use ds_project.GroupChat.CleanText.{literal-IsText}
use ds_project.GroupChat.{Client, unicast, send_unicast}
use ds_project.ChatClient.Calls.{fill_buffer_fits}
use ds_project.Peers.{ServerInfo}
use ds_project.Server.{Env, Server}
use ds_project.Clients.{index_message, multicast_ip, random_port}
use ds_project.Joining.{client_text, new_client, peer_mcast_receive}
use ds_project.SocketChanges.{client, client_format, parse}
use ds_project.SocketChanges.Understood.{
  IsAddress, is_address-IsAddress, IsReadAs, scan_whole, scan_other, parse-client,
}
use ds_project.ChatClient.Start.{
  new_client_text, index_request, service_format, service_values, index_format, index_values,
}

-- The leader's answer without its end mark, and the answer to the request for an index.
abbrev pub service_read : ℤ → ServerInfo → Bytes
service_read id head = print service_format (num id ∷ txt head.addr ∷ num head.port ∷ [])

abbrev pub index_read : ℤ → Bytes
index_read index = print index_format (txt multicast_ip ∷ num random_port ∷ num index ∷ [])

pub client_text_parts :
    (id : ℤ) (head : ServerInfo) → client_text id head ≡ service_read id head ++ end_mark
unfolding print
client_text_parts id head = simp (append_assoc, append-nil)

pub service_read-IsText :
    (id : ℤ) (head : ServerInfo) → All IsPlain head.addr → IsText (service_read id head)
unfolding print
service_read-IsText id head plain = literal-IsText "LEADER:YOUR_ID:" id _ refl (
    IsText-append (codes ":SERVER_IP:") _ (is_text-IsText (codes ":SERVER_IP:") refl) (
      IsText-append head.addr _ (IsPlain-IsText head.addr plain)
        (literal-IsText ":SERVER_PORT:" head.port [] refl (tt, tt))))

pub service_values-scan :
    (id : ℤ) (head : ServerInfo)
    → IsAddress head.addr
    → service_values (scan service_format (service_read id head)) ≡ some (id, head.addr, head.port)
unfolding print
service_values-scan id head h =
    rw
      (scan_whole service_format (num id ∷ txt head.addr ∷ num head.port ∷ [])
        (refl, ((h.0, h.1, h.2, refl), (tt, tt))))
      refl

pub index_message_parts : (index : ℤ) → index_message index ≡ index_read index ++ end_mark
unfolding print
index_message_parts index = simp (append_assoc, append-nil)

pub index_read-IsText : (index : ℤ) → IsText (index_read index)
unfolding print print_int
index_read-IsText index =
    literal-IsText "GROUP_IP:239.255.255.250:GROUP_PORT:8081:INDEX:" index [] refl (tt, tt)

pub index_values-scan :
    (index : ℤ)
    → index_values (scan index_format (index_read index)) ≡ some (multicast_ip, random_port, index)
unfolding print
index_values-scan index =
    rw
      (scan_whole index_format (txt multicast_ip ∷ num random_port ∷ num index ∷ [])
        ((h.0, h.1, h.2, refl), (refl, (tt, tt))))
      refl
  where
    h : IsAddress multicast_ip
    h = is_address-IsAddress multicast_ip refl

-- The announcement of a client whose port is a number.
abbrev new_client_read : ℤ → Bytes
new_client_read port = print (lits "NEW_CLIENT:" ++ (int ∷ [])) (num port ∷ [])

new_client_text_parts :
    (port : ℤ) → new_client_text (print_int port) ≡ new_client_read port ++ end_mark
unfolding print
new_client_text_parts port = simp (append_assoc, append-nil)

not_discovery :
    (port : ℤ)
    → scan (lits "LEADER_DISCOVERY:" ++ (int ∷ (lits ":" ++ (int ∷ [])))) (new_client_read port)
      ≡ []
unfolding print
not_discovery port = scan_other b'L' b'N' _ _ refl

not_who :
    (port : ℤ)
    → scan (lits "WHO_IS_LEADER:" ++ (int ∷ (lits ":" ++ (int ∷ [])))) (new_client_read port) ≡ []
unfolding print
not_who port = scan_other b'W' b'N' _ _ refl

-- A leader takes the announcement of a client for what it is.
peer_mcast_receive-new_client :
    (env : Env) (s : Server) (port : ℤ) (addr : Bytes)
    → peer_mcast_receive env (new_client_read port) addr s ≡ new_client env port addr s
unfolding peer_mcast_receive print
peer_mcast_receive-new_client env s port addr =
    rw
      (
        peer_mcast_receive,
        not_discovery port,
        not_who port,
        scan_whole (lits "NEW_CLIENT:" ++ (int ∷ [])) (num port ∷ []) (tt, tt),
      )
      refl

index_request-IsReadAs :
    (b : Bool) (id : ℤ) → IsReadAs (index_request id) b (client id (pos 0) (codes "GET_INDEX"))
unfolding print print_int
index_request-IsReadAs b id = (
  print client_format (num id ∷ num (pos 0) ∷ txt (codes "GET_INDEX") ∷ []),
  simp (append_assoc, append-nil),
  parse-client b id (pos 0) (codes "GET_INDEX")
      ((λ e. cc), omega arith, all-All (λ c. not (c == newline)) (codes "GET_INDEX") refl, tt),
)

-- A unicast that was typed, without its end mark.
abbrev pub unicast_read : ℤ → ℤ → Bytes → Bytes
unicast_read sender dest t = print client_format (num sender ∷ num dest ∷ txt t ∷ [])

-- The line `dest:t`, as `fgets` gives it.
abbrev pub unicast_line : ℤ → Bytes → Bytes
unicast_line dest t = print_int dest ++ (b':' ∷ (t ++ newline ∷ []))

unicast_text_parts :
    (sender dest : ℤ) (t : Bytes)
    → print (lits "CLIENT:" ++ (int ∷ lits ":")) (num sender ∷ [])
        ++ (unicast_line dest t ++ codes "\n\n")
      ≡ unicast_read sender dest t ++ newline ∷ newline ∷ newline ∷ []
unfolding print
unicast_text_parts sender dest t = simp (append_assoc, append-nil)

unicast_read-IsText :
    (sender dest : ℤ) (t : Bytes) → All IsPlain t → IsText (unicast_read sender dest t)
unfolding print
unicast_read-IsText sender dest t plain = literal-IsText "CLIENT:" sender _ refl (
    literal-IsText ":" dest _ refl (
      IsText-append (codes ":") _ (is_text-IsText (codes ":") refl)
        (IsText-append t [] (IsPlain-IsText t plain) (tt, tt))))

abbrev unicast_sent : ℤ → ℤ → Bytes → Bytes
unicast_sent sender dest t = unicast_read sender dest t ++ newline ∷ newline ∷ newline ∷ []

unicast_fits :
    (sender dest : ℤ) (t : Bytes)
    → length (unicast_read sender dest t) + 3 < buffer_size
    → length (unicast_sent sender dest t) < buffer_size
unicast_fits sender dest t short =
    omega (arith, length-append (unicast_read sender dest t) (newline ∷ newline ∷ newline ∷ []))

length-unicast_read : (sender dest : ℤ) (t : Bytes) → length t ≤ length (unicast_read sender dest t)
unfolding print
length-unicast_read sender dest t = omega (
  arith,
  length-append (print_int sender) (b':' ∷ (print_int dest ++ (b':' ∷ (t ++ [])))),
  length-append (print_int dest) (b':' ∷ (t ++ [])),
  length-append t [],
)

plain_line : (t : Bytes) → All IsPlain t → All (λ c. not (c == newline) ≡ true) t
plain_line [] h = tt
plain_line (c ∷ t) h = (rw h.0.1 refl, plain_line t h.1)

-- The servers take the texts of a client for what they are: the announcement of a client whose port is
-- a number is a client that joins; the request for an index is a message of that client to nobody; and
-- a line `dest:t`, with a number and a text of plain bytes, is sent as a message `t` to that number,
-- if the whole text is shorter than the buffer. What arrives is read on any socket, into any buffer.
pub requests-understood :
    (env : Env) (s : Server) (port : ℤ) (addr : Bytes) (b : Bool) (c : Client) (dest : ℤ)
    (t before : Bytes)
    → t ≢ []
    → All IsPlain t
    → length (unicast_read c.self_id dest t) + 3 < buffer_size
    → ((read : Bytes) × (new_client_text (print_int port) ≡ read ++ end_mark)
        × (peer_mcast_receive env read addr s ≡ new_client env port addr s))
      × IsReadAs (index_request c.self_id) b (client c.self_id (pos 0) (codes "GET_INDEX"))
      × ((payload read : Bytes) × (d : Client) × (send_unicast c (unicast_line dest t)
            ≡ ok (unicast payload, d))
          × (receive (overlay (take buffer_size payload) before) ≡ some read)
          × (parse b read ≡ client c.self_id dest t))
unfolding send_unicast
requests-understood env s port addr b c dest t before nonempty plain short = (
  (new_client_read port, new_client_text_parts port, peer_mcast_receive-new_client env s port addr),
  index_request-IsReadAs b c.self_id,
  (
    c_string (overlay (unicast_sent c.self_id dest t) filled_with_x),
    unicast_read c.self_id dest t,
    record c { buffer = overlay (unicast_sent c.self_id dest t) filled_with_x },
    rw
        (
          unicast_text_parts c.self_id dest t,
          fill_buffer_fits c (unicast_sent c.self_id dest t) (unicast_fits c.self_id dest t short),
        )
        refl,
    receive-datagram (unicast_read c.self_id dest t) (newline ∷ []) filled_with_x before
        (unicast_read-IsText c.self_id dest t plain)
        (omega (arith, unicast_fits c.self_id dest t short)) (omega arith),
    parse-client b c.self_id dest t
        (nonempty, omega (arith, length-unicast_read c.self_id dest t), plain_line t plain, tt),
  ),
)
