-- ===== src/SocketChanges/Successor.antt =====
-- A server that is told its new successor by the leader.
use ds_project.Base.{
  ◌≡◌, ◌≢◌, subst, ◌<◌, ◌∙◌, refl, ap, [], ◌∷◌, ◌++◌, append-nil, append_assoc, true, false, some,
  ok, ℤ, pos, ◌==ℤ◌, ==ℤ_refl, arith, length, length-append, take_all, ltb, ltb_ℤ, if◌then◌else◌,
  All,
}
use ds_project.Text.{Bytes, codes, num, txt, print}
use ds_project.GroupChat.CleanText.{literal-IsText}
use ds_project.Disconnection.{update_text}
use ds_project.SocketChanges.Understood.{IsAddress, parse-update, take_short}
use ds_project.Frame.{buffer_size, filled_with_zero}
use ds_project.Frame.RoundTrip.{
  IsText, IsPlain, IsText-append, is_text-IsText, IsPlain-IsText, end_mark, receive-overlay,
}
use ds_project.Peers.{ServerInfo, server_info_exist}
use ds_project.Peers.Insert.{fresh_server, append_server_cases}
use ds_project.Peers.Positions.{delete_server-behind}
use ds_project.Server.Steps.{Connects, connect_lem}
use ds_project.Server.{
  Env, Server, ◌>>=◌, ◌>>◌, connect_to, connecting, closed, without_fd, bind_ok,
}
use ds_project.SocketChanges.{
  take_message, handle_message, handle_socket_change, parse, update_format, take_successor,
  replace_successor, add_last,
}
use ds_project.Election.{unlink}

-- The state in which the new successor stands third.
abbrev pub with_successor : Env → Server → ServerInfo → ServerInfo → ℤ → Bytes → ℤ → ℤ → Server
with_successor env s self leader id addr port fd =
    let asked = connecting fd addr port ∷ s.trace in
    record s {
      connected_peers = self ∷ leader ∷ fresh_server (env.time asked) id addr port (pos 0) fd ∷ [];
      master = fd ∷ without_fd s.successor_socket s.master;
      socket_max = if ltb_ℤ s.socket_max fd then fd else s.socket_max;
      successor_socket = fd;
      trace = closed s.successor_socket ∷ asked;
    }

module _ (env : Env) (s : Server) (self leader old : ServerInfo) (id port fd : ℤ) (addr : Bytes)
    (h : Connects env s.trace addr port fd) (differ : leader.id ≢ old.id)
    (new : server_info_exist id (self ∷ leader ∷ []) ≡ false) where
  replace_successor_lem :
      replace_successor env id addr port fd (record s {
        connected_peers = self ∷ leader ∷ old ∷ [];
        trace = connecting fd addr port ∷ s.trace;
      })
      ≡ ok (tt, with_successor env s self leader id addr port fd)
  unfolding replace_successor
  replace_successor_lem =
      let cut = delete_server-behind self old (leader ∷ []) [] (differ, tt) in
      let asked = connecting fd addr port ∷ s.trace in
      let added =
        append_server_cases (env.malloc asked) (env.time asked) (self ∷ leader ∷ []) id addr port
          (pos 0) fd in
      rw (h.valid, ◌>>◌, ◌>>=◌, unlink, cut, add_last, added, new, h.memory) refl

  take_successor_lem :
      take_successor env id addr port (record s { connected_peers = self ∷ leader ∷ old ∷ [] })
      ≡ ok (tt, with_successor env s self leader id addr port fd)
  unfolding take_successor
  take_successor_lem =
      bind_ok (connect_to env addr port) (replace_successor env id addr port)
        {s = record s { connected_peers = self ∷ leader ∷ old ∷ [] }}
        (connect_lem env (record s { connected_peers = self ∷ leader ∷ old ∷ [] }) addr port fd h)
      ∙ replace_successor_lem

-- A part of a message, up to a byte behind its end mark, is read whole.
message_lem :
    (env : Env) (s : Server) (i : ℤ) (t u : Bytes)
    → IsText t
    → length (t ++ (end_mark ++ u)) < buffer_size
    → (i ==ℤ s.udp_socket) ≡ false
    → take_message env i (t ++ (end_mark ++ u)) s
      ≡ handle_message env i t (parse (i ==ℤ s.ltcp_socket) t) s
unfolding take_message
message_lem env s i t u text fits other =
    rw (take_message, receive-overlay t u filled_with_zero text)
      (rw
        (
          other,
          let small : ltb (length (t ++ (end_mark ++ u))) buffer_size ≡ true =
                ground (arith, fits) in
              small,
        )
        refl)

payload_lem :
    (env : Env) (s : Server) (i : ℤ) (payload : Bytes)
    → payload ≢ []
    → length payload < buffer_size
    → handle_socket_change env i (some payload) s ≡ take_message env i payload s
unfolding handle_socket_change
payload_lem env s i [] some_byte fits = absurd (some_byte refl)
payload_lem env s i (c ∷ payload) some_byte fits =
    ap (λ heard. take_message env i heard s)
      (take_all buffer_size (c ∷ payload) (omega (arith, fits)))

-- The text of the update, without its end mark.
abbrev update_read : Bytes → ℤ → ℤ → Bytes
update_read addr id port = print update_format (txt addr ∷ num id ∷ num port ∷ [])

update_read-IsText :
    (addr : Bytes) (id port : ℤ) → All IsPlain addr → IsText (update_read addr id port)
unfolding print
update_read-IsText addr id port plain =
    let tail = literal-IsText ":" id _ refl (literal-IsText ":" port [] refl (tt, tt)) in
    IsText-append (codes "UPDATE_FROM_LEADER:") _
      (is_text-IsText (codes "UPDATE_FROM_LEADER:") refl)
      (IsText-append addr _ (IsPlain-IsText addr plain) tail)

update_read_some :
    (addr : Bytes) (id port : ℤ) (rest : Bytes) → update_read addr id port ++ rest ≢ []
unfolding print
update_read_some addr id port rest e = cc

update_text_parts :
    (addr : Bytes) (id port : ℤ)
    → length (update_text addr id port) < 1023
    → update_text addr id port ≡ update_read addr id port ++ end_mark
unfolding print
update_text_parts addr id port short =
    rw (take_short 1023 _ short) (simp (append_assoc, append-nil))

-- What the leader prints when a successor is gone, or has joined, as a server reads it from the
-- leader's socket, which knows a leader and an old successor behind itself. If the part that arrives
-- holds the text and is shorter than the buffer, and the operating system connects a socket to the
-- address, then the server named is third in the list, under its address, ID, port and the new
-- socket; the old successor is unlinked, and its socket is closed and no longer waited on. The
-- address has 1 to 15 bytes and no colon, newline or zero byte, the ID is new, and the leader's socket
-- is not the one for datagrams.
pub update_text-handled :
    (env : Env) (s : Server) (self leader old : ServerInfo) (id port fd : ℤ) (addr u : Bytes)
    → Connects env s.trace addr port fd
    → leader.id ≢ old.id
    → server_info_exist id (self ∷ leader ∷ []) ≡ false
    → IsAddress addr
    → All IsPlain addr
    → length (update_text addr id port ++ u) < buffer_size
    → (s.ltcp_socket ==ℤ s.udp_socket) ≡ false
    → handle_socket_change env s.ltcp_socket
        (some (update_text addr id port ++ u))
        (record s { connected_peers = self ∷ leader ∷ old ∷ [] })
      ≡ ok (tt, with_successor env s self leader id addr port fd)
unfolding handle_message
update_text-handled env s self leader old id port fd addr u h differ new addressed plain fits
      other =
    let ring = record s { connected_peers = self ∷ leader ∷ old ∷ [] } in
    let t = update_read addr id port in
    let short : length (update_text addr id port) < 1023 =
      omega (arith, length-append (update_text addr id port) u, fits) in
    let parts : update_text addr id port ++ u ≡ t ++ (end_mark ++ u) =
      ap (λ x. x ++ u) (update_text_parts addr id port short) ∙ append_assoc t end_mark u in
    let small : length (t ++ (end_mark ++ u)) < buffer_size =
      subst (λ x. length x < buffer_size) parts fits in
    ap (λ p. handle_socket_change env s.ltcp_socket (some p) ring) parts
    ∙ payload_lem env ring s.ltcp_socket (t ++ (end_mark ++ u)) (update_read_some addr id port _)
        small
    ∙ message_lem env ring s.ltcp_socket t u (update_read-IsText addr id port plain) small other
    ∙ rw (==ℤ_refl s.ltcp_socket, parse-update addr id port addressed)
        (take_successor_lem env s self leader old id port fd addr h differ new)
