-- ===== src/Discovery/Answer.antt =====
-- A server that starts reads the answer of the leader.
use ds_project.Base.{
  ◌≡◌, ◌≢◌, ◌<◌, ◌∙◌, refl, ap, subst, true, false, [], ◌∷◌, ◌++◌, append_assoc, some, ok, ℤ, pos,
  if◌then◌else◌, arith, All, leb, ltb, length, take_all, Bool-cases, inl, inr, error_return,
  is_valid_socket, not,
}
use ds_project.Text.{Bytes, scan}
use ds_project.Frame.{buffer_size, filled_with_zero}
use ds_project.Frame.RoundTrip.{IsText, IsPlain, end_mark, receive-overlay}
use ds_project.Peers.{ServerInfo, server_info_exist}
use ds_project.Peers.Insert.{fresh_server, append_server_cases}
use ds_project.Disconnection.Ring.{with_peers}
use ds_project.SocketChanges.{add_last}
use ds_project.SocketChanges.Understood.{IsAddress}
use ds_project.Server.Steps.{Connects, connect_lem}
use ds_project.Server.{
  Env, Server, ◌>>=◌, ◌>>◌, return, bind_ok, connecting, connect_to, set_successor, close_socket,
}
use ds_project.Joining.{welcome_text}
use ds_project.Discovery.{
  connect_successor, read_heard, Welcome, Caller, finished, welcome_format, welcome_values,
  leader_answered, read_answer,
}
use ds_project.Discovery.Understood.{
  welcome_read, welcome_text_parts, welcome_read-IsText, welcome_values-scan,
}

some_byte : (t u : Bytes) → t ++ (end_mark ++ u) ≢ []
some_byte [] u e = cc
some_byte (c ∷ t) u e = cc

payload_lem :
    (env : Env) (s : Server) (caller : Caller) (payload : Bytes)
    → payload ≢ []
    → length payload < buffer_size
    → read_answer env caller (some payload) s ≡ read_heard env caller payload s
unfolding read_answer
payload_lem env s caller [] some_byte fits = absurd (some_byte refl)
payload_lem env s caller (c ∷ payload) some_byte fits =
    ap (λ heard. read_heard env caller heard s)
      (take_all buffer_size (c ∷ payload) (omega (arith, fits)))

read_heard_lem :
    (env : Env) (s : Server) (caller : Caller) (t u : Bytes) (w : Welcome)
    → IsText t
    → length (t ++ (end_mark ++ u)) < buffer_size
    → welcome_values (scan welcome_format t) ≡ some w
    → read_heard env caller (t ++ (end_mark ++ u)) s
      ≡ (leader_answered env caller w >>= λ fd. return (finished fd)) s
unfolding read_heard
read_heard_lem env s caller t u w text fits read =
    rw
      (
        read_heard,
        receive-overlay t u filled_with_zero text,
        let small : ltb (length (t ++ (end_mark ++ u))) buffer_size ≡ true = ground (arith, fits) in
            small,
        read,
      )
      refl

module _ (env : Env) (s : Server) (self : ServerInfo) (caller : Caller) (w : Welcome) (fd : ℤ) where
  -- The leader's node, and the successor's.
  abbrev pub leader_listed : ServerInfo
  leader_listed = fresh_server (env.time s.trace) w.id caller.addr self.port (pos 1) caller.socket

  abbrev pub successor_listed : ServerInfo
  successor_listed =
      fresh_server (env.time (connecting fd w.successor_ip w.port ∷ s.trace)) w.successor_id
        w.successor_ip w.port (pos 0) fd

  -- The server's list once it has joined: itself and the leader, and the successor, if there is one.
  abbrev pub member : Server
  member =
      if leb 8 (length w.successor_ip)
      then record s {
        connected_peers = record self { leader = pos 0 } ∷ leader_listed ∷ successor_listed ∷ [];
        successor_socket = fd;
        trace = connecting fd w.successor_ip w.port ∷ s.trace;
      }
      else record s { connected_peers = record self { leader = pos 0 } ∷ leader_listed ∷ [] }

  -- The list with the leader.
  with_leader : Server
  with_leader = with_peers (record self { leader = pos 0 } ∷ leader_listed ∷ []) s

  connect_successor_lem :
      server_info_exist w.successor_id (record self { leader = pos 0 } ∷ leader_listed ∷ []) ≡ false
      → Connects env s.trace w.successor_ip w.port fd
      → connect_successor env caller w with_leader ≡ ok (caller.socket, member)
  unfolding connect_successor with_leader
  connect_successor_lem next h = elim (Bool-cases (leb 8 (length w.successor_ip))) [
    | inl far ↦
        rw (connect_successor, far)
          (bind_ok (connect_to env w.successor_ip w.port)
              (λ fd.
                if not (is_valid_socket fd)
                then close_socket env caller.socket >> return error_return
                else (set_successor fd
                    >> add_last env w.successor_id w.successor_ip w.port (pos 0) fd
                    >> return caller.socket))
              {s = with_leader} (connect_lem env with_leader w.successor_ip w.port fd h)
            ∙ rw
                (
                  h.valid,
                  ◌>>◌,
                  ◌>>=◌,
                  add_last,
                  append_server_cases (env.malloc (connecting fd w.successor_ip w.port ∷ s.trace))
                      (env.time (connecting fd w.successor_ip w.port ∷ s.trace))
                      (record self { leader = pos 0 } ∷ leader_listed ∷ []) w.successor_id
                      w.successor_ip w.port (pos 0) fd,
                  next,
                  h.memory,
                )
                refl)
    | inr near ↦ rw (connect_successor, near) refl
  ]

  leader_answered_lem :
      env.malloc s.trace ≡ true
      → server_info_exist w.id (record self { leader = pos 0 } ∷ []) ≡ false
      → server_info_exist w.successor_id (record self { leader = pos 0 } ∷ leader_listed ∷ [])
        ≡ false
      → Connects env s.trace w.successor_ip w.port fd
      → leader_answered env caller w (with_peers (self ∷ []) s) ≡ ok (caller.socket, member)
  unfolding leader_answered with_leader
  leader_answered_lem memory new next h =
      bind_ok (add_last env w.id caller.addr self.port (pos 1) caller.socket)
        (λ _. connect_successor env caller w)
        {s = with_peers (record self { leader = pos 0 } ∷ []) s} {t = with_leader}
        (rw
          (
            add_last,
            ◌>>=◌,
            append_server_cases (env.malloc s.trace) (env.time s.trace)
                (record self { leader = pos 0 } ∷ []) w.id caller.addr self.port (pos 1)
                caller.socket,
            new,
            memory,
          )
          refl)
      ∙ connect_successor_lem next h

  -- The leader's answer, as it prints it for a server that joins (`welcome`, or `first_welcome` with
  -- the address 0.0.0.0), is understood by that server, which knows itself only, if the part of the
  -- message that arrives holds the text and is shorter than the buffer: it ends as no leader, with
  -- the leader second in its list, under the address that the connection came from, and, if
  -- the address of the successor has eight bytes or more, with the successor third, connected. The
  -- answer is the leader's socket. The address has 1 to 15 bytes and no colon, newline or zero byte;
  -- the IDs differ, there is memory, and the operating system connects a socket to the address.
  pub read_answer-welcome_text :
      (u : Bytes)
      → IsAddress w.successor_ip
      → All IsPlain w.successor_ip
      → length (welcome_text w.id w.successor_ip w.port w.successor_id ++ u) < buffer_size
      → env.malloc s.trace ≡ true
      → server_info_exist w.id (self ∷ []) ≡ false
      → server_info_exist w.successor_id (self ∷ leader_listed ∷ []) ≡ false
      → Connects env s.trace w.successor_ip w.port fd
      → read_answer env caller
          (some (welcome_text w.id w.successor_ip w.port w.successor_id ++ u))
          (with_peers (self ∷ []) s)
        ≡ ok (finished caller.socket, member)
  unfolding server_info_exist
  read_answer-welcome_text u addressed plain fits memory new next h =
      let t = welcome_read w.id w.successor_ip w.port w.successor_id in
      let parts : welcome_text w.id w.successor_ip w.port w.successor_id ++ u
          ≡ t ++ (end_mark ++ u) =
        ap (λ x. x ++ u) (welcome_text_parts w.id w.successor_ip w.port w.successor_id)
        ∙ append_assoc t end_mark u in
      let small : length (t ++ (end_mark ++ u)) < buffer_size =
        subst (λ x. length x < buffer_size) parts fits in
      ap (λ p. read_answer env caller (some p) (with_peers (self ∷ []) s)) parts
      ∙ payload_lem env (with_peers (self ∷ []) s) caller (t ++ (end_mark ++ u)) (some_byte t u)
          small
      ∙ read_heard_lem env (with_peers (self ∷ []) s) caller t u w
          (welcome_read-IsText w.id w.successor_ip w.port w.successor_id plain) small
          (welcome_values-scan w.id w.successor_ip w.port w.successor_id addressed)
      ∙ bind_ok (leader_answered env caller w) (λ fd. return (finished fd))
          {s = with_peers (self ∷ []) s} (leader_answered_lem memory new next h)
