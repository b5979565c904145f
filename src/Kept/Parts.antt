-- ===== src/Kept/Parts.antt =====
-- The parts of a server's operations, each with the proof that it keeps what a server keeps.
use ds_project.Base.{
  ◌≡◌, refl, subst, sym, ◌∙◌, Bool-cases, inl, inr, ℕ, suc, ℤ, List, [], ◌∷◌, Result, ok, err,
  length, if◌then◌else◌, get_elem?, deref, ltb, not, ◌==ℤ◌, pos, negsuc, error_return,
  is_valid_socket, out_of_range, ◌+◌, ◌-◌, ◌%◌,
}
use ds_project.Text.{Bytes, codes, print_int}
use ds_project.Frame.{pad_message, sprintf_into, filled_with_zero}
use ds_project.Peers.{ServerInfo, delete_server, server_info_exist}
use ds_project.Peers.Delete.{delete_server_cases}
use ds_project.Server.{
  Env, Server, connecting, multicast, ◌>>=◌, lift, get_state, put_state, peer, update_peer,
  set_peers, set_participant, print_buffer, overprint_buffer, pad_buffer, fd_set, fd_clr,
  set_successor, set_ltcp, check_port, send_buffer, close_socket, time_now, setup_tcp_client,
  do_multicast,
}
use ds_project.Kept.{
  IsHeadedBy, IsKept, Ends, Keeps, Kept, Keeps-lift, stop, ◌then◌, ◌next◌, test_end, done,
}

module _ (self : ServerInfo) where
  pub Ends-set_peers :
      (r : Result (List ServerInfo)) (s : Server)
      → IsKept self s
      → ((l : List ServerInfo) → r ≡ ok l → IsHeadedBy self l)
      → Ends self ((lift r >>= set_peers) s)
  Ends-set_peers (ok l) s h headed = (h.0, h.1, headed l refl)
  Ends-set_peers (err e) s h headed = tt

  pub Ends-deleted :
      (r : Result (List ServerInfo × ℕ)) (s : Server)
      → IsKept self s
      → ((q : List ServerInfo × ℕ) → r ≡ ok q → IsHeadedBy self q.0)
      → Ends self ((lift r >>= λ q. set_peers q.0) s)
  Ends-deleted (ok q) s h headed = (h.0, h.1, headed q refl)
  Ends-deleted (err e) s h headed = tt

  pub Ends-printed :
      (r : Result Bytes) (s : Server)
      → IsKept self s
      → Ends self (elim r [ ok b ↦ ok (tt, record s { send_buf = b }) | err e ↦ err e ])
  Ends-printed (ok b) s h = h
  Ends-printed (err e) s h = tt

pub headed-update_behind :
    (self : ServerInfo) (k : ℕ) (f : ServerInfo → ServerInfo) (l : List ServerInfo)
    → IsHeadedBy self l
    → IsHeadedBy self (update_peer (suc k) f l)
headed-update_behind self k f [] h = absurd h
headed-update_behind self k f (p ∷ rest) h = h

-- The deletion of a node leaves the head.
pub headed-delete_server :
    (self : ServerInfo) (l : List ServerInfo) (id : ℤ) (r : List ServerInfo × ℕ)
    → delete_server l id ≡ ok r
    → IsHeadedBy self l
    → IsHeadedBy self r.0
headed-delete_server self [] id r e h = absurd h
headed-delete_server self (head ∷ peers) id r e h =
    subst (λ q. elim q [ ok x ↦ IsHeadedBy self x.0 | err w ↦ Unit ])
      (sym (delete_server_cases head peers id) ∙ e)
      (elim (Bool-cases (server_info_exist id peers)) [ inl k ↦ rw k h | inr k ↦ rw k tt ])

module _ (self : ServerInfo) where
  pub check_port-Keeps : (port : ℤ) → Keeps self (check_port port)
  check_port-Keeps port s h =
      (test_end {self = self} (ltb (length (print_int port)) 6) (stop tt s h)
        (record { result = err out_of_range; ends = tt })).ends

  module _ (env : Env) where
    pub setup_tcp_client-Keeps :
        (addr : Bytes) (port : ℤ) → Keeps self (setup_tcp_client env addr port)
    unfolding setup_tcp_client
    setup_tcp_client-Keeps addr port s h =
        let asked = record s { trace = connecting (env.socket s.trace) addr port ∷ s.trace } in
        (test_end {self = self} (not (env.getaddrinfo s.trace addr port ==ℤ pos 0))
          (stop error_return s h)
          (test_end {self = self} (not (is_valid_socket (env.socket s.trace)))
            (stop error_return s h)
            (test_end {self = self}
              (not (env.connect s.trace (env.socket s.trace) addr port ==ℤ pos 0))
              (stop error_return asked h) (stop (env.socket s.trace) asked h)))).ends

    pub do_multicast-Keeps : Keeps self (do_multicast env)
    do_multicast-Keeps s h =
        let done = record s { trace = multicast s.mc_socket s.send_buf ∷ s.trace } in
        (test_end {self = self}
          (not (env.getaddrinfo s.trace (codes "239.255.255.250") (pos 12345) ==ℤ pos 0))
          (stop error_return s h)
          (test_end {self = self} (env.sendto s.trace s.mc_socket s.send_buf ==ℤ negsuc 0)
            (stop error_return done h) (stop (pos 0) done h))).ends

module _ {self : ServerInfo} where
  -- A list that has the server at its head becomes the list of the state.
  abbrev pub set_peers_kept : (l : List ServerInfo) → IsHeadedBy self l → Kept self (Unit {0})
  set_peers_kept l headed = record { act = set_peers l; keeps = λ s h. (h.0, h.1, headed) }

  abbrev pub put_kept : (t : Server) → IsKept self t → Kept self (Unit {0})
  put_kept t k = record { act = put_state t; keeps = λ s h. k }

  -- The state is read and written back changed.
  abbrev pub change_kept :
      (f : Server → Server)
      → ((t : Server) → IsKept self t → IsKept self (f t))
      → Kept self (Unit {0})
  change_kept f k = record { act = get_state >>= λ t. put_state (f t); keeps = k }

  abbrev pub peer_kept : ℕ → Kept self ServerInfo
  peer_kept k = record {
    act = peer k;
    keeps = λ s. Keeps-lift self (deref (get_elem? s.connected_peers k)) s;
  }

  abbrev pub set_participant_kept : ℤ → Kept self (Unit {0})
  set_participant_kept v = record { act = set_participant v; keeps = λ s h. h }

  abbrev pub print_kept : Bytes → Kept self (Unit {0})
  print_kept text = record {
    act = print_buffer text;
    keeps = λ s. Ends-printed self (sprintf_into filled_with_zero text) s;
  }

  abbrev pub overprint_kept : Bytes → Kept self (Unit {0})
  overprint_kept text = record {
    act = overprint_buffer text;
    keeps = λ s. Ends-printed self (sprintf_into s.send_buf text) s;
  }

  abbrev pub pad_kept : Bytes → Kept self (Unit {0})
  pad_kept text = record {
    act = pad_buffer text;
    keeps = λ s. Ends-printed self (pad_message text) s;
  }

  abbrev pub fd_set_kept : ℤ → Kept self (Unit {0})
  fd_set_kept fd = record { act = fd_set fd; keeps = λ s h. h }

  abbrev pub fd_clr_kept : ℤ → Kept self (Unit {0})
  fd_clr_kept fd = record { act = fd_clr fd; keeps = λ s h. h }

  abbrev pub set_successor_kept : ℤ → Kept self (Unit {0})
  set_successor_kept fd = record { act = set_successor fd; keeps = λ s h. h }

  abbrev pub set_ltcp_kept : ℤ → Kept self (Unit {0})
  set_ltcp_kept fd = record { act = set_ltcp fd; keeps = λ s h. h }

  module _ (env : Env) where
    abbrev pub send_kept : ℤ → Kept self ℤ
    send_kept fd = record { act = send_buffer env fd; keeps = λ s h. h }

    abbrev pub close_kept : ℤ → Kept self (Unit {0})
    close_kept fd = record { act = close_socket env fd; keeps = λ s h. h }

    abbrev pub time_kept : Kept self ℕ
    time_kept = record { act = time_now env; keeps = λ s h. h }

    abbrev pub connect_kept : Bytes → ℤ → Kept self ℤ
    connect_kept addr port =
        record { act = check_port port; keeps = check_port-Keeps self port } next record {
          act = setup_tcp_client env addr port;
          keeps = setup_tcp_client-Keeps self env addr port;
        }

    abbrev pub random_id_kept : ℕ → ℕ → Kept self ℤ
    random_id_kept min max = time_kept then λ now. done (pos (env.rand now % (max - min + 1) + min))

    abbrev pub multicast_kept : Kept self ℤ
    multicast_kept = record { act = do_multicast env; keeps = do_multicast-Keeps self env }
