-- ===== src/Discovery/Keeps.antt =====
-- The search for a leader keeps what a server keeps.
use ds_project.Base.{
  ℕ, zero, suc, not, List, [], ◌∷◌, Option, none, some, err, out_of_range, error_return, ℤ, pos,
  leb, ltb, is_valid_socket, if◌then◌else◌, length, take, refl,
}
use ds_project.Text.{Bytes, scan}
use ds_project.Frame.{buffer_size, filled_with_zero, overlay, receive}
use ds_project.Peers.{ServerInfo}
use ds_project.Clients.{assign_client_info}
use ds_project.Clients.Keeps.{assign_client_info-Keeps}
use ds_project.SocketChanges.Keeps.{add_last_kept}
use ds_project.Server.{Env, update_peer}
use ds_project.Kept.{Kept, Keeps, run, stop, ◌then◌, ◌next◌, test, test_end, given, done, lifted}
use ds_project.Kept.Heads.{headed-update_peer}
use ds_project.Kept.Parts.{
  peer_kept, print_kept, close_kept, connect_kept, set_peers_kept, set_successor_kept,
  multicast_kept,
}
use ds_project.Discovery.{
  Welcome, Arrival, connection, data_on, Activity, failed, silent, ready, Caller, Outcome, finished,
  waiting, discovery_text, welcome_format, welcome_values, connect_successor, leader_answered,
  read_heard, read_answer, take_arrivals, attempts, service_discovery,
}

module _ (self : ServerInfo) (env : Env) where
  connect_successor-Keeps :
      (caller : Caller) (w : Welcome) → Keeps self (connect_successor env caller w)
  unfolding connect_successor
  connect_successor-Keeps caller w =
      let m : Kept self ℤ =
        test (leb 8 (length w.successor_ip))
          (connect_kept env w.successor_ip w.port then λ fd.
            test (not (is_valid_socket fd)) (close_kept env caller.socket next done error_return) (
              set_successor_kept fd
              next add_last_kept env w.successor_id w.successor_ip w.port (pos 0) fd
              next done caller.socket))
          (done caller.socket) in
      m.keeps

  leader_answered-Keeps :
      (caller : Caller) (w : Welcome) → Keeps self (leader_answered env caller w)
  unfolding leader_answered
  leader_answered-Keeps caller w s h =
      let m : Kept self ℤ =
        set_peers_kept (update_peer 0 (λ p. record p { leader = pos 0 }) s.connected_peers) (
          headed-update_peer self 0 (λ p. record p { leader = pos 0 }) s.connected_peers
            (λ p. (refl, refl, refl)) h.2)
        next (peer_kept 0 then λ head.
            add_last_kept env w.id caller.addr head.port (pos 1) caller.socket next record {
              act = connect_successor env caller w;
              keeps = connect_successor-Keeps caller w;
            }) in
      m.keeps s h

  read_heard-Keeps : (caller : Caller) (heard : Bytes) → Keeps self (read_heard env caller heard)
  unfolding read_heard
  read_heard-Keeps caller heard =
      let m : Kept self Outcome =
        test (ltb (length heard) buffer_size)
          (given (receive (overlay heard filled_with_zero)) (done (finished error_return)) (λ buf.
            given (welcome_values (scan welcome_format buf))
              (close_kept env caller.socket next done (waiting caller))
              (λ w.
                record {
                  act = leader_answered env caller w;
                  keeps = leader_answered-Keeps caller w;
                }
                then λ fd. done (finished fd))))
          (lifted (err out_of_range)) in
      m.keeps

  read_answer-Keeps :
      (caller : Caller) (received : Option Bytes) → Keeps self (read_answer env caller received)
  unfolding read_answer
  read_answer-Keeps caller none = λ s h. h
  read_answer-Keeps caller (some []) = λ s h. h
  read_answer-Keeps caller (some (c ∷ payload)) =
      read_heard-Keeps caller (take buffer_size (c ∷ payload))

  outcome-Keeps :
      {A : Type 0} (f : ℤ → Kept self A) (k : Caller → Kept self A) (outcome : Outcome)
      → Keeps self (elim outcome [ finished fd ↦ (f fd).act | waiting c ↦ (k c).act ])
  outcome-Keeps f k (finished fd) = (f fd).keeps
  outcome-Keeps f k (waiting c) = (k c).keeps

  take_arrivals-Keeps :
      (l : List Arrival) (caller : Caller) → Keeps self (take_arrivals env l caller)
  unfolding take_arrivals
  take_arrivals-Keeps [] caller s h = h
  take_arrivals-Keeps (connection fd ip addr ∷ rest) caller s h =
      (test_end {self = self} (not (is_valid_socket fd)) (stop (finished error_return) s h) (
        run
          (record {
            act = assign_client_info env fd ip;
            keeps = assign_client_info-Keeps self env fd ip;
          }
            next record {
              act = take_arrivals env rest (record { socket = fd; addr = addr });
              keeps = take_arrivals-Keeps rest (record { socket = fd; addr = addr });
            })
          s h)).ends
  take_arrivals-Keeps (data_on received ∷ rest) caller s h =
      let ended : ℤ → Kept self Outcome = λ fd. done (finished fd) in
      let later : Caller → Kept self Outcome =
        λ c. record { act = take_arrivals env rest c; keeps = take_arrivals-Keeps rest c } in
      let m : Kept self Outcome =
        record { act = read_answer env caller received; keeps = read_answer-Keeps caller received }
        then λ outcome. record {
          act = elim outcome [ finished fd ↦ (ended fd).act | waiting c ↦ (later c).act ];
          keeps = outcome-Keeps ended later outcome;
        } in
      m.keeps s h

  attempts-Keeps :
      (n : ℕ) (rounds : List Activity) (caller : Caller) → Keeps self (attempts env n rounds caller)
  unfolding attempts
  attempts-Keeps zero rounds caller s h = h
  attempts-Keeps (suc n) [] caller s h = h
  attempts-Keeps (suc n) (failed ∷ rounds) caller s h = h
  attempts-Keeps (suc n) (silent ∷ rounds) caller s h =
      let m : Kept self ℤ = multicast_kept env then λ sent. done error_return in m.keeps s h
  attempts-Keeps (suc n) (ready arrivals ∷ rounds) caller s h =
      let ended : ℤ → Kept self ℤ = λ fd. done fd in
      let later : Caller → Kept self ℤ =
        λ c. record { act = attempts env n rounds c; keeps = attempts-Keeps n rounds c } in
      let m : Kept self ℤ =
        record {
          act = take_arrivals env arrivals caller;
          keeps = take_arrivals-Keeps arrivals caller;
        }
        then λ outcome. record {
          act = elim outcome [ finished fd ↦ (ended fd).act | waiting c ↦ (later c).act ];
          keeps = outcome-Keeps ended later outcome;
        } in
      m.keeps s h

  pub service_discovery-Keeps :
      (rounds : List Activity) (caller : Caller) → Keeps self (service_discovery env rounds caller)
  unfolding service_discovery
  service_discovery-Keeps rounds caller =
      let m : Kept self ℤ =
        (peer_kept 0 then λ head. print_kept (discovery_text head))
        next (multicast_kept env then λ sent.
            test (not (is_valid_socket sent)) (done error_return) (record {
              act = attempts env 3 rounds caller;
              keeps = attempts-Keeps 3 rounds caller;
            })) in
      m.keeps
