-- ===== src/Clients/Keeps.antt =====
-- The operations on the table of clients keep what a server keeps.
use ds_project.Base.{
  ◌≡◌, ◌≤◌, ◌∙◌, refl, subst, sym, inl, inr, Bool-cases, ℕ, zero, suc, true, not, List, [], ◌∷◌,
  Option, none, some, ℤ, pos, negsuc, ltb, ltb_ℤ, ◌==ℤ◌, ◌==◌, if◌then◌else◌, is_valid_socket,
  length, length-set, arith, ap,
}
use ds_project.Text.{Bytes, codes}
use ds_project.HoldBack.{increment}
use ds_project.Election.{same_bytes}
use ds_project.Peers.{ServerInfo}
use ds_project.Server.{Env, Server, ClientInfo, max_connection, get_state, ◌>>=◌, ◌>>◌}
use ds_project.Kept.{
  Kept, Keeps, run, stop, ◌then◌, ◌next◌, test, test_end, given_end, done, lifted, Ends,
}
use ds_project.Kept.Parts.{
  fd_set_kept, pad_kept, overprint_kept, send_kept, close_kept, put_kept, change_kept,
}
use ds_project.Clients.{
  clients, write_client, find_client, register, index_message, direct_message, group_text,
  remove_client_from_list, assign_client_info, accept_new_client, send_to_others, get_index,
  send_to_client, handle_client_message,
}
use ds_project.Clients.Table.{remove_client_from_list_lem}

length-register : (fd id : ℤ) (n : ℕ) (l : List ClientInfo) → length (register fd id n l) ≡ length l
length-register fd id zero l = refl
length-register fd id (suc n) [] = refl
length-register fd id (suc n) (c ∷ rest) = ap suc (length-register fd id n rest)

module _ (self : ServerInfo) where
  pub remove_client_from_list-Keeps : (fd : ℤ) → Keeps self (remove_client_from_list fd)
  remove_client_from_list-Keeps fd s h =
      let (array, n, e, _, size, count) =
        remove_client_from_list_lem s fd (record { size = h.0; count = h.1 }) in
      subst (Ends self) (sym e) (size, count, h.2)

  module _ (env : Env) where
    pub assign_client_info-Keeps :
        (fd : ℤ) (ip : Option Bytes) → Keeps self (assign_client_info env fd ip)
    unfolding assign_client_info
    assign_client_info-Keeps fd none s h = h
    assign_client_info-Keeps fd (some ip) s h =
        elim (Bool-cases (s.client_count == max_connection)) [
          | inl full ↦ rw full h
          | inr room ↦ elim (Bool-cases (env.malloc s.trace)) [
            | inr gone ↦ rw (room, gone) tt
            | inl memory ↦
                let inside : ltb s.client_count (length s.client_array) ≡ true =
                  ground (arith, room, h.0, h.1) in
                let count : suc s.client_count ≤ max_connection = ground (arith, room, h.1) in
                rw (room, memory, ◌>>◌, ◌>>=◌, write_client, inside)
                  (length-set s.client_array s.client_count _ ∙ h.0, count, h.2)
          ]
        ]

    pub accept_new_client-Keeps :
        (fd : ℤ) (ip : Option Bytes) → Keeps self (accept_new_client env fd ip)
    unfolding accept_new_client
    accept_new_client-Keeps fd ip s h =
        (test_end {self = self} (not (is_valid_socket fd)) (stop tt s h) (
          run
            (fd_set_kept fd next record {
              act = assign_client_info env fd ip;
              keeps = assign_client_info-Keeps fd ip;
            })
            s h)).ends

    send_to_others-Keeps : (id : ℤ) (l : List ClientInfo) → Keeps self (send_to_others env id l)
    unfolding send_to_others
    send_to_others-Keeps id [] s h = h
    send_to_others-Keeps id (c ∷ rest) s h =
        let later : Kept self (Unit {0}) = record {
          act = send_to_others env id rest;
          keeps = send_to_others-Keeps id rest;
        } in
        (test_end {self = self} (not (c.id ==ℤ id)) (run (send_kept env c.socket next later) s h)
          (run later s h)).ends

    get_index-Keeps : (id fd : ℤ) → Keeps self (get_index env id fd)
    unfolding get_index
    get_index-Keeps id fd s h =
        let m : Kept self ℤ =
          put_kept (record s { client_array = register fd id s.client_count s.client_array })
            (length-register fd id s.client_count s.client_array ∙ h.0, h.1, h.2)
          next (lifted (increment s.clk_index) then λ next_index.
              change_kept (λ t. record t { clk_index = next_index }) (λ t k. k)
              next pad_kept (index_message s.clk_index)
              next (send_kept env fd then λ sent.
                  test (ltb_ℤ sent (pos 1)) (close_kept env fd next done (negsuc 0))
                    (done (pos 0)))) in
        m.keeps s h

    send_to_client-Keeps :
        (id dest : ℤ) (message : Bytes) → Keeps self (send_to_client env id dest message)
    unfolding send_to_client
    send_to_client-Keeps id dest message s h =
        (given_end {self = self} (find_client (λ c. c.id ==ℤ dest) 0 (clients s)) (stop tt s h)
          (λ r.
            run
              (overprint_kept (direct_message id message)
                next (send_kept env r.1.socket then λ sent. done tt))
              s h)).ends

    pub handle_client_message-Keeps :
        (id dest : ℤ) (message : Bytes) (fd : ℤ)
        → Keeps self (handle_client_message env id dest message fd)
    unfolding handle_client_message
    handle_client_message-Keeps id dest message fd s h =
        let to_group : Server → Kept self ℤ = λ t.
          test (dest ==ℤ t.group_id)
            (overprint_kept (group_text id t.group_id message)
              next record {
                act = send_to_others env id (clients t);
                keeps = send_to_others-Keeps id (clients t);
              }
              next done (pos 1))
            (done (pos 0)) in
        (test_end {self = self} (same_bytes message (codes "GET_INDEX"))
          (run (record { act = get_index env id fd; keeps = get_index-Keeps id fd }) s h)
          (run
            (record {
              act = send_to_client env id dest message;
              keeps = send_to_client-Keeps id dest message;
            }
              next record {
                act = get_state >>= λ t. (to_group t).act;
                keeps = λ t k. (to_group t).keeps t k;
              })
            s h)).ends
