-- ===== src/Kept.antt =====
-- What a server keeps through every operation: its table of clients within its bounds, and its own
-- node, under its ID, address and port, at the head of its list. An operation is paired with the proof
-- that it keeps this, and such pairs are composed the way the operations are.
pub mod Heads
pub mod Parts
use ds_project.Base.{
  ◌≡◌, ◌≤◌, refl, subst, sym, ◌∙◌, Bool-cases, inl, inr, Bool, true, false, ℕ, zero, suc, ℤ, List,
  [], ◌∷◌, Option, none, some, Result, ok, err, length, if◌then◌else◌, get_elem?, deref, ltb, not,
  ◌==ℤ◌, pos, negsuc, error_return, is_valid_socket, out_of_range, ◌+◌, ◌-◌, ◌%◌,
}
use ds_project.Text.{Bytes, codes, print_int}
use ds_project.Frame.{pad_message, sprintf_into, filled_with_zero}
use ds_project.Peers.{
  ServerInfo, append_server, append_server_sorted, delete_server, server_info_exist,
}
use ds_project.Peers.Insert.{append_server_cases, append_server_sorted_cases}
use ds_project.Peers.Delete.{delete_server_cases}
use ds_project.Server.{
  Env, Server, M, max_connection, connecting, multicast, ◌>>=◌, ◌>>◌, return, lift, get_state,
  put_state, peer, update_peer, set_peers, set_participant, print_buffer, overprint_buffer,
  pad_buffer, fd_set, fd_clr, set_successor, set_ltcp, check_port, send_buffer, close_socket,
  time_now, setup_tcp_client, connect_to, random_id, do_multicast,
}

abbrev pub IsHeadedBy : ServerInfo → List ServerInfo → Type 0
IsHeadedBy self [] = ⊥
IsHeadedBy self (head ∷ rest) =
    (head.id ≡ self.id) × (head.addr ≡ self.addr) × (head.port ≡ self.port)

abbrev pub IsKept : ServerInfo → Server → Type 0
IsKept self s =
    (length s.client_array ≡ max_connection)
    × (s.client_count ≤ max_connection)
    × IsHeadedBy self s.connected_peers

-- If the run ends, it does so in a state with the property.
abbrev pub Ends : {A : Type 0} → ServerInfo → Result (A × Server) → Type 0
Ends self (ok r) = IsKept self r.1
Ends self (err e) = Unit

abbrev pub Keeps : {A : Type 0} → ServerInfo → M A → Type 0
Keeps self m = (s : Server) → IsKept self s → Ends self (m s)

-- An operation, and a run, with its proof.
pub record Kept (self : ServerInfo) (A : Type 0) : Type 0 where
  pub act : M A
  pub keeps : Keeps self act

pub record Ended (self : ServerInfo) (A : Type 0) : Type 0 where
  pub result : Result (A × Server)
  pub ends : Ends self result

module _ (self : ServerInfo) where
  pub Keeps-lift : {A : Type 0} (r : Result A) → Keeps self (lift r)
  Keeps-lift (ok a) s h = h
  Keeps-lift (err e) s h = tt

module _ {self : ServerInfo} where
  abbrev pub run : {A : Type 0} → Kept self A → (s : Server) → IsKept self s → Ended self A
  run m s h = record { result = m.act s; ends = m.keeps s h }

  abbrev pub stop : {A : Type 0} → A → (s : Server) → IsKept self s → Ended self A
  stop a s h = record { result = ok (a, s); ends = h }

  pub Ends-bind :
      {A B : Type 0} (f : A → Kept self B) (r : Result (A × Server))
      → Ends self r
      → Ends self (elim r [ ok q ↦ (f q.0).act q.1 | err e ↦ err e ])
  Ends-bind f (ok r) h = (f r.0).keeps r.1 h
  Ends-bind f (err e) h = tt

  infixl 5 ◌then◌ ◌next◌
  abbrev pub ◌then◌ : {A B : Type 0} → Kept self A → (A → Kept self B) → Kept self B
  m then f = record {
    act = m.act >>= λ a. (f a).act;
    keeps = λ s h. Ends-bind f (m.act s) (m.keeps s h);
  }

  abbrev pub ◌next◌ : {A B : Type 0} → Kept self A → Kept self B → Kept self B
  m next k = m then λ _. k

  pub Keeps-if :
      {A : Type 0} (b : Bool) (m n : Kept self A) → Keeps self (if b then m.act else n.act)
  Keeps-if true m n = m.keeps
  Keeps-if false m n = n.keeps

  abbrev pub test : {A : Type 0} → Bool → Kept self A → Kept self A → Kept self A
  test b m n = record { act = if b then m.act else n.act; keeps = Keeps-if b m n }

  pub Ends-if :
      {A : Type 0} (b : Bool) (m n : Ended self A) → Ends self (if b then m.result else n.result)
  Ends-if true m n = m.ends
  Ends-if false m n = n.ends

  abbrev pub test_end : {A : Type 0} → Bool → Ended self A → Ended self A → Ended self A
  test_end b m n = record { result = if b then m.result else n.result; ends = Ends-if b m n }

  pub Keeps-option :
      {A B : Type 0} (o : Option A) (m : Kept self B) (f : A → Kept self B)
      → Keeps self (elim o [ none ↦ m.act | some a ↦ (f a).act ])
  Keeps-option none m f = m.keeps
  Keeps-option (some a) m f = (f a).keeps

  abbrev pub given : {A B : Type 0} → Option A → Kept self B → (A → Kept self B) → Kept self B
  given o m f = record {
    act = elim o [ none ↦ m.act | some a ↦ (f a).act ];
    keeps = Keeps-option o m f;
  }

  pub Ends-option :
      {A B : Type 0} (o : Option A) (m : Ended self B) (f : A → Ended self B)
      → Ends self (elim o [ none ↦ m.result | some a ↦ (f a).result ])
  Ends-option none m f = m.ends
  Ends-option (some a) m f = (f a).ends

  abbrev pub given_end :
      {A B : Type 0} → Option A → Ended self B → (A → Ended self B) → Ended self B
  given_end o m f = record {
    result = elim o [ none ↦ m.result | some a ↦ (f a).result ];
    ends = Ends-option o m f;
  }

  abbrev pub lifted : {A : Type 0} → Result A → Kept self A
  lifted r = record { act = lift r; keeps = Keeps-lift self r }

  abbrev pub done : {A : Type 0} → A → Kept self A
  done a = record { act = return a; keeps = λ s h. h }
