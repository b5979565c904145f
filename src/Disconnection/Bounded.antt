-- ===== src/Disconnection/Bounded.antt =====
-- `ring_status` leaves fewer peers. An operation is paired with a bound on the length of the list, and
-- such pairs are composed the way the operations are.
use ds_project.Base.{
  ◌≡◌, ◌≤◌, refl, ap, inl, inr, Bool-cases, Option-cases, ℕ, zero, suc, Bool, true, false, List, [],
  ◌∷◌, Option, none, some, Result, ok, err, ℤ, ltb, ◌==ℤ◌, if◌then◌else◌, get_elem?, length, arith,
  deref, exited, pos, negsuc,
}
use ds_project.Text.{Bytes}
use ds_project.Frame.{pad_message}
use ds_project.Peers.{ServerInfo, ist_peer_server, get_last_server, server_info_exist}
use ds_project.Peers.Delete.{delete_server_cases, delete_server_none, length-without}
use ds_project.Peers.Neighbours.{find_before-exist}
use ds_project.Server.{Env, Server, M, ◌>>=◌, return, lift, peer, pad_buffer, send_buffer}
use ds_project.Disconnection.{
  relocate, update_message, delete_peer, new_successor, update_ring, repair, repair_behind, cut_out,
  cut_behind, ring_status,
}

-- The run, if it ends, ends with at most as many nodes as the bound.
abbrev pub AtMost : {A : Type 0} → ℕ → Result (A × Server) → Type 0
AtMost n (ok r) = length r.1.connected_peers ≤ n
AtMost n (err e) = Unit

-- An operation that ends with at most `k` nodes when it begins with at most `n`.
record Bounded (n k : ℕ) (A : Type 0) : Type 0 where
  pub act : M A
  pub bound : (s : Server) → length s.connected_peers ≤ n → AtMost k (act s)

AtMost-bind :
    {k j : ℕ} {A B : Type 0} (f : A → Bounded k j B) (r : Result (A × Server))
    → AtMost k r
    → AtMost j (elim r [ ok q ↦ (f q.0).act q.1 | err e ↦ err e ])
AtMost-bind f (ok q) h = (f q.0).bound q.1 h
AtMost-bind f (err e) h = tt

infixl 5 ◌then◌ ◌next◌
abbrev ◌then◌ : {n k j : ℕ} {A B : Type 0} → Bounded n k A → (A → Bounded k j B) → Bounded n j B
m then f = record {
  act = m.act >>= λ a. (f a).act;
  bound = λ s h. AtMost-bind f (m.act s) (m.bound s h);
}

abbrev ◌next◌ : {n k j : ℕ} {A B : Type 0} → Bounded n k A → Bounded k j B → Bounded n j B
m next k = m then λ _. k

delete_peer_bound :
    (n : ℕ) (id : ℤ) (s : Server) → length s.connected_peers ≤ suc n → AtMost n (delete_peer id s)
delete_peer_bound n id s h = go s.connected_peers refl
  where
    go : (l : List ServerInfo) → s.connected_peers ≡ l → AtMost n (delete_peer id s)
    go [] e = rw (delete_peer, e, delete_server_none id, e) (omega (arith, ap length e))
    go (head ∷ peers) e = elim (Bool-cases (server_info_exist id peers)) [
      | inl k ↦
          let (at, f) = find_before-exist 0 id peers k in
          rw (delete_peer, e, delete_server_cases head peers id, k, e)
            (rw f (omega (arith, length-without id peers k, h, ap length e)))
      | inr k ↦ rw (delete_peer, e, delete_server_cases head peers id, k) tt
    ]

module _ {n : ℕ} where
  AtMost-lift :
      {A : Type 0} (r : Result A) (s : Server) → length s.connected_peers ≤ n → AtMost n (lift r s)
  AtMost-lift (ok a) s h = h
  AtMost-lift (err e) s h = tt

  abbrev lifted : {A : Type 0} → Result A → Bounded n n A
  lifted r = record { act = lift r; bound = AtMost-lift r }

  abbrev done : {A : Type 0} → A → Bounded n n A
  done a = record { act = return a; bound = λ s h. h }

  abbrev peer_bounded : ℕ → Bounded n n ServerInfo
  peer_bounded k = record {
    act = peer k;
    bound = λ s. AtMost-lift (deref (get_elem? s.connected_peers k)) s;
  }

  AtMost-if :
      {A : Type 0} (b : Bool) (m k : Bounded n n A) (s : Server)
      → length s.connected_peers ≤ n
      → AtMost n ((if b then m.act else k.act) s)
  AtMost-if true m k = m.bound
  AtMost-if false m k = k.bound

  abbrev test : {A : Type 0} → Bool → Bounded n n A → Bounded n n A → Bounded n n A
  test b m k = record { act = if b then m.act else k.act; bound = AtMost-if b m k }

  AtMost-padded :
      (r : Result Bytes) (s : Server)
      → length s.connected_peers ≤ n
      → AtMost n (elim r [ ok b ↦ ok (tt, record s { send_buf = b }) | err e ↦ err e ])
  AtMost-padded (ok b) s h = h
  AtMost-padded (err e) s h = tt

  AtMost-successor :
      (first : Option ServerInfo) (k : ℕ) (s : Server)
      → length s.connected_peers ≤ n
      → AtMost n (new_successor first k s)
  unfolding new_successor
  AtMost-successor (some first) k s h = h
  AtMost-successor none k s h = elim (Option-cases (get_elem? s.connected_peers (suc k))) [
    | inl e ↦ rw (new_successor, e) ((peer_bounded 1).bound s h)
    | inr (p, e) ↦ rw (new_successor, e) h
  ]

module _ (env : Env) where
  repair_bounded : {n : ℕ} → Option ServerInfo → ℕ → Bounded n n (Unit {0})
  unfolding repair update_ring
  repair_bounded first k =
      let sending : Bounded _ _ ℤ = peer_bounded k then λ pred.
      record { act = new_successor first k; bound = AtMost-successor first k } then λ after.
      record {
        act = pad_buffer (update_message after);
        bound = λ s. AtMost-padded (pad_message (update_message after)) s;
      }
      next (record { act = send_buffer env pred.tcp_socket; bound = λ s h. h } then λ sent.
          done (if sent ==ℤ negsuc 0 then negsuc 0 else pos 0)) in
      sending then λ sent. test (sent ==ℤ negsuc 0) (lifted (err (exited 1))) (done tt)

  repair_behind_bound :
      (n : ℕ) (first : Bool) (freed at : ℕ) (s : Server)
      → length s.connected_peers ≤ n
      → AtMost n (repair_behind env first freed at s)
  unfolding repair_behind repair_bounded
  repair_behind_bound n first freed at s h =
      let mend : Bounded n n (Unit {0}) = lifted (relocate freed at) then λ pred.
      test first (peer_bounded 1 then λ p. repair_bounded (some p) pred)
        (repair_bounded none pred) in
      elim (Bool-cases (ltb 2 (length s.connected_peers))) [
        | inl e ↦ rw (repair_behind, e) (mend.bound s h)
        | inr e ↦ rw (repair_behind, e) h
      ]

  cut_out_bound :
      (n : ℕ) (first : Bool) (id : ℤ) (at : ℕ) (s : Server)
      → length s.connected_peers ≤ suc n
      → AtMost n (cut_out env first id at s)
  unfolding cut_out
  cut_out_bound n first id at =
      let m : Bounded (suc n) n ℕ =
        record { act = delete_peer id; bound = delete_peer_bound n id } then λ freed.
        record {
          act = repair_behind env first freed at;
          bound = repair_behind_bound n first freed at;
        }
        next done freed in
      m.bound

  cut_behind_bound :
      (n : ℕ) (found : Option ℕ) (s : Server)
      → length s.connected_peers ≤ suc n
      → AtMost n (cut_behind env found s)
  unfolding cut_behind
  cut_behind_bound n none s h = tt
  cut_behind_bound n (some zero) s h =
      let m : Bounded (suc n) n ℕ = peer_bounded 1 then λ gone.
      lifted (get_last_server s.connected_peers) then λ last. record {
        act = cut_out env true gone.id last;
        bound = cut_out_bound n true gone.id last;
      } in
      m.bound s h
  cut_behind_bound n (some (suc k)) s h =
      let m : Bounded (suc n) n ℕ = peer_bounded (suc (suc k)) then λ gone. record {
        act = cut_out env false gone.id (suc k);
        bound = cut_out_bound n false gone.id (suc k);
      } in
      m.bound s h

  pub ring_status_bound :
      (n : ℕ) (i : ℤ) (s : Server)
      → length s.connected_peers ≤ suc n
      → AtMost n (ring_status env i s)
  unfolding ring_status
  ring_status_bound n i s h =
      let m : Bounded (suc n) n ℕ = lifted (ist_peer_server i s.connected_peers) then λ found.
      record { act = cut_behind env found; bound = cut_behind_bound n found } in
      m.bound s h
