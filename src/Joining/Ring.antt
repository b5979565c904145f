-- ===== src/Joining/Ring.antt =====
-- `new_server` and `ring_reconstruction` at a leader that has peers.
use mathlib.Core.List.{Perm}
use ds_project.Base.{
  ◌≡◌, ◌≤◌, ◌∙◌, refl, ap, ℕ, true, false, List, [], ◌∷◌, some, ok, ℤ, pos, get_elem?, length,
  arith, All, get_elem?-some,
}
use ds_project.Text.{Bytes}
use ds_project.Frame.{buffer_size, overlay, filled_with_x}
use ds_project.Peers.{ServerInfo, server_info_exist}
use ds_project.Peers.Order.{IsRing}
use ds_project.Peers.Insert.{
  fresh_server, insert_sorted, append_server_sorted_cases, insert_sorted-perm, IsRing-insert_sorted,
  All-insert_sorted,
}
use ds_project.Peers.Neighbours.{next_in_ring, ring_neighbours, get_elem?-All}
use ds_project.Disconnection.{update_text}
use ds_project.Disconnection.Ring.{with_peers, told}
use ds_project.Server.Steps.{peer_lem, Connects}
use ds_project.Server.{Env, Server, M, ◌>>=◌, return, peer, connecting, bind_ok}
use ds_project.Joining.{
  welcome, know, know_text, answer, inform, join, new_server, ring_reconstruction, ring_predecessor,
  send_or_fail, add_sorted,
}
use ds_project.Joining.Places.{
  prev_in_ring, insert_sorted-position, length-insert_sorted, get_elem?-exists, prev-length,
  next_peer, next_peer-length, next_in_ring-next_peer, ring_predecessor_lem,
}
use ds_project.Joining.Steps.{Sends, send_or_fail_lem, join_lem}

module _ (env : Env) (head n : ServerInfo) (k : ℕ) (sends : Sends env) where
  inform_lem :
      (update : ServerInfo → Bytes) (peers : List ServerInfo) (pred : ServerInfo) (fd : ℤ)
      (t : Server)
      → IsRing (head ∷ peers)
      → 2 ≤ length peers
      → get_elem? peers k ≡ some n
      → get_elem? (head ∷ peers) (prev_in_ring peers k) ≡ some pred
      → length (update head) ≤ buffer_size
      → inform env update n.id fd (with_peers (head ∷ peers) t)
        ≡ ok (
          fd,
          told pred.tcp_socket (overlay (update head) filled_with_x) (with_peers (head ∷ peers) t),
        )
  unfolding inform
  inform_lem update [] pred fd t ring two at before fits = absurd (omega arith)
  inform_lem update (p ∷ []) pred fd t ring two at before fits = absurd (omega arith)
  inform_lem update (p ∷ q ∷ more) pred fd t ring two at before fits =
      bind_ok (ring_predecessor n.id) (λ r. send_or_fail env (update head) r.tcp_socket (return fd))
        {s = with_peers (head ∷ p ∷ q ∷ more) t} {t = with_peers (head ∷ p ∷ q ∷ more) t}
        (ring_predecessor_lem head pred n (p ∷ q ∷ more) k t ring at before)
      ∙ send_or_fail_lem env (update head) pred.tcp_socket (return fd)
          (with_peers (head ∷ p ∷ q ∷ more) t) sends fits

  answer_lem :
      (single : ServerInfo → Bytes) (reply : ServerInfo → ServerInfo → Bytes)
      (peers : List ServerInfo) (next : ServerInfo) (t : Server)
      → IsRing (head ∷ peers)
      → get_elem? peers k ≡ some n
      → get_elem? (head ∷ peers) (next_in_ring peers k) ≡ some next
      → answer env false single reply n.id (with_peers (head ∷ peers) t)
        ≡ ok (reply head next, with_peers (head ∷ peers) t)
  answer_lem single reply peers next t ring at behind =
      rw (answer, ◌>>=◌, (ring_neighbours head peers k n ring at).1)
        (bind_ok (peer (next_in_ring peers k)) (λ p. return (reply head p))
          {s = with_peers (head ∷ peers) t}
          (peer_lem (next_in_ring peers k) next (with_peers (head ∷ peers) t) behind))

module _ (env : Env) (s : Server) (head first : ServerInfo) (rest : List ServerInfo)
    (id port fd : ℤ) (addr : Bytes) where
  -- The node that joins, and the peers with it.
  abbrev pub newcomer : ServerInfo
  newcomer = fresh_server (env.time (connecting fd addr port ∷ s.trace)) id addr port (pos 0) fd

  abbrev pub peers_after : List ServerInfo
  peers_after = insert_sorted (first ∷ rest) newcomer

  -- The state when the join is over: the newcomer got one text, and its predecessor the other.
  abbrev pub welcomed : Bytes → Bytes → ServerInfo → Server
  welcomed to_new to_pred pred = told pred.tcp_socket (overlay to_pred filled_with_x) (
      told fd (overlay to_new filled_with_x)
        (with_peers (head ∷ peers_after) (record s { trace = connecting fd addr port ∷ s.trace })))

  -- A join on the ring: where the newcomer stands, who comes before and behind it, and that the
  -- ring is one. A leader that has peers answers the newcomer with what `reply` makes of the next,
  -- and tells the one before of it.
  pub record JoinsRing (reply : ServerInfo → ServerInfo → Bytes) (update : ServerInfo → Bytes)
      (run : M ℤ) : Type 0 where
    pub at : ℕ
    pub pred : ServerInfo
    pub next : ServerInfo
    pub is_ring : IsRing (head ∷ peers_after)
    pub added : Perm peers_after (newcomer ∷ first ∷ rest)
    pub stands : get_elem? peers_after at ≡ some newcomer
    pub before : get_elem? (head ∷ peers_after) (prev_in_ring peers_after at) ≡ some pred
    pub behind : get_elem? (head ∷ peers_after) (next_in_ring peers_after at) ≡ some next
    pub done :
        run (with_peers (head ∷ first ∷ rest) s)
        ≡ ok (fd, welcomed (reply head next) (update head) pred)

  module _ (ring : IsRing (head ∷ first ∷ rest))
      (new : server_info_exist id (head ∷ first ∷ rest) ≡ false)
      (h : Connects env s.trace addr port fd) (sends : Sends env) where
    add_sorted_lem :
        (t : Server)
        → t.trace ≡ connecting fd addr port ∷ s.trace
        → add_sorted env id addr port fd (with_peers (head ∷ first ∷ rest) t)
          ≡ ok (tt, with_peers (head ∷ peers_after) t)
    add_sorted_lem t e =
        rw
          (
            add_sorted,
            ◌>>=◌,
            e,
            h.memory,
            append_server_sorted_cases true (env.time (connecting fd addr port ∷ s.trace)) head
                (first ∷ rest) id addr port (pos 0) fd,
            new,
          )
          refl

    join-JoinsRing :
        (single : ServerInfo → Bytes) (reply : ServerInfo → ServerInfo → Bytes)
        (update : ServerInfo → Bytes)
        → All (λ p. length (reply head p) ≤ buffer_size) (newcomer ∷ first ∷ rest)
        → length (update head) ≤ buffer_size
        → JoinsRing reply update (join env single reply update id port addr)
    join-JoinsRing single reply update answers fits =
        let asked = record s { trace = connecting fd addr port ∷ s.trace } in
        let size = length-insert_sorted (first ∷ rest) newcomer in
        let is_ring = IsRing-insert_sorted head (first ∷ rest) newcomer ring new in
        let (k, at) = insert_sorted-position (first ∷ rest) newcomer in
        let here = get_elem?-some peers_after k at in
        let (pred, before) =
          get_elem?-exists (head ∷ peers_after) (prev_in_ring peers_after k)
            (prev-length peers_after k here) in
        let (next, among) =
          get_elem?-exists peers_after (next_peer peers_after k)
            (next_peer-length peers_after k here) in
        let behind : get_elem? (head ∷ peers_after) (next_in_ring peers_after k) ≡ some next =
          ap (get_elem? (head ∷ peers_after)) (next_in_ring-next_peer peers_after k) ∙ among in
        let to_new : length (reply head next) ≤ buffer_size =
          get_elem?-All (λ p. length (reply head p) ≤ buffer_size) peers_after _
            (All-insert_sorted (λ p. length (reply head p) ≤ buffer_size) (first ∷ rest) newcomer
              answers.1 answers.0)
            among in
        record {
          at = k;
          pred = pred;
          next = next;
          is_ring = is_ring;
          added = insert_sorted-perm (first ∷ rest) newcomer;
          stands = at;
          before = before;
          behind = behind;
          done =
              join_lem env s head first rest (head ∷ peers_after) id port fd addr (reply head next)
                single reply update h sends (add_sorted_lem asked refl)
                (answer_lem env head newcomer k sends single reply peers_after next asked is_ring at
                  behind)
                to_new
              ∙ inform_lem env head newcomer k sends update peers_after pred fd
                  (told fd (overlay (reply head next) filled_with_x) asked) is_ring
                  (omega (arith, size)) at before fits;
        }

    -- A leader with at least one peer, whose list is a ring without the ID, and whose calls all
    -- succeed, takes a server in under that ID, be it one that starts (`new_server`) or one that lost
    -- its leader (`ring_reconstruction`): its list stays a ring, to which just the newcomer is
    -- added; the newcomer is told the next peer on the ring, the peer before it is told of the
    -- newcomer, and the answer is the newcomer's socket. The texts must fit the buffer.
    pub new_server-JoinsRing :
        All (λ p. length (welcome head p) ≤ buffer_size) (newcomer ∷ first ∷ rest)
        → length (update_text addr id port) ≤ buffer_size
        → All (λ p. length (know head p) ≤ buffer_size) (newcomer ∷ first ∷ rest)
        → length (know_text head id addr port) ≤ buffer_size
        → JoinsRing welcome (λ h. update_text addr id port) (new_server env id port addr)
          × JoinsRing know (λ h. know_text h id addr port) (ring_reconstruction env id port addr)
    unfolding new_server ring_reconstruction
    new_server-JoinsRing welcomes fits knows know_fits = (
      join-JoinsRing _ welcome (λ h. update_text addr id port) welcomes fits,
      join-JoinsRing _ know (λ h. know_text h id addr port) knows know_fits,
    )
