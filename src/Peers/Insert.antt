-- ===== src/Peers/Insert.antt =====
-- `append_server_sorted` and `append_server`: where the new node goes.
use mathlib.Core.List.{Perm}
use mathlib.Core.List.Perm
use ds_project.Base.{
  ℕ, ◌≡◌, refl, sym, ap, inl, inr, true, false, Bool, List, [], ◌∷◌, ◌++◌, ok, err, exited, ◌>>=◌,
  ℤ, ltb_ℤ, ◌<ℤ◌, ==ℤ_iff, ==ℤ_refl, if◌then◌else◌, All, arith, Bool-cases,
}
use ds_project.Peers.{
  Bytes, ServerInfo, server_info_exist, create_server, link_last, link_sorted, place_sorted,
  append_server, append_server_sorted, delete_server,
}
use ds_project.Peers.Order.{Absent, Above, IsAscending, IsRing, server_info_exist-Absent}
use ds_project.Peers.Delete.{without, delete_server_cases}

-- The reference: a node put before the first that is greater.
abbrev pub insert_sorted : List ServerInfo → ServerInfo → List ServerInfo
insert_sorted [] n = n ∷ []
insert_sorted (s ∷ rest) n = if ltb_ℤ n.id s.id then n ∷ s ∷ rest else s ∷ insert_sorted rest n

link_sorted-insert_sorted :
    (current : ServerInfo) (next : List ServerInfo) (n : ServerInfo)
    → link_sorted current next n ≡ current ∷ insert_sorted next n
unfolding link_sorted
link_sorted-insert_sorted current [] n = refl
link_sorted-insert_sorted current (s ∷ rest) n = ground (arith, link_sorted-insert_sorted s rest n)

link_last-append : (l : List ServerInfo) (n : ServerInfo) → link_last l n ≡ l ++ n ∷ []
unfolding link_last
link_last-append [] n = refl
link_last-append (s ∷ rest) n = ap (◌∷◌ s) (link_last-append rest n)

-- The node that the two operations make.
abbrev pub fresh_server : ℕ → ℤ → Bytes → ℤ → ℤ → ℤ → ServerInfo
fresh_server now id address port leader tcp_socket = record {
  id = id;
  addr = address;
  port = port;
  leader = leader;
  tcp_socket = tcp_socket;
  last_heartbeat = now;
}

-- `append_server_sorted` on a list with a head: a known ID changes nothing; with no memory the
-- program exits with 1; otherwise the new node is put behind the head, before the first peer of a
-- greater ID, and last if there is none.
pub append_server_sorted_cases :
    (malloc : Bool) (now : ℕ) (head : ServerInfo) (peers : List ServerInfo) (id : ℤ)
    (address : Bytes) (port leader tcp_socket : ℤ)
    → append_server_sorted malloc now (head ∷ peers) id address port leader tcp_socket ≡ (
        if server_info_exist id (head ∷ peers)
        then ok (head ∷ peers)
        else if malloc
        then ok (head ∷ insert_sorted peers (fresh_server now id address port leader tcp_socket))
        else err (exited 1))
unfolding append_server_sorted create_server place_sorted
append_server_sorted_cases true now head peers id address port leader tcp_socket = ground (
  arith,
  link_sorted-insert_sorted head peers (fresh_server now id address port leader tcp_socket),
)
append_server_sorted_cases false now head peers id address port leader tcp_socket = ground arith

-- `append_server` on any list, the empty one included: a known ID changes nothing; with no memory
-- the program exits with 1; otherwise the new node becomes the last.
pub append_server_cases :
    (malloc : Bool) (now : ℕ) (l : List ServerInfo) (id : ℤ) (address : Bytes)
    (port leader tcp_socket : ℤ)
    → append_server malloc now l id address port leader tcp_socket ≡ (
        if server_info_exist id l
        then ok l
        else if malloc
        then ok (l ++ fresh_server now id address port leader tcp_socket ∷ [])
        else err (exited 1))
unfolding append_server create_server
append_server_cases true now l id address port leader tcp_socket =
    ground (arith, link_last-append l (fresh_server now id address port leader tcp_socket))
append_server_cases false now l id address port leader tcp_socket = ground arith

Above-insert_sorted :
    (b : ℤ) (l : List ServerInfo) (n : ServerInfo)
    → Above b l
    → b <ℤ n.id
    → Absent n.id l
    → Above b (insert_sorted l n)
Above-insert_sorted b [] n h lt a = (lt, tt)
Above-insert_sorted b (s ∷ rest) n h lt a = elim (Bool-cases (ltb_ℤ n.id s.id)) [
  | inl e ↦ rw e (lt, (ground (arith, e), h.1))
  | inr e ↦ rw e (h.0, Above-insert_sorted s.id rest n h.1 (ground (arith, e, a.0)) a.1)
]

IsAscending-insert_sorted :
    (l : List ServerInfo) (n : ServerInfo)
    → IsAscending l
    → Absent n.id l
    → IsAscending (insert_sorted l n)
IsAscending-insert_sorted [] n h a = tt
IsAscending-insert_sorted (s ∷ rest) n h a = elim (Bool-cases (ltb_ℤ n.id s.id)) [
  | inl e ↦ rw e (ground (arith, e), h)
  | inr e ↦ rw e (Above-insert_sorted s.id rest n h (ground (arith, e, a.0)) a.1)
]

pub All-insert_sorted {κ} :
    (P : ServerInfo → Type κ) (l : List ServerInfo) (n : ServerInfo)
    → All P l
    → P n
    → All P (insert_sorted l n)
All-insert_sorted P [] n h p = (p, tt)
All-insert_sorted P (s ∷ rest) n h p = elim (Bool-cases (ltb_ℤ n.id s.id)) [
  | inl e ↦ rw e (p, h)
  | inr e ↦ rw e (h.0, All-insert_sorted P rest n h.1 p)
]

pub insert_sorted-perm : (l : List ServerInfo) (n : ServerInfo) → Perm (insert_sorted l n) (n ∷ l)
insert_sorted-perm [] n = Perm.refl (n ∷ [])
insert_sorted-perm (s ∷ rest) n = elim (Bool-cases (ltb_ℤ n.id s.id)) [
  | inl e ↦ rw e (Perm.refl (n ∷ s ∷ rest))
  | inr e ↦ rw e (Perm.trans (Perm.cons s (insert_sorted-perm rest n)) (Perm.swap n s rest))
]

pub IsRing-insert_sorted :
    (head : ServerInfo) (peers : List ServerInfo) (n : ServerInfo)
    → IsRing (head ∷ peers)
    → server_info_exist n.id (head ∷ peers) ≡ false
    → IsRing (head ∷ insert_sorted peers n)
IsRing-insert_sorted head peers n ring new =
    let absent = server_info_exist-Absent n.id (head ∷ peers) new in
    (
      IsAscending-insert_sorted peers n ring.0 absent.1,
      All-insert_sorted _ peers n ring.1 (λ e. absent.0 (sym e)),
    )

-- Joining keeps the ring: on a ring, `append_server_sorted` with memory at hand ends with a ring
-- that has the same head, and whose peers are those from before, together with the new node unless
-- its ID was known.
pub append_server_sorted-IsRing :
    (now : ℕ) (head : ServerInfo) (peers : List ServerInfo) (id : ℤ) (address : Bytes)
    (port leader tcp_socket : ℤ)
    → IsRing (head ∷ peers)
    → (after : List ServerInfo) × (append_server_sorted true now
          (head ∷ peers)
          id
          address
          port
          leader
          tcp_socket
        ≡ ok (head ∷ after))
      × IsRing (head ∷ after)
      × Perm after (
          if server_info_exist id (head ∷ peers)
          then peers
          else fresh_server now id address port leader tcp_socket ∷ peers)
append_server_sorted-IsRing now head peers id address port leader tcp_socket ring =
    elim (Bool-cases (server_info_exist id (head ∷ peers))) [
      | inl known ↦
          (peers, rw (append_server_sorted_cases, known) refl, ring, rw known (Perm.refl peers))
      | inr new ↦
          let n = fresh_server now id address port leader tcp_socket in
          (
            insert_sorted peers n,
            rw (append_server_sorted_cases, new) refl,
            IsRing-insert_sorted head peers n ring new,
            rw new (insert_sorted-perm peers n),
          )
    ]

without-insert_sorted :
    (l : List ServerInfo) (n : ServerInfo)
    → Absent n.id l
    → (server_info_exist n.id (insert_sorted l n) ≡ true) × (without n.id (insert_sorted l n) ≡ l)
unfolding server_info_exist
without-insert_sorted [] n a = ground (arith, ==ℤ_refl n.id)
without-insert_sorted (s ∷ rest) n a =
    ground (arith, ==ℤ_refl n.id, ==ℤ_iff s.id n.id, without-insert_sorted rest n a.1)

-- A server that joins under a new ID and leaves again leaves the list as it was.
pub delete_server-append_server_sorted :
    (now : ℕ) (head : ServerInfo) (peers : List ServerInfo) (id : ℤ) (address : Bytes)
    (port leader tcp_socket : ℤ)
    → server_info_exist id (head ∷ peers) ≡ false
    → (append_server_sorted true now (head ∷ peers) id address port leader tcp_socket >>= λ l.
        delete_server l id)
      ≡ ok (head ∷ peers, 1)
delete_server-append_server_sorted now head peers id address port leader tcp_socket new =
    let n = fresh_server now id address port leader tcp_socket in
    let back = without-insert_sorted peers n (server_info_exist-Absent id (head ∷ peers) new).1 in
    rw (append_server_sorted_cases, new, delete_server_cases, back.0, back.1) refl
