-- ===== src/Joining/Places.antt =====
-- Where a newcomer stands on the ring, and who comes before and behind it.
use ds_project.Base.{
  ◌≡◌, ◌<◌, refl, ap, ℕ, zero, suc, List, [], ◌∷◌, some, ok, if◌then◌else◌, get_elem?,
  get_elem?-some, length, arith, ltb, ltb_ℤ, Bool-cases, inl, inr,
}
use ds_project.Peers.{ServerInfo, get_successor}
use ds_project.Peers.Order.{IsRing}
use ds_project.Peers.Insert.{insert_sorted}
use ds_project.Peers.Neighbours.{next_in_ring, ring_neighbours}
use ds_project.Peers.Positions.{get_last_server-length}
use ds_project.Disconnection.Ring.{with_peers}
use ds_project.Server.Steps.{peer_lem}
use ds_project.Server.{Server, ◌>>=◌}
use ds_project.Joining.{ring_predecessor}

-- The position before the peer at position `k` + 1 on the ring, which the leader is no part of.
abbrev pub prev_in_ring : List ServerInfo → ℕ → ℕ
prev_in_ring peers zero = length peers
prev_in_ring peers (suc k) = suc k

pub insert_sorted-position :
    (l : List ServerInfo) (n : ServerInfo) → (k : ℕ) × (get_elem? (insert_sorted l n) k ≡ some n)
insert_sorted-position [] n = (0, refl)
insert_sorted-position (s ∷ rest) n = elim (Bool-cases (ltb_ℤ n.id s.id)) [
  | inl e ↦ (0, rw e refl)
  | inr e ↦ let (k, at) = insert_sorted-position rest n in (suc k, rw e at)
]

pub length-insert_sorted :
    (l : List ServerInfo) (n : ServerInfo) → length (insert_sorted l n) ≡ suc (length l)
length-insert_sorted [] n = refl
length-insert_sorted (s ∷ rest) n = elim (Bool-cases (ltb_ℤ n.id s.id)) [
  | inl e ↦ rw e refl
  | inr e ↦ rw e (ap suc (length-insert_sorted rest n))
]

pub get_elem?-exists :
    (l : List ServerInfo) (k : ℕ) → k < length l → (s : ServerInfo) × (get_elem? l k ≡ some s)
get_elem?-exists [] k lt = elim lt [ ]
get_elem?-exists (s ∷ rest) zero lt = (s, refl)
get_elem?-exists (s ∷ rest) (suc k) lt = get_elem?-exists rest k (omega arith)

pub prev-length : (l : List ServerInfo) (k : ℕ) → k < length l → prev_in_ring l k < suc (length l)
prev-length l zero lt = omega arith
prev-length l (suc k) lt = omega (arith, lt)

-- The peer that follows, among the peers.
abbrev pub next_peer : List ServerInfo → ℕ → ℕ
next_peer l k = if ltb (suc k) (length l) then suc k else 0

pub next_peer-length : (l : List ServerInfo) (k : ℕ) → k < length l → next_peer l k < length l
next_peer-length l k lt = ground (arith, lt)

pub next_in_ring-next_peer : (l : List ServerInfo) (k : ℕ) → next_in_ring l k ≡ suc (next_peer l k)
next_in_ring-next_peer l k = ground arith

prev_in_ring-next_peer :
    (l : List ServerInfo) (k : ℕ) → k < length l → prev_in_ring l (next_peer l k) ≡ suc k
prev_in_ring-next_peer l k inside = elim (Bool-cases (ltb (suc k) (length l))) [
  | inl e ↦ rw e refl
  | inr e ↦ rw e (ground (arith, inside, e))
]

pub ring_predecessor_lem :
    (head pred n : ServerInfo) (peers : List ServerInfo) (k : ℕ) (t : Server)
    → IsRing (head ∷ peers)
    → get_elem? peers k ≡ some n
    → get_elem? (head ∷ peers) (prev_in_ring peers k) ≡ some pred
    → ring_predecessor n.id (with_peers (head ∷ peers) t) ≡ ok (pred, with_peers (head ∷ peers) t)
unfolding ring_predecessor
ring_predecessor_lem head pred n peers zero t ring at before =
    rw
      (
        ring_predecessor,
        ◌>>=◌,
        (ring_neighbours head peers zero n ring at).0,
        get_last_server-length head peers,
        before,
      )
      refl
ring_predecessor_lem head pred n peers (suc k) t ring at before =
    rw (ring_predecessor, ◌>>=◌, (ring_neighbours head peers (suc k) n ring at).0)
      (peer_lem (suc k) pred (with_peers (head ∷ peers) t) before)

-- The peers of a leader form a ring, which the leader is no part of: for a peer on a ring in order, the
-- predecessor that a join looks up is the peer before it, or the last peer if it is the first;
-- `get_successor` finds the peer behind it, or the first peer if it is the last; and the predecessor of
-- that successor is the peer again.
pub ring_predecessor-get_successor :
    (head n : ServerInfo) (peers : List ServerInfo) (k : ℕ) (t : Server)
    → IsRing (head ∷ peers)
    → get_elem? peers k ≡ some n
    → (before after : ServerInfo) × (get_elem? (head ∷ peers) (prev_in_ring peers k) ≡ some before)
      × (ring_predecessor n.id (with_peers (head ∷ peers) t)
          ≡ ok (before, with_peers (head ∷ peers) t))
      × (get_successor n.id (head ∷ peers) ≡ ok (some (next_in_ring peers k)))
      × (get_elem? (head ∷ peers) (next_in_ring peers k) ≡ some after)
      × (ring_predecessor after.id (with_peers (head ∷ peers) t)
          ≡ ok (n, with_peers (head ∷ peers) t))
ring_predecessor-get_successor head n peers k t ring at =
    let inside = get_elem?-some peers k at in
    let (before, is_before) =
      get_elem?-exists (head ∷ peers) (prev_in_ring peers k) (prev-length peers k inside) in
    let (after, is_after) =
      get_elem?-exists peers (next_peer peers k) (next_peer-length peers k inside) in
    (
      before,
      after,
      is_before,
      ring_predecessor_lem head before n peers k t ring at is_before,
      (ring_neighbours head peers k n ring at).1,
      rw (next_in_ring-next_peer peers k) is_after,
      ring_predecessor_lem head n after peers (next_peer peers k) t ring is_after
          (rw (prev_in_ring-next_peer peers k inside) at),
    )
