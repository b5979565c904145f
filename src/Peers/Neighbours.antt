-- ===== src/Peers/Neighbours.antt =====
-- `get_predecessor` and `get_successor` on a ring.
use ds_project.Base.{
  ℕ, zero, suc, ◌+◌, ◌≡◌, true, ◌==ℤ◌, refl, subst, inl, inr, ◌⊎◌, List, [], ◌∷◌, none, some, ok, ℤ,
  ltb_ℤ, ltb, ◌<ℤ◌, ◌≤ℤ◌, ==ℤ_iff, ==ℤ_refl, ap, if◌then◌else◌, All, arith, length, get_elem?,
  Bool-cases,
}
use ds_project.Peers.{
  ServerInfo, server_info_exist, find_before, find_greater, get_predecessor, get_successor,
}
use ds_project.Peers.Order.{Absent, Above, IsAscending, IsRing, Above-All, Above-IsAscending}

-- The position of the peer that follows position `k`, and of the first peer behind the last.
abbrev pub next_in_ring : List ServerInfo → ℕ → ℕ
next_in_ring peers k = if ltb (suc k) (length peers) then suc (suc k) else 1

find_before-Absent :
    (at : ℕ) (id : ℤ) (l : List ServerInfo) → Absent id l → find_before at l id ≡ none
unfolding find_before
find_before-Absent at id [] h = refl
find_before-Absent at id (s ∷ rest) h =
    ground (arith, ==ℤ_iff s.id id, find_before-Absent (suc at) id rest h.1)

pub find_before-exist :
    (at : ℕ) (id : ℤ) (l : List ServerInfo)
    → server_info_exist id l ≡ true
    → (k : ℕ) × (find_before at l id ≡ some k)
unfolding find_before server_info_exist
find_before-exist at id [] h = cc
find_before-exist at id (s ∷ rest) h = elim (Bool-cases (s.id ==ℤ id)) [
  | inl e ↦ (at, rw e refl)
  | inr e ↦ let (k, f) = find_before-exist (suc at) id rest (ground (arith, e, h)) in (k, rw e f)
]

pub get_predecessor-Absent :
    (head : ServerInfo) (peers : List ServerInfo) (id : ℤ)
    → Absent id peers
    → get_predecessor id (head ∷ peers) ≡ ok none
unfolding get_predecessor
get_predecessor-Absent head peers id h = ap ok (find_before-Absent 0 id peers h)

pub get_elem?-All {κ} :
    (P : ServerInfo → Type κ) (l : List ServerInfo) (k : ℕ) {s : ServerInfo}
    → All P l
    → get_elem? l k ≡ some s
    → P s
get_elem?-All P [] k h e = cc
get_elem?-All P (x ∷ rest) zero h e = subst P (ground (arith, e)) h.0
get_elem?-All P (x ∷ rest) (suc k) h e = get_elem?-All P rest k h.1 e

find_before-ring :
    (at : ℕ) (l : List ServerInfo) (k : ℕ) (s : ServerInfo)
    → IsAscending l
    → get_elem? l k ≡ some s
    → find_before at l s.id ≡ some (at + k)
unfolding find_before
find_before-ring at [] k s h e = cc
find_before-ring at (x ∷ rest) zero s h e = ground (arith, ==ℤ_refl s.id)
find_before-ring at (x ∷ rest) (suc k) s h e = ground (
  arith,
  get_elem?-All (λ t. x.id <ℤ t.id) rest k (Above-All x.id rest h) e,
  find_before-ring (suc at) rest k s (Above-IsAscending x.id rest h) e,
)

find_greater-Above :
    (at : ℕ) (l : List ServerInfo) (b : ℤ)
    → Above b l
    → find_greater at l b ≡ (if ltb 0 (length l) then some at else none)
unfolding find_greater
find_greater-Above at [] b h = refl
find_greater-Above at (x ∷ rest) b h = ground arith

find_greater-ring :
    (at : ℕ) (l : List ServerInfo) (k : ℕ) (s : ServerInfo)
    → IsAscending l
    → get_elem? l k ≡ some s
    → find_greater at l s.id ≡ (if ltb (suc k) (length l) then some (suc (at + k)) else none)
unfolding find_greater
find_greater-ring at [] k s h e = cc
find_greater-ring at (x ∷ rest) zero s h e = ground (arith, find_greater-Above (suc at) rest x.id h)
find_greater-ring at (x ∷ rest) (suc k) s h e = ground (
  arith,
  get_elem?-All (λ t. x.id <ℤ t.id) rest k (Above-All x.id rest h) e,
  find_greater-ring (suc at) rest k s (Above-IsAscending x.id rest h) e,
)

-- On a ring, the predecessor of the peer at position k + 1 is the node at position k, where 0 is
-- the leader itself, and its successor is the next peer, or the first peer behind the last one.
pub ring_neighbours :
    (head : ServerInfo) (peers : List ServerInfo) (k : ℕ) (s : ServerInfo)
    → IsRing (head ∷ peers)
    → get_elem? peers k ≡ some s
    → (get_predecessor s.id (head ∷ peers) ≡ ok (some k))
      × (get_successor s.id (head ∷ peers) ≡ ok (some (next_in_ring peers k)))
unfolding get_predecessor get_successor
ring_neighbours head (x ∷ rest) k s ring e =
    ground (
      arith,
      find_before-ring 0 (x ∷ rest) k s ring.0 e,
      find_greater-ring 1 (x ∷ rest) k s ring.0 e,
    )
ring_neighbours head [] k s ring e = cc

-- A peer above the bound, and not above any other peer that is.
pub record IsLeastGreater (b : ℤ) (peers : List ServerInfo) (s : ServerInfo) : Type 0 where
  pub greater : b <ℤ s.id
  pub least : All (λ t. b <ℤ t.id → s.id ≤ℤ t.id) peers

Above-least :
    (b : ℤ) (s : ServerInfo) (l : List ServerInfo)
    → All (λ t. s.id <ℤ t.id) l
    → All (λ t. b <ℤ t.id → s.id ≤ℤ t.id) l
Above-least b s [] h = tt
Above-least b s (t ∷ rest) h = (λ lt. omega (arith, h.0), Above-least b s rest h.1)

find_greater_lem :
    (at : ℕ) (l : List ServerInfo) (b : ℤ)
    → IsAscending l
    → ((find_greater at l b ≡ none) × All (λ t. t.id ≤ℤ b) l)
      ⊎ ((k : ℕ) × (s : ServerInfo) × (find_greater at l b ≡ some (at + k))
          × (get_elem? l k ≡ some s)
          × IsLeastGreater b l s)
unfolding find_greater
find_greater_lem at [] b h = inl (refl, tt)
find_greater_lem at (x ∷ rest) b h = elim (Bool-cases (ltb_ℤ b x.id)) [
  | inl e ↦ inr (
    0,
    x,
    rw e (ground arith),
    refl,
    record {
      greater = ground (arith, e);
      least = (λ lt. omega arith, Above-least b x rest (Above-All x.id rest h));
    },
  )
  | inr e ↦ elim (find_greater_lem (suc at) rest b (Above-IsAscending x.id rest h)) [
    | inl (f, below) ↦ inl (rw e f, (ground (arith, e), below))
    | inr (k, s, f, g, found) ↦ inr (
      suc k,
      s,
      rw e (ground (arith, f)),
      g,
      record { greater = found.greater; least = (ground (arith, e), found.least) },
    )
  ]
]

-- On a ring with a peer, `get_successor` of any ID finds a peer: the one of the least greater ID, or,
-- if no peer has a greater ID, the first.
pub get_successor_least :
    (head first : ServerInfo) (rest : List ServerInfo) (id : ℤ)
    → IsRing (head ∷ first ∷ rest)
    → (k : ℕ) × (s : ServerInfo) × (get_successor id (head ∷ first ∷ rest) ≡ ok (some (suc k)))
      × (get_elem? (first ∷ rest) k ≡ some s)
      × (IsLeastGreater id (first ∷ rest) s ⊎ (All (λ t. t.id ≤ℤ id) (first ∷ rest) × (k ≡ 0)))
unfolding get_successor
get_successor_least head first rest id ring = elim (find_greater_lem 1 (first ∷ rest) id ring.0) [
  | inl (f, below) ↦ (0, first, rw (f, get_successor) refl, refl, inr (below, refl))
  | inr (k, s, f, g, found) ↦ (k, s, rw (f, get_successor) (ground arith), g, inl found)
]
