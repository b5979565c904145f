-- ===== src/Peers/Delete.antt =====
-- `delete_server`: what it unlinks, and where it stops.
use mathlib.Core.List.{Perm}
use mathlib.Core.List.Perm
use ds_project.Base.{
  ◌≡◌, refl, ap, suc, length, inl, inr, true, List, [], ◌∷◌, ok, err, null_pointer, ℤ, ◌==ℤ◌,
  ==ℤ_iff, ==ℤ_refl, if◌then◌else◌, All, arith, Bool-cases,
}
use ds_project.Peers.{ServerInfo, server_info_exist, delete_server}
use ds_project.Peers.Order.{Absent, Above, IsAscending, IsRing, Above-IsAscending, Above-Absent}

-- The list without the first node of the ID.
abbrev pub without : ℤ → List ServerInfo → List ServerInfo
without id [] = []
without id (s ∷ rest) = if s.id ==ℤ id then rest else s ∷ without id rest

-- `delete_server` on a list with a head: if a node behind the head has the ID, the first such node
-- is unlinked, the others keep their order, and 1 is returned; otherwise the walk reads through the
-- NULL at the end of the list, so an unknown ID, or the head's own, is never answered by 0.
pub delete_server_cases :
    (head : ServerInfo) (peers : List ServerInfo) (id : ℤ)
    → delete_server (head ∷ peers) id
      ≡ (if server_info_exist id peers then ok (head ∷ without id peers, 1) else err null_pointer)
unfolding delete_server server_info_exist
delete_server_cases head [] id = refl
delete_server_cases head (next ∷ rest) id = ground (arith, delete_server_cases next rest id)

Above-without : (id b : ℤ) (l : List ServerInfo) → Above b l → Above b (without id l)
Above-without id b [] h = tt
Above-without id b (s ∷ rest) h = elim (Bool-cases (s.id ==ℤ id)) [
  | inl e ↦ rw e (lower rest h.1)
  | inr e ↦ rw e (h.0, Above-without id s.id rest h.1)
]
  where
    lower : (r : List ServerInfo) → Above s.id r → Above b r
    lower [] a = tt
    lower (t ∷ r) a = (omega (arith, h.0), a.1)

IsAscending-without : (id : ℤ) (l : List ServerInfo) → IsAscending l → IsAscending (without id l)
IsAscending-without id [] h = tt
IsAscending-without id (s ∷ rest) h = elim (Bool-cases (s.id ==ℤ id)) [
  | inl e ↦ rw e (Above-IsAscending s.id rest h)
  | inr e ↦ rw e (Above-without id s.id rest h)
]

All-without {κ} :
    (P : ServerInfo → Type κ) (id : ℤ) (l : List ServerInfo) → All P l → All P (without id l)
All-without P id [] h = tt
All-without P id (s ∷ rest) h = elim (Bool-cases (s.id ==ℤ id)) [
  | inl e ↦ rw e h.1
  | inr e ↦ rw e (h.0, All-without P id rest h.1)
]

Absent-without : (id : ℤ) (l : List ServerInfo) → IsAscending l → Absent id (without id l)
Absent-without id [] h = tt
Absent-without id (s ∷ rest) h = elim (Bool-cases (s.id ==ℤ id)) [
  | inl e ↦ rw (e, ← (==ℤ_iff s.id id).0 e) (Above-Absent s.id rest h)
  | inr e ↦
      rw e (λ d. cc ((==ℤ_iff s.id id).1 d), Absent-without id rest (Above-IsAscending s.id rest h))
]

without-perm :
    (id : ℤ) (l : List ServerInfo)
    → server_info_exist id l ≡ true
    → (gone : ServerInfo) × (gone.id ≡ id) × Perm l (gone ∷ without id l)
unfolding server_info_exist
without-perm id [] h = cc
without-perm id (s ∷ rest) h = elim (Bool-cases (s.id ==ℤ id)) [
  | inl e ↦ (s, (==ℤ_iff s.id id).0 e, rw e (Perm.refl (s ∷ rest)))
  | inr e ↦
      let (gone, same, p) = without-perm id rest (ground (arith, e, h)) in
      (gone, same, rw e (Perm.trans (Perm.cons s p) (Perm.swap gone s _)))
]

-- On a ring that knows the ID, `delete_server` leaves a ring with the same head, in which no peer
-- has the ID, and which lost exactly one node, one of that ID.
pub delete_server-IsRing :
    (head : ServerInfo) (peers : List ServerInfo) (id : ℤ)
    → IsRing (head ∷ peers)
    → server_info_exist id peers ≡ true
    → (left : List ServerInfo) × (gone : ServerInfo) × (delete_server (head ∷ peers) id
        ≡ ok (head ∷ left, 1))
      × IsRing (head ∷ left)
      × Absent id left
      × (gone.id ≡ id)
      × Perm peers (gone ∷ left)
delete_server-IsRing head peers id ring known =
    let (gone, same, p) = without-perm id peers known in
    (
      without id peers,
      gone,
      rw (delete_server_cases, known) refl,
      (IsAscending-without id peers ring.0, All-without _ id peers ring.1),
      Absent-without id peers ring.0,
      same,
      p,
    )

pub delete_server-second :
    (head peer : ServerInfo) (l : List ServerInfo)
    → delete_server (head ∷ peer ∷ l) peer.id ≡ ok (head ∷ l, 1)
unfolding delete_server
delete_server-second head peer l = rw (==ℤ_refl peer.id) refl

pub length-without :
    (id : ℤ) (l : List ServerInfo)
    → server_info_exist id l ≡ true
    → suc (length (without id l)) ≡ length l
unfolding server_info_exist
length-without id [] h = cc
length-without id (s ∷ rest) h = elim (Bool-cases (s.id ==ℤ id)) [
  | inl e ↦ rw e refl
  | inr e ↦ rw e (ap suc (length-without id rest (ground (arith, e, h))))
]

pub delete_server_none : (id : ℤ) → delete_server [] id ≡ ok ([], 0)
unfolding delete_server
delete_server_none id = refl
