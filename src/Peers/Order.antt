-- ===== src/Peers/Order.antt =====
-- Predicates on a list of servers: which IDs it holds, and in which order.
use ds_project.Base.{◌≡◌, ◌≢◌, false, List, [], ◌∷◌, ℤ, ◌<ℤ◌, ==ℤ_iff, All, arith}
use ds_project.Peers.{ServerInfo, server_info_exist}

-- No node has the ID.
abbrev pub Absent : ℤ → List ServerInfo → Type 0
Absent id = All (λ s. s.id ≢ id)

-- The IDs rise strictly, and the first is greater than the bound.
abbrev pub Above : ℤ → List ServerInfo → Type 0
Above b [] = Unit {0}
Above b (s ∷ rest) = (b <ℤ s.id) × Above s.id rest

abbrev pub IsAscending : List ServerInfo → Type 0
IsAscending [] = Unit {0}
IsAscending (s ∷ rest) = Above s.id rest

-- The ring as a leader keeps it: itself, then its peers by rising ID, none with its own ID.
abbrev pub IsRing : List ServerInfo → Type 0
IsRing [] = Unit {0}
IsRing (head ∷ peers) = IsAscending peers × Absent head.id peers

pub server_info_exist-Absent :
    (id : ℤ) (l : List ServerInfo) → server_info_exist id l ≡ false → Absent id l
unfolding server_info_exist
server_info_exist-Absent id [] h = tt
server_info_exist-Absent id (s ∷ rest) h =
    ground (arith, ==ℤ_iff s.id id, server_info_exist-Absent id rest)

Absent-server_info_exist :
    (id : ℤ) (l : List ServerInfo) → Absent id l → server_info_exist id l ≡ false
unfolding server_info_exist
Absent-server_info_exist id [] h = ground arith
Absent-server_info_exist id (s ∷ rest) h =
    ground (arith, ==ℤ_iff s.id id, Absent-server_info_exist id rest h.1)

-- Every ID of a rising list is greater than the bound.
pub Above-All : (b : ℤ) (l : List ServerInfo) → Above b l → All (λ s. b <ℤ s.id) l
Above-All b [] h = tt
Above-All b (s ∷ rest) h = (h.0, weaken rest (Above-All s.id rest h.1))
  where
    weaken : (l : List ServerInfo) → All (λ t. s.id <ℤ t.id) l → All (λ t. b <ℤ t.id) l
    weaken [] a = tt
    weaken (t ∷ r) a = (omega (arith, h.0), weaken r a.1)

All-lt-Absent : (b : ℤ) (l : List ServerInfo) → All (λ s. b <ℤ s.id) l → Absent b l
All-lt-Absent b [] h = tt
All-lt-Absent b (s ∷ rest) h = (ground (arith, h.0), All-lt-Absent b rest h.1)

pub Above-IsAscending : (b : ℤ) (l : List ServerInfo) → Above b l → IsAscending l
Above-IsAscending b [] h = tt
Above-IsAscending b (s ∷ rest) h = h.1

pub Above-Absent : (b : ℤ) (l : List ServerInfo) → Above b l → Absent b l
Above-Absent b l h = All-lt-Absent b l (Above-All b l h)
