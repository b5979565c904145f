-- ===== src/Peers/Tests.antt =====
-- The list of servers on concrete lists.
use mathlib.Core.List.{Perm}
use ds_project.Base.{
  ◌≡◌, ◌⊎◌, ◌≤ℤ◌, ℕ, suc, some, All, get_elem?, refl, List, [], ◌∷◌, ok, ℤ, pos, true, false, err,
  null_pointer, if◌then◌else◌, arith,
}
use ds_project.Text.{codes}
use ds_project.Peers.{
  ServerInfo, get_successor, append_server_sorted, delete_server, server_info_exist,
}
use ds_project.Peers.Neighbours.{IsLeastGreater, get_successor_least}
use ds_project.Peers.Order.{IsRing, Absent}
use ds_project.Peers.Insert.{append_server_sorted-IsRing}
use ds_project.Peers.Delete.{without, delete_server_cases, delete_server-IsRing}

abbrev node : ℤ → ServerInfo
node id = record {
  id = id;
  addr = codes "10.0.0.7";
  port = pos 4040;
  leader = pos 0;
  tcp_socket = id;
  last_heartbeat = 60;
}

abbrev three : List ServerInfo
three = node (pos 2) ∷ node (pos 5) ∷ node (pos 9) ∷ []

ring : IsRing (node (pos 1) ∷ three)
ring = ((omega arith, (omega arith, tt)), (cc, (cc, (cc, tt))))

-- Server 6 is not on the ring; 9 is the next greater ID.
get_successor_least_example :
    (k : ℕ) × (s : ServerInfo) × (get_successor (pos 6) (node (pos 1) ∷ three) ≡ ok (some (suc k)))
    × (get_elem? three k ≡ some s)
    × (IsLeastGreater (pos 6) three s ⊎ (All (λ t. t.id ≤ℤ pos 6) three × (k ≡ 0)))
get_successor_least_example =
    get_successor_least (node (pos 1)) (node (pos 2)) (node (pos 5) ∷ node (pos 9) ∷ []) (pos 6)
      ring

known : server_info_exist (pos 5) three ≡ true
unfolding server_info_exist
known = refl

unknown : server_info_exist (pos 7) (node (pos 1) ∷ three) ≡ false
unfolding server_info_exist
unknown = refl

delete_server-IsRing_example :
    (left : List ServerInfo) × (gone : ServerInfo) × (delete_server (node (pos 1) ∷ three) (pos 5)
      ≡ ok (node (pos 1) ∷ left, 1))
    × IsRing (node (pos 1) ∷ left)
    × Absent (pos 5) left
    × (gone.id ≡ pos 5)
    × Perm three (gone ∷ left)
delete_server-IsRing_example = delete_server-IsRing (node (pos 1)) three (pos 5) ring known

delete_server_cases_example : delete_server (node (pos 1) ∷ three) (pos 1) ≡ (
    if server_info_exist (pos 1) three
    then ok (node (pos 1) ∷ without (pos 1) three, 1)
    else err null_pointer)
delete_server_cases_example = delete_server_cases (node (pos 1)) three (pos 1)

-- The head's own ID is not found, and the walk falls off the list.
delete_server_head : delete_server (node (pos 1) ∷ three) (pos 1) ≡ err null_pointer
unfolding delete_server
delete_server_head = refl

append_server_sorted-IsRing_example :
    (after : List ServerInfo) × (append_server_sorted true 60
        (node (pos 1) ∷ three)
        (pos 7)
        (codes "10.0.0.7")
        (pos 4040)
        (pos 0)
        (pos 7)
      ≡ ok (node (pos 1) ∷ after))
    × IsRing (node (pos 1) ∷ after)
    × Perm after
        (if server_info_exist (pos 7) (node (pos 1) ∷ three) then three else node (pos 7) ∷ three)
append_server_sorted-IsRing_example =
    append_server_sorted-IsRing 60 (node (pos 1)) three (pos 7) (codes "10.0.0.7") (pos 4040)
      (pos 0) (pos 7) ring
