-- ===== src/Joining/Tests.antt =====
-- Joins on concrete rings.
use ds_project.Base.{◌≡◌, ok, refl, [], ◌∷◌, pos, arith, some, get_elem?}
use ds_project.Text.{codes, print, print_int}
use ds_project.Server.Examples.{calm, connects, node, leader_node, start}
use ds_project.Disconnection.{update_text}
use ds_project.Peers.{ServerInfo, get_successor, server_info_exist}
use ds_project.Joining.{welcome, know, know_text, new_server, ring_reconstruction, ring_predecessor}
use ds_project.Joining.Places.{prev_in_ring, ring_predecessor-get_successor}
use ds_project.Peers.Neighbours.{next_in_ring}
use ds_project.Disconnection.Ring.{with_peers}
use ds_project.Joining.Ring.{JoinsRing, new_server-JoinsRing}

-- Server 5 joins between the servers 2 and 7.
new_server-JoinsRing_example :
    JoinsRing calm start leader_node
      (node (pos 2))
      (node (pos 7) ∷ [])
      (pos 5)
      (pos 4040)
      (pos 9)
      (codes "10.0.0.7")
      welcome
      (λ h. update_text (codes "10.0.0.7") (pos 5) (pos 4040))
      (new_server calm (pos 5) (pos 4040) (codes "10.0.0.7"))
    × JoinsRing calm start leader_node
        (node (pos 2))
        (node (pos 7) ∷ [])
        (pos 5)
        (pos 4040)
        (pos 9)
        (codes "10.0.0.7")
        know
        (λ h. know_text h (pos 5) (codes "10.0.0.7") (pos 4040))
        (ring_reconstruction calm (pos 5) (pos 4040) (codes "10.0.0.7"))
unfolding print print_int server_info_exist
new_server-JoinsRing_example =
    new_server-JoinsRing calm start leader_node (node (pos 2)) (node (pos 7) ∷ []) (pos 5)
      (pos 4040) (pos 9) (codes "10.0.0.7") ((ground arith, tt), (ground arith, (ground arith, tt)))
      refl connects (λ trace fd m. refl) (omega arith, (omega arith, (omega arith, tt)))
      (omega arith) (omega arith, (omega arith, (omega arith, tt))) (omega arith)

-- The last of three peers.
ring_predecessor-get_successor_example :
    let peers = node (pos 2) ∷ node (pos 5) ∷ node (pos 7) ∷ [] in
    let ring = with_peers (leader_node ∷ peers) start in
    (before : ServerInfo) × (after : ServerInfo) × (get_elem?
        (leader_node ∷ peers)
        (prev_in_ring peers 2)
      ≡ some before)
    × (ring_predecessor (pos 7) ring ≡ ok (before, ring))
    × (get_successor (pos 7) (leader_node ∷ peers) ≡ ok (some (next_in_ring peers 2)))
    × (get_elem? (leader_node ∷ peers) (next_in_ring peers 2) ≡ some after)
    × (ring_predecessor after.id ring ≡ ok (node (pos 7), ring))
ring_predecessor-get_successor_example =
    ring_predecessor-get_successor leader_node (node (pos 7))
      (node (pos 2) ∷ node (pos 5) ∷ node (pos 7) ∷ []) 2 start
      ((ground arith, (ground arith, tt)), (cc, (cc, (cc, tt)))) refl
