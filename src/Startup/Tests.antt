-- ===== src/Startup/Tests.antt =====
-- The start of a concrete server.
use ds_project.Base.{◌≤◌, refl, [], ◌∷◌, none, some, pos, arith}
use ds_project.Text.{codes}
use ds_project.Discovery.{silent, Caller}
use ds_project.ServerLoop.{Ready}
use ds_project.Server.Examples.{calm, start}
use ds_project.Kept.{Ends}
use ds_project.Startup.{main}
use ds_project.Startup.Keeps.{drawn, own_node, main_keeps}

abbrev nobody : Caller
nobody = record { socket = pos 0; addr = [] }

abbrev arrival : Ready
arrival = record {
  fd = pos 4;
  accepted = pos 8;
  ip = some (codes "10.0.0.9");
  datagram = none;
  received = none;
}

-- No leader answers, and then a client connects to the listening socket 4.
main_keeps_example :
    (1 ≤ drawn calm start)
    × (drawn calm start ≤ 10000)
    × Ends (own_node calm start (pos 4) (pos 4040) (codes "10.0.0.7")) (
        main calm
          (pos 4)
          (pos 3)
          (codes "10.0.0.7")
          (pos 4040)
          (silent ∷ [])
          nobody
          ((none, arrival ∷ []) ∷ [])
          (record start { connected_peers = [] }))
main_keeps_example =
    main_keeps calm start (pos 4) (pos 3) (pos 4040) (codes "10.0.0.7") (silent ∷ []) nobody
      ((none, arrival ∷ []) ∷ []) refl (omega arith) refl
