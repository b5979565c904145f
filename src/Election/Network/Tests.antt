-- ===== src/Election/Network/Tests.antt =====
-- An election among the servers 5, 9 and 7, which server 5 begins.
use ds_project.Base.{
  ◌≡◌, ◌≤◌, ◌+◌, ◌*◌, ◌⊎◌, refl, true, List, [], ◌∷◌, ℤ, pos, negsuc, arith, length,
}
use ds_project.Election.Network.{
  mem, Flight, Net, own_flight, vote_reply, begin, arrive, come_home, Step, Reach, here, next,
  quiet,
}
use ds_project.Election.Network.Members.{count}
use ds_project.Election.Network.Invariant.{IsDistinct, IsGreatest}
use ds_project.Election.Network.Elects.{winner-IsGreatest, quiet_again-won}
use ds_project.Election.Network.Bound.{steps, steps-le}

abbrev ring : List ℤ
ring = pos 5 ∷ pos 9 ∷ pos 7 ∷ []

ring-IsDistinct : IsDistinct ring
unfolding count
ring-IsDistinct (pos n) = ground arith
ring-IsDistinct (negsuc n) = ground arith

abbrev first : Flight
first = own_flight (pos 5) (pos 9 ∷ pos 7 ∷ [])

abbrev greater : List ℤ → List ℤ → Flight
greater passed ahead = record { vote = pos 9; passed = passed; ahead = ahead }

abbrev net_with : List Flight → List ℤ → Net
net_with flights winners = record {
  participants = pos 9 ∷ pos 5 ∷ [];
  flights = flights;
  winners = winners;
}

abbrev elected : Net
elected = net_with [] (pos 9 ∷ [])

abbrev begun : Net
begun = record { participants = pos 5 ∷ []; flights = first ∷ []; winners = [] }

begins : Step ring quiet begun
begins = begin (pos 5) [] (pos 9 ∷ pos 7 ∷ []) refl refl refl

enters : Step ring begun (net_with (greater [] (pos 7 ∷ pos 5 ∷ []) ∷ []) [])
unfolding vote_reply
enters = arrive first (pos 9) (pos 7 ∷ []) [] [] refl refl refl

passes_7 :
    Step ring
      (net_with (greater [] (pos 7 ∷ pos 5 ∷ []) ∷ []) [])
      (net_with (greater (pos 7 ∷ []) (pos 5 ∷ []) ∷ []) [])
unfolding vote_reply
passes_7 = arrive (greater [] (pos 7 ∷ pos 5 ∷ [])) (pos 7) (pos 5 ∷ []) [] [] refl refl refl

passes_5 :
    Step ring
      (net_with (greater (pos 7 ∷ []) (pos 5 ∷ []) ∷ []) [])
      (net_with (greater (pos 5 ∷ pos 7 ∷ []) [] ∷ []) [])
unfolding vote_reply
passes_5 = arrive (greater (pos 7 ∷ []) (pos 5 ∷ [])) (pos 5) [] [] [] refl refl refl

wins : Step ring (net_with (greater (pos 5 ∷ pos 7 ∷ []) [] ∷ []) []) elected
unfolding vote_reply
wins = come_home (greater (pos 5 ∷ pos 7 ∷ []) []) [] [] refl refl refl

run : Reach ring quiet elected
run = next (next (next (next (next here begins) enters) passes_7) passes_5) wins

winner-IsGreatest_example : IsGreatest ring (pos 9) × ◌≡◌ {A = ℤ} (pos 9) (pos 9)
winner-IsGreatest_example =
    winner-IsGreatest ring elected (pos 9) (pos 9) ring-IsDistinct run refl refl

quiet_again-won_example : (w : ℤ) × (mem w elected.winners ≡ true) × IsGreatest ring w
quiet_again-won_example = quiet_again-won ring elected (pos 5) ring-IsDistinct run refl refl

steps-le_example :
    (steps run ≤ length ring * (length ring + 1))
    × ((elected.flights ≡ []) ⊎ ((m : Net) × Step ring elected m))
steps-le_example = steps-le ring elected run ring-IsDistinct
