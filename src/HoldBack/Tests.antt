-- ===== src/HoldBack/Tests.antt =====
-- The hold-back queue on concrete messages.
use ds_project.Base.{◌≡◌, ◌<◌, refl, List, [], ◌∷◌, ◌++◌, replicate, set, ok, ℤ, pos, arith}
use mathlib.Core.List.{reverse}
use ds_project.HoldBack.{
  HoldBackQueue, Delivery, array_compare, deliver_loop, arrive, arrive_all, nothing_delivered,
}
use ds_project.HoldBack.Deliver.{deliver_prefix, deliver_loop-prefix}
use ds_project.HoldBack.Causal.{IsCausal, Counts, arrive_all-IsCausal}
use ds_project.HoldBack.Blocked.{arrive_all_waits}

abbrev none_seen : List ℤ
none_seen = replicate 10 (pos 0)

-- A message of a member, that depends on nothing.
abbrev free : ℤ → HoldBackQueue
free k = record { id = pos 1; clk_index = k; content = 109 ∷ []; dependency = none_seen }

-- A message of member 2, that depends on one of member 1.
abbrev answering : HoldBackQueue
answering = record (free (pos 2)) { dependency = set none_seen 1 (pos 1) }

deliver_loop-prefix_example :
    deliver_loop
      (free (pos 1) ∷ answering ∷ [])
      (record { queue = free (pos 1) ∷ answering ∷ []; delivered = none_seen; log = [] })
    ≡ deliver_prefix (free (pos 1) ∷ answering ∷ []) none_seen []
deliver_loop-prefix_example = deliver_loop-prefix (free (pos 1) ∷ answering ∷ []) none_seen []

arrive_all-IsCausal_example :
    (s : Delivery) × (arrive_all nothing_delivered (free (pos 1) ∷ answering ∷ []) ≡ ok s)
    × IsCausal s.log
    × Counts s.delivered s.log
    × (reverse s.log ++ s.queue ≡ free (pos 1) ∷ answering ∷ [])
arrive_all-IsCausal_example =
    arrive_all-IsCausal (free (pos 1) ∷ answering ∷ [])
      ((1, refl, omega arith), ((2, refl, omega arith), tt)) (omega arith)

-- The answering overtakes, and waits.
abbrev overtaken : Delivery
overtaken = record { queue = answering ∷ []; delivered = none_seen; log = [] }

overtaken_arrival : arrive nothing_delivered answering ≡ ok overtaken
unfolding arrive deliver_loop array_compare
overtaken_arrival = refl

must_wait : 0 < array_compare answering.dependency none_seen
unfolding array_compare
must_wait = omega arith

arrive_all_waits_example :
    arrive_all overtaken (free (pos 1) ∷ [])
    ≡ ok (record overtaken { queue = answering ∷ free (pos 1) ∷ [] })
arrive_all_waits_example =
    arrive_all_waits overtaken answering [] (free (pos 1) ∷ []) refl must_wait
