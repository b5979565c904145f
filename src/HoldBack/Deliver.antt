-- ===== src/HoldBack/Deliver.antt =====
-- The delivery loop, and a plain description of it by prefixes of the queue.
use ds_project.Base.{
  ◌≤◌, ◌≡◌, refl, List, [], ◌∷◌, ok, Result, ◌>>=◌, ◌↔◌, ℤ, ◌≤ℤ◌, ==ℤ_refl, ltb, if◌then◌else◌,
  arith,
}
use ds_project.HoldBack.{
  HoldBackQueue, Delivery, remove_from_holdback_queue, array_compare, bump, deliver_loop,
}

-- No entry of the first array is greater than the entry of the second at the same place.
abbrev pub AtMost : List ℤ → List ℤ → Type 0
AtMost [] arr2 = Unit {0}
AtMost (a ∷ arr1) [] = Unit {0}
AtMost (a ∷ arr1) (b ∷ arr2) = (a ≤ℤ b) × AtMost arr1 arr2

array_compare_le : (arr1 arr2 : List ℤ) → array_compare arr1 arr2 ≤ 1
unfolding array_compare
array_compare_le [] arr2 = omega arith
array_compare_le (a ∷ arr1) [] = omega arith
array_compare_le (a ∷ arr1) (b ∷ arr2) = ground (arith, array_compare_le arr1 arr2)

pub AtMost-array_compare : (arr1 arr2 : List ℤ) → array_compare arr1 arr2 ≡ 0 → AtMost arr1 arr2
unfolding array_compare
AtMost-array_compare [] arr2 h = tt
AtMost-array_compare (a ∷ arr1) [] h = tt
AtMost-array_compare (a ∷ arr1) (b ∷ arr2) h =
    (ground (arith, h), AtMost-array_compare arr1 arr2 (ground (arith, h)))

array_compare-AtMost : (arr1 arr2 : List ℤ) → AtMost arr1 arr2 → array_compare arr1 arr2 ≡ 0
unfolding array_compare
array_compare-AtMost [] arr2 h = refl
array_compare-AtMost (a ∷ arr1) [] h = refl
array_compare-AtMost (a ∷ arr1) (b ∷ arr2) h =
    ground (arith, h.0, array_compare-AtMost arr1 arr2 h.1)

-- `array_compare` answers 0 or 1, and 0 exactly if every entry of the first array is at most the
-- entry of the second at the same place: it is the order on vector clocks.
pub array_compare_lem :
    (arr1 arr2 : List ℤ)
    → (array_compare arr1 arr2 ≤ 1) × ((array_compare arr1 arr2 ≡ 0) ↔ AtMost arr1 arr2)
array_compare_lem arr1 arr2 =
    (array_compare_le arr1 arr2, (AtMost-array_compare arr1 arr2, array_compare-AtMost arr1 arr2))

-- The description: a queue whose head can be delivered loses its head.
abbrev pub deliver_prefix : List HoldBackQueue → List ℤ → List HoldBackQueue → Result Delivery
deliver_prefix [] delivered log = ok (record { queue = []; delivered = delivered; log = log })
deliver_prefix (m ∷ rest) delivered log =
    if ltb 0 (array_compare m.dependency delivered)
    then ok (record { queue = m ∷ rest; delivered = delivered; log = log })
    else bump delivered m.clk_index >>= λ d. deliver_prefix rest d (m ∷ log)

remove_head :
    (m : HoldBackQueue) (rest : List HoldBackQueue)
    → remove_from_holdback_queue (m ∷ rest) m.clk_index ≡ rest
unfolding remove_from_holdback_queue
remove_head m rest = ground (arith, ==ℤ_refl m.clk_index)

-- The loop starts at the head of the queue. Then each removal, which searches the queue by the clock
-- index of the delivered entry, hits that very entry, so the loop delivers a prefix of the queue in
-- the order of arrival, keeps the rest as it is, and stops at the first entry that must wait.
pub deliver_loop-prefix :
    (queue : List HoldBackQueue) (delivered : List ℤ) (log : List HoldBackQueue)
    → deliver_loop queue (record { queue = queue; delivered = delivered; log = log })
      ≡ deliver_prefix queue delivered log
unfolding deliver_loop
deliver_loop-prefix [] delivered log = refl
deliver_loop-prefix (m ∷ rest) delivered log = simp (remove_head, deliver_loop-prefix rest)
