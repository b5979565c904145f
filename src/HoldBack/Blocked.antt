-- ===== src/HoldBack/Blocked.antt =====
-- What a message that must wait does to those behind it.
use ds_project.Base.{
  ◌<◌, ◌≡◌, refl, List, [], ◌∷◌, ◌++◌, append_assoc, append-nil, ok, arith, ◌∙◌, ap, ==ℤ_refl, ℤ,
}
use ds_project.HoldBack.{
  HoldBackQueue, Delivery, array_compare, arrive, arrive_all, bump, deliver_loop,
  remove_from_holdback_queue,
}
use ds_project.HoldBack.Deliver.{deliver_prefix, deliver_loop-prefix}

deliver_prefix_waits :
    (m : HoldBackQueue) (rest : List HoldBackQueue) (s : Delivery)
    → 0 < array_compare m.dependency s.delivered
    → deliver_prefix (m ∷ rest) s.delivered s.log ≡ ok (record s { queue = m ∷ rest })
deliver_prefix_waits m rest s h = ground arith

arrive_waits :
    (s : Delivery) (m n : HoldBackQueue) (rest : List HoldBackQueue)
    → s.queue ≡ m ∷ rest
    → 0 < array_compare m.dependency s.delivered
    → arrive s n ≡ ok (record s { queue = m ∷ (rest ++ n ∷ []) })
unfolding arrive
arrive_waits s m n rest e h = rw e (
    deliver_loop-prefix (m ∷ (rest ++ n ∷ [])) s.delivered s.log
    ∙ deliver_prefix_waits m (rest ++ n ∷ []) s h)

-- A message that depends on nothing that is missing, at an empty queue.
pub arrive_alone :
    (s : Delivery) (m : HoldBackQueue) (delivered : List ℤ)
    → s.queue ≡ []
    → array_compare m.dependency s.delivered ≡ 0
    → bump s.delivered m.clk_index ≡ ok delivered
    → arrive s m ≡ ok (record { queue = []; delivered = delivered; log = m ∷ s.log })
unfolding arrive deliver_loop remove_from_holdback_queue
arrive_alone s m delivered none_waits free counted =
    rw (none_waits, free, counted, ==ℤ_refl m.clk_index) refl

-- While the message at the head of the queue has to wait, no group message that arrives, and no number
-- of them, is delivered or makes another one be delivered: each is only linked behind, in the order of
-- arrival, also the one that the head waits for. Of datagrams that are no group messages nothing is
-- said here.
pub arrive_all_waits :
    (s : Delivery) (m : HoldBackQueue) (rest ms : List HoldBackQueue)
    → s.queue ≡ m ∷ rest
    → 0 < array_compare m.dependency s.delivered
    → arrive_all s ms ≡ ok (record s { queue = m ∷ (rest ++ ms) })
unfolding arrive_all
arrive_all_waits s m rest [] e h = rw (append-nil rest, ← e) refl
arrive_all_waits s m rest (n ∷ ms) e h = rw (arrive_waits s m n rest e h) (
    arrive_all_waits (record s { queue = m ∷ (rest ++ n ∷ []) }) m (rest ++ n ∷ []) ms refl h
    ∙ ap (λ l. ok (record s { queue = m ∷ l })) (append_assoc rest (n ∷ []) ms))
