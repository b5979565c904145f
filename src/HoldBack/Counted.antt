-- ===== src/HoldBack/Counted.antt =====
-- What the delivery loop keeps, whatever the messages hold, as long as it ends.
use native.Mathlib.Decide.{ℕ_discrete}
use ds_project.Base.{
  ℕ, suc, ◌<◌, ◌≡◌, refl, inl, inr, List, [], ◌∷◌, some, none, ok, Option, ◌∙◌, sym, ap, ℤ, pos,
  negsuc, ltb, arith, Bool-cases, length, length-set, get_elem?, get_elem?-set_self,
  get_elem?-set_ne, get_elem?-some, set, >>=-eq-ok, IfOk, IfOk->>=,
}
use ds_project.HoldBack.{
  HoldBackQueue, Delivery, max_group_size, array_compare, bump, increment, in_range, deliver_loop,
}
use ds_project.HoldBack.Deliver.{AtMost-array_compare, deliver_prefix, deliver_loop-prefix}
use ds_project.HoldBack.Causal.{tally, Counts, IsCausal, AtMost-causal}

-- DELIVERED has its ten entries, counts the messages that were delivered of each member, and each of
-- them came after all that it depends on.
pub record IsCounted (delivered : List ℤ) (log : List HoldBackQueue) : Type 0 where
  pub ten : length delivered ≡ max_group_size
  pub counts : Counts delivered log
  pub causal : IsCausal log

-- A counter that was incremented.
bump_ok :
    (delivered after : List ℤ) (i : ℤ)
    → bump delivered i ≡ ok after
    → (k : ℕ) × (old new : ℤ) × (i ≡ pos k)
      × (get_elem? delivered k ≡ some old)
      × (increment old ≡ ok new)
      × (after ≡ set delivered k new)
unfolding bump
bump_ok delivered after (negsuc n) h = cc
bump_ok delivered after (pos k) h =
    let (old, found, h') = >>=-eq-ok (in_range (get_elem? delivered k)) _ h in
    let (new, added, h'') = >>=-eq-ok (increment old) _ h' in
    (k, old, new, refl, in_range_ok (get_elem? delivered k) old found, added, ground (arith, h''))
  where
    in_range_ok : (o : Option ℤ) (a : ℤ) → in_range o ≡ ok a → o ≡ some a
    in_range_ok none a e = cc
    in_range_ok (some b) a e = ground (arith, e)

increment_pos : (n : ℕ) (new : ℤ) → increment (pos n) ≡ ok new → new ≡ pos (suc n)
increment_pos n new h = ground arith

bump-IsCounted :
    (m : HoldBackQueue) (delivered after : List ℤ) (log : List HoldBackQueue)
    → IsCounted delivered log
    → array_compare m.dependency delivered ≡ 0
    → bump delivered m.clk_index ≡ ok after
    → IsCounted after (m ∷ log)
bump-IsCounted m delivered after log h free bumped =
    let (k, old, new, at, found, added, e) = bump_ok delivered after m.clk_index bumped in
    let lt : k < max_group_size = omega (arith, h.ten, get_elem?-some delivered k found) in
    let same : old ≡ pos (tally k log) = ground (arith, found, h.counts k lt) in
    let next : new ≡ pos (suc (tally k log)) =
      increment_pos (tally k log) new (ap increment (sym same) ∙ added) in
    record {
      ten = ap length e ∙ length-set delivered k new ∙ h.ten;
      counts = λ j below. elim (ℕ_discrete k j) [
        | yes eq ↦
            ground (
              arith,
              e,
              next,
              get_elem?-set_self delivered k new (get_elem?-some delivered k found),
            )
        | no ne ↦ ground (arith, e, get_elem?-set_ne delivered k j new ne, h.counts j below)
      ];
      causal = (
        AtMost-causal m delivered log h.counts (AtMost-array_compare m.dependency delivered free),
        h.causal,
      );
    }

abbrev pub CountedEnd : Delivery → Type 0
CountedEnd t = IsCounted t.delivered t.log

deliver_prefix-IsCounted :
    (queue : List HoldBackQueue) (delivered : List ℤ) (log : List HoldBackQueue)
    → IsCounted delivered log
    → IfOk CountedEnd (deliver_prefix queue delivered log)
deliver_prefix-IsCounted [] delivered log h = h
deliver_prefix-IsCounted (m ∷ rest) delivered log h =
    elim (Bool-cases (ltb 0 (array_compare m.dependency delivered))) [
      | inl waits ↦ rw waits h
      | inr free ↦ rw free (
          IfOk->>= CountedEnd (bump delivered m.clk_index) (λ d. deliver_prefix rest d (m ∷ log))
            λ after e.
              deliver_prefix-IsCounted rest after (m ∷ log)
                (bump-IsCounted m delivered after log h (ground (arith, free)) e))
    ]

-- The loop, at the head of any queue.
pub deliver_loop-IsCounted :
    (s : Delivery) → IsCounted s.delivered s.log → IfOk CountedEnd (deliver_loop s.queue s)
deliver_loop-IsCounted s h =
    rw (deliver_loop-prefix s.queue s.delivered s.log)
      (deliver_prefix-IsCounted s.queue s.delivered s.log h)
