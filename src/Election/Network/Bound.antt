-- ===== src/Election/Network/Bound.antt =====
-- How many steps an election takes.
use mathlib.Core.List.{reverse}
use ds_project.Base.{
  ℕ, suc, ◌+◌, ◌*◌, ◌≤◌, ◌<◌, ◌≡◌, refl, ap, sym, subst, true, false, Bool-cases, inl, inr, ◌⊎◌,
  List, [], ◌∷◌, ◌++◌, ℤ, ◌==ℤ◌, ==ℤ_iff, ltb_ℤ, if◌then◌else◌, arith, length, length-append,
  length-reverse, All,
}
use ds_project.Election.Network.{
  mem, Flight, Net, arrive_at, vote_reply, Step, begin, arrive, come_home, Reach, here, next, quiet,
}
use ds_project.Election.Network.Members.{
  count, count-append, count-mem, ltb_refl, one_self, All-middle,
}
use ds_project.Election.Network.Invariant.{IsDistinct, IsFlight, IsNet}
use ds_project.Election.Network.Elects.{Reach-IsNet, quiet-IsNet}

-- `k` for each server that does not take part yet, and for each vote the servers ahead and its return.
unfoldable pub free : ℕ → List ℤ → List ℤ → ℕ
free k [] parts = 0
free k (x ∷ ring) parts = (if mem x parts then 0 else k) + free k ring parts

unfoldable pub weight : List Flight → ℕ
weight [] = 0
weight (f ∷ l) = 1 + length f.ahead + weight l

measure : List ℤ → Net → ℕ
measure ring n = free (suc (length ring)) ring n.participants + weight n.flights

-- The steps of a run.
pub steps : {ring : List ℤ} {n m : Net} → Reach ring n m → ℕ
steps here = 0
steps (next run step) = suc (steps run)

free_le : (p : ℤ) (m : ℕ) (ring parts : List ℤ) → free m ring (p ∷ parts) ≤ free m ring parts
unfolding free
free_le p m [] parts = omega arith
free_le p m (x ∷ ring) parts = ground (arith, free_le p m ring parts)

free_less :
    (p : ℤ) (m : ℕ) (ring parts : List ℤ)
    → mem p ring ≡ true
    → mem p parts ≡ false
    → free m ring (p ∷ parts) + m ≤ free m ring parts
unfolding free
free_less p m [] parts member new = cc
free_less p m (x ∷ ring) parts member new = elim (Bool-cases (x ==ℤ p)) [
  | inl same ↦
      let eq = (==ℤ_iff x p).0 same in
      let here_new : mem x parts ≡ false = subst (λ a. mem a parts ≡ false) (sym eq) new in
      let now : (p ==ℤ x) ≡ true = (==ℤ_iff p x).1 (sym eq) in
      rw (here_new, now) (omega (arith, free_le p m ring parts))
  | inr other ↦ ground (arith, other, free_less p m ring parts, member, new)
]

weight-middle :
    (fs : List Flight) (f : Flight) (gs : List Flight)
    → weight (fs ++ f ∷ gs) ≡ 1 + length f.ahead + weight (fs ++ gs)
unfolding weight
weight-middle [] f gs = refl
weight-middle (a ∷ fs) f gs = omega (arith, weight-middle fs f gs)

module _ (ring : List ℤ) (n : Net) (f : Flight) (q : ℤ) (rest : List ℤ) (fs gs : List Flight)
    (net : IsNet ring n) (e : n.flights ≡ fs ++ f ∷ gs) (next_is : f.ahead ≡ q ∷ rest) where
  flight : IsFlight ring f
  flight = (All-middle (IsFlight ring) fs f gs (subst (All (IsFlight ring)) e net.on_way)).0

  -- The vote's weight, in the weight of all.
  weighed : weight n.flights ≡ 2 + length rest + weight (fs ++ gs)
  weighed = omega (arith, ap weight e, weight-middle fs f gs, ap length next_is)

  ahead_member : mem q ring ≡ true
  unfolding count
  ahead_member = count-mem q ring (omega (arith, flight.same q, ap (count q) next_is, one_self q))

  arrive-measure :
      measure ring (arrive_at n f q rest (fs ++ gs) (vote_reply q (mem q n.participants) f.vote))
      < measure ring n
  unfolding measure weight vote_reply
  arrive-measure = elim (Bool-cases (ltb_ℤ q f.vote)) [
    | inl up ↦ rw up (omega (arith, weighed))
    | inr not_up ↦ elim (Bool-cases (ltb_ℤ f.vote q)) [
      | inr not_down ↦ rw (not_up, not_down) (omega (arith, weighed))
      | inl down ↦ elim (Bool-cases (mem q n.participants)) [
        | inl part ↦ rw (not_up, down, part) (omega (arith, weighed))
        | inr new ↦
            rw (not_up, down, new)
              (omega (
                arith,
                weighed,
                free_less q (suc (length ring)) ring n.participants ahead_member new,
                flight.size,
                ap length next_is,
                length-append rest (f.vote ∷ reverse f.passed),
                length-reverse f.passed,
              ))
      ]
    ]
  ]

Step-measure :
    (ring : List ℤ) (n m : Net) → IsNet ring n → Step ring n m → measure ring m < measure ring n
unfolding measure weight vote_reply count
Step-measure ring n m net (begin p before after e new same) = rw same (
    omega (
      arith,
      free_less p (suc (length ring)) ring n.participants
          (count-mem p ring
            (omega (arith, ap (count p) e, count-append p before (p ∷ after), one_self p)))
          new,
      ap length e,
      length-append before (p ∷ after),
      length-append after before,
    ))
Step-measure ring n m net (arrive f q rest fs gs e next_is same) =
    rw same (arrive-measure ring n f q rest fs gs net e next_is)
Step-measure ring n m net (come_home f fs gs e ends same) =
    rw (same, ltb_refl f.vote) (omega (arith, ap weight e, weight-middle fs f gs, ap length ends))

Reach-measure :
    (ring : List ℤ) (n m : Net)
    → IsDistinct ring
    → IsNet ring n
    → (run : Reach ring n m) → steps run + measure ring m ≤ measure ring n
unfolding steps
Reach-measure ring n m distinct net here = omega arith
Reach-measure ring n m distinct net (next {m = k} run step) = omega (
  arith,
  Reach-measure ring n k distinct net run,
  Step-measure ring k m (Reach-IsNet ring n k distinct net run) step,
)

free-nobody : (k : ℕ) (ring : List ℤ) → free k ring [] ≡ length ring * k
unfolding free
free-nobody k [] = omega arith
free-nobody k (x ∷ ring) = grind (arith, free-nobody k ring)

-- The vote of the list that comes first can go on.
goes_on :
    (ring : List ℤ) (n : Net) (l : List Flight)
    → n.flights ≡ l
    → (n.flights ≡ []) ⊎ ((m : Net) × Step ring n m)
goes_on ring n [] e = inl e
goes_on ring n (f ∷ l) e = by_ahead f.ahead refl
  where
    by_ahead : (a : List ℤ) → f.ahead ≡ a → (n.flights ≡ []) ⊎ ((m : Net) × Step ring n m)
    by_ahead [] ends = inr (_, come_home f [] l e ends refl)
    by_ahead (q ∷ rest) next_is = inr (_, arrive f q rest [] l e next_is refl)

-- On a ring of `n` servers with different IDs, an election takes at most `n (n + 1)` steps, whoever
-- begins when and in whatever order the votes arrive, and it goes on as long as a vote is on its way.
pub steps-le :
    (ring : List ℤ) (n : Net) (run : Reach ring quiet n)
    → IsDistinct ring
    → (steps run ≤ length ring * (length ring + 1))
      × ((n.flights ≡ []) ⊎ ((m : Net) × Step ring n m))
unfolding measure weight
steps-le ring n run distinct = (
  omega (
    arith,
    Reach-measure ring quiet n distinct (quiet-IsNet ring) run,
    free-nobody (suc (length ring)) ring,
  ),
  goes_on ring n n.flights refl,
)
