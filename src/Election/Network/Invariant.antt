-- ===== src/Election/Network/Invariant.antt =====
-- What holds of the votes on a ring whose servers have different IDs.
use ds_project.Base.{
  ◌+◌, ◌≤◌, ◌≡◌, ap, sym, subst, ◌∙◌, ◌⊎◌, inl, inr, true, false, Bool-cases, List, ◌∷◌, ◌++◌, ℤ,
  ◌==ℤ◌, ==ℤ_iff, ltb_ℤ, arith, length, All,
}
use ds_project.Election.Network.{mem, Flight, Net, own_flight}
use ds_project.Election.Network.Members.{one, count, votes, votes-middle, geb_trans, or_other}

-- No two servers of the ring have one ID.
abbrev pub IsDistinct : List ℤ → Type 0
IsDistinct ring = (x : ℤ) → count x ring ≤ 1

-- A vote has passed smaller servers only, and the servers that it passed and those ahead, with its
-- own, are the ring.
pub record IsFlight (ring : List ℤ) (f : Flight) : Type 0 where
  pub below : All (λ a. ltb_ℤ a f.vote ≡ true) f.passed
  pub same : (x : ℤ) → one f.vote x + count x f.passed + count x f.ahead ≡ count x ring
  pub size : length f.passed + length f.ahead + 1 ≡ length ring

-- A vote that is on its way or has won.
abbrev pub Has : Net → ℤ → Type 0
Has n r = (mem r n.winners ≡ true) ⊎ (mem r (votes n.flights) ≡ true)

-- Such a vote that is not smaller.
abbrev pub Leads : Net → ℤ → Type 0
Leads n p = (r : ℤ) × (ltb_ℤ r p ≡ false) × Has n r

-- A server of the ring with no greater one.
abbrev pub IsGreatest : List ℤ → ℤ → Type 0
IsGreatest ring w = (mem w ring ≡ true) × ((x : ℤ) → mem x ring ≡ true → ltb_ℤ w x ≡ false)

abbrev pub AllLed : Net → Type 0
AllLed n = (p : ℤ) → mem p n.participants ≡ true → Leads n p

abbrev pub AllGreatest : List ℤ → Net → Type 0
AllGreatest ring n = (w : ℤ) → mem w n.winners ≡ true → IsGreatest ring w

pub record IsNet (ring : List ℤ) (n : Net) : Type 0 where
  pub on_way : All (IsFlight ring) n.flights
  pub led : AllLed n
  pub greatest : AllGreatest ring n

pub own_flight-IsFlight :
    (ring others : List ℤ) (p : ℤ)
    → ((x : ℤ) → one p x + count x others ≡ count x ring)
    → length others + 1 ≡ length ring
    → IsFlight ring (own_flight p others)
unfolding count
own_flight-IsFlight ring others p h l = record {
  below = tt;
  same = λ x. omega (arith, h x);
  size = omega (arith, l);
}

module _ (n m : Net) (f : Flight) (fs gs : List Flight) (e : n.flights ≡ fs ++ f ∷ gs) where
  -- A vote that leaves the way is followed by one that is not smaller.
  pub leads_on :
      ((r : ℤ) → mem r n.winners ≡ true → Has m r)
      → ((r : ℤ) → mem r (votes (fs ++ gs)) ≡ true → Has m r)
      → Leads m f.vote
      → (p : ℤ) → Leads n p
      → Leads m p
  leads_on won flying instead p (r, le, inl w) = (r, le, won r w)
  leads_on won flying instead p (r, le, inr v) = elim (Bool-cases (f.vote ==ℤ r)) [
    | inl same ↦
        let (q, above, has) = instead in
        let eq = (==ℤ_iff f.vote r).0 same in
        (q, geb_trans q f.vote p above (subst (λ x. ltb_ℤ x p ≡ false) (sym eq) le), has)
    | inr other ↦ (
      r,
      le,
      flying r (
          or_other (f.vote ==ℤ r) (mem r (votes (fs ++ gs))) other
            (sym (votes-middle r fs f gs) ∙ ap (λ l. mem r (votes l)) (sym e) ∙ v)),
    )
  ]
