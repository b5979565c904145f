-- ===== src/Election/Network/Elects.antt =====
-- Who wins the election.
use ds_project.Base.{
  ◌+◌, ◌≡◌, ap, sym, subst, inl, inr, true, false, Bool-cases, List, [], ◌∷◌, ◌++◌, ℤ, ◌==ℤ◌,
  ==ℤ_iff, ==ℤ_refl, ltb_ℤ, arith, length, length-append, All,
}
use ds_project.Election.Network.{
  mem, Flight, Net, own_flight, arrive_at, vote_reply, win, Step, begin, arrive, come_home, Reach,
  here, next, quiet,
}
use ds_project.Election.Network.Members.{
  one, count, count-append, mem-count, count-mem, one_self, below_of_count, All-middle, votes,
  ltb_refl, or_other, or_left, or_right, ltb_asym, not_below_eq,
}
use ds_project.Election.Network.Arrival.{arrive-IsNet}
use ds_project.Election.Network.Invariant.{
  IsDistinct, IsFlight, Leads, IsGreatest, IsNet, own_flight-IsFlight, leads_on,
}

module _ (ring : List ℤ) (n : Net) (f : Flight) (fs gs : List Flight) (net : IsNet ring n)
    (e : n.flights ≡ fs ++ f ∷ gs) (ends : f.ahead ≡ []) where
  landing : IsFlight ring f × All (IsFlight ring) (fs ++ gs)
  landing = All-middle (IsFlight ring) fs f gs (subst (All (IsFlight ring)) e net.on_way)

  passed_all : (x : ℤ) → one f.vote x + count x f.passed ≡ count x ring
  unfolding count
  passed_all x = omega (arith, landing.0.same x, ap (count x) ends)

  vote-IsGreatest : IsGreatest ring f.vote
  vote-IsGreatest = (
    count-mem f.vote ring (omega (arith, passed_all f.vote, one_self f.vote)),
    λ x member. elim (Bool-cases (f.vote ==ℤ x)) [
      | inl same ↦ subst (λ a. ltb_ℤ f.vote a ≡ false) ((==ℤ_iff f.vote x).0 same) (ltb_refl f.vote)
      | inr other ↦ ltb_asym x f.vote (
          below_of_count f.vote x f.passed landing.0.below
            (ground (arith, passed_all x, mem-count x ring member, other)))
    ],
  )

  home-IsNet :
      IsNet ring
        (arrive_at n f f.vote [] (fs ++ gs) (vote_reply f.vote (mem f.vote n.participants) f.vote))
  unfolding vote_reply
  home-IsNet = rw (ltb_refl f.vote) (record {
    on_way = landing.1;
    led = λ p part.
        leads_on n (arrive_at n f f.vote [] (fs ++ gs) win) f fs gs e
          (λ r w. inl (or_right (f.vote ==ℤ r) _ w)) (λ r v. inr v)
          (f.vote, ltb_refl f.vote, inl (or_left (f.vote ==ℤ f.vote) _ (==ℤ_refl f.vote))) p
          (net.led p part);
    greatest = λ w won. elim (Bool-cases (f.vote ==ℤ w)) [
      | inl same ↦ subst (IsGreatest ring) ((==ℤ_iff f.vote w).0 same) vote-IsGreatest
      | inr other ↦ net.greatest w (or_other (f.vote ==ℤ w) _ other won)
    ];
  })

abbrev begun : Net → ℤ → List ℤ → Net
begun n p others = record n {
  participants = p ∷ n.participants;
  flights = own_flight p others ∷ n.flights;
}

still :
    (n : Net) (p : ℤ) (f : Flight) (q : ℤ)
    → Leads n q
    → Leads (record n { participants = p ∷ n.participants; flights = f ∷ n.flights }) q
still n p f q (r, above, inl w) = (r, above, inl w)
still n p f q (r, above, inr v) = (r, above, inr (or_right (f.vote ==ℤ r) _ v))

begin-IsNet :
    (ring before after : List ℤ) (n : Net) (p : ℤ)
    → IsNet ring n
    → ring ≡ before ++ p ∷ after
    → IsNet ring (record n {
      participants = p ∷ n.participants;
      flights = own_flight p (after ++ before) ∷ n.flights;
    })
unfolding count
begin-IsNet ring before after n p net e = record {
  on_way = (
    own_flight-IsFlight ring (after ++ before) p
        (λ x.
          omega
            (arith, ap (count x) e, count-append x before (p ∷ after), count-append x after before))
        (omega (arith, ap length e, length-append before (p ∷ after), length-append after before)),
    net.on_way,
  );
  led = λ q part. elim (Bool-cases (p ==ℤ q)) [
    | inl same ↦
        subst (Leads (begun n p (after ++ before))) ((==ℤ_iff p q).0 same)
          (p, ltb_refl p, inr (or_left (p ==ℤ p) _ (==ℤ_refl p)))
    | inr other ↦
        still n p (own_flight p (after ++ before)) q (net.led q (or_other (p ==ℤ q) _ other part))
  ];
  greatest = net.greatest;
}

Step-IsNet :
    (ring : List ℤ) (n m : Net) → IsDistinct ring → IsNet ring n → Step ring n m → IsNet ring m
Step-IsNet ring n m distinct net (begin p before after e free same) =
    subst (IsNet ring) (sym same) (begin-IsNet ring before after n p net e)
Step-IsNet ring n m distinct net (arrive f q rest fs gs e next_is same) =
    subst (IsNet ring) (sym same) (arrive-IsNet ring distinct n f q rest fs gs net e next_is)
Step-IsNet ring n m distinct net (come_home f fs gs e ends same) =
    subst (IsNet ring) (sym same) (home-IsNet ring n f fs gs net e ends)

pub Reach-IsNet :
    (ring : List ℤ) (n m : Net) → IsDistinct ring → IsNet ring n → Reach ring n m → IsNet ring m
Reach-IsNet ring n m distinct net here = net
Reach-IsNet ring n m distinct net (next {m = k} run step) =
    Step-IsNet ring k m distinct (Reach-IsNet ring n k distinct net run) step

pub quiet-IsNet : (ring : List ℤ) → IsNet ring quiet
quiet-IsNet ring = record { on_way = tt; led = λ p part. cc; greatest = λ w won. cc }

-- On a ring of servers with different IDs, whoever begins when and in whatever order the votes arrive:
-- a server that has won has the greatest ID of the ring, and no other has won.
pub winner-IsGreatest :
    (ring : List ℤ) (n : Net) (w v : ℤ)
    → IsDistinct ring
    → Reach ring quiet n
    → mem w n.winners ≡ true
    → mem v n.winners ≡ true
    → IsGreatest ring w × (w ≡ v)
winner-IsGreatest ring n w v distinct run won won' =
    let net = Reach-IsNet ring quiet n distinct (quiet-IsNet ring) run in
    let great = net.greatest w won in
    let great' = net.greatest v won' in
    (great, not_below_eq w v (great.1 v great'.0) (great'.1 w great.0))

-- On a ring of servers with different IDs, once no vote is on its way, if any server has begun or
-- joined in, a server has won, and it has the greatest ID of the ring, also if that server did not
-- begin.
pub quiet_again-won :
    (ring : List ℤ) (n : Net) (p : ℤ)
    → IsDistinct ring
    → Reach ring quiet n
    → n.flights ≡ []
    → mem p n.participants ≡ true
    → (w : ℤ) × (mem w n.winners ≡ true) × IsGreatest ring w
quiet_again-won ring n p distinct run none_left part =
    let net = Reach-IsNet ring quiet n distinct (quiet-IsNet ring) run in won net (net.led p part)
  where
    won : IsNet ring n → Leads n p → (w : ℤ) × (mem w n.winners ≡ true) × IsGreatest ring w
    won net (w, above, inl h) = (w, h, net.greatest w h)
    won net (w, above, inr h) = absurd (cc (ap (λ l. mem w (votes l)) none_left))
