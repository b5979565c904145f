-- ===== src/Election/Network/Arrival.antt =====
-- A vote that arrives at the next server.
use mathlib.Core.List.{reverse}
use ds_project.Base.{
  ◌+◌, ◌≡◌, ap, sym, subst, ◌∙◌, inl, inr, true, false, ◌||◌, Bool-cases, List, ◌∷◌, ◌++◌, ℤ, ◌==ℤ◌,
  ==ℤ_iff, ==ℤ_refl, ltb_ℤ, arith, length, length-append, length-reverse, All,
}
use ds_project.Election.Network.{mem, Flight, Net, arrive_at, vote_reply, pass, enter, stop}
use ds_project.Election.Network.Members.{
  one, count, count-append, count-reverse, one_self, All-middle, votes, votes-middle, ltb_trans,
  ltb_refl, or_other, or_left, or_right, ltb_asym, smaller_ne, not_below_eq,
}
use ds_project.Election.Network.Invariant.{
  IsDistinct, IsFlight, Has, Leads, IsNet, own_flight-IsFlight, leads_on,
}

module _ (ring : List ℤ) (distinct : IsDistinct ring) (n : Net) (f : Flight) (q : ℤ) (rest : List ℤ)
    (fs gs : List Flight) (net : IsNet ring n) (e : n.flights ≡ fs ++ f ∷ gs)
    (next_is : f.ahead ≡ q ∷ rest) where
  flying : IsFlight ring f × All (IsFlight ring) (fs ++ gs)
  flying = All-middle (IsFlight ring) fs f gs (subst (All (IsFlight ring)) e net.on_way)

  counted : (x : ℤ) → one f.vote x + count x f.passed + (one q x + count x rest) ≡ count x ring
  unfolding count
  counted x = omega (arith, flying.0.same x, ap (count x) next_is)

  pass-IsNet :
      ltb_ℤ f.vote q ≡ false
      → ltb_ℤ q f.vote ≡ true
      → IsNet ring (arrive_at n f q rest (fs ++ gs) pass)
  unfolding count
  pass-IsNet h k = record {
    on_way = (
      record {
        below = (k, flying.0.below);
        same = λ x. omega (arith, counted x);
        size = omega (arith, flying.0.size, ap length next_is);
      },
      flying.1,
    );
    led = λ p part.
        leads_on n (arrive_at n f q rest (fs ++ gs) pass) f fs gs e (λ r w. inl w)
          (λ r v. inr (or_right (f.vote ==ℤ r) _ v))
          (f.vote, ltb_refl f.vote, inr (or_left (f.vote ==ℤ f.vote) _ (==ℤ_refl f.vote))) p
          (net.led p part);
    greatest = net.greatest;
  }

  -- The greater server that stopped the vote takes part, so it is followed itself.
  overtaken :
      ltb_ℤ f.vote q ≡ true → Leads n q → Leads (arrive_at n f q rest (fs ++ gs) stop) f.vote
  overtaken h (r, above, inl w) = (r, ltb_trans f.vote q r h above, inl w)
  overtaken h (r, above, inr v) = (
    r,
    ltb_trans f.vote q r h above,
    inr (
        or_other (f.vote ==ℤ r) (mem r (votes (fs ++ gs))) (smaller_ne f.vote q r h above)
          (sym (votes-middle r fs f gs) ∙ ap (λ l. mem r (votes l)) (sym e) ∙ v)),
  )

  stop-IsNet :
      ltb_ℤ f.vote q ≡ true
      → mem q n.participants ≡ true
      → IsNet ring (arrive_at n f q rest (fs ++ gs) stop)
  stop-IsNet h part = record {
    on_way = flying.1;
    led = λ p taking.
        leads_on n (arrive_at n f q rest (fs ++ gs) stop) f fs gs e (λ r w. inl w) (λ r v. inr v)
          (overtaken h (net.led q part)) p (net.led p taking);
    greatest = net.greatest;
  }

  entered : Net
  entered = arrive_at n f q rest (fs ++ gs) enter

  own_led : Has entered q
  unfolding entered
  own_led = inr (or_left (q ==ℤ q) _ (==ℤ_refl q))

  enter-led :
      ltb_ℤ f.vote q ≡ true → (p : ℤ) → (q ==ℤ p || mem p n.participants) ≡ true → Leads entered p
  unfolding entered
  enter-led h p part = elim (Bool-cases (q ==ℤ p)) [
    | inl same ↦
        subst (λ x. Leads (arrive_at n f q rest (fs ++ gs) enter) x) ((==ℤ_iff q p).0 same)
          (q, ltb_refl q, own_led)
    | inr other ↦
        leads_on n (arrive_at n f q rest (fs ++ gs) enter) f fs gs e (λ r w. inl w)
          (λ r v. inr (or_right (q ==ℤ r) _ v)) (q, ltb_asym f.vote q h, own_led) p
          (net.led p (or_other (q ==ℤ p) _ other part))
  ]

  enter-IsNet : ltb_ℤ f.vote q ≡ true → IsNet ring entered
  unfolding count entered
  enter-IsNet h = record {
    on_way = (
      own_flight-IsFlight ring (rest ++ f.vote ∷ reverse f.passed) q
          (λ x. omega (
            arith,
            counted x,
            count-append x rest (f.vote ∷ reverse f.passed),
            count-reverse x f.passed,
          ))
          (omega (
            arith,
            flying.0.size,
            ap length next_is,
            length-append rest (f.vote ∷ reverse f.passed),
            length-reverse f.passed,
          )),
      flying.1,
    );
    led = enter-led h;
    greatest = net.greatest;
  }

  not_home : f.vote ≡ q → ⊥
  unfolding count
  not_home same =
      omega (arith, counted f.vote, one_self f.vote, ap (λ a. one a f.vote) same, distinct f.vote)

  pub arrive-IsNet :
      IsNet ring (arrive_at n f q rest (fs ++ gs) (vote_reply q (mem q n.participants) f.vote))
  unfolding vote_reply entered
  arrive-IsNet = elim (Bool-cases (ltb_ℤ q f.vote)) [
    | inl up ↦ rw up (pass-IsNet (ltb_asym q f.vote up) up)
    | inr not_up ↦ elim (Bool-cases (ltb_ℤ f.vote q)) [
      | inr not_down ↦ absurd (not_home (not_below_eq f.vote q not_down not_up))
      | inl down ↦ elim (Bool-cases (mem q n.participants)) [
        | inl part ↦ rw (not_up, down, part) (stop-IsNet down part)
        | inr free ↦ rw (not_up, down, free) (enter-IsNet down)
      ]
    ]
  ]
