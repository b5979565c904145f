-- ===== src/Disconnection/Fuel.antt =====
-- The fuel of the loop over the peers is enough.
use ds_project.Base.{
  ◌≡◌, ◌≤◌, ◌∙◌, refl, ap, inl, inr, Bool-cases, Option-cases, ℕ, zero, suc, ◌+◌, ◌-◌, List, [],
  ◌∷◌, none, Result, ok, err, ltb, ◌==◌, if◌then◌else◌, get_elem?, length, arith,
}
use ds_project.Peers.{ServerInfo}
use ds_project.Server.{Env, Server, M, ◌>>=◌, return, get_state, lift}
use ds_project.Disconnection.{relocate, ring_status, heartbeat_loop, check_heartbeat_timeout}
use ds_project.Disconnection.Bounded.{AtMost, ring_status_bound}

get_elem?-none : (l : List ServerInfo) (k : ℕ) → length l ≤ k → get_elem? l k ≡ none
get_elem?-none [] k h = refl
get_elem?-none (p ∷ rest) zero h = absurd (omega arith)
get_elem?-none (p ∷ rest) (suc k) h = get_elem?-none rest k (omega arith)

same_behind :
    {A B : Type 0} (n : ℕ) (f g : A → M B) (r : Result (A × Server))
    → AtMost n r
    → ((a : A) (t : Server) → length t.connected_peers ≤ n → f a t ≡ g a t)
    → elim r [ ok q ↦ f q.0 q.1 | err e ↦ err e ] ≡ elim r [ ok q ↦ g q.0 q.1 | err e ↦ err e ]
same_behind n f g (ok q) h same = same q.0 q.1 h
same_behind n f g (err e) h same = refl

same_relocated :
    (freed current : ℕ) (f g : ℕ → M (Unit {0})) (t : Server)
    → ((at : ℕ) → current ≤ at → f at t ≡ g at t)
    → (lift (relocate freed (suc current)) >>= f) t ≡ (lift (relocate freed (suc current)) >>= g) t
same_relocated freed current f g t same = elim (Bool-cases (suc current == freed)) [
  | inl e ↦ rw (relocate, e) refl
  | inr e ↦ elim (Bool-cases (ltb (suc current) freed)) [
    | inl lt ↦ rw (relocate, e, lt) (same (suc current) (omega arith))
    | inr lt ↦ rw (relocate, e, lt) (same (suc current - 1) (omega arith))
  ]
]

-- What the loop does once a peer is cut out.
abbrev after : ℕ → (ℕ → M (Unit {0})) → ℕ → M (Unit {0})
after current loop freed = get_state >>= λ t.
    if length t.connected_peers == current
    then return tt
    else (lift (relocate freed (suc current)) >>= loop)

same_after :
    (current : ℕ) (f g : ℕ → M (Unit {0})) (freed : ℕ) (t : Server)
    → ((at : ℕ) → current ≤ at → f at t ≡ g at t)
    → after current f freed t ≡ after current g freed t
same_after current f g freed t same = elim (Bool-cases (length t.connected_peers == current)) [
  | inl e ↦ rw e refl
  | inr e ↦ rw e (same_relocated freed current f g t same)
]

module _ (env : Env) (now timeout : ℕ) where
  enough :
      (fuel current : ℕ) (s : Server)
      → length s.connected_peers ≤ current + fuel
      → heartbeat_loop env fuel now timeout current s
        ≡ heartbeat_loop env (suc fuel) now timeout current s
  unfolding heartbeat_loop
  enough zero current s h =
      rw (heartbeat_loop, get_elem?-none s.connected_peers current (omega (arith, h))) refl
  enough (suc fuel) current s h = elim (Option-cases (get_elem? s.connected_peers current)) [
    | inl e ↦ rw (heartbeat_loop, e) refl
    | inr (node, e) ↦ elim (Bool-cases (ltb now (node.last_heartbeat + timeout))) [
      | inl young ↦ rw (heartbeat_loop, e, young) (enough fuel (suc current) s (omega (arith, h)))
      | inr late ↦
          rw (heartbeat_loop, e, late)
            (same_behind (current + fuel) (after current (heartbeat_loop env fuel now timeout))
              (after current (heartbeat_loop env (suc fuel) now timeout))
              (ring_status env node.tcp_socket s)
              (ring_status_bound env (current + fuel) node.tcp_socket s (omega (arith, h)))
              (λ freed t small.
                same_after current _ _ freed t
                  (λ at le. enough fuel at t (omega (arith, le, small)))))
    ]
  ]

  enough_more :
      (more fuel current : ℕ) (s : Server)
      → length s.connected_peers ≤ current + fuel
      → heartbeat_loop env fuel now timeout current s
        ≡ heartbeat_loop env (more + fuel) now timeout current s
  enough_more zero fuel current s h =
      ap (λ f. heartbeat_loop env f now timeout current s)
        (let same : fuel ≡ 0 + fuel = omega arith in same)
  enough_more (suc more) fuel current s h =
      enough_more more fuel current s h
      ∙ enough (more + fuel) current s (omega (arith, h))
      ∙ ap (λ f. heartbeat_loop env f now timeout current s)
          (let same : suc (more + fuel) ≡ suc more + fuel = omega arith in same)

-- The loop of `check_heartbeat_timeout` ends: it is run on as much fuel as there are nodes, and
-- with any more it would give the same, at every state. Each round passes a peer or cuts one out of the
-- list.
pub check_heartbeat_timeout-more :
    (env : Env) (timeout more : ℕ) (s : Server)
    → check_heartbeat_timeout env timeout s
      ≡ heartbeat_loop env (more + length s.connected_peers) (env.time s.trace) timeout 1 s
unfolding check_heartbeat_timeout
check_heartbeat_timeout-more env timeout more s =
    enough_more (env) (env.time s.trace) timeout more (length s.connected_peers) 1 s (omega arith)
