-- ===== src/HoldBack/Causal.antt =====
-- What a client has delivered, seen from the messages that arrived.
use mathlib.Core.List.{reverse}
use native.Mathlib.Decide.{ℕ_discrete}
use ds_project.Base.{
  reverse-append, ℕ, zero, suc, ◌+◌, ◌≤◌, ◌<◌, ◌≡◌, refl, inl, inr, List, [], ◌∷◌, ◌++◌,
  append_assoc, append-nil, some, ok, ◌∙◌, sym, ap, subst, ℤ, pos, ◌≤ℤ◌, ◌==ℤ◌, ltb, int_max,
  if◌then◌else◌, arith, Bool-cases, length, get_elem?, get_elem?-set_self, get_elem?-set_ne,
  get_elem?-replicate, get_elem?-some, set, All, All-append, length-append, length-reverse,
}
use ds_project.HoldBack.{
  HoldBackQueue, Delivery, max_group_size, array_compare, bump, arrive, arrive_all,
  nothing_delivered,
}
use ds_project.HoldBack.Deliver.{AtMost, AtMost-array_compare, deliver_prefix, deliver_loop-prefix}

-- How many of the messages came from the member with clock index `k`.
abbrev pub tally : ℕ → List HoldBackQueue → ℕ
tally k [] = 0
tally k (m ∷ rest) = if m.clk_index ==ℤ pos k then suc (tally k rest) else tally k rest

-- DELIVERED holds the tallies of the log.
abbrev pub Counts : List ℤ → List HoldBackQueue → Type 0
Counts delivered log =
    (k : ℕ) → k < max_group_size → get_elem? delivered k ≡ some (pos (tally k log))

-- Every message was delivered after as many messages of each member as it depends on; the log is
-- newest first.
abbrev pub IsCausal : List HoldBackQueue → Type 0
IsCausal [] = Unit {0}
IsCausal (m ∷ older) =
    ((k : ℕ)
      → (d : ℤ) → k < max_group_size
      → get_elem? m.dependency k ≡ some d
      → d ≤ℤ pos (tally k older))
    × IsCausal older

-- A message of a member that has a place in the arrays.
abbrev pub FromMember : HoldBackQueue → Type 0
FromMember m = (k : ℕ) × (m.clk_index ≡ pos k) × (k < max_group_size)

tally_le : (k : ℕ) (log : List HoldBackQueue) → tally k log ≤ length log
tally_le k [] = omega arith
tally_le k (m ∷ rest) = ground (arith, tally_le k rest)

AtMost-get_elem? :
    (arr1 arr2 : List ℤ) (k : ℕ) (a b : ℤ)
    → AtMost arr1 arr2
    → get_elem? arr1 k ≡ some a
    → get_elem? arr2 k ≡ some b
    → a ≤ℤ b
AtMost-get_elem? [] arr2 k a b h e f = cc
AtMost-get_elem? (x ∷ arr1) [] k a b h e f = cc
AtMost-get_elem? (x ∷ arr1) (y ∷ arr2) zero a b h e f = ground (arith, h.0)
AtMost-get_elem? (x ∷ arr1) (y ∷ arr2) (suc k) a b h e f = AtMost-get_elem? arr1 arr2 k a b h.1 e f

-- With room below the greatest `int`, the increment of the sender's entry succeeds, and the array
-- counts the longer log.
bump-Counts :
    (m : HoldBackQueue) (delivered : List ℤ) (log : List HoldBackQueue)
    → FromMember m
    → length log < int_max
    → Counts delivered log
    → (after : List ℤ) × (bump delivered m.clk_index ≡ ok after) × Counts after (m ∷ log)
unfolding bump
bump-Counts m delivered log (k, e, lt) room counts = (
  set delivered k (pos (suc (tally k log))),
  rw (e, counts k lt) (ground (arith, tally_le k log)),
  λ j below. elim (ℕ_discrete k j) [
    | yes same ↦ ground (
      arith,
      get_elem?-set_self delivered k (pos (suc (tally k log)))
          (get_elem?-some delivered k (counts k lt)),
    )
    | no other ↦
        ground
          (arith, get_elem?-set_ne delivered k j (pos (suc (tally k log))) other, counts j below)
  ],
)

-- What holds between rounds of the loop: `arrived` are all messages so far, in order of arrival.
pub record IsSound (arrived : List HoldBackQueue) (s : Delivery) : Type 0 where
  pub counts : Counts s.delivered s.log
  pub causal : IsCausal s.log
  pub order : reverse s.log ++ s.queue ≡ arrived
  pub members : All FromMember s.queue
  pub room : length s.log + length s.queue ≤ int_max

pub AtMost-causal :
    (m : HoldBackQueue) (delivered : List ℤ) (log : List HoldBackQueue)
    → Counts delivered log
    → AtMost m.dependency delivered
    → (k : ℕ) → (d : ℤ) → k < max_group_size
    → get_elem? m.dependency k ≡ some d
    → d ≤ℤ pos (tally k log)
AtMost-causal m delivered log counts h k d lt e =
    AtMost-get_elem? m.dependency delivered k d (pos (tally k log)) h e (counts k lt)

deliver_prefix-IsSound :
    (arrived queue : List HoldBackQueue) (delivered : List ℤ) (log : List HoldBackQueue)
    → IsSound arrived (record { queue = queue; delivered = delivered; log = log })
    → (s : Delivery) × (deliver_prefix queue delivered log ≡ ok s) × IsSound arrived s
deliver_prefix-IsSound arrived [] delivered log h = (_, refl, h)
deliver_prefix-IsSound arrived (m ∷ rest) delivered log h =
    elim (Bool-cases (ltb 0 (array_compare m.dependency delivered))) [
      | inl waits ↦
          (record { queue = m ∷ rest; delivered = delivered; log = log }, rw waits refl, h)
      | inr free ↦
          let (after, bumped, counted) =
            bump-Counts m delivered log h.members.0 (omega (arith, h.room)) h.counts in
          let (s, ran, sound) = deliver_prefix-IsSound arrived rest after (m ∷ log) (record {
            counts = counted;
            causal = (
              AtMost-causal m delivered log h.counts
                  (AtMost-array_compare m.dependency delivered (ground (arith, free))),
              h.causal,
            );
            order = reverse-append m log rest ∙ h.order;
            members = h.members.1;
            room = omega (arith, h.room);
          }) in
          (s, rw (free, bumped) ran, sound)
    ]

arrive-IsSound :
    (arrived : List HoldBackQueue) (s : Delivery) (m : HoldBackQueue)
    → IsSound arrived s
    → FromMember m
    → length s.log + length s.queue < int_max
    → (t : Delivery) × (arrive s m ≡ ok t) × IsSound (arrived ++ m ∷ []) t
unfolding arrive
arrive-IsSound arrived s m h member room =
    let (t, ran, sound) =
      deliver_prefix-IsSound (arrived ++ m ∷ []) (s.queue ++ m ∷ []) s.delivered s.log (record {
        counts = h.counts;
        causal = h.causal;
        order = sym (append_assoc (reverse s.log) s.queue (m ∷ [])) ∙ ap (λ l. l ++ m ∷ []) h.order;
        members = All-append FromMember s.queue (m ∷ []) h.members (member, tt);
        room = omega (arith, length-append s.queue (m ∷ []));
      }) in
    (t, deliver_loop-prefix (s.queue ++ m ∷ []) s.delivered s.log ∙ ran, sound)

IsSound-size :
    (arrived : List HoldBackQueue) (s : Delivery)
    → IsSound arrived s
    → length s.log + length s.queue ≡ length arrived
IsSound-size arrived s h =
    omega (arith, ap length h.order, length-append (reverse s.log) s.queue, length-reverse s.log)

arrive_all-IsSound :
    (arrived : List HoldBackQueue) (s : Delivery) (ms : List HoldBackQueue)
    → IsSound arrived s
    → All FromMember ms
    → length arrived + length ms ≤ int_max
    → (t : Delivery) × (arrive_all s ms ≡ ok t) × IsSound (arrived ++ ms) t
unfolding arrive_all
arrive_all-IsSound arrived s [] h a room = (s, refl, rw append-nil h)
arrive_all-IsSound arrived s (m ∷ ms) h a room =
    let size = IsSound-size arrived s h in
    let (t, ran, sound) = arrive-IsSound arrived s m h a.0 (omega (arith, size)) in
    let (u, went, end) =
      arrive_all-IsSound (arrived ++ m ∷ []) t ms sound a.1
        (omega (arith, length-append arrived (m ∷ []))) in
    (u, rw ran went, subst (λ l. IsSound l u) (append_assoc arrived (m ∷ []) ms) end)

-- Messages of members, no more of them than an `int` counts, are all taken in with no fault. At the
-- end every delivered message came after as many messages of each member as it depends on, DELIVERED
-- counts what was delivered of each member, and the delivered messages followed by those that wait
-- are exactly the arrivals in the order of arrival: none is lost, doubled or reordered.
pub arrive_all-IsCausal :
    (ms : List HoldBackQueue)
    → All FromMember ms
    → length ms ≤ int_max
    → (s : Delivery) × (arrive_all nothing_delivered ms ≡ ok s)
      × IsCausal s.log
      × Counts s.delivered s.log
      × (reverse s.log ++ s.queue ≡ ms)
arrive_all-IsCausal ms a room =
    let (s, ran, sound) =
      arrive_all-IsSound [] nothing_delivered ms
        (record {
          counts = λ k lt. get_elem?-replicate max_group_size k (pos 0) lt;
          causal = tt;
          order = refl;
          members = tt;
          room = omega arith;
        })
        a (omega (arith, room)) in
    (s, ran, sound.causal, sound.counts, sound.order)
