-- ===== src/Election/Network/Members.antt =====
-- Servers in lists, and votes among those on their way.
use mathlib.Core.List.{reverse, reverse-cons}
use ds_project.Base.{
  ℕ, ◌+◌, ◌≤◌, ◌≡◌, refl, ap, ◌∙◌, inl, inr, Bool, true, false, ◌||◌, Bool-cases, List, [], ◌∷◌,
  ◌++◌, ℤ, ◌==ℤ◌, ==ℤ_iff, ==ℤ_refl, ltb_ℤ, if◌then◌else◌, arith, All, subst,
}
use ds_project.Election.Network.{mem, Flight}

-- How often a server stands in a list.
abbrev pub one : ℤ → ℤ → ℕ
one y x = if y ==ℤ x then 1 else 0

unfoldable pub count : ℤ → List ℤ → ℕ
count x [] = 0
count x (y ∷ l) = one y x + count x l

pub count-append : (x : ℤ) (l k : List ℤ) → count x (l ++ k) ≡ count x l + count x k
unfolding count
count-append x [] k = omega arith
count-append x (y ∷ l) k = omega (arith, count-append x l k)

pub count-reverse : (x : ℤ) (l : List ℤ) → count x (reverse l) ≡ count x l
unfolding count
count-reverse x [] = refl
count-reverse x (y ∷ l) =
    ap (count x) (reverse-cons y l)
    ∙ omega (arith, count-append x (reverse l) (y ∷ []), count-reverse x l)

pub mem-count : (x : ℤ) (l : List ℤ) → mem x l ≡ true → 1 ≤ count x l
unfolding count
mem-count x [] h = cc
mem-count x (y ∷ l) h = ground (arith, mem-count x l)

pub count-mem : (x : ℤ) (l : List ℤ) → 1 ≤ count x l → mem x l ≡ true
unfolding count
count-mem x [] h = absurd (omega arith)
count-mem x (y ∷ l) h = ground (arith, count-mem x l)

pub one_self : (x : ℤ) → one x x ≡ 1
one_self x = rw (==ℤ_refl x) refl

pub one_eq : (y x : ℤ) → 1 ≤ one y x → y ≡ x
one_eq y x h = ground (arith, ==ℤ_iff y x)

-- A member of a list below a vote.
pub below_of_count :
    (v x : ℤ) (l : List ℤ) → All (λ a. ltb_ℤ a v ≡ true) l → 1 ≤ count x l → ltb_ℤ x v ≡ true
unfolding count
below_of_count v x [] h c = absurd (omega arith)
below_of_count v x (y ∷ l) h c = elim (Bool-cases (y ==ℤ x)) [
  | inl e ↦ subst (λ a. ltb_ℤ a v ≡ true) ((==ℤ_iff y x).0 e) h.0
  | inr e ↦ below_of_count v x l h.1 (ground (arith, e))
]

module _ {ℓ κ} {A : Type ℓ} (P : A → Type κ) where
  pub All-middle :
      (fs : List A) (f : A) (gs : List A) → All P (fs ++ f ∷ gs) → P f × All P (fs ++ gs)
  All-middle [] f gs h = h
  All-middle (a ∷ fs) f gs h = let (p, rest) = All-middle fs f gs h.1 in (p, (h.0, rest))

-- The votes that are on their way.
abbrev pub votes : List Flight → List ℤ
votes [] = []
votes (f ∷ l) = f.vote ∷ votes l

pub votes-middle :
    (x : ℤ) (fs : List Flight) (f : Flight) (gs : List Flight)
    → mem x (votes (fs ++ f ∷ gs)) ≡ (f.vote ==ℤ x || mem x (votes (fs ++ gs)))
votes-middle x [] f gs = refl
votes-middle x (a ∷ fs) f gs = ground (arith, votes-middle x fs f gs)

-- The order that the tests on IDs decide.
pub ltb_trans : (a b c : ℤ) → ltb_ℤ a b ≡ true → ltb_ℤ c b ≡ false → ltb_ℤ c a ≡ false
ltb_trans a b c h k = ground arith

pub ltb_refl : (a : ℤ) → ltb_ℤ a a ≡ false
ltb_refl a = ground arith

pub not_below_eq : (a b : ℤ) → ltb_ℤ a b ≡ false → ltb_ℤ b a ≡ false → a ≡ b
not_below_eq a b h k = ground arith

pub geb_trans : (a b c : ℤ) → ltb_ℤ a b ≡ false → ltb_ℤ b c ≡ false → ltb_ℤ a c ≡ false
geb_trans a b c h k = ground arith

pub or_other : (a b : Bool) → a ≡ false → (a || b) ≡ true → b ≡ true
or_other a b h k = ground arith

pub or_left : (a b : Bool) → a ≡ true → (a || b) ≡ true
or_left a b h = ground arith

pub or_right : (a b : Bool) → b ≡ true → (a || b) ≡ true
or_right a b h = ground arith

pub ltb_asym : (a b : ℤ) → ltb_ℤ a b ≡ true → ltb_ℤ b a ≡ false
ltb_asym a b h = ground arith

pub smaller_ne : (v q r : ℤ) → ltb_ℤ v q ≡ true → ltb_ℤ r q ≡ false → (v ==ℤ r) ≡ false
smaller_ne v q r h k = ground arith
