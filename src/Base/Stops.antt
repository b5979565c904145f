-- ===== src/Base/Stops.antt =====
-- How a run of the program ends: with a value, or stopped by a fault or by `exit`.
use Prim.Native.Nat.{ℕ}
use mathlib.Core.Path.{◌≡◌, refl, subst}
use mathlib.Core.Option.{Option, none, some}
use mathlib.Core.Bool.{Bool, true, false}
use ds_project.Base.Tests.{if◌then◌else◌}

-- The faults are what C leaves undefined: a read through NULL, a use of a freed node, an index
-- outside of an array, a signed overflow.
pub data Stop : Type 0 where
  null_pointer freed_node out_of_range int_overflow : Stop
  exited : ℕ → Stop

pub data Result {ℓ} (A : Type ℓ) : Type ℓ where
  err : Stop → Result A
  ok : A → Result A

-- A pointer that is followed: NULL stops the run.
abbrev pub deref {ℓ} : {A : Type ℓ} → Option A → Result A
deref (some a) = ok a
deref none = err null_pointer

module _ {ℓ κ} {A : Type ℓ} {B : Type κ} where
  infixl 5 ◌>>◌ ◌>>=◌
  abbrev pub ◌>>=◌ : (run : Result A) (next : A → Result B) → Result B
  err stop >>= next = err stop
  ok a >>= next = next a

  abbrev pub ◌>>◌ : (run : Result A) (after : Result B) → Result B
  run >> after = run >>= λ _. after

  -- A run in two parts that ends with a value has both parts end with one.
  pub >>=-eq-ok :
      (run : Result A) (next : A → Result B) {b : B}
      → (run >>= next) ≡ ok b
      → (a : A) × (run ≡ ok a) × (next a ≡ ok b)
  >>=-eq-ok (err stop) next h = cc
  >>=-eq-ok (ok a) next h = (a, refl, h)

-- A run that ends with a value ends with one that has the property.
module _ {ℓ κ} {A : Type ℓ} (P : A → Type κ) where
  abbrev pub IfOk : Result A → Type κ
  IfOk (err stop) = Unit
  IfOk (ok a) = P a

  pub IfOk-ok : (run : Result A) (a : A) → IfOk run → run ≡ ok a → P a
  IfOk-ok run a h e = subst IfOk e h

pub IfOk->>= {ℓ κ μ} :
    {A : Type ℓ} {B : Type κ} (P : B → Type μ) (run : Result A) (next : A → Result B)
    → ((a : A) → run ≡ ok a → IfOk P (next a))
    → IfOk P (run >>= next)
IfOk->>= P (err stop) next h = tt
IfOk->>= P (ok a) next h = h a refl

pub IfOk-if {ℓ κ} :
    {A : Type ℓ} (P : A → Type κ) (b : Bool) (m n : Result A)
    → IfOk P m
    → IfOk P n
    → IfOk P (if b then m else n)
IfOk-if P true m n h k = h
IfOk-if P false m n h k = k
