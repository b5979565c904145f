-- ===== src/Text/Decimal.antt =====
-- `scan_int` on what `print_int` writes, in front of a byte that is no digit.
use mathlib.Core.Option
use ds_project.Base.{
  All, ◌≢◌, ℕ, zero, suc, ◌+◌, ◌/◌, ◌%◌, ◌<◌, ◌≡◌, refl, true, false, [], ◌∷◌, ◌++◌, some, ℤ, pos,
  negsuc, ltb, arith, ◌∙◌, ap, Bool-cases, inl, inr,
}
use ds_project.Text.{
  Bytes, is_digit, digits, print_int, scan_digits, scan_nat, scan_int, skip_space,
}

-- The text is empty or begins with a byte that is no digit.
abbrev pub Undigit : Bytes → Type 0
Undigit [] = Unit {0}
Undigit (c ∷ s) = is_digit c ≡ false

scan_digits-digits :
    (fuel n : ℕ) (out : Bytes) → n < fuel → scan_digits 0 (digits fuel n out) ≡ scan_digits n out
unfolding scan_digits digits
scan_digits-digits zero n out h = elim h [ ]
scan_digits-digits (suc fuel) n out h =
    ground (arith, scan_digits-digits fuel (n / 10) ((b'0' + n % 10) ∷ out))

scan_digits_end : (n : ℕ) (s : Bytes) → Undigit s → scan_digits n s ≡ (n, s)
unfolding scan_digits
scan_digits_end n [] h = refl
scan_digits_end n (c ∷ s) h = ground arith

digits-append :
    (fuel n : ℕ) (out rest : Bytes) → digits fuel n out ++ rest ≡ digits fuel n (out ++ rest)
unfolding digits
digits-append zero n out rest = refl
digits-append (suc fuel) n out rest =
    ground (arith, digits-append fuel (n / 10) ((b'0' + n % 10) ∷ out) rest)

-- The digits are never empty, and begin with a digit.
digits_head :
    (fuel n : ℕ) (out : Bytes)
    → n < fuel
    → (c : ℕ) × (s : Bytes) × (digits fuel n out ≡ c ∷ s) × (is_digit c ≡ true)
unfolding digits
digits_head zero n out h = elim h [ ]
digits_head (suc fuel) n out h = elim (Bool-cases (ltb n 10)) [
  | inl e ↦ (b'0' + n % 10, out, rw e refl, ground arith)
  | inr e ↦
      let (c, s, p, q) = digits_head fuel (n / 10) ((b'0' + n % 10) ∷ out) (ground (arith, e)) in
      (c, s, rw e p, q)
]

scan_nat_digit :
    (t : Bytes) (c : ℕ) (s : Bytes)
    → t ≡ c ∷ s
    → is_digit c ≡ true
    → scan_nat t ≡ some (scan_digits 0 t)
unfolding scan_nat
scan_nat_digit t c s e d = rw e (rw d refl)

scan_int_digit :
    (t : Bytes) (c : ℕ) (s : Bytes)
    → t ≡ c ∷ s
    → is_digit c ≡ true
    → scan_int t ≡ Option.map (λ r. (pos r.0, r.1)) (scan_nat t)
unfolding scan_int
scan_int_digit t c s e d = rw e (ground arith)

skip_space_digit :
    (t : Bytes) (c : ℕ) (s : Bytes) → t ≡ c ∷ s → is_digit c ≡ true → skip_space t ≡ t
unfolding skip_space
skip_space_digit t c s e d = rw e (ground arith)

scan_nat-digits :
    (n : ℕ) (rest : Bytes) → Undigit rest → scan_nat (digits (suc n) n rest) ≡ some (n, rest)
scan_nat-digits n rest h =
    let (c, s, p, q) = digits_head (suc n) n rest (omega arith) in
    scan_nat_digit _ c s p q
    ∙ ap some (scan_digits-digits (suc n) n rest (omega arith) ∙ scan_digits_end n rest h)

scan_int-pos :
    (n : ℕ) (rest : Bytes) → Undigit rest → scan_int (digits (suc n) n rest) ≡ some (pos n, rest)
scan_int-pos n rest h =
    let (c, s, p, q) = digits_head (suc n) n rest (omega arith) in
    scan_int_digit _ c s p q ∙ ap (Option.map _) (scan_nat-digits n rest h)

pub scan_int-print_int :
    (v : ℤ) (rest : Bytes) → Undigit rest → scan_int (print_int v ++ rest) ≡ some (v, rest)
unfolding print_int
scan_int-print_int (pos n) rest h = rw digits-append (scan_int-pos n rest h)
scan_int-print_int (negsuc n) rest h =
    unfold scan_int in rw (digits-append, scan_nat-digits (suc n) rest h) refl

-- `%d` skips no byte of a printed number.
pub skip_space-print_int :
    (v : ℤ) (rest : Bytes) → skip_space (print_int v ++ rest) ≡ print_int v ++ rest
unfolding print_int
skip_space-print_int (pos n) rest =
    let (c, s, p, q) = digits_head (suc n) n rest (omega arith) in
    rw digits-append (skip_space_digit _ c s p q)
skip_space-print_int (negsuc n) rest = unfold skip_space in refl

digits-All {κ} :
    (P : ℕ → Type κ)
    → ((c : ℕ) → is_digit c ≡ true → P c)
    → (fuel n : ℕ) (out : Bytes) → All P out
    → All P (digits fuel n out)
unfolding digits
digits-All P digit zero n out a = a
digits-All P digit (suc fuel) n out a = elim (Bool-cases (ltb n 10)) [
  | inl e ↦ rw e (digit (b'0' + n % 10) (ground arith), a)
  | inr e ↦ rw e (
      digits-All P digit fuel (n / 10) ((b'0' + n % 10) ∷ out)
        (digit (b'0' + n % 10) (ground arith), a))
]

-- A printed number holds digits, and a minus sign.
pub print_int-All {κ} :
    (P : ℕ → Type κ) → P b'-' → ((c : ℕ) → is_digit c ≡ true → P c) → (v : ℤ) → All P (print_int v)
unfolding print_int
print_int-All P minus digit (pos n) = digits-All P digit (suc n) n [] tt
print_int-All P minus digit (negsuc n) = (minus, digits-All P digit (suc (suc n)) (suc n) [] tt)

pub print_int-ne-nil : (v : ℤ) → print_int v ≢ []
unfolding print_int
print_int-ne-nil (pos n) e = let (c, s, p, q) = digits_head (suc n) n [] (omega arith) in cc
print_int-ne-nil (negsuc n) e = cc
