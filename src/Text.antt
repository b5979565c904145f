-- ===== src/Text.antt =====
-- The parts of C's standard library by which the program writes and reads its messages: `sprintf`
-- and `sscanf` with `%d`, `%15[^:]`, `%[^\n]` and `%s`. A C string is the list of its bytes before
-- the terminator. One list of directives serves as the format of both functions. A number is read as
-- the integer that it spells; what `%d` makes of one outside of `int` is not modelled.
pub mod Decimal
pub mod RoundTrip
use Prim.Native.Char.{code}
use Prim.Native.String.{String}
use mathlib.Core.Option
use ds_project.Base.{
  ℕ, zero, suc, ◌+◌, ◌-◌, ◌*◌, ◌/◌, ◌%◌, Bool, true, false, not, ◌||◌, ◌&&◌, List, [], ◌∷◌, ◌++◌,
  Option, none, some, ℤ, pos, negsuc, ltb, leb, ◌≡◌, refl, ◌==◌, if◌then◌else◌,
}

abbrev pub Bytes : Type 0
Bytes = List ℕ

abbrev pub codes : String → Bytes
codes String.[] = []
codes (String.◌∷◌ c s) = code c ∷ codes s

abbrev pub is_digit : ℕ → Bool
is_digit c = leb b'0' c && leb c b'9'

-- `isspace` of the C locale: tab, newline, vertical tab, form feed, return, and the blank.
abbrev pub is_space : ℕ → Bool
is_space c = c == b' ' || (leb 9 c && leb c 13)

-- The decimal digits of `n` in front of `out`.
unfoldable pub digits : ℕ → ℕ → Bytes → Bytes
digits zero n out = out
digits (suc fuel) n out =
    let more = digits fuel (n / 10) ((b'0' + n % 10) ∷ out) in
    if ltb n 10 then (b'0' + n % 10) ∷ out else more

-- `%d`: `n + 1` rounds are enough for the digits of `n`.
unfoldable pub print_int : ℤ → Bytes
unfolding digits
print_int (pos n) = digits (suc n) n []
print_int (negsuc n) = b'-' ∷ digits (suc (suc n)) (suc n) []

-- The number that the digits in front spell behind `n`, and what follows them.
unfoldable pub scan_digits : ℕ → Bytes → ℕ × Bytes
scan_digits n [] = (n, [])
scan_digits n (c ∷ s) = if is_digit c then scan_digits (n * 10 + (c - b'0')) s else (n, c ∷ s)

unfoldable pub scan_nat : Bytes → Option (ℕ × Bytes)
unfolding scan_digits
scan_nat [] = none
scan_nat (c ∷ s) = if is_digit c then some (scan_digits 0 (c ∷ s)) else none

abbrev negate : ℕ → ℤ
negate zero = pos 0
negate (suc n) = negsuc n

unfoldable pub scan_int : Bytes → Option (ℤ × Bytes)
unfolding scan_nat
scan_int [] = none
scan_int (c ∷ s) =
    if c == b'-'
    then Option.map (λ r. (negate r.0, r.1)) (scan_nat s)
    else if c == b'+'
    then Option.map (λ r. (pos r.0, r.1)) (scan_nat s)
    else Option.map (λ r. (pos r.0, r.1)) (scan_nat (c ∷ s))

unfoldable pub skip_space : Bytes → Bytes
skip_space [] = []
skip_space (c ∷ s) = if is_space c then skip_space s else c ∷ s

-- The longest prefix of at most `width` bytes that pass the test, and the rest.
unfoldable pub span : ℕ → (ℕ → Bool) → Bytes → Bytes × Bytes
span zero keep s = ([], s)
span (suc width) keep [] = ([], [])
span (suc width) keep (c ∷ s) =
    let r = span width keep s in if keep c then (c ∷ r.0, r.1) else ([], c ∷ s)

-- A part of a format: a byte that must match, white space (written as the byte, read as any run),
-- `%d`, `%<width>[^c]`, and `%s`, read with the width that its buffer was given.
pub data Directive : Type 0 where
  lit : ℕ → Directive
  space : ℕ → Directive
  int : Directive
  upto : ℕ → ℕ → Directive
  word : ℕ → Directive

pub data Value : Type 0 where
  num : ℤ → Value
  txt : Bytes → Value

-- The bytes of a format that stand for themselves.
abbrev pub lits : String → List Directive
lits String.[] = []
lits (String.◌∷◌ c s) = (if is_space (code c) then space (code c) else lit (code c)) ∷ lits s

-- A text conversion fails on the empty text.
abbrev pub converted : Bytes × Bytes → Option (Value × Bytes)
converted ([], rest) = none
converted (c ∷ t, rest) = some (txt (c ∷ t), rest)

unfoldable pub scan_text : ℕ → (ℕ → Bool) → Bytes → Option (Value × Bytes)
unfolding span
scan_text width keep s = converted (span width keep s)

-- `sscanf`: the values that were stored before the first mismatch.
unfoldable pub scan : List Directive → Bytes → List Value
scan [] s = []
scan (lit c ∷ format) [] = []
scan (lit c ∷ format) (d ∷ s) = if d == c then scan format s else []
scan (space c ∷ format) s = scan format (skip_space s)
scan (int ∷ format) s = elim (scan_int (skip_space s)) [
  | none ↦ []
  | some (v, rest) ↦ num v ∷ scan format rest
]
scan (upto width c ∷ format) s = elim (scan_text width (λ d. not (d == c)) s) [
  | none ↦ []
  | some (v, rest) ↦ v ∷ scan format rest
]
scan (word width ∷ format) s = elim (scan_text width (λ d. not (is_space d)) (skip_space s)) [
  | none ↦ []
  | some (v, rest) ↦ v ∷ scan format rest
]

abbrev print_value : Value → Bytes
print_value (num v) = print_int v
print_value (txt t) = t

-- `sprintf`: each conversion takes the next argument.
unfoldable pub print : List Directive → List Value → Bytes
unfolding print_int
print [] vs = []
print (lit c ∷ format) vs = c ∷ print format vs
print (space c ∷ format) vs = c ∷ print format vs
print (int ∷ format) [] = []
print (int ∷ format) (v ∷ vs) = print_value v ++ print format vs
print (upto width c ∷ format) [] = []
print (upto width c ∷ format) (v ∷ vs) = print_value v ++ print format vs
print (word width ∷ format) [] = []
print (word width ∷ format) (v ∷ vs) = print_value v ++ print format vs

scan_test :
    scan (lits "ELECTION:" ++ upto 7 b':' ∷ lits ":" ++ int ∷ []) (codes "ELECTION:VOTE:-42")
    ≡ txt (codes "VOTE") ∷ num (negsuc 41) ∷ []
unfolding scan scan_int scan_text skip_space
scan_test = refl

print_test : print (lits "HB:" ++ int ∷ lits "\n\n") (num (pos 1203) ∷ []) ≡ codes "HB:1203\n\n"
unfolding print
print_test = refl
