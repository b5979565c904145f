-- ===== src/Text/RoundTrip.antt =====
-- `sprintf` and `sscanf` with the same format.
use ds_project.Base.{
  Bool-cases, inl, inr, ◌∙◌, ℤ, ℕ, zero, suc, ◌≤◌, ◌≡◌, ◌≢◌, refl, Bool, true, false, not, List, [],
  ◌∷◌, ◌++◌, append_assoc, some, ◌==◌, arith, ap, length, All,
}
use ds_project.Text.{
  scan_int, Bytes, is_space, Directive, lit, space, int, upto, word, Value, num, txt, converted,
  scan_text, skip_space, span, scan, print,
}
use ds_project.Text.Decimal.{Undigit, scan_int-print_int, skip_space-print_int}

-- The text is empty or begins with a byte that fails the test.
abbrev pub Stops : (ℕ → Bool) → Bytes → Type 0
Stops keep [] = Unit {0}
Stops keep (c ∷ s) = keep c ≡ false

-- A text that a conversion of the width takes whole, with `rest` behind it.
abbrev pub Holds : (ℕ → Bool) → ℕ → Bytes → Bytes → Type 0
Holds keep width t rest =
    (t ≢ []) × (length t ≤ width) × All (λ c. keep c ≡ true) t × Stops keep rest

-- White space that is skipped in front of the rest of a format does not reach into it, unless the
-- rest begins by skipping white space itself.
abbrev pub Settled : List Directive → Bytes → Type 0
Settled (space c ∷ format) s = Unit {0}
Settled _ s = skip_space s ≡ s

-- The arguments suit the format, and no conversion runs on into what is printed behind it.
abbrev pub Fits : List Directive → List Value → Bytes → Type 0
Fits [] [] rest = Unit {0}
Fits [] (v ∷ vs) rest = ⊥
Fits (lit c ∷ format) vs rest = Fits format vs rest
Fits (space c ∷ format) vs rest =
    (is_space c ≡ true) × Settled format (print format vs ++ rest) × Fits format vs rest
Fits (int ∷ format) (num v ∷ vs) rest = Undigit (print format vs ++ rest) × Fits format vs rest
Fits (upto width c ∷ format) (txt t ∷ vs) rest =
    Holds (λ d. not (d == c)) width t (print format vs ++ rest) × Fits format vs rest
Fits (word width ∷ format) (txt t ∷ vs) rest =
    Holds (λ d. not (is_space d)) width t (print format vs ++ rest) × Fits format vs rest
Fits (int ∷ format) _ rest = ⊥
Fits (upto width c ∷ format) _ rest = ⊥
Fits (word width ∷ format) _ rest = ⊥

span-append :
    (width : ℕ) (keep : ℕ → Bool) (t rest : Bytes)
    → length t ≤ width
    → All (λ c. keep c ≡ true) t
    → Stops keep rest
    → span width keep (t ++ rest) ≡ (t, rest)
unfolding span
span-append zero keep [] rest l a s = refl
span-append zero keep (c ∷ t) rest l a s = absurd (omega arith)
span-append (suc width) keep [] [] l a s = refl
span-append (suc width) keep [] (d ∷ rest) l a s = rw s refl
span-append (suc width) keep (c ∷ t) rest l a s =
    rw a.0 (rw (span-append width keep t rest (omega arith) a.1 s) refl)

scan_text_lem :
    (width : ℕ) (keep : ℕ → Bool) (t rest : Bytes)
    → Holds keep width t rest
    → scan_text width keep (t ++ rest) ≡ some (txt t, rest)
unfolding scan_text
scan_text_lem width keep [] rest h = absurd (h.0 refl)
scan_text_lem width keep (c ∷ t) rest h =
    ap converted (span-append width keep (c ∷ t) rest h.1 h.2 h.3)

skip_space_word :
    (width : ℕ) (t rest : Bytes)
    → Holds (λ d. not (is_space d)) width t rest
    → skip_space (t ++ rest) ≡ t ++ rest
unfolding skip_space
skip_space_word width [] rest h = absurd (h.0 refl)
skip_space_word width (c ∷ t) rest h = ground (arith, h.2.0)

skip_space_byte : (c : ℕ) (s : Bytes) → is_space c ≡ true → skip_space (c ∷ s) ≡ skip_space s
unfolding skip_space
skip_space_byte c s h = rw h refl

scan-int :
    (format : List Directive) (s : Bytes) (v : ℤ) (rest : Bytes)
    → skip_space s ≡ s
    → scan_int s ≡ some (v, rest)
    → scan (int ∷ format) s ≡ num v ∷ scan format rest
unfolding scan
scan-int format s v rest skip read = rw (skip, read, scan) refl

scan-upto :
    (width c : ℕ) (format : List Directive) (s t rest : Bytes)
    → scan_text width (λ d. not (d == c)) s ≡ some (txt t, rest)
    → scan (upto width c ∷ format) s ≡ txt t ∷ scan format rest
unfolding scan
scan-upto width c format s t rest read = rw (read, scan) refl

scan-word :
    (width : ℕ) (format : List Directive) (s t rest : Bytes)
    → skip_space s ≡ s
    → scan_text width (λ d. not (is_space d)) s ≡ some (txt t, rest)
    → scan (word width ∷ format) s ≡ txt t ∷ scan format rest
unfolding scan
scan-word width format s t rest skip read = rw (skip, read, scan) refl

skip_space_twice : (s : Bytes) → skip_space (skip_space s) ≡ skip_space s
unfolding skip_space
skip_space_twice [] = refl
skip_space_twice (c ∷ s) = elim (Bool-cases (is_space c)) [
  | inl e ↦ rw e (skip_space_twice s)
  | inr e ↦ rw (e, skip_space) (rw e refl)
]

scan-skip_space :
    (format more : List Directive) (s : Bytes)
    → Settled format s
    → scan (format ++ more) (skip_space s) ≡ scan (format ++ more) s
scan-skip_space [] more s h = ap (scan more) h
scan-skip_space (space c ∷ format) more s h =
    unfold scan in ap (scan (format ++ more)) (skip_space_twice s)
scan-skip_space (lit c ∷ format) more s h = ap (scan (lit c ∷ (format ++ more))) h
scan-skip_space (int ∷ format) more s h = ap (scan (int ∷ (format ++ more))) h
scan-skip_space (upto w c ∷ format) more s h = ap (scan (upto w c ∷ (format ++ more))) h
scan-skip_space (word w ∷ format) more s h = ap (scan (word w ∷ (format ++ more))) h

-- Whatever `sprintf` writes with arguments that fit, `sscanf` with the same format reads back, in
-- full and in order, whatever follows the text, and goes on behind it with the rest of its format.
pub scan-print :
    (format more : List Directive) (vs : List Value) (rest : Bytes)
    → Fits format vs rest
    → scan (format ++ more) (print format vs ++ rest) ≡ vs ++ scan more rest
unfolding scan print
scan-print [] more [] rest h = refl
scan-print [] more (v ∷ vs) rest h = absurd h
scan-print (lit c ∷ format) more vs rest h = ground (arith, scan-print format more vs rest h)
scan-print (space c ∷ format) more vs rest h =
    ap (scan (format ++ more)) (skip_space_byte c _ h.0)
    ∙ scan-skip_space format more _ h.1
    ∙ scan-print format more vs rest h.2
scan-print (int ∷ format) more (num v ∷ vs) rest h = rw append_assoc (
    scan-int (format ++ more) _ v _ (skip_space-print_int v _) (scan_int-print_int v _ h.0)
    ∙ ap (◌∷◌ (num v)) (scan-print format more vs rest h.1))
scan-print (upto width c ∷ format) more (txt t ∷ vs) rest h = rw append_assoc (
    scan-upto width c (format ++ more) _ t _ (scan_text_lem width (λ d. not (d == c)) t _ h.0)
    ∙ ap (◌∷◌ (txt t)) (scan-print format more vs rest h.1))
scan-print (word width ∷ format) more (txt t ∷ vs) rest h = rw append_assoc (
    scan-word width (format ++ more) _ t _ (skip_space_word width t _ h.0)
      (scan_text_lem width (λ d. not (is_space d)) t _ h.0)
    ∙ ap (◌∷◌ (txt t)) (scan-print format more vs rest h.1))
scan-print (int ∷ format) more [] rest h = absurd h
scan-print (int ∷ format) more (txt t ∷ vs) rest h = absurd h
scan-print (upto width c ∷ format) more [] rest h = absurd h
scan-print (upto width c ∷ format) more (num t ∷ vs) rest h = absurd h
scan-print (word width ∷ format) more [] rest h = absurd h
scan-print (word width ∷ format) more (num t ∷ vs) rest h = absurd h
