-- ===== src/Deps/RoundTrip.antt =====
-- `get_deps_str` and `get_deps_int`, one after the other.
use mathlib.Core.List.{map}
use ds_project.Base.{
  ℕ, suc, ◌+◌, ◌<◌, ◌≡◌, ◌≢◌, refl, false, List, [], ◌∷◌, ◌++◌, append_assoc, append-nil, ok, err,
  ℤ, ltb, ◌==◌, if◌then◌else◌, arith, ◌∙◌, ap, ap₂, ◌*◌, some, sym, All, length, length-append, set,
  out_of_range,
}
use ds_project.Text.{Bytes, print_int, scan_int, skip_space}
use ds_project.Text.Decimal.{
  scan_int-print_int, skip_space-print_int, print_int-All, print_int-ne-nil,
}
use ds_project.Deps.{
  comma, strcat_all, cut_last, get_deps_str, flush, tokens, atoi, store_tokens, get_deps_int,
}

-- The numbers with a comma between any two.
abbrev pub joined : List ℤ → Bytes
joined [] = []
joined (x ∷ []) = print_int x
joined (x ∷ y ∷ rest) = print_int x ++ comma ∷ joined (y ∷ rest)

strcat_all-joined :
    (x : ℤ) (xs : List ℤ) (acc : Bytes)
    → strcat_all (x ∷ xs) acc ≡ acc ++ (joined (x ∷ xs) ++ comma ∷ [])
unfolding strcat_all
strcat_all-joined x [] acc = refl
strcat_all-joined x (y ∷ rest) acc =
    strcat_all-joined y rest (acc ++ (print_int x ++ comma ∷ [])) ∙ simp append_assoc

cut_last-append : (s : Bytes) (c : ℕ) → cut_last (s ++ c ∷ []) ≡ ok s
unfolding cut_last
cut_last-append [] c = refl
cut_last-append (d ∷ []) c = refl
cut_last-append (d ∷ e ∷ s) c = rw (cut_last-append (e ∷ s) c) refl

-- The text that is written: the joined numbers, if it fits with one comma and the terminator more.
pub get_deps_str-joined :
    (capacity : ℕ) (x : ℤ) (xs : List ℤ)
    → get_deps_str capacity (x ∷ xs) ≡ (
        if ltb (length (joined (x ∷ xs)) + 1) capacity
        then ok (joined (x ∷ xs))
        else err out_of_range)
unfolding get_deps_str
get_deps_str-joined capacity x xs =
    rw (strcat_all-joined x xs [], cut_last-append, length-append (joined (x ∷ xs)) (comma ∷ []))
      refl

tokens-append :
    (p rest cur : Bytes)
    → All (λ c. (c == comma) ≡ false) p
    → tokens (p ++ rest) cur ≡ tokens rest (cur ++ p)
unfolding tokens
tokens-append [] rest cur a = rw append-nil refl
tokens-append (c ∷ p) rest cur a =
    rw (a.0, tokens)
      (tokens-append p rest (cur ++ c ∷ []) a.1 ∙ ap (tokens rest) (append_assoc cur (c ∷ []) p))

print_int_no_comma : (v : ℤ) → All (λ c. (c == comma) ≡ false) (print_int v)
print_int_no_comma = print_int-All _ refl (λ c d. ground arith)

flush-ne-nil : (t : Bytes) (ts : List Bytes) → t ≢ [] → flush t ts ≡ t ∷ ts
flush-ne-nil [] ts h = absurd (h refl)
flush-ne-nil (c ∷ t) ts h = refl

tokens_end : (cur : Bytes) → tokens [] cur ≡ flush cur []
unfolding tokens
tokens_end cur = refl

tokens-comma : (s cur : Bytes) → tokens (comma ∷ s) cur ≡ flush cur (tokens s [])
unfolding tokens
tokens-comma s cur = refl

tokens-joined : (x : ℤ) (xs : List ℤ) → tokens (joined (x ∷ xs)) [] ≡ map print_int (x ∷ xs)
tokens-joined x [] =
    ap (λ t. tokens t []) (sym (append-nil (print_int x)))
    ∙ tokens-append (print_int x) [] [] (print_int_no_comma x)
    ∙ tokens_end (print_int x)
    ∙ flush-ne-nil (print_int x) [] (print_int-ne-nil x)
tokens-joined x (y ∷ rest) =
    tokens-append (print_int x) (comma ∷ joined (y ∷ rest)) [] (print_int_no_comma x)
    ∙ tokens-comma (joined (y ∷ rest)) (print_int x)
    ∙ flush-ne-nil (print_int x) _ (print_int-ne-nil x)
    ∙ ap (◌∷◌ (print_int x)) (tokens-joined y rest)

atoi_lem : (s : Bytes) (v : ℤ) → skip_space s ≡ s → scan_int s ≡ some (v, []) → atoi s ≡ v
unfolding atoi
atoi_lem s v h e = rw (h, e, atoi) refl

atoi-print_int : (v : ℤ) → atoi (print_int v) ≡ v
atoi-print_int v =
    rw (← append-nil (print_int v))
      (atoi_lem (print_int v ++ []) v (skip_space-print_int v []) (scan_int-print_int v [] tt))

set-append :
    (pre : List ℤ) (o v : ℤ) (os : List ℤ) → set (pre ++ o ∷ os) (length pre) v ≡ pre ++ v ∷ os
set-append [] o v os = refl
set-append (p ∷ pre) o v os = ap (◌∷◌ p) (set-append pre o v os)

store_tokens_step :
    (i : ℕ) (t : Bytes) (ts : List Bytes) (array : List ℤ)
    → i < length array
    → store_tokens i (t ∷ ts) array ≡ store_tokens (suc i) ts (set array i (atoi t))
unfolding store_tokens
store_tokens_step i t ts array h = ground arith

store_tokens-map :
    (pre xs old : List ℤ)
    → length old ≡ length xs
    → store_tokens (length pre) (map print_int xs) (pre ++ old) ≡ ok (pre ++ xs)
store_tokens-map pre [] [] h = unfold store_tokens in refl
store_tokens-map pre [] (o ∷ os) h = absurd (omega arith)
store_tokens-map pre (x ∷ xs) [] h = absurd (omega arith)
store_tokens-map pre (x ∷ xs) (o ∷ os) h =
    store_tokens_step (length pre) (print_int x) (map print_int xs) (pre ++ o ∷ os)
      (omega (arith, length-append pre (o ∷ os)))
    ∙ ap₂ (λ n l. store_tokens n (map print_int xs) l) (omega (arith, length-append pre (x ∷ [])))
        (rw (atoi-print_int x, set-append pre o x os) (sym (append_assoc pre (x ∷ []) os)))
    ∙ store_tokens-map (pre ++ x ∷ []) xs os (omega arith)
    ∙ ap ok (append_assoc pre (x ∷ []) xs)

-- A vector clock that is printed into an array with room for it is read back as it was, into any
-- array of the same size, whatever that array held.
pub get_deps_int-get_deps_str :
    (capacity : ℕ) (x : ℤ) (xs old : List ℤ)
    → length old ≡ length (x ∷ xs)
    → length (joined (x ∷ xs)) + 1 < capacity
    → (s : Bytes) × (get_deps_str capacity (x ∷ xs) ≡ ok s) × (get_deps_int s old ≡ ok (x ∷ xs))
unfolding get_deps_int
get_deps_int-get_deps_str capacity x xs old same fits = (
  joined (x ∷ xs),
  get_deps_str-joined capacity x xs ∙ ground arith,
  ap (λ ts. store_tokens 0 ts old) (tokens-joined x xs) ∙ store_tokens-map [] (x ∷ xs) old same,
)

print_int-length : (v : ℤ) → 0 < length (print_int v)
print_int-length v = positive (print_int v) (print_int-ne-nil v)
  where
    positive : (s : Bytes) → s ≢ [] → 0 < length s
    positive [] h = absurd (h refl)
    positive (c ∷ s) h = omega arith

-- The text of n numbers has at least 2 n - 1 bytes.
pub joined-length : (x : ℤ) (xs : List ℤ) → 2 * length xs < length (joined (x ∷ xs))
joined-length x [] = omega (arith, print_int-length x)
joined-length x (y ∷ rest) = omega (
  arith,
  print_int-length x,
  length-append (print_int x) (comma ∷ joined (y ∷ rest)),
  joined-length y rest,
)
