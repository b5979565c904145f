-- ===== src/Deps.antt =====
-- `get_deps_str` and `get_deps_int` of chat-c/client/data_structure.c: a vector clock as a text of
-- numbers with commas between them.
pub mod RoundTrip
mod Tests
use ds_project.Base.{
  ℕ, suc, ◌≡◌, refl, Bool, true, false, List, [], ◌∷◌, ◌++◌, Option, none, some, Result, ok, err,
  out_of_range, ℤ, pos, negsuc, ltb, ◌==◌, if◌then◌else◌, length, set,
}
use ds_project.Text.{Bytes, codes, print_int, scan_int, skip_space, scan_digits, scan_nat}

abbrev pub comma : ℕ
comma = b','

-- The loop appends `%d,` for each entry.
pub strcat_all : List ℤ → Bytes → Bytes
strcat_all [] str_array = str_array
strcat_all (x ∷ xs) str_array = strcat_all xs (str_array ++ (print_int x ++ comma ∷ []))

-- The text without its last byte; there is none to cut in the empty text.
pub cut_last : Bytes → Result Bytes
cut_last [] = err out_of_range
cut_last (c ∷ []) = ok []
cut_last (c ∷ d ∷ s) = elim (cut_last (d ∷ s)) [ ok t ↦ ok (c ∷ t) | err e ↦ err e ]

-- `capacity` is the size of the array that the text is written to, terminator included.
unfoldable pub get_deps_str : ℕ → List ℤ → Result Bytes
unfolding strcat_all cut_last
get_deps_str capacity int_array =
    let str_array = strcat_all int_array [] in
    if ltb (length str_array) capacity then cut_last str_array else err out_of_range

-- A run that has ended is a token, unless it is empty.
abbrev pub flush : Bytes → List Bytes → List Bytes
flush [] ts = ts
flush (c ∷ t) ts = (c ∷ t) ∷ ts

-- `strtok(…, ",")` again and again: the runs of other bytes. `cur` is the run so far.
pub tokens : Bytes → Bytes → List Bytes
tokens [] cur = flush cur []
tokens (c ∷ s) cur = elim (c == comma) [
  | true ↦ flush cur (tokens s [])
  | false ↦ tokens s (cur ++ c ∷ [])
]

-- `atoi`: 0 if no number stands in front.
unfoldable pub atoi : Bytes → ℤ
atoi s = elim (scan_int (skip_space s)) [ none ↦ pos 0 | some r ↦ r.0 ]

-- The loop writes the i-th token to `int_array[i]`.
pub store_tokens : ℕ → List Bytes → List ℤ → Result (List ℤ)
store_tokens i [] int_array = ok int_array
store_tokens i (t ∷ ts) int_array =
    if ltb i (length int_array)
    then store_tokens (suc i) ts (set int_array i (atoi t))
    else err out_of_range

unfoldable pub get_deps_int : Bytes → List ℤ → Result (List ℤ)
unfolding tokens store_tokens
get_deps_int str_array int_array = store_tokens 0 (tokens str_array []) int_array
