-- ===== src/Deps/Tests.antt =====
-- Vector clocks as text, on concrete arrays.
use ds_project.Base.{◌≡◌, refl, [], ◌∷◌, ok, pos, negsuc, arith}
use ds_project.Text.{Bytes, codes, print_int, scan_int, skip_space}
use ds_project.Deps.{get_deps_str, get_deps_int, atoi}
use ds_project.Deps.RoundTrip.{get_deps_int-get_deps_str}

deps_test : get_deps_str 50 (pos 3 ∷ negsuc 0 ∷ pos 12 ∷ []) ≡ ok (codes "3,-1,12")
unfolding get_deps_str print_int
deps_test = refl

deps_back :
    get_deps_int (codes "3,,-1,x") (pos 7 ∷ pos 7 ∷ pos 7 ∷ pos 7 ∷ [])
    ≡ ok (pos 3 ∷ negsuc 0 ∷ pos 0 ∷ pos 7 ∷ [])
unfolding get_deps_int atoi scan_int skip_space
deps_back = refl

get_deps_int-get_deps_str_example :
    (s : Bytes) × (get_deps_str 50 (pos 3 ∷ pos 12 ∷ []) ≡ ok s)
    × (get_deps_int s (pos 7 ∷ pos 8 ∷ []) ≡ ok (pos 3 ∷ pos 12 ∷ []))
unfolding print_int
get_deps_int-get_deps_str_example =
    get_deps_int-get_deps_str 50 (pos 3) (pos 12 ∷ []) (pos 7 ∷ pos 8 ∷ []) refl (omega arith)
