-- ===== src/Discovery/Understood.antt =====
-- The text of a welcome, as the server that starts scans it.
use ds_project.Base.{
  ◌≡◌, ◌∙◌, refl, ap, sym, List, [], ◌∷◌, ◌++◌, append_assoc, append-nil, some, ℤ, All,
}
use ds_project.Text.{Bytes, codes, Directive, int, upto, lits, num, txt, scan, print}
use ds_project.Text.RoundTrip.{scan-print}
use ds_project.GroupChat.CleanText.{print_int-IsText, literal-IsText}
use ds_project.Frame.RoundTrip.{
  IsText, IsPlain, IsText-append, is_text-IsText, IsPlain-IsText, end_mark,
}
use ds_project.SocketChanges.Understood.{IsAddress}
use ds_project.Joining.{welcome_text}
use ds_project.Discovery.{welcome_format, welcome_values}

-- The welcome without its end mark, and its format up to there.
abbrev welcome_head : List Directive
welcome_head = int ∷ (lits ":" ++ (upto 15 b':' ∷ (lits ":" ++ (int ∷ (lits ":" ++ (int ∷ []))))))

abbrev pub welcome_read : ℤ → Bytes → ℤ → ℤ → Bytes
welcome_read leader_id addr port id =
    print welcome_head (num leader_id ∷ txt addr ∷ num port ∷ num id ∷ [])

pub welcome_text_parts :
    (leader_id : ℤ) (addr : Bytes) (port id : ℤ)
    → welcome_text leader_id addr port id ≡ welcome_read leader_id addr port id ++ end_mark
unfolding print
welcome_text_parts leader_id addr port id = simp (append_assoc, append-nil)

pub welcome_read-IsText :
    (leader_id : ℤ) (addr : Bytes) (port id : ℤ)
    → All IsPlain addr
    → IsText (welcome_read leader_id addr port id)
unfolding print
welcome_read-IsText leader_id addr port id plain = IsText-append _ _ (print_int-IsText leader_id) (
    IsText-append (codes ":") _ (is_text-IsText (codes ":") refl) (
      IsText-append addr _ (IsPlain-IsText addr plain)
        (literal-IsText ":" port _ refl (literal-IsText ":" id [] refl (tt, tt)))))

pub welcome_values-scan :
    (leader_id : ℤ) (addr : Bytes) (port id : ℤ)
    → IsAddress addr
    → welcome_values (scan welcome_format (welcome_read leader_id addr port id))
      ≡ some (record { id = leader_id; successor_ip = addr; port = port; successor_id = id })
unfolding scan print
welcome_values-scan leader_id addr port id h =
    let vs = num leader_id ∷ txt addr ∷ num port ∷ num id ∷ [] in
    ap welcome_values (
      ap (scan welcome_format) (sym (append-nil (print welcome_head vs)))
      ∙ scan-print welcome_head (lits "\n\n") vs []
          (refl, ((h.0, h.1, h.2, refl), (refl, (tt, tt)))))
