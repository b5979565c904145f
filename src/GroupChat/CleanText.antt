-- ===== src/GroupChat/CleanText.antt =====
-- The text of a group message as the receiver scans it.
use Prim.Native.String.{String}
use ds_project.Base.{
  append-nil, not, ℕ, ◌≤◌, ◌≡◌, refl, true, List, [], ◌∷◌, ◌++◌, append_assoc, ℤ, arith, length, ap,
  All, All-append,
}
use ds_project.Text.{Bytes, codes, is_digit, is_space, skip_space, print_int, num, txt, scan, print}
use ds_project.Text.Decimal.{print_int-All}
use ds_project.Text.RoundTrip.{Holds, scan-print}
use ds_project.Frame.{buffer_size, newline}
use ds_project.Frame.RoundTrip.{
  IsText, IsPlain, is_text, is_text-IsText, IsText-append, IsPlain-IsText,
}
use ds_project.Deps.RoundTrip.{joined, joined-length}
use ds_project.GroupChat.{Client, head_format, tail_format, group_format, group_message}

-- What a receiver cuts out of a message whose last line is `t`.
abbrev pub clean_text : Client → Bytes → Bytes → Bytes
clean_text c deps t =
    print head_format (num c.group_id ∷ num c.self_id ∷ num c.clk_index ∷ txt deps ∷ [])
    ++ (codes "\n\tMESSAGE:" ++ t)

pub group_message-clean_text :
    (c : Client) (deps t : Bytes)
    → group_message c deps (t ++ newline ∷ [])
      ≡ clean_text c deps t ++ newline ∷ newline ∷ newline ∷ []
unfolding print
group_message-clean_text c deps t = simp append_assoc

pub print_int-IsText : (v : ℤ) → IsText (print_int v)
print_int-IsText v = IsPlain-IsText _ (print_int-All IsPlain (refl, refl) (λ c d. ground arith) v)

pub literal-IsText :
    (s : String) (v : ℤ) (t : Bytes)
    → is_text (codes s) ≡ true
    → IsText t
    → IsText (codes s ++ (print_int v ++ t))
literal-IsText s v t h k =
    IsText-append (codes s) _ (is_text-IsText (codes s) h)
      (IsText-append (print_int v) t (print_int-IsText v) k)

clean_text-parts :
    (c : Client) (deps t : Bytes)
    → clean_text c deps t
      ≡ codes "\n\tGROUP_ID:"
        ++ (print_int c.group_id
            ++ (codes "\n\tSENDER_ID:"
                ++ (print_int c.self_id
                    ++ (codes "\n\tSENDER_CLK_INDEX:"
                        ++ (print_int c.clk_index
                            ++ (codes "\n\tDEPS:" ++ (deps ++ (codes "\n\tMESSAGE:" ++ t))))))))
unfolding print
clean_text-parts c deps t = simp (append_assoc, append-nil)

pub clean_text-IsText :
    (c : Client) (deps t : Bytes) → IsText deps → All IsPlain t → IsText (clean_text c deps t)
clean_text-IsText c deps t d h = rw clean_text-parts (
    literal-IsText "\n\tGROUP_ID:" c.group_id _ refl (
      literal-IsText "\n\tSENDER_ID:" c.self_id _ refl (
        literal-IsText "\n\tSENDER_CLK_INDEX:" c.clk_index _ refl (
          IsText-append (codes "\n\tDEPS:") _ (is_text-IsText (codes "\n\tDEPS:") refl) (
            IsText-append deps _ d (
              IsText-append (codes "\n\tMESSAGE:") t (is_text-IsText (codes "\n\tMESSAGE:") refl)
                (IsPlain-IsText t h)))))))

joined-All :
    (P : ℕ → Type 0)
    → P b','
    → P b'-'
    → ((c : ℕ) → is_digit c ≡ true → P c)
    → (x : ℤ) (xs : List ℤ) → All P (joined (x ∷ xs))
joined-All P comma minus digit x [] = print_int-All P minus digit x
joined-All P comma minus digit x (y ∷ rest) =
    All-append P (print_int x) _ (print_int-All P minus digit x)
      (comma, joined-All P comma minus digit y rest)

pub joined-IsPlain : (x : ℤ) (xs : List ℤ) → All IsPlain (joined (x ∷ xs))
joined-IsPlain = joined-All IsPlain (refl, refl) (refl, refl) (λ c d. ground arith)

joined-words : (x : ℤ) (xs : List ℤ) → All (λ c. not (is_space c) ≡ true) (joined (x ∷ xs))
joined-words = joined-All _ refl refl (λ c d. ground arith)

-- What a receiver scans begins with the three numbers and the vector clock that was sent.
pub scan-clean_text :
    (c : Client) (x : ℤ) (xs : List ℤ) (t : Bytes)
    → length (joined (x ∷ xs)) ≤ buffer_size
    → scan group_format (clean_text c (joined (x ∷ xs)) t)
      ≡ (num c.group_id ∷ num c.self_id ∷ num c.clk_index ∷ txt (joined (x ∷ xs)) ∷ [])
        ++ scan tail_format (codes "\n\tMESSAGE:" ++ t)
unfolding print skip_space
scan-clean_text c x xs t fits =
    scan-print head_format tail_format
      (num c.group_id ∷ num c.self_id ∷ num c.clk_index ∷ txt (joined (x ∷ xs)) ∷ [])
      (codes "\n\tMESSAGE:" ++ t)
      (
        refl,
        tt,
        (
          refl,
          refl,
          (
            refl,
            (
              refl,
              tt,
              (
                refl,
                refl,
                (refl, (refl, tt, (refl, refl, (refl, (refl, tt, (refl, refl, (held, tt))))))),
              ),
            ),
          ),
        ),
      )
  where
    held : Holds (λ d. not (is_space d)) buffer_size (joined (x ∷ xs)) (codes "\n\tMESSAGE:" ++ t)
    held = (λ e. omega (arith, joined-length x xs, ap length e), fits, joined-words x xs, refl)
