-- ===== src/Frame/RoundTrip.antt =====
-- The buffer between a sender and a receiver.
use ds_project.Base.{
  take, take_all, ◌∙◌, not, true, Bool, All-append, ℕ, drop, sym, append-nil, subst, ◌+◌, ◌≤◌, ◌<◌,
  ◌≡◌, refl, false, ◌&&◌, [], ◌∷◌, ◌++◌, some, ok, ◌==◌, length, length-append, All, all, arith, ap,
  append_assoc,
}
use ds_project.Text.{Bytes}
use ds_project.Frame.{
  buffer_size, newline, overlay, filled_with_x, pad_message, sprintf_into, c_string, clear_message,
  receive,
}

-- No two newlines stand side by side, and the last byte is none.
abbrev pub Unbroken : Bytes → Type 0
Unbroken [] = Unit {0}
Unbroken (c ∷ []) = (c == newline) ≡ false
Unbroken (c ∷ d ∷ s) = ((c == newline && d == newline) ≡ false) × Unbroken (d ∷ s)

-- A text that can be framed: no zero byte, and no end mark inside.
abbrev pub IsText : Bytes → Type 0
IsText t = All (λ c. (c == 0) ≡ false) t × Unbroken t

abbrev pub end_mark : Bytes
end_mark = newline ∷ newline ∷ []

Unbroken-append : (s t : Bytes) → Unbroken s → Unbroken t → Unbroken (s ++ t)
Unbroken-append [] t u v = v
Unbroken-append (c ∷ []) [] u v = u
Unbroken-append (c ∷ []) (d ∷ t) u v = (rw u refl, v)
Unbroken-append (c ∷ d ∷ s) t u v = (u.0, Unbroken-append (d ∷ s) t u.1 v)

pub IsText-append : (s t : Bytes) → IsText s → IsText t → IsText (s ++ t)
IsText-append s t h k = (All-append _ s t h.0 k.0, Unbroken-append s t h.1 k.1)

-- The same as a test, for the literal parts of a message.
abbrev pub is_text : Bytes → Bool
is_text [] = true
is_text (c ∷ []) = not (c == 0) && not (c == newline)
is_text (c ∷ d ∷ s) = not (c == 0) && (not (c == newline && d == newline) && is_text (d ∷ s))

pub is_text-IsText : (s : Bytes) → is_text s ≡ true → IsText s
is_text-IsText [] h = (tt, tt)
is_text-IsText (c ∷ []) h = ((ground (arith, h), tt), ground (arith, h))
is_text-IsText (c ∷ d ∷ s) h =
    let rest = is_text-IsText (d ∷ s) (ground (arith, h)) in
    ((ground (arith, h), rest.0), (ground (arith, h), rest.1))

-- A byte that is neither zero nor a newline.
abbrev pub IsPlain : ℕ → Type 0
IsPlain c = ((c == 0) ≡ false) × ((c == newline) ≡ false)

abbrev pub is_plain : ℕ → Bool
is_plain c = not (c == 0) && not (c == newline)

pub is_plain-IsPlain : (s : Bytes) → all is_plain s ≡ true → All IsPlain s
is_plain-IsPlain [] h = tt
is_plain-IsPlain (c ∷ s) h =
    ((ground (arith, h), ground (arith, h)), is_plain-IsPlain s (ground (arith, h)))

pub IsPlain-IsText : (s : Bytes) → All IsPlain s → IsText s
IsPlain-IsText [] a = (tt, tt)
IsPlain-IsText (c ∷ []) a = ((a.0.0, tt), a.0.1)
IsPlain-IsText (c ∷ d ∷ s) a =
    let rest = IsPlain-IsText (d ∷ s) a.1 in ((a.0.0, rest.0), (rw a.0.1 refl, rest.1))

clear_message-end_mark :
    (t rest : Bytes) → Unbroken t → clear_message (t ++ newline ∷ newline ∷ rest) ≡ some t
unfolding clear_message
clear_message-end_mark [] rest u = refl
clear_message-end_mark (c ∷ []) rest u = ground arith
clear_message-end_mark (c ∷ d ∷ s) rest u =
    rw u.0 (rw (clear_message-end_mark (d ∷ s) rest u.1) refl)

c_string-append :
    (t rest : Bytes) → All (λ c. (c == 0) ≡ false) t → c_string (t ++ rest) ≡ t ++ c_string rest
unfolding c_string
c_string-append [] rest a = refl
c_string-append (c ∷ t) rest a = rw a.0 (ap (◌∷◌ c) (c_string-append t rest a.1))

overlay-drop : (t buffer : Bytes) → overlay t buffer ≡ t ++ drop (length t) buffer
unfolding overlay
overlay-drop [] buffer = refl
overlay-drop (c ∷ t) [] = ap (◌∷◌ c) (sym (append-nil t))
overlay-drop (c ∷ t) (d ∷ buffer) = ap (◌∷◌ c) (overlay-drop t buffer)

pub overlay_whole : (t buffer : Bytes) → length t ≡ length buffer → overlay t buffer ≡ t
unfolding overlay
overlay_whole [] [] h = refl
overlay_whole [] (d ∷ buffer) h = absurd (omega arith)
overlay_whole (c ∷ t) [] h = refl
overlay_whole (c ∷ t) (d ∷ buffer) h = ap (◌∷◌ c) (overlay_whole t buffer (omega arith))

pub length-overlay :
    (t buffer : Bytes) → length t ≤ length buffer → length (overlay t buffer) ≡ length buffer
unfolding overlay
length-overlay [] buffer h = refl
length-overlay (c ∷ t) [] h = absurd (omega arith)
length-overlay (c ∷ t) (d ∷ buffer) h = omega (arith, length-overlay t buffer)

length-c_string : (s : Bytes) → length (c_string s) ≤ length s
unfolding c_string
length-c_string [] = omega arith
length-c_string (c ∷ s) = ground (arith, length-c_string s)

-- A reader stops at the first end mark, whatever the rest of the buffer holds.
receive-end_mark : (t rest : Bytes) → IsText t → receive (t ++ newline ∷ newline ∷ rest) ≡ some t
unfolding receive
receive-end_mark t rest h =
    rw (c_string-append t _ h.0) (clear_message-end_mark t (c_string rest) h.1)

pub receive-overlay :
    (t u buffer : Bytes) → IsText t → receive (overlay (t ++ (end_mark ++ u)) buffer) ≡ some t
receive-overlay t u buffer h = rw (overlay-drop, append_assoc, receive-end_mark t _ h) refl

pub pad_message_fits :
    (m : Bytes) → length m ≤ buffer_size → pad_message m ≡ ok (overlay m filled_with_x)
unfolding pad_message
pad_message_fits m h = ground (arith, overlay)

pub sprintf_into_fits :
    (buffer m : Bytes)
    → length m < length buffer
    → sprintf_into buffer m ≡ ok (overlay (m ++ 0 ∷ []) buffer)
unfolding sprintf_into
sprintf_into_fits buffer m h = ground arith

pub receive-send :
    (t before : Bytes)
    → IsText t
    → length t + 2 < buffer_size
    → length before ≡ buffer_size
    → (padded : Bytes) × (printed : Bytes) × (pad_message (t ++ end_mark) ≡ ok padded)
      × (sprintf_into before (t ++ end_mark) ≡ ok printed)
      × (length padded ≡ buffer_size)
      × (length printed ≡ buffer_size)
      × (receive padded ≡ some t)
      × (receive printed ≡ some t)
receive-send t before h fits size =
    let l = length-append t end_mark in
    let l0 = length-append (t ++ end_mark) (0 ∷ []) in
    (
      overlay (t ++ end_mark) filled_with_x,
      overlay ((t ++ end_mark) ++ 0 ∷ []) before,
      pad_message_fits _ (omega (arith, l)),
      sprintf_into_fits before _ (omega (arith, l)),
      length-overlay _ filled_with_x (omega (arith, l)),
      omega (arith, l, l0, length-overlay ((t ++ end_mark) ++ 0 ∷ []) before),
      subst (λ m. receive (overlay m filled_with_x) ≡ some t) (ap (◌++◌ t) (append-nil end_mark))
          (receive-overlay t [] filled_with_x h),
      rw append_assoc (receive-overlay t (0 ∷ []) before h),
    )

c_string_end : (s : Bytes) → c_string (newline ∷ newline ∷ s) ≡ newline ∷ newline ∷ c_string s
unfolding c_string
c_string_end s = refl

c_string-overlay :
    (t u buffer : Bytes)
    → IsText t
    → (rest : Bytes) × (c_string (overlay (t ++ newline ∷ newline ∷ u) buffer)
        ≡ t ++ newline ∷ newline ∷ rest)
c_string-overlay t u buffer h = (
  c_string (u ++ drop (length (t ++ newline ∷ newline ∷ u)) buffer),
  ap c_string (overlay-drop (t ++ newline ∷ newline ∷ u) buffer ∙ append_assoc t _ _)
      ∙ c_string-append t _ h.0
      ∙ ap (◌++◌ t) (c_string_end _),
)

-- A datagram that carries a padded message up to the terminator, received over whatever the buffer
-- held: the receiver cuts out the text.
pub receive-datagram :
    (t u pad before : Bytes)
    → IsText t
    → length (t ++ newline ∷ newline ∷ u) ≤ length pad
    → length pad ≤ buffer_size
    → receive
        (overlay (take buffer_size (c_string (overlay (t ++ newline ∷ newline ∷ u) pad))) before)
      ≡ some t
receive-datagram t u pad before h fits size =
    let sent = overlay (t ++ newline ∷ newline ∷ u) pad in
    let small : length (c_string sent) ≤ buffer_size =
      omega (arith, length-c_string sent, length-overlay _ pad fits) in
    let (rest, e) = c_string-overlay t u pad h in
    rw (take_all buffer_size (c_string sent) small, overlay-drop (c_string sent) before, e)
      (ap receive (append_assoc t _ _) ∙ receive-end_mark t _ h)
