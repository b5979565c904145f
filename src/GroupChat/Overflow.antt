-- ===== src/GroupChat/Overflow.antt =====
-- The group messages that the program sends itself, at a receiver of the same program.
use ds_project.Base.{
  Result, get_elem?, Bool, ℕ, ◌≤◌, ◌≡◌, refl, true, List, [], ◌∷◌, ◌++◌, some, ok, err,
  out_of_range, ℤ, arith, length, length-set, take, ◌∙◌, ap, All, >>=-eq-ok,
}
use ds_project.Text.{Bytes, Value, scan}
use ds_project.Frame.{
  pad_message, sprintf_into, filled_with_zero, buffer_size, newline, overlay, filled_with_x,
  c_string, receive,
}
use ds_project.Frame.RoundTrip.{receive-datagram, IsPlain, IsPlain-IsText}
use ds_project.Deps.{get_deps_str}
use ds_project.Deps.RoundTrip.{joined, get_deps_str-joined, joined-length}
use ds_project.HoldBack.{index, in_range, increment, max_group_size}
use ds_project.GroupChat.{
  Client, Action, multicast, group_format, group_message, own_dependency, fill_buffer,
  send_multicast, receive_deps_size, append_deps_size, store_deps, stored_deps, take_in,
  handle_group_receive,
}
use ds_project.GroupChat.CleanText.{
  clean_text, group_message-clean_text, clean_text-IsText, joined-IsPlain, scan-clean_text,
}

store_deps_overflow :
    (size : ℕ) (vs : List Value)
    → size ≤ length (stored_deps vs)
    → store_deps size vs ≡ err out_of_range
store_deps_overflow size vs h = ground arith

take_in_overflows :
    (malloc : Bool) (sender_dep : List ℤ) (r c : Client) (x : ℤ) (xs : List ℤ) (t : Bytes)
    → length (x ∷ xs) ≡ max_group_size
    → length (joined (x ∷ xs)) ≤ buffer_size
    → take_in malloc sender_dep r (clean_text c (joined (x ∷ xs)) t) ≡ err out_of_range
unfolding take_in
take_in_overflows malloc sender_dep r c x xs t ten fits =
    let scanned = scan-clean_text c x xs t fits in
    rw
      (store_deps_overflow receive_deps_size (scan group_format (clean_text c (joined (x ∷ xs)) t))
        (rw scanned (omega (arith, joined-length x xs))))
      refl

take_in-heard :
    (malloc : Bool) (sender_dep : List ℤ) (payload : Bytes) (r : Client) (clean : Bytes)
    → receive (overlay (take buffer_size payload) r.buffer) ≡ some clean
    → handle_group_receive malloc true sender_dep (some payload) r
      ≡ take_in malloc sender_dep
          (record r { buffer = overlay (take buffer_size payload) r.buffer })
          clean
unfolding handle_group_receive receive
take_in-heard malloc sender_dep payload r clean e = rw (e, handle_group_receive) refl

own_dependency-length :
    (c : Client) (dependency : List ℤ)
    → own_dependency c ≡ ok dependency
    → length dependency ≡ length c.delivery.delivered
unfolding own_dependency
own_dependency-length c dependency h =
    let (k, _, h') = >>=-eq-ok (index c.clk_index) _ h in
    let (old, _, h'') = >>=-eq-ok (in_range (get_elem? c.delivery.delivered k)) _ h' in
    ground (arith, length-set c.delivery.delivered k c.send_seq)

pad_message_ok :
    (text buffer : Bytes)
    → pad_message text ≡ ok buffer
    → (length text ≤ buffer_size) × (buffer ≡ overlay text filled_with_x)
unfolding pad_message
pad_message_ok text buffer h = ground (arith, overlay)

fill_buffer_ok :
    (c d : Client) (text : Bytes)
    → fill_buffer c text ≡ ok d
    → (length text ≤ buffer_size) × (d.buffer ≡ overlay text filled_with_x)
unfolding fill_buffer
fill_buffer_ok c d text h =
    let (message, _, h') = >>=-eq-ok (sprintf_into filled_with_zero text) _ h in
    let (buffer, padded, h'') = >>=-eq-ok (pad_message text) _ h' in
    let (fits, same) = pad_message_ok text buffer padded in (fits, ground (arith, same))

sent_payload :
    (payload buffer : Bytes) (d c' : Client)
    → ◌≡◌ {A = Result (Action × Client)}
        (ok (multicast (c_string buffer), d))
        (ok (multicast payload, c'))
    → payload ≡ c_string buffer
sent_payload payload buffer d c' h = ground arith

-- What a successful send has put together.
send_multicast_parts :
    (c c' : Client) (input payload : Bytes)
    → send_multicast c input ≡ ok (multicast payload, c')
    → (dependency : List ℤ) × (deps : Bytes) × (own_dependency c ≡ ok dependency)
      × (get_deps_str append_deps_size dependency ≡ ok deps)
      × (length (group_message c deps input) ≤ buffer_size)
      × (payload ≡ c_string (overlay (group_message c deps input) filled_with_x))
unfolding send_multicast
send_multicast_parts c c' input payload h =
    let (dependency, own, h1) = >>=-eq-ok (own_dependency c) _ h in
    let (deps, str, h2) = >>=-eq-ok (get_deps_str append_deps_size dependency) _ h1 in
    let (filled, fill, h3) = >>=-eq-ok (fill_buffer c (group_message c deps input)) _ h2 in
    let (seq, _, h4) = >>=-eq-ok (increment c.send_seq) _ h3 in
    let (fits, same) = fill_buffer_ok c filled (group_message c deps input) fill in
    (dependency, deps, own, str, fits, sent_payload payload filled.buffer _ _ h4 ∙ ap c_string same)

deps_joined :
    (x : ℤ) (xs : List ℤ) (deps : Bytes)
    → get_deps_str append_deps_size (x ∷ xs) ≡ ok deps
    → (deps ≡ joined (x ∷ xs)) × (length (joined (x ∷ xs)) ≤ buffer_size)
deps_joined x xs deps h = ground (arith, get_deps_str-joined append_deps_size x xs)

datagram_overflows :
    (malloc : Bool) (sender_dep : List ℤ) (c r : Client) (x : ℤ) (xs : List ℤ) (t payload : Bytes)
    → length (x ∷ xs) ≡ max_group_size
    → length (joined (x ∷ xs)) ≤ buffer_size
    → All IsPlain t
    → length (group_message c (joined (x ∷ xs)) (t ++ newline ∷ [])) ≤ buffer_size
    → payload
      ≡ c_string (overlay (group_message c (joined (x ∷ xs)) (t ++ newline ∷ [])) filled_with_x)
    → handle_group_receive malloc true sender_dep (some payload) r ≡ err out_of_range
datagram_overflows malloc sender_dep c r x xs t payload ten short plain fits sent =
    let text = group_message-clean_text c (joined (x ∷ xs)) t in
    let clean =
      clean_text-IsText c (joined (x ∷ xs)) t (IsPlain-IsText _ (joined-IsPlain x xs)) plain in
    take_in-heard malloc sender_dep payload r (clean_text c (joined (x ∷ xs)) t) (
      rw (sent, text)
        (receive-datagram _ (newline ∷ []) filled_with_x r.buffer clean (rw text at fits)
          (omega arith)))
    ∙ take_in_overflows malloc sender_dep _ c x xs t ten short

-- A vector clock of ten numbers takes at least nineteen bytes, and the two receiving functions scan it
-- into an array of eleven. So whatever line a client sends to the group, no client of the same program
-- receives the message: the first `sscanf` writes past its array.
pub multicast_overflows :
    (c c' r : Client) (t payload : Bytes) (malloc : Bool) (sender_dep : List ℤ)
    → length c.delivery.delivered ≡ max_group_size
    → All IsPlain t
    → send_multicast c (t ++ newline ∷ []) ≡ ok (multicast payload, c')
    → handle_group_receive malloc true sender_dep (some payload) r ≡ err out_of_range
multicast_overflows c c' r t payload malloc sender_dep ten plain h =
    let (dependency, deps, own, str, fits, sent) =
      send_multicast_parts c c' (t ++ newline ∷ []) payload h in
    split dependency deps (own_dependency-length c dependency own ∙ ten) str fits sent
  where
    split :
        (dependency : List ℤ) (deps : Bytes)
        → length dependency ≡ max_group_size
        → get_deps_str append_deps_size dependency ≡ ok deps
        → length (group_message c deps (t ++ newline ∷ [])) ≤ buffer_size
        → payload ≡ c_string (overlay (group_message c deps (t ++ newline ∷ [])) filled_with_x)
        → handle_group_receive malloc true sender_dep (some payload) r ≡ err out_of_range
    split [] deps ten' str fits sent = absurd (omega arith)
    split (x ∷ xs) deps ten' str fits sent =
        let (same, short) = deps_joined x xs deps str in
        datagram_overflows malloc sender_dep c r x xs t payload ten' short plain (rw same at fits)
          (rw same at sent)
