-- ===== src/GroupChat/Receive.antt =====
-- What `handle_group_receive` makes of a datagram.
use ds_project.Base.{
  ap, sym, Result, err, null_pointer, ℕ, ◌<◌, ◌≡◌, refl, true, List, [], ◌∷◌, ◌++◌, some, none, ok,
  ◌>>=◌, ℤ, arith, length, take, ◌∙◌,
}
use ds_project.Text.{Value, Bytes, num, txt, scan}
use ds_project.Frame.{buffer_size, overlay, c_string, clear_message}
use ds_project.Deps.{get_deps_int}
use ds_project.HoldBack.{HoldBackQueue, Delivery, arrive, arrive_step, deliver_loop}
use ds_project.GroupChat.{
  store_deps, append_deps_size, Client, group_format, stored_deps, five_values, receive_deps_size,
  append_to_holdback_queue, deliver_messages, drop_queue, take_in, handle_group_receive,
}

-- The buffer after a datagram, and the message that it then holds.
abbrev pub heard : Client → Bytes → Client
heard c payload = record c { buffer = overlay (take buffer_size payload) c.buffer }

store_deps_fits :
    (size : ℕ) (vs : List Value) → length (stored_deps vs) < size → store_deps size vs ≡ ok tt
store_deps_fits size vs h = ground arith

append_five :
    (sender_dep : List ℤ) (queue : List HoldBackQueue) (clean : Bytes) (sender clk : ℤ)
    (deps : Bytes) (dependency : List ℤ)
    → store_deps append_deps_size (scan group_format clean) ≡ ok tt
    → five_values (scan group_format clean) ≡ some (sender, clk, deps)
    → get_deps_int deps sender_dep ≡ ok dependency
    → append_to_holdback_queue true sender_dep queue clean
      ≡ ok (
          queue
          ++ record { id = sender; clk_index = clk; content = clean; dependency = dependency } ∷ [])
unfolding append_to_holdback_queue
append_five sender_dep queue clean sender clk deps dependency fits five read =
    rw (fits, five, read) refl

append_none :
    (sender_dep : List ℤ) (queue : List HoldBackQueue) (clean : Bytes)
    → store_deps append_deps_size (scan group_format clean) ≡ ok tt
    → five_values (scan group_format clean) ≡ none
    → append_to_holdback_queue true sender_dep queue clean ≡ ok queue
unfolding append_to_holdback_queue
append_none sender_dep queue clean fits five = rw (fits, five) refl

deliver_none :
    (s : Delivery) (clean : Bytes)
    → store_deps receive_deps_size (scan group_format clean) ≡ ok tt
    → five_values (scan group_format clean) ≡ none
    → deliver_messages s clean ≡ ok (record s { queue = [] })
unfolding deliver_messages
deliver_none s clean fits five = rw (fits, five) refl

deliver_five :
    (s : Delivery) (m : HoldBackQueue) (clean : Bytes) (sender clk : ℤ) (deps : Bytes)
    → store_deps receive_deps_size (scan group_format clean) ≡ ok tt
    → five_values (scan group_format clean) ≡ some (sender, clk, deps)
    → deliver_messages (record s { queue = s.queue ++ m ∷ [] }) clean ≡ arrive s m
unfolding deliver_messages
deliver_five s m clean sender clk deps fits five =
    rw (fits, five) (nonempty s.queue ∙ sym (arrive_step s m))
  where
    nonempty :
        (q : List HoldBackQueue)
        → elim (q ++ m ∷ []) as (λ l. Result Delivery) [
          | [] ↦ err null_pointer
          | n ∷ rest ↦ deliver_loop (q ++ m ∷ []) (record s { queue = q ++ m ∷ [] })
        ]
          ≡ deliver_loop (q ++ m ∷ []) (record s { queue = q ++ m ∷ [] })
    nonempty [] = refl
    nonempty (n ∷ rest) = refl

module _ (sender_dep : List ℤ) (payload : Bytes) (c : Client) (clean : Bytes)
    (cleared : clear_message (c_string (heard c payload).buffer) ≡ some clean) where
  take_in-heard :
      handle_group_receive true true sender_dep (some payload) c
      ≡ take_in true sender_dep (heard c payload) clean
  unfolding handle_group_receive
  take_in-heard = rw (cleared, handle_group_receive) refl

  -- A datagram that holds a group message, with a vector clock of at most ten bytes of text that names
  -- no more numbers than the array takes, is one arrival at the hold-back queue: the entry holds the
  -- sender, its clock index, the whole text and the clock, it is linked last, and the loop delivers
  -- what it can.
  pub handle_group_receive-arrive :
      (group sender clk : ℤ) (deps content : Bytes) (dependency : List ℤ)
      → scan group_format clean ≡ num group ∷ num sender ∷ num clk ∷ txt deps ∷ txt content ∷ []
      → length deps < receive_deps_size
      → get_deps_int deps sender_dep ≡ ok dependency
      → handle_group_receive true true sender_dep (some payload) c ≡ (
          arrive c.delivery
            (record { id = sender; clk_index = clk; content = clean; dependency = dependency })
          >>= λ delivery. ok (record (heard c payload) { delivery = delivery }))
  unfolding take_in
  handle_group_receive-arrive group sender clk deps content dependency scanned short read =
      let fits = λ (size : ℕ) (h : length deps < size).
        store_deps_fits size (scan group_format clean) (rw scanned h) in
      let five = ap five_values scanned in
      take_in-heard
      ∙ rw
          (
            fits receive_deps_size short,
            append_five sender_dep c.delivery.queue clean sender clk deps dependency
                (fits append_deps_size (omega arith)) five read,
            deliver_five c.delivery _ clean sender clk deps (fits receive_deps_size short) five,
          )
          refl

  -- A datagram that is no group message empties the queue, if what it has for a vector clock fits.
  pub handle_group_receive_drops :
      five_values (scan group_format clean) ≡ none
      → length (stored_deps (scan group_format clean)) < receive_deps_size
      → handle_group_receive true true sender_dep (some payload) c
        ≡ ok (drop_queue (heard c payload))
  unfolding take_in
  handle_group_receive_drops no_five short =
      let fits = λ (size : ℕ) (h : 10 < size).
        store_deps_fits size (scan group_format clean) (omega arith) in
      take_in-heard
      ∙ rw
          (
            fits receive_deps_size (omega arith),
            append_none sender_dep c.delivery.queue clean (fits append_deps_size (omega arith))
                no_five,
            deliver_none c.delivery clean (fits receive_deps_size (omega arith)) no_five,
          )
          refl
