-- ===== src/GroupChat.antt =====
-- Group messages between the chat clients: what `main` of chat-c/client/client_s.c does with a line
-- that the user enters, and how a message is received (`handle_group_receive` of
-- chat-c/client/group.c, `append_to_holdback_queue` of chat-c/client/data_structure.c,
-- `deliver_messages` of chat-c/client/client_s.c).
pub mod Receive
pub mod Lost
pub mod CleanText
pub mod Overflow
pub mod Counted
mod Tests
use ds_project.Base.{
  ℕ, zero, suc, Bool, true, false, not, ◌&&◌, ◌||◌, List, [], ◌∷◌, ◌++◌, Option, none, some, Result,
  ok, err, null_pointer, out_of_range, ◌>>=◌, ◌>>◌, ℤ, pos, ltb, leb, ◌==◌, if◌then◌else◌, length,
  set, take, get_elem?, replicate,
}
use ds_project.Text.{Bytes, codes, Directive, space, int, word, lits, Value, num, txt, scan, print}
use ds_project.Frame.{
  buffer_size, overlay, filled_with_zero, pad_message, sprintf_into, c_string, clear_message,
}
use ds_project.Deps.{get_deps_str, get_deps_int}
use ds_project.HoldBack.{
  HoldBackQueue, Delivery, deliver_loop, max_group_size, increment, index, in_range, array_compare,
}

-- The globals of client_s.c, and `bufferHead` of its `main` with the messages that were delivered.
pub record Client : Type 0 where
  pub mode : ℕ
  pub group_id : ℤ
  pub self_id : ℤ
  pub clk_index : ℤ
  pub send_seq : ℤ
  pub buffer : Bytes
  pub delivery : Delivery

-- The format of a group message, up to the vector clock and whole. A `%s` takes at most the 255
-- bytes that a message has.
abbrev pub head_format : List Directive
head_format =
    lits "\n\tGROUP_ID:"
    ++ (int
        ∷ (lits "\n\tSENDER_ID:"
            ++ (int
                ∷ (lits "\n\tSENDER_CLK_INDEX:"
                    ++ (int ∷ (lits "\n\tDEPS:" ++ (word buffer_size ∷ [])))))))

abbrev pub tail_format : List Directive
tail_format = lits "\n\tMESSAGE:" ++ (word buffer_size ∷ [])

abbrev pub group_format : List Directive
group_format = head_format ++ tail_format

-- The text that `%s` behind `DEPS:` stored, also where the scan ended later.
abbrev pub stored_deps : List Value → Bytes
stored_deps (a ∷ b ∷ c ∷ txt deps ∷ rest) = deps
stored_deps _ = []

-- `%s` into an array of `size` bytes: the text and its terminator must fit.
abbrev pub store_deps : ℕ → List Value → Result (Unit {0})
store_deps size vs = if ltb (length (stored_deps vs)) size then ok tt else err out_of_range

-- `sscanf(…) != 5`, and the three values that are used.
abbrev pub five_values : List Value → Option (ℤ × ℤ × Bytes)
five_values (num group ∷ num sender ∷ num clk ∷ txt deps ∷ txt content ∷ []) =
    some (sender, clk, deps)
five_values _ = none

-- The arrays `sender_dep_str[MAX_GROUP_SIZE * 5]` and `sender_dep_str[MAX_GROUP_SIZE+1]`.
abbrev pub append_deps_size : ℕ
append_deps_size = 50

abbrev pub receive_deps_size : ℕ
receive_deps_size = 11

-- `sender_dep` is what the uninitialised array `int sender_dep[MAX_GROUP_SIZE]` holds.
pub append_to_holdback_queue :
    (malloc : Bool) (sender_dep : List ℤ) → List HoldBackQueue → Bytes → Result (List HoldBackQueue)
append_to_holdback_queue malloc sender_dep head clean_message =
    if not malloc
    then ok head
    else (store_deps append_deps_size (scan group_format clean_message)
        >> elim (five_values (scan group_format clean_message)) [
          | none ↦ ok head
          | some v ↦ get_deps_int v.2 sender_dep >>= λ dependency. ok (
              head
              ++ record {
                id = v.0;
                clk_index = v.1;
                content = clean_message;
                dependency = dependency;
              }
                ∷ [])
        ])

-- A message that does not scan makes it return NULL, and the caller's queue is gone.
pub deliver_messages : Delivery → Bytes → Result Delivery
deliver_messages s clean_message =
    store_deps receive_deps_size (scan group_format clean_message)
    >> elim (five_values (scan group_format clean_message)) [
      | none ↦ ok (record s { queue = [] })
      | some v ↦ elim s.queue [ [] ↦ err null_pointer | m ∷ rest ↦ deliver_loop s.queue s ]
    ]

abbrev pub drop_queue : Client → Client
drop_queue c = record c { delivery = record c.delivery { queue = [] } }

-- What follows `clear_message`.
pub take_in : (malloc : Bool) (sender_dep : List ℤ) → Client → Bytes → Result Client
take_in malloc sender_dep c clean_message =
    store_deps receive_deps_size (scan group_format clean_message)
    >> (append_to_holdback_queue malloc sender_dep c.delivery.queue clean_message >>= λ queue.
        deliver_messages (record c.delivery { queue = queue }) clean_message >>= λ delivery.
        ok (record c { delivery = delivery }))

-- `received` is what `recvfrom` gives, `none` for -1; `named` tells whether `getnameinfo` returns 0.
-- Each `return(0)` leaves the caller with an empty queue.
unfoldable pub handle_group_receive :
    (malloc named : Bool) (sender_dep : List ℤ) (received : Option Bytes) → Client → Result Client
unfolding take_in
handle_group_receive malloc named sender_dep none c = ok (drop_queue c)
handle_group_receive malloc named sender_dep (some payload) c =
    let heard = record c { buffer = overlay (take buffer_size payload) c.buffer } in
    if not named then ok (drop_queue heard) else elim (clear_message (c_string heard.buffer)) [
      | none ↦ ok (drop_queue heard)
      | some clean_message ↦ take_in malloc sender_dep heard clean_message
    ]

-- What the program does with a line: it ends, does nothing, changes the mode, or sends 255 bytes to the server
-- or to the group.
pub data Action : Type 0 where
  quit : Action
  idle : Action
  switch_mode : Action
  unicast : Bytes → Action
  multicast : Bytes → Action

-- The vector clock that a message carries: DELIVERED, with the number of own messages sent before.
unfoldable pub own_dependency : Client → Result (List ℤ)
own_dependency c = index c.clk_index >>= λ k. in_range (get_elem? c.delivery.delivered k) >>= λ old.
    ok (set c.delivery.delivered k c.send_seq)

-- The text of a group message.
abbrev pub group_message : Client → Bytes → Bytes → Bytes
group_message c deps user_input =
    print group_format
      (num c.group_id ∷ num c.self_id ∷ num c.clk_index ∷ txt deps ∷ txt user_input ∷ [])
    ++ codes "\n\n"

-- A message is printed into `message`, and copied from there into `Buffer`.
unfoldable pub fill_buffer : Client → Bytes → Result Client
fill_buffer c text = sprintf_into filled_with_zero text >>= λ message.
    pad_message text >>= λ buffer. ok (record c { buffer = buffer })

unfoldable pub send_multicast : Client → Bytes → Result (Action × Client)
send_multicast c user_input = own_dependency c >>= λ dependency.
    get_deps_str append_deps_size dependency >>= λ deps.
    fill_buffer c (group_message c deps user_input) >>= λ filled. increment c.send_seq >>= λ seq.
    ok (multicast (c_string filled.buffer), record filled { send_seq = seq })

unfoldable pub send_unicast : Client → Bytes → Result (Action × Client)
send_unicast c user_input =
    fill_buffer c (
      print (lits "CLIENT:" ++ (int ∷ lits ":")) (num c.self_id ∷ [])
      ++ (user_input ++ codes "\n\n"))
    >>= λ filled. ok (unicast (c_string filled.buffer), filled)

-- A line of one character, which is the given digit.
abbrev is_switch : ℕ → Bytes → Bool
is_switch digit (c ∷ d ∷ []) = c == digit
is_switch digit _ = false

-- `line` is what `fgets` gives, `none` for NULL.
unfoldable pub handle_user_input : Option Bytes → Client → Result (Action × Client)
handle_user_input none c = ok (quit, c)
handle_user_input (some user_input) c =
    if leb (length user_input) 1
    then ok (quit, c)
    else if c.mode == 0
    then (if is_switch b'1' user_input
        then ok (switch_mode, record c { mode = 1 })
        else send_unicast c user_input)
    else if c.mode == 1
    then (if is_switch b'0' user_input
        then ok (switch_mode, record c { mode = 0 })
        else send_multicast c user_input)
    else ok (idle, c)
