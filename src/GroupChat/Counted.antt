-- ===== src/GroupChat/Counted.antt =====
-- What a client keeps through the messages that it receives and sends.
use ds_project.Base.{
  ◌≡◌, ◌≤◌, Bool, true, false, List, [], ◌∷◌, Option, none, some, Result, ok, err, ℤ, arith, IfOk,
  IfOk->>=, IfOk-ok, IfOk-if, take, null_pointer, leb, ◌==◌, length,
}
use ds_project.Text.{Bytes, scan}
use ds_project.Frame.{
  buffer_size, overlay, c_string, clear_message, pad_message, sprintf_into, filled_with_zero,
}
use ds_project.Deps.{get_deps_str}
use ds_project.HoldBack.{HoldBackQueue, Delivery, deliver_loop, increment}
use ds_project.HoldBack.Counted.{IsCounted, CountedEnd, deliver_loop-IsCounted}
use ds_project.GroupChat.{
  Client, Action, group_format, five_values, store_deps, receive_deps_size, append_deps_size,
  append_to_holdback_queue, deliver_messages, take_in, drop_queue, handle_group_receive,
  own_dependency, group_message, fill_buffer, send_multicast, send_unicast, is_switch,
  handle_user_input,
}

-- The client sends in one of two ways, and what it delivered is counted and in causal order.
pub record IsSane (c : Client) : Type 0 where
  pub two : c.mode ≤ 1
  pub counted : IsCounted c.delivery.delivered c.delivery.log

deliver_messages-IsCounted :
    (s : Delivery) (clean : Bytes)
    → IsCounted s.delivered s.log
    → IfOk CountedEnd (deliver_messages s clean)
unfolding deliver_messages
deliver_messages-IsCounted s clean h =
    IfOk->>= CountedEnd (store_deps receive_deps_size (scan group_format clean)) _
      λ _ _. after (five_values (scan group_format clean))
  where
    looped :
        (q : List HoldBackQueue)
        → IfOk CountedEnd (elim q as (λ _. Result Delivery) [
          | [] ↦ err null_pointer
          | m ∷ rest ↦ deliver_loop s.queue s
        ])
    looped [] = tt
    looped (m ∷ rest) = deliver_loop-IsCounted s h

    after :
        (o : Option (ℤ × ℤ × Bytes))
        → IfOk CountedEnd (elim o as (λ _. Result Delivery) [
          | none ↦ ok (record s { queue = [] })
          | some v ↦ elim s.queue as (λ _. Result Delivery) [
            | [] ↦ err null_pointer
            | m ∷ rest ↦ deliver_loop s.queue s
          ]
        ])
    after none = h
    after (some v) = looped s.queue

take_in-IsSane :
    (malloc : Bool) (sender_dep : List ℤ) (c : Client) (clean : Bytes)
    → IsSane c
    → IfOk IsSane (take_in malloc sender_dep c clean)
unfolding take_in
take_in-IsSane malloc sender_dep c clean h =
    IfOk->>= IsSane (store_deps receive_deps_size (scan group_format clean)) _ λ _ _.
      IfOk->>= IsSane (append_to_holdback_queue malloc sender_dep c.delivery.queue clean) _
        λ queue _.
          IfOk->>= IsSane (deliver_messages (record c.delivery { queue = queue }) clean) _
            λ delivery e. record {
              two = h.two;
              counted =
                  IfOk-ok CountedEnd (deliver_messages (record c.delivery { queue = queue }) clean)
                    delivery
                    (deliver_messages-IsCounted (record c.delivery { queue = queue }) clean
                      h.counted)
                    e;
            }

pub handle_group_receive-IsSane :
    (malloc named : Bool) (sender_dep : List ℤ) (received : Option Bytes) (c : Client)
    → IsSane c
    → IfOk IsSane (handle_group_receive malloc named sender_dep received c)
unfolding handle_group_receive
handle_group_receive-IsSane malloc named sender_dep none c h = record {
  two = h.two;
  counted = h.counted;
}
handle_group_receive-IsSane malloc false sender_dep (some payload) c h = record {
  two = h.two;
  counted = h.counted;
}
handle_group_receive-IsSane malloc true sender_dep (some payload) c h =
    cleared (clear_message (c_string (overlay (take buffer_size payload) c.buffer)))
  where
    heard : Client
    heard = record c { buffer = overlay (take buffer_size payload) c.buffer }

    cleared :
        (o : Option Bytes)
        → IfOk IsSane (elim o as (λ _. Result Client) [
          | none ↦ ok (drop_queue heard)
          | some clean ↦ take_in malloc sender_dep heard clean
        ])
    cleared none = record { two = h.two; counted = h.counted }
    cleared (some clean) =
        take_in-IsSane malloc sender_dep heard clean (record { two = h.two; counted = h.counted })

pub fill_buffer-IsSane : (c : Client) (text : Bytes) → IsSane c → IfOk IsSane (fill_buffer c text)
unfolding fill_buffer
fill_buffer-IsSane c text h = IfOk->>= IsSane (sprintf_into filled_with_zero text) _ λ _ _.
    IfOk->>= IsSane (pad_message text) _ λ buffer _. record { two = h.two; counted = h.counted }

-- What is asked for, with the client.
abbrev pub SaneAction : Action × Client → Type 0
SaneAction r = IsSane r.1

fill_ok : (c d : Client) (text : Bytes) → IsSane c → fill_buffer c text ≡ ok d → IsSane d
fill_ok c d text h e = IfOk-ok IsSane (fill_buffer c text) d (fill_buffer-IsSane c text h) e

send_multicast-IsSane :
    (c : Client) (line : Bytes) → IsSane c → IfOk SaneAction (send_multicast c line)
unfolding send_multicast
send_multicast-IsSane c line h = IfOk->>= SaneAction (own_dependency c) _ λ dependency _.
    IfOk->>= SaneAction (get_deps_str append_deps_size dependency) _ λ deps _.
      IfOk->>= SaneAction (fill_buffer c (group_message c deps line)) _ λ filled e.
        IfOk->>= SaneAction (increment c.send_seq) _ λ seq _.
          let sane = fill_ok c filled (group_message c deps line) h e in
          record { two = sane.two; counted = sane.counted }

send_unicast-IsSane : (c : Client) (line : Bytes) → IsSane c → IfOk SaneAction (send_unicast c line)
unfolding send_unicast
send_unicast-IsSane c line h =
    IfOk->>= SaneAction (fill_buffer c _) _ λ filled e. fill_ok c filled _ h e

pub handle_user_input-IsSane :
    (line : Option Bytes) (c : Client) → IsSane c → IfOk SaneAction (handle_user_input line c)
unfolding handle_user_input
handle_user_input-IsSane none c h = h
handle_user_input-IsSane (some line) c h = IfOk-if SaneAction (leb (length line) 1) _ _ h (
    IfOk-if SaneAction (c.mode == 0) _ _
      (IfOk-if SaneAction (is_switch b'1' line) _ _
        (record { two = omega arith; counted = h.counted }) (send_unicast-IsSane c line h))
      (IfOk-if SaneAction (c.mode == 1) _ _
        (IfOk-if SaneAction (is_switch b'0' line) _ _
          (record { two = omega arith; counted = h.counted }) (send_multicast-IsSane c line h))
        h))
