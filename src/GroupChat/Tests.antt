-- ===== src/GroupChat/Tests.antt =====
-- Group messages on concrete clients and datagrams.
use ds_project.Base.{
  ◌≡◌, refl, true, List, [], ◌∷◌, ◌++◌, replicate, some, ok, err, out_of_range, ◌>>=◌, ℤ, pos,
  arith, length, ◌-◌, set,
}
use ds_project.Text.{
  Bytes, codes, num, txt, scan, scan_text, print, print_int, scan_int, skip_space,
}
use ds_project.Frame.{
  filled_with_zero, overlay, c_string, clear_message, filled_with_x, pad_message, sprintf_into,
  newline,
}
use ds_project.Deps.{get_deps_int, get_deps_str, atoi}
use ds_project.HoldBack.{HoldBackQueue, arrive, array_compare, bump, nothing_delivered}
use ds_project.Frame.RoundTrip.{is_plain-IsPlain}
use ds_project.GroupChat.{
  Client, multicast, group_format, handle_group_receive, send_multicast, fill_buffer,
  own_dependency,
}
use ds_project.GroupChat.Receive.{heard, handle_group_receive-arrive}
use ds_project.GroupChat.Lost.{handle_group_receive_loses}
use ds_project.GroupChat.Overflow.{multicast_overflows}

-- The third member of group 1, at the start.
abbrev member : Client
member = record {
  mode = 1;
  group_id = pos 1;
  self_id = pos 7;
  clk_index = pos 2;
  send_seq = pos 0;
  buffer = filled_with_zero;
  delivery = nothing_delivered;
}

-- The text of a message with a vector clock of three entries.
abbrev short_text : Bytes
short_text = codes "\n\tGROUP_ID:1\n\tSENDER_ID:7\n\tSENDER_CLK_INDEX:2\n\tDEPS:0,0,0\n\tMESSAGE:hi"

abbrev garbage : Bytes
garbage = codes "hello"

abbrev datagram : Bytes → Bytes
datagram t = t ++ newline ∷ newline ∷ []

-- The uninitialised array of the receiver.
abbrev rubbish : List ℤ
rubbish = replicate 10 (pos 0)

short_cleared :
    clear_message (c_string (heard member (datagram short_text)).buffer) ≡ some short_text
unfolding clear_message c_string overlay
short_cleared = refl

short_scanned :
    scan group_format short_text
    ≡ num (pos 1) ∷ num (pos 7) ∷ num (pos 2) ∷ txt (codes "0,0,0") ∷ txt (codes "hi") ∷ []
unfolding scan skip_space scan_int scan_text
short_scanned = refl

short_deps : get_deps_int (codes "0,0,0") rubbish ≡ ok rubbish
unfolding get_deps_int atoi scan_int skip_space
short_deps = refl

handle_group_receive-arrive_example :
    handle_group_receive true true rubbish (some (datagram short_text)) member ≡ (
      arrive nothing_delivered
        (record { id = pos 7; clk_index = pos 2; content = short_text; dependency = rubbish })
      >>= λ delivery. ok (record (heard member (datagram short_text)) { delivery = delivery }))
handle_group_receive-arrive_example =
    handle_group_receive-arrive rubbish (datagram short_text) member short_text short_cleared
      (pos 1) (pos 7) (pos 2) (codes "0,0,0") (codes "hi") rubbish short_scanned (omega arith)
      short_deps

garbage_scanned : scan group_format garbage ≡ []
unfolding scan skip_space
garbage_scanned = refl

-- A message that waits for one of the first member.
abbrev held : HoldBackQueue
held = record { id = pos 8; clk_index = pos 1; content = []; dependency = set rubbish 0 (pos 1) }

abbrev waiting : Client
waiting = record member { delivery = record nothing_delivered { queue = held ∷ [] } }

noise_read : clear_message (c_string (heard waiting (datagram garbage)).buffer) ≡ some garbage
unfolding clear_message c_string overlay
noise_read = refl

text_read :
    clear_message (c_string (heard (heard waiting (datagram garbage)) (datagram short_text)).buffer)
    ≡ some short_text
unfolding clear_message c_string overlay
text_read = refl

counted_once : bump rubbish (pos 2) ≡ ok (set rubbish 2 (pos 1))
unfolding bump
counted_once = refl

nothing_missing : array_compare rubbish rubbish ≡ 0
unfolding array_compare
nothing_missing = refl

-- The held message is neither delivered nor in the queue any more.
handle_group_receive_loses_example :
    let m : HoldBackQueue = record {
      id = pos 7;
      clk_index = pos 2;
      content = short_text;
      dependency = rubbish;
    } in
    (handle_group_receive true true rubbish (some (datagram garbage)) waiting
      >>= handle_group_receive true true rubbish (some (datagram short_text)))
    ≡ ok (record (heard (heard waiting (datagram garbage)) (datagram short_text)) {
      delivery = record { queue = []; delivered = set rubbish 2 (pos 1); log = m ∷ [] };
    })
handle_group_receive_loses_example =
    handle_group_receive_loses rubbish (datagram garbage) (datagram short_text) waiting garbage
      short_text (pos 1) (pos 7) (pos 2) (codes "0,0,0") (codes "hi") rubbish
      (set rubbish 2 (pos 1)) noise_read (rw garbage_scanned refl)
      (rw garbage_scanned (omega arith)) text_read short_scanned (omega arith) short_deps
      nothing_missing counted_once

-- What the member sends for the line `hi`.
abbrev hello_text : Bytes
hello_text =
    codes "\n\tGROUP_ID:1\n\tSENDER_ID:7\n\tSENDER_CLK_INDEX:2\n\tDEPS:0,0,0,0,0,0,0,0,0,0"
    ++ codes "\n\tMESSAGE:hi\n\n\n"

abbrev hello_payload : Bytes
hello_payload = hello_text ++ replicate (255 - length hello_text) b'x'

hello_sent :
    send_multicast member (codes "hi" ++ newline ∷ [])
    ≡ ok (
      multicast hello_payload,
      record member { buffer = overlay hello_text filled_with_x; send_seq = pos 1 },
    )
unfolding send_multicast own_dependency fill_buffer get_deps_str print print_int sprintf_into
    pad_message overlay c_string
hello_sent = refl

multicast_overflows_example :
    handle_group_receive true true rubbish (some hello_payload) member ≡ err out_of_range
multicast_overflows_example =
    multicast_overflows member
      (record member { buffer = overlay hello_text filled_with_x; send_seq = pos 1 }) member
      (codes "hi") hello_payload true rubbish refl (is_plain-IsPlain (codes "hi") refl) hello_sent
