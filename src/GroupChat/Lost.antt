-- ===== src/GroupChat/Lost.antt =====
-- What a datagram that is no group message does to the messages that are held back
-- (`handle_group_receive` of chat-c/client/group.c, `deliver_messages` of chat-c/client/client_s.c).
use ds_project.Base.{◌≡◌, ◌<◌, ◌∙◌, refl, ap, true, List, [], ◌∷◌, some, none, ok, ◌>>=◌, ℤ, length}
use ds_project.Text.{Bytes, num, txt, scan}
use ds_project.Frame.{c_string, clear_message}
use ds_project.Deps.{get_deps_int}
use ds_project.HoldBack.{HoldBackQueue, array_compare, bump}
use ds_project.HoldBack.Blocked.{arrive_alone}
use ds_project.GroupChat.{
  Client, group_format, stored_deps, five_values, receive_deps_size, drop_queue,
  handle_group_receive,
}
use ds_project.GroupChat.Receive.{heard, handle_group_receive-arrive, handle_group_receive_drops}

-- A datagram that is no group message loses all messages that are held back. Whatever waited, a
-- group message that arrives next and depends on nothing that is missing is delivered at once, and
-- is the only one: afterwards nothing waits, and of the messages that were held back none is
-- delivered by the two. The text of the first datagram gives no five values, and what it has for a
-- vector clock is shorter than the 11 bytes of the array; that of the second is a group message
-- with a clock of at most ten bytes, and its index is one of the array DELIVERED. The senders'
-- addresses resolve, and there is memory.
pub handle_group_receive_loses :
    (sender_dep : List ℤ) (garbage payload : Bytes) (c : Client) (noise clean : Bytes)
    (group sender clk : ℤ) (deps content : Bytes) (dependency delivered : List ℤ)
    → clear_message (c_string (heard c garbage).buffer) ≡ some noise
    → five_values (scan group_format noise) ≡ none
    → length (stored_deps (scan group_format noise)) < receive_deps_size
    → clear_message (c_string (heard (heard c garbage) payload).buffer) ≡ some clean
    → scan group_format clean ≡ num group ∷ num sender ∷ num clk ∷ txt deps ∷ txt content ∷ []
    → length deps < receive_deps_size
    → get_deps_int deps sender_dep ≡ ok dependency
    → array_compare dependency c.delivery.delivered ≡ 0
    → bump c.delivery.delivered clk ≡ ok delivered
    → let m : HoldBackQueue = record {
      id = sender;
      clk_index = clk;
      content = clean;
      dependency = dependency;
    } in
      (handle_group_receive true true sender_dep (some garbage) c
        >>= handle_group_receive true true sender_dep (some payload))
      ≡ ok (record (heard (heard c garbage) payload) {
        delivery = record { queue = []; delivered = delivered; log = m ∷ c.delivery.log };
      })
handle_group_receive_loses sender_dep garbage payload c noise clean group sender clk deps content
      dependency delivered noise_cleared no_five no_deps cleared scanned short read free counted =
    let emptied = drop_queue (heard c garbage) in
    let m : HoldBackQueue = record {
      id = sender;
      clk_index = clk;
      content = clean;
      dependency = dependency;
    } in
    ap (λ r. r >>= handle_group_receive true true sender_dep (some payload))
      (handle_group_receive_drops sender_dep garbage c noise noise_cleared no_five no_deps)
    ∙ handle_group_receive-arrive sender_dep payload emptied clean cleared group sender clk deps
        content dependency scanned short read
    ∙ ap (λ r. r >>= λ delivery. ok (record (heard emptied payload) { delivery = delivery }))
        (arrive_alone emptied.delivery m delivered refl free counted)
