-- ===== src/ChatClient/Loop.antt =====
-- The loop of `main` of chat-c/client/client_s.c, and its end.
use ds_project.Base.{
  ℕ, Bool, true, false, List, [], ◌∷◌, Option, none, some, ok, ℤ, pos, if◌then◌else◌, not,
}
use ds_project.Text.{Bytes}
use ds_project.Frame.{filled_with_zero}
use ds_project.HoldBack.{nothing_delivered}
use ds_project.GroupChat.{
  Action, quit, idle, switch_mode, unicast, multicast, handle_group_receive, handle_user_input,
}
use ds_project.ChatClient.{Host, Chat, M, ◌>>=◌, ◌>>◌, return, lift, change_client, hear}
use ds_project.ChatClient.Sockets.{close_fd, send_fd, group_multicast}
use ds_project.ChatClient.Start.{gave_up, running, start}

-- What a datagram to the group meets: whether there is memory and a name for its sender, the array
-- that is not initialised, and what `recvfrom` gives.
pub record Datagram : Type 0 where
  pub malloc : Bool
  pub named : Bool
  pub sender_dep : List ℤ
  pub received : Option Bytes

-- What `select` reports, with what the reads that follow give. A field is `none` for what is not
-- ready; `recv` and `fgets` give `none` for -1 and for NULL.
pub record Round : Type 0 where
  pub selected : Bool
  pub group : Option Datagram
  pub server : Option (Option Bytes)
  pub line : Option (Option Bytes)

-- What follows a round: another, the end of the loop by `break`, or `return 1`.
pub data Next : Type 0 where
  again : Next
  leave : Next
  failed : Next

unfoldable pub hear_group : Option Datagram → M (Unit {0})
hear_group none = return tt
hear_group (some d) = λ s.
    (lift (handle_group_receive d.malloc d.named d.sender_dep d.received s.client) >>= λ c.
    change_client (λ _. c))
      s

-- False for the `break`. What was received is only printed.
unfoldable pub hear_server : Option (Option Bytes) → M Bool
hear_server none = return true
hear_server (some none) = return false
hear_server (some (some [])) = return false
hear_server (some (some (c ∷ payload))) = hear (c ∷ payload) >> return true

module _ (host : Host) (group_socket socket_peer : ℤ) where
  -- What was sent, or not, is only printed.
  unfoldable pub act : Action → M Next
  act quit = return leave
  act idle = return again
  act switch_mode = return again
  act (unicast bytes) = send_fd host socket_peer bytes >> return again
  act (multicast bytes) =
      (λ s. group_multicast host group_socket s.group_ip s.group_port bytes s) >> return again

  unfoldable pub read_line : Option (Option Bytes) → M Next
  read_line none = return again
  read_line (some line) =
      λ s. (lift (handle_user_input line s.client) >>= λ r. change_client (λ _. r.1) >> act r.0) s

  unfoldable pub chat_round : Round → M Next
  chat_round r =
      if not r.selected
      then return failed
      else (hear_group r.group
          >> (hear_server r.server >>= λ open_. if open_ then read_line r.line else return leave))

  -- The rounds until the loop ends, or all that are given.
  unfoldable pub chat_loop : List Round → M Next
  chat_loop [] s = ok (again, s)
  chat_loop (r ∷ rounds) s =
      (chat_round r >>= λ next. elim next [
        | again ↦ chat_loop rounds
        | leave ↦ return leave
        | failed ↦ return failed
      ])
        s

  -- The exit code, `none` while the loop goes on.
  unfoldable pub finish : Next → M (Option ℕ)
  finish again = return none
  finish failed = return (some 1)
  finish leave = close_fd host group_socket >> close_fd host socket_peer >> return (some 0)

-- The globals as the program starts.
abbrev pub globals : Chat
globals = record {
  client = record {
    mode = 0;
    group_id = pos 0;
    self_id = pos 0;
    clk_index = pos 0;
    send_seq = pos 0;
    buffer = filled_with_zero;
    delivery = nothing_delivered;
  };
  group_ip = [];
  group_port = [];
  master = [];
  trace = [];
}

unfoldable pub run : Host → Bytes → Bytes → List Round → M (Option ℕ)
run host ip port rounds = start host ip port >>= λ outset. elim outset [
  | gave_up code ↦ return (some code)
  | running group_socket socket_peer ↦
      chat_loop host group_socket socket_peer rounds >>= finish host group_socket socket_peer
]
