-- ===== src/ChatClient/Keeps/Loop.antt =====
-- What a chat client keeps in its loop and at its end (chat-c/client/client_s.c).
use ds_project.Base.{List, [], ◌∷◌, Option, none, some, Result, ok, err, ℤ, IfOk, not}
use ds_project.Text.{Bytes}
use ds_project.GroupChat.{
  Client, Action, quit, idle, switch_mode, unicast, multicast, handle_group_receive,
  handle_user_input,
}
use ds_project.GroupChat.Counted.{
  IsSane, SaneAction, handle_group_receive-IsSane, handle_user_input-IsSane,
}
use ds_project.ChatClient.{Host, Chat, M, ◌>>=◌, ◌>>◌, return, lift, change_client}
use ds_project.ChatClient.Sockets.{group_multicast}
use ds_project.ChatClient.Loop.{
  Round, Next, again, leave, failed, Datagram, hear_group, hear_server, act, read_line, chat_round,
  chat_loop, finish,
}
use ds_project.ChatClient.Sane.{
  EndsSane, ends, stops, either, bound_to, Keeps, group_multicast-Keeps,
}

hear_group-Keeps : (d : Option Datagram) → Keeps (hear_group d)
unfolding hear_group
hear_group-Keeps none s h = ends h
hear_group-Keeps (some d) s h =
    heard (handle_group_receive d.malloc d.named d.sender_dep d.received s.client)
      (handle_group_receive-IsSane d.malloc d.named d.sender_dep d.received s.client h)
  where
    heard :
        (r : Result Client) → IfOk IsSane r → EndsSane ((lift r >>= λ c. change_client (λ _. c)) s)
    heard (ok c) k = ends k
    heard (err e) k = stops

hear_server-Keeps : (received : Option (Option Bytes)) → Keeps (hear_server received)
unfolding hear_server
hear_server-Keeps none s h = ends h
hear_server-Keeps (some none) s h = ends h
hear_server-Keeps (some (some [])) s h = ends h
hear_server-Keeps (some (some (c ∷ payload))) s h =
    ends (record { two = h.two; counted = h.counted })

module _ (host : Host) (group_socket socket_peer : ℤ) where
  act-Keeps : (a : Action) → Keeps (act host group_socket socket_peer a)
  unfolding act
  act-Keeps quit s h = ends h
  act-Keeps idle s h = ends h
  act-Keeps switch_mode s h = ends h
  act-Keeps (unicast bytes) s h = ends h
  act-Keeps (multicast bytes) s h =
      bound_to (group_multicast host group_socket s.group_ip s.group_port bytes s) _
        (group_multicast-Keeps host group_socket s.group_ip s.group_port bytes s h) λ r hr. ends hr

  read_line-Keeps :
      (line : Option (Option Bytes)) → Keeps (read_line host group_socket socket_peer line)
  unfolding read_line
  read_line-Keeps none s h = ends h
  read_line-Keeps (some line) s h =
      heard (handle_user_input line s.client) (handle_user_input-IsSane line s.client h)
    where
      heard :
          (r : Result (Action × Client))
          → IfOk SaneAction r
          → EndsSane (
              (lift r >>= λ q. change_client (λ _. q.1) >> act host group_socket socket_peer q.0) s)
      heard (ok q) k = act-Keeps q.0 (record s { client = q.1 }) k
      heard (err e) k = stops

  chat_round-Keeps : (r : Round) → Keeps (chat_round host group_socket socket_peer r)
  unfolding chat_round
  chat_round-Keeps r s h = either (not r.selected) _ _ s (ends h) (
      bound_to (hear_group r.group s) _ (hear_group-Keeps r.group s h) λ g hg.
        bound_to (hear_server r.server g.1) _ (hear_server-Keeps r.server g.1 hg)
          λ o ho. either o.0 _ _ o.1 (read_line-Keeps r.line o.1 ho) (ends ho))

  pub chat_loop-Keeps :
      (rounds : List Round) → Keeps (chat_loop host group_socket socket_peer rounds)
  unfolding chat_loop
  chat_loop-Keeps [] s h = ends h
  chat_loop-Keeps (r ∷ rounds) s h =
      bound_to (chat_round host group_socket socket_peer r s) _ (chat_round-Keeps r s h)
        λ q hq. followed q.0 q.1 hq (chat_loop-Keeps rounds)
    where
      followed :
          (next : Next) (t : Chat)
          → IsSane t.client
          → Keeps (chat_loop host group_socket socket_peer rounds)
          → EndsSane (
              elim next as (λ _. M Next) [
                | again ↦ chat_loop host group_socket socket_peer rounds
                | leave ↦ return leave
                | failed ↦ return failed
              ]
                t)
      followed again t k rest = rest t k
      followed leave t k rest = ends k
      followed failed t k rest = ends k

  pub finish-Keeps : (next : Next) → Keeps (finish host group_socket socket_peer next)
  unfolding finish
  finish-Keeps again s h = ends h
  finish-Keeps leave s h = ends h
  finish-Keeps failed s h = ends h
