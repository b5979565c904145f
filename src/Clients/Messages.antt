-- ===== src/Clients/Messages.antt =====
-- A message from a client to the whole group, at the server.
use mathlib.Core.List.{map, reverse}
use ds_project.Base.{
  ◌≡◌, refl, ap, sym, ◌∙◌, Bool-cases, inl, inr, false, List, [], ◌∷◌, ◌++◌, reverse-append, none,
  ok, ℤ, pos, ◌==ℤ◌, ==ℤ_refl, if◌then◌else◌,
}
use ds_project.Text.{Bytes, codes}
use ds_project.Frame.{sprintf_into}
use ds_project.Election.{same_bytes}
use ds_project.Server.Steps.{overprint_buffer_lem}
use ds_project.Server.{
  Env, Server, ClientInfo, Event, sent, M, ◌>>=◌, ◌>>◌, return, get_state, bind_ok,
  overprint_buffer,
}
use ds_project.Clients.{
  clients, find_client, group_text, send_to_others, send_to_client, handle_client_message,
}

-- The clients whose ID is another.
abbrev pub others : ℤ → List ClientInfo → List ClientInfo
others sender_id [] = []
others sender_id (c ∷ rest) =
    if c.id ==ℤ sender_id then others sender_id rest else c ∷ others sender_id rest

-- The sends of one buffer to the clients, newest first.
abbrev pub sends : Bytes → List ClientInfo → List Event
sends buffer l = reverse (map (λ c. sent c.socket buffer) l)

send_to_others_lem :
    (env : Env) (sender_id : ℤ) (l : List ClientInfo) (s : Server)
    → send_to_others env sender_id l s
      ≡ ok (tt, record s { trace = sends s.send_buf (others sender_id l) ++ s.trace })
unfolding send_to_others
send_to_others_lem env sender_id [] s = refl
send_to_others_lem env sender_id (c ∷ rest) s = elim (Bool-cases (c.id ==ℤ sender_id)) [
  | inl e ↦ rw e (send_to_others_lem env sender_id rest s)
  | inr e ↦ rw e (
      send_to_others_lem env sender_id rest
        (record s { trace = sent c.socket s.send_buf ∷ s.trace })
      ∙ ap (λ t. ok (tt, record s { trace = t }))
          (sym (
            reverse-append (sent c.socket s.send_buf)
              (map (λ d. sent d.socket s.send_buf) (others sender_id rest)) s.trace)))
]

send_to_nobody :
    (env : Env) (s : Server) (sender_id dest_id : ℤ) (message : Bytes)
    → find_client (λ c. c.id ==ℤ dest_id) 0 (clients s) ≡ none
    → send_to_client env sender_id dest_id message s ≡ ok (tt, s)
unfolding send_to_client
send_to_nobody env s sender_id dest_id message absent = rw (send_to_client, absent) refl

-- What `handle_client_message` does after the search for one client.
abbrev to_group : Env → ℤ → ℤ → Bytes → M ℤ
to_group env sender_id dest_id message = get_state >>= λ t.
    if dest_id ==ℤ t.group_id
    then overprint_buffer (group_text sender_id t.group_id message)
      >> send_to_others env sender_id (clients t)
      >> return (pos 1)
    else return (pos 0)

-- A message that is not GET_INDEX and goes to the number of the group, which is no client's ID, is
-- printed once, with its sender and its group, and sent, in the order of the table, to every client
-- but those with the sender's ID, if it fits the buffer; the answer is 1, and only the buffer and the
-- sends change.
pub handle_client_message_group :
    (env : Env) (s : Server) (sender_id : ℤ) (message : Bytes) (fd : ℤ) (buffer : Bytes)
    → same_bytes message (codes "GET_INDEX") ≡ false
    → find_client (λ c. c.id ==ℤ s.group_id) 0 (clients s) ≡ none
    → sprintf_into s.send_buf (group_text sender_id s.group_id message) ≡ ok buffer
    → handle_client_message env sender_id s.group_id message fd s
      ≡ ok (
        pos 1,
        record s {
          send_buf = buffer;
          trace = sends buffer (others sender_id (clients s)) ++ s.trace;
        },
      )
unfolding handle_client_message
handle_client_message_group env s sender_id message fd buffer no_index absent fits = rw no_index (
    bind_ok (send_to_client env sender_id s.group_id message)
      (λ _. to_group env sender_id s.group_id message) {s = s} {t = s}
      (send_to_nobody env s sender_id s.group_id message absent)
    ∙ rw (==ℤ_refl s.group_id) (
        bind_ok
          (overprint_buffer (group_text sender_id s.group_id message)
            >> send_to_others env sender_id (clients s))
          (λ _. return (pos 1)) {s = s}
          {t = record s {
            send_buf = buffer;
            trace = sends buffer (others sender_id (clients s)) ++ s.trace;
          }}
          (bind_ok (overprint_buffer (group_text sender_id s.group_id message))
              (λ _. send_to_others env sender_id (clients s)) {s = s}
              {t = record s { send_buf = buffer }} (overprint_buffer_lem _ buffer s fits)
            ∙ send_to_others_lem env sender_id (clients s) (record s { send_buf = buffer }))))
