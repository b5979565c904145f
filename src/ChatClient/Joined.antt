-- ===== src/ChatClient/Joined.antt =====
-- A chat client comes to its loop, in the group that the server named.
use ds_project.Base.{
  ◌≡◌, ◌<◌, ◌≤◌, ◌∙◌, ap, sym, ◌∷◌, ◌++◌, append_assoc, some, ok, ℤ, length, All, subst,
}
use ds_project.Text.{Bytes, print_int}
use ds_project.Frame.{buffer_size, overlay, filled_with_x}
use ds_project.Frame.RoundTrip.{IsPlain, end_mark}
use ds_project.Peers.{ServerInfo}
use ds_project.Clients.{index_message}
use ds_project.Joining.{client_text}
use ds_project.SocketChanges.Understood.{IsAddress}
use ds_project.ChatClient.{Host, Chat, sent, ◌>>=◌}
use ds_project.ChatClient.Start.{
  service_multicast_ip, service_multicast_port, index_request, running, get_service_info_mcast,
  start,
}
use ds_project.ChatClient.Calls.{Works, reaching}
use ds_project.ChatClient.Started.{
  with_heard, announcing, leader_call, accepted, answered, get_service_info_mcast_lem,
}
use ds_project.ChatClient.Texts.{service_read, client_text_parts, service_read-IsText}
use ds_project.ChatClient.Called.{requested, in_chat, call_server_lem}

-- On a host on which every call succeeds, a client that is started with an address of less than 16
-- bytes and a port of less than 6 comes to its loop, if the leader connects to it and sends the text by
-- which it answers a client, and the server that the leader names, itself, answers the request with a
-- place in the vector clocks, each text with whatever stands behind it in its 256 bytes. The client
-- has the ID that the leader gave it and the index of the answer; it has announced itself to the
-- group of the servers, left that group, been called, sent its request of 256 bytes to the leader's
-- address and port, and joined the group that the answer names; its mode, its counter and its
-- messages are untouched, and it watches the server, the group and its input. The leader's address has
-- 1 to 15 bytes, no colon, newline or zero byte, its port at most 5, and the request fits the buffer.
pub start-joined :
    (host : Host) (works : Works host) (s : Chat) (ip port : Bytes) (id : ℤ) (head : ServerInfo)
    (index : ℤ) (u v : Bytes)
    → length ip < 16
    → length port < 6
    → IsAddress head.addr
    → All IsPlain head.addr
    → length (print_int head.port) < 6
    → length (index_request id) < buffer_size
    → length (client_text id head ++ u) ≤ buffer_size
    → length (index_message index ++ v) ≤ buffer_size
    → (let t = announcing host ip port s.trace in
        host.recv (accepted host ip port t) (leader_call host ip port t)
        ≡ some (client_text id head ++ u))
    → (let t = answered host ip port (announcing host ip port s.trace) in
        host.recv
          (sent (host.socket t) (overlay (index_request id) filled_with_x)
            ∷ reaching host head.addr (print_int head.port) t)
          (host.socket t)
        ≡ some (index_message index ++ v))
    → (let told =
          with_heard
            (client_text id head ++ u)
            (answered host ip port (announcing host ip port s.trace))
            s in
        start host ip port s
        ≡ ok (
          running (host.socket (requested host told id head)) (host.socket told.trace),
          in_chat host told id head index v,
        ))
unfolding start
start-joined host works s ip port id head index u v ip_fits port_fits addressed plain port_short
      request_fits service_fits index_fits heard index_heard =
    let parts : client_text id head ++ u ≡ service_read id head ++ (end_mark ++ u) =
      ap (λ x. x ++ u) (client_text_parts id head)
      ∙ append_assoc (service_read id head) end_mark u in
    let calls = answered host ip port (announcing host ip port s.trace) in
    let told = with_heard (client_text id head ++ u) calls s in
    let got : get_service_info_mcast host service_multicast_ip service_multicast_port ip port s
        ≡ ok (some (service_read id head), told) =
      get_service_info_mcast_lem host works s ip port (service_read id head) u ip_fits port_fits
        (service_read-IsText id head plain) (subst (λ x. length x ≤ buffer_size) parts service_fits)
        (heard ∙ ap some parts)
      ∙ ap (λ x. ok (some (service_read id head), with_heard x calls s)) (sym parts) in
    rw (start, ◌>>=◌, got)
      (call_server_lem host works told id head index v addressed port_short request_fits index_fits
        index_heard)
