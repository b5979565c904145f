-- ===== src/ChatClient/Started.antt =====
-- The start of a chat client on a host on which every call succeeds.
use ds_project.Base.{
  ℕ, ◌≡◌, ◌<◌, ◌≤◌, refl, true, false, List, [], ◌∷◌, ◌++◌, some, ok, ℤ, pos, negsuc,
  is_valid_socket, error_return, ◌==ℤ◌, length, length-append, arith, take_all,
}
use ds_project.Text.{Bytes, print}
use ds_project.Frame.{newline, buffer_size, overlay, filled_with_x, filled_with_zero, c_string}
use ds_project.Frame.RoundTrip.{IsText, end_mark, receive-overlay}
use ds_project.ChatClient.{Call, Host, Chat, accepting, receiving, sent_to, closed, ◌>>=◌, ◌>>◌}
use ds_project.ChatClient.Start.{
  service_multicast_ip, service_multicast_port, copied, new_client_text, announce, await_leader,
  get_service_info_mcast,
}
use ds_project.ChatClient.Calls.{
  Works, joining, awaiting, join_multicast_lem, get_tcp_socket_lem, group_multicast_lem,
  put_message_fits,
}

valid_not_error : (fd : ℤ) → is_valid_socket fd ≡ true → (fd ==ℤ error_return) ≡ false
valid_not_error (pos n) h = ground arith
valid_not_error (negsuc n) h = cc

pub copied_fits : (size : ℕ) (text : Bytes) → length text < size → copied size text ≡ ok text
copied_fits size text h = ground arith

new_client_text_fits :
    (port : Bytes) → length port < 6 → length (new_client_text port) < buffer_size
unfolding print
new_client_text_fits port h = omega (arith, h, length-append port (newline ∷ newline ∷ []))

-- The state after a text has been received into `Buffer`, and after more calls.
abbrev pub with_heard : Bytes → List Call → Chat → Chat
with_heard payload t s = record s {
  client = record s.client { buffer = overlay payload filled_with_zero };
  trace = t;
}

module _ (host : Host) (ip port : Bytes) where
  -- The calls until the client has left the group again, and until the leader has answered.
  abbrev pub announcing : List Call → List Call
  announcing t =
      closed (host.socket t)
      ∷ sent_to (host.socket t) service_multicast_ip service_multicast_port
          (c_string (overlay (new_client_text port) filled_with_x))
      ∷ (joining host service_multicast_ip service_multicast_port t)

  -- The connection that the leader makes.
  abbrev pub leader_call : List Call → ℤ
  leader_call t = host.accept (awaiting host ip port t) (host.socket t)

  abbrev pub accepted : List Call → List Call
  accepted t = accepting (host.socket t) ∷ awaiting host ip port t

  abbrev pub answered : List Call → List Call
  answered t =
      closed (host.socket t) ∷ closed (leader_call t) ∷ receiving (leader_call t) ∷ accepted t

module _ (host : Host) (works : Works host) (s : Chat) (ip port clean u : Bytes) where
  -- The calls of the announcement.
  abbrev announced : List Call
  announced = announcing host ip port s.trace

  -- The state once the leader can call.
  abbrev waiting : Chat
  waiting = record s {
    client = record s.client { buffer = overlay (new_client_text port) filled_with_x };
    trace = awaiting host ip port announced;
  }

  announce_lem :
      length (new_client_text port) < buffer_size
      → announce host
          (host.socket s.trace)
          service_multicast_ip
          service_multicast_port
          port
          (record s { trace = joining host service_multicast_ip service_multicast_port s.trace })
        ≡ ok (tt, record waiting { trace = announced })
  unfolding announce
  announce_lem fits =
      let printed = record waiting {
        trace = joining host service_multicast_ip service_multicast_port s.trace;
      } in
      let (answer, went) =
        group_multicast_lem host works printed service_multicast_ip service_multicast_port
          (host.socket s.trace) (c_string (overlay (new_client_text port) filled_with_x)) in
      rw
        (
          announce,
          ◌>>◌,
          ◌>>=◌,
          put_message_fits
              (record s {
                trace = joining host service_multicast_ip service_multicast_port s.trace;
              })
              (new_client_text port) fits,
          went,
        )
        refl

  await_leader_lem :
      IsText clean
      → length (clean ++ (end_mark ++ u)) ≤ buffer_size
      → host.recv (accepted host ip port announced) (leader_call host ip port announced)
        ≡ some (clean ++ (end_mark ++ u))
      → await_leader host (host.socket announced) waiting
        ≡ ok (some clean, with_heard (clean ++ (end_mark ++ u)) (answered host ip port announced) s)
  unfolding await_leader
  await_leader_lem text fits heard =
      rw
        (
          ◌>>=◌,
          await_leader,
          valid_not_error (leader_call host ip port announced)
              (works.accepts waiting.trace (host.socket announced)),
          heard,
          take_all buffer_size (clean ++ (end_mark ++ u)) fits,
          receive-overlay clean u filled_with_zero text,
        )
        (rw (take_all buffer_size (clean ++ (end_mark ++ u)) fits) refl)

  pub get_service_info_mcast_lem :
      length ip < 16
      → length port < 6
      → IsText clean
      → length (clean ++ (end_mark ++ u)) ≤ buffer_size
      → host.recv (accepted host ip port announced) (leader_call host ip port announced)
        ≡ some (clean ++ (end_mark ++ u))
      → get_service_info_mcast host service_multicast_ip service_multicast_port ip port s
        ≡ ok (some clean, with_heard (clean ++ (end_mark ++ u)) (answered host ip port announced) s)
  unfolding get_service_info_mcast
  get_service_info_mcast_lem ip_fits port_fits text fits heard =
      rw
        (
          get_service_info_mcast,
          ◌>>◌,
          ◌>>=◌,
          copied_fits 16 ip ip_fits,
          copied_fits 6 port port_fits,
          join_multicast_lem host works s service_multicast_ip service_multicast_port,
          works.opens s.trace,
          announce_lem (new_client_text_fits port port_fits),
          get_tcp_socket_lem host works (record waiting { trace = announced }) ip port,
          works.opens announced,
        )
        (await_leader_lem text fits heard)
