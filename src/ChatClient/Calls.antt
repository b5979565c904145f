-- ===== src/ChatClient/Calls.antt =====
-- The sockets of the client on a host on which every call succeeds.
use ds_project.Base.{
  ◌≡◌, ◌<◌, refl, true, List, ◌∷◌, Option, none, some, ok, ℤ, pos, is_valid_socket, error_return,
  ◌==ℤ◌, if◌then◌else◌, length, arith,
}
use ds_project.Text.{Bytes}
use ds_project.Frame.{buffer_size, overlay, filled_with_x, filled_with_zero}
use ds_project.Frame.RoundTrip.{pad_message_fits, sprintf_into_fits}
use ds_project.GroupChat.{Client, fill_buffer}
use ds_project.ChatClient.{Call, Host, Chat, opened, bound, member, connecting, listening, sent_to}
use ds_project.ChatClient.Sockets.{
  group_multicast, join_multicast, connect_toserver, get_tcp_socket,
}
use ds_project.ChatClient.Start.{put_message}

-- Every call succeeds; what `recv` gives, and the descriptors, are left open.
pub record Works (host : Host) : Type 0 where
  pub resolved :
      (t : List Call) (node : Option Bytes) (port : Bytes) → host.getaddrinfo t node port ≡ pos 0
  pub opens : (t : List Call) → is_valid_socket (host.socket t) ≡ true
  pub binds : (t : List Call) (fd : ℤ) → host.bind t fd ≡ pos 0
  pub admits : (t : List Call) (fd : ℤ) (ip : Bytes) → host.setsockopt t fd ip ≡ pos 0
  pub connects : (t : List Call) (fd : ℤ) (ip port : Bytes) → host.connect t fd ip port ≡ pos 0
  pub listens : (t : List Call) (fd : ℤ) → host.listen t fd ≡ pos 0
  pub accepts : (t : List Call) (fd : ℤ) → is_valid_socket (host.accept t fd) ≡ true
  pub sends : (t : List Call) (fd : ℤ) (bytes : Bytes) → host.send t fd bytes ≡ pos (length bytes)

module _ (host : Host) where
  -- The calls of each function, on top of those before.
  abbrev pub joining : Bytes → Bytes → List Call → List Call
  joining ip port t =
      member (host.socket t) ip ∷ bound (host.socket t) none port ∷ opened (host.socket t) ∷ t

  abbrev pub reaching : Bytes → Bytes → List Call → List Call
  reaching ip port t = connecting (host.socket t) ip port ∷ opened (host.socket t) ∷ t

  abbrev pub awaiting : Bytes → Bytes → List Call → List Call
  awaiting ip port t =
      listening (host.socket t) ∷ bound (host.socket t) (some ip) port ∷ opened (host.socket t) ∷ t

  module _ (works : Works host) (s : Chat) (ip port : Bytes) where
    pub join_multicast_lem :
        join_multicast host ip port s
        ≡ ok (host.socket s.trace, record s { trace = joining ip port s.trace })
    unfolding join_multicast
    join_multicast_lem =
        rw
          (
            works.resolved s.trace none port,
            works.opens s.trace,
            works.binds (opened (host.socket s.trace) ∷ s.trace) (host.socket s.trace),
            works.admits
                (bound (host.socket s.trace) none port ∷ opened (host.socket s.trace) ∷ s.trace)
                (host.socket s.trace) ip,
          )
          refl

    pub group_multicast_lem :
        (fd : ℤ) (msg : Bytes)
        → (answer : ℤ) × (group_multicast host fd ip port msg s
            ≡ ok (answer, record s { trace = sent_to fd ip port msg ∷ s.trace }))
    unfolding group_multicast
    group_multicast_lem fd msg = (
      if host.sendto s.trace fd ip port msg ==ℤ error_return then error_return else pos 0,
      rw (works.resolved s.trace (some ip) port) refl,
    )

    pub connect_toserver_lem :
        connect_toserver host ip port s
        ≡ ok (host.socket s.trace, record s { trace = reaching ip port s.trace })
    unfolding connect_toserver
    connect_toserver_lem =
        rw
          (
            works.resolved s.trace (some ip) port,
            works.opens s.trace,
            works.connects (opened (host.socket s.trace) ∷ s.trace) (host.socket s.trace) ip port,
          )
          refl

    pub get_tcp_socket_lem :
        get_tcp_socket host ip port s
        ≡ ok (host.socket s.trace, record s { trace = awaiting ip port s.trace })
    unfolding get_tcp_socket
    get_tcp_socket_lem =
        rw
          (
            works.resolved s.trace (some ip) port,
            works.opens s.trace,
            works.binds (opened (host.socket s.trace) ∷ s.trace) (host.socket s.trace),
            works.listens
                (bound (host.socket s.trace) (some ip) port
                  ∷ opened (host.socket s.trace)
                  ∷ s.trace)
                (host.socket s.trace),
          )
          refl

pub fill_buffer_fits :
    (c : Client) (text : Bytes)
    → length text < buffer_size
    → fill_buffer c text ≡ ok (record c { buffer = overlay text filled_with_x })
unfolding fill_buffer
fill_buffer_fits c text fits =
    rw
      (
        sprintf_into_fits filled_with_zero text (omega (arith, fits)),
        pad_message_fits text (omega (arith, fits)),
      )
      refl

pub put_message_fits :
    (s : Chat) (text : Bytes)
    → length text < buffer_size
    → put_message text s
      ≡ ok (tt, record s { client = record s.client { buffer = overlay text filled_with_x } })
put_message_fits s text fits = rw (fill_buffer_fits s.client text fits) refl
