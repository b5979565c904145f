-- ===== src/ChatClient/Sockets.antt =====
-- chat-c/client/multicast.c and chat-c/client/socket_setup.c: the sockets of the client. A call that
-- fails leaves the socket open.
use ds_project.Base.{
  Bool, Option, none, some, err, null_pointer, error_return, ℤ, pos, ltb_ℤ, ◌==ℤ◌, is_valid_socket,
  not, if◌then◌else◌,
}
use ds_project.Text.{Bytes}
use ds_project.ChatClient.{
  Host, opened, bound, member, connecting, listening, accepting, receiving, sent, sent_to, closed,
  M, ◌>>=◌, ◌>>◌, return, lift, call,
}

-- A status that is not 0.
abbrev pub fails : ℤ → Bool
fails status = not (status ==ℤ pos 0)

module _ (host : Host) where
  -- Single calls, with their answers.
  abbrev pub open_socket : M ℤ
  open_socket s = (call (opened (host.socket s.trace)) >> return (host.socket s.trace)) s

  abbrev pub bind_to : ℤ → Option Bytes → Bytes → M ℤ
  bind_to fd address port s = (call (bound fd address port) >> return (host.bind s.trace fd)) s

  abbrev pub close_fd : ℤ → M (Unit {0})
  close_fd fd = call (closed fd)

  abbrev pub send_fd : ℤ → Bytes → M ℤ
  send_fd fd bytes s = (call (sent fd bytes) >> return (host.send s.trace fd bytes)) s

  abbrev pub accept_on : ℤ → M ℤ
  accept_on fd s = (call (accepting fd) >> return (host.accept s.trace fd)) s

  abbrev pub receive_on : ℤ → M (Option Bytes)
  receive_on fd s = (call (receiving fd) >> return (host.recv s.trace fd)) s

  abbrev pub resolve : Option Bytes → Bytes → M ℤ
  resolve node port s = return (host.getaddrinfo s.trace node port) s

  -- `msg` is a C string.
  unfoldable pub group_multicast : ℤ → Bytes → Bytes → Bytes → M ℤ
  group_multicast mc_socket ip port msg = resolve (some ip) port >>= λ status.
      if fails status then return error_return else (λ s.
        (call (sent_to mc_socket ip port msg)
            >> return (
                if host.sendto s.trace mc_socket ip port msg ==ℤ error_return
                then error_return
                else pos 0))
          s)

  unfoldable pub join_multicast : Bytes → Bytes → M ℤ
  join_multicast ip port = resolve none port >>= λ status.
      if fails status
      then return error_return
      else (open_socket >>= λ fd.
          if not (is_valid_socket fd)
          then return error_return
          else (bind_to fd none port >>= λ done.
              if done ==ℤ error_return then return error_return else (λ s.
                (call (member fd ip)
                    >> return (
                        if ltb_ℤ (host.setsockopt s.trace fd ip) (pos 0) then error_return else fd))
                  s)))

  -- Each failure is reported as 0, which is a valid descriptor.
  unfoldable pub connect_toserver : Bytes → Bytes → M ℤ
  connect_toserver address port = resolve (some address) port >>= λ status.
      if fails status
      then return (pos 0)
      else (open_socket >>= λ fd. if not (is_valid_socket fd) then return (pos 0) else (λ s.
          (call (connecting fd address port)
              >> return (if fails (host.connect s.trace fd address port) then pos 0 else fd))
            s))

  -- The status of `getaddrinfo` is not looked at: without an answer, `bind_address` points nowhere.
  unfoldable pub get_tcp_socket : Bytes → Bytes → M ℤ
  get_tcp_socket address port = resolve (some address) port >>= λ status.
      if fails status
      then lift (err null_pointer)
      else (open_socket >>= λ fd.
          if not (is_valid_socket fd)
          then return error_return
          else (bind_to fd (some address) port >>= λ done.
              if fails done then return error_return else (λ s.
                (call (listening fd)
                    >> return (if fails (host.listen s.trace fd) then error_return else fd))
                  s)))
