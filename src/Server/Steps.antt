-- ===== src/Server/Steps.antt =====
-- The parts of a server's operations, one at a time: what each gives when it succeeds.
use ds_project.Base.{
  ◌≡◌, ◌<◌, ap, refl, List, ℕ, ℤ, pos, ◌==ℤ◌, ◌∷◌, true, some, Result, ok, err, get_elem?, length,
  arith, ltb, is_valid_socket,
}
use ds_project.Text.{Bytes, print_int}
use ds_project.Frame.{pad_message, sprintf_into, filled_with_zero}
use ds_project.Peers.{ServerInfo}
use ds_project.Server.{
  Env, Server, Event, ◌>>=◌, ◌>>◌, lift, peer, pad_buffer, print_buffer, overprint_buffer,
  connecting, check_port, connect_to, setup_tcp_client,
}

pub peer_lem :
    (k : ℕ) (p : ServerInfo) (t : Server)
    → get_elem? t.connected_peers k ≡ some p
    → peer k t ≡ ok (p, t)
peer_lem k p t e = rw (peer, e) refl

pub pad_buffer_lem :
    (text buffer : Bytes) (t : Server)
    → pad_message text ≡ ok buffer
    → pad_buffer text t ≡ ok (tt, record t { send_buf = buffer })
pad_buffer_lem text buffer t fits =
    ap (λ r. elim r [ ok b ↦ ok (tt, record t { send_buf = b }) | err e ↦ err e ]) fits

pub lift_lem : {A : Type 0} (r : Result A) (a : A) (s : Server) → r ≡ ok a → lift r s ≡ ok (a, s)
lift_lem r a s e = ap (λ q. lift q s) e

pub print_buffer_lem :
    (text buffer : Bytes) (s : Server)
    → sprintf_into filled_with_zero text ≡ ok buffer
    → print_buffer text s ≡ ok (tt, record s { send_buf = buffer })
print_buffer_lem text buffer s fits =
    ap (λ r. elim r [ ok b ↦ ok (tt, record s { send_buf = b }) | err e ↦ err e ]) fits

pub overprint_buffer_lem :
    (text buffer : Bytes) (s : Server)
    → sprintf_into s.send_buf text ≡ ok buffer
    → overprint_buffer text s ≡ ok (tt, record s { send_buf = buffer })
overprint_buffer_lem text buffer s fits =
    ap (λ r. elim r [ ok b ↦ ok (tt, record s { send_buf = b }) | err e ↦ err e ]) fits

-- The operating system connects a socket to the address, and there is memory.
pub record Connects (env : Env) (trace : List Event) (addr : Bytes) (port fd : ℤ) : Type 0 where
  pub found : (env.getaddrinfo trace addr port ==ℤ pos 0) ≡ true
  pub opened : env.socket trace ≡ fd
  pub valid : is_valid_socket fd ≡ true
  pub connected : (env.connect trace fd addr port ==ℤ pos 0) ≡ true
  pub memory : env.malloc (connecting fd addr port ∷ trace) ≡ true
  pub short : length (print_int port) < 6

pub connect_lem :
    (env : Env) (s : Server) (addr : Bytes) (port fd : ℤ)
    → Connects env s.trace addr port fd
    → connect_to env addr port s ≡ ok (fd, record s { trace = connecting fd addr port ∷ s.trace })
unfolding setup_tcp_client
connect_lem env s addr port fd h =
    rw
      (
        connect_to,
        ◌>>◌,
        ◌>>=◌,
        check_port,
        let fits : ltb (length (print_int port)) 6 ≡ true = ground (arith, h.short) in fits,
        setup_tcp_client,
        h.found,
        h.opened,
        h.valid,
        h.connected,
      )
      refl
