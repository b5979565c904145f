-- ===== src/ChatClient.antt =====
-- The chat client as a program: `main` of chat-c/client/client_s.c from its start to its end, with
-- `get_service_info_mcast` of chat-c/client/service_infom.c, `group_multicast` and `join_multicast`
-- of chat-c/client/multicast.c, and `connect_toserver` and `get_tcp_socket` of
-- chat-c/client/socket_setup.c. What is only printed, the flags and the time limit of `select`, and
-- the lists that are freed are left out; a text ends with its buffer at the latest.
pub mod Sockets
pub mod Start
pub mod Loop
pub mod Calls
pub mod Texts
pub mod Started
pub mod Called
pub mod Joined
pub mod Lost
pub mod Sane
pub mod Keeps
mod Tests
use ds_project.Base.{
  ◌≡◌, ap, ℕ, Bool, List, ◌∷◌, Option, Result, ok, err, out_of_range, ℤ, pos, is_valid_socket,
  if◌then◌else◌, take,
}
use ds_project.Text.{Bytes}
use ds_project.Frame.{buffer_size, filled_with_zero, overlay}
use ds_project.GroupChat.{Client}

-- What the client asked the operating system to do. Addresses and ports are texts.
pub data Call : Type 0 where
  opened : ℤ → Call
  bound : ℤ → Option Bytes → Bytes → Call
  member : ℤ → Bytes → Call
  connecting : ℤ → Bytes → Bytes → Call
  listening : ℤ → Call
  accepting : ℤ → Call
  receiving : ℤ → Call
  sent : ℤ → Bytes → Call
  sent_to : ℤ → Bytes → Bytes → Bytes → Call
  closed : ℤ → Call

-- The answers of the operating system, which may depend on all the calls before, the newest first.
-- `getaddrinfo` has no node name where the source passes NULL; `recv` is `none` for -1.
pub record Host : Type 0 where
  pub getaddrinfo : List Call → Option Bytes → Bytes → ℤ
  pub socket : List Call → ℤ
  pub bind : List Call → ℤ → ℤ
  pub setsockopt : List Call → ℤ → Bytes → ℤ
  pub connect : List Call → ℤ → Bytes → Bytes → ℤ
  pub listen : List Call → ℤ → ℤ
  pub accept : List Call → ℤ → ℤ
  pub recv : List Call → ℤ → Option Bytes
  pub send : List Call → ℤ → Bytes → ℤ
  pub sendto : List Call → ℤ → Bytes → Bytes → Bytes → ℤ

-- The state of the program: the globals, the set `master` of `main`, and its calls so far. Of
-- `message` nothing is read that was not written just before. MY_SERVER_IP and MY_SERVER_PORT are
-- read where they are written.
pub record Chat : Type 0 where
  pub client : Client
  pub group_ip : Bytes
  pub group_port : Bytes
  pub master : List ℤ
  pub trace : List Call

abbrev pub M : Type 0 → Type 0
M A = Chat → Result (A × Chat)

infixl 5 ◌>>=◌ ◌>>◌
abbrev pub ◌>>=◌ : {A B : Type 0} → M A → (A → M B) → M B
◌>>=◌ m f s = elim (m s) [ ok r ↦ f r.0 r.1 | err e ↦ err e ]

abbrev pub ◌>>◌ : {A B : Type 0} → M A → M B → M B
m >> k = m >>= λ _. k

abbrev pub return : {A : Type 0} → A → M A
return a s = ok (a, s)

abbrev pub lift : {A : Type 0} → Result A → M A
lift (ok a) s = ok (a, s)
lift (err e) s = err e

pub bind_ok :
    {A B : Type 0} (m : M A) (f : A → M B) {s t : Chat} {a : A}
    → m s ≡ ok (a, t)
    → (m >>= f) s ≡ f a t
bind_ok m f e = ap (λ r. elim r [ ok q ↦ f q.0 q.1 | err w ↦ err w ]) e

-- A call is made.
abbrev pub call : Call → M (Unit {0})
call c s = ok (tt, record s { trace = c ∷ s.trace })

abbrev pub change_client : (Client → Client) → M (Unit {0})
change_client f s = ok (tt, record s { client = f s.client })

-- `FD_SET(fd, &master)`: the set has no place for a negative descriptor.
abbrev pub watch : ℤ → M (Unit {0})
watch fd s =
    if is_valid_socket fd then ok (tt, record s { master = fd ∷ s.master }) else err out_of_range

-- `memset(Buffer, 0, sizeof(Buffer))`, and what `recv` writes over it.
abbrev pub hear : Bytes → M (Unit {0})
hear payload =
    change_client (λ c. record c { buffer = overlay (take buffer_size payload) filled_with_zero })
