-- ===== src/ChatClient/Sane.antt =====
-- Clients whose deliveries are counted and in causal order, and how operations leave them so.
use ds_project.Base.{
  Bool, true, false, ◌∷◌, Option, none, some, Result, Stop, ok, err, ℤ, IfOk, is_valid_socket, not,
  error_return, out_of_range, ◌==ℤ◌, if◌then◌else◌,
}
use ds_project.Text.{Bytes}
use ds_project.GroupChat.{Client, fill_buffer}
use ds_project.GroupChat.Counted.{IsSane, fill_buffer-IsSane}
use ds_project.ChatClient.{Host, Chat, M, opened, bound, ◌>>=◌, lift, change_client, watch}
use ds_project.ChatClient.Sockets.{
  fails, group_multicast, join_multicast, connect_toserver, get_tcp_socket,
}
use ds_project.ChatClient.Start.{put_message}

-- The result of an operation, with a client that is as it should be.
abbrev pub SaneEnd : {A : Type 0} → A × Chat → Type 0
SaneEnd r = IsSane r.1.client

-- A run that ends with such a client, if it ends.
pub record EndsSane {A : Type 0} (run : Result (A × Chat)) : Type 0 where
  pub held : IfOk SaneEnd run

module _ {A : Type 0} where
  pub ends : {a : A} {s : Chat} → IsSane s.client → EndsSane (ok (a, s))
  ends h = record { held = h }

  pub stops : {e : Stop} → EndsSane {A = A} (err e)
  stops = record { held = tt }

  pub either :
      (b : Bool) (m n : M A) (s : Chat)
      → EndsSane (m s)
      → EndsSane (n s)
      → EndsSane ((if b then m else n) s)
  either true m n s h k = h
  either false m n s h k = k

  pub lift_ends : (r : Result A) (s : Chat) → IsSane s.client → EndsSane (lift r s)
  lift_ends (ok a) s h = ends h
  lift_ends (err e) s h = stops

module _ {A B : Type 0} where
  pub bound_to :
      (run : Result (A × Chat)) (next : A × Chat → Result (B × Chat))
      → EndsSane run
      → ((r : A × Chat) → IsSane r.1.client → EndsSane (next r))
      → EndsSane (elim run as (λ _. Result (B × Chat)) [ ok r ↦ next r | err e ↦ err e ])
  bound_to (ok r) next h k = k r h.held
  bound_to (err e) next h k = stops

  pub given :
      (o : Option B) (m : M A) (f : B → M A) (s : Chat)
      → EndsSane (m s)
      → ((b : B) → EndsSane (f b s))
      → EndsSane (elim o as (λ _. M A) [ none ↦ m | some b ↦ f b ] s)
  given none m f s h k = h
  given (some b) m f s h k = k b

  pub given_end :
      (o : Option B) (r : Result (A × Chat)) (f : B → Result (A × Chat))
      → EndsSane r
      → ((b : B) → EndsSane (f b))
      → EndsSane (elim o as (λ _. Result (A × Chat)) [ none ↦ r | some b ↦ f b ])
  given_end none r f h k = h
  given_end (some b) r f h k = k b

-- An operation that leaves such a client, if it ends.
abbrev pub Keeps : {A : Type 0} → M A → Type 0
Keeps m = (s : Chat) → IsSane s.client → EndsSane (m s)

pub put_message-Keeps : (text : Bytes) → Keeps (put_message text)
put_message-Keeps text s h = filled (fill_buffer s.client text) (fill_buffer-IsSane s.client text h)
  where
    filled :
        (r : Result Client) → IfOk IsSane r → EndsSane ((lift r >>= λ c. change_client (λ _. c)) s)
    filled (ok c) k = ends k
    filled (err e) k = stops

pub watch-Keeps : (fd : ℤ) → Keeps (watch fd)
watch-Keeps fd s h = watched (is_valid_socket fd)
  where
    watched :
        (b : Bool)
        → EndsSane (if b then ok (tt, record s { master = fd ∷ s.master }) else err out_of_range)
    watched true = ends h
    watched false = stops

module _ (host : Host) where
  pub group_multicast-Keeps :
      (fd : ℤ) (ip port msg : Bytes) → Keeps (group_multicast host fd ip port msg)
  unfolding group_multicast
  group_multicast-Keeps fd ip port msg s h =
      either (fails (host.getaddrinfo s.trace (some ip) port)) _ _ s (ends h) (ends h)

  -- A socket is made, and something is done with it if it is valid.
  pub join_multicast-Keeps : (ip port : Bytes) → Keeps (join_multicast host ip port)
  unfolding join_multicast
  join_multicast-Keeps ip port s h =
      either (fails (host.getaddrinfo s.trace none port)) _ _ s (ends h) (
        let fd = host.socket s.trace in
        let t = opened fd ∷ s.trace in
        either (not (is_valid_socket fd)) _ _ (record s { trace = t }) (ends h)
          (either (host.bind t fd ==ℤ error_return) _ _
            (record s { trace = bound fd none port ∷ t }) (ends h) (ends h)))

  pub connect_toserver-Keeps : (ip port : Bytes) → Keeps (connect_toserver host ip port)
  unfolding connect_toserver
  connect_toserver-Keeps ip port s h =
      either (fails (host.getaddrinfo s.trace (some ip) port)) _ _ s (ends h) (
        either (not (is_valid_socket (host.socket s.trace))) _ _
          (record s { trace = opened (host.socket s.trace) ∷ s.trace }) (ends h) (ends h))

  pub get_tcp_socket-Keeps : (ip port : Bytes) → Keeps (get_tcp_socket host ip port)
  unfolding get_tcp_socket
  get_tcp_socket-Keeps ip port s h =
      either (fails (host.getaddrinfo s.trace (some ip) port)) _ _ s stops (
        let fd = host.socket s.trace in
        let t = opened fd ∷ s.trace in
        either (not (is_valid_socket fd)) _ _ (record s { trace = t }) (ends h)
          (either (fails (host.bind t fd)) _ _ (record s { trace = bound fd (some ip) port ∷ t })
            (ends h) (ends h)))
