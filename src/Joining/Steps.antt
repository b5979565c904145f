-- ===== src/Joining/Steps.antt =====
-- The course of a join at a leader that has peers, when the calls succeed.
use ds_project.Base.{
  ◌≡◌, ◌≤◌, ◌∙◌, refl, false, List, ◌∷◌, ok, ℤ, negsuc, ◌==ℤ◌, if◌then◌else◌, length,
  is_valid_socket, not, error_return,
}
use ds_project.Text.{Bytes}
use ds_project.Frame.{buffer_size, overlay, filled_with_x}
use ds_project.Frame.RoundTrip.{pad_message_fits}
use ds_project.Peers.{ServerInfo}
use ds_project.Disconnection.Ring.{with_peers, told}
use ds_project.Server.Steps.{Connects, connect_lem}
use ds_project.Server.{Env, Event, Server, M, ◌>>=◌, ◌>>◌, return, connecting, bind_ok, connect_to}
use ds_project.Joining.{answer, answer_joining, inform, join, send_or_fail, add_sorted}

-- Every message is sent.
abbrev pub Sends : Env → Type 0
Sends env = (trace : List Event) (fd : ℤ) (m : Bytes) → (env.send trace fd m ==ℤ negsuc 0) ≡ false

pub send_or_fail_lem :
    (env : Env) (text : Bytes) (fd : ℤ) (next : M ℤ) (t : Server)
    → Sends env
    → length text ≤ buffer_size
    → send_or_fail env text fd next t ≡ next (told fd (overlay text filled_with_x) t)
send_or_fail_lem env text fd next t sends fits =
    rw
      (
        send_or_fail,
        ◌>>◌,
        ◌>>=◌,
        pad_message_fits text fits,
        sends t.trace fd (overlay text filled_with_x),
      )
      refl

-- From the place on the ring and the answer on, what is left is what follows the answer.
pub answer_joining_lem :
    (env : Env) (s : Server) (head first : ServerInfo) (rest after : List ServerInfo)
    (id port fd : ℤ) (addr text : Bytes) (single : ServerInfo → Bytes)
    (reply : ServerInfo → ServerInfo → Bytes) (next : ℤ → M ℤ)
    → Connects env s.trace addr port fd
    → Sends env
    → let asked = record s { trace = connecting fd addr port ∷ s.trace } in
      add_sorted env id addr port fd (with_peers (head ∷ first ∷ rest) asked)
        ≡ ok (tt, with_peers after asked)
      → answer env false single reply id (with_peers after asked)
        ≡ ok (text, with_peers after asked)
      → length text ≤ buffer_size
      → answer_joining env single reply id port addr next (with_peers (head ∷ first ∷ rest) s)
        ≡ next fd (told fd (overlay text filled_with_x) (with_peers after asked))
answer_joining_lem env s head first rest after id port fd addr text single reply next h sends added
      answered fits =
    let asked = record s { trace = connecting fd addr port ∷ s.trace } in
    let follow : Bytes → M ℤ = λ text. send_or_fail env text fd (next fd) in
    bind_ok (connect_to env addr port)
      (λ fd.
        if not (is_valid_socket fd)
        then return error_return
        else (add_sorted env id addr port fd
            >> (answer env false single reply id >>= λ text. send_or_fail env text fd (next fd))))
      {s = with_peers (head ∷ first ∷ rest) s}
      (connect_lem env (with_peers (head ∷ first ∷ rest) s) addr port fd h)
    ∙ rw h.valid (
        bind_ok (add_sorted env id addr port fd) (λ _. answer env false single reply id >>= follow)
          {s = with_peers (head ∷ first ∷ rest) asked} added
        ∙ bind_ok (answer env false single reply id) follow {s = with_peers after asked} answered
        ∙ send_or_fail_lem env text fd (next fd) (with_peers after asked) sends fits)

-- After the answer, a join is the message to the predecessor.
pub join_lem :
    (env : Env) (s : Server) (head first : ServerInfo) (rest after : List ServerInfo)
    (id port fd : ℤ) (addr text : Bytes) (single : ServerInfo → Bytes)
    (reply : ServerInfo → ServerInfo → Bytes) (update : ServerInfo → Bytes)
    → Connects env s.trace addr port fd
    → Sends env
    → let asked = record s { trace = connecting fd addr port ∷ s.trace } in
      add_sorted env id addr port fd (with_peers (head ∷ first ∷ rest) asked)
        ≡ ok (tt, with_peers after asked)
      → answer env false single reply id (with_peers after asked)
        ≡ ok (text, with_peers after asked)
      → length text ≤ buffer_size
      → join env single reply update id port addr (with_peers (head ∷ first ∷ rest) s)
        ≡ inform env update id fd (told fd (overlay text filled_with_x) (with_peers after asked))
unfolding join
join_lem env s head first rest after id port fd addr text single reply update =
    answer_joining_lem env s head first rest after id port fd addr text single reply
      (λ fd. inform env update id fd)
