-- ===== src/Election/Start.antt =====
-- `send_ele_msg`: how an election starts.
use ds_project.Base.{
  ◌≡◌, ◌∙◌, refl, inl, inr, Bool-cases, List, [], ◌∷◌, ok, ap, pos, negsuc, ◌==ℤ◌, if◌then◌else◌,
}
use ds_project.Text.{Bytes}
use ds_project.Frame.{sprintf_into, filled_with_zero}
use ds_project.Peers.{ServerInfo}
use ds_project.Peers.Delete.{delete_server-second}
use ds_project.Server.Steps.{print_buffer_lem}
use ds_project.Server.{
  Env, Server, M, ◌>>=◌, return, lift, set_peers, set_participant, print_buffer, send_buffer, sent,
  bind_ok,
}
use ds_project.Election.{vote_message, send_ele_msg}
use ds_project.Election.Vote.{on_ring}

-- What `send_ele_msg` does on a ring of at least three.
abbrev pub started : Env → Server → ServerInfo → Bytes → Server → Server
started env s successor buffer ring =
    if s.participant ==ℤ pos 1 then record ring { send_buf = buffer } else record ring {
      send_buf = buffer;
      trace = sent successor.tcp_socket buffer ∷ s.trace;
      participant =
          if env.send s.trace successor.tcp_socket buffer ==ℤ negsuc 0
          then s.participant
          else pos 1;
    }

-- The vote, unless the server takes part already.
abbrev cast : Env → Server → ServerInfo → M (Unit {0})
cast env s successor =
    if s.participant ==ℤ pos 1
    then return tt
    else (send_buffer env successor.tcp_socket >>= λ r.
        if r ==ℤ negsuc 0 then return tt else set_participant (pos 1))

pub send_ele_msg-on_ring :
    (env : Env) (s : Server) (self old successor : ServerInfo) (rest : List ServerInfo)
    (buffer : Bytes)
    → sprintf_into filled_with_zero (vote_message self.id) ≡ ok buffer
    → send_ele_msg env (on_ring self old successor rest s)
      ≡ ok (tt, started env s successor buffer (on_ring self old successor rest s))
unfolding send_ele_msg
send_ele_msg-on_ring env s self old successor rest buffer fits =
    bind_ok (print_buffer (vote_message self.id)) (λ _. cast env s successor)
      {s = on_ring self old successor rest s}
      {t = record s { connected_peers = self ∷ old ∷ successor ∷ rest; send_buf = buffer }}
      (print_buffer_lem (vote_message self.id) buffer (on_ring self old successor rest s) fits)
    ∙ elim (Bool-cases (s.participant ==ℤ pos 1)) [
      | inl taking ↦ rw taking refl
      | inr free ↦
          rw free (elim (Bool-cases (env.send s.trace successor.tcp_socket buffer ==ℤ negsuc 0)) [
            | inl lost ↦ rw lost refl
            | inr went ↦ rw went refl
          ])
    ]

pub send_ele_msg_last :
    (env : Env) (s : Server) (self old : ServerInfo)
    → send_ele_msg env (record s { connected_peers = self ∷ old ∷ [] })
      ≡ ok (tt, record s { connected_peers = record self { leader = pos 1 } ∷ [] })
unfolding send_ele_msg
send_ele_msg_last env s self old =
    ap
      (λ r.
        (lift r >>= λ q. set_peers q.0)
          (record s { connected_peers = record self { leader = pos 1 } ∷ old ∷ [] }))
      (delete_server-second (record self { leader = pos 1 }) old [])
