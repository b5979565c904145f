-- ===== src/Disconnection/Closes.antt =====
-- `ring_status`, and the ring around the peer that is gone.
use ds_project.Base.{
  suc, ◌≤◌, ◌≡◌, ◌≢◌, subst, true, false, List, [], ◌∷◌, ◌++◌, ok, pos, negsuc, ◌==ℤ◌, All, arith,
  length, length-append, append-nil,
}
use ds_project.Text.{Bytes}
use ds_project.Frame.{pad_message}
use ds_project.Peers.{ServerInfo}
use ds_project.Peers.Positions.{last_of, last_of-append}
use ds_project.Server.{Env, Server}
use ds_project.Disconnection.{update_message, ring_status}
use ds_project.Disconnection.Ring.{
  with_peers, told, first_gone, later_gone, new_successor_found, new_successor_wraps,
}

module _ (env : Env) (s : Server) (head gone : ServerInfo) (buffer : Bytes) where
  -- What is to be shown, when the list is the ring from behind the gone peer round to the one
  -- before it.
  abbrev Closes : (before after : List ServerInfo) → List ServerInfo → Type 0
  Closes before after [] = Unit {0}
  Closes before after (next ∷ more) =
      1 ≤ length more
      → pad_message (update_message next) ≡ ok buffer
      → (env.send s.trace (last_of next more).tcp_socket buffer ==ℤ negsuc 0) ≡ false
      → ring_status env gone.tcp_socket (with_peers (head ∷ before ++ gone ∷ after) s)
        ≡ ok (
          suc (length before),
          told (last_of next more).tcp_socket buffer (with_peers (head ∷ before ++ after) s),
        )

  closes :
      (before after : List ServerInfo)
      → (head.leader ==ℤ pos 1) ≡ true
      → All (λ p. p.tcp_socket ≢ gone.tcp_socket) before
      → All (λ p. p.id ≢ gone.id) before
      → Closes before after (after ++ before)
  closes [] [] lead sockets ids = tt
  closes [] (next ∷ []) lead sockets ids = λ big fits sends. absurd (omega (arith, big))
  closes [] (next ∷ second ∷ rest) lead sockets ids =
      rw (append-nil rest)
        (λ big fits sends. first_gone env s head gone next second rest buffer lead fits sends)
  closes (first ∷ before) [] lead sockets ids = λ big fits sends.
      later_gone env s head gone first first before [] buffer lead sockets ids
        (omega (arith, big, length-append before [])) (new_successor_wraps head first before s) fits
        sends
  closes (first ∷ before) (next ∷ after) lead sockets ids =
      rw (last_of-append next first after before) (λ big fits sends.
        later_gone env s head gone first next before (next ∷ after) buffer lead sockets ids
          (omega (arith, length-append before (next ∷ after)))
          (new_successor_found head first next before after s) fits sends)

-- When a leader with at least two other peers finds a peer gone, it takes that peer out of its list
-- and tells exactly one peer, the gone one's predecessor on the ring, that its new successor is the
-- gone one's successor on the ring: behind the gone peer the ring runs through `after` and round to
-- `before`, so they are the last and the first of `after ++ before`. This needs that no peer before
-- the gone one has its socket or its ID, and that the message fits the buffer and can be sent.
pub ring_status_lem :
    (env : Env) (s : Server) (head gone : ServerInfo) (before after : List ServerInfo)
    (next : ServerInfo) (more : List ServerInfo) (buffer : Bytes)
    → (head.leader ==ℤ pos 1) ≡ true
    → All (λ p. p.tcp_socket ≢ gone.tcp_socket) before
    → All (λ p. p.id ≢ gone.id) before
    → after ++ before ≡ next ∷ more
    → 1 ≤ length more
    → pad_message (update_message next) ≡ ok buffer
    → (env.send s.trace (last_of next more).tcp_socket buffer ==ℤ negsuc 0) ≡ false
    → ring_status env gone.tcp_socket (with_peers (head ∷ before ++ gone ∷ after) s)
      ≡ ok (
        suc (length before),
        told (last_of next more).tcp_socket buffer (with_peers (head ∷ before ++ after) s),
      )
ring_status_lem env s head gone before after next more buffer lead sockets ids around =
    subst (Closes env s head gone buffer before after) around
      (closes env s head gone buffer before after lead sockets ids)
