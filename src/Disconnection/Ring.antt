-- ===== src/Disconnection/Ring.antt =====
-- `ring_status`, step by step: the test, the removal, and the message to the gone peer's predecessor.
use ds_project.Base.{
  ℕ, suc, ◌≤◌, ◌≡◌, ◌≢◌, ◌∙◌, refl, Bool, true, false, List, [], ◌∷◌, ◌++◌, Option, none, some, ok,
  err, exited, ℤ, pos, negsuc, ◌==ℤ◌, ltb, if◌then◌else◌, All, arith, get_elem?, length,
}
use ds_project.Text.{Bytes}
use ds_project.Frame.{pad_message}
use ds_project.Peers.{ServerInfo, ist_peer_server, get_last_server}
use ds_project.Peers.Positions.{
  last_of, ist_peer_server-behind, find_before-behind, delete_server-behind, get_elem?-behind,
  get_elem?-last, get_elem?-end, get_elem?-next, get_last_server-length,
}
use ds_project.Server.Steps.{peer_lem, pad_buffer_lem, lift_lem}
use ds_project.Server.{
  Env, Server, M, ◌>>=◌, ◌>>◌, return, lift, sent, bind_ok, peer, pad_buffer, send_buffer,
}
use ds_project.Disconnection.{
  update_message, relocate, delete_peer, new_successor, update_ring, repair, repair_behind, cut_out,
  cut_behind, ring_status,
}

abbrev pub with_peers : List ServerInfo → Server → Server
with_peers l s = record s { connected_peers = l }

-- The state after the message to a socket.
abbrev pub told : ℤ → Bytes → Server → Server
told fd buffer s = record s { send_buf = buffer; trace = sent fd buffer ∷ s.trace }

delete_peer-behind :
    (head gone : ServerInfo) (before after : List ServerInfo) (s : Server)
    → All (λ p. p.id ≢ gone.id) before
    → delete_peer gone.id (with_peers (head ∷ before ++ gone ∷ after) s)
      ≡ ok (suc (length before), with_peers (head ∷ before ++ after) s)
delete_peer-behind head gone before after s h =
    rw (delete_peer, delete_server-behind head gone before after h)
      (rw (find_before-behind gone before after h) refl)

-- The `send` of `update_ring`, and its answer.
abbrev tell : Env → ServerInfo → M ℤ
tell env p =
    send_buffer env p.tcp_socket >>= λ r. return (if r ==ℤ negsuc 0 then negsuc 0 else pos 0)

module _ (env : Env) (first : Option ServerInfo) (k : ℕ) (pred next : ServerInfo) (buffer : Bytes)
    (t : Server) where
  update_ring_lem :
      get_elem? t.connected_peers k ≡ some pred
      → new_successor first k t ≡ ok (next, t)
      → pad_message (update_message next) ≡ ok buffer
      → update_ring env first k t
        ≡ ok (
          if env.send t.trace pred.tcp_socket buffer ==ℤ negsuc 0 then negsuc 0 else pos 0,
          told pred.tcp_socket buffer t,
        )
  unfolding update_ring
  update_ring_lem at succ fits =
      bind_ok (peer k)
        (λ p. new_successor first k >>= λ n. pad_buffer (update_message n) >> tell env p) {s = t}
        {t = t} (peer_lem k pred t at)
      ∙ bind_ok (new_successor first k) (λ n. pad_buffer (update_message n) >> tell env pred) succ
      ∙ bind_ok (pad_buffer (update_message next)) (λ _. tell env pred) {s = t}
          {t = record t { send_buf = buffer }} (pad_buffer_lem (update_message next) buffer t fits)

  repair_lem :
      get_elem? t.connected_peers k ≡ some pred
      → new_successor first k t ≡ ok (next, t)
      → pad_message (update_message next) ≡ ok buffer
      → (env.send t.trace pred.tcp_socket buffer ==ℤ negsuc 0) ≡ false
      → repair env first k t ≡ ok (tt, told pred.tcp_socket buffer t)
  unfolding repair
  repair_lem at succ fits sends =
      bind_ok (update_ring env first k)
        (λ done. if done ==ℤ negsuc 0 then lift (err (exited 1)) else return tt)
        (update_ring_lem at succ fits)
      ∙ rw sends refl

repair_behind_lem :
    (env : Env) (first : Bool) (freed at k : ℕ) (t u : Server)
    → ltb 2 (length t.connected_peers) ≡ true
    → relocate freed at ≡ ok k
    → (if first then peer 1 >>= (λ n. repair env (some n) k) else repair env none k) t ≡ ok (tt, u)
    → repair_behind env first freed at t ≡ ok (tt, u)
unfolding repair_behind
repair_behind_lem env first freed at k t u big moved done = rw big (
    bind_ok (lift (relocate freed at))
      (λ p. if first then peer 1 >>= (λ n. repair env (some n) p) else repair env none p) {s = t}
      {t = t} (lift_lem (relocate freed at) k t moved)
    ∙ done)

more_than_two : (n : ℕ) → ltb 2 (suc (suc (suc n))) ≡ true
more_than_two n = ground arith

relocate-behind : (n : ℕ) → relocate 1 (suc (suc n)) ≡ ok (suc n)
relocate-behind n = ground arith

relocate-before : (n : ℕ) → relocate (suc n) n ≡ ok n
relocate-before n = ground arith

-- The first peer is gone: the message goes to the last peer, and names the one behind the gone peer.
pub first_gone :
    (env : Env) (s : Server) (head gone next second : ServerInfo) (rest : List ServerInfo)
    (buffer : Bytes)
    → (head.leader ==ℤ pos 1) ≡ true
    → pad_message (update_message next) ≡ ok buffer
    → (env.send s.trace (last_of second rest).tcp_socket buffer ==ℤ negsuc 0) ≡ false
    → ring_status env gone.tcp_socket (with_peers (head ∷ gone ∷ next ∷ second ∷ rest) s)
      ≡ ok (
        1,
        told (last_of second rest).tcp_socket buffer (with_peers (head ∷ next ∷ second ∷ rest) s),
      )
unfolding ring_status cut_behind cut_out
first_gone env s head gone next second rest buffer lead fits sends =
    let old = with_peers (head ∷ gone ∷ next ∷ second ∷ rest) s in
    let new = with_peers (head ∷ next ∷ second ∷ rest) s in
    (bind_ok (lift (ist_peer_server gone.tcp_socket old.connected_peers)) (cut_behind env) {s = old}
        {t = old}
        (lift_lem _ (some 0) old
          (ist_peer_server-behind head gone [] (next ∷ second ∷ rest) lead tt))
      ∙ (bind_ok (lift (get_last_server old.connected_peers)) (cut_out env true gone.id) {s = old}
            {t = old} (lift_lem _ _ old (get_last_server-length head (gone ∷ next ∷ second ∷ rest)))
          ∙ (bind_ok (delete_peer gone.id)
                (λ freed.
                  repair_behind env true freed (suc (suc (suc (length rest)))) >> return freed)
                {s = old} {t = new} (delete_peer-behind head gone [] (next ∷ second ∷ rest) s tt)
              ∙ bind_ok (repair_behind env true 1 (suc (suc (suc (length rest))))) (λ _. return 1)
                  {s = new} {t = told (last_of second rest).tcp_socket buffer new}
                  (repair_behind_lem env true 1 (suc (suc (suc (length rest))))
                    (suc (suc (length rest))) new _ (more_than_two (length rest))
                    (relocate-behind (suc (length rest)))
                    (repair_lem env (some next) (suc (suc (length rest))) (last_of second rest) next
                      buffer new (get_elem?-end head (next ∷ second ∷ rest)) refl fits sends)))))

pub later_gone :
    (env : Env) (s : Server) (head gone first next : ServerInfo) (before after : List ServerInfo)
    (buffer : Bytes)
    → (head.leader ==ℤ pos 1) ≡ true
    → All (λ p. p.tcp_socket ≢ gone.tcp_socket) (first ∷ before)
    → All (λ p. p.id ≢ gone.id) (first ∷ before)
    → 2 ≤ length (first ∷ before ++ after)
    → new_successor none (suc (length before)) (with_peers (head ∷ first ∷ before ++ after) s)
      ≡ ok (next, with_peers (head ∷ first ∷ before ++ after) s)
    → pad_message (update_message next) ≡ ok buffer
    → (env.send s.trace (last_of first before).tcp_socket buffer ==ℤ negsuc 0) ≡ false
    → ring_status env gone.tcp_socket (with_peers (head ∷ first ∷ before ++ gone ∷ after) s)
      ≡ ok (
        suc (suc (length before)),
        told
            (last_of first before).tcp_socket
            buffer
            (with_peers (head ∷ first ∷ before ++ after) s),
      )
unfolding ring_status cut_behind cut_out
later_gone env s head gone first next before after buffer lead sockets ids big succ fits sends =
    let old = with_peers (head ∷ first ∷ before ++ gone ∷ after) s in
    let new = with_peers (head ∷ first ∷ before ++ after) s in
    let k = suc (length before) in
    bind_ok (lift (ist_peer_server gone.tcp_socket old.connected_peers)) (cut_behind env) {s = old}
      {t = old}
      (lift_lem _ (some k) old
        (ist_peer_server-behind head gone (first ∷ before) after lead sockets))
    ∙ bind_ok (peer (suc k)) (λ p. cut_out env false p.id k) {s = old} {t = old}
        (peer_lem (suc k) gone old (get_elem?-behind gone before after))
    ∙ bind_ok (delete_peer gone.id) (λ freed. repair_behind env false freed k >> return freed)
        {s = old} {t = new} (delete_peer-behind head gone (first ∷ before) after s ids)
    ∙ bind_ok (repair_behind env false (suc k) k) (λ _. return (suc k)) {s = new}
        {t = told (last_of first before).tcp_socket buffer new}
        (repair_behind_lem env false (suc k) k k new _
          (let wide : ltb 2 (suc (suc (length (before ++ after)))) ≡ true = ground (arith, big) in
            wide)
          (relocate-before k)
          (repair_lem env none k (last_of first before) next buffer new
            (get_elem?-last first before after) succ fits sends))

pub new_successor_found :
    (head first next : ServerInfo) (before after : List ServerInfo) (s : Server)
    → new_successor none
        (suc (length before))
        (with_peers (head ∷ first ∷ before ++ next ∷ after) s)
      ≡ ok (next, with_peers (head ∷ first ∷ before ++ next ∷ after) s)
unfolding new_successor
new_successor_found head first next before after s =
    rw (new_successor, get_elem?-next before (next ∷ after)) refl

pub new_successor_wraps :
    (head first : ServerInfo) (before : List ServerInfo) (s : Server)
    → new_successor none (suc (length before)) (with_peers (head ∷ first ∷ before ++ []) s)
      ≡ ok (first, with_peers (head ∷ first ∷ before ++ []) s)
unfolding new_successor
new_successor_wraps head first before s = rw (new_successor, get_elem?-next before []) refl
