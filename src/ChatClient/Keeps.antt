-- ===== src/ChatClient/Keeps.antt =====
-- What a chat client keeps from its start to its end.
mod Start
mod Loop
use ds_project.Base.{
  ℕ, ◌≡◌, ◌≤◌, refl, List, Option, some, ok, pos, arith, IfOk-ok, length, get_elem?-replicate,
}
use ds_project.Text.{Bytes}
use ds_project.HoldBack.{max_group_size}
use ds_project.HoldBack.Causal.{Counts, IsCausal}
use ds_project.GroupChat.Counted.{IsSane}
use ds_project.ChatClient.{Host, Chat, M, ◌>>=◌, return}
use ds_project.ChatClient.Start.{Outset, gave_up, running, start}
use ds_project.ChatClient.Loop.{globals, Round, chat_loop, finish, run}
use ds_project.ChatClient.Sane.{SaneEnd, EndsSane, ends, bound_to, Keeps}
use ds_project.ChatClient.Keeps.Start.{start-Keeps}
use ds_project.ChatClient.Keeps.Loop.{chat_loop-Keeps, finish-Keeps}

globals-IsSane : IsSane globals.client
globals-IsSane = record {
  two = omega arith;
  counted = record {
    ten = refl;
    counts = λ k lt. get_elem?-replicate max_group_size k (pos 0) lt;
    causal = tt;
  };
}

run-Keeps : (host : Host) (ip port : Bytes) (rounds : List Round) → Keeps (run host ip port rounds)
unfolding run
run-Keeps host ip port rounds s h =
    bound_to (start host ip port s) _ (start-Keeps host ip port s h) λ r hr. at_loop r.0 r.1 hr
  where
    at_loop :
        (outset : Outset) (t : Chat)
        → IsSane t.client
        → EndsSane (
            elim outset as (λ _. M (Option ℕ)) [
              | gave_up code ↦ return (some code)
              | running group_socket socket_peer ↦
                  chat_loop host group_socket socket_peer rounds
                  >>= finish host group_socket socket_peer
            ]
              t)
    at_loop (gave_up code) t k = ends k
    at_loop (running group_socket socket_peer) t k =
        bound_to (chat_loop host group_socket socket_peer rounds t) _
          (chat_loop-Keeps host group_socket socket_peer rounds t k)
          λ q hq. finish-Keeps host group_socket socket_peer q.0 q.1 hq

-- A client program, from its start with nothing delivered, whatever its arguments, whatever the
-- operating system answers, whatever arrives and is typed: unless it is stopped by a fault, wherever
-- it is or ends, it sends in one of its two ways, its array DELIVERED has ten entries, which count the
-- messages that it delivered of each member, and each of them was delivered after as many messages of
-- each member as it depends on.
pub run-IsCausal :
    (host : Host) (ip port : Bytes) (rounds : List Round) (code : Option ℕ) (t : Chat)
    → run host ip port rounds globals ≡ ok (code, t)
    → (t.client.mode ≤ 1)
      × (length t.client.delivery.delivered ≡ max_group_size)
      × Counts t.client.delivery.delivered t.client.delivery.log
      × IsCausal t.client.delivery.log
run-IsCausal host ip port rounds code t e =
    let sane =
      IfOk-ok SaneEnd (run host ip port rounds globals) (code, t)
        (run-Keeps host ip port rounds globals globals-IsSane).held e in
    (sane.two, sane.counted.ten, sane.counted.counts, sane.counted.causal)
