-- ===== src/Kept/Heads.antt =====
-- The operations on the list of servers leave its head.
use ds_project.Base.{
  ◌≡◌, subst, sym, ◌∙◌, Bool-cases, inl, inr, Bool, ℕ, zero, suc, ℤ, List, [], ◌∷◌, ok, err,
}
use ds_project.Text.{Bytes}
use ds_project.Peers.{ServerInfo, append_server, append_server_sorted, server_info_exist}
use ds_project.Peers.Insert.{append_server_cases, append_server_sorted_cases}
use ds_project.Server.{update_peer}
use ds_project.Kept.{IsHeadedBy}

pub headed-update_peer :
    (self : ServerInfo) (k : ℕ) (f : ServerInfo → ServerInfo) (l : List ServerInfo)
    → ((p : ServerInfo) → ((f p).id ≡ p.id) × ((f p).addr ≡ p.addr) × ((f p).port ≡ p.port))
    → IsHeadedBy self l
    → IsHeadedBy self (update_peer k f l)
headed-update_peer self k f [] same h = absurd h
headed-update_peer self zero f (p ∷ rest) same h = rw ((same p).0, (same p).1, (same p).2) h
headed-update_peer self (suc k) f (p ∷ rest) same h = h

pub headed-append_server_sorted :
    (self : ServerInfo) (malloc : Bool) (now : ℕ) (l : List ServerInfo) (id : ℤ) (addr : Bytes)
    (port leader fd : ℤ) (r : List ServerInfo)
    → append_server_sorted malloc now l id addr port leader fd ≡ ok r
    → IsHeadedBy self l
    → IsHeadedBy self r
headed-append_server_sorted self malloc now [] id addr port leader fd r e h = absurd h
headed-append_server_sorted self malloc now (head ∷ peers) id addr port leader fd r e h =
    let known = server_info_exist id (head ∷ peers) in
    subst (λ q. elim q [ ok x ↦ IsHeadedBy self x | err w ↦ Unit ])
      (sym (append_server_sorted_cases malloc now head peers id addr port leader fd) ∙ e)
      (elim (Bool-cases known) [
        | inl k ↦ rw k h
        | inr k ↦ elim (Bool-cases malloc) [ inl m ↦ rw (k, m) h | inr m ↦ rw (k, m) tt ]
      ])

pub headed-append_server :
    (self : ServerInfo) (malloc : Bool) (now : ℕ) (l : List ServerInfo) (id : ℤ) (addr : Bytes)
    (port leader fd : ℤ) (r : List ServerInfo)
    → append_server malloc now l id addr port leader fd ≡ ok r
    → IsHeadedBy self l
    → IsHeadedBy self r
headed-append_server self malloc now [] id addr port leader fd r e h = absurd h
headed-append_server self malloc now (head ∷ peers) id addr port leader fd r e h =
    let known = server_info_exist id (head ∷ peers) in
    subst (λ q. elim q [ ok x ↦ IsHeadedBy self x | err w ↦ Unit ])
      (sym (append_server_cases malloc now (head ∷ peers) id addr port leader fd) ∙ e)
      (elim (Bool-cases known) [
        | inl k ↦ rw k h
        | inr k ↦ elim (Bool-cases malloc) [ inl m ↦ rw (k, m) h | inr m ↦ rw (k, m) tt ]
      ])
