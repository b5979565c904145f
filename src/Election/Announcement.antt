-- ===== src/Election/Announcement.antt =====
-- The announcement of the leader that has won the election, at a server that is told of it.
use ds_project.Base.{
  ◌≡◌, ◌∙◌, ap, refl, ==ℤ_refl, List, [], ◌∷◌, ◌++◌, none, some, false, ok, ℤ, pos, negsuc, ◌==ℤ◌,
  if◌then◌else◌,
}
use ds_project.Text.{Bytes, codes, lits, int, num, print, scan_int}
use ds_project.Text.Decimal.{scan_int-print_int, skip_space-print_int}
use ds_project.Frame.{sprintf_into, filled_with_zero}
use ds_project.Peers.{ServerInfo}
use ds_project.Server.{Env, Server, sent}
use ds_project.Election.{lcr_election, leader_announced, leader_found, leader_message}
use ds_project.Election.Vote.{on_ring, forward_then}

-- The announcement without its end mark.
abbrev pub leader_read : ℤ → Bytes
leader_read id = print (lits "ELECTION:LEADER:" ++ (int ∷ [])) (num id ∷ [])

pub leader_found-leader_read : (id : ℤ) → leader_found (leader_read id) ≡ id
unfolding leader_found print
leader_found-leader_read id =
    ap (λ t. elim (scan_int t) [ none ↦ pos 0 | some r ↦ r.0 ]) (skip_space-print_int id [])
    ∙ ap (λ r. elim r [ none ↦ pos 0 | some q ↦ q.0 ]) (scan_int-print_int id [] tt)

module _ (env : Env) (s : Server) (self old successor : ServerInfo) (rest : List ServerInfo)
    (id : ℤ) (passed : Bytes) where
  -- The announcement has been passed on; the node of the old leader has the new one's ID.
  abbrev pub told : Server
  told = record s {
    connected_peers = self ∷ record old { id = id; leader = pos 1 } ∷ successor ∷ rest;
    participant = pos 0;
    send_buf = passed;
    trace = sent successor.tcp_socket passed ∷ s.trace;
  }

  pub lcr_election-told :
      (id ==ℤ self.id) ≡ false
      → sprintf_into filled_with_zero (leader_message id) ≡ ok passed
      → lcr_election env (codes "LEADER") id (on_ring self old successor rest s)
        ≡ ok (
          if env.send s.trace successor.tcp_socket passed ==ℤ negsuc 0 then pos 0 else pos 1,
          told,
        )
  unfolding lcr_election leader_announced
  lcr_election-told other fits = rw other (
      forward_then env (record s { participant = pos 0 }) self
        (record old { id = id; leader = pos 1 }) successor rest (leader_message id) passed
        (λ r. if r ==ℤ negsuc 0 then pos 0 else pos 1) fits)

pub lcr_election-own :
    (env : Env) (s : Server) (self : ServerInfo) (peers : List ServerInfo)
    → lcr_election env (codes "LEADER") self.id (record s { connected_peers = self ∷ peers })
      ≡ ok (pos 0, record s { connected_peers = self ∷ peers; participant = pos 0 })
unfolding lcr_election leader_announced
lcr_election-own env s self peers = rw (==ℤ_refl self.id) refl
