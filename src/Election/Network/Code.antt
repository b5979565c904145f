-- ===== src/Election/Network/Code.antt =====
-- `lcr_election` answers a vote as the network says.
use ds_project.Base.{
  ◌≡◌, refl, inl, inr, true, false, Bool-cases, List, [], ◌∷◌, ok, ℤ, pos, negsuc, ltb_ℤ, ◌==ℤ◌,
  if◌then◌else◌, ap, ◌∙◌, sym, arith,
}
use ds_project.Text.{Bytes, codes}
use ds_project.Frame.{sprintf_into, filled_with_zero}
use ds_project.Peers.{ServerInfo}
use ds_project.Server.{Env, Server, Event, sent}
use ds_project.Election.{lcr_election, vote_message, leader_message}
use ds_project.Election.Vote.{on_ring, vote_passed, vote_won}
use ds_project.Election.Network.{Reply, pass, enter, stop, win, vote_reply}
use ds_project.Election.Network.Members.{not_below_eq}

-- The text that a reply sends, what reaches the operating system, and whether the server takes part.
abbrev pub reply_text : ServerInfo → ℤ → Reply → Bytes
reply_text self vote pass = vote_message vote
reply_text self vote enter = vote_message self.id
reply_text self vote stop = []
reply_text self vote win = leader_message self.id

abbrev pub reply_trace : ℤ → Bytes → List Event → Reply → List Event
reply_trace fd buffer t stop = t
reply_trace fd buffer t pass = sent fd buffer ∷ t
reply_trace fd buffer t enter = sent fd buffer ∷ t
reply_trace fd buffer t win = sent fd buffer ∷ t

abbrev pub takes_part : ℤ → Reply → ℤ
takes_part participant pass = participant
takes_part participant stop = participant
takes_part participant enter = pos 1
takes_part participant win = pos 1

module _ (env : Env) (s : Server) (self old successor : ServerInfo) (rest : List ServerInfo)
    (vote : ℤ) (buffer : Bytes) where
  abbrev pub Replies : Reply → Type 0
  Replies r =
      (answer : ℤ) × (t : Server) × (lcr_election env (codes "VOTE") vote
          (on_ring self old successor rest s)
        ≡ ok (answer, t))
      × (t.participant ≡ takes_part s.participant r)
      × (t.trace ≡ reply_trace successor.tcp_socket buffer s.trace r)

  -- The list with the ring, in the state.
  abbrev ring : Server
  ring = on_ring self old successor rest s

  passes :
      ltb_ℤ self.id vote ≡ true
      → sprintf_into filled_with_zero (vote_message vote) ≡ ok buffer
      → Replies pass
  passes up fits =
      let down : ltb_ℤ vote self.id ≡ false = ground (arith, up) in
      let other : (vote ==ℤ self.id) ≡ false = ground (arith, up) in
      (
        if env.send s.trace successor.tcp_socket buffer ==ℤ negsuc 0 then negsuc 0 else pos 0,
        record ring { send_buf = buffer; trace = sent successor.tcp_socket buffer ∷ s.trace },
        vote_passed env s self old successor rest vote buffer other (rw up fits) ∙ rw down refl,
        refl,
        refl,
      )

  enters :
      ltb_ℤ vote self.id ≡ true
      → (s.participant ==ℤ pos 1) ≡ false
      → sprintf_into filled_with_zero (vote_message self.id) ≡ ok buffer
      → Replies enter
  enters down new fits =
      let up : ltb_ℤ self.id vote ≡ false = ground (arith, down) in
      let other : (vote ==ℤ self.id) ≡ false = ground (arith, down) in
      (
        if env.send s.trace successor.tcp_socket buffer ==ℤ negsuc 0 then negsuc 0 else pos 0,
        record ring {
          participant = pos 1;
          send_buf = buffer;
          trace = sent successor.tcp_socket buffer ∷ s.trace;
        },
        vote_passed env s self old successor rest vote buffer other (rw up fits)
            ∙ rw (down, new) refl,
        refl,
        refl,
      )

  stops :
      ltb_ℤ vote self.id ≡ true
      → (s.participant ==ℤ pos 1) ≡ true
      → (b : Bytes) → sprintf_into filled_with_zero (vote_message self.id) ≡ ok b
      → Replies stop
  stops down part b fits =
      let up : ltb_ℤ self.id vote ≡ false = ground (arith, down) in
      let other : (vote ==ℤ self.id) ≡ false = ground (arith, down) in
      (
        pos 0,
        ring,
        vote_passed env s self old successor rest vote b other (rw up fits) ∙ rw (down, part) refl,
        refl,
        refl,
      )

  wins :
      self.id ≡ vote
      → (self.leader ==ℤ pos 1) ≡ false
      → sprintf_into filled_with_zero (leader_message self.id) ≡ ok buffer
      → Replies win
  wins same follower fits = (
    _,
    _,
    ap (λ v. lcr_election env (codes "VOTE") v ring) (sym same)
        ∙ vote_won env s self old successor rest buffer follower fits,
    refl,
    refl,
  )

  -- A server that is not the leader, on a ring of at least three, does with a vote what the network's
  -- reply says: it sends its successor the vote, its own vote, nothing, or that it leads, if that text
  -- and its own vote fit the buffer, and takes part from then on if it sent its own vote or that it
  -- leads.
  pub lcr_election-vote_reply :
      (own : Bytes)
      → (self.leader ==ℤ pos 1) ≡ false
      → sprintf_into filled_with_zero (vote_message self.id) ≡ ok own
      → sprintf_into filled_with_zero
          (reply_text self vote (vote_reply self.id (s.participant ==ℤ pos 1) vote))
        ≡ ok buffer
      → Replies (vote_reply self.id (s.participant ==ℤ pos 1) vote)
  unfolding vote_reply
  lcr_election-vote_reply own follower own_fits fits = elim (Bool-cases (ltb_ℤ self.id vote)) [
    | inl up ↦ rw up (passes up (rw up at fits))
    | inr not_up ↦ elim (Bool-cases (ltb_ℤ vote self.id)) [
      | inl down ↦ elim (Bool-cases (s.participant ==ℤ pos 1)) [
        | inl part ↦ rw (not_up, down, part) (stops down part own own_fits)
        | inr new ↦ rw (not_up, down, new) (enters down new (rw (not_up, down, new) at fits))
      ]
      | inr not_down ↦
          rw (not_up, not_down)
            (wins (not_below_eq self.id vote not_up not_down) follower
              (rw (not_up, not_down) at fits))
    ]
  ]
