-- ===== src/Election/Network.antt =====
-- The election of chat-c/election_lcr.c on a whole ring of servers, as votes that travel: what each
-- server does with a vote is read off `lcr_election`, and one step is the arrival of a vote at the next
-- server, or a server that begins with its own. Votes are not lost on the way; who is next to
-- receive one, and who begins when, is left open.
pub mod Code
pub mod Members
pub mod Invariant
pub mod Arrival
pub mod Elects
pub mod Bound
mod Tests
use mathlib.Core.List.{reverse}
use ds_project.Base.{
  ◌≡◌, ◌+◌, ◌*◌, ℕ, zero, suc, Bool, true, false, List, [], ◌∷◌, ◌++◌, ℤ, ltb_ℤ, ◌==ℤ◌, ◌||◌,
  if◌then◌else◌, length,
}

-- What a server does with a vote: it passes it on, sends its own instead, stops it, or has won.
pub data Reply : Type 0 where
  pass : Reply
  enter : Reply
  stop : Reply
  win : Reply

unfoldable pub vote_reply : ℤ → Bool → ℤ → Reply
vote_reply self participant vote =
    if ltb_ℤ self vote
    then pass
    else if ltb_ℤ vote self
    then (if participant then stop else enter)
    else win

-- A vote on its way: the servers that it passed since its own, the last first, and those ahead.
pub record Flight : Type 0 where
  pub vote : ℤ
  pub passed : List ℤ
  pub ahead : List ℤ

pub record Net : Type 0 where
  pub participants : List ℤ
  pub flights : List Flight
  pub winners : List ℤ

abbrev pub mem : ℤ → List ℤ → Bool
mem x [] = false
mem x (y ∷ l) = y ==ℤ x || mem x l

-- The vote of a server, with the others in the order of the ring.
abbrev pub own_flight : ℤ → List ℤ → Flight
own_flight p others = record { vote = p; passed = []; ahead = others }

-- A vote reaches the server `q`; `others` are the votes that stay on their way.
abbrev pub arrive_at : Net → Flight → ℤ → List ℤ → List Flight → Reply → Net
arrive_at n f q rest others pass = record n {
  flights = record { vote = f.vote; passed = q ∷ f.passed; ahead = rest } ∷ others;
}
arrive_at n f q rest others enter = record n {
  participants = q ∷ n.participants;
  flights = own_flight q (rest ++ f.vote ∷ reverse f.passed) ∷ others;
}
arrive_at n f q rest others stop = record n { flights = others }
arrive_at n f q rest others win = record n { flights = others; winners = q ∷ n.winners }

-- `ring` is the ring of servers, from some server on.
pub data Step (ring : List ℤ) (n : Net) (m : Net) : Type 0 where
  begin :
      (p : ℤ) (before after : List ℤ)
      → ring ≡ before ++ p ∷ after
      → mem p n.participants ≡ false
      → m ≡ record n {
        participants = p ∷ n.participants;
        flights = own_flight p (after ++ before) ∷ n.flights;
      }
      → Step ring n m
  arrive :
      (f : Flight) (q : ℤ) (rest : List ℤ) (fs gs : List Flight)
      → n.flights ≡ fs ++ f ∷ gs
      → f.ahead ≡ q ∷ rest
      → m ≡ arrive_at n f q rest (fs ++ gs) (vote_reply q (mem q n.participants) f.vote)
      → Step ring n m
  come_home :
      (f : Flight) (fs gs : List Flight)
      → n.flights ≡ fs ++ f ∷ gs
      → f.ahead ≡ []
      → m
        ≡ arrive_at n f f.vote [] (fs ++ gs) (vote_reply f.vote (mem f.vote n.participants) f.vote)
      → Step ring n m

pub data Reach (ring : List ℤ) (n : Net) : Net → Type 0 where
  here : Reach ring n n
  next : {m k : Net} → Reach ring n m → Step ring m k → Reach ring n k

-- Nobody has begun.
abbrev pub quiet : Net
quiet = record { participants = []; flights = []; winners = [] }
