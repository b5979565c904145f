-- ===== src/SocketChanges/Understood.antt =====
-- The messages of the servers, as `handle_socket_change` takes them apart.
use ds_project.Base.{
  ◌≡◌, ◌≢◌, ◌≤◌, ◌∙◌, refl, ap₂, sym, Bool, true, false, not, List, [], ◌∷◌, ◌++◌, append_assoc,
  append-nil, ℤ, ◌==◌, All, all, all-All, leb, ◌&&◌, length, ℕ, arith, take, take_all, length-take,
  ◌<◌,
}
use ds_project.Text.{Bytes, codes, Directive, lit, Value, num, txt, scan, print, print_int}
use ds_project.Text.RoundTrip.{Fits, Holds, scan-print}
use ds_project.Frame.{newline}
use ds_project.Frame.RoundTrip.{end_mark}
use ds_project.Peers.{ServerInfo}
use ds_project.Election.{vote_message, leader_message}
use ds_project.Disconnection.{update_text}
use ds_project.Joining.{know_text}
use ds_project.ServerLoop.{heartbeat_text}
use ds_project.SocketChanges.{
  Message, update_from_leader, election, know_new_leader, heartbeat, parse, update_format,
  election_format, know_format, heartbeat_format, client, client_format,
}

-- An address as the formats take it whole: 1 to 15 bytes, none of them a colon.
abbrev pub IsAddress : Bytes → Type 0
IsAddress addr = (addr ≢ []) × (length addr ≤ 15) × All (λ c. not (c == b':') ≡ true) addr

abbrev pub is_address : Bytes → Bool
is_address [] = false
is_address (c ∷ t) = leb (length (c ∷ t)) 15 && all (λ d. not (d == b':')) (c ∷ t)

pub is_address-IsAddress : (addr : Bytes) → is_address addr ≡ true → IsAddress addr
is_address-IsAddress [] h = cc
is_address-IsAddress (c ∷ t) h =
    ((λ e. cc), ground (arith, h), all-All (λ d. not (d == b':')) (c ∷ t) (ground (arith, h)))

-- The text, with its end mark taken off, is read as the message.
abbrev pub IsReadAs : Bytes → Bool → Message → Type 0
IsReadAs text from_leader message =
    (read : Bytes) × (text ≡ read ++ end_mark) × (parse from_leader read ≡ message)

pub scan_whole :
    (format : List Directive) (vs : List Value)
    → Fits format vs []
    → scan format (print format vs) ≡ vs
unfolding scan
scan_whole format vs h =
    ap₂ scan (sym (append-nil format)) (sym (append-nil (print format vs)))
    ∙ scan-print format [] vs [] h
    ∙ append-nil vs

-- A text that begins with another byte than a format.
pub scan_other :
    (c d : ℕ) (format : List Directive) (t : Bytes)
    → (d == c) ≡ false
    → scan (lit c ∷ format) (d ∷ t) ≡ []
unfolding scan
scan_other c d format t e = rw e refl

pub parse-update :
    (addr : Bytes) (id port : ℤ)
    → IsAddress addr
    → parse true (print update_format (txt addr ∷ num id ∷ num port ∷ []))
      ≡ update_from_leader addr id port
unfolding parse print
parse-update addr id port h =
    rw
      (scan_whole update_format (txt addr ∷ num id ∷ num port ∷ [])
        ((h.0, h.1, h.2, refl), (refl, (tt, tt))))
      refl

-- What the formats that come first make of the other messages.
parse_behind_update :
    (b : Bool) (c : ℕ) (t : Bytes) → (c == b'U') ≡ false → parse b (c ∷ t) ≡ parse false (c ∷ t)
unfolding parse
parse_behind_update false c t e = refl
parse_behind_update true c t e = rw (scan_other b'U' c _ t e) refl

pub parse-election :
    (b : Bool) (keyword : Bytes) (id : ℤ)
    → Holds (λ c. not (c == b':')) 7 keyword (b':' ∷ print_int id)
    → parse b (print election_format (txt keyword ∷ num id ∷ [])) ≡ election keyword id
unfolding parse print
parse-election b keyword id h =
    parse_behind_update b b'E' _ refl
    ∙ rw
        (
          scan_other b'C' b'E' _ _ refl,
          scan_whole election_format (txt keyword ∷ num id ∷ []) ((h.0, h.1, h.2, refl), (tt, tt)),
        )
        refl

pub parse-client :
    (b : Bool) (sender dest : ℤ) (message : Bytes)
    → Holds (λ c. not (c == newline)) 1023 message []
    → parse b (print client_format (num sender ∷ num dest ∷ txt message ∷ []))
      ≡ client sender dest message
unfolding parse print
parse-client b sender dest message h =
    parse_behind_update b b'C' _ refl
    ∙ rw
        (scan_whole client_format (num sender ∷ num dest ∷ txt message ∷ [])
          (refl, (refl, ((h.0, h.1, h.2, tt), tt))))
        refl

parse-know :
    (b : Bool) (id : ℤ) (addr : Bytes) (port s_id : ℤ) (s_addr : Bytes) (s_port : ℤ)
    → IsAddress addr
    → IsAddress s_addr
    → parse b
        (print know_format (num id ∷ txt addr ∷ num port ∷ num s_id ∷ txt s_addr ∷ num s_port ∷ []))
      ≡ know_new_leader id addr port s_id s_addr s_port
unfolding parse print
parse-know b id addr port s_id s_addr s_port h k =
    parse_behind_update b b'K' _ refl
    ∙ rw
        (
          scan_other b'C' b'K' _ _ refl,
          scan_other b'E' b'K' _ _ refl,
          scan_whole know_format
              (num id ∷ txt addr ∷ num port ∷ num s_id ∷ txt s_addr ∷ num s_port ∷ [])
              (refl, ((h.0, h.1, h.2, refl), (refl, (refl, ((k.0, k.1, k.2, refl), (tt, tt)))))),
        )
        refl

parse-heartbeat :
    (b : Bool) (id : ℤ) → parse b (print heartbeat_format (num id ∷ [])) ≡ heartbeat id
unfolding parse print
parse-heartbeat b id =
    parse_behind_update b b'H' _ refl
    ∙ rw
        (
          scan_other b'C' b'H' _ _ refl,
          scan_other b'E' b'H' _ _ refl,
          scan_other b'K' b'H' _ _ refl,
          scan_whole heartbeat_format (num id ∷ []) (tt, tt),
        )
        refl

pub take_short : (n : ℕ) (t : Bytes) → length (take n t) < n → take n t ≡ t
take_short n t h = take_all n t (omega (arith, length-take n t, h))

-- What the servers print for each other is read as what was meant, on any socket, or for the first
-- message on the leader's: the new successor's address, ID and port, in a text that `snprintf` did
-- not cut; a vote; the announcement of a leader; a leader with a successor; a heartbeat. The addresses
-- have 1 to 15 bytes, none of them a colon.
pub texts-IsReadAs :
    (b : Bool) (head : ServerInfo) (addr : Bytes) (id port : ℤ)
    → IsAddress addr
    → IsAddress head.addr
    → length (update_text addr id port) < 1023
    → IsReadAs (update_text addr id port) true (update_from_leader addr id port)
      × IsReadAs (vote_message id) b (election (codes "VOTE") id)
      × IsReadAs (leader_message id) b (election (codes "LEADER") id)
      × IsReadAs
          (know_text head id addr port)
          b
          (know_new_leader head.id head.addr head.port id addr port)
      × IsReadAs (heartbeat_text id) b (heartbeat id)
unfolding print
texts-IsReadAs b head addr id port h k short = (
  (
    print update_format (txt addr ∷ num id ∷ num port ∷ []),
    rw (take_short 1023 _ short) (simp (append_assoc, append-nil)),
    parse-update addr id port h,
  ),
  (
    print election_format (txt (codes "VOTE") ∷ num id ∷ []),
    simp (append-nil, append_assoc),
    parse-election b (codes "VOTE") id
        ((λ e. cc), omega arith, all-All (λ c. not (c == b':')) (codes "VOTE") refl, refl),
  ),
  (
    print election_format (txt (codes "LEADER") ∷ num id ∷ []),
    simp (append-nil, append_assoc),
    parse-election b (codes "LEADER") id
        ((λ e. cc), omega arith, all-All (λ c. not (c == b':')) (codes "LEADER") refl, refl),
  ),
  (
    print know_format
        (num head.id ∷ txt head.addr ∷ num head.port ∷ num id ∷ txt addr ∷ num port ∷ []),
    simp (append-nil, append_assoc),
    parse-know b head.id head.addr head.port id addr port k h,
  ),
  (print heartbeat_format (num id ∷ []), simp (append-nil, append_assoc), parse-heartbeat b id),
)
