-- ===== src/Peers/Positions.antt =====
-- The positions that the walks of chat-c/server_struct.c find for a node that stands behind `before`.
use ds_project.Base.{
  ℕ, suc, ◌+◌, ◌≡◌, ◌≢◌, refl, ap, ◌∙◌, true, List, [], ◌∷◌, ◌++◌, some, ok, pos, ◌==ℤ◌, ==ℤ_iff,
  ==ℤ_refl, All, arith, get_elem?, length,
}
use ds_project.Peers.{
  ServerInfo, delete_server, find_peer_socket, ist_peer_server, find_before, get_last_server,
  last_from,
}

abbrev pub last_of : ServerInfo → List ServerInfo → ServerInfo
last_of p [] = p
last_of p (q ∷ rest) = last_of q rest

find_peer_socket-behind :
    (at : ℕ) (current gone : ServerInfo) (before after : List ServerInfo)
    → All (λ p. p.tcp_socket ≢ gone.tcp_socket) before
    → find_peer_socket at current (before ++ gone ∷ after) gone.tcp_socket
      ≡ some (at + length before)
unfolding find_peer_socket
find_peer_socket-behind at current gone [] after h = rw (==ℤ_refl gone.tcp_socket) (ground arith)
find_peer_socket-behind at current gone (b ∷ before) after h = ground (
  arith,
  ==ℤ_iff b.tcp_socket gone.tcp_socket,
  find_peer_socket-behind (suc at) b gone before after h.1,
)

pub ist_peer_server-behind :
    (head gone : ServerInfo) (before after : List ServerInfo)
    → (head.leader ==ℤ pos 1) ≡ true
    → All (λ p. p.tcp_socket ≢ gone.tcp_socket) before
    → ist_peer_server gone.tcp_socket (head ∷ before ++ gone ∷ after) ≡ ok (some (length before))
unfolding ist_peer_server
ist_peer_server-behind head gone before after lead h =
    rw lead (ap ok (find_peer_socket-behind 0 head gone before after h ∙ ap some (omega arith)))

find_before_from :
    (at : ℕ) (gone : ServerInfo) (before after : List ServerInfo)
    → All (λ p. p.id ≢ gone.id) before
    → find_before at (before ++ gone ∷ after) gone.id ≡ some (at + length before)
unfolding find_before
find_before_from at gone [] after h = rw (==ℤ_refl gone.id) (ground arith)
find_before_from at gone (b ∷ before) after h =
    ground (arith, ==ℤ_iff b.id gone.id, find_before_from (suc at) gone before after h.1)

pub find_before-behind :
    (gone : ServerInfo) (before after : List ServerInfo)
    → All (λ p. p.id ≢ gone.id) before
    → find_before 0 (before ++ gone ∷ after) gone.id ≡ some (length before)
find_before-behind gone before after h =
    find_before_from 0 gone before after h ∙ ap some (omega arith)

pub delete_server-behind :
    (head gone : ServerInfo) (before after : List ServerInfo)
    → All (λ p. p.id ≢ gone.id) before
    → delete_server (head ∷ before ++ gone ∷ after) gone.id ≡ ok (head ∷ before ++ after, 1)
unfolding delete_server
delete_server-behind head gone [] after h = rw (==ℤ_refl gone.id) refl
delete_server-behind head gone (b ∷ before) after h =
    ground (arith, ==ℤ_iff b.id gone.id, delete_server-behind b gone before after h.1)

pub get_elem?-behind :
    (x : ServerInfo) (before after : List ServerInfo)
    → get_elem? (before ++ x ∷ after) (length before) ≡ some x
get_elem?-behind x [] after = refl
get_elem?-behind x (b ∷ before) after = get_elem?-behind x before after

pub get_elem?-last :
    (p : ServerInfo) (l after : List ServerInfo)
    → get_elem? (p ∷ l ++ after) (length l) ≡ some (last_of p l)
get_elem?-last p [] after = refl
get_elem?-last p (q ∷ l) after = get_elem?-last q l after

pub get_elem?-end :
    (p : ServerInfo) (l : List ServerInfo) → get_elem? (p ∷ l) (length l) ≡ some (last_of p l)
get_elem?-end p [] = refl
get_elem?-end p (q ∷ l) = get_elem?-end q l

pub last_of-append :
    (p q : ServerInfo) (l m : List ServerInfo) → last_of p (l ++ q ∷ m) ≡ last_of q m
last_of-append p q [] m = refl
last_of-append p q (r ∷ l) m = last_of-append r q l m

pub get_elem?-next :
    (l after : List ServerInfo) → get_elem? (l ++ after) (length l) ≡ get_elem? after 0
get_elem?-next [] after = refl
get_elem?-next (q ∷ l) after = get_elem?-next l after

last_from-length : (at : ℕ) (l : List ServerInfo) → last_from at l ≡ at + length l
unfolding last_from
last_from-length at [] = omega arith
last_from-length at (p ∷ l) = omega (arith, last_from-length (suc at) l)

pub get_last_server-length :
    (head : ServerInfo) (l : List ServerInfo) → get_last_server (head ∷ l) ≡ ok (length l)
unfolding get_last_server
get_last_server-length head l = ap ok (last_from-length 0 l ∙ omega arith)
