-- ===== src/Clients/Table.antt =====
-- The client table: who is in it after each operation.
use ds_project.Base.{
  ◌⊎◌, length-take, ℕ, zero, suc, ◌+◌, ◌-◌, ◌<◌, ◌≤◌, ◌≡◌, refl, true, false, List, [], ◌∷◌, ◌++◌,
  none, some, ok, ℤ, pos, ◌==ℤ◌, ◌==◌, ltb, if◌then◌else◌, get_elem?, set, length, length-set, take,
  erase_idx, arith, ap, sym, ◌∙◌, Bool-cases, Option-cases, inl, inr,
}
use ds_project.Text.{Bytes}
use ds_project.Server.{
  bind_ok, Env, Server, ClientInfo, ◌>>◌, ◌>>=◌, get_state, put_state, max_connection,
}
use ds_project.Clients.{
  clients, write_client, find_client, shift_left, remove_client_from_list, assign_client_info,
}

-- The array has its 20 entries, and the count is within it.
pub record IsTable (s : Server) : Type 0 where
  pub size : length s.client_array ≡ max_connection
  pub count : s.client_count ≤ max_connection

-- The list without the first client that has the socket.
abbrev pub drop_client : ℤ → List ClientInfo → List ClientInfo
drop_client fd [] = []
drop_client fd (c ∷ rest) = if c.socket ==ℤ fd then rest else c ∷ drop_client fd rest

shift_left_tail :
    (r cj : ℕ) (c : ClientInfo) (array : List ClientInfo)
    → shift_left r (suc cj) (c ∷ array) ≡ c ∷ shift_left r cj array
unfolding shift_left
shift_left_tail zero cj c array = refl
shift_left_tail (suc r) cj c array = elim (Option-cases (get_elem? array (suc cj))) [
  | inl e ↦ rw (e, shift_left) refl
  | inr (d, e) ↦ rw (e, shift_left) (shift_left_tail r (suc cj) c (set array cj d))
]

shift_left_head :
    (r : ℕ) (c : ClientInfo) (array : List ClientInfo)
    → r ≤ length array
    → take r (shift_left r 0 (c ∷ array)) ≡ take r array
unfolding shift_left
shift_left_head zero c array h = refl
shift_left_head (suc r) c [] h = absurd (omega arith)
shift_left_head (suc r) c (d ∷ array) h =
    ap (take (suc r)) (shift_left_tail r 0 d (d ∷ array))
    ∙ ap (◌∷◌ d) (shift_left_head r d array (omega arith))

take-shift_left :
    (n r k : ℕ) (array : List ClientInfo)
    → n ≡ k + r
    → n < length array
    → take n (shift_left r k array) ≡ erase_idx (take (suc n) array) k
take-shift_left n r k [] e h = absurd (omega arith)
take-shift_left n r zero (c ∷ array) e h =
    rw (let same : n ≡ r = omega arith in same) (shift_left_head r c array (omega arith))
take-shift_left zero r (suc k) (c ∷ array) e h = absurd (omega arith)
take-shift_left (suc n) r (suc k) (c ∷ array) e h =
    ap (take (suc n)) (shift_left_tail r k c array)
    ∙ ap (◌∷◌ c) (take-shift_left n r k array (omega arith) (omega arith))

length-shift_left :
    (r k : ℕ) (array : List ClientInfo) → length (shift_left r k array) ≡ length array
unfolding shift_left
length-shift_left zero k array = refl
length-shift_left (suc r) k array = elim (Option-cases (get_elem? array (suc k))) [
  | inl e ↦ rw (e, shift_left) refl
  | inr (d, e) ↦
      rw (e, shift_left) (length-shift_left r (suc k) (set array k d) ∙ length-set array k d)
]

find_client_lem :
    (fd : ℤ) (at : ℕ) (l : List ClientInfo)
    → ((find_client (λ c. c.socket ==ℤ fd) at l ≡ none) × (drop_client fd l ≡ l))
      ⊎ ((k : ℕ) × (c : ClientInfo) × (find_client (λ d. d.socket ==ℤ fd) at l ≡ some (at + k, c))
          × (k < length l)
          × (drop_client fd l ≡ erase_idx l k))
find_client_lem fd at [] = inl (refl, refl)
find_client_lem fd at (c ∷ rest) = elim (Bool-cases (c.socket ==ℤ fd)) [
  | inl e ↦ inr (0, c, rw e (ground arith), omega arith, rw e refl)
  | inr e ↦ elim (find_client_lem fd (suc at) rest) [
    | inl (f, g) ↦ inl (rw e f, rw e (ap (◌∷◌ c) g))
    | inr (k, d, f, lt, g) ↦
        inr (suc k, d, rw e (ground (arith, f)), omega (arith, lt), rw e (ap (◌∷◌ c) g))
  ]
]

length-clients : (s : Server) → IsTable s → length (clients s) ≡ s.client_count
length-clients s h = omega (arith, length-take s.client_count s.client_array, h.size, h.count)

-- `remove_client_from_list` takes the first client with the socket out of the table, closes the gap,
-- and keeps the others in order; with no such client it changes nothing. The table stays within its
-- bounds, and the rest of the state is untouched.
pub remove_client_from_list_lem :
    (s : Server) (fd : ℤ)
    → IsTable s
    → (array : List ClientInfo) × (n : ℕ) × (remove_client_from_list fd s
        ≡ ok (tt, record s { client_array = array; client_count = n }))
      × (take n array ≡ drop_client fd (clients s))
      × (length array ≡ max_connection)
      × (n ≤ max_connection)
unfolding remove_client_from_list
remove_client_from_list_lem s fd h = elim (find_client_lem fd 0 (clients s)) [
  | inl (f, g) ↦
      (s.client_array, s.client_count, rw (f, remove_client_from_list) refl, sym g, h.size, h.count)
  | inr (k, c, f, lt, g) ↦
      let inside : k < s.client_count = omega (arith, length-clients s h) in
      (
        shift_left (s.client_count - 1 - k) k s.client_array,
        s.client_count - 1,
        rw (f, remove_client_from_list) (ground arith),
        take-shift_left (s.client_count - 1) (s.client_count - 1 - k) k s.client_array (omega arith)
              (omega (arith, h.size, h.count))
            ∙ rw (let same : suc (s.client_count - 1) ≡ s.client_count = omega arith in same)
                (sym g),
        length-shift_left _ k s.client_array ∙ h.size,
        omega (arith, h.count),
      )
]

take-set :
    (n : ℕ) (array : List ClientInfo) (c : ClientInfo)
    → n < length array
    → take (suc n) (set array n c) ≡ take n array ++ c ∷ []
take-set n [] c h = absurd (omega arith)
take-set zero (d ∷ array) c h = refl
take-set (suc n) (d ∷ array) c h = ap (◌∷◌ d) (take-set n array c (omega arith))

-- The entry of a client that has not told its ID yet.
abbrev pub new_client_info : ℤ → Bytes → ClientInfo
new_client_info fd client_ip = record { id = pos 0; socket = fd; ip_addr = take 16 client_ip }

room_left : {n : ℕ} → n < max_connection → (n == max_connection) ≡ false
room_left room = ground arith

module _ (env : Env) (s : Server) (fd : ℤ) (client_ip : Bytes) (h : IsTable s) where
  add_client :
      s.client_count < max_connection
      → (write_client s.client_count (new_client_info fd client_ip)
            >> (get_state >>= λ t. put_state (record t { client_count = suc t.client_count })))
          s
        ≡ ok (
          tt,
          record s {
            client_array = set s.client_array s.client_count (new_client_info fd client_ip);
            client_count = suc s.client_count;
          },
        )
  add_client room =
      bind_ok (write_client s.client_count (new_client_info fd client_ip))
        (λ _. get_state >>= λ t. put_state (record t { client_count = suc t.client_count }))
        (rw
          (let inside : ltb s.client_count (length s.client_array) ≡ true =
              ground (arith, h.size) in
            inside)
          refl)

  -- While there is room and memory, a connection is taken in as the last client, under ID 0, and
  -- nothing is sent or closed; the table stays within its bounds.
  pub assign_client_info_room :
      s.client_count < max_connection
      → env.malloc s.trace ≡ true
      → (t : Server) × (assign_client_info env fd (some client_ip) s ≡ ok (tt, t))
        × (clients t ≡ clients s ++ new_client_info fd client_ip ∷ [])
        × IsTable t
        × (t.trace ≡ s.trace)
  unfolding assign_client_info
  assign_client_info_room room memory = (
    record s {
      client_array = set s.client_array s.client_count (new_client_info fd client_ip);
      client_count = suc s.client_count;
    },
    rw (room_left room, memory) (add_client room),
    take-set s.client_count s.client_array (new_client_info fd client_ip) (omega (arith, h.size)),
    record {
      size = length-set s.client_array s.client_count (new_client_info fd client_ip) ∙ h.size;
      count = room;
    },
    refl,
  )
