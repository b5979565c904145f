-- ===== src/HoldBack.antt =====
-- The hold-back queue of a chat client: chat-c/client/data_structure.c, and the delivery loop of
-- `deliver_messages` in chat-c/client/client_s.c. A node that is freed is never read again, so the
-- queue is a list, oldest arrival first. The array DELIVERED counts what was delivered of each member.
pub mod Deliver
pub mod Causal
pub mod Blocked
pub mod Counted
mod Tests
use ds_project.Base.{
  ◌≡◌, refl, ℕ, zero, suc, ◌+◌, ◌≡◌, Bool, true, false, not, List, [], ◌∷◌, ◌++◌, replicate, Option,
  none, some, Result, ok, err, out_of_range, int_overflow, ◌>>=◌, deref, ℤ, pos, negsuc, ltb_ℤ,
  ◌==ℤ◌, ltb, int_max, if◌then◌else◌, get_elem?, set,
}
use ds_project.Text.{Bytes}

-- `MAX_GROUP_SIZE`.
abbrev pub max_group_size : ℕ
max_group_size = 10

pub record HoldBackQueue : Type 0 where
  pub id : ℤ
  pub clk_index : ℤ
  pub content : Bytes
  pub dependency : List ℤ

-- The walk behind the head compares `current->next`, and unlinks the first match.
remove_behind : HoldBackQueue → List HoldBackQueue → ℤ → List HoldBackQueue
remove_behind current [] clk_index = current ∷ []
remove_behind current (next ∷ rest) clk_index =
    if next.clk_index ==ℤ clk_index
    then current ∷ rest
    else current ∷ remove_behind next rest clk_index

pub remove_from_holdback_queue : List HoldBackQueue → ℤ → List HoldBackQueue
unfolding remove_behind
remove_from_holdback_queue [] clk_index = []
remove_from_holdback_queue (head ∷ next) clk_index =
    if head.clk_index ==ℤ clk_index then next else remove_behind head next clk_index

-- Both arrays have `max_group_size` entries. 1 if an entry of the first is greater.
unfoldable pub array_compare : List ℤ → List ℤ → ℕ
array_compare [] arr2 = 0
array_compare (a ∷ arr1) [] = 0
array_compare (a ∷ arr1) (b ∷ arr2) =
    if not (a ==ℤ b)
    then if ltb_ℤ b a then 1 else array_compare arr1 arr2
    else array_compare arr1 arr2

-- `x + 1` on an `int`.
abbrev pub increment : ℤ → Result ℤ
increment (pos n) = if ltb n int_max then ok (pos (suc n)) else err int_overflow
increment (negsuc zero) = ok (pos 0)
increment (negsuc (suc n)) = ok (negsuc n)

-- An index into an array; a negative one, or one past the end, stops the run.
abbrev pub index : ℤ → Result ℕ
index (pos n) = ok n
index (negsuc n) = err out_of_range

abbrev pub in_range {ℓ} : {A : Type ℓ} → Option A → Result A
in_range none = err out_of_range
in_range (some a) = ok a

-- `DELIVERED[i] += 1`.
unfoldable pub bump : List ℤ → ℤ → Result (List ℤ)
bump delivered i = do
  k ← index i
  old ← in_range (get_elem? delivered k)
  new ← increment old
  ok (set delivered k new)

-- What the loop has left: the queue, DELIVERED, and what was delivered, newest first.
pub record Delivery : Type 0 where
  pub queue : List HoldBackQueue
  pub delivered : List ℤ
  pub log : List HoldBackQueue

-- The `while` loop of `deliver_messages`, at `current`.
pub deliver_loop : List HoldBackQueue → Delivery → Result Delivery
unfolding bump
deliver_loop [] s = ok s
deliver_loop (current ∷ next) s =
    if ltb 0 (array_compare current.dependency s.delivered)
    then ok s
    else bump s.delivered current.clk_index >>= λ delivered. deliver_loop next (record {
      queue = remove_from_holdback_queue s.queue current.clk_index;
      delivered = delivered;
      log = current ∷ s.log;
    })

-- A message that arrives is linked last, and the loop is run from the head.
pub arrive : Delivery → HoldBackQueue → Result Delivery
arrive s m = let q = s.queue ++ m ∷ [] in deliver_loop q (record s { queue = q })

pub arrive_all : Delivery → List HoldBackQueue → Result Delivery
arrive_all s [] = ok s
arrive_all s (m ∷ ms) = arrive s m >>= λ t. arrive_all t ms

-- The globals as the client starts.
abbrev pub nothing_delivered : Delivery
nothing_delivered = record { queue = []; delivered = replicate max_group_size (pos 0); log = [] }

-- The loop on a queue that is not empty, which an arrival makes it.
pub arrive_step :
    (s : Delivery) (m : HoldBackQueue)
    → arrive s m ≡ deliver_loop (s.queue ++ m ∷ []) (record s { queue = s.queue ++ m ∷ [] })
unfolding arrive
arrive_step s m = refl
