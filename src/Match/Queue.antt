-- ===== src/Match/Queue.antt =====
-- src/match/match_queue.h and match_queue.cpp. The mutex makes each method one step. The deque is
-- the list `queue`, its front first, and the hash set the list `in_queue`, in any order.
pub mod Refinement
pub mod Examples
use cpp_game_room.Base.{
  ℕ, zero, suc, ◌≡◌, refl, Bool, true, false, ◌||◌, List, [], ◌∷◌, ◌++◌, ltb, ◌==◌, if◌then◌else◌,
  length,
}

-- in_queue_.count(x) != 0
unfoldable pub contains : ℕ → List ℕ → Bool
contains x [] = false
contains x (y ∷ ys) = y == x || contains x ys

-- std::remove with erase, and the set's erase: every entry equal to `x` goes.
unfoldable pub erase : ℕ → List ℕ → List ℕ
erase x [] = []
erase x (y ∷ ys) = let rest = erase x ys in if y == x then rest else y ∷ rest

pub record MatchQueue : Type 0 where
  pub queue : List ℕ
  pub in_queue : List ℕ

abbrev pub empty : MatchQueue
empty = record { queue = []; in_queue = [] }

unfoldable pub push : ℕ → MatchQueue → MatchQueue × Bool
push player_id q =
    if player_id == 0 || contains player_id q.in_queue
    then (q, false)
    else (record { queue = q.queue ++ player_id ∷ []; in_queue = player_id ∷ q.in_queue }, true)

-- MatchQueue::Remove
unfoldable pub remove : ℕ → MatchQueue → MatchQueue × Bool
remove player_id q =
    if contains player_id q.in_queue
    then (record { queue = erase player_id q.queue; in_queue = erase player_id q.in_queue }, true)
    else (q, false)

-- MatchQueue::Contains
unfoldable pub is_matching : ℕ → MatchQueue → Bool
is_matching player_id q = contains player_id q.in_queue

-- The loop of TryPopN: the front goes from the deque and the set to the result. A front taken from
-- an empty deque would be undefined; the size is tested first.
unfoldable pub pop_loop : ℕ → List ℕ → List ℕ → List ℕ → MatchQueue × List ℕ
pop_loop zero front set result = (record { queue = front; in_queue = set }, result)
pop_loop (suc n) [] set result = (record { queue = []; in_queue = set }, result)
pop_loop (suc n) (x ∷ front) set result = pop_loop n front (erase x set) (result ++ x ∷ [])

unfoldable pub try_pop_n : ℕ → MatchQueue → MatchQueue × List ℕ
unfolding pop_loop
try_pop_n n q = if ltb (length q.queue) n then (q, []) else pop_loop n q.queue q.in_queue []

-- MatchQueue::PopN
unfoldable pub pop_n : ℕ → MatchQueue → MatchQueue × List ℕ
unfolding try_pop_n
pop_n n q = try_pop_n n q

unfoldable pub size : MatchQueue → ℕ
size q = length q.queue
