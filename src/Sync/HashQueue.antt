-- ===== src/Sync/HashQueue.antt =====
-- `HashQueue` of sync/src/utils/hash_queue.rs: a deque of hashes beside the set of its elements.
-- The deque is a list from front to back, the set a list read through `contains` and `erase`.
-- A method returns the new queue beside its result; `panic` is a panic of the source.
pub mod Invariant
pub mod Positions
pub mod Steps
pub mod Pushes
use rust_randchain_prototype.Prelude.{
  ℕ, zero, suc, ◌+◌, ◌-◌, Bool, not, Option, none, some, List, [], ◌∷◌, ◌++◌, leb, ◌==◌,
  if◌then◌else◌, as_u32, H256, Run, ok, panic, ◌>>=◌, length, get_elem?, take, get_last?, drop_last,
  contains, erase,
}

pub data HashPosition : Type 0 where
  missing : HashPosition
  front : HashPosition
  inside : ℕ → HashPosition

pub record HashQueue : Type 0 where
  pub queue : List H256
  pub set : List H256

unfoldable pub new : HashQueue
new = record { queue = []; set = [] }

unfoldable pub clear : HashQueue → HashQueue
clear q = record { queue = []; set = [] }

unfoldable pub len : HashQueue → ℕ
len q = as_u32 (length q.queue)

unfoldable pub front_of : HashQueue → Option H256
front_of q = get_elem? q.queue 0

unfoldable pub back : HashQueue → Option H256
back q = get_last? q.queue

-- `enumerate`, `filter_map` and `nth(0)`: the count of the first element that is equal.
unfoldable pub position_from : ℕ → List H256 → H256 → Option ℕ
position_from i [] h = none
position_from i (x ∷ xs) h = if h == x then some (as_u32 i) else position_from (i + 1) xs h

unfoldable pub position : HashQueue → H256 → Option ℕ
unfolding position_from
position q h = position_from 0 q.queue h

unfoldable pub at : HashQueue → ℕ → Option H256
at q i = get_elem? q.queue i

unfoldable pub pre_back : HashQueue → Option H256
pre_back q = let n = length q.queue in if leb n 1 then none else get_elem? q.queue (n - 2)

unfoldable pub has : HashQueue → H256 → Bool
has q h = contains q.set h

unfoldable pub front_n : HashQueue → ℕ → List H256
front_n q n = take n q.queue

unfoldable pub pop_front : HashQueue → Option H256 × HashQueue
pop_front q = elim q.queue [
  | [] ↦ (none, q)
  | h ∷ rest ↦ (some h, record { queue = rest; set = erase q.set h })
]

-- The `for _ in 0..n` of `pop_front_n`, with `result` so far.
unfoldable pub pop_front_loop : ℕ → HashQueue → List H256 → List H256 × HashQueue
unfolding pop_front
pop_front_loop zero q result = (result, q)
pop_front_loop (suc n) q result =
    let (popped, q') = pop_front q in
    elim popped [ none ↦ (result, q') | some h ↦ pop_front_loop n q' (result ++ (h ∷ [])) ]

unfoldable pub pop_front_n : HashQueue → ℕ → List H256 × HashQueue
unfolding pop_front_loop
pop_front_n q n = pop_front_loop n q []

unfoldable pub pop_back : HashQueue → Option H256 × HashQueue
pop_back q = elim (get_last? q.queue) [
  | none ↦ (none, q)
  | some h ↦ (some h, record { queue = drop_last q.queue; set = erase q.set h })
]

unfoldable pub push_back : HashQueue → H256 → Run HashQueue
push_back q h =
    if contains q.set h then panic else ok (record { queue = q.queue ++ (h ∷ []); set = h ∷ q.set })

unfoldable pub push_back_n : HashQueue → List H256 → Run HashQueue
unfolding push_back
push_back_n q [] = ok q
push_back_n q (h ∷ hashes) = do q' ← push_back q h; push_back_n q' hashes

-- The loop of `remove` over the indices: the index of the element and the deque without it.
unfoldable pub remove_loop : ℕ → List H256 → H256 → Run (ℕ × List H256)
remove_loop i [] h = panic
remove_loop i (x ∷ xs) h =
    if x == h then ok (i, xs) else (remove_loop (i + 1) xs h >>= λ found. ok (found.0, x ∷ found.1))

-- The part of `remove` behind its guard; the set has lost the hash.
unfoldable pub remove_present : List H256 → List H256 → H256 → Run (HashPosition × HashQueue)
remove_present [] s h = panic
remove_present (x ∷ rest) s h =
    if x == h then ok (front, record { queue = rest; set = erase s h }) else do
      (i, rest') ← remove_loop 0 (x ∷ rest) h
      ok (inside (as_u32 i), record { queue = rest'; set = erase s h })

unfoldable pub remove : HashQueue → H256 → Run (HashPosition × HashQueue)
unfolding remove_present
remove q h = if not (contains q.set h) then ok (missing, q) else remove_present q.queue q.set h

unfoldable pub remove_all : HashQueue → List H256 × HashQueue
remove_all q = (q.queue, record { queue = []; set = [] })
