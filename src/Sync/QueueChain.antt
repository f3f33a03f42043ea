-- ===== src/Sync/QueueChain.antt =====
-- `HashQueueChain` of sync/src/utils/hash_queue.rs: queues in a row, addressed by their index. An
-- index that is out of range panics, as the source's `self.chain[queue_index]` does.
pub mod Order
use rust_randchain_prototype.Prelude.{
  ℕ, zero, suc, ◌+◌, ◌-◌, Option, none, some, List, [], ◌∷◌, ◌++◌, ltb, ◌==◌, if◌then◌else◌,
  add_u32, H256, Run, ok, panic, ◌>>=◌, expect, length, get_elem?, set, is_some,
}
use rust_randchain_prototype.Sync.HashQueue
use rust_randchain_prototype.Sync.HashQueue.{HashQueue, HashPosition}

pub record HashQueueChain : Type 0 where
  pub chain : List HashQueue

-- `repeat(HashQueue::new()).take(n).collect()`
unfoldable pub new_queues : ℕ → List HashQueue
new_queues zero = []
new_queues (suc n) = HashQueue.new ∷ new_queues n

unfoldable pub with_number_of_queues : ℕ → Run HashQueueChain
unfolding new_queues
with_number_of_queues n = if n == 0 then panic else ok (record { chain = new_queues n })

unfoldable pub len_loop : ℕ → List HashQueue → ℕ
len_loop total [] = total
len_loop total (q ∷ qs) = len_loop (add_u32 total (HashQueue.len q)) qs

unfoldable pub len : HashQueueChain → ℕ
unfolding len_loop
len c = len_loop 0 c.chain

unfoldable pub len_of : HashQueueChain → ℕ → Run ℕ
len_of c i = do q ← expect (get_elem? c.chain i); ok (HashQueue.len q)

unfoldable pub at_loop : ℕ → List HashQueue → Option H256
at_loop index [] = none
at_loop index (q ∷ qs) =
    if ltb index (HashQueue.len q)
    then HashQueue.at q index
    else at_loop (index - HashQueue.len q) qs

unfoldable pub at : HashQueueChain → ℕ → Option H256
unfolding at_loop
at c index = at_loop index c.chain

-- `Index for HashQueueChain`: the same walk, with a panic past the end.
unfoldable pub index : HashQueueChain → ℕ → Run H256
unfolding at
index c i = expect (at c i)

unfoldable pub front_at : HashQueueChain → ℕ → Run (Option H256)
front_at c i = do q ← expect (get_elem? c.chain i); ok (HashQueue.front_of q)

unfoldable pub back_at : HashQueueChain → ℕ → Run (Option H256)
back_at c i = do q ← expect (get_elem? c.chain i); ok (HashQueue.back q)

unfoldable pub pre_back_at : HashQueueChain → ℕ → Run (Option H256)
pre_back_at c i = do q ← expect (get_elem? c.chain i); ok (HashQueue.pre_back q)

-- The loop of `back`. At index 0 the subtraction `queue_index -= 1` underflows: it panics in the
-- dev profile, and in the release profile the next access does.
unfoldable pub back_loop : List HashQueue → ℕ → Run (Option H256)
back_loop qs zero = do
  q ← expect (get_elem? qs 0)
  if is_some (HashQueue.back q) then ok (HashQueue.back q) else panic
back_loop qs (suc i) =
    let earlier = back_loop qs i in
    expect (get_elem? qs (suc i)) >>= λ q.
    if is_some (HashQueue.back q)
    then ok (HashQueue.back q)
    else if i == 0
    then ok none
    else earlier

-- `self.chain.len() - 1` underflows on an empty chain.
unfoldable pub back : HashQueueChain → Run (Option H256)
unfolding back_loop
back c = elim (length c.chain) [ zero ↦ panic | suc last ↦ back_loop c.chain last ]

unfoldable pub contains_loop : ℕ → List HashQueue → H256 → Option ℕ
contains_loop i [] h = none
contains_loop i (q ∷ qs) h = if HashQueue.has q h then some i else contains_loop (i + 1) qs h

unfoldable pub contains_in : HashQueueChain → H256 → Option ℕ
unfolding contains_loop
contains_in c h = contains_loop 0 c.chain h

unfoldable pub front_n_at : HashQueueChain → ℕ → ℕ → Run (List H256)
front_n_at c i n = do q ← expect (get_elem? c.chain i); ok (HashQueue.front_n q n)

unfoldable pub pop_front_n_at : HashQueueChain → ℕ → ℕ → Run (List H256 × HashQueueChain)
pop_front_n_at c i n = do
  q ← expect (get_elem? c.chain i)
  let (hashes, q') = HashQueue.pop_front_n q n
  ok (hashes, record { chain = set c.chain i q' })

unfoldable pub push_back_at : HashQueueChain → ℕ → H256 → Run HashQueueChain
push_back_at c i h = do
  q ← expect (get_elem? c.chain i)
  q' ← HashQueue.push_back q h
  ok (record { chain = set c.chain i q' })

unfoldable pub push_back_n_at : HashQueueChain → ℕ → List H256 → Run HashQueueChain
push_back_n_at c i hashes = do
  q ← expect (get_elem? c.chain i)
  q' ← HashQueue.push_back_n q hashes
  ok (record { chain = set c.chain i q' })

unfoldable pub remove_at : HashQueueChain → ℕ → H256 → Run (HashPosition × HashQueueChain)
remove_at c i h = do
  q ← expect (get_elem? c.chain i)
  (position, q') ← HashQueue.remove q h
  ok (position, record { chain = set c.chain i q' })

unfoldable pub remove_all_at : HashQueueChain → ℕ → Run (List H256 × HashQueueChain)
remove_all_at c i = do
  q ← expect (get_elem? c.chain i)
  let (hashes, q') = HashQueue.remove_all q
  ok (hashes, record { chain = set c.chain i q' })
