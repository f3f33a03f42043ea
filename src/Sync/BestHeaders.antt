-- ===== src/Sync/BestHeaders.antt =====
-- `BestHeadersChain` of sync/src/utils/best_headers_chain.rs: the headers of blocks that are not in
-- the storage yet, and the order in which they continue the stored chain.
pub mod Linked
pub mod Insert
pub mod Clear
pub mod Remove
pub mod Stored
pub mod Steps
use rust_randchain_prototype.Prelude.{
  ℕ, zero, suc, ◌+◌, Option, none, some, List, [], ◌∷◌, ltb, ◌==◌, if◌then◌else◌, as_u32, add_u32,
  H256, Run, ok, panic, ◌>>=◌, length,
}
use rust_randchain_prototype.Prelude.HashMap
use rust_randchain_prototype.Blocks.{BlockHeader, IndexedBlockHeader}
use rust_randchain_prototype.Sync.HashQueue
use rust_randchain_prototype.Sync.HashQueue.{HashQueue, HashPosition, missing, front, inside}

pub record Information : Type 0 where
  pub best : ℕ
  pub total : ℕ

pub record BestHeadersChain (Pk Int : Type 0) : Type 0 where
  pub storage_best_hash : H256
  pub headers : List (H256 × IndexedBlockHeader Pk Int)
  pub best : HashQueue

module _ {Pk Int : Type 0} where
  unfoldable pub information : BestHeadersChain Pk Int → Information
  information c = record { best = HashQueue.len c.best; total = as_u32 (length c.headers) }

  unfoldable pub at : BestHeadersChain Pk Int → ℕ → Option (IndexedBlockHeader Pk Int)
  at c height = elim (HashQueue.at c.best height) [
    | none ↦ none
    | some hash ↦ HashMap.get c.headers hash
  ]

  unfoldable pub by_hash : BestHeadersChain Pk Int → H256 → Option (IndexedBlockHeader Pk Int)
  by_hash c hash = HashMap.get c.headers hash

  unfoldable pub height : BestHeadersChain Pk Int → H256 → Option ℕ
  height c hash = HashQueue.position c.best hash

  unfoldable pub children : BestHeadersChain Pk Int → H256 → List H256
  children c hash = elim (HashQueue.position c.best hash) [
    | none ↦ []
    | some pos ↦ elim (HashQueue.at c.best (add_u32 pos 1)) [ none ↦ [] | some child ↦ child ∷ [] ]
  ]

  unfoldable pub best_block_hash : BestHeadersChain Pk Int → H256
  best_block_hash c = elim (HashQueue.back c.best) [ none ↦ c.storage_best_hash | some h ↦ h ]

  -- A header that does not continue the best chain is dropped.
  unfoldable pub insert :
      BestHeadersChain Pk Int → IndexedBlockHeader Pk Int → Run (BestHeadersChain Pk Int)
  unfolding best_block_hash
  insert c header =
      if best_block_hash c == header.raw.previous_header_hash
      then (do
        let headers' = HashMap.insert c.headers header.hash header
        best' ← HashQueue.push_back c.best header.hash
        ok (record c { headers = headers'; best = best' }))
      else ok c

  unfoldable pub insert_n :
      BestHeadersChain Pk Int → List (IndexedBlockHeader Pk Int) → Run (BestHeadersChain Pk Int)
  insert_n c [] = ok c
  insert_n c (header ∷ headers) = do c' ← insert c header; insert_n c' headers

  unfoldable pub clear : BestHeadersChain Pk Int → BestHeadersChain Pk Int
  clear c = record c { headers = []; best = HashQueue.clear c.best }

  -- The `while` of `clear_after`, with fuel: a round takes one hash off the deque.
  unfoldable pub clear_after_loop : ℕ → BestHeadersChain Pk Int → ℕ → Run (BestHeadersChain Pk Int)
  clear_after_loop zero c position = ok c
  clear_after_loop (suc fuel) c position =
      let (popped, best') = HashQueue.pop_back c.best in
      let rest : Run (BestHeadersChain Pk Int) = elim popped [
        | none ↦ panic
        | some h ↦
            clear_after_loop fuel (record c { headers = HashMap.remove c.headers h; best = best' })
              position
      ] in
      if ltb position (HashQueue.len c.best) then rest else ok c

  unfoldable pub clear_after : BestHeadersChain Pk Int → ℕ → Run (BestHeadersChain Pk Int)
  unfolding clear_after_loop clear
  clear_after c position =
      if position == 0 then ok (clear c) else clear_after_loop (length c.best.queue) c position

  -- The `match` of `remove`, after `best.remove` has answered.
  unfoldable pub forget_after :
      HashPosition → BestHeadersChain Pk Int → Run (BestHeadersChain Pk Int)
  unfolding clear
  forget_after front c = ok (clear c)
  forget_after (inside position) c = clear_after c position
  forget_after missing c = ok c

  unfoldable pub remove : BestHeadersChain Pk Int → H256 → Run (BestHeadersChain Pk Int)
  unfolding forget_after
  remove c hash = elim (HashMap.get c.headers hash) [
    | none ↦ ok c
    | some _ ↦ do
      (position, best') ← HashQueue.remove c.best hash
      forget_after position (record c { headers = HashMap.remove c.headers hash; best = best' })
  ]

  unfoldable pub remove_n : BestHeadersChain Pk Int → List H256 → Run (BestHeadersChain Pk Int)
  remove_n c [] = ok c
  remove_n c (hash ∷ hashes) = do c' ← remove c hash; remove_n c' hashes

  unfoldable pub block_inserted_to_storage :
      BestHeadersChain Pk Int → H256 → H256 → BestHeadersChain Pk Int
  block_inserted_to_storage c hash storage_best =
      let popped : BestHeadersChain Pk Int = elim (HashQueue.front_of c.best) [
        | none ↦ c
        | some h ↦
            if h == hash
            then record c {
              best = (HashQueue.pop_front c.best).1;
              headers = HashMap.remove c.headers hash;
            }
            else c
      ] in
      record popped { storage_best_hash = storage_best }

unfoldable pub new : (Pk Int : Type 0) → H256 → BestHeadersChain Pk Int
new Pk Int hash = record { storage_best_hash = hash; headers = []; best = HashQueue.new }
