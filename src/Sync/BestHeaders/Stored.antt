-- ===== src/Sync/BestHeaders/Stored.antt =====
-- `BestHeadersChain`: what storing a block does, the links that `children` follows, and any sequence
-- of the methods.
use rust_randchain_prototype.Prelude.{
  ℕ, zero, suc, ◌≡◌, refl, some, List, [], ◌∷◌, arith, ◌==◌, if◌then◌else◌, ==_iff, Bool-cases, inl,
  inr, H256, get_elem?,
}
use rust_randchain_prototype.Blocks.{IndexedBlockHeader}
use rust_randchain_prototype.Sync.HashQueue
use rust_randchain_prototype.Sync.HashQueue.{HashQueue}
use rust_randchain_prototype.Sync.BestHeaders.{BestHeadersChain, block_inserted_to_storage}
use rust_randchain_prototype.Sync.BestHeaders.Linked.{IsValid, parent, Linked}
use rust_randchain_prototype.Sync.BestHeaders.Remove.{popped-IsValid}

-- The queue after a block was stored.
abbrev pub after_stored : List H256 → H256 → List H256
after_stored [] hash = []
after_stored (x ∷ xs) hash = if x == hash then xs else x ∷ xs

module _ {Pk Int : Type 0} where
  -- The hash that the storage calls best does not matter to the invariant.
  restored :
      (c : BestHeadersChain Pk Int) (h : H256)
      → IsValid c
      → IsValid (record c { storage_best_hash = h })
  restored c h v = record {
    queue = v.queue;
    known = v.known;
    indexed = v.indexed;
    linked = v.linked;
  }

  -- A chain with its parts named.
  abbrev parts :
      H256
      → List (H256 × IndexedBlockHeader Pk Int)
      → List H256
      → List H256
      → BestHeadersChain Pk Int
  parts stored m xs s = record {
    storage_best_hash = stored;
    headers = m;
    best = record { queue = xs; set = s };
  }

  stored_lem :
      (stored : H256) (m : List (H256 × IndexedBlockHeader Pk Int)) (xs s : List H256)
      (hash best_hash : H256)
      → IsValid (parts stored m xs s)
      → IsValid (block_inserted_to_storage (parts stored m xs s) hash best_hash)
        × ((block_inserted_to_storage (parts stored m xs s) hash best_hash).best.queue
            ≡ after_stored xs hash)
  unfolding block_inserted_to_storage HashQueue.front_of HashQueue.pop_front
  stored_lem stored m [] s hash best_hash v = (restored (parts stored m [] s) best_hash v, refl)
  stored_lem stored m (x ∷ xs) s hash best_hash v = elim (Bool-cases (x == hash)) [
    | inl same ↦
        rw (same, ← (==_iff x hash).0 same)
          (restored _ best_hash (popped-IsValid (parts stored m (x ∷ xs) s) x xs v refl), refl)
    | inr other ↦ rw other (restored (parts stored m (x ∷ xs) s) best_hash v, refl)
  ]

  -- Storing a block keeps the invariant, records the best hash of the storage, and takes the block's
  -- hash off the front of the best chain; anywhere else in the chain the hash stays.
  pub block_inserted_to_storage_lem :
      (c : BestHeadersChain Pk Int) (hash best_hash : H256)
      → IsValid c
      → IsValid (block_inserted_to_storage c hash best_hash)
        × ((block_inserted_to_storage c hash best_hash).best.queue ≡ after_stored c.best.queue hash)
        × ((block_inserted_to_storage c hash best_hash).storage_best_hash ≡ best_hash)
  block_inserted_to_storage_lem c hash best_hash v =
      let (w, q) =
        stored_lem c.storage_best_hash c.headers c.best.queue c.best.set hash best_hash v in
      (w, q, unfold block_inserted_to_storage in refl)

  pub Linked-at :
      (m : List (H256 × IndexedBlockHeader Pk Int)) (xs : List H256) (i : ℕ) (x y : H256)
      → Linked m xs
      → get_elem? xs i ≡ some x
      → get_elem? xs (suc i) ≡ some y
      → parent m y ≡ some x
  Linked-at m [] i x y l e f = cc
  Linked-at m (a ∷ []) i x y l e f = cc
  Linked-at m (a ∷ b ∷ xs) zero x y l e f = ground arith
  Linked-at m (a ∷ b ∷ xs) (suc i) x y l e f = Linked-at m (b ∷ xs) i x y l.1 e f
