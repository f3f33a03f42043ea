-- ===== src/Sync/BestHeaders/Steps.antt =====
-- `BestHeadersChain`: the parent of a child, and any sequence of the methods from an empty chain on.
use rust_randchain_prototype.Prelude.{
  ℕ, suc, ◌^◌, ◌<◌, ◌≡◌, sym, ◌∙◌, subst, some, List, [], ◌∷◌, arith, Bool-cases, inl, inr, H256,
  ok, add_u32, ok-injective, contains, length, lt-length_of_get_elem?, get_elem?_of_contains,
}
use rust_randchain_prototype.Blocks.{IndexedBlockHeader}
use rust_randchain_prototype.Sync.HashQueue
use rust_randchain_prototype.Sync.HashQueue.Positions.{position-at}
use rust_randchain_prototype.Sync.BestHeaders.{
  BestHeadersChain, new, clear, children, insert, insert_n, remove, block_inserted_to_storage,
}
use rust_randchain_prototype.Sync.BestHeaders.Linked.{IsValid, parent, clear-IsValid, new-IsValid}
use rust_randchain_prototype.Sync.BestHeaders.Insert.{insert-IsValid, insert_n-IsValid}
use rust_randchain_prototype.Sync.BestHeaders.Remove.{remove-take, remove_absent}
use rust_randchain_prototype.Sync.BestHeaders.Stored.{Linked-at, block_inserted_to_storage_lem}

module _ {Pk Int : Type 0} where
  children-at :
      (c : BestHeadersChain Pk Int) (hash child : H256) (pos : ℕ)
      → HashQueue.position c.best hash ≡ some pos
      → children c hash ≡ child ∷ []
      → HashQueue.at c.best (add_u32 pos 1) ≡ some child
  unfolding children
  children-at c hash child pos p e = ground arith

  children_known :
      (c : BestHeadersChain Pk Int) (hash child : H256)
      → children c hash ≡ child ∷ []
      → (pos : ℕ) × (HashQueue.position c.best hash ≡ some pos)
  unfolding children
  children_known c hash child e = ground arith

  -- What `children` names is the next block: its header in the chain has the hash as its parent.
  pub children-parent :
      (c : BestHeadersChain Pk Int) (hash child : H256)
      → IsValid c
      → length c.best.queue < 2 ^ 32
      → children c hash ≡ child ∷ []
      → parent c.headers child ≡ some hash
  unfolding HashQueue.at
  children-parent c hash child v small e =
      let (pos, p) = children_known c hash child e in
      let (found, at) = position-at c.best hash v.queue (omega arith) in
      let here = at pos p in
      let next = children-at c hash child pos p e in
      let step : add_u32 pos 1 ≡ suc pos =
        omega (arith, lt-length_of_get_elem? c.best.queue pos here) in
      Linked-at c.headers c.best.queue pos hash child v.linked here (rw step at next)

  -- `remove` of any hash, in the chain or not.
  remove-IsValid :
      (c c' : BestHeadersChain Pk Int) (hash : H256)
      → IsValid c
      → length c.best.queue < 2 ^ 32
      → remove c hash ≡ ok c'
      → IsValid c'
  remove-IsValid c c' hash v small e = elim (Bool-cases (contains c.best.queue hash)) [
    | inr n ↦ subst IsValid (ok-injective (sym (remove_absent c hash v n) ∙ e)) v
    | inl m ↦
        let (k, at) = get_elem?_of_contains c.best.queue hash m in
        let (d, r, q, w) = remove-take c hash k v small at in
        subst IsValid (ok-injective (sym r ∙ e)) w
  ]

  -- One call of a method that changes the chain and does not panic.
  pub data Step : BestHeadersChain Pk Int → BestHeadersChain Pk Int → Type 0 where
    inserts :
        (c c' : BestHeadersChain Pk Int) (x : IndexedBlockHeader Pk Int)
        → insert c x ≡ ok c'
        → Step c c'
    inserts_n :
        (c c' : BestHeadersChain Pk Int) (xs : List (IndexedBlockHeader Pk Int))
        → insert_n c xs ≡ ok c'
        → Step c c'
    removes :
        (c c' : BestHeadersChain Pk Int) (hash : H256)
        → length c.best.queue < 2 ^ 32
        → remove c hash ≡ ok c'
        → Step c c'
    stores :
        (c : BestHeadersChain Pk Int) (hash best_hash : H256)
        → Step c (block_inserted_to_storage c hash best_hash)
    clears : (c : BestHeadersChain Pk Int) → Step c (clear c)

  pub data HeadersReach (c : BestHeadersChain Pk Int) : BestHeadersChain Pk Int → Type 0 where
    here : HeadersReach c c
    next : {d e : BestHeadersChain Pk Int} → HeadersReach c d → Step d e → HeadersReach c e

  Step-IsValid : {c d : BestHeadersChain Pk Int} → Step c d → IsValid c → IsValid d
  Step-IsValid (inserts c c' x e) v = insert-IsValid c c' x v e
  Step-IsValid (inserts_n c c' xs e) v = insert_n-IsValid xs c c' v e
  Step-IsValid (removes c c' hash small e) v = remove-IsValid c c' hash v small e
  Step-IsValid (stores c hash best_hash) v = (block_inserted_to_storage_lem c hash best_hash v).0
  Step-IsValid (clears c) v = clear-IsValid c

  -- In every chain that the methods make out of an empty one, the map holds exactly the headers of the
  -- queue, each under its own hash, and every header but the first names the one before as its parent.
  pub HeadersReach-IsValid :
      (stored : H256) {c : BestHeadersChain Pk Int} → HeadersReach (new Pk Int stored) c → IsValid c
  HeadersReach-IsValid stored here = new-IsValid Pk Int stored
  HeadersReach-IsValid stored (next r st) = Step-IsValid st (HeadersReach-IsValid stored r)
