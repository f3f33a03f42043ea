-- ===== src/Sync/BestHeaders/Insert.antt =====
-- `BestHeadersChain`: `insert` and `insert_n` keep the invariant, and append in order.
use rust_randchain_prototype.Prelude.{
  ◌≡◌, refl, sym, ap, ◌∙◌, subst, true, false, List, [], ◌∷◌, ◌++◌, append-nil, append_assoc, arith,
  ◌==◌, if◌then◌else◌, ==_iff, Bool-cases, inl, inr, H256, ok, panic, ok-injective, >>=-eq-ok,
  contains, contains-append, get_last?-snoc, Distinct, Distinct-middle,
}
use rust_randchain_prototype.Prelude.HashMap
use rust_randchain_prototype.Prelude.HashMap.{get-insert}
use rust_randchain_prototype.Blocks.{IndexedBlockHeader, hashes}
use rust_randchain_prototype.Sync.HashQueue
use rust_randchain_prototype.Sync.HashQueue.Invariant.{snoc, push_back-IsValid}
use rust_randchain_prototype.Sync.HashQueue.Pushes.{push_back_absent}
use rust_randchain_prototype.Sync.BestHeaders.{BestHeadersChain, best_block_hash, insert, insert_n}
use rust_randchain_prototype.Sync.BestHeaders.Linked.{IsValid, Linked-ext, Linked-snoc}

module _ {Pk Int : Type 0} where
  -- What `insert` makes of a header that continues the chain.
  abbrev pub appended :
      BestHeadersChain Pk Int → IndexedBlockHeader Pk Int → BestHeadersChain Pk Int
  appended c header = record c {
    headers = HashMap.insert c.headers header.hash header;
    best = snoc c.best header.hash;
  }

  -- A header that continues the chain and is not in it yet.
  abbrev pub Continues : BestHeadersChain Pk Int → IndexedBlockHeader Pk Int → Type 0
  Continues c header =
      (best_block_hash c ≡ header.raw.previous_header_hash)
      × (contains c.best.queue header.hash ≡ false)

  -- The headers that stand in the queue are not overwritten by a new one.
  insert-keeps :
      (c : BestHeadersChain Pk Int) (x : IndexedBlockHeader Pk Int) (j : H256)
      → contains c.best.queue x.hash ≡ false
      → contains c.best.queue j ≡ true
      → HashMap.get (HashMap.insert c.headers x.hash x) j ≡ HashMap.get c.headers j
  insert-keeps c x j n m =
      ground (arith, get-insert c.headers x.hash x j, ap (contains c.best.queue), ==_iff x.hash j)

  appended-IsValid :
      (c : BestHeadersChain Pk Int) (x : IndexedBlockHeader Pk Int)
      → IsValid c
      → Continues c x
      → IsValid (appended c x)
  unfolding best_block_hash HashQueue.back
  appended-IsValid c x v (p, n) = record {
    queue = push_back-IsValid c.best x.hash v.queue (push_back_absent c.best x.hash v.queue n);
    known = λ j. ground (
      arith,
      get-insert c.headers x.hash x j,
      v.known j,
      contains-append c.best.queue (x.hash ∷ []) j,
    );
    indexed = λ j y e. ground (arith, get-insert c.headers x.hash x j, v.indexed j y);
    linked =
        Linked-snoc (HashMap.insert c.headers x.hash x) c.best.queue x.hash
          (Linked-ext c.headers (HashMap.insert c.headers x.hash x) c.best.queue
            (λ j m. insert-keeps c x j n m) v.linked)
          (λ l e. ground (arith, get-insert c.headers x.hash x x.hash));
  }

  -- `insert` appends a new header whose parent is the best hash, leaves the chain alone for any other
  -- parent, and panics on a header of the chain that names the best hash as its parent.
  pub insert_lem :
      (c : BestHeadersChain Pk Int) (x : IndexedBlockHeader Pk Int)
      → IsValid c
      → insert c x ≡ (
          if best_block_hash c == x.raw.previous_header_hash
          then (if contains c.best.queue x.hash then panic else ok (appended c x))
          else ok c)
  unfolding insert HashQueue.push_back
  insert_lem c x v = ground (arith, v.queue.same x.hash)

  -- Whatever header is inserted, the invariant stays.
  pub insert-IsValid :
      (c c' : BestHeadersChain Pk Int) (x : IndexedBlockHeader Pk Int)
      → IsValid c
      → insert c x ≡ ok c'
      → IsValid c'
  insert-IsValid c c' x v e = elim (Bool-cases (best_block_hash c == x.raw.previous_header_hash)) [
    | inr other ↦ subst IsValid (ok-injective (rw other at (sym (insert_lem c x v) ∙ e))) v
    | inl same ↦ elim (Bool-cases (contains c.best.queue x.hash)) [
      | inl old ↦ cc (rw (same, old) at (sym (insert_lem c x v) ∙ e))
      | inr new ↦
          subst IsValid (ok-injective (rw (same, new) at (sym (insert_lem c x v) ∙ e)))
            (appended-IsValid c x v ((==_iff _ _).0 same, new))
    ]
  ]

  pub insert_n-IsValid :
      (xs : List (IndexedBlockHeader Pk Int)) (c c' : BestHeadersChain Pk Int)
      → IsValid c
      → insert_n c xs ≡ ok c'
      → IsValid c'
  unfolding insert_n
  insert_n-IsValid [] c c' v e = subst IsValid (ok-injective e) v
  insert_n-IsValid (x ∷ xs) c c' v e =
      let (d, first, rest) = >>=-eq-ok (insert c x) (λ d. insert_n d xs) e in
      insert_n-IsValid xs d c' (insert-IsValid c d x v first) rest

  -- Headers each of which names the one before as its parent, the first one `tip`.
  abbrev pub ChainFrom : H256 → List (IndexedBlockHeader Pk Int) → Type 0
  ChainFrom tip [] = Unit
  ChainFrom tip (x ∷ xs) = (tip ≡ x.raw.previous_header_hash) × ChainFrom x.hash xs

  best_block_hash-appended :
      (c : BestHeadersChain Pk Int) (x : IndexedBlockHeader Pk Int)
      → best_block_hash (appended c x) ≡ x.hash
  unfolding best_block_hash HashQueue.back
  best_block_hash-appended c x =
      rw (get_last?-snoc c.best.queue x.hash, best_block_hash, HashQueue.back)

  -- `insert_n` of a chain of new headers from the best hash on never panics, takes every header and
  -- keeps their order.
  pub insert_n-hashes :
      (xs : List (IndexedBlockHeader Pk Int)) (c : BestHeadersChain Pk Int)
      → IsValid c
      → ChainFrom (best_block_hash c) xs
      → Distinct (c.best.queue ++ hashes xs)
      → (c' : BestHeadersChain Pk Int) × (insert_n c xs ≡ ok c')
        × (c'.best.queue ≡ c.best.queue ++ hashes xs)
        × IsValid c'
  unfolding insert_n
  insert_n-hashes [] c v f d = (c, refl, sym (append-nil c.best.queue), v)
  insert_n-hashes (x ∷ xs) c v (p, f) d =
      let n = Distinct-middle c.best.queue x.hash (hashes xs) d in
      let step : insert c x ≡ ok (appended c x) = rw (insert_lem c x v, (==_iff _ _).1 p, n) refl in
      let (c', e, q, v') =
        insert_n-hashes xs (appended c x) (appended-IsValid c x v (p, n))
          (rw (best_block_hash-appended c x) f)
          (subst Distinct (sym (append_assoc c.best.queue (x.hash ∷ []) (hashes xs))) d) in
      (c', rw step e, q ∙ append_assoc c.best.queue (x.hash ∷ []) (hashes xs), v')
