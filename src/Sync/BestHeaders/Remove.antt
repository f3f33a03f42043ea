-- ===== src/Sync/BestHeaders/Remove.antt =====
-- `BestHeadersChain`: `remove` cuts the chain at a header, and `block_inserted_to_storage` takes its
-- first one.
use rust_randchain_prototype.Prelude.{
  ℕ, ◌^◌, ◌<◌, ◌≡◌, refl, sym, ap, ◌∙◌, subst, true, false, some, List, ◌∷◌, arith, ◌==◌,
  if◌then◌else◌, Option-cases, inl, inr, H256, ok, contains, Distinct, length, get_elem?, take,
  take-erase, take-append-drop, drop, erase, contains-erase, contains_of_get_elem?, index_unique,
  length-erase-le,
}
use rust_randchain_prototype.Prelude.HashMap
use rust_randchain_prototype.Prelude.HashMap.{get-remove}
use rust_randchain_prototype.Sync.HashQueue
use rust_randchain_prototype.Sync.HashQueue.{HashQueue, HashPosition, missing, front, inside}
use rust_randchain_prototype.Sync.HashQueue.Positions.{remove-erase, PositionOf}
use rust_randchain_prototype.Sync.BestHeaders.{
  BestHeadersChain, clear, clear_after_loop, clear_after, forget_after, remove,
}
use rust_randchain_prototype.Sync.BestHeaders.Linked.{
  IsValid, Linked, Linked-ext, Linked-left, Linked-tail, clear-IsValid,
}
use rust_randchain_prototype.Sync.BestHeaders.Clear.{
  IsIndexed, Within, without, erased, without-Within, without-IsIndexed, erased-IsIndexed,
  clear_after_loop-take,
}

module _ {Pk Int : Type 0} where
  -- A front part of the queue with the headers of the chain is a valid chain.
  cut-IsValid :
      (c c' : BestHeadersChain Pk Int) (k : ℕ)
      → IsValid c
      → IsIndexed c'
      → Within c' c
      → c'.best.queue ≡ take k c.best.queue
      → IsValid c'
  cut-IsValid c c' k v w sub q = record {
    queue = w.queue;
    known = w.known;
    indexed = w.indexed;
    linked =
        Linked-ext c.headers c'.headers c'.best.queue (λ j m. kept j m)
          (subst (Linked c.headers) (sym q) (
            Linked-left c.headers (take k c.best.queue) (drop k c.best.queue)
              (subst (Linked c.headers) (sym (take-append-drop k c.best.queue)) v.linked)));
  }
    where
      kept :
          (j : H256)
          → contains c'.best.queue j ≡ true
          → HashMap.get c'.headers j ≡ HashMap.get c.headers j
      kept j m = elim (Option-cases (HashMap.get c'.headers j)) [
        | inl e ↦ ground (arith, w.known j)
        | inr (x, e) ↦ e ∙ sym (sub j x e)
      ]

  clear_after_pos :
      (c : BestHeadersChain Pk Int) (i : ℕ)
      → 0 < i
      → clear_after c i ≡ clear_after_loop (length c.best.queue) c i
  unfolding clear_after
  clear_after_pos c i h = ground arith

  -- Cutting behind the place of a hash that was erased.
  forget_after-take :
      (c : BestHeadersChain Pk Int) (hash : H256) (k : ℕ) (p : HashPosition)
      → IsValid c
      → length c.best.queue < 2 ^ 32
      → get_elem? c.best.queue k ≡ some hash
      → PositionOf c.best hash p
      → (c' : BestHeadersChain Pk Int) × (forget_after p (erased c hash) ≡ ok c')
        × (c'.best.queue ≡ take k c.best.queue)
        × IsValid c'
  unfolding forget_after HashQueue.has HashQueue.front_of HashQueue.at HashQueue.clear
  forget_after-take c hash k missing v small e at =
      cc (v.queue.same hash, contains_of_get_elem? c.best.queue k hash e)
  forget_after-take c hash k front v small e at =
      let same = index_unique c.best.queue 0 k hash v.queue.distinct at e in
      (
        clear (erased c hash),
        refl,
        ap (λ n. take n c.best.queue) same,
        clear-IsValid (erased c hash),
      )
  forget_after-take c hash k (inside i) v small e (at, pos) =
      let same = index_unique c.best.queue i k hash v.queue.distinct at e in
      let shorter = length-erase-le c.best.queue hash in
      let (c', r, q, w, sub) =
        clear_after_loop-take (length (erase c.best.queue hash)) (erased c hash) i
          (erased-IsIndexed c hash v) (omega arith) (omega arith) in
      let cut = q ∙ take-erase c.best.queue i hash v.queue.distinct at in
      (
        c',
        clear_after_pos (erased c hash) i pos ∙ r,
        cut ∙ ap (λ n. take n c.best.queue) same,
        cut-IsValid c c' i v w (λ j x g. without-Within c hash (erased c hash).best j x (sub j x g))
            cut,
      )

  -- `remove` of the hash at place `k` of the best chain never panics: it leaves exactly the `k` hashes
  -- before it, so the hash and all that follow it are gone from the queue and from the map.
  pub remove-take :
      (c : BestHeadersChain Pk Int) (hash : H256) (k : ℕ)
      → IsValid c
      → length c.best.queue < 2 ^ 32
      → get_elem? c.best.queue k ≡ some hash
      → (c' : BestHeadersChain Pk Int) × (remove c hash ≡ ok c')
        × (c'.best.queue ≡ take k c.best.queue)
        × IsValid c'
  unfolding remove
  remove-take c hash k v small e =
      let (p, r, at) = remove-erase c.best hash v.queue (omega arith) in
      let (c', f, q, v') = forget_after-take c hash k p v small e at in
      elim (Option-cases (HashMap.get c.headers hash)) [
        | inl n ↦ cc (n, v.known hash, contains_of_get_elem? c.best.queue k hash e)
        | inr (x, s) ↦ (c', rw (s, remove, r) f, q, v')
      ]

  -- A hash that is not in the chain is not removed.
  pub remove_absent :
      (c : BestHeadersChain Pk Int) (hash : H256)
      → IsValid c
      → contains c.best.queue hash ≡ false
      → remove c hash ≡ ok c
  unfolding remove
  remove_absent c hash v n = elim (Option-cases (HashMap.get c.headers hash)) [
    | inl s ↦ rw (s, remove)
    | inr (x, s) ↦ cc (s, v.known hash, n)
  ]

  -- The front of a valid chain leaves the queue and the map.
  pub popped-IsValid :
      (c : BestHeadersChain Pk Int) (x : H256) (xs : List H256)
      → IsValid c
      → c.best.queue ≡ x ∷ xs
      → IsValid (without c x (record { queue = xs; set = erase c.best.set x }))
  popped-IsValid c x xs v e =
      let d = subst Distinct e v.queue.distinct in
      let gone : (j : H256) → contains xs j ≡ (if x == j then false else contains c.best.queue j) =
        λ j. ground (arith, d.0, ap (λ l. contains l j) e, ap (contains xs)) in
      let w =
        without-IsIndexed c x (record { queue = xs; set = erase c.best.set x })
          (record { queue = v.queue; known = v.known; indexed = v.indexed })
          (record {
            distinct = d.1;
            same = λ j. ground (arith, contains-erase c.best.set x j, v.queue.same j, gone j);
          })
          gone in
      record {
        queue = w.queue;
        known = w.known;
        indexed = w.indexed;
        linked =
            Linked-ext c.headers (HashMap.remove c.headers x) xs
              (λ j m. ground (arith, get-remove c.headers x j, d.0, ap (contains xs)))
              (Linked-tail c.headers x xs (subst (Linked c.headers) e v.linked));
      }
