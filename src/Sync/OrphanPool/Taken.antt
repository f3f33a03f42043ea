-- ===== src/Sync/OrphanPool/Taken.antt =====
-- A round of the loop of `remove_blocks_for_parent` that finds an entry, and what it keeps.
use mathlib.Core.Option.{some-injective}
use rust_randchain_prototype.Prelude.{
  ◌+◌, ◌≤◌, ◌≡◌, ◌⊎◌, ◌==◌, Bool-cases, subst, refl, sym, ap, ◌∙◌, Bool, true, false, inl, inr,
  Option, none, some, List, [], ◌∷◌, ◌++◌, append-nil, arith, if◌then◌else◌, length, length-append,
  contains, H256,
}
use rust_randchain_prototype.Prelude.HashMap
use rust_randchain_prototype.Prelude.HashMap.{keys, get-remove}
use rust_randchain_prototype.Blocks.{IndexedBlock}
use rust_randchain_prototype.Serialization.RoundTrip.{All}
use rust_randchain_prototype.Sync.OrphanPool.{OrphanBlocksPool, values, remove_keys, total}
use rust_randchain_prototype.Sync.OrphanPool.Removal.{
  length-values, All-append, All-left, All-right, total-remove, Filed, remove_keeps,
  All-of-contains, get-remove_keys, Depends, child, Gone, values-Gone, KeptOrFound, All-map, Among,
  Among-left, Among-right, All-Among, values-Depends,
}

module _ {Pk Int Time : Type 0} where
  -- A step of the loop that finds an entry.
  abbrev pub taken :
      OrphanBlocksPool Pk Int Time
      → H256
      → List (H256 × IndexedBlock Pk Int)
      → OrphanBlocksPool Pk Int Time
  taken p parent v = record {
    orphaned_blocks = HashMap.remove p.orphaned_blocks parent;
    unknown_blocks = remove_keys p.unknown_blocks (keys v);
  }

  unknown_of_taken :
      (p : OrphanBlocksPool Pk Int Time) (parent : H256) (v : List (H256 × IndexedBlock Pk Int))
      (j : H256)
      → HashMap.get p.unknown_blocks j ≡ none
      → HashMap.get (taken p parent v).unknown_blocks j ≡ none
  unknown_of_taken p parent v j e =
      get-remove_keys p.unknown_blocks (keys v) j ∙ go (contains (keys v) j)
    where
      go : (test : Bool) → (if test then none else HashMap.get p.unknown_blocks j) ≡ none
      go true = refl
      go false = e

  -- What the pool has after the step, it has had before.
  pub taken-get :
      (p : OrphanBlocksPool Pk Int Time) (h : H256) (v : List (H256 × IndexedBlock Pk Int))
      (j : H256) (w : List (H256 × IndexedBlock Pk Int))
      → HashMap.get (taken p h v).orphaned_blocks j ≡ some w
      → HashMap.get p.orphaned_blocks j ≡ some w
  taken-get p h v j w e = elim (Bool-cases (h == j)) [
    | inl same ↦ cc (
      get-remove p.orphaned_blocks h j,
      ap (λ test. if test then none else HashMap.get p.orphaned_blocks j) same,
    )
    | inr other ↦
        sym (
          get-remove p.orphaned_blocks h j
          ∙ ap (λ test. if test then none else HashMap.get p.orphaned_blocks j) other)
        ∙ e
  ]

  -- What the loop leaves, with the hashes of the queue and the blocks that it has found; `m` is the map
  -- that the removal began with.
  pub record Removed (m : List (H256 × List (H256 × IndexedBlock Pk Int))) (root : H256)
      (p : OrphanBlocksPool Pk Int Time) (queue : List H256) (found : List (IndexedBlock Pk Int))
      (p' : OrphanBlocksPool Pk Int Time) : Type 0 where
    pub queue_gone : All (λ h. HashMap.get p'.orphaned_blocks h ≡ none) queue
    pub found_gone : All (Gone p') found
    pub found_depend : All (λ (b : IndexedBlock Pk Int). Depends m root b.header.hash) found
    pub kept_or_found :
        (j : H256) (v : List (H256 × IndexedBlock Pk Int))
        → HashMap.get p.orphaned_blocks j ≡ some v
        → KeptOrFound m root found p' j v
    pub unknown_kept :
        (j : H256)
        → (HashMap.get p'.unknown_blocks j ≡ HashMap.get p.unknown_blocks j) ⊎ Depends m root j
    pub counted : length found + total p'.orphaned_blocks ≤ total p.orphaned_blocks
    pub orphaned_keeps :
        (j : H256)
        → HashMap.get p.orphaned_blocks j ≡ none
        → HashMap.get p'.orphaned_blocks j ≡ none
    pub unknown_keeps :
        (j : H256) → HashMap.get p.unknown_blocks j ≡ none → HashMap.get p'.unknown_blocks j ≡ none

  -- An empty queue ends the loop.
  pub ended :
      (m : List (H256 × List (H256 × IndexedBlock Pk Int))) (root : H256)
      (p : OrphanBlocksPool Pk Int Time) (removed : List (IndexedBlock Pk Int))
      → (found : List (IndexedBlock Pk Int)) × (p' : OrphanBlocksPool Pk Int Time) × (◌≡◌
          {A = Option (List (IndexedBlock Pk Int) × OrphanBlocksPool Pk Int Time)}
          (some (removed, p))
          (some (removed ++ found, p')))
        × Removed m root p [] found p'
  ended m root p removed = (
    [],
    p,
    ap (λ bs. some (bs, p)) (sym (append-nil removed)),
    record {
      queue_gone = tt;
      found_gone = tt;
      found_depend = tt;
      kept_or_found = λ j v e. inl e;
      unknown_kept = λ j. inl refl;
      counted = omega arith;
      orphaned_keeps = λ j e. e;
      unknown_keeps = λ j e. e;
    },
  )

  -- What was under the hash that is taken is found, and what was not is as the rest of the loop says.
  KeptOrFound-taken :
      (m : List (H256 × List (H256 × IndexedBlock Pk Int))) (root : H256)
      (p : OrphanBlocksPool Pk Int Time) (h : H256) (queue : List H256)
      (v : List (H256 × IndexedBlock Pk Int)) (found : List (IndexedBlock Pk Int))
      (p' : OrphanBlocksPool Pk Int Time)
      → HashMap.get p.orphaned_blocks h ≡ some v
      → Depends m root h
      → Removed m root (taken p h v) (queue ++ keys v) found p'
      → (j : H256) (w : List (H256 × IndexedBlock Pk Int))
      → HashMap.get p.orphaned_blocks j ≡ some w
      → KeptOrFound m root (values v ++ found) p' j w
  KeptOrFound-taken m root p h queue v found p' present depends rest j w e =
      elim (Bool-cases (h == j)) [
        | inl same ↦
            let at_key : h ≡ j = ground arith in
            let is_v : v ≡ w =
              some-injective v w (sym present ∙ ap (HashMap.get p.orphaned_blocks) at_key ∙ e) in
            inr (
              subst (Depends m root) at_key depends,
              ap (HashMap.get p'.orphaned_blocks) (sym at_key)
                  ∙ rest.orphaned_keeps h (get-remove p.orphaned_blocks h h ∙ ground arith),
              subst (λ x. All (λ b. Among b (values v ++ found)) (values x)) is_v
                  (All-map (λ b. Among b (values v)) (λ b. Among b (values v ++ found)) (values v)
                    (λ b within. Among-left (values v) found within) (All-Among (values v))),
            )
        | inr other ↦
            elim (rest.kept_or_found j w (
              get-remove p.orphaned_blocks h j
              ∙ ap (λ test. if test then none else HashMap.get p.orphaned_blocks j) other
              ∙ e)) [
                | inl kept ↦ inl kept
                | inr (depends_j, gone, within) ↦ inr (
                  depends_j,
                  gone,
                  All-map (λ b. Among b found) (λ b. Among b (values v ++ found)) (values w)
                      (λ b one. Among-right (values v) found one) within,
                )
              ]
      ]

  unknown_kept_of_taken :
      (m : List (H256 × List (H256 × IndexedBlock Pk Int))) (root : H256)
      (p : OrphanBlocksPool Pk Int Time) (h : H256) (v : List (H256 × IndexedBlock Pk Int))
      (j : H256) {left : Option Time}
      → HashMap.get m h ≡ some v
      → Depends m root h
      → (left ≡ HashMap.get (taken p h v).unknown_blocks j) ⊎ Depends m root j
      → (left ≡ HashMap.get p.unknown_blocks j) ⊎ Depends m root j
  unknown_kept_of_taken m root p h v j held depends (inr below) = inr below
  unknown_kept_of_taken m root p h v j held depends (inl same) =
      elim (Bool-cases (contains (keys v) j)) [
        | inl within ↦ inr (child depends held within)
        | inr out ↦ inl (
            same
            ∙ get-remove_keys p.unknown_blocks (keys v) j
            ∙ ap (λ test. if test then none else HashMap.get p.unknown_blocks j) out)
      ]

  -- What is left after the step that takes an entry, and the rest of the loop.
  pub Removed-taken :
      (m : List (H256 × List (H256 × IndexedBlock Pk Int))) (root : H256)
      (p : OrphanBlocksPool Pk Int Time) (h : H256) (queue : List H256)
      (v : List (H256 × IndexedBlock Pk Int)) (found : List (IndexedBlock Pk Int))
      (p' : OrphanBlocksPool Pk Int Time)
      → HashMap.get p.orphaned_blocks h ≡ some v
      → HashMap.get m h ≡ some v
      → All (Filed h) v
      → Depends m root h
      → Removed m root (taken p h v) (queue ++ keys v) found p'
      → Removed m root p (h ∷ queue) (values v ++ found) p'
  Removed-taken m root p h queue v found p' present held filed depends rest = record {
    queue_gone = (
      rest.orphaned_keeps h (get-remove p.orphaned_blocks h h ∙ ground arith),
      All-left (λ k. HashMap.get p'.orphaned_blocks k ≡ none) queue (keys v) rest.queue_gone,
    );
    found_gone =
        All-append (Gone p') (values v) found
          (values-Gone p' h v filed
            (All-right (λ k. HashMap.get p'.orphaned_blocks k ≡ none) queue (keys v)
              rest.queue_gone)
            (All-of-contains (λ k. HashMap.get p'.unknown_blocks k ≡ none) (keys v)
              (λ k within. rest.unknown_keeps k (
                get-remove_keys p.unknown_blocks (keys v) k
                ∙ ap (λ test. if test then none else HashMap.get p.unknown_blocks k) within))))
          rest.found_gone;
    found_depend =
        All-append (λ (b : IndexedBlock Pk Int). Depends m root b.header.hash) (values v) found
          (values-Depends m root h v v filed depends held (λ k within. within)).0 rest.found_depend;
    kept_or_found = KeptOrFound-taken m root p h queue v found p' present depends rest;
    unknown_kept = λ j. unknown_kept_of_taken m root p h v j held depends (rest.unknown_kept j);
    counted = omega (
      arith,
      length-append (values v) found,
      length-values v,
      total-remove p.orphaned_blocks h v present,
      rest.counted,
    );
    orphaned_keeps = λ j e. rest.orphaned_keeps j (remove_keeps p.orphaned_blocks h j e);
    unknown_keeps = λ j e. rest.unknown_keeps j (unknown_of_taken p h v j e);
  }
