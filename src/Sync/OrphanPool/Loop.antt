-- ===== src/Sync/OrphanPool/Loop.antt =====
-- The loop of `remove_blocks_for_parent`: it ends, and what it takes.
use rust_randchain_prototype.Prelude.{
  ℕ, zero, suc, ◌+◌, ◌≤◌, ◌≡◌, ap, ◌∙◌, inl, inr, Option, none, some, Option-cases, List, [], ◌∷◌,
  ◌++◌, append_assoc, arith, length, length-append, H256,
}
use rust_randchain_prototype.Prelude.HashMap
use rust_randchain_prototype.Prelude.HashMap.{keys, get-remove}
use rust_randchain_prototype.Blocks.{IndexedBlock}
use rust_randchain_prototype.Serialization.RoundTrip.{All}
use rust_randchain_prototype.Sync.OrphanPool.{OrphanBlocksPool, values, removal_loop, total}
use rust_randchain_prototype.Sync.OrphanPool.Taken.{taken, taken-get, Removed, ended, Removed-taken}
use rust_randchain_prototype.Sync.OrphanPool.Removal.{
  length-keys, All-append, total-remove, IsFiled, remove-IsFiled, get-IsFiled, Depends,
  values-Depends,
}

module _ {Pk Int Time : Type 0} where
  -- A round of the loop, on what the pool has under the hash.
  abbrev round :
      ℕ
      → OrphanBlocksPool Pk Int Time
      → H256
      → List H256
      → List (IndexedBlock Pk Int)
      → Option (List (H256 × IndexedBlock Pk Int))
      → Option (List (IndexedBlock Pk Int) × OrphanBlocksPool Pk Int Time)
  round fuel p h queue removed none = removal_loop fuel p queue removed
  round fuel p h queue removed (some v) =
      removal_loop fuel (taken p h v) (queue ++ keys v) (removed ++ values v)

  pub removal_loop-Removed :
      (fuel : ℕ) (m : List (H256 × List (H256 × IndexedBlock Pk Int))) (root : H256)
      (p : OrphanBlocksPool Pk Int Time) (queue : List H256) (removed : List (IndexedBlock Pk Int))
      → length queue + total p.orphaned_blocks ≤ fuel
      → IsFiled p.orphaned_blocks
      → ((j : H256) (w : List (H256 × IndexedBlock Pk Int))
          → HashMap.get p.orphaned_blocks j ≡ some w
          → HashMap.get m j ≡ some w)
      → All (Depends m root) queue
      → (found : List (IndexedBlock Pk Int)) × (p' : OrphanBlocksPool Pk Int Time) × (removal_loop
            fuel p queue removed
          ≡ some (removed ++ found, p'))
        × Removed m root p queue found p'
  unfolding removal_loop
  removal_loop-Removed zero m root p [] removed enough filed below depend = ended m root p removed
  removal_loop-Removed (suc fuel) m root p [] removed enough filed below depend =
      ended m root p removed
  removal_loop-Removed zero m root p (h ∷ queue) removed enough filed below depend = ground arith
  removal_loop-Removed (suc fuel) m root p (h ∷ queue) removed enough filed below depend =
      elim (Option-cases (HashMap.get p.orphaned_blocks h)) [
        | inl absent ↦
            let (found, p', run, rest) =
              removal_loop-Removed fuel m root p queue removed (omega arith) filed below depend.1 in
            (
              found,
              p',
              ap (round fuel p h queue removed) absent ∙ run,
              record {
                queue_gone = (rest.orphaned_keeps h absent, rest.queue_gone);
                found_gone = rest.found_gone;
                found_depend = rest.found_depend;
                kept_or_found = rest.kept_or_found;
                unknown_kept = rest.unknown_kept;
                counted = rest.counted;
                orphaned_keeps = rest.orphaned_keeps;
                unknown_keeps = rest.unknown_keeps;
              },
            )
        | inr (v, present) ↦
            let filed_v = get-IsFiled p.orphaned_blocks h v filed present in
            let size : length (queue ++ keys v) ≡ length queue + length v =
              length-append queue (keys v) ∙ ap (λ n. length queue + n) (length-keys v) in
            let smaller = total-remove p.orphaned_blocks h v present in
            let (found, p', run, rest) =
              removal_loop-Removed fuel m root (taken p h v) (queue ++ keys v) (removed ++ values v)
                (omega arith) (remove-IsFiled p.orphaned_blocks h filed)
                (λ j w e. below j w (taken-get p h v j w e))
                (All-append (Depends m root) queue (keys v) depend.1
                  (values-Depends m root h v v filed_v depend.0 (below h v present)
                    (λ k within. within)).1) in
            (
              values v ++ found,
              p',
              ap (round fuel p h queue removed) present
                  ∙ run
                  ∙ ap (λ bs. some (bs, p')) (append_assoc removed (values v) found),
              Removed-taken m root p h queue v found p' present (below h v present) filed_v depend.0
                  rest,
            )
      ]
