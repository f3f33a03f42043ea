-- ===== src/Sync/OrphanPool.antt =====
-- `OrphanBlocksPool` of sync/src/utils/orphan_blocks_pool.rs: blocks that wait for their parents, by the
-- hash of the parent. A map is gone over in the order of its list. The times of the clock, which are
-- `f64`, are a parameter.
pub mod Removal
pub mod Taken
pub mod Loop
pub mod Dependents
use rust_randchain_prototype.Prelude.{
  ℕ, zero, suc, ◌+◌, Bool, true, false, not, Option, none, some, is_some, List, [], ◌∷◌, ◌++◌,
  if◌then◌else◌, length, contains, H256, Run, ok, panic,
}
use rust_randchain_prototype.Prelude.HashMap
use rust_randchain_prototype.Prelude.HashMap.{keys}
use rust_randchain_prototype.Blocks.{IndexedBlock}

pub record OrphanBlocksPool (Pk Int Time : Type 0) : Type 0 where
  pub orphaned_blocks : List (H256 × List (H256 × IndexedBlock Pk Int))
  pub unknown_blocks : List (H256 × Time)

abbrev pub new : (Pk Int Time : Type 0) → OrphanBlocksPool Pk Int Time
new Pk Int Time = record { orphaned_blocks = []; unknown_blocks = [] }

-- `.values()` of a map, and the removal of several keys.
abbrev pub values : {V : Type 0} → List (H256 × V) → List V
values [] = []
values ((k, v) ∷ m) = v ∷ values m

unfoldable pub remove_keys : {V : Type 0} → List (H256 × V) → List H256 → List (H256 × V)
remove_keys m [] = m
remove_keys m (h ∷ hashes) = remove_keys (HashMap.remove m h) hashes

-- `entry(..).or_insert_with(HashMap::new)`
abbrev pub or_new : {V : Type 0} → Option (List (H256 × V)) → List (H256 × V)
or_new none = []
or_new (some orphans) = orphans

-- The blocks of the pool.
abbrev pub total : {Pk Int : Type 0} → List (H256 × List (H256 × IndexedBlock Pk Int)) → ℕ
total [] = 0
total ((parent, orphans) ∷ m) = length orphans + total m

-- The inner loop of `remove_blocks`: what is left of the orphans, and the hashes that were there.
unfoldable pub remove_each :
    {Pk Int : Type 0}
    → List (H256 × IndexedBlock Pk Int)
    → List H256
    → List (H256 × IndexedBlock Pk Int) × List H256
remove_each orphans [] = (orphans, [])
remove_each orphans (hash ∷ hashes) =
    let (rest, removed) = remove_each (HashMap.remove orphans hash) hashes in
    (rest, if is_some (HashMap.get orphans hash) then hash ∷ removed else removed)

abbrev pub keep_entry : {V : Type 0} → H256 → List V → List (H256 × List V) → List (H256 × List V)
keep_entry parent [] rest = rest
keep_entry parent (e ∷ es) rest = (parent, e ∷ es) ∷ rest

-- `retain` keeps the entries that are not empty.
unfoldable pub retain_orphans :
    {Pk Int : Type 0}
    → List (H256 × List (H256 × IndexedBlock Pk Int))
    → List H256
    → List (H256 × List (H256 × IndexedBlock Pk Int)) × List H256
unfolding remove_each
retain_orphans [] hashes = ([], [])
retain_orphans ((parent, orphans) ∷ m) hashes =
    let (kept, removed_here) = remove_each orphans hashes in
    let (rest, removed) = retain_orphans m hashes in
    (keep_entry parent kept rest, removed_here ++ removed)

abbrev pub block_hashes : {Pk Int : Type 0} → List (IndexedBlock Pk Int) → List H256
block_hashes [] = []
block_hashes (b ∷ bs) = b.header.hash ∷ block_hashes bs

module _ {Pk Int Time : Type 0} where
  abbrev pub len : OrphanBlocksPool Pk Int Time → ℕ
  len p = length p.orphaned_blocks

  abbrev pub contains_unknown_block : OrphanBlocksPool Pk Int Time → H256 → Bool
  contains_unknown_block p hash = is_some (HashMap.get p.unknown_blocks hash)

  unfoldable pub insert_orphaned_block :
      OrphanBlocksPool Pk Int Time → IndexedBlock Pk Int → OrphanBlocksPool Pk Int Time
  insert_orphaned_block p block =
      let parent : H256 = block.header.raw.previous_header_hash in
      record p {
        orphaned_blocks = HashMap.insert p.orphaned_blocks parent (
            HashMap.insert (or_new (HashMap.get p.orphaned_blocks parent)) block.header.hash block);
      }

  -- A `LinkedHashMap` puts a new key at its end.
  unfoldable pub insert_unknown_block :
      OrphanBlocksPool Pk Int Time → Time → IndexedBlock Pk Int → Run (OrphanBlocksPool Pk Int Time)
  unfolding insert_orphaned_block
  insert_unknown_block p now block =
      if contains_unknown_block p block.header.hash
      then panic
      else ok (
          insert_orphaned_block
            (record p { unknown_blocks = p.unknown_blocks ++ ((block.header.hash, now) ∷ []) })
            block)

  -- The loop of `remove_blocks_for_parent`, on fuel; `none` is what it gives when the fuel is used up.
  unfoldable pub removal_loop :
      ℕ
      → OrphanBlocksPool Pk Int Time
      → List H256
      → List (IndexedBlock Pk Int)
      → Option (List (IndexedBlock Pk Int) × OrphanBlocksPool Pk Int Time)
  unfolding remove_keys
  removal_loop fuel p [] removed = some (removed, p)
  removal_loop zero p (parent_hash ∷ queue) removed = none
  removal_loop (suc fuel) p (parent_hash ∷ queue) removed =
      elim (HashMap.get p.orphaned_blocks parent_hash) [
        | none ↦ removal_loop fuel p queue removed
        | some orphaned ↦
            removal_loop fuel
              (record {
                orphaned_blocks = HashMap.remove p.orphaned_blocks parent_hash;
                unknown_blocks = remove_keys p.unknown_blocks (keys orphaned);
              })
              (queue ++ keys orphaned) (removed ++ values orphaned)
      ]

  unfoldable pub remove_blocks_for_parent :
      OrphanBlocksPool Pk Int Time
      → H256
      → Option (List (IndexedBlock Pk Int) × OrphanBlocksPool Pk Int Time)
  unfolding removal_loop
  remove_blocks_for_parent p hash = removal_loop (total p.orphaned_blocks + 1) p (hash ∷ []) []

  -- The loop that deletes the children of each hash.
  unfoldable pub remove_children :
      OrphanBlocksPool Pk Int Time
      → List H256
      → List H256
      → Option (List H256 × OrphanBlocksPool Pk Int Time)
  unfolding remove_blocks_for_parent
  remove_children p [] removed = some (removed, p)
  remove_children p (hash ∷ hashes) removed = elim (remove_blocks_for_parent p hash) [
    | none ↦ none
    | some result ↦ remove_children result.1 hashes (removed ++ block_hashes result.0)
  ]

  unfoldable pub remove_blocks :
      OrphanBlocksPool Pk Int Time → List H256 → Option (List H256 × OrphanBlocksPool Pk Int Time)
  unfolding retain_orphans remove_children remove_keys
  remove_blocks p hashes =
      let (kept, removed) = retain_orphans p.orphaned_blocks hashes in
      remove_children
        (record { orphaned_blocks = kept; unknown_blocks = remove_keys p.unknown_blocks removed })
        hashes removed

  -- `orphans_to_remove`, a set.
  unfoldable pub known_keys :
      OrphanBlocksPool Pk Int Time → List (H256 × IndexedBlock Pk Int) → List H256 → List H256
  known_keys p [] set = set
  known_keys p ((hash, b) ∷ orphans) set =
      known_keys p orphans (
        if contains_unknown_block p hash
        then set
        else if contains set hash
        then set
        else hash ∷ set)

  unfoldable pub orphans_to_remove :
      OrphanBlocksPool Pk Int Time
      → List (H256 × List (H256 × IndexedBlock Pk Int))
      → List H256
      → List H256
  unfolding known_keys
  orphans_to_remove p [] set = set
  orphans_to_remove p ((parent, orphans) ∷ m) set = orphans_to_remove p m (known_keys p orphans set)

  unfoldable pub remove_known_blocks :
      OrphanBlocksPool Pk Int Time → Option (List H256 × OrphanBlocksPool Pk Int Time)
  unfolding orphans_to_remove remove_blocks
  remove_known_blocks p =
      let hashes : List H256 = orphans_to_remove p p.orphaned_blocks [] in
      elim (remove_blocks p hashes) [ none ↦ none | some result ↦ some (hashes, result.1) ]
