-- ===== src/Sync/KnownHashFilter.antt =====
-- `KnownHashFilter` of sync/src/utils/known_hash_filter.rs. The `LinkedHashMap` of the crate
-- `linked-hash-map` is used as a list in insertion order: the filter inserts only keys that are not
-- there, which stand last then, and `pop_front` takes the first.
pub mod Bounds
pub mod Newest
use rust_randchain_prototype.Prelude.{
  ℕ, zero, suc, ◌+◌, Bool, true, false, not, Option, none, some, List, [], ◌∷◌, ◌++◌, ltb, ◌==◌,
  if◌then◌else◌, H256, length, drop, is_some,
}
use rust_randchain_prototype.Prelude.HashMap

abbrev pub max_known_hashes_len : ℕ
max_known_hashes_len = 2048

pub data KnownHashType : Type 0 where
  block : KnownHashType

pub record KnownHashFilter : Type 0 where
  pub known_hashes : List (H256 × KnownHashType)

unfoldable pub default : KnownHashFilter
default = record { known_hashes = [] }

-- The derived `==` of `KnownHashType`.
unfoldable pub same_type : KnownHashType → KnownHashType → Bool
same_type block block = true

unfoldable pub insert : KnownHashFilter → H256 → KnownHashType → KnownHashFilter
insert f hash hash_type =
    if not (is_some (HashMap.get f.known_hashes hash))
    then (let known = f.known_hashes ++ ((hash, hash_type) ∷ []) in
        if ltb max_known_hashes_len (length known)
        then record { known_hashes = drop 1 known }
        else record { known_hashes = known })
    else f

unfoldable pub contains : KnownHashFilter → H256 → KnownHashType → Bool
unfolding same_type
contains f hash hash_type = elim (HashMap.get f.known_hashes hash) [
  | none ↦ false
  | some stored ↦ same_type stored hash_type
]

unfoldable pub filter_block : KnownHashFilter → H256 → Bool
unfolding same_type
filter_block f hash = elim (HashMap.get f.known_hashes hash) [
  | none ↦ true
  | some stored ↦ not (same_type stored block)
]
