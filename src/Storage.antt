-- ===== src/Storage.antt =====
-- The crate storage: the trait `BlockHeaderProvider` of storage/src/block_provider.rs and
-- `BlockAncestors` of storage/src/block_ancestors.rs.
use rust_randchain_prototype.Prelude.{ℕ, zero, suc, Option, none, some, List, [], ◌∷◌, H256}
use rust_randchain_prototype.Blocks.{IndexedBlockHeader, BlockRef, by_hash}

-- `block_header_bytes` is not asked by any code that is modelled.
pub record BlockHeaderProvider (Pk Int : Type 0) : Type 0 where
  pub block_header : BlockRef → Option (IndexedBlockHeader Pk Int)

pub record BlockAncestors (Pk Int : Type 0) : Type 0 where
  pub block : Option BlockRef
  pub headers : BlockHeaderProvider Pk Int

module _ {Pk Int : Type 0} where
  unfoldable pub new : BlockRef → BlockHeaderProvider Pk Int → BlockAncestors Pk Int
  new block headers = record { block = some block; headers = headers }

  -- The item and where the walk stands after it.
  unfoldable pub found :
      Option (IndexedBlockHeader Pk Int)
      → BlockAncestors Pk Int
      → Option (IndexedBlockHeader Pk Int) × BlockAncestors Pk Int
  found (some header) a =
      (some header, record a { block = some (by_hash header.raw.previous_header_hash) })
  found none a = (none, record a { block = none })

  unfoldable pub next :
      BlockAncestors Pk Int → Option (IndexedBlockHeader Pk Int) × BlockAncestors Pk Int
  unfolding found
  next a = found (elim a.block [ some block ↦ a.headers.block_header block | none ↦ none ]) a

  -- `.take(n).collect()`
  unfoldable pub collect : ℕ → BlockAncestors Pk Int → List (IndexedBlockHeader Pk Int)
  unfolding next
  collect zero a = []
  collect (suc n) a =
      let rest = collect n (next a).1 in elim (next a).0 [ some header ↦ header ∷ rest | none ↦ [] ]

-- storage/src/block_origin.rs
pub record SideChainOrigin : Type 0 where
  pub ancestor : ℕ
  pub canonized_route : List H256
  pub decanonized_route : List H256
  pub block_number : ℕ

pub data BlockOrigin : Type 0 where
  known_block : BlockOrigin
  canon_chain : ℕ → BlockOrigin
  side_chain side_chain_becoming_canon_chain : SideChainOrigin → BlockOrigin
