-- ===== src/Db/Chain/Origin.antt =====
-- `block_origin` of db/src/block_chain_db.rs: where a header stands to the chain. Its loop has as many
-- rounds as the source's range.
use rust_randchain_prototype.Prelude.{
  ℕ, zero, suc, ◌+◌, ◌-◌, Option, none, some, List, [], ◌∷◌, ◌++◌, ◌==◌, ltb, if◌then◌else◌,
  add_u32, as_u32, reverse, H256, Result, success, failure, Run, ok, panic, ◌>>=◌, expect,
}
use rust_randchain_prototype.Blocks.{by_hash, IndexedBlockHeader}
use rust_randchain_prototype.Storage.{
  SideChainOrigin, BlockOrigin, known_block, canon_chain, side_chain,
  side_chain_becoming_canon_chain,
}
use rust_randchain_prototype.Serialization.Headers.{Block}
use rust_randchain_prototype.Db.Kv.Transaction.{KeyValueDatabase}
use rust_randchain_prototype.Db.Chain.{
  BlockChainDatabase, Error, unknown_parent, ancient_fork, block_number, block_hash, block_header,
  contains_block,
}

abbrev pub max_fork_route_preset : ℕ
max_fork_route_preset = 2048

-- `assert_eq!` of two optional hashes, the first of which is there.
abbrev pub assert_is : {A : Type 0} → H256 → Option H256 → Run A → Run A
assert_is h none next = panic
assert_is h (some k) next = if h == k then next else panic

abbrev pub cons_some : Option H256 → List H256 → List H256
cons_some none hs = hs
cons_some (some h) hs = h ∷ hs

module _ {Pk Int : Type 0} {kv : KeyValueDatabase (Block Pk Int)} where
  -- `filter_map` of `block_hash` over a range that starts at `first`.
  unfoldable pub hashes_between : BlockChainDatabase kv → ℕ → ℕ → Run (List H256)
  hashes_between c first zero = ok []
  hashes_between c first (suc count) = do
    hash ← block_hash c first
    rest ← hashes_between c (first + 1) count
    ok (cons_some hash rest)

  -- The arm of the loop's `match` for a hash of the chain.
  unfoldable pub side_chain_origin : BlockChainDatabase kv → ℕ → ℕ → List H256 → Run BlockOrigin
  unfolding hashes_between
  side_chain_origin c number fork_len route = do
    decanonized ←
        hashes_between c (add_u32 number 1) (add_u32 c.best_block.number 1 - add_u32 number 1)
    let block_number : ℕ = add_u32 (add_u32 number (as_u32 fork_len)) 1
    let origin : SideChainOrigin = record {
      ancestor = number;
      canonized_route = reverse route;
      decanonized_route = decanonized;
      block_number = block_number;
    }
    ok (
        if ltb c.best_block.number block_number
        then side_chain_becoming_canon_chain origin
        else side_chain origin)

  -- The loop, with the rounds that are left.
  unfoldable pub route_loop :
      BlockChainDatabase kv → ℕ → ℕ → List H256 → H256 → Run (Result BlockOrigin Error)
  unfolding side_chain_origin
  route_loop c zero fork_len route next_hash = ok (failure ancient_fork)
  route_loop c (suc rounds) fork_len route next_hash = do
    number ← block_number c next_hash
    elim number [
      | some n ↦ side_chain_origin c n fork_len route >>= λ origin. ok (success origin)
      | none ↦ block_header c (by_hash next_hash) >>= λ found. expect found >>= λ header.
          route_loop c rounds (fork_len + 1) (route ++ (next_hash ∷ []))
            header.raw.previous_header_hash
    ]

  -- What follows the checks of the header itself.
  unfoldable pub parent_origin : BlockChainDatabase kv → H256 → Run (Result BlockOrigin Error)
  unfolding route_loop
  parent_origin c parent = do
    known ← contains_block c (by_hash parent)
    (if known then route_loop c max_fork_route_preset 0 [] parent else ok (failure unknown_parent))

  unfoldable pub unknown_origin :
      BlockChainDatabase kv → IndexedBlockHeader Pk Int → Run (Result BlockOrigin Error)
  unfolding parent_origin
  unknown_origin c header =
      if c.best_block.hash == header.raw.previous_header_hash
      then ok (success (canon_chain (add_u32 c.best_block.number 1)))
      else parent_origin c header.raw.previous_header_hash

  unfoldable pub block_origin :
      BlockChainDatabase kv → IndexedBlockHeader Pk Int → Run (Result BlockOrigin Error)
  unfolding unknown_origin
  block_origin c header = do
    best_hash ← block_hash c c.best_block.number
    assert_is c.best_block.hash best_hash (
        contains_block c (by_hash header.hash) >>= λ known.
        (if known then ok (success known_block) else unknown_origin c header))
