-- ===== src/Verification/ChainVerifier.antt =====
-- verification/src/verify_block.rs, verify_chain.rs, accept_block.rs, accept_chain.rs and
-- chain_verifier.rs: the rules on a block. `vdf::verify` on the group element `h_g` of the block and
-- the clock are parameters.
use rust_randchain_prototype.Prelude.{
  ℕ, Bool, Option, none, some, ◌==◌, if◌then◌else◌, H256, Run, ok, panic, Result, success, failure,
}
use rust_randchain_prototype.Blocks.{IndexedBlockHeader, IndexedBlock, BestBlock}
use rust_randchain_prototype.Storage.{
  BlockHeaderProvider, BlockOrigin, SideChainOrigin, known_block, canon_chain, side_chain,
  side_chain_becoming_canon_chain,
}
use rust_randchain_prototype.Network.{Network}
use rust_randchain_prototype.Primitives.Compact.{Bigint}
use rust_randchain_prototype.Verification.Errors.{Error, StorageError, vdf, database}
use rust_randchain_prototype.Verification.Headers.{verify_header, accept_header}

pub data VerificationLevel : Type 0 where
  full header_only no_verification : VerificationLevel

-- What the verifier asks of the store: `Store`, `BlockChain` and the forks it makes.
pub record Store (Pk Int : Type 0) : Type 0 where
  pub best_block : BestBlock
  pub block_hash : ℕ → Option H256
  pub block_origin : IndexedBlockHeader Pk Int → Result BlockOrigin StorageError
  pub fork : SideChainOrigin → Result (BlockHeaderProvider Pk Int) StorageError
  pub headers : BlockHeaderProvider Pk Int

-- A check that may panic, before another: the second one only runs when the first one succeeds.
unfoldable pub and_then :
    Run (Result Unit Error) → Run (Result Unit Error) → Run (Result Unit Error)
and_then panic next = panic
and_then (ok (failure e)) next = ok (failure e)
and_then (ok (success _)) next = next

module _ {Pk Int : Type 0} (big : Bigint) (vdf_holds : IndexedBlock Pk Int → Bool) where
  -- `BlockVerifier::check`, which is `BlockVDF::check`
  unfoldable pub check_vdf : IndexedBlock Pk Int → Result Unit Error
  check_vdf block = if vdf_holds block then success tt else failure vdf

  -- `ChainVerifier::new` and `ChainVerifier::check`
  unfoldable pub verify_chain : IndexedBlock Pk Int → Network → ℕ → Run (Result Unit Error)
  unfolding check_vdf and_then
  verify_chain block network current_time =
      and_then (ok (check_vdf block)) (verify_header big block.header network current_time)

  -- `ChainAcceptor::new` and `ChainAcceptor::check`; `BlockAcceptor::check` always succeeds.
  unfoldable pub accept_chain :
      BlockHeaderProvider Pk Int → Network → IndexedBlock Pk Int → ℕ → Run (Result Unit Error)
  accept_chain provider network block height =
      accept_header big provider network block.header height

  -- The arms for the two kinds of side chains.
  unfoldable pub accept_fork :
      Store Pk Int → Network → IndexedBlock Pk Int → SideChainOrigin → Run (Result Unit Error)
  unfolding accept_chain
  accept_fork store network block origin = elim (store.fork origin) [
    | failure e ↦ ok (failure (database e))
    | success provider ↦ accept_chain provider network block origin.block_number
  ]

  -- `match block_origin`
  unfoldable pub accept_origin :
      BlockOrigin → Store Pk Int → Network → IndexedBlock Pk Int → Run (Result Unit Error)
  unfolding accept_fork accept_chain
  accept_origin known_block store network block = panic
  accept_origin (canon_chain block_number) store network block =
      accept_chain store.headers network block block_number
  accept_origin (side_chain origin) store network block = accept_fork store network block origin
  accept_origin (side_chain_becoming_canon_chain origin) store network block =
      accept_fork store network block origin

  -- The `assert_eq!` that the best block is the one at its number.
  unfoldable pub assert_best : Store Pk Int → Run (Result Unit Error)
  assert_best store = elim (store.block_hash store.best_block.number) [
    | none ↦ panic
    | some hash ↦ if store.best_block.hash == hash then ok (success tt) else panic
  ]

  unfoldable pub accept_block :
      Store Pk Int → Network → IndexedBlock Pk Int → Run (Result Unit Error)
  unfolding accept_origin
  accept_block store network block = elim (store.block_origin block.header) [
    | failure e ↦ ok (failure (database e))
    | success origin ↦ accept_origin origin store network block
  ]

  -- `BackwardsCompatibleChainVerifier::verify_block`; the store does not change in between.
  unfoldable pub verify_block :
      Store Pk Int → Network → VerificationLevel → IndexedBlock Pk Int → ℕ → Run (Result Unit Error)
  unfolding verify_chain accept_block assert_best and_then
  verify_block store network no_verification block current_time = ok (success tt)
  verify_block store network full block current_time =
      and_then (verify_chain block network current_time) (
        and_then (assert_best store)
          (and_then (accept_block store network block) (assert_best store)))
  verify_block store network header_only block current_time =
      and_then (verify_chain block network current_time) (
        and_then (assert_best store)
          (and_then (accept_block store network block) (assert_best store)))
