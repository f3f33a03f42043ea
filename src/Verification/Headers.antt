-- ===== src/Verification/Headers.antt =====
-- verification/src/verify_header.rs and verification/src/accept_header.rs: the rules on a header by
-- itself, and the rules on a header that stands at a height of a chain. The structs that only hold the
-- arguments of their `check` are the arguments here.
use rust_randchain_prototype.Prelude.{
  ℕ, ltb, leb, ◌==◌, if◌then◌else◌, add_u32, Run, ok, ◌>>=◌, Result, success, failure, ◌then_check◌,
}
use rust_randchain_prototype.Blocks.{IndexedBlockHeader}
use rust_randchain_prototype.Storage.{BlockHeaderProvider}
use rust_randchain_prototype.Network.{Network, max_compact}
use rust_randchain_prototype.Primitives.Compact.{Bigint, Compact}
use rust_randchain_prototype.Verification.Errors.{
  Error, pow, futuristic_timestamp, timestamp, difficulty, block_max_future,
}
use rust_randchain_prototype.Verification.Work.{is_valid_proof_of_work, work_required}
use rust_randchain_prototype.Verification.Timestamp.{median_timestamp}

module _ {Pk Int : Type 0} (big : Bigint) where
  -- `HeaderProofOfWork::check`, given the target that `HeaderProofOfWork::new` reads off the network.
  unfoldable pub check_proof_of_work : IndexedBlockHeader Pk Int → Compact → Result Unit Error
  check_proof_of_work header max_work_bits =
      if is_valid_proof_of_work big max_work_bits header.raw.bits header.hash
      then success tt
      else failure pow

  -- `HeaderTimestamp::check`
  unfoldable pub check_timestamp : IndexedBlockHeader Pk Int → ℕ → ℕ → Result Unit Error
  check_timestamp header current_time max_future =
      if ltb (add_u32 current_time max_future) header.raw.time
      then failure futuristic_timestamp
      else success tt

  -- `HeaderVerifier::new` and `HeaderVerifier::check`
  unfoldable pub verify_header : IndexedBlockHeader Pk Int → Network → ℕ → Run (Result Unit Error)
  unfolding check_proof_of_work check_timestamp
  verify_header header network current_time = do
    max_work_bits ← max_compact big network
    ok (
        check_proof_of_work header max_work_bits
        then_check check_timestamp header current_time block_max_future)

  -- `HeaderWork::check`, given the required work.
  unfoldable pub check_work : IndexedBlockHeader Pk Int → Compact → Result Unit Error
  check_work header work =
      if work == header.raw.bits then success tt else failure (difficulty work header.raw.bits)

  -- `HeaderMedianTimestamp::check`, given the median.
  unfoldable pub check_median : IndexedBlockHeader Pk Int → ℕ → Result Unit Error
  check_median header median = if leb header.raw.time median then failure timestamp else success tt

  -- A later check does not run, and so does not panic, when the work is refused.
  unfoldable pub after_work :
      Result Unit Error
      → IndexedBlockHeader Pk Int
      → BlockHeaderProvider Pk Int
      → Run (Result Unit Error)
  unfolding check_median
  after_work (failure e) header store = ok (failure e)
  after_work (success _) header store = do
    median ← median_timestamp header.raw store
    ok (check_median header median)

  -- `HeaderAcceptor::check`; its version check always succeeds.
  unfoldable pub accept_header :
      BlockHeaderProvider Pk Int → Network → IndexedBlockHeader Pk Int → ℕ → Run (Result Unit Error)
  unfolding check_work after_work
  accept_header store network header height = do
    work ← work_required big header.raw.previous_header_hash header.raw.time height store network
    after_work (check_work header work) header store
