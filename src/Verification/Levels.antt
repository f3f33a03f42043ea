-- ===== src/Verification/Levels.antt =====
-- `BackwardsCompatibleChainVerifier`: a block that passes has passed every rule.
use rust_randchain_prototype.Prelude.{
  ℕ, ◌≡◌, ◌≢◌, refl, Bool, true, Run, ok, panic, ok-injective, Result, success, failure,
}
use rust_randchain_prototype.Blocks.{IndexedBlock}
use rust_randchain_prototype.Storage.{
  BlockHeaderProvider, BlockOrigin, SideChainOrigin, known_block, canon_chain, side_chain,
  side_chain_becoming_canon_chain,
}
use rust_randchain_prototype.Network.{Network}
use rust_randchain_prototype.Primitives.Compact.{Bigint}
use rust_randchain_prototype.Verification.Errors.{Error, StorageError, vdf}
use rust_randchain_prototype.Verification.Headers.{verify_header, accept_header}
use rust_randchain_prototype.Verification.Rules.{kept}
use rust_randchain_prototype.Verification.ChainVerifier.{
  VerificationLevel, full, header_only, no_verification, Store, and_then, check_vdf, verify_chain,
  accept_chain, accept_fork, accept_origin, assert_best, accept_block, verify_block,
}

and_then-success :
    (first next : Run (Result Unit Error))
    → and_then first next ≡ ok (success tt)
    → (first ≡ ok (success tt)) × (next ≡ ok (success tt))
unfolding and_then
and_then-success panic next h = cc
and_then-success (ok (failure e)) next h = absurd (cc (ok-injective h))
and_then-success (ok (success _)) next h = (refl, h)

module _ {Pk Int : Type 0} (big : Bigint) (vdf_holds : IndexedBlock Pk Int → Bool) where
  -- The chain a block is accepted on and its height there.
  pub data Stands (store : Store Pk Int)
      : BlockOrigin → BlockHeaderProvider Pk Int → ℕ → Type 0 where
    on_canon : (n : ℕ) → Stands store (canon_chain n) store.headers n
    on_side :
        (origin : SideChainOrigin) (fork : BlockHeaderProvider Pk Int)
        → store.fork origin ≡ success fork
        → Stands store (side_chain origin) fork origin.block_number
    on_new_canon :
        (origin : SideChainOrigin) (fork : BlockHeaderProvider Pk Int)
        → store.fork origin ≡ success fork
        → Stands store (side_chain_becoming_canon_chain origin) fork origin.block_number

  -- Every rule on a block, by itself and on the chain that it continues.
  pub record Passes (store : Store Pk Int) (network : Network) (block : IndexedBlock Pk Int)
      (current_time : ℕ) : Type 0 where
    pub origin : BlockOrigin
    pub provider : BlockHeaderProvider Pk Int
    pub height : ℕ
    pub vdf_valid : vdf_holds block ≡ true
    pub header_valid : verify_header big block.header network current_time ≡ ok (success tt)
    pub origin_found : store.block_origin block.header ≡ success origin
    pub stands : Stands store origin provider height
    pub header_accepted : accept_header big provider network block.header height ≡ ok (success tt)

  fork_passes :
      (store : Store Pk Int) (network : Network) (block : IndexedBlock Pk Int)
      (origin : SideChainOrigin)
      → accept_fork big vdf_holds store network block origin ≡ ok (success tt)
      → (fork : BlockHeaderProvider Pk Int) × (store.fork origin ≡ success fork)
        × (accept_header big fork network block.header origin.block_number ≡ ok (success tt))
  unfolding accept_fork accept_chain
  fork_passes store network block origin h = go (store.fork origin) refl
    where
      go :
          (r : Result (BlockHeaderProvider Pk Int) StorageError)
          → store.fork origin ≡ r
          → (fork : BlockHeaderProvider Pk Int) × (store.fork origin ≡ success fork)
            × (accept_header big fork network block.header origin.block_number ≡ ok (success tt))
      go (failure e) at = absurd (cc (ok-injective (rw (at, accept_fork) at h)))
      go (success fork) at = (fork, at, rw (at, accept_fork) at h)

  origin_passes :
      (store : Store Pk Int) (network : Network) (block : IndexedBlock Pk Int)
      (origin : BlockOrigin)
      → accept_origin big vdf_holds origin store network block ≡ ok (success tt)
      → (provider : BlockHeaderProvider Pk Int) × (height : ℕ) × Stands store origin provider height
        × (accept_header big provider network block.header height ≡ ok (success tt))
  unfolding accept_origin accept_chain
  origin_passes store network block known_block h = cc
  origin_passes store network block (canon_chain n) h = (store.headers, n, on_canon n, h)
  origin_passes store network block (side_chain origin) h =
      let (fork, e, accepted) = fork_passes store network block origin h in
      (fork, origin.block_number, on_side origin fork e, accepted)
  origin_passes store network block (side_chain_becoming_canon_chain origin) h =
      let (fork, e, accepted) = fork_passes store network block origin h in
      (fork, origin.block_number, on_new_canon origin fork e, accepted)

  accepted_stands :
      (store : Store Pk Int) (network : Network) (block : IndexedBlock Pk Int)
      → accept_block big vdf_holds store network block ≡ ok (success tt)
      → (origin : BlockOrigin) × (store.block_origin block.header ≡ success origin)
        × (accept_origin big vdf_holds origin store network block ≡ ok (success tt))
  unfolding accept_block
  accepted_stands store network block h = go (store.block_origin block.header) refl
    where
      go :
          (r : Result BlockOrigin StorageError)
          → store.block_origin block.header ≡ r
          → (origin : BlockOrigin) × (store.block_origin block.header ≡ success origin)
            × (accept_origin big vdf_holds origin store network block ≡ ok (success tt))
      go (failure e) at = absurd (cc (ok-injective (rw (at, accept_block) at h)))
      go (success origin) at = (origin, at, rw (at, accept_block) at h)

  checked-Passes :
      (store : Store Pk Int) (network : Network) (block : IndexedBlock Pk Int) (current_time : ℕ)
      → verify_block big vdf_holds store network full block current_time ≡ ok (success tt)
      → Passes store network block current_time
  unfolding verify_block verify_chain check_vdf
  checked-Passes store network block current_time h =
      let (chain, rest) =
        and_then-success (verify_chain big vdf_holds block network current_time) _ h in
      let (proved, header) = and_then-success (ok (check_vdf big vdf_holds block)) _ chain in
      let (best, later) = and_then-success (assert_best big vdf_holds store) _ rest in
      let (accepted, again) =
        and_then-success (accept_block big vdf_holds store network block) _ later in
      let (origin, found, checked) = accepted_stands store network block accepted in
      let (provider, height, stands, header_accepted) =
        origin_passes store network block origin checked in
      record {
        origin = origin;
        provider = provider;
        height = height;
        vdf_valid = kept (vdf_holds block) vdf (ok-injective proved);
        header_valid = header;
        origin_found = found;
        stands = stands;
        header_accepted = header_accepted;
      }

  -- A block that the chain verifier lets through, at any level but `NoVerification`, has a valid VDF proof
  -- and a header that meets the rules by itself, has an origin in the store, and its header is accepted at
  -- its height on the canon chain or on the fork that the origin names.
  pub verify_block-Passes :
      (store : Store Pk Int) (network : Network) (level : VerificationLevel)
      (block : IndexedBlock Pk Int) (current_time : ℕ)
      → level ≢ no_verification
      → verify_block big vdf_holds store network level block current_time ≡ ok (success tt)
      → Passes store network block current_time
  unfolding verify_block
  verify_block-Passes store network no_verification block current_time n h = absurd (n refl)
  verify_block-Passes store network full block current_time n h =
      checked-Passes store network block current_time h
  verify_block-Passes store network header_only block current_time n h =
      checked-Passes store network block current_time h
