-- ===== src/Verification/Work.antt =====
-- verification/src/work.rs: the proof of work that a header claims and the one it must claim. A hash
-- is the number that its reversed bytes spell.
use rust_randchain_prototype.Prelude.{
  ℕ, zero, suc, ◌+◌, ◌/◌, ◌%◌, Bool, true, false, not, ◌&&◌, ◌||◌, none, some, List, [], ◌∷◌, ltb,
  leb, ◌==◌, if◌then◌else◌, as_u32, add_u32, sub_u32, ℤ, pos, difference, max_int, min_int,
  int_as_u32, H256, Run, ok, panic, ◌>>=◌, expect, success, failure,
}
use rust_randchain_prototype.Blocks.{IndexedBlockHeader, BlockRef, by_number, by_hash}
use rust_randchain_prototype.Storage.{BlockHeaderProvider}
use rust_randchain_prototype.Network.{
  Network, testnet, mainnet, regtest, unitest, other, max_compact,
}
use rust_randchain_prototype.Primitives.Compact.{Bigint, Compact, to_u256, into_u256, from_u256}
use rust_randchain_prototype.Verification.Errors.{
  retargeting_interval, double_spacing_seconds, target_timespan_seconds, min_timespan, max_timespan,
}

unfoldable pub is_retarget_height : ℕ → Bool
is_retarget_height height = height % retargeting_interval == 0

unfoldable pub range_constrain : ℤ → ℤ → ℤ → ℤ
range_constrain value lowest highest = min_int (max_int value lowest) highest

unfoldable pub retarget_timespan : ℕ → ℕ → ℕ
unfolding range_constrain
retarget_timespan retarget_timestamp last_timestamp = int_as_u32 (
    range_constrain (difference last_timestamp retarget_timestamp) (pos min_timespan)
      (pos max_timespan))

-- The loop over `0..block_height / 210000`.
unfoldable pub halved : ℕ → ℕ → ℕ
halved zero res = res
halved (suc n) res = halved n (res / 2)

unfoldable pub block_reward_satoshi : ℕ → ℕ
unfolding halved
block_reward_satoshi block_height = halved (block_height / 210000) 5000000000

-- The loop over the collected bits.
unfoldable pub first_bits : List Compact → ℕ → ℕ → Compact → Compact
first_bits [] index height max_bits = max_bits
first_bits (bit ∷ bits) index height max_bits =
    let rest = first_bits bits (index + 1) height max_bits in
    if not (bit == max_bits) || is_retarget_height (sub_u32 (sub_u32 height (as_u32 index)) 1)
    then bit
    else rest

-- `*network == Network::Testnet`
unfoldable pub is_testnet : Network → Bool
is_testnet testnet = true
is_testnet mainnet = false
is_testnet regtest = false
is_testnet unitest = false
is_testnet (other _) = false

module _ (big : Bigint) where
  unfoldable pub is_valid_proof_of_work_hash : Compact → H256 → Bool
  is_valid_proof_of_work_hash bits hash = elim (to_u256 big bits) [
    | success target ↦ leb hash target
    | failure _ ↦ false
  ]

  unfoldable pub is_valid_proof_of_work : Compact → Compact → H256 → Bool
  is_valid_proof_of_work max_work_bits bits hash = elim (to_u256 big max_work_bits) [
    | failure _ ↦ false
    | success maximum ↦ elim (to_u256 big bits) [
      | failure _ ↦ false
      | success target ↦ leb target maximum && leb hash target
    ]
  ]

  module _ {Pk Int : Type 0} where
    unfoldable pub work_required_retarget :
        IndexedBlockHeader Pk Int → ℕ → BlockHeaderProvider Pk Int → Compact → Run Compact
    work_required_retarget parent_header height store max_work_bits = do
      retarget_header ←
          expect (store.block_header (by_number (sub_u32 height retargeting_interval)))
      let timespan = retarget_timespan retarget_header.raw.time parent_header.raw.time
      scaled ← big.mul (into_u256 big parent_header.raw.bits) timespan
      let retarget = scaled / target_timespan_seconds
      if ltb (into_u256 big max_work_bits) retarget
          then ok max_work_bits
          else from_u256 big retarget

    -- The loop that collects the bits of at most `n` headers.
    unfoldable pub collect_bits : ℕ → BlockRef → BlockHeaderProvider Pk Int → List Compact
    collect_bits zero block_ref store = []
    collect_bits (suc n) block_ref store = elim (store.block_header block_ref) [
      | some previous ↦
          previous.raw.bits ∷ collect_bits n (by_hash previous.raw.previous_header_hash) store
      | none ↦ []
    ]

    unfoldable pub work_required_testnet :
        H256 → ℕ → ℕ → BlockHeaderProvider Pk Int → Network → Run Compact
    unfolding collect_bits first_bits
    work_required_testnet parent_hash time height store network = if height == 0 then panic else do
      parent_header ← expect (store.block_header (by_hash parent_hash))
      max_bits ← max_compact big network
      ok (
          if ltb (add_u32 parent_header.raw.time double_spacing_seconds) time
          then max_bits
          else first_bits (collect_bits retargeting_interval (by_hash parent_hash) store) 0 height
              max_bits)

    unfoldable pub work_required : H256 → ℕ → ℕ → BlockHeaderProvider Pk Int → Network → Run Compact
    work_required parent_hash time height store network = do
      max_bits ← max_compact big network
      if height == 0 then ok max_bits else (do
        parent_header ← expect (store.block_header (by_hash parent_hash))
        if is_retarget_height height
            then work_required_retarget parent_header height store max_bits
            else (if is_testnet network
                then work_required_testnet parent_hash time height store testnet
                else ok parent_header.raw.bits))
