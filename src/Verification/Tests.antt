-- ===== src/Verification/Tests.antt =====
-- The rules on headers and blocks on a chain of two headers, with one concrete choice of the operations
-- of `bigint`.
use rust_randchain_prototype.Prelude.{
  ℕ, zero, suc, ◌+◌, ◌-◌, ◌*◌, ◌/◌, ◌%◌, ◌^◌, ◌<◌, ◌≡◌, refl, ◌↔◌, min, max, Bool, true, Option,
  none, some, [], ◌∷◌, arith, ◌==◌, if◌then◌else◌, length, ok, success,
}
use rust_randchain_prototype.Blocks.{IndexedBlockHeader, IndexedBlock, BlockRef, by_number, by_hash}
use rust_randchain_prototype.Storage
use rust_randchain_prototype.Storage.{BlockHeaderProvider, canon_chain}
use rust_randchain_prototype.Network.{mainnet, max_bits, max_compact}
use rust_randchain_prototype.Primitives.Compact.{
  Bigint, from_u256, to_u256, size_and_compact, word_and_result,
}
use rust_randchain_prototype.Verification.Errors.{min_timespan, max_timespan}
use rust_randchain_prototype.Verification.Work.{
  retarget_timespan, work_required, is_retarget_height, is_testnet, is_valid_proof_of_work,
}
use rust_randchain_prototype.Verification.Timestamp.{
  ancestor_times, median_timestamp, median_timestamp_inclusive, median, sort,
}
use rust_randchain_prototype.Verification.Headers.{
  verify_header, accept_header, check_proof_of_work, check_timestamp, check_work, check_median,
  after_work,
}
use rust_randchain_prototype.Verification.ChainVerifier.{
  Store, full, verify_block, verify_chain, check_vdf, and_then, assert_best, accept_block,
  accept_origin, accept_chain,
}
use rust_randchain_prototype.Verification.Retarget.{retarget_timespan-clamp}
use rust_randchain_prototype.Verification.Median.{count_before, median_timestamp-majority}
use rust_randchain_prototype.Verification.Rules.{Meets, verify_header-Meets}
use rust_randchain_prototype.Verification.Acceptance.{accept_header-required}
use rust_randchain_prototype.Verification.Levels.{Passes, verify_block-Passes}

abbrev bit_length : ℕ → ℕ → ℕ
bit_length zero v = 0
bit_length (suc fuel) v = let rest = bit_length fuel (v / 2) in if v == 0 then 0 else rest + 1

abbrev wrapping : Bigint
wrapping = record {
  shl = λ v n. (v * 2 ^ n) % 2 ^ 256;
  mul = λ a b. ok ((a * b) % 2 ^ 256);
  bits = λ v. bit_length 256 v;
}

mainnet_compact : max_compact wrapping mainnet ≡ ok 545259519
unfolding max_compact max_bits from_u256 size_and_compact
mainnet_compact = refl

-- A target of 5.
abbrev parent : IndexedBlockHeader ℕ ℕ
parent = record {
  hash = 1;
  raw = record {
    version = 1;
    previous_header_hash = 0;
    time = 10;
    bits = 50331653;
    pubkey = 0;
    iterations = 0;
    randomness = 0;
  };
}

abbrev child : IndexedBlockHeader ℕ ℕ
child = record {
  hash = 4;
  raw = record {
    version = 1;
    previous_header_hash = 1;
    time = 20;
    bits = 50331653;
    pubkey = 0;
    iterations = 0;
    randomness = 0;
  };
}

abbrev find_parent : BlockRef → Option (IndexedBlockHeader ℕ ℕ)
find_parent (by_hash h) = if h == 1 then some parent else none
find_parent (by_number n) = if n == 0 then some parent else none

abbrev provider : BlockHeaderProvider ℕ ℕ
provider = record { block_header = find_parent }

retarget_timespan-clamp_example :
    retarget_timespan 500 400 ≡ min max_timespan (max min_timespan (400 - 500))
retarget_timespan-clamp_example = retarget_timespan-clamp 500 400 (omega arith) (omega arith)

child_times : ancestor_times 1 provider ≡ 10 ∷ []
unfolding ancestor_times Storage.collect Storage.next Storage.new Storage.found
child_times = refl

median_timestamp-majority_example :
    (m : ℕ) × (median_timestamp child.raw provider ≡ ok m)
    × ((x : ℕ) → (m < x) ↔ (length {A = ℕ} (10 ∷ []) / 2 < count_before x (10 ∷ [])))
median_timestamp-majority_example = median_timestamp-majority child.raw provider 10 [] child_times

verify_header-Meets_example :
    (verify_header wrapping child mainnet 30 ≡ ok (success tt)) ↔ Meets wrapping child mainnet 30
verify_header-Meets_example = verify_header-Meets wrapping child mainnet 30

accept_header-required_example :
    (accept_header wrapping provider mainnet child 1 ≡ ok (success tt)) ↔ (
      (work_required wrapping 1 20 1 provider mainnet ≡ ok 50331653)
      × (m : ℕ) × (median_timestamp child.raw provider ≡ ok m)
      × (m < 20))
accept_header-required_example = accept_header-required wrapping provider mainnet child 1

abbrev store : Store ℕ ℕ
store = record {
  best_block = record { number = 0; hash = 1 };
  block_hash = λ n. if n == 0 then some 1 else none;
  block_origin = λ h. success (canon_chain 1);
  fork = λ o. success provider;
  headers = provider;
}

abbrev block : IndexedBlock ℕ ℕ
block = record { header = child; proof = [] }

abbrev proof_holds : IndexedBlock ℕ ℕ → Bool
proof_holds b = true

block_verified : verify_block wrapping proof_holds store mainnet full block 30 ≡ ok (success tt)
unfolding verify_block verify_chain check_vdf and_then assert_best accept_block accept_origin
    accept_chain verify_header accept_header check_proof_of_work check_timestamp check_work
    check_median after_work work_required is_retarget_height is_testnet is_valid_proof_of_work
    median_timestamp median_timestamp_inclusive median sort ancestor_times Storage.collect
    Storage.next Storage.new Storage.found max_compact max_bits from_u256 size_and_compact to_u256
    word_and_result
block_verified = refl

verify_block-Passes_example : Passes wrapping proof_holds store mainnet block 30
verify_block-Passes_example =
    verify_block-Passes wrapping proof_holds store mainnet full block 30 (λ e. cc) block_verified
