-- ===== src/Verification/Acceptance.antt =====
-- What `HeaderAcceptor` lets through.
use rust_randchain_prototype.Prelude.{
  ℕ, ◌<◌, ◌≡◌, refl, ap, ◌∙◌, ◌↔◌, false, arith, leb, ==_iff, ==_self, ok, ok-injective, >>=-eq-ok,
  Result, success, failure,
}
use rust_randchain_prototype.Blocks.{IndexedBlockHeader}
use rust_randchain_prototype.Storage.{BlockHeaderProvider}
use rust_randchain_prototype.Network.{Network}
use rust_randchain_prototype.Primitives.Compact.{Bigint}
use rust_randchain_prototype.Verification.Errors.{Error, timestamp, difficulty}
use rust_randchain_prototype.Verification.Work.{work_required}
use rust_randchain_prototype.Verification.Timestamp.{median_timestamp}
use rust_randchain_prototype.Verification.Headers.{
  check_work, check_median, after_work, accept_header,
}
use rust_randchain_prototype.Verification.Rules.{kept, dropped}

after_work-success :
    {Pk Int : Type 0} (work_checked : Result Unit Error) (header : IndexedBlockHeader Pk Int)
    (store : BlockHeaderProvider Pk Int) (big : Bigint)
    → after_work big work_checked header store ≡ ok (success tt)
    → (work_checked ≡ success tt)
      × (median : ℕ) × (median_timestamp header.raw store ≡ ok median)
      × (median < header.raw.time)
unfolding after_work check_median
after_work-success (failure e) header store big h = absurd (cc (ok-injective h))
after_work-success (success _) header store big h =
    let (median, e, h') = >>=-eq-ok (median_timestamp header.raw store) _ h in
    (
      refl,
      median,
      e,
      ground (arith, dropped (leb header.raw.time median) timestamp (ok-injective h')),
    )

-- The acceptor lets a header through exactly when it claims the work that its height and its ancestors
-- require and its time is after the median of their times; neither computation panics then.
pub accept_header-required :
    {Pk Int : Type 0} (big : Bigint) (store : BlockHeaderProvider Pk Int) (network : Network)
    (header : IndexedBlockHeader Pk Int) (height : ℕ)
    → (accept_header big store network header height ≡ ok (success tt)) ↔ (
        (work_required big header.raw.previous_header_hash header.raw.time height store network
          ≡ ok header.raw.bits)
        × (median : ℕ) × (median_timestamp header.raw store ≡ ok median)
        × (median < header.raw.time))
unfolding accept_header check_work after_work check_median
accept_header-required big store network header height = (forth, back)
  where
    forth :
        accept_header big store network header height ≡ ok (success tt)
        → (work_required big header.raw.previous_header_hash header.raw.time height store network
            ≡ ok header.raw.bits)
          × (median : ℕ) × (median_timestamp header.raw store ≡ ok median)
          × (median < header.raw.time)
    forth h =
        let (work, e, h') =
          >>=-eq-ok
            (work_required big header.raw.previous_header_hash header.raw.time height store network)
            _ h in
        let (agreed, median, found, later) =
          after_work-success (check_work big header work) header store big h' in
        let same : work ≡ header.raw.bits =
          (==_iff work header.raw.bits).0 (kept _ (difficulty work header.raw.bits) agreed) in
        (e ∙ ap ok same, median, found, later)

    back :
        (work_required big header.raw.previous_header_hash header.raw.time height store network
            ≡ ok header.raw.bits)
          × (median : ℕ) × (median_timestamp header.raw store ≡ ok median)
          × (median < header.raw.time)
        → accept_header big store network header height ≡ ok (success tt)
    back (e, median, found, later) =
        let late : leb header.raw.time median ≡ false = ground (arith, later) in
        rw (e, ==_self header.raw.bits, found, late) refl
