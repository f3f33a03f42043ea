-- ===== src/P2p/Synchronizer/Window.antt =====
-- `ThresholdSynchronizer`: which ids are granted out of order.
use rust_randchain_prototype.Prelude.{ℕ, ◌+◌, ◌-◌, ◌%◌, ◌^◌, ◌<◌, ◌≡◌, arith, ltb}
use rust_randchain_prototype.P2p.Synchronizer.Threshold.{new, within_threshold, overflowing_sub}

-- A new synchronizer grants out of order exactly the `threshold` ids before the first one it gives out,
-- counted around 2 ^ 32.
pub within_threshold-window :
    (declared threshold id : ℕ)
    → declared < 2 ^ 32
    → threshold < 2 ^ 32
    → id < 2 ^ 32
    → within_threshold (new declared threshold) id
      ≡ ltb (((declared + 2 ^ 32) - (id + 1)) % 2 ^ 32) threshold
unfolding new within_threshold overflowing_sub
within_threshold-window declared threshold id hd ht hi = ground arith
