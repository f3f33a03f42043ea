-- ===== src/P2p/Synchronizer/Threshold.antt =====
-- `ThresholdSynchronizer`: first in, first out, and the last few ids before its start at any time.
use rust_randchain_prototype.Prelude.{
  ℕ, ◌+◌, ◌-◌, ◌%◌, ◌^◌, Bool, ◌&&◌, ◌||◌, ltb, leb, if◌then◌else◌,
}
use rust_randchain_prototype.P2p.Synchronizer.Fifo
use rust_randchain_prototype.P2p.Synchronizer.Fifo.{FifoSynchronizer}

pub record ThresholdSynchronizer : Type 0 where
  pub inner : FifoSynchronizer
  pub to_grant_min : ℕ
  pub to_grant_max : ℕ

-- `overflowing_sub` of two `u32`.
unfoldable pub overflowing_sub : ℕ → ℕ → ℕ
overflowing_sub a b = ((a + 2 ^ 32) - b) % 2 ^ 32

unfoldable pub new : ℕ → ℕ → ThresholdSynchronizer
unfolding overflowing_sub
new declared threshold = record {
  inner = record { declared_responses = declared; next_to_grant = declared };
  to_grant_min = overflowing_sub declared threshold;
  to_grant_max = declared;
}

unfoldable pub within_threshold : ThresholdSynchronizer → ℕ → Bool
within_threshold s id =
    if leb s.to_grant_min s.to_grant_max
    then leb s.to_grant_min id && ltb id s.to_grant_max
    else leb s.to_grant_min id || ltb id s.to_grant_max

unfoldable pub declare_response : ThresholdSynchronizer → ℕ × ThresholdSynchronizer
declare_response s =
    let (id, inner) = Fifo.declare_response s.inner in (id, record s { inner = inner })

unfoldable pub is_permitted : ThresholdSynchronizer → ℕ → Bool
unfolding within_threshold
is_permitted s id = Fifo.is_permitted s.inner id || within_threshold s id

unfoldable pub permission_for_response : ThresholdSynchronizer → ℕ → Bool × ThresholdSynchronizer
unfolding within_threshold
permission_for_response s id =
    let (granted, inner) = Fifo.permission_for_response s.inner id in
    (granted || within_threshold s id, record s { inner = inner })
