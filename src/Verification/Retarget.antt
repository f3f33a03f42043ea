-- ===== src/Verification/Retarget.antt =====
-- `retarget_timespan`: the time since the last retarget within its bounds.
use rust_randchain_prototype.Prelude.{ℕ, ◌-◌, ◌^◌, ◌<◌, ◌≡◌, min, max, arith}
use rust_randchain_prototype.Verification.Errors.{min_timespan, max_timespan}
use rust_randchain_prototype.Verification.Work.{range_constrain, retarget_timespan}

-- The signed detour computes the time that has passed, with 0 for a parent older than the block of the
-- last retarget, moved into the bounds of half a week and eight weeks.
pub retarget_timespan-clamp :
    (retarget last : ℕ)
    → retarget < 2 ^ 32
    → last < 2 ^ 32
    → retarget_timespan retarget last ≡ min max_timespan (max min_timespan (last - retarget))
unfolding retarget_timespan range_constrain
retarget_timespan-clamp retarget last hr hl = ground arith
