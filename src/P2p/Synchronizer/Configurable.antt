-- ===== src/P2p/Synchronizer/Configurable.antt =====
-- `InnerSynchronizer` and `ConfigurableSynchronizer`: a synchronizer whose policy can change.
use rust_randchain_prototype.Prelude.{ℕ, Bool, true, false, if◌then◌else◌}
use rust_randchain_prototype.P2p.Synchronizer.Noop
use rust_randchain_prototype.P2p.Synchronizer.Noop.{NoopSynchronizer}
use rust_randchain_prototype.P2p.Synchronizer.Threshold
use rust_randchain_prototype.P2p.Synchronizer.Threshold.{ThresholdSynchronizer}

abbrev pub configurable_synchronizer_threshold : ℕ
configurable_synchronizer_threshold = 10

pub data InnerSynchronizer : Type 0 where
  noop : NoopSynchronizer → InnerSynchronizer
  threshold : ThresholdSynchronizer → InnerSynchronizer

unfoldable pub inner_new : Bool → InnerSynchronizer
inner_new sync = if sync then threshold (Threshold.new 0 0) else noop Noop.default

pub record ConfigurableSynchronizer : Type 0 where
  pub inner : InnerSynchronizer

unfoldable pub new : Bool → ConfigurableSynchronizer
unfolding inner_new
new sync = record { inner = inner_new sync }

unfoldable pub default : ConfigurableSynchronizer
unfolding new
default = new false

unfoldable pub changed : InnerSynchronizer → Bool → InnerSynchronizer
changed (threshold s) true = threshold s
changed (threshold s) false = noop (record { declared_responses = s.inner.declared_responses })
changed (noop s) true =
    threshold (Threshold.new s.declared_responses configurable_synchronizer_threshold)
changed (noop s) false = noop s

unfoldable pub change_sync_policy : ConfigurableSynchronizer → Bool → ConfigurableSynchronizer
unfolding changed
change_sync_policy c sync = record { inner = changed c.inner sync }

unfoldable pub inner_declare : InnerSynchronizer → ℕ × InnerSynchronizer
inner_declare (noop s) = let (id, s') = Noop.declare_response s in (id, noop s')
inner_declare (threshold s) = let (id, s') = Threshold.declare_response s in (id, threshold s')

unfoldable pub declare_response : ConfigurableSynchronizer → ℕ × ConfigurableSynchronizer
unfolding inner_declare
declare_response c = let (id, inner) = inner_declare c.inner in (id, record { inner = inner })

unfoldable pub inner_is_permitted : InnerSynchronizer → ℕ → Bool
inner_is_permitted (noop s) id = Noop.is_permitted s id
inner_is_permitted (threshold s) id = Threshold.is_permitted s id

unfoldable pub is_permitted : ConfigurableSynchronizer → ℕ → Bool
unfolding inner_is_permitted
is_permitted c id = inner_is_permitted c.inner id

unfoldable pub inner_permission : InnerSynchronizer → ℕ → Bool × InnerSynchronizer
inner_permission (noop s) id =
    let (granted, s') = Noop.permission_for_response s id in (granted, noop s')
inner_permission (threshold s) id =
    let (granted, s') = Threshold.permission_for_response s id in (granted, threshold s')

unfoldable pub permission_for_response :
    ConfigurableSynchronizer → ℕ → Bool × ConfigurableSynchronizer
unfolding inner_permission
permission_for_response c id =
    let (granted, inner) = inner_permission c.inner id in (granted, record { inner = inner })
