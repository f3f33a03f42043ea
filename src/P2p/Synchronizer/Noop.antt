-- ===== src/P2p/Synchronizer/Noop.antt =====
-- `NoopSynchronizer`: responses as soon as they are there.
use rust_randchain_prototype.Prelude.{ℕ, Bool, true, add_u32}

pub record NoopSynchronizer : Type 0 where
  pub declared_responses : ℕ

unfoldable pub default : NoopSynchronizer
default = record { declared_responses = 0 }

unfoldable pub declare_response : NoopSynchronizer → ℕ × NoopSynchronizer
declare_response s =
    (s.declared_responses, record { declared_responses = add_u32 s.declared_responses 1 })

unfoldable pub is_permitted : NoopSynchronizer → ℕ → Bool
is_permitted s id = true

unfoldable pub permission_for_response : NoopSynchronizer → ℕ → Bool × NoopSynchronizer
permission_for_response s id = (true, s)
