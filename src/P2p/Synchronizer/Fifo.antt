-- ===== src/P2p/Synchronizer/Fifo.antt =====
-- `FifoSynchronizer`: responses in the order of their declaration. `overflowing_add` wraps at 2 ^ 32.
use rust_randchain_prototype.Prelude.{ℕ, Bool, true, false, ◌==◌, if◌then◌else◌, add_u32}

pub record FifoSynchronizer : Type 0 where
  pub declared_responses : ℕ
  pub next_to_grant : ℕ

unfoldable pub default : FifoSynchronizer
default = record { declared_responses = 0; next_to_grant = 0 }

unfoldable pub declare_response : FifoSynchronizer → ℕ × FifoSynchronizer
declare_response s =
    (s.declared_responses, record s { declared_responses = add_u32 s.declared_responses 1 })

unfoldable pub is_permitted : FifoSynchronizer → ℕ → Bool
is_permitted s id = id == s.next_to_grant

unfoldable pub permission_for_response : FifoSynchronizer → ℕ → Bool × FifoSynchronizer
permission_for_response s id =
    if id == s.next_to_grant
    then (true, record s { next_to_grant = add_u32 s.next_to_grant 1 })
    else (false, s)
