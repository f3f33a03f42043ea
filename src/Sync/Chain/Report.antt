-- ===== src/Sync/Chain/Report.antt =====
-- `Information` of sync/src/synchronization_chain.rs, which the log and the RPC interface show.
use rust_randchain_prototype.Prelude.{ℕ, Run, ok, ◌>>=◌, add_u32}
use rust_randchain_prototype.Sync.QueueChain
use rust_randchain_prototype.Sync.BestHeaders
use rust_randchain_prototype.Sync.Chain.{Chain, scheduled_queue, requested_queue, verifying_queue}

pub record Information : Type 0 where
  pub scheduled : ℕ
  pub requested : ℕ
  pub verifying : ℕ
  pub stored : ℕ
  pub headers : BestHeaders.Information

unfoldable pub information : {Pk Int State : Type 0} → Chain Pk Int State → Run Information
information c = do
  scheduled ← QueueChain.len_of c.hash_chain scheduled_queue
  requested ← QueueChain.len_of c.hash_chain requested_queue
  verifying ← QueueChain.len_of c.hash_chain verifying_queue
  ok (record {
    scheduled = scheduled;
    requested = requested;
    verifying = verifying;
    stored = add_u32 c.best_storage_block.number 1;
    headers = BestHeaders.information c.headers_chain;
  })
