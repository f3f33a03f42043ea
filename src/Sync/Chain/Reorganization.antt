-- ===== src/Sync/Chain/Reorganization.antt =====
-- `insert_best_block` over a database that represents a ledger: blocks that make a side chain the chain.
use rust_randchain_prototype.Prelude.{
  ℕ, ◌+◌, ◌<◌, ◌≤◌, ◌^◌, ◌≡◌, ◌≢◌, refl, ◌∙◌, true, false, Option, is_some, List, [], ◌∷◌, ◌++◌,
  ◌==◌, ltb, arith, length, length-append, reverse, H256, success, ok, bytes_bound,
}
use rust_randchain_prototype.Blocks.{IndexedBlock}
use rust_randchain_prototype.Serialization.Impls.{LittleEndian, LittleEndianLaws}
use rust_randchain_prototype.Serialization.Headers.{Block}
use rust_randchain_prototype.Db.Kv.Transaction.{Key, Value, KeyValueDatabase}
use rust_randchain_prototype.Db.Kv.Reliable.{IsReliable}
use rust_randchain_prototype.Db.Kv.Layers.{OverlayDatabase-IsReliable}
use rust_randchain_prototype.Db.Chain.{BlockChainDatabase}
use rust_randchain_prototype.Db.Chain.Writes
use rust_randchain_prototype.Db.Chain.Origin.{max_fork_route_preset}
use rust_randchain_prototype.Db.Chain.Forks.{ForkChainDatabase, fork, switch_to_fork}
use rust_randchain_prototype.Db.Chain.Ledger.{Ledger, IsLedger, best_of, with_block}
use rust_randchain_prototype.Db.Chain.Routes.{SideRoute, up_to, length-up_to}
use rust_randchain_prototype.Db.Chain.Refinement.{Represents}
use rust_randchain_prototype.Db.Chain.Refinement.RouteLoop.{route_origin}
use rust_randchain_prototype.Db.Chain.Refinement.Origin.{beside}
use rust_randchain_prototype.Db.Chain.Refinement.Switch.{fork-Represents, switch_to_fork-Represents}
use rust_randchain_prototype.Sync.Chain.{Chain}
use rust_randchain_prototype.Sync.Chain.Insertion.{
  remember_best, insert_best_block, insert_at_origin, insert_becoming_canon,
}
use rust_randchain_prototype.Sync.Chain.Extension.{
  insert_on_top, insert_best_block_start, route_tip,
}

module _ {Pk Int : Type 0} {order : LittleEndian} (laws : LittleEndianLaws order)
    {kv : KeyValueDatabase (Block Pk Int)} {Valid : kv.State → Type 0}
    {table : kv.State → Key → Option (Value (Block Pk Int))}
    (reliable : IsReliable kv Valid table) where
  -- The fork along a route takes a new block on top of it, and is switched to.
  reorganize :
      (c : BlockChainDatabase kv) (l : Ledger (Block Pk Int)) (b : IndexedBlock Pk Int) {n : ℕ}
      {route : List H256}
      → Represents order Valid table c l
      → IsLedger l
      → (b.header.hash == 0) ≡ false
      → is_some (l.blocks b.header.hash) ≡ false
      → SideRoute l b.header.raw.previous_header_hash n route
      → 0 < length (route ++ up_to l.chain n)
      → length l.chain ≤ 2 ^ 32
      → (best_of l.chain).hash < bytes_bound 32
      → length (route ++ up_to l.chain n) < 2 ^ 32
      → (tried mid top : ForkChainDatabase kv) × (end : BlockChainDatabase kv) × (fork order c
            (route_origin l.chain n route)
          ≡ ok (success tried))
        × (Writes.insert tried b ≡ ok (success tt, mid))
        × (Writes.canonize order mid b.header.hash ≡ ok (success tt, top))
        × (switch_to_fork c top ≡ ok (success tt, end))
        × Represents order Valid table end
            (record (with_block l b) { chain = b.header.hash ∷ route ++ up_to l.chain n })
  reorganize c l b {n = n} {route = route} represents valid nonzero new way some_block chain_short
        fits short =
      let (tried, forked, tried_represents, tried_valid) =
        fork-Represents laws reliable c l represents valid way chain_short fits (omega arith) in
      let (mid, top, inserted, canonized, top_represents, _) =
        insert_on_top (OverlayDatabase-IsReliable reliable) tried
          (record l { chain = route ++ up_to l.chain n }) b tried_represents tried_valid nonzero new
          (route_tip l way) some_block short in
      let (end, switched, end_represents) =
        switch_to_fork-Represents reliable c top
          (record (with_block l b) { chain = b.header.hash ∷ route ++ up_to l.chain n })
          top_represents in
      (tried, mid, top, end, forked, inserted, canonized, switched, end_represents)

  -- A new block whose parent stands beside the chain, on a route that the block makes longer than the
  -- chain: the storage is reorganized to the route on top of its ancestor, with the block as the best one.
  -- The hashes of the route, the oldest first, and of the block are answered.
  pub insert_best_block-reorganized :
      (c : Chain Pk Int (BlockChainDatabase kv)) (l : Ledger (Block Pk Int))
      (b : IndexedBlock Pk Int) {n : ℕ} {route : List H256}
      → Represents order Valid table c.storage l
      → IsLedger l
      → (b.header.hash == 0) ≡ false
      → is_some (l.blocks b.header.hash) ≡ false
      → (best_of l.chain).hash ≢ b.header.raw.previous_header_hash
      → is_some (l.blocks b.header.raw.previous_header_hash) ≡ true
      → SideRoute l b.header.raw.previous_header_hash n route
      → length route < max_fork_route_preset
      → ltb (best_of l.chain).number (n + length route + 1) ≡ true
      → 0 < length l.chain
      → length l.chain + max_fork_route_preset < 2 ^ 32
      → (best_of l.chain).hash < bytes_bound 32
      → (c' : Chain Pk Int (BlockChainDatabase kv)) × (insert_best_block order c b
          ≡ ok (
            success (record { canonized_blocks_hashes = reverse route ++ (b.header.hash ∷ []) }),
            c',
          ))
        × Represents order Valid table c'.storage
            (record (with_block l b) { chain = b.header.hash ∷ route ++ up_to l.chain n })
        × (c'.best_storage_block
            ≡ record { number = length (route ++ up_to l.chain n); hash = b.header.hash })
  unfolding insert_at_origin insert_becoming_canon
  insert_best_block-reorganized c l b {n = n} {route = route} represents valid nonzero new apart
        parent way near longer some_block short fits =
      let (positive, small) = length-up_to l.chain n some_block in
      let total : length (route ++ up_to l.chain n) ≡ length route + length (up_to l.chain n) =
        length-append route (up_to l.chain n) in
      let (tried, mid, top, end, forked, inserted, canonized, switched, end_represents) =
        reorganize c.storage l b represents valid nonzero new way (omega arith) (omega arith) fits
          (omega arith) in
      (
        remember_best c end b.header.hash,
        insert_best_block_start reliable c l b represents (beside new apart parent way near)
              some_block short
            ∙ rw (longer, forked, inserted, canonized, switched) refl,
        end_represents,
        end_represents.1,
      )
