-- ===== src/Db/Chain/Refinement/Switch.antt =====
-- `fork` and `switch_to_fork` over a reliable store.
use rust_randchain_prototype.Prelude.{
  ℕ, ◌<◌, ◌≤◌, ◌^◌, ◌≡◌, refl, sym, ap, ◌∙◌, Option, List, [], ◌++◌, append-nil, reverse-reverse,
  reverse, length, H256, Result, success, failure, ok, bytes_bound,
}
use rust_randchain_prototype.Serialization.Impls.{LittleEndian, LittleEndianLaws}
use rust_randchain_prototype.Serialization.Headers.{Block}
use rust_randchain_prototype.Db.Kv.Transaction.{Bytes, Key, Value, KeyValueDatabase}
use rust_randchain_prototype.Db.Kv.Reliable.{IsReliable, empty-KeysDistinct}
use rust_randchain_prototype.Db.Kv.MemoryTable.{over}
use rust_randchain_prototype.Db.Kv.Layers.{
  IsValid, overlay_table, OverlayDatabase-IsReliable, flush-table, state_of-empty,
}
use rust_randchain_prototype.Db.Kv.Overlay
use rust_randchain_prototype.Db.Kv.Overlay.{OverlayDatabase}
use rust_randchain_prototype.Db.Chain.{BlockChainDatabase, open_db, database_error}
use rust_randchain_prototype.Db.Chain.Writes.{Outcome}
use rust_randchain_prototype.Db.Chain.Forks.{
  ForkChainDatabase, decanonize_route, canonize_route, fork_overlay, fork, switch_to_fork,
}
use rust_randchain_prototype.Db.Chain.Ledger.{Ledger, IsLedger, best_of}
use rust_randchain_prototype.Db.Chain.Routes.{SideRoute, above, up_to}
use rust_randchain_prototype.Db.Chain.Refinement.{Represents}
use rust_randchain_prototype.Db.Chain.Refinement.Tables.{Holds-same}
use rust_randchain_prototype.Db.Chain.Refinement.Open.{open_db-Represents}
use rust_randchain_prototype.Db.Chain.Refinement.RouteLoop.{route_origin}
use rust_randchain_prototype.Db.Chain.Refinement.Forks.{decanonize_route-above, canonize_route-way}

module _ {Pk Int : Type 0} {order : LittleEndian} {kv : KeyValueDatabase (Block Pk Int)}
    {Valid : kv.State → Type 0} {table : kv.State → Key → Option (Value (Block Pk Int))}
    (reliable : IsReliable kv Valid table) where
  -- The two loops, over any reliable store.
  loops :
      (l : Ledger (Block Pk Int)) {h : H256} {n : ℕ} {route : List H256}
      (way : SideRoute l h n route) (c : BlockChainDatabase kv)
      → Represents order Valid table c l
      → IsLedger l
      → length (route ++ up_to l.chain n) ≤ 2 ^ 32
      → (mid end : BlockChainDatabase kv) × (decanonize_route order c
            (reverse (reverse (above l.chain n)))
          ≡ ok (success tt, mid))
        × (canonize_route order mid (reverse route) ≡ ok (success tt, end))
        × Represents order Valid table end (record l { chain = route ++ up_to l.chain n })
        × IsLedger (record l { chain = route ++ up_to l.chain n })
  unfolding canonize_route
  loops l {n = n} {route = route} way c represents valid short =
      let (mid, down, mid_represents, mid_valid) =
        decanonize_route-above reliable l.chain l.blocks n c represents valid in
      let (end, up, end_represents, end_valid, _) =
        canonize_route-way reliable l way [] mid mid_represents mid_valid short in
      (
        mid,
        end,
        ap (decanonize_route order c) (reverse-reverse (above l.chain n)) ∙ down,
        ap (canonize_route order mid) (sym (append-nil (reverse route))) ∙ up,
        end_represents,
        end_valid,
      )

  -- A new overlay holds what the store below it holds.
  new-Represents :
      LittleEndianLaws order
      → (c : BlockChainDatabase kv) (l : Ledger (Block Pk Int)) → Represents order Valid table c l
      → length l.chain ≤ 2 ^ 32
      → (best_of l.chain).hash < bytes_bound 32
      → (overlay : ForkChainDatabase kv) × (open_db order (OverlayDatabase kv) (Overlay.new kv c.db)
          ≡ ok overlay)
        × Represents order (IsValid reliable) (overlay_table reliable) overlay l
  unfolding Overlay.new
  new-Represents laws c l represents short fits =
      open_db-Represents laws (OverlayDatabase-IsReliable reliable) (Overlay.new kv c.db) l
        (represents.0, empty-KeysDistinct)
        (Holds-same (λ k. ap (λ s. over s (table c.db k)) (state_of-empty k)) represents.2) short
        fits

  -- Switching to a fork succeeds, and the database then represents the fork's ledger.
  pub switch_to_fork-Represents :
      (c : BlockChainDatabase kv) (tried : ForkChainDatabase kv) (l : Ledger (Block Pk Int))
      → Represents order (IsValid reliable) (overlay_table reliable) tried l
      → (c' : BlockChainDatabase kv) × (switch_to_fork c tried ≡ ok (success tt, c'))
        × Represents order Valid table c' l
  unfolding switch_to_fork
  switch_to_fork-Represents c tried l represents =
      let (overlay, flushed, overlay_valid, to_base, _, _) =
        flush-table reliable tried.db represents.0 in
      (
        record { best_block = tried.best_block; db = overlay.db },
        ap
            (λ (p : Result Unit Bytes × Overlay.Overlay kv). elim p.0 as (λ r. Outcome kv Unit) [
              | failure e ↦ ok (
                failure (database_error e),
                record { best_block = tried.best_block; db = p.1.db },
              )
              | success _ ↦ ok (success tt, record { best_block = tried.best_block; db = p.1.db })
            ])
            flushed,
        (overlay_valid.0, represents.1, Holds-same to_base represents.2),
      )

module _ {Pk Int : Type 0} {order : LittleEndian} (laws : LittleEndianLaws order)
    {kv : KeyValueDatabase (Block Pk Int)} {Valid : kv.State → Type 0}
    {table : kv.State → Key → Option (Value (Block Pk Int))}
    (reliable : IsReliable kv Valid table) where
  -- For a route beside the chain of the ledger, `fork` of its origin succeeds, with no assertion failing:
  -- the fork represents the ledger whose chain is the route on top of the ancestor.
  pub fork-Represents :
      (c : BlockChainDatabase kv) (l : Ledger (Block Pk Int))
      → Represents order Valid table c l
      → IsLedger l
      → {h : H256} {n : ℕ} {route : List H256} → SideRoute l h n route
      → length l.chain ≤ 2 ^ 32
      → (best_of l.chain).hash < bytes_bound 32
      → length (route ++ up_to l.chain n) ≤ 2 ^ 32
      → (tried : ForkChainDatabase kv) × (fork order c (route_origin l.chain n route)
          ≡ ok (success tried))
        × Represents order
            (IsValid reliable)
            (overlay_table reliable)
            tried
            (record l { chain = route ++ up_to l.chain n })
        × IsLedger (record l { chain = route ++ up_to l.chain n })
  unfolding fork fork_overlay
  fork-Represents c l represents valid way chain_short fits short =
      let (overlay, opened, overlay_represents) =
        new-Represents reliable laws c l represents chain_short fits in
      let (mid, end, down, up, end_represents, end_valid) =
        loops (OverlayDatabase-IsReliable reliable) l way overlay overlay_represents valid short in
      (end, rw (opened, down, up) refl, end_represents, end_valid)
