-- ===== src/Sync/Chain/Extension.antt =====
-- `insert_best_block` over a database that represents a ledger: blocks that leave the chain or go on top
-- of it.
use rust_randchain_prototype.Prelude.{
  ℕ, ◌+◌, ◌<◌, ◌^◌, ◌≡◌, ◌≢◌, refl, sym, ap, subst, ◌∙◌, true, false, Option, some, is_some, List,
  [], ◌∷◌, ◌++◌, ◌==◌, ==_self, ltb, arith, length, H256, Result, success, ok,
}
use rust_randchain_prototype.Blocks.{BestBlock, IndexedBlock}
use rust_randchain_prototype.Storage.{BlockOrigin}
use rust_randchain_prototype.Serialization.Impls.{LittleEndian}
use rust_randchain_prototype.Serialization.Headers.{Block}
use rust_randchain_prototype.Db.Kv.Transaction.{Key, Value, KeyValueDatabase}
use rust_randchain_prototype.Db.Kv.Reliable.{IsReliable}
use rust_randchain_prototype.Db.Chain.{BlockChainDatabase, Error}
use rust_randchain_prototype.Db.Chain.Writes
use rust_randchain_prototype.Db.Chain.Origin.{max_fork_route_preset}
use rust_randchain_prototype.Db.Chain.Ledger
use rust_randchain_prototype.Db.Chain.Ledger.{
  Ledger, IsLedger, IsLinked, best_of, at, parent_of, stored, with_block,
}
use rust_randchain_prototype.Db.Chain.LedgerSteps.{insert-IsLedger}
use rust_randchain_prototype.Db.Chain.Routes.{SideRoute, joined, aside, up_to}
use rust_randchain_prototype.Db.Chain.Refinement.{Represents, block_hash-at}
use rust_randchain_prototype.Db.Chain.Refinement.Insert.{insert-Refines}
use rust_randchain_prototype.Db.Chain.Refinement.RouteLoop.{best_at, assert_is_lem}
use rust_randchain_prototype.Db.Chain.Refinement.Origin.{
  OriginOf, on_top, beside, block_origin-answer,
}
use rust_randchain_prototype.Db.Chain.Refinement.Forks.{canonize_next, up_to_tip}
use rust_randchain_prototype.Sync.BestHeaders
use rust_randchain_prototype.Sync.Chain.{Chain}
use rust_randchain_prototype.Sync.Chain.Insertion.{
  remember_best, tell_headers, insert_best_block, insert_at_origin, insert_canon, insert_side,
}

-- A new block whose parent is stored is put into the ledger.
insert_known :
    {Pk Int : Type 0} (l : Ledger (Block Pk Int)) (b : IndexedBlock Pk Int)
    → is_some (l.blocks b.header.hash) ≡ false
    → is_some (l.blocks b.header.raw.previous_header_hash) ≡ true
    → Ledger.insert l b ≡ (success tt, with_block l b)
unfolding Ledger.insert
insert_known l b new parent = rw (new, parent) refl

-- The best block of a ledger is stored.
best_stored :
    {Pk Int : Type 0} (blocks : H256 → Option (Block Pk Int)) (chain : List H256)
    → IsLinked blocks chain
    → 0 < length chain
    → is_some (blocks (best_of chain).hash) ≡ true
best_stored blocks [] linked some_block = ground arith
best_stored blocks (h ∷ below) linked some_block = let (b, is_b, _) = linked.0 in ap is_some is_b

-- A route that is put on top of its ancestor ends in the hash that it leads down from.
pub route_tip :
    {Pk Int : Type 0} (l : Ledger (Block Pk Int)) {h : H256} {n : ℕ} {route : List H256}
    → SideRoute l h n route
    → (best_of (route ++ up_to l.chain n)).hash ≡ h
route_tip l {h = h} {n = n} (joined found) = up_to_tip l.chain h n found
route_tip l (aside b off is_b way) = refl

module _ {Pk Int : Type 0} {order : LittleEndian} {kv : KeyValueDatabase (Block Pk Int)}
    {Valid : kv.State → Type 0} {table : kv.State → Key → Option (Value (Block Pk Int))}
    (reliable : IsReliable kv Valid table) where
  insert_next :
      (c : BlockChainDatabase kv) (l : Ledger (Block Pk Int)) (b : IndexedBlock Pk Int)
      → Represents order Valid table c l
      → IsLedger l
      → (b.header.hash == 0) ≡ false
      → is_some (l.blocks b.header.hash) ≡ false
      → is_some (l.blocks b.header.raw.previous_header_hash) ≡ true
      → (c' : BlockChainDatabase kv) × (Writes.insert c b ≡ ok (success tt, c'))
        × Represents order Valid table c' (with_block l b)
        × IsLedger (with_block l b)
  insert_next c l b represents valid nonzero new parent =
      let known = insert_known l b new parent in
      let (c', inserted, then_represents) = insert-Refines reliable c l represents b in
      (
        c',
        inserted ∙ ap (λ p. ok (p.0, c')) known,
        subst
            (λ (p : Result Unit Error × Ledger (Block Pk Int)). Represents order Valid table c' p.1)
            known then_represents,
        subst (λ (p : Result Unit Error × Ledger (Block Pk Int)). IsLedger p.1) known
            (insert-IsLedger l b valid nonzero),
      )

  -- A new block on top of the best one is inserted, and becomes the best one.
  pub insert_on_top :
      (c : BlockChainDatabase kv) (l : Ledger (Block Pk Int)) (b : IndexedBlock Pk Int)
      → Represents order Valid table c l
      → IsLedger l
      → (b.header.hash == 0) ≡ false
      → is_some (l.blocks b.header.hash) ≡ false
      → (best_of l.chain).hash ≡ b.header.raw.previous_header_hash
      → 0 < length l.chain
      → length l.chain < 2 ^ 32
      → (mid end : BlockChainDatabase kv) × (Writes.insert c b ≡ ok (success tt, mid))
        × (Writes.canonize order mid b.header.hash ≡ ok (success tt, end))
        × Represents order Valid table end
            (record (with_block l b) { chain = b.header.hash ∷ l.chain })
        × IsLedger (record (with_block l b) { chain = b.header.hash ∷ l.chain })
  insert_on_top c l b represents valid nonzero new is_tip some_block short =
      let parent : is_some (l.blocks b.header.raw.previous_header_hash) ≡ true =
        ap (λ h. is_some (l.blocks h)) (sym is_tip)
        ∙ best_stored l.blocks l.chain valid.linked some_block in
      let (mid, inserted, mid_represents, mid_valid) =
        insert_next c l b represents valid nonzero new parent in
      let there : (with_block l b).blocks b.header.hash ≡ some (stored b) =
        rw (==_self b.header.hash) refl in
      let (end, canonized, end_represents, end_valid) =
        canonize_next reliable mid (with_block l b) b.header.hash (stored b) mid_represents
          mid_valid short there is_tip in
      (mid, end, inserted, canonized, end_represents, end_valid)

  -- Past the assertion, with what `block_origin` answers.
  pub insert_best_block_start :
      (c : Chain Pk Int (BlockChainDatabase kv)) (l : Ledger (Block Pk Int))
      (b : IndexedBlock Pk Int) {answer : Result BlockOrigin Error}
      → Represents order Valid table c.storage l
      → OriginOf l b.header (ok answer)
      → 0 < length l.chain
      → length l.chain + max_fork_route_preset < 2 ^ 32
      → insert_best_block order c b ≡ insert_at_origin order c b answer
  unfolding insert_best_block
  insert_best_block_start c l b represents origin some_block short =
      rw
        (
          block_hash-at reliable c.storage l represents c.storage.best_block.number,
          block_origin-answer reliable c.storage l represents b.header origin some_block short,
        )
        (assert_is_lem c.storage.best_block.hash (at l.chain c.storage.best_block.number) _ (
          ap (λ (best : BestBlock). at l.chain best.number) represents.1
          ∙ best_at l.chain some_block
          ∙ ap (λ (best : BestBlock). some best.hash) (sym represents.1)))

  -- A new block on top of the best one of the storage: it is stored, it is the best block of the storage
  -- and of the chain, and it is the one hash that is answered.
  pub insert_best_block-canon :
      (c : Chain Pk Int (BlockChainDatabase kv)) (l : Ledger (Block Pk Int))
      (b : IndexedBlock Pk Int)
      → Represents order Valid table c.storage l
      → IsLedger l
      → (b.header.hash == 0) ≡ false
      → is_some (l.blocks b.header.hash) ≡ false
      → (best_of l.chain).hash ≡ b.header.raw.previous_header_hash
      → 0 < length l.chain
      → length l.chain + max_fork_route_preset < 2 ^ 32
      → (c' : Chain Pk Int (BlockChainDatabase kv)) × (insert_best_block order c b
          ≡ ok (success (record { canonized_blocks_hashes = b.header.hash ∷ [] }), c'))
        × Represents order Valid table c'.storage
            (record (with_block l b) { chain = b.header.hash ∷ l.chain })
        × (c'.best_storage_block ≡ record { number = length l.chain; hash = b.header.hash })
  unfolding insert_at_origin insert_canon
  insert_best_block-canon c l b represents valid nonzero new is_tip some_block short =
      let (mid, end, inserted, canonized, end_represents, _) =
        insert_on_top c.storage l b represents valid nonzero new is_tip some_block (omega arith) in
      let best_is : (end.best_block.hash == b.header.hash) ≡ true =
        ap (λ (best : BestBlock). best.hash == b.header.hash) end_represents.1
        ∙ ==_self b.header.hash in
      (
        remember_best c end b.header.hash,
        insert_best_block_start c l b represents (on_top new is_tip) some_block short
            ∙ rw (inserted, canonized, best_is) refl,
        end_represents,
        end_represents.1,
      )

-- A new block on a side chain that stays the shorter one: it is stored, and the chain of the storage and its
-- best block stay. No hash is canonized. Of the other fields only the headers change, which are told that
-- the block is in the storage.
pub insert_best_block-side :
    {Pk Int : Type 0} {order : LittleEndian} {kv : KeyValueDatabase (Block Pk Int)}
    {Valid : kv.State → Type 0} {table : kv.State → Key → Option (Value (Block Pk Int))}
    (reliable : IsReliable kv Valid table) (c : Chain Pk Int (BlockChainDatabase kv))
    (l : Ledger (Block Pk Int)) (b : IndexedBlock Pk Int) {n : ℕ} {route : List H256}
    → Represents order Valid table c.storage l
    → IsLedger l
    → (b.header.hash == 0) ≡ false
    → is_some (l.blocks b.header.hash) ≡ false
    → (best_of l.chain).hash ≢ b.header.raw.previous_header_hash
    → is_some (l.blocks b.header.raw.previous_header_hash) ≡ true
    → SideRoute l b.header.raw.previous_header_hash n route
    → length route < max_fork_route_preset
    → ltb (best_of l.chain).number (n + length route + 1) ≡ false
    → 0 < length l.chain
    → length l.chain + max_fork_route_preset < 2 ^ 32
    → (c' : Chain Pk Int (BlockChainDatabase kv)) × (insert_best_block order c b
        ≡ ok (success (record { canonized_blocks_hashes = [] }), c'))
      × Represents order Valid table c'.storage (with_block l b)
      × (c' ≡ record c {
        storage = c'.storage;
        headers_chain =
            BestHeaders.block_inserted_to_storage c.headers_chain b.header.hash
              c.best_storage_block.hash;
      })
unfolding insert_at_origin insert_side
insert_best_block-side reliable c l b represents valid nonzero new apart parent way near shorter
      some_block short =
    let (stored, inserted, stored_represents, _) =
      insert_next reliable c.storage l b represents valid nonzero new parent in
    (
      tell_headers (record c { storage = stored }) b.header.hash,
      insert_best_block_start reliable c l b represents (beside new apart parent way near)
            some_block short
          ∙ rw (shorter, inserted) refl,
      stored_represents,
      refl,
    )
