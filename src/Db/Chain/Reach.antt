-- ===== src/Db/Chain/Reach.antt =====
-- Runs of a `BlockChainDatabase`: `insert`, `canonize` and `decanonize` in any order, those that answer an
-- error included.
use rust_randchain_prototype.Prelude.{
  ℕ, zero, suc, ◌+◌, ◌<◌, ◌≤◌, ◌^◌, ◌≡◌, sym, ap, subst, ◌∙◌, is_some, not, ◌&&◌, Bool, true, false,
  Option, none, some, List, [], ◌∷◌, ◌==◌, if◌then◌else◌, arith, length, H256, Result, ok,
  ok-injective,
}
use rust_randchain_prototype.Blocks.{IndexedBlock}
use rust_randchain_prototype.Serialization.Impls.{LittleEndian}
use rust_randchain_prototype.Serialization.Headers.{Block}
use rust_randchain_prototype.Db.Kv.Transaction.{Key, Value, KeyValueDatabase}
use rust_randchain_prototype.Db.Kv.Reliable.{IsReliable}
use rust_randchain_prototype.Db.Chain.{BlockChainDatabase, Error}
use rust_randchain_prototype.Db.Chain.Writes
use rust_randchain_prototype.Db.Chain.Writes.{Outcome}
use rust_randchain_prototype.Db.Chain.Ledger
use rust_randchain_prototype.Db.Chain.Ledger.{Ledger, IsLedger, canonize_found, best_of, parent_of}
use rust_randchain_prototype.Db.Chain.LedgerSteps.{
  insert-IsLedger, canonize-IsLedger, decanonize-IsLedger,
}
use rust_randchain_prototype.Db.Chain.Refinement.{Represents}
use rust_randchain_prototype.Db.Chain.Refinement.Tables.{Refines}
use rust_randchain_prototype.Db.Chain.Refinement.Insert.{insert-Refines}
use rust_randchain_prototype.Db.Chain.Refinement.Canonize.{canonize-Refines}
use rust_randchain_prototype.Db.Chain.Refinement.Decanonize.{decanonize-Refines}

-- One method, with any answer. The hash of a block is not zero.
pub data Step {Pk Int : Type 0} (order : LittleEndian) {kv : KeyValueDatabase (Block Pk Int)}
    : BlockChainDatabase kv → BlockChainDatabase kv → Type 0 where
  inserts :
      {c c' : BlockChainDatabase kv} (b : IndexedBlock Pk Int) {answer : Result Unit Error}
      → (b.header.hash == 0) ≡ false
      → Writes.insert c b ≡ ok (answer, c')
      → Step order c c'
  canonizes :
      {c c' : BlockChainDatabase kv} (h : H256) {answer : Result Unit Error}
      → Writes.canonize order c h ≡ ok (answer, c')
      → Step order c c'
  decanonizes :
      {c c' : BlockChainDatabase kv} {answer : Result H256 Error}
      → Writes.decanonize order c ≡ ok (answer, c')
      → Step order c c'

-- A number of methods, one after another.
pub data Reach {Pk Int : Type 0} (order : LittleEndian) {kv : KeyValueDatabase (Block Pk Int)}
    (start : BlockChainDatabase kv) : ℕ → BlockChainDatabase kv → Type 0 where
  here : Reach order start zero start
  next :
      {n : ℕ} {c c' : BlockChainDatabase kv}
      → Reach order start n c
      → Step order c c'
      → Reach order start (suc n) c'

module _ {Pk Int : Type 0} where
  if_length :
      {A : Type 0} (test : Bool) (a b : Result A Error × Ledger (Block Pk Int)) (n : ℕ)
      → length a.1.chain ≤ n
      → length b.1.chain ≤ n
      → length (if test then a else b).1.chain ≤ n
  if_length true a b n small_a small_b = small_a
  if_length false a b n small_a small_b = small_b

  length-insert :
      (l : Ledger (Block Pk Int)) (b : IndexedBlock Pk Int)
      → length (Ledger.insert l b).1.chain ≤ length l.chain + 1
  unfolding Ledger.insert
  length-insert l b =
      if_length (is_some (l.blocks b.header.hash)) _ _ (length l.chain + 1) (omega arith) (
        if_length
          (not (is_some (l.blocks b.header.raw.previous_header_hash))
            && not (b.header.raw.previous_header_hash == 0))
          _ _ (length l.chain + 1) (omega arith) (omega arith))

  length-canonize :
      (l : Ledger (Block Pk Int)) (h : H256)
      → length (Ledger.canonize l h).1.chain ≤ length l.chain + 1
  unfolding Ledger.canonize
  length-canonize l h = go (l.blocks h)
    where
      go :
          (found : Option (Block Pk Int))
          → length (canonize_found l h found).1.chain ≤ length l.chain + 1
      go none = omega arith
      go (some b) =
          if_length ((best_of l.chain).hash == parent_of b) _ _ (length l.chain + 1) (omega arith)
            (omega arith)

  length-decanonize :
      (chain : List H256) (blocks : H256 → Option (Block Pk Int))
      → length (Ledger.decanonize (record { chain = chain; blocks = blocks })).1.chain
        ≤ length chain + 1
  unfolding Ledger.decanonize
  length-decanonize [] blocks = omega arith
  length-decanonize (h ∷ below) blocks = omega arith

module _ {Pk Int : Type 0} {order : LittleEndian} {kv : KeyValueDatabase (Block Pk Int)}
    {Valid : kv.State → Type 0} {table : kv.State → Key → Option (Value (Block Pk Int))}
    (reliable : IsReliable kv Valid table) where
  -- What a method is seen to leave is what the refinement says.
  refined :
      {A : Type 0} {run : Outcome kv A} {spec : Result A Error × Ledger (Block Pk Int)}
      {answer : Result A Error} {c' : BlockChainDatabase kv}
      → Refines order Valid table run spec
      → run ≡ ok (answer, c')
      → Represents order Valid table c' spec.1
  refined {spec = spec} (found, is_found, represents) e =
      subst (λ d. Represents order Valid table d spec.1)
        (ap (λ p. p.1) (ok-injective (sym is_found ∙ e))) represents

  Step-Represents :
      {c c' : BlockChainDatabase kv} (l : Ledger (Block Pk Int))
      → Step order c c'
      → Represents order Valid table c l
      → IsLedger l
      → length l.chain < 2 ^ 32
      → (l' : Ledger (Block Pk Int)) × Represents order Valid table c' l'
        × IsLedger l'
        × (length l'.chain ≤ length l.chain + 1)
  Step-Represents {c = c} l (inserts b nonzero e) represents valid short = (
    (Ledger.insert l b).1,
    refined (insert-Refines reliable c l represents b) e,
    insert-IsLedger l b valid nonzero,
    length-insert l b,
  )
  Step-Represents {c = c} l (canonizes h e) represents valid short = (
    (Ledger.canonize l h).1,
    refined (canonize-Refines reliable c l represents h valid short) e,
    canonize-IsLedger l h valid,
    length-canonize l h,
  )
  Step-Represents {c = c} l (decanonizes e) represents valid short = (
    (Ledger.decanonize l).1,
    refined (decanonize-Refines reliable c l represents valid) e,
    decanonize-IsLedger l valid,
    length-decanonize l.chain l.blocks,
  )

  -- What methods reach from a database that represents a ledger represents a ledger: its blocks are linked
  -- down to a block without a parent, no hash stands in the chain twice, and the stored numbers, hashes
  -- and best block are the chain's. Each method makes the chain longer by at most one block, and the
  -- numbers of the blocks fit into a `u32`.
  pub Reach-Represents :
      (start : BlockChainDatabase kv) (l : Ledger (Block Pk Int)) {n : ℕ}
      {c : BlockChainDatabase kv}
      → Represents order Valid table start l
      → IsLedger l
      → Reach order start n c
      → length l.chain + n ≤ 2 ^ 32
      → (l' : Ledger (Block Pk Int)) × Represents order Valid table c l'
        × IsLedger l'
        × (length l'.chain ≤ length l.chain + n)
  Reach-Represents start l represents valid here short = (l, represents, valid, omega arith)
  Reach-Represents start l represents valid (next before step) short =
      let (mid, mid_represents, mid_valid, mid_short) =
        Reach-Represents start l represents valid before (omega arith) in
      let (end, end_represents, end_valid, end_short) =
        Step-Represents mid step mid_represents mid_valid (omega arith) in
      (end, end_represents, end_valid, omega arith)
