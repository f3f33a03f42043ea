-- ===== src/Db/Chain/Refinement/Tables.antt =====
-- What the updates of `BlockChainDatabase` make of a table, and what it is for a method to do what the
-- ledger's does.
use mathlib.Core.Option
use rust_randchain_prototype.Prelude.{
  ◌≡◌, refl, sym, ap, ◌∙◌, inl, inr, Bool, true, false, Option, none, some, List, ◌∷◌, ◌==◌,
  if◌then◌else◌, arith, length, contains, H256, Result, success, failure, ok,
}
use rust_randchain_prototype.Blocks.{BestBlock, IndexedBlock}
use rust_randchain_prototype.Serialization.Impls.{LittleEndian}
use rust_randchain_prototype.Serialization.Headers.{Block}
use rust_randchain_prototype.Db.Kv.Transaction
use rust_randchain_prototype.Db.Kv.Transaction.{Bytes, Key, KeyValue, Value, KeyValueDatabase}
use rust_randchain_prototype.Db.Kv.Reliable.{IsReliable, after}
use rust_randchain_prototype.Db.Chain.{
  BlockChainDatabase, Error, database_error, key_best_block_number, key_best_block_hash,
}
use rust_randchain_prototype.Db.Chain.Writes.{
  Outcome, commit, block_update, canonize_update, decanonize_update,
}
use rust_randchain_prototype.Db.Chain.Ledger.{
  Ledger, best_of, at, position, stored, with_block, position_absent, at_above,
}
use rust_randchain_prototype.Db.Chain.Refinement.{Represents, Holds}

-- A method over the store does what the ledger's method says: it ends without a panic, answers the
-- same, and leaves the ledger represented that the ledger's method leaves.
abbrev pub Refines :
    {Pk Int : Type 0}
    → LittleEndian
    → {kv : KeyValueDatabase (Block Pk Int)} → (kv.State → Type 0)
    → (kv.State → Key → Option (Value (Block Pk Int)))
    → {A : Type 0} → Outcome kv A
    → Result A Error × Ledger (Block Pk Int)
    → Type 0
Refines order {kv = kv} Valid table run spec =
    (c' : BlockChainDatabase kv) × (run ≡ ok (spec.0, c')) × Represents order Valid table c' spec.1

-- What the updates make of a table.
map_if :
    {A C : Type 0} (f : A → C) (test : Bool) (a : A) (o : Option A)
    → Option.map f (if test then some a else o) ≡ (if test then some (f a) else Option.map f o)
map_if f true a o = refl
map_if f false a o = refl

remove_if :
    {A C : Type 0} (f : A → C) (test : Bool) (a : A) (o : Option A)
    → (test ≡ true → o ≡ none)
    → (if test then none else Option.map f (if test then some a else o)) ≡ Option.map f o
remove_if f true a o gone = sym (ap (Option.map f) (gone refl))
remove_if f false a o gone = refl

pub Holds-same :
    {Pk Int : Type 0} {order : LittleEndian} {table table' : Key → Option (Value (Block Pk Int))}
    {l : Ledger (Block Pk Int)}
    → ((k : Key) → table' k ≡ table k)
    → Holds order table l
    → Holds order table' l
Holds-same same holds = record {
  hash_at = λ n. same (Key.block_hash n) ∙ holds.hash_at n;
  number_at = λ h. same (Key.block_number h) ∙ holds.number_at h;
  block_at = λ h. same (Key.block h) ∙ holds.block_at h;
  meta = elim holds.meta [
    | inl (number, hash) ↦
        inl (
          same (Key.meta key_best_block_number) ∙ number,
          same (Key.meta key_best_block_hash) ∙ hash,
        )
    | inr (number, hash, none_yet) ↦ inr (
      same (Key.meta key_best_block_number) ∙ number,
      same (Key.meta key_best_block_hash) ∙ hash,
      none_yet,
    )
  ];
}

module _ {Pk Int : Type 0} {order : LittleEndian} (table : Key → Option (Value (Block Pk Int)))
    (l : Ledger (Block Pk Int)) (holds : Holds order table l) where
  pub Holds-block :
      (b : IndexedBlock Pk Int)
      → Holds order (λ k. after (block_update b).operations k (table k)) (with_block l b)
  Holds-block b = record {
    hash_at = holds.hash_at;
    number_at = holds.number_at;
    block_at = λ h.
        rw (holds.block_at h)
          (sym (map_if Value.block (b.header.hash == h) (stored b) (l.blocks h)));
    meta = holds.meta;
  }

  pub Holds-canonize :
      (h : H256)
      → Holds order
          (λ k. after (canonize_update order (best_of (h ∷ l.chain))).operations k (table k))
          (record l { chain = h ∷ l.chain })
  Holds-canonize h = record {
    hash_at = λ n.
        rw (holds.hash_at n) (sym (map_if Value.block_hash (length l.chain == n) h (at l.chain n)));
    number_at = λ k.
        rw (holds.number_at k)
          (sym (map_if Value.block_number (h == k) (length l.chain) (position l.chain k)));
    block_at = holds.block_at;
    meta = inl (refl, refl);
  }

  pub Holds-decanonize :
      (h : H256) (below : List H256)
      → l.chain ≡ h ∷ below
      → contains below h ≡ false
      → Holds order
          (λ k.
            after (decanonize_update order (length below) h (best_of below)).operations k (table k))
          (record l { chain = below })
  Holds-decanonize h below e out = record {
    hash_at = λ n.
        rw (holds.hash_at n, e)
          (remove_if Value.block_hash (length below == n) h (at below n)
            (λ same. at_above below n (ground arith)));
    number_at = λ k.
        rw (holds.number_at k, e)
          (remove_if Value.block_number (h == k) (length below) (position below k)
            (λ same. position_absent below k (ground (arith, ap (contains below)))));
    block_at = holds.block_at;
    meta = inl (refl, refl);
  }

module _ {Pk Int : Type 0} {kv : KeyValueDatabase (Block Pk Int)} {Valid : kv.State → Type 0}
    {table : kv.State → Key → Option (Value (Block Pk Int))}
    (reliable : IsReliable kv Valid table) where
  -- A commit succeeds, takes the best block, and makes of the table what the update says.
  pub commit_lem :
      {A : Type 0} (c : BlockChainDatabase kv) (update : Transaction.Transaction (Block Pk Int))
      (best : BestBlock) (a : A)
      → Valid c.db
      → (db : kv.State) × (commit c update best a
          ≡ ok (success a, record { best_block = best; db = db }))
        × Valid db
        × ((k : Key) → table db k ≡ after update.operations k (table c.db k))
  unfolding commit
  commit_lem {A = A} c update best a valid =
      let (db, written, db_valid, is_after) = reliable.write_table c.db update valid in
      (
        db,
        ap
            (λ (p : Result Unit Bytes × kv.State). elim p.0 as (λ r. Outcome kv A) [
              | failure e ↦ ok (failure (database_error e), record c { db = p.1 })
              | success _ ↦ ok (success a, record { best_block = best; db = p.1 })
            ])
            written,
        db_valid,
        is_after,
      )

  module _ {order : LittleEndian} (c : BlockChainDatabase kv) (l : Ledger (Block Pk Int))
      (represents : Represents order Valid table c l) where
    -- The database with the best block written as the ledger's.
    unfoldable pub shown : BlockChainDatabase kv
    shown = record { best_block = best_of l.chain; db = c.db }

    pub shown-Represents : Represents order Valid table shown l
    unfolding shown
    shown-Represents = (represents.0, refl, represents.2)

    pub shown_c : shown ≡ c
    unfolding shown
    shown_c = ap (λ best. record { best_block = best; db = c.db }) (sym represents.1)
