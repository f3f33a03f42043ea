-- ===== src/Db/Chain/Refinement.antt =====
-- When a `BlockChainDatabase` over a reliable store represents a ledger, and what its methods read
-- then.
pub mod Tables
pub mod Insert
pub mod Canonize
pub mod Decanonize
pub mod Open
pub mod RouteLoop
pub mod Origin
pub mod Forks
pub mod Switch
use mathlib.Core.Option
use rust_randchain_prototype.Prelude.{
  ℕ, ◌≡◌, refl, sym, ap, ◌∙◌, ◌⊎◌, Bool, Option, none, some, is_some, List, [], H256, success, Run,
  ok,
}
use rust_randchain_prototype.Blocks.{BlockRef, by_hash, by_number}
use rust_randchain_prototype.Serialization.Impls.{LittleEndian, serialize_u32, serialize_h256}
use rust_randchain_prototype.Serialization.Headers.{Block}
use rust_randchain_prototype.Db.Kv.Transaction.{
  Key, Value, KeyValueDatabase, as_block, as_block_hash, as_block_number, into_option,
}
use rust_randchain_prototype.Db.Kv.Reliable.{IsReliable}
use rust_randchain_prototype.Db.Chain.{
  BlockChainDatabase, and_then, get, value_or_panic, block_number, block_hash, resolve_hash, block,
  block_at, block_under, header_under, block_header, contains_block, key_best_block_number,
  key_best_block_hash, no_block,
}
use rust_randchain_prototype.Db.Chain.Ledger.{Ledger, best_of, at, position}

module _ {Pk Int : Type 0} (order : LittleEndian) where
  -- The two entries under `Key::Meta` hold the best block, or are not there yet.
  abbrev pub MetaHolds : (Key → Option (Value (Block Pk Int))) → List H256 → Type 0
  MetaHolds table chain =
      ((table (Key.meta key_best_block_number)
          ≡ some (Value.meta (serialize_u32 order (best_of chain).number)))
        × (table (Key.meta key_best_block_hash)
            ≡ some (Value.meta (serialize_h256 (best_of chain).hash))))
      ⊎ ((table (Key.meta key_best_block_number) ≡ none)
          × (table (Key.meta key_best_block_hash) ≡ none)
          × (chain ≡ []))

  -- A table says what the ledger is.
  pub record Holds (table : Key → Option (Value (Block Pk Int))) (l : Ledger (Block Pk Int))
      : Type 0 where
    pub hash_at : (n : ℕ) → table (Key.block_hash n) ≡ Option.map Value.block_hash (at l.chain n)
    pub number_at :
        (h : H256) → table (Key.block_number h) ≡ Option.map Value.block_number (position l.chain h)
    pub block_at : (h : H256) → table (Key.block h) ≡ Option.map Value.block (l.blocks h)
    pub meta : MetaHolds table l.chain

  -- The store is valid and holds the ledger, and the best block is the ledger's.
  abbrev pub Represents :
      {kv : KeyValueDatabase (Block Pk Int)}
      → (kv.State → Type 0)
      → (kv.State → Key → Option (Value (Block Pk Int)))
      → BlockChainDatabase kv
      → Ledger (Block Pk Int)
      → Type 0
  Represents Valid table c l = Valid c.db × (c.best_block ≡ best_of l.chain) × Holds (table c.db) l

as_block-map : {B : Type 0} (o : Option B) → and_then (Option.map Value.block o) as_block ≡ o
as_block-map none = refl
as_block-map (some b) = refl

as_block_hash-map :
    {B : Type 0} (f : H256 → Value B) (o : Option H256)
    → ((h : H256) → as_block_hash (f h) ≡ some h)
    → and_then (Option.map f o) as_block_hash ≡ o
as_block_hash-map f none back = refl
as_block_hash-map f (some b) back = back b

as_block_number-map :
    {B : Type 0} (f : ℕ → Value B) (o : Option ℕ)
    → ((h : ℕ) → as_block_number (f h) ≡ some h)
    → and_then (Option.map f o) as_block_number ≡ o
as_block_number-map f none back = refl
as_block_number-map f (some b) back = back b

is_some-map : {A C : Type 0} (f : A → C) (o : Option A) → is_some (Option.map f o) ≡ is_some o
is_some-map f none = refl
is_some-map f (some a) = refl

module _ {Pk Int : Type 0} {kv : KeyValueDatabase (Block Pk Int)} {Valid : kv.State → Type 0}
    {table : kv.State → Key → Option (Value (Block Pk Int))}
    (reliable : IsReliable kv Valid table) where
  get-table : (c : BlockChainDatabase kv) (k : Key) → Valid c.db → get c k ≡ ok (table c.db k)
  unfolding get
  get-table c k valid =
      let (state, is_state, is_table) = reliable.get_table c.db k valid in
      ap value_or_panic is_state ∙ ap ok is_table

  module _ {order : LittleEndian} (c : BlockChainDatabase kv) (l : Ledger (Block Pk Int))
      (represents : Represents order Valid table c l) where
    pub block_number-position : (h : H256) → block_number c h ≡ ok (position l.chain h)
    unfolding block_number
    block_number-position h = rw (get-table c (Key.block_number h) represents.0) (
        ap ok (
          ap (λ v. and_then v as_block_number) (represents.2.number_at h)
          ∙ as_block_number-map Value.block_number (position l.chain h) (λ n. refl)))

    pub block_hash-at : (n : ℕ) → block_hash c n ≡ ok (at l.chain n)
    unfolding block_hash
    block_hash-at n = rw (get-table c (Key.block_hash n) represents.0) (
        ap ok (
          ap (λ v. and_then v as_block_hash) (represents.2.hash_at n)
          ∙ as_block_hash-map Value.block_hash (at l.chain n) (λ h. refl)))

    pub block_at_lem : (h : H256) → block_at c h ≡ ok (l.blocks h)
    unfolding block_at
    block_at_lem h = rw (get-table c (Key.block h) represents.0) (
        ap ok (ap (λ v. and_then v as_block) (represents.2.block_at h) ∙ as_block-map (l.blocks h)))

    pub block_lem : (h : H256) → block c (by_hash h) ≡ ok (block_under h (l.blocks h))
    unfolding block resolve_hash
    block_lem h = rw (block_at_lem h) refl

    pub block_header_lem :
        (h : H256) → block_header c (by_hash h) ≡ ok (header_under h (l.blocks h))
    unfolding block_header resolve_hash
    block_header_lem h = rw (block_at_lem h) refl

    pub contains_block_lem : (h : H256) → contains_block c (by_hash h) ≡ ok (is_some (l.blocks h))
    unfolding contains_block resolve_hash
    contains_block_lem h =
        rw (get-table c (Key.block h) represents.0)
          (ap ok (ap is_some (represents.2.block_at h) ∙ is_some-map Value.block (l.blocks h)))
