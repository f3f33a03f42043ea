-- ===== src/Db/Chain/Refinement/Open.antt =====
-- Opening a database again gives the chain that it holds.
use rust_randchain_prototype.Prelude.{
  ℕ, ◌<◌, ◌^◌, ◌≡◌, refl, ap, ◌∙◌, inl, inr, Option, some, List, [], ◌∷◌, length, H256, success,
  Run, ok, panic, ◌>>=◌, ok-injective, arith, ◌≤◌, bytes_bound,
}
use rust_randchain_prototype.Blocks.{BestBlock}
use rust_randchain_prototype.Serialization.Impls.{
  LittleEndian, LittleEndianLaws, serialize_u32, deserialize_u32, serialize_h256, deserialize_h256,
}
use rust_randchain_prototype.Serialization.Headers.{Block}
use rust_randchain_prototype.Serialization.RoundTrip.{u32-Reads, h256-Reads}
use rust_randchain_prototype.Serialization.BlockTrip.{deserialize-Reads}
use rust_randchain_prototype.Db.Kv.Transaction.{Text, Key, Value, KeyValueDatabase, as_meta}
use rust_randchain_prototype.Db.Kv.Reliable.{IsReliable}
use rust_randchain_prototype.Db.Chain.{
  BlockChainDatabase, and_then, meta_of, best_block_of, read_best_block, open_db, unwrap_or_default,
  key_best_block_number, key_best_block_hash,
}
use rust_randchain_prototype.Db.Chain.Ledger.{Ledger, best_of}
use rust_randchain_prototype.Db.Chain.Refinement.{Holds, MetaHolds, Represents}

best_number_lt : (chain : List H256) → length chain ≤ 2 ^ 32 → (best_of chain).number < 2 ^ 32
best_number_lt [] short = omega arith
best_number_lt (h ∷ below) short = omega arith

module _ {Pk Int : Type 0} {order : LittleEndian} (laws : LittleEndianLaws order)
    {kv : KeyValueDatabase (Block Pk Int)} {Valid : kv.State → Type 0}
    {table : kv.State → Key → Option (Value (Block Pk Int))}
    (reliable : IsReliable kv Valid table) where
  meta_of-table :
      (db : kv.State) (k : Text)
      → Valid db
      → meta_of (kv.get db (Key.meta k)) ≡ success (and_then (table db (Key.meta k)) as_meta)
  meta_of-table db k valid =
      let (state, is_state, is_table) = reliable.get_table db (Key.meta k) valid in
      ap meta_of is_state ∙ ap (λ o. success (and_then o as_meta)) is_table

  -- The bytes of the best block are read back.
  best_block_of_bytes :
      (n : ℕ) (h : H256)
      → n < 2 ^ 32
      → h < bytes_bound 32
      → best_block_of order
          (success (some (serialize_u32 order n)))
          (success (some (serialize_h256 h)))
        ≡ ok (some (record { number = n; hash = h }))
  unfolding best_block_of
  best_block_of_bytes n h n_fits h_fits =
      rw
        (
          deserialize-Reads (deserialize_u32 order) (serialize_u32 order n) n
              (u32-Reads order laws n n_fits),
          deserialize-Reads deserialize_h256 (serialize_h256 h) h (h256-Reads h h_fits),
        )
        refl

  stored_best_block :
      (db : kv.State) (chain : List H256)
      → MetaHolds order (table db) chain
      → length chain ≤ 2 ^ 32
      → (best_of chain).hash < bytes_bound 32
      → (best_block_of order
            (success (and_then (table db (Key.meta key_best_block_number)) as_meta))
            (success (and_then (table db (Key.meta key_best_block_hash)) as_meta))
          >>= λ best. ok (unwrap_or_default best))
        ≡ ok (best_of chain)
  unfolding best_block_of
  stored_best_block db chain (inl (number, hash)) short fits =
      rw
        (
          number,
          hash,
          best_block_of_bytes (best_of chain).number (best_of chain).hash
              (best_number_lt chain short) fits,
        )
        refl
  stored_best_block db chain (inr (number, hash, none_yet)) short fits =
      rw (number, hash, none_yet) refl

  -- A database that is opened over a store that holds a ledger represents this ledger, whatever database
  -- had written it. The length of its chain and its best hash fit their widths.
  pub open_db-Represents :
      (db : kv.State) (l : Ledger (Block Pk Int))
      → Valid db
      → Holds order (table db) l
      → length l.chain ≤ 2 ^ 32
      → (best_of l.chain).hash < bytes_bound 32
      → (c : BlockChainDatabase kv) × (open_db order kv db ≡ ok c)
        × Represents order Valid table c l
  unfolding open_db read_best_block
  open_db-Represents db l valid holds short fits = (
    record { best_block = best_of l.chain; db = db },
    rw (meta_of-table db key_best_block_number valid, meta_of-table db key_best_block_hash valid)
        (with_db
          (best_block_of order
            (success (and_then (table db (Key.meta key_best_block_number)) as_meta))
            (success (and_then (table db (Key.meta key_best_block_hash)) as_meta)))
          (stored_best_block db l.chain holds.meta short fits)),
    (valid, refl, holds),
  )
    where
      with_db :
          (run : Run (Option BestBlock))
          → (run >>= λ best. ok (unwrap_or_default best)) ≡ ok (best_of l.chain)
          → ◌>>=◌ {B = BlockChainDatabase kv} run
              (λ best. ok (record { best_block = unwrap_or_default best; db = db }))
            ≡ ok (record { best_block = best_of l.chain; db = db })
      with_db (ok best) e = ap (λ b. ok (record { best_block = b; db = db })) (ok-injective e)
      with_db panic e = cc
