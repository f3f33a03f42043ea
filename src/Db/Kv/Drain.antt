-- ===== src/Db/Kv/Drain.antt =====
-- The transaction that `drain_transaction` makes says what the database in memory held.
use rust_randchain_prototype.Prelude.{
  ℕ, ◌≡◌, refl, ap, ◌∙◌, false, Option, List, [], ◌∷◌, ◌++◌, arith, ◌==◌, if◌then◌else◌, Bool-cases,
  inl, inr, Distinct, contains,
}
use rust_randchain_prototype.Prelude.HashMap
use rust_randchain_prototype.Prelude.HashMap.{keys, contains-keys}
use rust_randchain_prototype.Db.Kv.Transaction.{
  Key, KeyValue, Value, Operation, KeyState, map, same_key, key_of, value_of,
}
use rust_randchain_prototype.Db.Kv.Memory.{
  InnerDatabase, unwrap_or_default, state_of, drain_map, drain_transaction,
}
use rust_randchain_prototype.Db.Kv.Reliable.{after_one, after, KeysDistinct}
use rust_randchain_prototype.Db.Kv.MemoryTable.{over}

module _ {B : Type 0} where
  after-append :
      (xs ys : List (Operation B)) (k : Key) (old : Option (Value B))
      → after (xs ++ ys) k old ≡ after ys k (after xs k old)
  after-append [] ys k old = refl
  after-append (op ∷ xs) ys k old = after-append xs ys k (after_one op k old)

  -- How a column makes its operations, and reads its values.
  record Column {V : Type 0} (insertion : ℕ → V → KeyValue B) (deletion : ℕ → Key)
      (read : V → Value B) : Type 0 where
    pub key_of_insertion : (j : ℕ) (v : V) → key_of (insertion j v) ≡ deletion j
    pub value_of_insertion : (j : ℕ) (v : V) → value_of (insertion j v) ≡ read v

  module _ {V : Type 0} {insertion : ℕ → V → KeyValue B} {deletion : ℕ → Key} {read : V → Value B}
      (c : Column insertion deletion read) where
    -- One entry of the map.
    after-entry :
        (rest : List (ℕ × KeyState V)) (j : ℕ) (state : KeyState V) (k : Key)
        (old : Option (Value B))
        → after (drain_map insertion deletion ((j, state) ∷ rest)) k old
          ≡ after
              (drain_map insertion deletion rest)
              k
              (if same_key (deletion j) k then over (map read state) old else old)
    unfolding drain_map
    after-entry rest j (KeyState.insert v) k old =
        rw (c.key_of_insertion j v, c.value_of_insertion j v) refl
    after-entry rest j KeyState.delete k old = refl
    after-entry rest j KeyState.unknown k old = ground arith

    -- The operations of another column change nothing.
    after-other :
        (m : List (ℕ × KeyState V)) (k : Key) (old : Option (Value B))
        → ((j : ℕ) → same_key (deletion j) k ≡ false)
        → after (drain_map insertion deletion m) k old ≡ old
    unfolding drain_map
    after-other [] k old apart = refl
    after-other ((j, state) ∷ m) k old apart =
        after-entry m j state k old
        ∙ ap
            (λ b.
              after (drain_map insertion deletion m) k
                (if b then over (map read state) old else old))
            (apart j)
        ∙ after-other m k old apart

    after-absent :
        (m : List (ℕ × KeyState V)) (i : ℕ) (k : Key) (old : Option (Value B))
        → ((j : ℕ) → same_key (deletion j) k ≡ (j == i))
        → contains (keys m) i ≡ false
        → after (drain_map insertion deletion m) k old ≡ old
    unfolding drain_map
    after-absent [] i k old same absent = refl
    after-absent ((j, state) ∷ m) i k old same absent =
        after-entry m j state k old
        ∙ ap
            (λ b.
              after (drain_map insertion deletion m) k
                (if b then over (map read state) old else old))
            (same j ∙ differs)
        ∙ after-absent m i k old same (ground arith)
      where
        differs : (j == i) ≡ false
        differs = ground arith

    -- Those of the key's own column say what the map holds.
    after-own :
        (m : List (ℕ × KeyState V)) (i : ℕ) (k : Key) (old : Option (Value B))
        → ((j : ℕ) → same_key (deletion j) k ≡ (j == i))
        → Distinct (keys m)
        → after (drain_map insertion deletion m) k old
          ≡ over (map read (unwrap_or_default (HashMap.get m i))) old
    unfolding drain_map HashMap.get
    after-own [] i k old same d = refl
    after-own ((j, state) ∷ m) i k old same d =
        after-entry m j state k old
        ∙ ap
            (λ b.
              after (drain_map insertion deletion m) k
                (if b then over (map read state) old else old))
            (same j)
        ∙ elim (Bool-cases (j == i)) [
          | inl e ↦ rw e (after-absent m i k (over (map read state) old) same (ground arith))
          | inr e ↦ rw e (after-own m i k old same d.1)
        ]

  meta-Column : Column KeyValue.meta Key.meta Value.meta
  meta-Column = record { key_of_insertion = λ j v. refl; value_of_insertion = λ j v. refl }

  block_hash-Column : Column KeyValue.block_hash Key.block_hash Value.block_hash
  block_hash-Column = record { key_of_insertion = λ j v. refl; value_of_insertion = λ j v. refl }

  block-Column : Column KeyValue.block Key.block Value.block
  block-Column = record { key_of_insertion = λ j v. refl; value_of_insertion = λ j v. refl }

  block_number-Column : Column KeyValue.block_number Key.block_number Value.block_number
  block_number-Column = record { key_of_insertion = λ j v. refl; value_of_insertion = λ j v. refl }

  configuration-Column : Column KeyValue.configuration Key.configuration Value.configuration
  configuration-Column = record { key_of_insertion = λ j v. refl; value_of_insertion = λ j v. refl }

  -- The operations of the five maps, one map after another.
  after-columns :
      (a b c d e : List (Operation B)) (k : Key) (old : Option (Value B))
      → after (a ++ (b ++ (c ++ (d ++ e)))) k old
        ≡ after e k (after d k (after c k (after b k (after a k old))))
  after-columns a b c d e k old =
      after-append a (b ++ (c ++ (d ++ e))) k old
      ∙ after-append b (c ++ (d ++ e)) k (after a k old)
      ∙ after-append c (d ++ e) k (after b k (after a k old))
      ∙ after-append d e k (after c k (after b k (after a k old)))

  -- The drained transaction does to a table what the database in memory did before it.
  pub after-drain_transaction :
      (m : InnerDatabase B) (k : Key) (old : Option (Value B))
      → KeysDistinct m
      → after (drain_transaction m).0.operations k old ≡ over (state_of m k) old
  unfolding drain_transaction state_of
  after-drain_transaction m k old d =
      after-columns (drain_map KeyValue.meta Key.meta m.meta)
        (drain_map KeyValue.block_hash Key.block_hash m.block_hash)
        (drain_map KeyValue.block Key.block m.block)
        (drain_map KeyValue.block_number Key.block_number m.block_number)
        (drain_map KeyValue.configuration Key.configuration m.configuration) k old
      ∙ per_column k
    where
      columns : Key → Option (Value B)
      columns k = after (drain_map KeyValue.configuration Key.configuration m.configuration) k (
          after (drain_map KeyValue.block_number Key.block_number m.block_number) k (
            after (drain_map KeyValue.block Key.block m.block) k (
              after (drain_map KeyValue.block_hash Key.block_hash m.block_hash) k
                (after (drain_map KeyValue.meta Key.meta m.meta) k old))))

      per_column : (k : Key) → columns k ≡ over (state_of m k) old
      per_column (Key.meta i) =
          after-other configuration-Column m.configuration (Key.meta i) _ (λ j. refl)
          ∙ after-other block_number-Column m.block_number (Key.meta i) _ (λ j. refl)
          ∙ after-other block-Column m.block (Key.meta i) _ (λ j. refl)
          ∙ after-other block_hash-Column m.block_hash (Key.meta i) _ (λ j. refl)
          ∙ after-own meta-Column m.meta i (Key.meta i) old (λ j. refl) d.meta
      per_column (Key.block_hash i) =
          after-other configuration-Column m.configuration (Key.block_hash i) _ (λ j. refl)
          ∙ after-other block_number-Column m.block_number (Key.block_hash i) _ (λ j. refl)
          ∙ after-other block-Column m.block (Key.block_hash i) _ (λ j. refl)
          ∙ after-own block_hash-Column m.block_hash i (Key.block_hash i) _ (λ j. refl) d.block_hash
          ∙ ap (over (state_of m (Key.block_hash i)))
              (after-other meta-Column m.meta (Key.block_hash i) old (λ j. refl))
      per_column (Key.block i) =
          after-other configuration-Column m.configuration (Key.block i) _ (λ j. refl)
          ∙ after-other block_number-Column m.block_number (Key.block i) _ (λ j. refl)
          ∙ after-own block-Column m.block i (Key.block i) _ (λ j. refl) d.block
          ∙ ap (over (state_of m (Key.block i))) (
              after-other block_hash-Column m.block_hash (Key.block i) _ (λ j. refl)
              ∙ after-other meta-Column m.meta (Key.block i) old (λ j. refl))
      per_column (Key.block_number i) =
          after-other configuration-Column m.configuration (Key.block_number i) _ (λ j. refl)
          ∙ after-own block_number-Column m.block_number i (Key.block_number i) _ (λ j. refl)
              d.block_number
          ∙ ap (over (state_of m (Key.block_number i))) (
              after-other block-Column m.block (Key.block_number i) _ (λ j. refl)
              ∙ after-other block_hash-Column m.block_hash (Key.block_number i) _ (λ j. refl)
              ∙ after-other meta-Column m.meta (Key.block_number i) old (λ j. refl))
      per_column (Key.configuration i) =
          after-own configuration-Column m.configuration i (Key.configuration i) _ (λ j. refl)
            d.configuration
          ∙ ap (over (state_of m (Key.configuration i))) (
              after-other block_number-Column m.block_number (Key.configuration i) _ (λ j. refl)
              ∙ after-other block-Column m.block (Key.configuration i) _ (λ j. refl)
              ∙ after-other block_hash-Column m.block_hash (Key.configuration i) _ (λ j. refl)
              ∙ after-other meta-Column m.meta (Key.configuration i) old (λ j. refl))
