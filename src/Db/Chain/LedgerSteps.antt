-- ===== src/Db/Chain/LedgerSteps.antt =====
-- The methods keep a ledger a ledger.
use rust_randchain_prototype.Prelude.{
  ◌≡◌, refl, sym, ap, Bool, true, false, Bool-cases, inl, inr, Option, none, some, is_some, List,
  [], ◌∷◌, ◌==◌, if◌then◌else◌, arith, Distinct, H256, Result, success, failure,
}
use rust_randchain_prototype.Blocks.{IndexedBlock}
use rust_randchain_prototype.Serialization.Headers.{Block}
use rust_randchain_prototype.Db.Chain.{Error, unknown_parent}
use rust_randchain_prototype.Db.Chain.Ledger.{
  Ledger, IsLedger, IsLinked, best_of, parent_of, with_block, insert, canonize, canonize_found,
  decanonize, fresh,
}

module _ {Pk Int : Type 0} where
  IsLinked-more :
      (blocks more : H256 → Option (Block Pk Int)) (chain : List H256)
      → ((h : H256) (b : Block Pk Int) → blocks h ≡ some b → more h ≡ some b)
      → IsLinked blocks chain
      → IsLinked more chain
  IsLinked-more blocks more [] keeps linked = tt
  IsLinked-more blocks more (h ∷ below) keeps linked =
      let (b, is_b, is_parent) = linked.0 in
      ((b, keeps h b is_b, is_parent), IsLinked-more blocks more below keeps linked.1)

  -- A block that is put under an unknown hash hides none.
  with_block_keeps :
      (l : Ledger (Block Pk Int)) (b : IndexedBlock Pk Int) (h : H256) (found : Block Pk Int)
      → is_some (l.blocks b.header.hash) ≡ false
      → l.blocks h ≡ some found
      → (with_block l b).blocks h ≡ some found
  with_block_keeps l b h found unknown e = elim (Bool-cases (b.header.hash == h)) [
    | inl same ↦
        let at_h : b.header.hash ≡ h = ground arith in
        cc (sym unknown, ap (λ k. is_some (l.blocks k)) at_h, ap is_some e)
    | inr apart ↦ rw apart e
  ]

  -- `insert`, for a block whose hash is not zero.
  pub insert-IsLedger :
      (l : Ledger (Block Pk Int)) (b : IndexedBlock Pk Int)
      → IsLedger l
      → (b.header.hash == 0) ≡ false
      → IsLedger (insert l b).1
  unfolding insert
  insert-IsLedger l b valid nonzero = elim (Bool-cases (is_some (l.blocks b.header.hash))) [
    | inl known ↦ rw known valid
    | inr unknown ↦ rw unknown (go _ (added unknown))
  ]
    where
      go :
          (test : Bool)
          → IsLedger (with_block l b)
          → IsLedger
              (if◌then◌else◌ {A = Result Unit Error × Ledger (Block Pk Int)} test
                (failure unknown_parent, l)
                (success tt, with_block l b)).1
      go true v = valid
      go false v = v

      added : is_some (l.blocks b.header.hash) ≡ false → IsLedger (with_block l b)
      added unknown = record {
        linked =
            IsLinked-more l.blocks (with_block l b).blocks l.chain
              (λ h found e. with_block_keeps l b h found unknown e) valid.linked;
        distinct = valid.distinct;
        zero_free = rw nonzero valid.zero_free;
      }

  pub canonize-IsLedger :
      (l : Ledger (Block Pk Int)) (h : H256) → IsLedger l → IsLedger (canonize l h).1
  unfolding canonize
  canonize-IsLedger l h valid = go (l.blocks h) refl
    where
      go :
          (found : Option (Block Pk Int))
          → l.blocks h ≡ found
          → IsLedger (canonize_found l h found).1
      go none e = valid
      go (some b) e = elim (Bool-cases ((best_of l.chain).hash == parent_of b)) [
        | inr other ↦ rw other valid
        | inl is_tip ↦
            let parent : (best_of l.chain).hash ≡ parent_of b = ground arith in
            rw is_tip (record {
              linked = ((b, e, sym parent), valid.linked);
              distinct = (fresh l h b valid e parent, valid.distinct);
              zero_free = valid.zero_free;
            })
      ]

  pub decanonize-IsLedger : (l : Ledger (Block Pk Int)) → IsLedger l → IsLedger (decanonize l).1
  unfolding decanonize
  decanonize-IsLedger l valid = go l.chain valid.linked valid.distinct
    where
      go :
          (chain : List H256)
          → IsLinked l.blocks chain
          → Distinct chain
          → IsLedger (decanonize (record l { chain = chain })).1
      go [] linked d = record { linked = tt; distinct = tt; zero_free = valid.zero_free }
      go (h ∷ below) linked d = record {
        linked = linked.1;
        distinct = d.1;
        zero_free = valid.zero_free;
      }
