-- ===== src/Db/Chain/Ledger.antt =====
-- What `BlockChainDatabase` promises: a set of blocks, and a chain of hashes, the best one first. The
-- methods of the ledger say what `insert`, `canonize` and `decanonize` answer and leave.
use rust_randchain_prototype.Prelude.{
  ℕ, ◌⊎◌, ◌≡◌, refl, sym, ap, ◌∙◌, ◌+◌, ◌<◌, not, ◌&&◌, true, false, Bool-cases, inl, inr, Option,
  none, some, is_some, List, [], ◌∷◌, ◌==◌, if◌then◌else◌, arith, length, contains, Distinct, H256,
  Result, success, failure,
}
use mathlib.Core.Option.{some-injective}
use rust_randchain_prototype.Blocks.{BestBlock, IndexedBlock}
use rust_randchain_prototype.Serialization.Headers.{Block}
use rust_randchain_prototype.Db.Chain.{
  Error, cannot_canonize, cannot_decanonize, unknown_parent, no_block,
}

pub record Ledger (B : Type 0) : Type 0 where
  pub chain : List H256
  pub blocks : H256 → Option B

-- The best block of a chain; the oldest block has the number 0.
abbrev pub best_of : List H256 → BestBlock
best_of [] = no_block
best_of (h ∷ below) = record { number = length below; hash = h }

-- The hash with a number, and the number of a hash.
abbrev pub at : List H256 → ℕ → Option H256
at [] n = none
at (h ∷ below) n = if length below == n then some h else at below n

abbrev pub position : List H256 → H256 → Option ℕ
position [] k = none
position (h ∷ below) k = if h == k then some (length below) else position below k

pub position-contains :
    (chain : List H256) (k : H256) → is_some (position chain k) ≡ contains chain k
position-contains [] k = refl
position-contains (h ∷ below) k = ground (arith, position-contains below k)

pub position_absent :
    (chain : List H256) (k : H256) → contains chain k ≡ false → position chain k ≡ none
position_absent [] k out = refl
position_absent (h ∷ below) k out = ground (arith, position_absent below k)

pub position_lt : (chain : List H256) (h n : ℕ) → position chain h ≡ some n → n < length chain
position_lt [] h n e = cc
position_lt (k ∷ below) h n e = elim (Bool-cases (k == h)) [
  | inl same ↦ ground arith
  | inr apart ↦ let inside : n < length below = position_lt below h n (ground arith) in omega arith
]

pub at_above : (chain : List H256) (n : ℕ) → length chain < n + 1 → at chain n ≡ none
at_above [] n above = refl
at_above (h ∷ below) n above = ground (arith, at_above below n)

module _ {Pk Int : Type 0} where
  abbrev pub parent_of : Block Pk Int → H256
  parent_of b = b.block_header.previous_header_hash

  abbrev pub stored : IndexedBlock Pk Int → Block Pk Int
  stored b = record { block_header = b.header.raw; proof = b.proof }

  -- Each block of the chain is stored, and its parent is the one before it, zero for the oldest.
  abbrev pub IsLinked : (H256 → Option (Block Pk Int)) → List H256 → Type 0
  IsLinked blocks [] = Unit
  IsLinked blocks (h ∷ below) =
      ((b : Block Pk Int) × (blocks h ≡ some b) × (parent_of b ≡ (best_of below).hash))
      × IsLinked blocks below

  -- No block has the hash zero, which stands for no parent.
  pub record IsLedger (l : Ledger (Block Pk Int)) : Type 0 where
    pub linked : IsLinked l.blocks l.chain
    pub distinct : Distinct l.chain
    pub zero_free : l.blocks 0 ≡ none

  abbrev pub with_block : Ledger (Block Pk Int) → IndexedBlock Pk Int → Ledger (Block Pk Int)
  with_block l b = record l {
    blocks = λ h. if b.header.hash == h then some (stored b) else l.blocks h;
  }

  unfoldable pub insert :
      Ledger (Block Pk Int) → IndexedBlock Pk Int → Result Unit Error × Ledger (Block Pk Int)
  insert l b =
      if is_some (l.blocks b.header.hash)
      then (success tt, l)
      else if not (is_some (l.blocks b.header.raw.previous_header_hash))
          && not (b.header.raw.previous_header_hash == 0)
      then (failure unknown_parent, l)
      else (success tt, with_block l b)

  abbrev pub canonize_found :
      Ledger (Block Pk Int)
      → H256
      → Option (Block Pk Int)
      → Result Unit Error × Ledger (Block Pk Int)
  canonize_found l h none = (failure cannot_canonize, l)
  canonize_found l h (some b) =
      if (best_of l.chain).hash == parent_of b
      then (success tt, record l { chain = h ∷ l.chain })
      else (failure cannot_canonize, l)

  unfoldable pub canonize : Ledger (Block Pk Int) → H256 → Result Unit Error × Ledger (Block Pk Int)
  canonize l h = canonize_found l h (l.blocks h)

  unfoldable pub decanonize : Ledger (Block Pk Int) → Result H256 Error × Ledger (Block Pk Int)
  decanonize l = elim l.chain [
    | [] ↦ (failure cannot_decanonize, l)
    | h ∷ below ↦ (success h, record l { chain = below })
  ]

  -- The best hash is zero for the empty chain alone.
  pub tip_zero :
      (blocks : H256 → Option (Block Pk Int)) (chain : List H256)
      → IsLinked blocks chain
      → blocks 0 ≡ none
      → (best_of chain).hash ≡ 0
      → chain ≡ []
  tip_zero blocks [] linked free e = refl
  tip_zero blocks (h ∷ below) linked free e = let (b, is_b, _) = linked.0 in cc (sym is_b, free)

  -- The parent of the best block stands below it, if it is not zero.
  first_parent :
      (blocks : H256 → Option (Block Pk Int)) (k : H256) (below : List H256) (h : H256)
      (b : Block Pk Int)
      → IsLinked blocks (k ∷ below)
      → blocks h ≡ some b
      → (k == h) ≡ true
      → (parent_of b ≡ 0) ⊎ (contains below (parent_of b) ≡ true)
  first_parent blocks k below h b linked is_b e =
      let (b', is_b', is_parent) = linked.0 in
      let at_k : k ≡ h = ground arith in
      let same : b ≡ b' = some-injective b b' (sym is_b ∙ ap blocks (sym at_k) ∙ is_b') in
      go below (ap parent_of same ∙ is_parent)
    where
      go :
          (below : List H256)
          → parent_of b ≡ (best_of below).hash
          → (parent_of b ≡ 0) ⊎ (contains below (parent_of b) ≡ true)
      go [] e = inl e
      go (j ∷ below) e = inr (ground (arith, e))

  -- The parent of a block in the chain stands below the best one, if it is not zero.
  pub member_parent :
      (blocks : H256 → Option (Block Pk Int)) (k : H256) (below : List H256) (h : H256)
      (b : Block Pk Int)
      → IsLinked blocks (k ∷ below)
      → blocks h ≡ some b
      → contains (k ∷ below) h ≡ true
      → (parent_of b ≡ 0) ⊎ (contains below (parent_of b) ≡ true)
  member_parent blocks k [] h b linked is_b inside =
      first_parent blocks k [] h b linked is_b (ground arith)
  member_parent blocks k (j ∷ below) h b linked is_b inside = elim (Bool-cases (k == h)) [
    | inl e ↦ first_parent blocks k (j ∷ below) h b linked is_b e
    | inr e ↦ elim (member_parent blocks j below h b linked.1 is_b (ground arith)) [
      | inl zero ↦ inl zero
      | inr within ↦ inr (ground arith)
    ]
  ]

  -- A block whose parent is the best one is not in the chain yet.
  pub fresh :
      (l : Ledger (Block Pk Int)) (h : H256) (b : Block Pk Int)
      → IsLedger l
      → l.blocks h ≡ some b
      → (best_of l.chain).hash ≡ parent_of b
      → contains l.chain h ≡ false
  fresh l h b valid is_b p = go l.chain valid.linked valid.distinct p
    where
      go :
          (chain : List H256)
          → IsLinked l.blocks chain
          → Distinct chain
          → (best_of chain).hash ≡ parent_of b
          → contains chain h ≡ false
      go [] linked d p = refl
      go (k ∷ below) linked d p = elim (Bool-cases (contains (k ∷ below) h)) [
        | inr out ↦ out
        | inl inside ↦ elim (member_parent l.blocks k below h b linked is_b inside) [
          | inl zero ↦ let (b', is_b', _) = linked.0 in cc (sym is_b', valid.zero_free)
          | inr again ↦ cc (sym (d.0), again)
        ]
      ]
