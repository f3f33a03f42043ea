-- ===== src/Sync/BestHeaders/Linked.antt =====
-- `BestHeadersChain`: the invariant. The map holds exactly the headers of the queue, each under its
-- own hash, and every header of the queue names the one in front of it as its parent.
use rust_randchain_prototype.Prelude.{
  ◌≡◌, refl, true, Option, none, some, List, [], ◌∷◌, ◌++◌, arith, is_some, H256, contains,
  get_last?,
}
use rust_randchain_prototype.Prelude.HashMap
use rust_randchain_prototype.Blocks.{IndexedBlockHeader}
use rust_randchain_prototype.Sync.HashQueue
use rust_randchain_prototype.Sync.HashQueue.Invariant
use rust_randchain_prototype.Sync.BestHeaders.{BestHeadersChain, new, clear}

-- The parent that the header of `h` names.
abbrev pub parent : {Pk Int : Type 0} → List (H256 × IndexedBlockHeader Pk Int) → H256 → Option H256
parent m h = elim (HashMap.get m h) [ none ↦ none | some x ↦ some x.raw.previous_header_hash ]

abbrev pub Linked : {Pk Int : Type 0} → List (H256 × IndexedBlockHeader Pk Int) → List H256 → Type 0
Linked m [] = Unit
Linked m (x ∷ []) = Unit
Linked m (x ∷ y ∷ xs) = (parent m y ≡ some x) × Linked m (y ∷ xs)

pub record IsValid {Pk Int : Type 0} (c : BestHeadersChain Pk Int) : Type 0 where
  pub queue : Invariant.IsValid c.best
  pub known : (h : H256) → is_some (HashMap.get c.headers h) ≡ contains c.best.queue h
  pub indexed :
      (h : H256) (x : IndexedBlockHeader Pk Int) → HashMap.get c.headers h ≡ some x → x.hash ≡ h
  pub linked : Linked c.headers c.best.queue

module _ {Pk Int : Type 0} where
  -- Only the headers of the listed hashes matter.
  pub Linked-ext :
      (m m' : List (H256 × IndexedBlockHeader Pk Int)) (xs : List H256)
      → ((j : H256) → contains xs j ≡ true → HashMap.get m' j ≡ HashMap.get m j)
      → Linked m xs
      → Linked m' xs
  Linked-ext m m' [] e l = tt
  Linked-ext m m' (x ∷ []) e l = tt
  Linked-ext m m' (x ∷ y ∷ xs) e l =
      (ground (arith, e y, l.0), Linked-ext m m' (y ∷ xs) (λ j c. e j (ground arith)) l.1)

  pub Linked-tail :
      (m : List (H256 × IndexedBlockHeader Pk Int)) (x : H256) (xs : List H256)
      → Linked m (x ∷ xs)
      → Linked m xs
  Linked-tail m x [] l = tt
  Linked-tail m x (y ∷ xs) l = l.1

  pub Linked-snoc :
      (m : List (H256 × IndexedBlockHeader Pk Int)) (xs : List H256) (h : H256)
      → Linked m xs
      → ((l : H256) → get_last? xs ≡ some l → parent m h ≡ some l)
      → Linked m (xs ++ (h ∷ []))
  Linked-snoc m [] h l p = tt
  Linked-snoc m (x ∷ []) h l p = (p x refl, tt)
  Linked-snoc m (x ∷ y ∷ xs) h l p = (l.0, Linked-snoc m (y ∷ xs) h l.1 p)

  pub Linked-left :
      (m : List (H256 × IndexedBlockHeader Pk Int)) (xs ys : List H256)
      → Linked m (xs ++ ys)
      → Linked m xs
  Linked-left m [] ys l = tt
  Linked-left m (x ∷ []) ys l = tt
  Linked-left m (x ∷ y ∷ xs) ys l = (l.0, Linked-left m (y ∷ xs) ys l.1)

pub new-IsValid : (Pk Int : Type 0) (h : H256) → IsValid (new Pk Int h)
unfolding new HashQueue.new HashMap.get
new-IsValid Pk Int h = record {
  queue = record { distinct = tt; same = λ j. refl };
  known = λ j. refl;
  indexed = λ j x e. cc;
  linked = tt;
}

pub clear-IsValid : {Pk Int : Type 0} (c : BestHeadersChain Pk Int) → IsValid (clear c)
unfolding clear HashQueue.clear HashMap.get
clear-IsValid c = record {
  queue = record { distinct = tt; same = λ j. refl };
  known = λ j. refl;
  indexed = λ j x e. cc;
  linked = tt;
}
