-- ===== src/Sync/OrphanPool/Removal.antt =====
-- What the removal of orphans does to the maps of the pool.
use mathlib.Core.Option.{some-injective}
use rust_randchain_prototype.Prelude.{
  ℕ, ◌+◌, ◌≤◌, ◌≡◌, ◌⊎◌, refl, sym, ap, subst, ◌∙◌, Bool, true, false, Bool-cases, inl, inr, ◌==◌,
  none, some, List, [], ◌∷◌, ◌++◌, arith, if◌then◌else◌, length, contains, H256,
}
use rust_randchain_prototype.Prelude.HashMap
use rust_randchain_prototype.Prelude.HashMap.{keys, get-remove}
use rust_randchain_prototype.Blocks.{IndexedBlock}
use rust_randchain_prototype.Serialization.RoundTrip.{All}
use rust_randchain_prototype.Sync.OrphanPool.{OrphanBlocksPool, values, remove_keys, total}

pub length-keys : {V : Type 0} (m : List (ℕ × V)) → length (keys m) ≡ length m
length-keys [] = refl
length-keys ((k, v) ∷ m) = omega (arith, length-keys m)

pub length-values : {V : Type 0} (m : List (ℕ × V)) → length (values m) ≡ length m
length-values [] = refl
length-values ((k, v) ∷ m) = omega (arith, length-values m)

pub All-append :
    {A : Type 0} (P : A → Type 0) (xs ys : List A) → All P xs → All P ys → All P (xs ++ ys)
All-append P [] ys all_x all_y = all_y
All-append P (x ∷ xs) ys all_x all_y = (all_x.0, All-append P xs ys all_x.1 all_y)

pub All-left : {A : Type 0} (P : A → Type 0) (xs ys : List A) → All P (xs ++ ys) → All P xs
All-left P [] ys all = tt
All-left P (x ∷ xs) ys all = (all.0, All-left P xs ys all.1)

pub All-right : {A : Type 0} (P : A → Type 0) (xs ys : List A) → All P (xs ++ ys) → All P ys
All-right P [] ys all = all
All-right P (x ∷ xs) ys all = All-right P xs ys all.1

module _ {Pk Int : Type 0} where
  total-remove-le :
      (m : List (H256 × List (H256 × IndexedBlock Pk Int))) (k : H256)
      → total (HashMap.remove m k) ≤ total m
  unfolding HashMap.remove
  total-remove-le [] k = omega arith
  total-remove-le ((j, w) ∷ m) k = elim (Bool-cases (j == k)) [
    | inl same ↦ rw same (omega (arith, total-remove-le m k))
    | inr other ↦ rw other (omega (arith, total-remove-le m k))
  ]

  -- What is removed of a map is not counted any more.
  pub total-remove :
      (m : List (H256 × List (H256 × IndexedBlock Pk Int))) (k : H256)
      (v : List (H256 × IndexedBlock Pk Int))
      → HashMap.get m k ≡ some v
      → length v + total (HashMap.remove m k) ≤ total m
  unfolding HashMap.get HashMap.remove
  total-remove [] k v e = ground arith
  total-remove ((j, w) ∷ m) k v e = elim (Bool-cases (j == k)) [
    | inl same ↦
        let found : some w ≡ some v =
          ap (λ test. if test then some w else HashMap.get m k) (sym same) ∙ e in
        let size : length w ≡ length v = ap length (some-injective w v found) in
        rw same (omega (arith, total-remove-le m k))
    | inr other ↦
        let found : HashMap.get m k ≡ some v =
          ap (λ test. if test then some w else HashMap.get m k) (sym other) ∙ e in
        rw other (omega (arith, total-remove m k v found))
  ]

  -- Each entry of the pool holds blocks under their own hashes, which have the entry's key for a parent.
  abbrev pub Filed : H256 → H256 × IndexedBlock Pk Int → Type 0
  Filed parent e = (e.1.header.hash ≡ e.0) × (e.1.header.raw.previous_header_hash ≡ parent)

  abbrev pub IsFiled : List (H256 × List (H256 × IndexedBlock Pk Int)) → Type 0
  IsFiled [] = Unit
  IsFiled ((parent, orphans) ∷ m) = All (Filed parent) orphans × IsFiled m

  pub remove-IsFiled :
      (m : List (H256 × List (H256 × IndexedBlock Pk Int))) (k : H256)
      → IsFiled m
      → IsFiled (HashMap.remove m k)
  unfolding HashMap.remove
  remove-IsFiled [] k filed = tt
  remove-IsFiled ((j, w) ∷ m) k filed = elim (Bool-cases (j == k)) [
    | inl same ↦ rw same (remove-IsFiled m k filed.1)
    | inr other ↦ rw other (filed.0, remove-IsFiled m k filed.1)
  ]

  pub get-IsFiled :
      (m : List (H256 × List (H256 × IndexedBlock Pk Int))) (k : H256)
      (v : List (H256 × IndexedBlock Pk Int))
      → IsFiled m
      → HashMap.get m k ≡ some v
      → All (Filed k) v
  unfolding HashMap.get
  get-IsFiled [] k v filed e = cc
  get-IsFiled ((j, w) ∷ m) k v filed e = elim (Bool-cases (j == k)) [
    | inl same ↦
        let at_key : j ≡ k = ground arith in
        let found : some w ≡ some v =
          ap (λ test. if test then some w else HashMap.get m k) (sym same) ∙ e in
        subst (λ x. All (Filed k) x) (some-injective w v found)
          (subst (λ x. All (Filed x) w) at_key filed.0)
    | inr other ↦
        get-IsFiled m k v filed.1
          (ap (λ test. if test then some w else HashMap.get m k) (sym other) ∙ e)
  ]

  -- A hash that is not a parent in the pool stays so when another one is removed.
  pub remove_keeps :
      (m : List (H256 × List (H256 × IndexedBlock Pk Int))) (k j : H256)
      → HashMap.get m j ≡ none
      → HashMap.get (HashMap.remove m k) j ≡ none
  remove_keeps m k j e = get-remove m k j ∙ go (k == j)
    where
      go : (test : Bool) → (if test then none else HashMap.get m j) ≡ none
      go true = refl
      go false = e

pub All-of-contains :
    (P : H256 → Type 0) (xs : List H256) → ((x : H256) → contains xs x ≡ true → P x) → All P xs
All-of-contains P [] each = tt
All-of-contains P (x ∷ xs) each =
    (each x (ground arith), All-of-contains P xs (λ y within. each y (ground arith)))

pub get-remove_keys :
    {V : Type 0} (m : List (H256 × V)) (ks : List H256) (j : H256)
    → HashMap.get (remove_keys m ks) j ≡ (if contains ks j then none else HashMap.get m j)
unfolding remove_keys
get-remove_keys m [] j = refl
get-remove_keys m (k ∷ ks) j =
    ground (arith, get-remove_keys (HashMap.remove m k) ks j, get-remove m k j)

-- The hashes that stand on another one by way of blocks of the pool.
pub data Depends {Pk Int : Type 0} (m : List (H256 × List (H256 × IndexedBlock Pk Int)))
    (root : H256) : H256 → Type 0 where
  itself : Depends m root root
  child :
      {parent h : H256} {v : List (H256 × IndexedBlock Pk Int)}
      → Depends m root parent
      → HashMap.get m parent ≡ some v
      → contains (keys v) h ≡ true
      → Depends m root h

-- A block is one of a list.
pub data Among {A : Type 0} (x : A) : List A → Type 0 where
  here : {xs : List A} → Among x (x ∷ xs)
  there : {y : A} {xs : List A} → Among x xs → Among x (y ∷ xs)

pub Among-left : {A : Type 0} {x : A} (xs ys : List A) → Among x xs → Among x (xs ++ ys)
Among-left [] ys within = elim within [ ]
Among-left (x ∷ xs) ys here = here
Among-left (y ∷ xs) ys (there within) = there (Among-left xs ys within)

pub Among-right : {A : Type 0} {x : A} (xs ys : List A) → Among x ys → Among x (xs ++ ys)
Among-right [] ys within = within
Among-right (y ∷ xs) ys within = there (Among-right xs ys within)

pub All-map :
    {A : Type 0} (P Q : A → Type 0) (xs : List A) → ((x : A) → P x → Q x) → All P xs → All Q xs
All-map P Q [] step all = tt
All-map P Q (x ∷ xs) step all = (step x all.0, All-map P Q xs step all.1)

pub All-Among : {A : Type 0} (xs : List A) → All (λ x. Among x xs) xs
All-Among [] = tt
All-Among (x ∷ xs) =
    (here, All-map (λ y. Among y xs) (λ y. Among y (x ∷ xs)) xs (λ y w. there w) (All-Among xs))

module _ {Pk Int Time : Type 0} where
  -- The pool has no block on top of this one, and does not have it as an unknown block.
  abbrev pub Gone : OrphanBlocksPool Pk Int Time → IndexedBlock Pk Int → Type 0
  Gone p b =
      (HashMap.get p.orphaned_blocks b.header.hash ≡ none)
      × (HashMap.get p.unknown_blocks b.header.hash ≡ none)

  pub values-Gone :
      (p : OrphanBlocksPool Pk Int Time) (parent : H256) (v : List (H256 × IndexedBlock Pk Int))
      → All (Filed parent) v
      → All (λ k. HashMap.get p.orphaned_blocks k ≡ none) (keys v)
      → All (λ k. HashMap.get p.unknown_blocks k ≡ none) (keys v)
      → All (Gone p) (values v)
  values-Gone p parent [] filed orphaned unknown = tt
  values-Gone p parent ((k, b) ∷ v) filed orphaned unknown = (
    (
      ap (HashMap.get p.orphaned_blocks) filed.0.0 ∙ orphaned.0,
      ap (HashMap.get p.unknown_blocks) filed.0.0 ∙ unknown.0,
    ),
    values-Gone p parent v filed.1 orphaned.1 unknown.1,
  )

  -- What the pool had under a parent: it is still there, or it is gone and found, and the parent depends.
  abbrev pub KeptOrFound :
      List (H256 × List (H256 × IndexedBlock Pk Int))
      → H256
      → List (IndexedBlock Pk Int)
      → OrphanBlocksPool Pk Int Time
      → H256
      → List (H256 × IndexedBlock Pk Int)
      → Type 0
  KeptOrFound m root found p' j v =
      (HashMap.get p'.orphaned_blocks j ≡ some v)
      ⊎ (Depends m root j
          × (HashMap.get p'.orphaned_blocks j ≡ none)
          × All (λ b. Among b found) (values v))

module _ {Pk Int : Type 0} where
  -- All that stands under a hash that depends does so too.
  pub values-Depends :
      (m : List (H256 × List (H256 × IndexedBlock Pk Int))) (root parent : H256)
      (whole v : List (H256 × IndexedBlock Pk Int))
      → All (Filed parent) v
      → Depends m root parent
      → HashMap.get m parent ≡ some whole
      → ((k : H256) → contains (keys v) k ≡ true → contains (keys whole) k ≡ true)
      → All (λ (b : IndexedBlock Pk Int). Depends m root b.header.hash) (values v)
        × All (Depends m root) (keys v)
  values-Depends m root parent whole [] filed depends found within = (tt, tt)
  values-Depends m root parent whole ((k, b) ∷ v) filed depends found within =
      let (blocks, hashes) =
        values-Depends m root parent whole v filed.1 depends found
          (λ j inner. within j (ground arith)) in
      let at_key = child depends found (within k (ground arith)) in
      ((subst (Depends m root) (sym filed.0.0) at_key, blocks), (at_key, hashes))
