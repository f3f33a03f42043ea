-- ===== src/Db/Chain/Routes.antt =====
-- Routes beside the chain of a ledger, and the hashes of the chain above a number.
use rust_randchain_prototype.Prelude.{
  ℕ, zero, suc, ◌+◌, ◌<◌, ◌≤◌, ◌≡◌, refl, sym, ap, ◌∙◌, inl, inr, true, false, Bool-cases, Option,
  Option-cases, none, some, List, [], ◌∷◌, ◌++◌, ltb, if◌then◌else◌, arith, length, reverse,
  reverse-cons, H256,
}
use rust_randchain_prototype.Serialization.Headers.{Block}
use rust_randchain_prototype.Db.Chain.Origin.{cons_some}
use rust_randchain_prototype.Db.Chain.Ledger.{Ledger, at, position, parent_of}

-- The way from a hash down to the chain of a ledger: the hashes beside the chain, and the number where
-- it is reached.
pub data SideRoute {Pk Int : Type 0} (l : Ledger (Block Pk Int))
    : H256 → ℕ → List H256 → Type 0 where
  joined : {h : H256} {n : ℕ} → position l.chain h ≡ some n → SideRoute l h n []
  aside :
      {h : H256} {n : ℕ} {route : List H256} (b : Block Pk Int)
      → position l.chain h ≡ none
      → l.blocks h ≡ some b
      → SideRoute l (parent_of b) n route
      → SideRoute l h n (h ∷ route)

-- A way down through stored blocks beside the chain, from a hash to another one.
pub data Walk {Pk Int : Type 0} (l : Ledger (Block Pk Int)) : H256 → H256 → List H256 → Type 0 where
  arrived : {h : H256} → Walk l h h []
  down :
      {h k : H256} {route : List H256} (b : Block Pk Int)
      → position l.chain h ≡ none
      → l.blocks h ≡ some b
      → Walk l (parent_of b) k route
      → Walk l h k (h ∷ route)

-- How a way of at most so many blocks ends: on the chain, at a hash that is not stored, or nowhere yet.
pub data Ending {Pk Int : Type 0} (l : Ledger (Block Pk Int)) (rounds : ℕ) (h : H256) : Type 0 where
  on_chain :
      {n : ℕ} {route : List H256}
      → SideRoute l h n route
      → length route < rounds
      → Ending l rounds h
  rootless_at :
      {k : H256} {route : List H256}
      → Walk l h k route
      → position l.chain k ≡ none
      → l.blocks k ≡ none
      → length route < rounds
      → Ending l rounds h
  longer :
      {k : H256} {route : List H256} → Walk l h k route → length route ≡ rounds → Ending l rounds h

Ending-down :
    {Pk Int : Type 0} (l : Ledger (Block Pk Int)) (rounds : ℕ) (h : H256) (b : Block Pk Int)
    → position l.chain h ≡ none
    → l.blocks h ≡ some b
    → Ending l rounds (parent_of b)
    → Ending l (suc rounds) h
Ending-down l rounds h b off is_b (on_chain way near) =
    on_chain (aside b off is_b way) (omega arith)
Ending-down l rounds h b off is_b (rootless_at way out missing near) =
    rootless_at (down b off is_b way) out missing (omega arith)
Ending-down l rounds h b off is_b (longer way full) = longer (down b off is_b way) (omega arith)

-- Each way ends in one of the three.
pub walk_ends :
    {Pk Int : Type 0} (l : Ledger (Block Pk Int)) (rounds : ℕ) (h : H256) → Ending l rounds h
walk_ends l zero h = longer arrived refl
walk_ends l (suc rounds) h = elim (Option-cases (position l.chain h)) [
  | inr (n, found) ↦ on_chain (joined found) (omega arith)
  | inl off ↦ elim (Option-cases (l.blocks h)) [
    | inl missing ↦ rootless_at arrived off missing (omega arith)
    | inr (b, is_b) ↦ Ending-down l rounds h b off is_b (walk_ends l rounds (parent_of b))
  ]
]

-- The hashes of a chain with numbers above one, the newest first, and those up to it.
abbrev pub above : List H256 → ℕ → List H256
above [] n = []
above (h ∷ below) n = if ltb n (length below) then h ∷ above below n else []

abbrev pub up_to : List H256 → ℕ → List H256
up_to [] n = []
up_to (h ∷ below) n = if ltb n (length below) then up_to below n else h ∷ below

pub length-up_to :
    (chain : List H256) (n : ℕ)
    → 0 < length chain
    → (0 < length (up_to chain n)) × (length (up_to chain n) ≤ length chain)
length-up_to [] n some_block = ground arith
length-up_to (h ∷ []) n some_block = ground arith
length-up_to (h ∷ k ∷ below) n some_block =
    let (positive, small) = length-up_to (k ∷ below) n (omega arith) in
    elim (Bool-cases (ltb n (length (k ∷ below)))) [
      | inl more ↦ rw more (positive, omega arith)
      | inr last ↦ rw last (omega arith, omega arith)
    ]

pub above-up_to : (chain : List H256) (n : ℕ) → above chain n ++ up_to chain n ≡ chain
above-up_to [] n = refl
above-up_to (h ∷ below) n = elim (Bool-cases (ltb n (length below))) [
  | inl more ↦ rw more (ap (λ hs. h ∷ hs) (above-up_to below n))
  | inr last ↦ rw last refl
]

-- The hashes with the numbers of a range.
abbrev pub between : (ℕ → Option H256) → ℕ → ℕ → List H256
between hash_of first zero = []
between hash_of first (suc count) = cons_some (hash_of first) (between hash_of (first + 1) count)

cons_some-append :
    (o : Option H256) (xs ys : List H256) → cons_some o (xs ++ ys) ≡ cons_some o xs ++ ys
cons_some-append none xs ys = refl
cons_some-append (some h) xs ys = refl

between_snoc :
    (hash_of : ℕ → Option H256) (first count : ℕ) (h : H256)
    → hash_of (first + count) ≡ some h
    → between hash_of first (suc count) ≡ between hash_of first count ++ (h ∷ [])
between_snoc hash_of first zero h e =
    rw (ap hash_of {x = first} {y = first + zero} (omega arith) ∙ e) refl
between_snoc hash_of first (suc count) h e =
    ap (cons_some (hash_of first))
      (between_snoc hash_of (first + 1) count h (ap hash_of (omega arith) ∙ e))
    ∙ cons_some-append (hash_of first) (between hash_of (first + 1) count) (h ∷ [])

between_same :
    (f g : ℕ → Option H256) (first count : ℕ)
    → ((i : ℕ) → i < first + count → f i ≡ g i)
    → between f first count ≡ between g first count
between_same f g first zero same = refl
between_same f g first (suc count) same =
    rw
      (
        same first (omega arith),
        between_same f g (first + 1) count (λ i small. same i (omega arith)),
      )
      refl

-- The numbers above `n` give the hashes above it, the oldest first.
pub between-above :
    (chain : List H256) (n count : ℕ)
    → n + count + 1 ≡ length chain
    → between (at chain) (n + 1) count ≡ reverse (above chain n)
between-above [] n count e = ground arith
between-above (h ∷ below) n zero e =
    let last : ltb n (length below) ≡ false = ground arith in rw last refl
between-above (h ∷ below) n (suc count) e =
    let more : ltb n (length below) ≡ true = ground arith in
    let at_top : at (h ∷ below) (n + 1 + count) ≡ some h = ground arith in
    rw more (
      between_snoc (at (h ∷ below)) (n + 1) count h at_top
      ∙ ap (λ hs. hs ++ (h ∷ []))
          (between_same (at (h ∷ below)) (at below) (n + 1) count (λ i small. ground arith)
            ∙ between-above below n count (omega arith))
      ∙ sym (reverse-cons h (above below n)))
