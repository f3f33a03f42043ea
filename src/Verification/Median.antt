-- ===== src/Verification/Median.antt =====
-- The median of the times of the ancestors, and what being above it means.
use rust_randchain_prototype.Prelude.{
  ℕ, zero, suc, ◌+◌, ◌/◌, ◌<◌, ◌≤◌, ◌≡◌, refl, ap, ◌∙◌, subst, ◌↔◌, inl, inr, some, List, [], ◌∷◌,
  arith, ltb, if◌then◌else◌, Bool-cases, ok, length, get_elem?, expect,
}
use rust_randchain_prototype.Blocks.{BlockHeader}
use rust_randchain_prototype.Storage.{BlockHeaderProvider}
use rust_randchain_prototype.Verification.Timestamp.{
  insert_sorted, sort, median, ancestor_times, median_timestamp, median_timestamp_inclusive,
}

-- How many of the times are before `x`.
abbrev pub count_before : ℕ → List ℕ → ℕ
count_before x [] = 0
count_before x (t ∷ ts) = (if ltb t x then 1 else 0) + count_before x ts

abbrev IsSorted : List ℕ → Type 0
IsSorted [] = Unit
IsSorted (x ∷ []) = Unit
IsSorted (x ∷ y ∷ xs) = (x ≤ y) × IsSorted (y ∷ xs)

insert_sorted-count :
    (x t : ℕ) (ts : List ℕ) → count_before x (insert_sorted t ts) ≡ count_before x (t ∷ ts)
unfolding insert_sorted
insert_sorted-count x t [] = refl
insert_sorted-count x t (y ∷ ys) = ground (arith, insert_sorted-count x t ys)

sort-count : (x : ℕ) (ts : List ℕ) → count_before x (sort ts) ≡ count_before x ts
unfolding sort
sort-count x [] = refl
sort-count x (t ∷ ts) = ground (arith, insert_sorted-count x t (sort ts), sort-count x ts)

insert_sorted-length : (t : ℕ) (ts : List ℕ) → length (insert_sorted t ts) ≡ suc (length ts)
unfolding insert_sorted
insert_sorted-length t [] = refl
insert_sorted-length t (y ∷ ys) = ground (arith, insert_sorted-length t ys)

sort-length : (ts : List ℕ) → length (sort ts) ≡ length ts
unfolding sort
sort-length [] = refl
sort-length (t ∷ ts) = insert_sorted-length t (sort ts) ∙ ap suc (sort-length ts)

insert_sorted-IsSorted : (t : ℕ) (ts : List ℕ) → IsSorted ts → IsSorted (insert_sorted t ts)
unfolding insert_sorted
insert_sorted-IsSorted t [] s = tt
insert_sorted-IsSorted t (y ∷ []) s = ground arith
insert_sorted-IsSorted t (y ∷ z ∷ zs) s = ground (arith, insert_sorted-IsSorted t (z ∷ zs) s.1)

sort-IsSorted : (ts : List ℕ) → IsSorted (sort ts)
unfolding sort
sort-IsSorted [] = tt
sort-IsSorted (t ∷ ts) = insert_sorted-IsSorted t (sort ts) (sort-IsSorted ts)

IsSorted-tail : (y : ℕ) (ys : List ℕ) → IsSorted (y ∷ ys) → IsSorted ys
IsSorted-tail y [] s = tt
IsSorted-tail y (z ∷ zs) s = s.1

-- Nothing of a sorted list is before something that its first element is not before.
count_before_head :
    (x y : ℕ) (ys : List ℕ) → IsSorted (y ∷ ys) → x ≤ y → count_before x (y ∷ ys) ≡ 0
count_before_head x y [] s h = ground arith
count_before_head x y (z ∷ zs) s h = ground (arith, count_before_head x z zs s.1)

-- In a sorted list the element at `k` is before `x` exactly when more than `k` elements are.
get_elem-count :
    (x k m : ℕ) (ts : List ℕ)
    → IsSorted ts
    → get_elem? ts k ≡ some m
    → (m < x) ↔ (k < count_before x ts)
get_elem-count x k m [] s h = cc
get_elem-count x zero m (y ∷ ys) s h = elim (Bool-cases (ltb y x)) [
  | inl e ↦ ground (arith, h)
  | inr e ↦ ground (arith, h, count_before_head x y ys s (ground (arith, e)))
]
get_elem-count x (suc k) m (y ∷ ys) s h = elim (Bool-cases (ltb y x)) [
  | inl e ↦ ground (arith, e, get_elem-count x k m ys (IsSorted-tail y ys s) h)
  | inr e ↦ ground (
    arith,
    e,
    get_elem-count x k m ys (IsSorted-tail y ys s) h,
    count_before_head x y ys s (ground (arith, e)),
  )
]

get_elem_within : (k : ℕ) (ts : List ℕ) → k < length ts → (m : ℕ) × (get_elem? ts k ≡ some m)
get_elem_within k [] h = absurd (omega (arith, h))
get_elem_within zero (t ∷ ts) h = (t, refl)
get_elem_within (suc k) (t ∷ ts) h = get_elem_within k ts (omega (arith, h))

median-majority :
    (t : ℕ) (ts : List ℕ)
    → (m : ℕ) × (median (t ∷ ts) ≡ ok m)
      × ((x : ℕ) → (m < x) ↔ (length (t ∷ ts) / 2 < count_before x (t ∷ ts)))
unfolding median
median-majority t ts =
    let (m, e) =
      get_elem_within (length (t ∷ ts) / 2) (sort (t ∷ ts)) (omega (arith, sort-length (t ∷ ts))) in
    (
      m,
      ap expect e,
      λ x.
          subst (λ n. (m < x) ↔ (length (t ∷ ts) / 2 < n)) (sort-count x (t ∷ ts))
            (get_elem-count x (length (t ∷ ts) / 2) m (sort (t ∷ ts)) (sort-IsSorted (t ∷ ts)) e),
    )

-- The median of the times of up to eleven ancestors is found whenever there is one, and a time is after
-- it exactly when it is after more than half of their times.
pub median_timestamp-majority :
    {Pk Int : Type 0} (header : BlockHeader Pk Int) (store : BlockHeaderProvider Pk Int) (t : ℕ)
    (ts : List ℕ)
    → ancestor_times header.previous_header_hash store ≡ t ∷ ts
    → (m : ℕ) × (median_timestamp header store ≡ ok m)
      × ((x : ℕ) → (m < x) ↔ (length (t ∷ ts) / 2 < count_before x (t ∷ ts)))
unfolding median_timestamp median_timestamp_inclusive
median_timestamp-majority header store t ts e =
    let (m, found, majority) = median-majority t ts in (m, ap median e ∙ found, majority)
