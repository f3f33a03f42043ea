-- ===== src/Prelude/HashLists.antt =====
-- Lists of hashes: membership as a test, removal, and lists that hold no hash twice.
use Prim.Native.Nat.{ℕ, zero, suc, ◌≤◌, compare, Ordering}
use mathlib.Core.Path.{◌≡◌, refl, sym, ap, subst}
use mathlib.Core.Bool.{Bool, true, false, ◌||◌}
use mathlib.Core.List.{List, [], ◌∷◌, ◌++◌}
use mathlib.Core.Option.{some}
use native.Mathlib.Omega.{arith}
use native.Mathlib.Decide.{ℕ_discrete}
use rust_randchain_prototype.Prelude.Lists.{length, get_elem?, take, drop, take-append-drop}

-- Membership as a test, and lists that hold no hash twice.
abbrev pub contains : List ℕ → ℕ → Bool
contains [] h = false
contains (x ∷ xs) h = elim (compare x h) [ Ordering.eq ↦ true | _ ↦ contains xs h ]

abbrev pub Distinct : List ℕ → Type 0
Distinct [] = Unit
Distinct (x ∷ xs) = (contains xs x ≡ false) × Distinct xs

pub contains-append :
    (xs ys : List ℕ) (h : ℕ) → contains (xs ++ ys) h ≡ contains xs h || contains ys h
contains-append [] ys h = refl
contains-append (x ∷ xs) ys h = ground (arith, contains-append xs ys h)

pub Distinct-snoc :
    (xs : List ℕ) (h : ℕ) → Distinct xs → contains xs h ≡ false → Distinct (xs ++ (h ∷ []))
Distinct-snoc [] h d n = ground arith
Distinct-snoc (x ∷ xs) h d n = ground (arith, Distinct-snoc xs h d.1, contains-append xs (h ∷ []) x)

-- Removal of every occurrence.
unfoldable pub erase : List ℕ → ℕ → List ℕ
erase [] h = []
erase (x ∷ xs) h = let rest = erase xs h in elim (compare x h) [ Ordering.eq ↦ rest | _ ↦ x ∷ rest ]

pub contains-erase :
    (xs : List ℕ) (h j : ℕ)
    → contains (erase xs h) j ≡ elim (compare h j) [ Ordering.eq ↦ false | _ ↦ contains xs j ]
unfolding erase
contains-erase [] h j = ground arith
contains-erase (x ∷ xs) h j = ground (arith, contains-erase xs h j)

pub erase_absent : (xs : List ℕ) (h : ℕ) → contains xs h ≡ false → erase xs h ≡ xs
unfolding erase
erase_absent [] h n = refl
erase_absent (x ∷ xs) h n = ground (arith, erase_absent xs h)

pub erase-Distinct : (xs : List ℕ) (h : ℕ) → Distinct xs → Distinct (erase xs h)
unfolding erase
erase-Distinct [] h d = tt
erase-Distinct (x ∷ xs) h d = ground (arith, erase-Distinct xs h d.1, contains-erase xs h x)

pub Distinct-unsnoc :
    (xs : List ℕ) (h : ℕ) → Distinct (xs ++ (h ∷ [])) → Distinct xs × (contains xs h ≡ false)
Distinct-unsnoc [] h d = (tt, refl)
Distinct-unsnoc (x ∷ xs) h d =
    ground (arith, Distinct-unsnoc xs h d.1, contains-append xs (h ∷ []) x)

pub erase-contains : (xs : List ℕ) (h j : ℕ) → contains (erase xs h) j ≡ true → contains xs j ≡ true
erase-contains xs h j e = ground (arith, contains-erase xs h j)

pub Distinct-middle :
    (xs : List ℕ) (h : ℕ) (ys : List ℕ) → Distinct (xs ++ (h ∷ ys)) → contains xs h ≡ false
Distinct-middle [] h ys d = refl
Distinct-middle (x ∷ xs) h ys d =
    ground (arith, Distinct-middle xs h ys d.1, contains-append xs (h ∷ ys) x)

pub Distinct-left : (xs ys : List ℕ) → Distinct (xs ++ ys) → Distinct xs
Distinct-left [] ys d = tt
Distinct-left (x ∷ xs) ys d = ground (arith, contains-append xs ys x, Distinct-left xs ys d.1)

pub Distinct-right : (xs ys : List ℕ) → Distinct (xs ++ ys) → Distinct ys
Distinct-right [] ys d = d
Distinct-right (x ∷ xs) ys d = Distinct-right xs ys d.1

pub contains_of_get_elem? : (xs : List ℕ) (k h : ℕ) → get_elem? xs k ≡ some h → contains xs h ≡ true
contains_of_get_elem? [] k h e = cc
contains_of_get_elem? (x ∷ xs) zero h e = ground arith
contains_of_get_elem? (x ∷ xs) (suc k) h e = ground (arith, contains_of_get_elem? xs k h e)

-- Before its place the erased hash does not show.
pub take-erase :
    (xs : List ℕ) (k h : ℕ)
    → Distinct xs
    → get_elem? xs k ≡ some h
    → take k (erase xs h) ≡ take k xs
unfolding erase
take-erase [] k h d e = cc
take-erase (x ∷ xs) zero h d e = refl
take-erase (x ∷ xs) (suc k) h d e =
    ground (arith, take-erase xs k h d.1, contains_of_get_elem? xs k h, ap (contains xs))

pub Distinct-take : (n : ℕ) (xs : List ℕ) → Distinct xs → Distinct (take n xs)
Distinct-take n xs d =
    Distinct-left (take n xs) (drop n xs) (subst Distinct (sym (take-append-drop n xs)) d)

pub index_unique :
    (xs : List ℕ) (i j h : ℕ)
    → Distinct xs
    → get_elem? xs i ≡ some h
    → get_elem? xs j ≡ some h
    → i ≡ j
index_unique [] i j h d e f = cc
index_unique (x ∷ xs) zero zero h d e f = refl
index_unique (x ∷ xs) zero (suc j) h d e f =
    ground (arith, contains_of_get_elem? xs j h, ap (contains xs))
index_unique (x ∷ xs) (suc i) zero h d e f =
    ground (arith, contains_of_get_elem? xs i h, ap (contains xs))
index_unique (x ∷ xs) (suc i) (suc j) h d e f = ap suc (index_unique xs i j h d.1 e f)

pub length-erase-le : (xs : List ℕ) (h : ℕ) → length (erase xs h) ≤ length xs
unfolding erase
length-erase-le [] h = omega arith
length-erase-le (x ∷ xs) h = ground (arith, length-erase-le xs h)

pub get_elem?_of_contains :
    (xs : List ℕ) (h : ℕ) → contains xs h ≡ true → (k : ℕ) × (get_elem? xs k ≡ some h)
get_elem?_of_contains [] h m = cc
get_elem?_of_contains (x ∷ xs) h m = elim (ℕ_discrete x h) [
  | yes e ↦ (0, ap some e)
  | no n ↦ let (k, e) = get_elem?_of_contains xs h (ground arith) in (suc k, e)
]

pub erase-append : (xs ys : List ℕ) (h : ℕ) → erase (xs ++ ys) h ≡ erase xs h ++ erase ys h
unfolding erase
erase-append [] ys h = refl
erase-append (x ∷ xs) ys h = ground (arith, erase-append xs ys h)

-- A hash of the first part is not in the second.
pub Distinct-apart :
    (xs ys : List ℕ) (h : ℕ) → Distinct (xs ++ ys) → contains xs h ≡ true → contains ys h ≡ false
Distinct-apart [] ys h d m = cc
Distinct-apart (x ∷ xs) ys h d m =
    ground (arith, Distinct-apart xs ys h d.1, contains-append xs ys x, ap (contains ys))
