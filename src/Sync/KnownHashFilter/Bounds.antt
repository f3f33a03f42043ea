-- ===== src/Sync/KnownHashFilter/Bounds.antt =====
-- `KnownHashFilter`: its size, and which hashes it remembers.
use rust_randchain_prototype.Prelude.{
  ◌-◌, ◌≤◌, ◌<◌, ◌≡◌, refl, sym, ap, ◌∙◌, subst, true, false, none, some, List, [], ◌∷◌, ◌++◌,
  arith, ◌==◌, if◌then◌else◌, Bool-cases, inl, inr, H256, length, length-append, drop, length-drop,
  is_some, Distinct, Distinct-snoc, dec_lt,
}
use rust_randchain_prototype.Prelude.HashMap
use rust_randchain_prototype.Prelude.HashMap.{keys, contains-keys}
use rust_randchain_prototype.Sync.KnownHashFilter.{
  KnownHashFilter, KnownHashType, block, max_known_hashes_len, default, insert,
}

pub record IsValid (f : KnownHashFilter) : Type 0 where
  pub bounded : length f.known_hashes ≤ max_known_hashes_len
  pub distinct : Distinct (keys f.known_hashes)

pub keys-snoc :
    {V : Type 0} (m : List (H256 × V)) (h : H256) (v : V)
    → keys (m ++ ((h, v) ∷ [])) ≡ keys m ++ (h ∷ [])
keys-snoc [] h v = refl
keys-snoc ((k, w) ∷ m) h v = ap (◌∷◌ k) (keys-snoc m h v)

drop_first-Distinct :
    {V : Type 0} (m : List (H256 × V)) → Distinct (keys m) → Distinct (keys (drop 1 m))
drop_first-Distinct [] d = tt
drop_first-Distinct ((k, w) ∷ m) d = d.1

pub default-IsValid : IsValid default
unfolding default
default-IsValid = record { bounded = omega arith; distinct = tt }

get-snoc :
    {V : Type 0} (m : List (H256 × V)) (h : H256) (v : V) (j : H256)
    → HashMap.get (m ++ ((h, v) ∷ [])) j
      ≡ elim (HashMap.get m j) [ none ↦ (if h == j then some v else none) | some w ↦ some w ]
unfolding HashMap.get
get-snoc [] h v j = refl
get-snoc ((k, w) ∷ m) h v j = ground (arith, get-snoc m h v j)

-- The three ways of `insert`.
insert_known :
    (f : KnownHashFilter) (h : H256) (t : KnownHashType)
    → is_some (HashMap.get f.known_hashes h) ≡ true
    → insert f h t ≡ f
unfolding insert
insert_known f h t e = rw e

pub insert_room :
    (f : KnownHashFilter) (h : H256) (t : KnownHashType)
    → is_some (HashMap.get f.known_hashes h) ≡ false
    → length f.known_hashes < max_known_hashes_len
    → insert f h t ≡ record { known_hashes = f.known_hashes ++ ((h, t) ∷ []) }
unfolding insert
insert_room f h t e l = rw e (ground (arith, length-append f.known_hashes ((h, t) ∷ [])))

pub insert_full :
    (f : KnownHashFilter) (h : H256) (t : KnownHashType)
    → is_some (HashMap.get f.known_hashes h) ≡ false
    → length f.known_hashes ≡ max_known_hashes_len
    → insert f h t ≡ record { known_hashes = drop 1 (f.known_hashes ++ ((h, t) ∷ [])) }
unfolding insert
insert_full f h t e l = rw e (ground (arith, length-append f.known_hashes ((h, t) ∷ [])))

snoc-Distinct :
    (f : KnownHashFilter) (h : H256) (t : KnownHashType)
    → IsValid f
    → is_some (HashMap.get f.known_hashes h) ≡ false
    → Distinct (keys (f.known_hashes ++ ((h, t) ∷ [])))
snoc-Distinct f h t v e =
    rw (keys-snoc f.known_hashes h t)
      (Distinct-snoc (keys f.known_hashes) h v.distinct (contains-keys f.known_hashes h ∙ e))

-- `insert` keeps at most 2048 hashes, and no hash twice.
pub insert-IsValid :
    (f : KnownHashFilter) (h : H256) (t : KnownHashType) → IsValid f → IsValid (insert f h t)
insert-IsValid f h t v = elim (Bool-cases (is_some (HashMap.get f.known_hashes h))) [
  | inl e ↦ subst IsValid (sym (insert_known f h t e)) v
  | inr e ↦ elim (dec_lt (length f.known_hashes) max_known_hashes_len) [
    | yes l ↦ subst IsValid (sym (insert_room f h t e l)) (record {
      bounded = omega (arith, length-append f.known_hashes ((h, t) ∷ []));
      distinct = snoc-Distinct f h t v e;
    })
    | no l ↦ subst IsValid (sym (insert_full f h t e (omega arith))) (record {
      bounded = omega (
        arith,
        length-append f.known_hashes ((h, t) ∷ []),
        length-drop 1 (f.known_hashes ++ ((h, t) ∷ [])),
      );
      distinct = drop_first-Distinct (f.known_hashes ++ ((h, t) ∷ [])) (snoc-Distinct f h t v e);
    })
  ]
]

-- What the filter holds after a sequence of insertions.
abbrev pub insert_all : KnownHashFilter → List H256 → KnownHashFilter
insert_all f [] = f
insert_all f (h ∷ hs) = insert_all (insert f h block) hs

-- The last 2048 elements.
abbrev pub newest : List H256 → List H256
newest hs = drop (length hs - max_known_hashes_len) hs
