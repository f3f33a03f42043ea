-- ===== src/Sync/KnownHashFilter/Newest.antt =====
-- `KnownHashFilter`: a run of insertions, and the blocks that the filter then lets through.
use rust_randchain_prototype.Prelude.{
  suc, ◌-◌, ◌≡◌, refl, sym, ap, ◌∙◌, subst, true, false, not, Option, none, some, List, [], ◌∷◌,
  ◌++◌, append_assoc, append-nil, arith, H256, length, length-append, drop, drop-drop, drop-append,
  length-drop, is_some, Distinct, Distinct-middle, Distinct-right, take, take-append-drop, dec_lt,
  contains,
}
use rust_randchain_prototype.Prelude.HashMap
use rust_randchain_prototype.Prelude.HashMap.{keys, contains-keys}
use rust_randchain_prototype.Sync.KnownHashFilter
use rust_randchain_prototype.Sync.KnownHashFilter.{
  KnownHashType, block, max_known_hashes_len, default, insert, filter_block, same_type,
}
use rust_randchain_prototype.Sync.KnownHashFilter.Bounds.{
  IsValid, insert-IsValid, insert_room, insert_full, insert_all, newest, keys-snoc, default-IsValid,
}

keys-drop_first : {V : Type 0} (m : List (H256 × V)) → keys (drop 1 m) ≡ drop 1 (keys m)
keys-drop_first [] = refl
keys-drop_first ((k, w) ∷ m) = refl

length-keys : {V : Type 0} (m : List (H256 × V)) → length (keys m) ≡ length m
length-keys [] = refl
length-keys ((k, w) ∷ m) = ap suc (length-keys m)

-- One insertion of a new hash.
insert-newest :
    (f : KnownHashFilter.KnownHashFilter) (h : H256)
    → IsValid f
    → contains (keys f.known_hashes) h ≡ false
    → keys (insert f h block).known_hashes ≡ newest (keys f.known_hashes ++ (h ∷ []))
insert-newest f h v n =
    let e = sym (contains-keys f.known_hashes h) ∙ n in
    let count = length-keys f.known_hashes in
    let total = length-append (keys f.known_hashes) (h ∷ []) in
    elim (dec_lt (length f.known_hashes) max_known_hashes_len) [
      | yes l ↦
          let none_over : length (keys f.known_hashes ++ (h ∷ [])) - max_known_hashes_len ≡ 0 =
            omega arith in
          ap (λ g. keys g.known_hashes) (insert_room f h block e l)
          ∙ keys-snoc f.known_hashes h block
          ∙ sym (ap (λ k. drop k (keys f.known_hashes ++ (h ∷ []))) none_over)
      | no l ↦
          let one_over : length (keys f.known_hashes ++ (h ∷ [])) - max_known_hashes_len ≡ 1 =
            omega (arith, v.bounded) in
          ap (λ g. keys g.known_hashes) (insert_full f h block e (omega (arith, v.bounded)))
          ∙ keys-drop_first (f.known_hashes ++ ((h, block) ∷ []))
          ∙ ap (drop 1) (keys-snoc f.known_hashes h block)
          ∙ sym (ap (λ k. drop k (keys f.known_hashes ++ (h ∷ []))) one_over)
    ]

-- Older hashes that are forgotten already do not matter to what is newest.
newest-newest : (xs ys : List H256) → newest (newest xs ++ ys) ≡ newest (xs ++ ys)
newest-newest xs ys =
    let k = length xs - max_known_hashes_len in
    let joined : newest xs ++ ys ≡ drop k (xs ++ ys) = sym (drop-append k xs ys (omega arith)) in
    let total = length-append xs ys in
    let rest = length-drop k (xs ++ ys) in
    ap newest joined
    ∙ drop-drop (length (drop k (xs ++ ys)) - max_known_hashes_len) k (xs ++ ys)
    ∙ ap (λ n. drop n (xs ++ ys)) (omega arith)

Distinct-newest : (xs ys : List H256) → Distinct (xs ++ ys) → Distinct (newest xs ++ ys)
Distinct-newest xs ys d =
    let k = length xs - max_known_hashes_len in
    Distinct-right (take k xs) (newest xs ++ ys) (
      subst Distinct
        (sym (
          sym (append_assoc (take k xs) (newest xs) ys)
          ∙ ap (λ l. l ++ ys) (take-append-drop k xs)))
        d)

insert_all-newest :
    (hs : List H256) (f : KnownHashFilter.KnownHashFilter)
    → IsValid f
    → Distinct (keys f.known_hashes ++ hs)
    → keys (insert_all f hs).known_hashes ≡ newest (keys f.known_hashes ++ hs)
insert_all-newest [] f v d =
    let fits : length (keys f.known_hashes ++ []) - max_known_hashes_len ≡ 0 =
      omega
        (arith, length-append (keys f.known_hashes) [], length-keys f.known_hashes, v.bounded) in
    sym (ap (λ k. drop k (keys f.known_hashes ++ [])) fits ∙ append-nil (keys f.known_hashes))
insert_all-newest (h ∷ hs) f v d =
    let K = keys f.known_hashes in
    let one = insert-newest f h v (Distinct-middle K h hs d) in
    let whole = append_assoc K (h ∷ []) hs in
    insert_all-newest hs (insert f h block) (insert-IsValid f h block v) (
      subst (λ l. Distinct (l ++ hs)) (sym one)
        (Distinct-newest (K ++ (h ∷ [])) hs (subst Distinct (sym whole) d)))
    ∙ ap (λ l. newest (l ++ hs)) one
    ∙ newest-newest (K ++ (h ∷ [])) hs
    ∙ ap newest whole

filter_block-keys :
    (f : KnownHashFilter.KnownHashFilter) (h : H256)
    → filter_block f h ≡ not (contains (keys f.known_hashes) h)
unfolding filter_block
filter_block-keys f h = rw (contains-keys f.known_hashes h) (go (HashMap.get f.known_hashes h))
  where
    go :
        (o : Option KnownHashType)
        → elim o [ none ↦ true | some stored ↦ not (same_type stored block) ] ≡ not (is_some o)
    go none = refl
    go (some block) = refl

-- After any sequence of insertions of different hashes into an empty filter, `filter_block` holds back
-- exactly the blocks whose hash is among the newest 2048.
pub filter_block-newest :
    (hs : List H256) (h : H256)
    → Distinct hs
    → filter_block (insert_all default hs) h ≡ not (contains (newest hs) h)
filter_block-newest hs h d =
    filter_block-keys (insert_all default hs) h
    ∙ ap (λ l. not (contains l h))
        (unfold default in (insert_all-newest hs default default-IsValid d))
