-- ===== src/Sync/HashQueue/Steps.antt =====
-- `HashQueue`: any sequence of its methods, from the empty queue on.
use rust_randchain_prototype.Prelude.{
  ℕ, ◌+◌, ◌≡◌, ◌∙◌, sym, ap, List, [], ◌∷◌, H256, Run, ok, arith, Bool-cases, inl, inr,
  ok-injective, contains, subst, erase, erase-Distinct, contains-erase, ◌==◌, >>=-eq-ok, Distinct,
  as_u32, erase_absent, ==_iff,
}
use rust_randchain_prototype.Sync.HashQueue.{
  HashQueue, HashPosition, new, clear, pop_front, pop_front_n, pop_back, push_back, push_back_n,
  remove, remove_present, remove_loop, inside, remove_all,
}
use rust_randchain_prototype.Sync.HashQueue.Invariant.{
  IsValid, new-IsValid, clear-IsValid, pop_front-IsValid, pop_front_n-IsValid, pop_back-IsValid,
  push_back-IsValid, push_back_n-IsValid, remove_all-IsValid,
}

-- One call of a method that changes the queue and does not panic.
pub data Step : HashQueue → HashQueue → Type 0 where
  clears : (q : HashQueue) → Step q (clear q)
  pops_front : (q : HashQueue) → Step q (pop_front q).1
  pops_front_n : (q : HashQueue) (n : ℕ) → Step q (pop_front_n q n).1
  pops_back : (q : HashQueue) → Step q (pop_back q).1
  pushes_back : (q q' : HashQueue) (h : H256) → push_back q h ≡ ok q' → Step q q'
  pushes_back_n : (q q' : HashQueue) (hs : List H256) → push_back_n q hs ≡ ok q' → Step q q'
  removes : (q q' : HashQueue) (h : H256) (p : HashPosition) → remove q h ≡ ok (p, q') → Step q q'
  removes_all : (q : HashQueue) → Step q (remove_all q).1

pub data QueueReach (q : HashQueue) : HashQueue → Type 0 where
  here : QueueReach q q
  next : {r s : HashQueue} → QueueReach q r → Step r s → QueueReach q s

-- The deque after the loop of `remove`, at any count.
remove_loop_eq :
    (xs : List H256) (i j : ℕ) (h : H256) (rest : List H256)
    → Distinct xs
    → remove_loop i xs h ≡ ok (j, rest)
    → rest ≡ erase xs h
unfolding remove_loop erase
remove_loop_eq [] i j h rest d e = cc
remove_loop_eq (x ∷ xs) i j h rest d e = elim (Bool-cases (x == h)) [
  | inl hit ↦ ground (arith, erase_absent xs h, ap (contains xs) ((==_iff x h).0 hit))
  | inr miss ↦
      let ((j', rest'), r, e') =
        >>=-eq-ok (remove_loop (i + 1) xs h) (λ found. ok (found.0, x ∷ found.1)) (rw miss at e) in
      ground (arith, remove_loop_eq xs (i + 1) j' h rest' d.1 r)
]

pub erase-IsValid :
    (q : HashQueue) (h : H256)
    → IsValid q
    → IsValid (record { queue = erase q.queue h; set = erase q.set h })
erase-IsValid q h v = record {
  distinct = erase-Distinct q.queue h v.distinct;
  same = λ j. ground (arith, contains-erase q.queue h j, contains-erase q.set h j, v.same j);
}

ok_pair :
    {a b : HashPosition} {q r : HashQueue}
    → ◌≡◌ {A = Run (HashPosition × HashQueue)} (ok (a, q)) (ok (b, r))
    → r ≡ q
ok_pair e = sym (ap (λ t. t.1) (ok-injective e))

remove_eq_found :
    (xs s : List H256) (h : H256) (p : HashPosition) (q' : HashQueue)
    → Distinct xs
    → remove_present xs s h ≡ ok (p, q')
    → q' ≡ record { queue = erase xs h; set = erase s h }
unfolding remove_present erase
remove_eq_found [] s h p q' d e = cc
remove_eq_found (x ∷ xs) s h p q' d e = elim (Bool-cases (x == h)) [
  | inl hit ↦
      ok_pair (rw hit at e)
      ∙ ground (arith, erase_absent xs h, ap (contains xs) ((==_iff x h).0 hit))
  | inr miss ↦
      let ((i, rest), r, e') =
        >>=-eq-ok (remove_loop 0 (x ∷ xs) h)
          (λ found. ok (inside (as_u32 found.0), record { queue = found.1; set = erase s h }))
          (rw miss at e) in
      ok_pair e'
      ∙ ap (λ l. record { queue = l; set = erase s h }) (remove_loop_eq (x ∷ xs) 0 i h rest d r)
]

-- Whatever `remove` answers, the hash is gone from the deque and from the set.
remove_eq :
    (xs s : List H256) (h : H256) (p : HashPosition) (q' : HashQueue)
    → Distinct xs
    → contains s h ≡ contains xs h
    → remove (record { queue = xs; set = s }) h ≡ ok (p, q')
    → q' ≡ record { queue = erase xs h; set = erase s h }
unfolding remove
remove_eq xs s h p q' d m e = elim (Bool-cases (contains s h)) [
  | inr c ↦ rw (erase_absent s h c, erase_absent xs h (sym m ∙ c)) (ok_pair (rw c at e))
  | inl c ↦ remove_eq_found xs s h p q' d (rw c at e)
]

Step-IsValid : {q r : HashQueue} → Step q r → IsValid q → IsValid r
Step-IsValid (clears q) v = clear-IsValid q
Step-IsValid (pops_front q) v = pop_front-IsValid q v
Step-IsValid (pops_front_n q n) v = pop_front_n-IsValid q n v
Step-IsValid (pops_back q) v = pop_back-IsValid q v
Step-IsValid (pushes_back q q' h e) v = push_back-IsValid q h v e
Step-IsValid (pushes_back_n q q' hs e) v = push_back_n-IsValid hs q v e
Step-IsValid (removes q q' h p e) v =
    subst IsValid (sym (remove_eq q.queue q.set h p q' v.distinct (v.same h) e))
      (erase-IsValid q h v)
Step-IsValid (removes_all q) v = remove_all-IsValid q

-- Every queue that the methods make out of the empty one holds no hash twice, and its set and its
-- deque hold the same hashes.
pub QueueReach-IsValid : {q : HashQueue} → QueueReach new q → IsValid q
QueueReach-IsValid here = new-IsValid
QueueReach-IsValid (next r st) = Step-IsValid st (QueueReach-IsValid r)
