-- ===== src/Sync/HashQueue/Invariant.antt =====
-- `HashQueue`: the deque holds no hash twice, the set holds the same hashes, and every method keeps
-- this.
use rust_randchain_prototype.Prelude.{
  ℕ, zero, suc, ◌≡◌, refl, ap, false, some, List, [], ◌∷◌, ◌++◌, arith, Bool-cases, Option-cases,
  inl, inr, H256, ok, get_last?, drop_last, contains, Distinct, contains-append, Distinct-snoc,
  subst, Distinct-unsnoc, eq-snoc_of_last, ok-injective, >>=-eq-ok, erase, contains-erase,
}
use rust_randchain_prototype.Sync.HashQueue.{
  HashQueue, new, clear, pop_front, pop_front_loop, pop_front_n, pop_back, push_back, push_back_n,
  remove_all,
}

pub record IsValid (q : HashQueue) : Type 0 where
  pub distinct : Distinct q.queue
  pub same : (h : H256) → contains q.set h ≡ contains q.queue h

pub new-IsValid : IsValid new
unfolding new
new-IsValid = record { distinct = tt; same = λ h. refl }

pub clear-IsValid : (q : HashQueue) → IsValid (clear q)
unfolding clear
clear-IsValid q = record { distinct = tt; same = λ h. refl }

-- A deque without its front, beside a set without that hash.
tail-same :
    (x : H256) (xs s : List H256)
    → contains xs x ≡ false
    → ((h : H256) → contains s h ≡ contains (x ∷ xs) h)
    → (h : H256) → contains (erase s x) h ≡ contains xs h
tail-same x xs s n e h = ground (arith, contains-erase s x h, e h)

pub pop_front-IsValid : (q : HashQueue) → IsValid q → IsValid (pop_front q).1
unfolding pop_front
pop_front-IsValid q v = go q.queue q.set v.distinct v.same
  where
    go :
        (xs s : List H256) (d : Distinct xs) (e : (h : H256) → contains s h ≡ contains xs h)
        → IsValid (pop_front (record { queue = xs; set = s })).1
    go [] s d e = record { distinct = d; same = e }
    go (x ∷ xs) s d e = record { distinct = d.1; same = tail-same x xs s d.0 e }

-- What `push_back` makes of a queue that lacks the hash.
abbrev pub snoc : HashQueue → H256 → HashQueue
snoc q h = record { queue = q.queue ++ (h ∷ []); set = h ∷ q.set }

snoc-IsValid :
    (q : HashQueue) (h : H256) → IsValid q → contains q.set h ≡ false → IsValid (snoc q h)
snoc-IsValid q h v n = record {
  distinct = Distinct-snoc q.queue h v.distinct (ground (arith, v.same h));
  same = λ j. ground (arith, v.same j, contains-append q.queue (h ∷ []) j);
}

pub push_back-IsValid :
    (q : HashQueue) (h : H256) {q' : HashQueue} → IsValid q → push_back q h ≡ ok q' → IsValid q'
unfolding push_back
push_back-IsValid q h {q'} v e = elim (Bool-cases (contains q.set h)) [
  | inl old ↦ cc (rw old at e)
  | inr new ↦ subst IsValid (ok-injective (rw new at e)) (snoc-IsValid q h v new)
]

pub push_back_n-IsValid :
    (hashes : List H256) (q : HashQueue) {q' : HashQueue}
    → IsValid q
    → push_back_n q hashes ≡ ok q'
    → IsValid q'
unfolding push_back_n
push_back_n-IsValid [] q v e = subst IsValid (ok-injective e) v
push_back_n-IsValid (h ∷ hashes) q {q'} v e =
    let (q₁, pushed, rest) = >>=-eq-ok (push_back q h) (λ p. push_back_n p hashes) e in
    push_back_n-IsValid hashes q₁ (push_back-IsValid q h v pushed) rest

pop_front_loop-IsValid :
    (n : ℕ) (xs s result : List H256)
    → IsValid (record { queue = xs; set = s })
    → IsValid (pop_front_loop n (record { queue = xs; set = s }) result).1
unfolding pop_front_loop
pop_front_loop-IsValid zero xs s result v = v
pop_front_loop-IsValid (suc n) [] s result v = v
pop_front_loop-IsValid (suc n) (x ∷ xs) s result v =
    pop_front_loop-IsValid n xs (erase s x) (result ++ (x ∷ [])) (pop_front-IsValid _ v)

pub pop_front_n-IsValid : (q : HashQueue) (n : ℕ) → IsValid q → IsValid (pop_front_n q n).1
unfolding pop_front_n
pop_front_n-IsValid q n v = pop_front_loop-IsValid n q.queue q.set [] v

-- A deque without its back, beside a set without that hash.
init-IsValid :
    (q : HashQueue) (xs : List H256) (h : H256)
    → IsValid q
    → q.queue ≡ xs ++ (h ∷ [])
    → IsValid (record { queue = xs; set = erase q.set h })
init-IsValid q xs h v e =
    let (d, n) = Distinct-unsnoc xs h (rw e at v.distinct) in
    record {
      distinct = d;
      same = λ j. ground (
        arith,
        contains-erase q.set h j,
        v.same j,
        ap (λ l. contains l j) e,
        contains-append xs (h ∷ []) j,
      );
    }

pub pop_back-IsValid : (q : HashQueue) → IsValid q → IsValid (pop_back q).1
unfolding pop_back
pop_back-IsValid q v = elim (Option-cases (get_last? q.queue)) [
  | inl e ↦ rw (e, pop_back) v
  | inr (h, e) ↦
      rw (e, pop_back) (init-IsValid q (drop_last q.queue) h v (eq-snoc_of_last q.queue e))
]

pub remove_all-IsValid : (q : HashQueue) → IsValid (remove_all q).1
unfolding remove_all
remove_all-IsValid q = record { distinct = tt; same = λ h. refl }

-- `pop_back` by the back of the deque.
abbrev pub init : HashQueue → H256 → HashQueue
init q h = record { queue = drop_last q.queue; set = erase q.set h }

pub pop_back-some :
    (q : HashQueue) (h : H256) → get_last? q.queue ≡ some h → pop_back q ≡ (some h, init q h)
unfolding pop_back
pop_back-some q h e = rw (e, pop_back)
