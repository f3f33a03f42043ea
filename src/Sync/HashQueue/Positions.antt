-- ===== src/Sync/HashQueue/Positions.antt =====
-- `HashQueue`: where an element stands, and what `remove` and the pops take.
use rust_randchain_prototype.Prelude.{
  ℕ, zero, suc, ◌+◌, ◌^◌, ◌≤◌, ◌<◌, ◌≡◌, refl, ap, ◌∙◌, true, false, none, some, List, [], ◌∷◌,
  ◌++◌, append_assoc, append-nil, arith, ◌==◌, Bool-cases, inl, inr, as_u32, is_some, H256, ok, ◌-◌,
  sym, take-append-drop, length-drop, ==_iff, length, get_elem?, take, drop, contains, Distinct,
  erase, erase_absent,
}
use rust_randchain_prototype.Sync.HashQueue.{
  HashQueue, HashPosition, missing, front, inside, has, at, front_of, front_n, position_from,
  position, pop_front_loop, pop_front_n, remove_loop, remove,
}
use rust_randchain_prototype.Sync.HashQueue.Invariant.{IsValid}

-- The search from count `i` finds the first index `k` with the hash, and answers `i + k`.
position_from_found :
    (xs : List H256) (i : ℕ) (h : H256)
    → contains xs h ≡ true
    → (k : ℕ) × (position_from i xs h ≡ some (as_u32 (i + k)))
      × (get_elem? xs k ≡ some h)
      × (k < length xs)
unfolding position_from
position_from_found [] i h c = cc
position_from_found (x ∷ xs) i h c = elim (Bool-cases (h == x)) [
  | inl e ↦ (0, rw e (ap (λ k. some (as_u32 k)) (omega arith)), ground arith, omega arith)
  | inr e ↦
      let (k, p, g, l) = position_from_found xs (i + 1) h (ground arith) in
      (suc k, rw e (p ∙ ap (λ k. some (as_u32 k)) (omega arith)), g, omega arith)
]

position_from-none :
    (xs : List H256) (i : ℕ) (h : H256) → contains xs h ≡ false → position_from i xs h ≡ none
unfolding position_from
position_from-none [] i h c = refl
position_from-none (x ∷ xs) i h c = ground (arith, position_from-none xs (i + 1) h)

-- In a valid queue of at most 2 ^ 32 hashes `position` answers exactly for the hashes that
-- `contains` reports, and `at` the answer stands the hash.
pub position-at :
    (q : HashQueue) (h : H256)
    → IsValid q
    → length q.queue ≤ 2 ^ 32
    → (is_some (position q h) ≡ has q h) × ((i : ℕ) → position q h ≡ some i → at q i ≡ some h)
unfolding position has at
position-at q h v fits = elim (Bool-cases (contains q.queue h)) [
  | inl c ↦
      let (k, p, g, l) = position_from_found q.queue 0 h c in
      (ground (arith, v.same h), λ i e. ground arith)
  | inr c ↦ (
    ground (arith, v.same h, position_from-none q.queue 0 h c),
    λ i e. ground (arith, position_from-none q.queue 0 h c),
  )
]

-- What the set keeps when the hashes `xs` are taken out one by one.
abbrev pub erase_all : List H256 → List H256 → List H256
erase_all s [] = s
erase_all s (x ∷ xs) = erase_all (erase s x) xs

pop_front_loop-take :
    (n : ℕ) (xs s result : List H256)
    → pop_front_loop n (record { queue = xs; set = s }) result
      ≡ (result ++ take n xs, record { queue = drop n xs; set = erase_all s (take n xs) })
unfolding pop_front_loop
pop_front_loop-take zero xs s result = rw append-nil
pop_front_loop-take (suc n) [] s result = rw append-nil
pop_front_loop-take (suc n) (x ∷ xs) s result =
    pop_front_loop-take n xs (erase s x) (result ++ (x ∷ [])) ∙ rw append_assoc

-- `pop_front_n` returns what `front_n` shows, in the same order, and leaves the rest of the deque in
-- its order; if fewer than `n` hashes are there, it takes them all.
pub pop_front_n-front_n :
    (q : HashQueue) (n : ℕ)
    → ((pop_front_n q n).0 ≡ front_n q n)
      × (front_n q n ++ (pop_front_n q n).1.queue ≡ q.queue)
      × (length (pop_front_n q n).1.queue ≡ length q.queue - n)
unfolding pop_front_n front_n
pop_front_n-front_n q n =
    rw (pop_front_loop-take n q.queue q.set [])
      (refl, take-append-drop n q.queue, length-drop n q.queue)

remove_loop_found :
    (xs : List H256) (i : ℕ) (h : H256)
    → Distinct xs
    → contains xs h ≡ true
    → (k : ℕ) × (remove_loop i xs h ≡ ok (i + k, erase xs h))
      × (get_elem? xs k ≡ some h)
      × (k < length xs)
unfolding remove_loop erase
remove_loop_found [] i h d c = cc
remove_loop_found (x ∷ xs) i h d c = elim (Bool-cases (x == h)) [
  | inl e ↦ (
    0,
    ground (arith, erase_absent xs h, ap (contains xs) ((==_iff x h).0 e)),
    ground arith,
    omega arith,
  )
  | inr e ↦
      let (k, r, g, l) = remove_loop_found xs (i + 1) h d.1 (ground arith) in
      (suc k, ground arith, g, omega arith)
]

-- What `remove` says of the hash's place in the queue that it was in.
abbrev pub PositionOf : HashQueue → H256 → HashPosition → Type 0
PositionOf q h missing = has q h ≡ false
PositionOf q h front = front_of q ≡ some h
PositionOf q h (inside i) = (at q i ≡ some h) × (0 < i)

inner_pos :
    (x : H256) (xs : List H256) (h : H256) (k : ℕ)
    → (x == h) ≡ false
    → get_elem? (x ∷ xs) k ≡ some h
    → 0 < k
inner_pos x xs h zero e g = ground arith
inner_pos x xs h (suc k) e g = omega arith

-- The two branches of `remove` on a deque that holds the hash.
remove_found :
    (xs s : List H256) (h : H256)
    → Distinct xs
    → contains xs h ≡ true
    → contains s h ≡ true
    → length xs ≤ 2 ^ 32
    → (p : HashPosition) × (remove (record { queue = xs; set = s }) h
        ≡ ok (p, record { queue = erase xs h; set = erase s h }))
      × PositionOf (record { queue = xs; set = s }) h p
unfolding remove has front_of at erase
remove_found [] s h d m c fits = cc
remove_found (x ∷ xs) s h d m c fits = elim (Bool-cases (x == h)) [
  | inl e ↦
      (front, ground (arith, erase_absent xs h, ap (contains xs) ((==_iff x h).0 e)), ground arith)
  | inr e ↦
      let (k, r, g, l) = remove_loop_found (x ∷ xs) 0 h d m in
      let small : as_u32 k ≡ k = omega arith in
      (inside (as_u32 k), ground arith, (rw small g, rw small (inner_pos x xs h k e g)))
]

-- In a valid queue of at most 2 ^ 32 hashes `remove` never panics: it takes the hash, if it is there,
-- out of the deque and the set, leaves the other hashes in their order, and says where it stood.
pub remove-erase :
    (q : HashQueue) (h : H256)
    → IsValid q
    → length q.queue ≤ 2 ^ 32
    → (p : HashPosition) × (remove q h
        ≡ ok (p, record { queue = erase q.queue h; set = erase q.set h }))
      × PositionOf q h p
unfolding remove has
remove-erase q h v fits = elim (Bool-cases (contains q.set h)) [
  | inl c ↦ remove_found q.queue q.set h v.distinct (sym (v.same h) ∙ c) c fits
  | inr c ↦
      (missing, rw (c, erase_absent q.set h c, erase_absent q.queue h (sym (v.same h) ∙ c)), c)
]

pub pop_front_n-take :
    (q : HashQueue) (n : ℕ)
    → pop_front_n q n
      ≡ (take n q.queue, record { queue = drop n q.queue; set = erase_all q.set (take n q.queue) })
unfolding pop_front_n
pop_front_n-take q n = pop_front_loop-take n q.queue q.set []
