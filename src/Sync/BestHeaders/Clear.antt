-- ===== src/Sync/BestHeaders/Clear.antt =====
-- `BestHeadersChain`: `clear_after` cuts the chain at a place.
use rust_randchain_prototype.Prelude.{
  ℕ, zero, suc, ◌+◌, ◌^◌, ◌≤◌, ◌<◌, ◌≡◌, refl, sym, ap, ◌∙◌, subst, false, Option, none, some, [],
  ◌∷◌, arith, ltb, ◌==◌, if◌then◌else◌, ==_iff, is_some, Option-cases, inl, inr, H256, ok, panic,
  contains, Distinct, length, length-append, take, take-left, take_all, get_last?, drop_last,
  eq-snoc_of_last, eq-nil_of_last, erase, contains-erase, Distinct-unsnoc, contains-append, dec_lt,
}
use rust_randchain_prototype.Prelude.HashMap
use rust_randchain_prototype.Prelude.HashMap.{get-remove}
use rust_randchain_prototype.Blocks.{IndexedBlockHeader}
use rust_randchain_prototype.Sync.HashQueue
use rust_randchain_prototype.Sync.HashQueue.{HashQueue, HashPosition, missing, front, inside}
use rust_randchain_prototype.Sync.HashQueue.Invariant
use rust_randchain_prototype.Sync.HashQueue.Invariant.{init, pop_back-some}
use rust_randchain_prototype.Sync.HashQueue.Steps.{erase-IsValid}
use rust_randchain_prototype.Sync.BestHeaders.{BestHeadersChain, clear_after_loop}
use rust_randchain_prototype.Sync.BestHeaders.Linked.{IsValid}

-- The last hash of a valid queue is none of those before it.
pub last-contains :
    (q : HashQueue) (h j : H256)
    → Invariant.IsValid q
    → get_last? q.queue ≡ some h
    → contains (drop_last q.queue) j ≡ (if h == j then false else contains q.queue j)
last-contains q h j v e =
    let whole = eq-snoc_of_last q.queue e in
    let (d, n) = Distinct-unsnoc (drop_last q.queue) h (subst Distinct whole v.distinct) in
    ground (
      arith,
      n,
      ap (λ l. contains l j) whole,
      contains-append (drop_last q.queue) (h ∷ []) j,
      ap (contains (drop_last q.queue)),
      ==_iff h j,
    )

-- The invariant without the links.
pub record IsIndexed {Pk Int : Type 0} (c : BestHeadersChain Pk Int) : Type 0 where
  pub queue : Invariant.IsValid c.best
  pub known : (h : H256) → is_some (HashMap.get c.headers h) ≡ contains c.best.queue h
  pub indexed :
      (h : H256) (x : IndexedBlockHeader Pk Int) → HashMap.get c.headers h ≡ some x → x.hash ≡ h

module _ {Pk Int : Type 0} where
  -- Every header that `c'` knows is the one that `c` knows under the hash.
  abbrev pub Within : BestHeadersChain Pk Int → BestHeadersChain Pk Int → Type 0
  Within c' c =
      (h : H256) (x : IndexedBlockHeader Pk Int)
      → HashMap.get c'.headers h ≡ some x
      → HashMap.get c.headers h ≡ some x

  -- A hash leaves the map and the queue.
  abbrev pub without : BestHeadersChain Pk Int → H256 → HashQueue → BestHeadersChain Pk Int
  without c h best' = record c { headers = HashMap.remove c.headers h; best = best' }

  pub without-Within :
      (c : BestHeadersChain Pk Int) (h : H256) (q : HashQueue) → Within (without c h q) c
  without-Within c h q j x e = ground (arith, get-remove c.headers h j)

  pub without-IsIndexed :
      (c : BestHeadersChain Pk Int) (h : H256) (q : HashQueue)
      → IsIndexed c
      → Invariant.IsValid q
      → ((j : H256) → contains q.queue j ≡ (if h == j then false else contains c.best.queue j))
      → IsIndexed (without c h q)
  without-IsIndexed c h q v w e = record {
    queue = w;
    known = λ j. ground (arith, get-remove c.headers h j, v.known j, e j);
    indexed = λ j x g. v.indexed j x (without-Within c h q j x g);
  }

  -- A round of the loop, and its end.
  pub clear_after_loop_stop :
      (fuel : ℕ) (c : BestHeadersChain Pk Int) (p : ℕ)
      → length c.best.queue < 2 ^ 32
      → length c.best.queue ≤ p
      → clear_after_loop (suc fuel) c p ≡ ok c
  unfolding clear_after_loop HashQueue.len
  clear_after_loop_stop fuel c p small h = ground arith

  pub clear_after_loop_round :
      (fuel : ℕ) (c : BestHeadersChain Pk Int) (p : ℕ) (h : H256)
      → length c.best.queue < 2 ^ 32
      → p < length c.best.queue
      → get_last? c.best.queue ≡ some h
      → clear_after_loop (suc fuel) c p ≡ clear_after_loop fuel (without c h (init c.best h)) p
  unfolding clear_after_loop HashQueue.len
  clear_after_loop_round fuel c p h small more e =
      ap
        (λ (t : Option H256 × HashQueue).
          if ltb p (HashQueue.len c.best)
          then (elim t.0 [ none ↦ panic | some h ↦ clear_after_loop fuel (without c h t.1) p ])
          else ok c)
        (pop_back-some c.best h e)
      ∙ ground arith

  -- With fuel for every hash past the position the loop ends, and leaves the first `p` hashes.
  pub clear_after_loop-take :
      (fuel : ℕ) (c : BestHeadersChain Pk Int) (p : ℕ)
      → IsIndexed c
      → length c.best.queue < 2 ^ 32
      → length c.best.queue ≤ fuel + p
      → (c' : BestHeadersChain Pk Int) × (clear_after_loop fuel c p ≡ ok c')
        × (c'.best.queue ≡ take p c.best.queue)
        × IsIndexed c'
        × Within c' c
  clear_after_loop-take zero c p v small fuel = (
    c,
    unfold clear_after_loop in refl,
    sym (take_all p c.best.queue (omega arith)),
    v,
    λ h x e. e,
  )
  clear_after_loop-take (suc fuel) c p v small enough = elim (dec_lt p (length c.best.queue)) [
    | no stop ↦ (
      c,
      clear_after_loop_stop fuel c p small (omega arith),
      sym (take_all p c.best.queue (omega arith)),
      v,
      λ h x e. e,
    )
    | yes more ↦ elim (Option-cases (get_last? c.best.queue)) [
      | inl e ↦ absurd (omega (arith, ap length (eq-nil_of_last c.best.queue e)))
      | inr (h, e) ↦
          let whole = eq-snoc_of_last c.best.queue e in
          let count = ap length whole ∙ length-append (drop_last c.best.queue) (h ∷ []) in
          let (c', r, q, v', w) =
            clear_after_loop-take fuel (without c h (init c.best h)) p
              (without-IsIndexed c h (init c.best h) v
                (subst Invariant.IsValid (ap (λ t. t.1) (pop_back-some c.best h e))
                  (Invariant.pop_back-IsValid c.best v.queue))
                (λ j. last-contains c.best h j v.queue e))
              (omega arith) (omega arith) in
          (
            c',
            clear_after_loop_round fuel c p h small more e ∙ r,
            q
                ∙ sym (
                    ap (take p) whole
                    ∙ take-left (drop_last c.best.queue) (h ∷ []) p (omega arith)),
            v',
            λ j x g. without-Within c h (init c.best h) j x (w j x g),
          )
    ]
  ]

  -- The queue and the map after the first half of `remove`.
  abbrev pub erased : BestHeadersChain Pk Int → H256 → BestHeadersChain Pk Int
  erased c h = without c h (record { queue = erase c.best.queue h; set = erase c.best.set h })

  pub erased-IsIndexed :
      (c : BestHeadersChain Pk Int) (h : H256) → IsValid c → IsIndexed (erased c h)
  erased-IsIndexed c h v =
      without-IsIndexed c h (record { queue = erase c.best.queue h; set = erase c.best.set h })
        (record { queue = v.queue; known = v.known; indexed = v.indexed })
        (erase-IsValid c.best h v.queue) (λ j. ground (arith, contains-erase c.best.queue h j))
