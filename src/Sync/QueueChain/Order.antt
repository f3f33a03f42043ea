-- ===== src/Sync/QueueChain/Order.antt =====
-- `HashQueueChain`: the chain read as one sequence, the queues one after the other.
use rust_randchain_prototype.Prelude.{
  ℕ, zero, suc, ◌+◌, ◌-◌, ◌^◌, ◌<◌, ◌≡◌, refl, sym, ap, ◌∙◌, false, none, some, List, [], ◌∷◌, ◌++◌,
  append-nil, append_assoc, arith, if◌then◌else◌, inl, inr, H256, ok, length, length-append,
  get_elem?, get_elem?-append, get_last?, get_last?-append_some, eq-nil_of_last, get_elem?-some,
  take, take_all, Option-cases, add_u32, as_u32, ◌==◌,
}
use rust_randchain_prototype.Sync.HashQueue
use rust_randchain_prototype.Sync.HashQueue.{HashQueue}
use rust_randchain_prototype.Sync.QueueChain.{
  HashQueueChain, len_loop, len, at_loop, at, back_loop, back,
}

-- All hashes, from the front of the first queue to the back of the last.
abbrev pub flat : List HashQueue → List H256
flat [] = []
flat (q ∷ qs) = q.queue ++ flat qs

len_loop-flat :
    (qs : List HashQueue) (total : ℕ)
    → total + length (flat qs) < 2 ^ 32
    → len_loop total qs ≡ total + length (flat qs)
unfolding len_loop HashQueue.len
len_loop-flat [] total fits = omega arith
len_loop-flat (q ∷ qs) total fits =
    let split = length-append q.queue (flat qs) in
    let step : add_u32 total (as_u32 (length q.queue)) ≡ total + length q.queue = omega arith in
    rw step (len_loop-flat qs (total + length q.queue) (omega arith) ∙ omega arith)

at_loop-flat :
    (qs : List HashQueue) (i : ℕ) → length (flat qs) < 2 ^ 32 → at_loop i qs ≡ get_elem? (flat qs) i
unfolding at_loop HashQueue.len HashQueue.at
at_loop-flat [] i fits = refl
at_loop-flat (q ∷ qs) i fits =
    let split = length-append q.queue (flat qs) in
    let whole : as_u32 (length q.queue) ≡ length q.queue = omega arith in
    rw (whole, get_elem?-append q.queue (flat qs) i)
      (ground (arith, at_loop-flat qs (i - length q.queue)))

-- While fewer than 2 ^ 32 hashes are held, `len` counts the hashes of all queues, and `at` reads the
-- queues as one sequence.
pub len-at-flat :
    (c : HashQueueChain) (i : ℕ)
    → length (flat c.chain) < 2 ^ 32
    → (len c ≡ length (flat c.chain)) × (at c i ≡ get_elem? (flat c.chain) i)
unfolding len at
len-at-flat c i fits =
    (len_loop-flat c.chain 0 (omega arith) ∙ omega arith, at_loop-flat c.chain i fits)

flat-take-suc :
    (qs : List HashQueue) (i : ℕ) {q : HashQueue}
    → get_elem? qs i ≡ some q
    → flat (take (suc i) qs) ≡ flat (take i qs) ++ q.queue
flat-take-suc [] i e = cc
flat-take-suc (p ∷ qs) zero e = append-nil p.queue ∙ ground arith
flat-take-suc (p ∷ qs) (suc i) {q} e =
    ap (λ l. p.queue ++ l) (flat-take-suc qs i e)
    ∙ sym (append_assoc p.queue (flat (take i qs)) q.queue)

-- One round of the loop of `back`: at a queue that has a back, and at an empty one.
back_loop_hit :
    (qs : List HashQueue) (i : ℕ) (q : HashQueue) (y : H256)
    → get_elem? qs (suc i) ≡ some q
    → get_last? q.queue ≡ some y
    → back_loop qs (suc i) ≡ ok (some y)
unfolding back_loop HashQueue.back
back_loop_hit qs i q y e f = rw (e, f)

back_loop_miss :
    (qs : List HashQueue) (i : ℕ) (q : HashQueue)
    → get_elem? qs (suc i) ≡ some q
    → get_last? q.queue ≡ none
    → back_loop qs (suc i) ≡ (if i == 0 then ok none else back_loop qs i)
unfolding back_loop HashQueue.back
back_loop_miss qs i q e f = rw (e, f)

suc_test : (i : ℕ) → (suc i == 0) ≡ false
suc_test i = ground arith

-- The loop from index `i + 1` down sees the queues behind the first, up to that index.
back_loop-flat :
    (first : HashQueue) (qs : List HashQueue) (i : ℕ)
    → i < length qs
    → back_loop (first ∷ qs) (suc i) ≡ ok (get_last? (flat (take (suc i) qs)))
back_loop-flat first qs zero h =
    let (q, e) = get_elem?-some qs 0 h in
    elim (Option-cases (get_last? q.queue)) [
      | inr (y, f) ↦
          back_loop_hit (first ∷ qs) 0 q y e f
          ∙ ap ok (sym (ap get_last? (flat-take-suc qs 0 e) ∙ f))
      | inl f ↦
          back_loop_miss (first ∷ qs) 0 q e f
          ∙ ap ok (sym (ap get_last? (flat-take-suc qs 0 e) ∙ f))
    ]
back_loop-flat first qs (suc i) h =
    let (q, e) = get_elem?-some qs (suc i) h in
    elim (Option-cases (get_last? q.queue)) [
      | inr (y, f) ↦
          back_loop_hit (first ∷ qs) (suc i) q y e f
          ∙ ap ok (
              sym (
                ap get_last? (flat-take-suc qs (suc i) e)
                ∙ get_last?-append_some (flat (take (suc i) qs)) q.queue f))
      | inl f ↦
          back_loop_miss (first ∷ qs) (suc i) q e f
          ∙ ap (λ b. if b then ok none else back_loop (first ∷ qs) (suc i)) (suc_test i)
          ∙ back_loop-flat first qs i (omega arith)
          ∙ ap ok (
              ap get_last? (
                sym (
                  flat-take-suc qs (suc i) e
                  ∙ ap (λ l. flat (take (suc i) qs) ++ l) (eq-nil_of_last q.queue f)
                  ∙ append-nil (flat (take (suc i) qs)))))
    ]

-- On a chain of two queues or more `back` answers the last hash of the queues behind the first: it
-- does not look at the first queue, and answers `none` if only that one holds hashes.
pub back-flat :
    (first : HashQueue) (qs : List HashQueue)
    → 0 < length qs
    → back (record { chain = first ∷ qs }) ≡ ok (get_last? (flat qs))
unfolding back
back-flat first [] h = absurd (omega arith)
back-flat first (q ∷ qs) h =
    back_loop-flat first (q ∷ qs) (length qs) (omega arith)
    ∙ ap (λ l. ok (get_last? (flat l))) (take_all (suc (length qs)) (q ∷ qs) (omega arith))
