-- ===== src/Sync/Chain/Forget.antt =====
-- `Chain`: forgetting a hash takes it out of whichever queue holds it, and nothing else.
use rust_randchain_prototype.Prelude.{
  ℕ, ◌^◌, ◌≤◌, ◌≡◌, refl, sym, ap, ◌∙◌, subst, true, false, List, [], ◌++◌, arith, H256, Run, ok,
  ◌>>=◌, length, contains, contains-append, Distinct, Distinct-right, Distinct-apart, erase,
  erase-append, erase_absent, erase-Distinct, contains_of_get_elem?,
}
use rust_randchain_prototype.Sync.HashQueue
use rust_randchain_prototype.Sync.HashQueue.{HashQueue, HashPosition, missing, front, inside}
use rust_randchain_prototype.Sync.HashQueue.Invariant
use rust_randchain_prototype.Sync.HashQueue.Positions.{PositionOf, remove-erase}
use rust_randchain_prototype.Sync.HashQueue.Steps.{erase-IsValid}
use rust_randchain_prototype.Sync.QueueChain
use rust_randchain_prototype.Sync.QueueChain.Order.{flat}
use rust_randchain_prototype.Sync.Chain.{
  Chain, forget_scheduled, forget_requested, forget_block_leave_header,
}
use rust_randchain_prototype.Sync.Chain.Moves.{IsOrdered, three, in_flight}

-- A queue without a hash.
abbrev without : HashQueue → H256 → HashQueue
without q h = record { queue = erase q.queue h; set = erase q.set h }

without_absent :
    (q : HashQueue) (h : H256) → Invariant.IsValid q → contains q.queue h ≡ false → without q h ≡ q
without_absent q h v n =
    ap (λ l. record { queue = l; set = erase q.set h }) (erase_absent q.queue h n)
    ∙ ap (λ l. record { queue = q.queue; set = l }) (erase_absent q.set h (v.same h ∙ n))

-- What is answered for a hash: its place in the first queue that holds it, in the order verifying,
-- requested, scheduled, or `missing`.
pub data Located (v r s : HashQueue) (h : H256) (p : HashPosition) : Type 0 where
  in_verifying : contains v.queue h ≡ true → PositionOf v h p → Located v r s h p
  in_requested :
      contains v.queue h ≡ false → contains r.queue h ≡ true → PositionOf r h p → Located v r s h p
  past_requested :
      contains v.queue h ≡ false → contains r.queue h ≡ false → PositionOf s h p → Located v r s h p

contains_of_missing :
    (q : HashQueue) (h : H256)
    → Invariant.IsValid q
    → PositionOf q h missing
    → contains q.queue h ≡ false
unfolding HashQueue.has
contains_of_missing q h valid at = sym (valid.same h) ∙ at

-- A position other than `missing` is one in the queue.
contains_of_front : (q : HashQueue) (h : H256) → PositionOf q h front → contains q.queue h ≡ true
unfolding HashQueue.front_of
contains_of_front q h at = contains_of_get_elem? q.queue 0 h at

contains_of_inside :
    (q : HashQueue) (h : H256) (i : ℕ) → PositionOf q h (inside i) → contains q.queue h ≡ true
unfolding HashQueue.at
contains_of_inside q h i at = contains_of_get_elem? q.queue i h at.0

-- `remove_at` on each of the three queues.
remove_first :
    (v r s v' : HashQueue) (h : H256) (p : HashPosition)
    → HashQueue.remove v h ≡ ok (p, v')
    → QueueChain.remove_at (three v r s) 0 h ≡ ok (p, three v' r s)
unfolding QueueChain.remove_at
remove_first v r s v' h p e = rw e

remove_second :
    (v r s r' : HashQueue) (h : H256) (p : HashPosition)
    → HashQueue.remove r h ≡ ok (p, r')
    → QueueChain.remove_at (three v r s) 1 h ≡ ok (p, three v r' s)
unfolding QueueChain.remove_at
remove_second v r s r' h p e = rw e

remove_third :
    (v r s s' : HashQueue) (h : H256) (p : HashPosition)
    → HashQueue.remove s h ≡ ok (p, s')
    → QueueChain.remove_at (three v r s) 2 h ≡ ok (p, three v r s')
unfolding QueueChain.remove_at
remove_third v r s s' h p e = rw e

-- Both queues behind one that holds the hash are left as they are.
both_absent :
    (v r s : HashQueue) (h : H256)
    → Invariant.IsValid r
    → Invariant.IsValid s
    → contains (r.queue ++ s.queue) h ≡ false
    → three v r s ≡ three v (without r h) (without s h)
both_absent v r s h ok_r ok_s n =
    let nr : contains r.queue h ≡ false = ground (arith, contains-append r.queue s.queue h) in
    let ns : contains s.queue h ≡ false = ground (arith, contains-append r.queue s.queue h) in
    ap (λ q. three v q s) (sym (without_absent r h ok_r nr))
    ∙ ap (λ q. three v (without r h) q) (sym (without_absent s h ok_s ns))

erase_three :
    (v r s : List H256) (h : H256)
    → erase v h ++ (erase r h ++ (erase s h ++ [])) ≡ erase (v ++ (r ++ (s ++ []))) h
unfolding erase
erase_three v r s h =
    ap (λ l. erase v h ++ (erase r h ++ l)) (sym (erase-append s [] h))
    ∙ ap (λ l. erase v h ++ l) (sym (erase-append r (s ++ []) h))
    ∙ sym (erase-append v (r ++ (s ++ [])) h)

module _ {Pk Int State : Type 0} where
  -- The answer with the hash gone from the queues `v`, `r` and `s`.
  abbrev Forgets :
      Run (HashPosition × Chain Pk Int State)
      → Chain Pk Int State
      → HashQueue
      → HashQueue
      → HashQueue
      → (HashPosition → Type 0)
      → Type 0
  Forgets result c v r s At =
      (p : HashPosition) × (result ≡ ok (p, record c { hash_chain = three v r s })) × At p

  forget_scheduled_lem :
      (c : Chain Pk Int State) (v r s : HashQueue) (h : H256) (p : HashPosition)
      → contains v.queue h ≡ false
      → Invariant.IsValid r
      → Invariant.IsValid s
      → length s.queue ≤ 2 ^ 32
      → (contains r.queue h ≡ true → contains s.queue h ≡ false)
      → PositionOf r h p
      → Forgets
          (forget_scheduled p (three (without v h) (without r h) s) c h)
          c
          (without v h)
          (without r h)
          (without s h)
          (Located v r s h)
  unfolding forget_scheduled
  forget_scheduled_lem c v r s h missing out ok_r ok_s small apart at =
      let (p, e, at_s) = remove-erase s h ok_s small in
      (
        p,
        rw (remove_third (without v h) (without r h) s (without s h) h p e),
        past_requested out (contains_of_missing r h ok_r at) at_s,
      )
  forget_scheduled_lem c v r s h front out ok_r ok_s small apart at =
      let held = contains_of_front r h at in
      (front, rw (without_absent s h ok_s (apart held)), in_requested out held at)
  forget_scheduled_lem c v r s h (inside i) out ok_r ok_s small apart at =
      let held = contains_of_inside r h i at in
      (inside i, rw (without_absent s h ok_s (apart held)), in_requested out held at)

  forget_requested_lem :
      (c : Chain Pk Int State) (v r s : HashQueue) (h : H256) (p : HashPosition)
      → Invariant.IsValid v
      → Invariant.IsValid r
      → Invariant.IsValid s
      → length r.queue ≤ 2 ^ 32
      → length s.queue ≤ 2 ^ 32
      → Distinct (v.queue ++ (r.queue ++ s.queue))
      → PositionOf v h p
      → Forgets
          (forget_requested p (three (without v h) r s) c h)
          c
          (without v h)
          (without r h)
          (without s h)
          (Located v r s h)
  unfolding forget_requested
  forget_requested_lem c v r s h missing ok_v ok_r ok_s small_r small_s d at =
      let (p, e, at') = remove-erase r h ok_r small_r in
      rw (remove_second (without v h) r s (without r h) h p e) (
        forget_scheduled_lem c v r s h p (contains_of_missing v h ok_v at) ok_r ok_s small_s
          (Distinct-apart r.queue s.queue h (Distinct-right v.queue (r.queue ++ s.queue) d)) at')
  forget_requested_lem c v r s h front ok_v ok_r ok_s small_r small_s d at = (
    front,
    ap (λ q. ok (front, record c { hash_chain = q }))
        (both_absent (without v h) r s h ok_r ok_s
          (Distinct-apart v.queue (r.queue ++ s.queue) h d (contains_of_front v h at))),
    in_verifying (contains_of_front v h at) at,
  )
  forget_requested_lem c v r s h (inside i) ok_v ok_r ok_s small_r small_s d at = (
    inside i,
    ap (λ q. ok (inside i, record c { hash_chain = q }))
        (both_absent (without v h) r s h ok_r ok_s
          (Distinct-apart v.queue (r.queue ++ s.queue) h d (contains_of_inside v h i at))),
    in_verifying (contains_of_inside v h i at) at,
  )

  forget_three :
      (c : Chain Pk Int State) (v r s : HashQueue) (h : H256)
      → c.hash_chain ≡ three v r s
      → Invariant.IsValid v
      → Invariant.IsValid r
      → Invariant.IsValid s
      → Distinct (v.queue ++ (r.queue ++ s.queue))
      → (length v.queue ≤ 2 ^ 32) × (length r.queue ≤ 2 ^ 32) × (length s.queue ≤ 2 ^ 32)
      → Forgets
          (forget_block_leave_header c h)
          c
          (without v h)
          (without r h)
          (without s h)
          (Located v r s h)
  unfolding forget_block_leave_header
  forget_three c v r s h shape ok_v ok_r ok_s d (sv, sr, ss) =
      let (p, e, at) = remove-erase v h ok_v sv in
      let (p', e', at') = forget_requested_lem c v r s h p ok_v ok_r ok_s sr ss d at in
      (
        p',
        ap (λ q. QueueChain.remove_at q 0 h >>= λ t. forget_requested t.0 t.1 c h) shape
            ∙ ap (λ m. m >>= λ t. forget_requested t.0 t.1 c h)
                (remove_first v r s (without v h) h p e)
            ∙ e',
        at',
      )

  -- Forgetting a hash never panics while each queue holds at most 2 ^ 32 hashes: each of the three queues is
  -- left without the hash, with its other hashes in their order, and so are the hashes in flight. The
  -- queues stay valid and without a common hash, and the answer is the hash's place in the first queue
  -- that held it.
  pub forget_block_leave_header-in_flight :
      (c : Chain Pk Int State) (h : H256) (o : IsOrdered c.hash_chain)
      → (length o.verifying.queue ≤ 2 ^ 32)
        × (length o.requested.queue ≤ 2 ^ 32)
        × (length o.scheduled.queue ≤ 2 ^ 32)
      → (p : HashPosition) × (c' : Chain Pk Int State) × (forget_block_leave_header c h
          ≡ ok (p, c'))
        × Located o.verifying o.requested o.scheduled h p
        × (in_flight c' ≡ erase (in_flight c) h)
        × (o' : IsOrdered c'.hash_chain) × (o'.verifying.queue ≡ erase o.verifying.queue h)
        × (o'.requested.queue ≡ erase o.requested.queue h)
        × (o'.scheduled.queue ≡ erase o.scheduled.queue h)
        × (c'.headers_chain ≡ c.headers_chain)
  forget_block_leave_header-in_flight c h o small =
      let v = o.verifying in
      let r = o.requested in
      let s = o.scheduled in
      let (p, e, located) =
        forget_three c v r s h o.shape o.verifying_valid o.requested_valid o.scheduled_valid
          o.distinct small in
      (
        p,
        record c { hash_chain = three (without v h) (without r h) (without s h) },
        e,
        located,
        erase_three v.queue r.queue s.queue h ∙ ap (λ q. erase (flat q.chain) h) (sym o.shape),
        record {
          verifying = without v h;
          requested = without r h;
          scheduled = without s h;
          shape = refl;
          verifying_valid = erase-IsValid v h o.verifying_valid;
          requested_valid = erase-IsValid r h o.requested_valid;
          scheduled_valid = erase-IsValid s h o.scheduled_valid;
          distinct =
              subst Distinct
                (erase-append v.queue (r.queue ++ s.queue) h
                  ∙ ap (λ l. erase v.queue h ++ l) (erase-append r.queue s.queue h))
                (erase-Distinct (v.queue ++ (r.queue ++ s.queue)) h o.distinct);
        },
        refl,
        refl,
        refl,
        refl,
      )
