-- ===== src/Sync/Chain/Moves.antt =====
-- `Chain`: hashes move from queue to queue without changing their order.
use rust_randchain_prototype.Prelude.{
  ℕ, ◌≡◌, refl, sym, ap, ◌∙◌, subst, List, [], ◌∷◌, ◌++◌, append-nil, append_assoc, H256, ok, take,
  drop, take-append-drop, Distinct, Distinct-left, Distinct-right,
}
use rust_randchain_prototype.Sync.HashQueue
use rust_randchain_prototype.Sync.HashQueue.{HashQueue}
use rust_randchain_prototype.Sync.HashQueue.Invariant
use rust_randchain_prototype.Sync.HashQueue.Invariant.{pop_front_n-IsValid, push_back_n-IsValid}
use rust_randchain_prototype.Sync.HashQueue.Positions.{pop_front_n-take}
use rust_randchain_prototype.Sync.HashQueue.Pushes.{push_back_n-append}
use rust_randchain_prototype.Sync.QueueChain
use rust_randchain_prototype.Sync.QueueChain.{HashQueueChain}
use rust_randchain_prototype.Sync.QueueChain.Order.{flat}
use rust_randchain_prototype.Sync.Chain.{Chain, request_blocks_hashes}

-- Three valid queues that share no hash: verifying, requested and scheduled.
pub record IsOrdered (queues : HashQueueChain) : Type 0 where
  pub verifying : HashQueue
  pub requested : HashQueue
  pub scheduled : HashQueue
  pub shape : queues ≡ record { chain = verifying ∷ requested ∷ scheduled ∷ [] }
  pub verifying_valid : Invariant.IsValid verifying
  pub requested_valid : Invariant.IsValid requested
  pub scheduled_valid : Invariant.IsValid scheduled
  pub distinct : Distinct (verifying.queue ++ (requested.queue ++ scheduled.queue))

-- The three queues in a row.
abbrev pub three : HashQueue → HashQueue → HashQueue → HashQueueChain
three v r s = record { chain = v ∷ r ∷ s ∷ [] }

-- The hashes in flight, oldest first.
abbrev pub in_flight : {Pk Int State : Type 0} → Chain Pk Int State → List H256
in_flight c = flat c.hash_chain.chain

moved_order : (r s : List H256) (n : ℕ) → (r ++ take n s) ++ drop n s ≡ r ++ s
moved_order r s n = append_assoc r (take n s) (drop n s) ∙ ap (λ l. r ++ l) (take-append-drop n s)

tail_order :
    (r' s' r s : HashQueue)
    → r'.queue ++ s'.queue ≡ r.queue ++ s.queue
    → r'.queue ++ (s'.queue ++ []) ≡ r.queue ++ (s.queue ++ [])
tail_order r' s' r s e =
    ap (λ l. r'.queue ++ l) (append-nil s'.queue)
    ∙ e
    ∙ sym (ap (λ l. r.queue ++ l) (append-nil s.queue))

pop_scheduled :
    (v r s : HashQueue) (n : ℕ)
    → QueueChain.pop_front_n_at (three v r s) 2 n
      ≡ ok (take n s.queue, three v r (HashQueue.pop_front_n s n).1)
unfolding QueueChain.pop_front_n_at
pop_scheduled v r s n =
    ap (λ t. ok (t, three v r (HashQueue.pop_front_n s n).1)) (ap (λ t. t.0) (pop_front_n-take s n))

push_requested :
    (v r s r' : HashQueue) (xs : List H256)
    → HashQueue.push_back_n r xs ≡ ok r'
    → QueueChain.push_back_n_at (three v r s) 1 xs ≡ ok (three v r' s)
unfolding QueueChain.push_back_n_at
push_requested v r s r' xs p = rw p

module _ {Pk Int State : Type 0} where
  request_three :
      (c : Chain Pk Int State) (v r s r' : HashQueue) (n : ℕ)
      → c.hash_chain ≡ three v r s
      → HashQueue.push_back_n r (take n s.queue) ≡ ok r'
      → request_blocks_hashes c n
        ≡ ok (take n s.queue, record c { hash_chain = three v r' (HashQueue.pop_front_n s n).1 })
  unfolding request_blocks_hashes
  request_three c v r s r' n e p =
      let s' = (HashQueue.pop_front_n s n).1 in
      rw (e, pop_scheduled v r s n, push_requested v r s' r' (take n s.queue) p)

  -- Requesting never panics. It answers the oldest `n` scheduled hashes: they leave the scheduled queue and
  -- stand behind the requested ones, the hashes under verification stay, and so does the order of all
  -- hashes in flight; the three queues stay valid and without a common hash.
  pub request_blocks_hashes-in_flight :
      (c : Chain Pk Int State) (n : ℕ) (o : IsOrdered c.hash_chain)
      → (c' : Chain Pk Int State) × (request_blocks_hashes c n ≡ ok (take n o.scheduled.queue, c'))
        × (in_flight c' ≡ in_flight c)
        × (o' : IsOrdered c'.hash_chain) × (o'.verifying ≡ o.verifying)
        × (o'.requested.queue ≡ o.requested.queue ++ take n o.scheduled.queue)
        × (o'.scheduled.queue ≡ drop n o.scheduled.queue)
        × (c'.headers_chain ≡ c.headers_chain)
  request_blocks_hashes-in_flight c n o =
      let v = o.verifying in
      let r = o.requested in
      let s = o.scheduled in
      let moved = moved_order r.queue s.queue n in
      let d = Distinct-right v.queue (r.queue ++ s.queue) o.distinct in
      let (r', p, rq) = push_back_n-append (take n s.queue) r o.requested_valid (
        Distinct-left (r.queue ++ take n s.queue) (drop n s.queue)
          (subst Distinct (sym moved) d)) in
      let s' = (HashQueue.pop_front_n s n).1 in
      let sq : s'.queue ≡ drop n s.queue = ap (λ t. t.1.queue) (pop_front_n-take s n) in
      let same_order : r'.queue ++ s'.queue ≡ r.queue ++ s.queue =
        ap (λ l. l ++ s'.queue) rq ∙ ap (λ l. (r.queue ++ take n s.queue) ++ l) sq ∙ moved in
      (
        record c { hash_chain = three v r' s' },
        request_three c v r s r' n o.shape p,
        ap (λ l. v.queue ++ l) (tail_order r' s' r s same_order)
            ∙ sym (ap (λ q. flat q.chain) o.shape),
        record {
          verifying = v;
          requested = r';
          scheduled = s';
          shape = refl;
          verifying_valid = o.verifying_valid;
          requested_valid = push_back_n-IsValid (take n s.queue) r o.requested_valid p;
          scheduled_valid = pop_front_n-IsValid s n o.scheduled_valid;
          distinct = subst (λ l. Distinct (v.queue ++ l)) (sym same_order) o.distinct;
        },
        refl,
        rq,
        sq,
        refl,
      )
