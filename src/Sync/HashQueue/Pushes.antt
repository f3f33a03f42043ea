-- ===== src/Sync/HashQueue/Pushes.antt =====
-- `HashQueue`: what `push_back` and `push_back_n` append, and when they panic.
use rust_randchain_prototype.Prelude.{
  ◌≡◌, refl, sym, ap, ◌∙◌, subst, false, List, [], ◌∷◌, ◌++◌, append-nil, append_assoc, arith, H256,
  ok, ok-injective, >>=-eq-ok, contains, Distinct, Distinct-middle,
}
use rust_randchain_prototype.Sync.HashQueue.{HashQueue, push_back, push_back_n}
use rust_randchain_prototype.Sync.HashQueue.Invariant.{IsValid, snoc, push_back-IsValid}

-- `push_back` panics on a hash that is there, and otherwise appends it.
pub push_back_absent :
    (q : HashQueue) (h : H256)
    → IsValid q
    → contains q.queue h ≡ false
    → push_back q h ≡ ok (snoc q h)
unfolding push_back
push_back_absent q h v n = rw (v.same h ∙ n)

-- The hash that is pushed is there afterwards, at the back.
pub push_back-ok_queue :
    (q q' : HashQueue) (h : H256) → push_back q h ≡ ok q' → q'.queue ≡ q.queue ++ (h ∷ [])
unfolding push_back
push_back-ok_queue q q' h e = ground arith

pub push_back_n-append :
    (hs : List H256) (q : HashQueue)
    → IsValid q
    → Distinct (q.queue ++ hs)
    → (q' : HashQueue) × (push_back_n q hs ≡ ok q') × (q'.queue ≡ q.queue ++ hs)
unfolding push_back_n
push_back_n-append [] q v d = (q, refl, sym (append-nil q.queue))
push_back_n-append (h ∷ hs) q v d =
    let pushed = push_back_absent q h v (Distinct-middle q.queue h hs d) in
    let (q', e, eq) =
      push_back_n-append hs (snoc q h) (push_back-IsValid q h v pushed)
        (subst Distinct (sym (append_assoc q.queue (h ∷ []) hs)) d) in
    (q', rw pushed e, eq ∙ append_assoc q.queue (h ∷ []) hs)

pub push_back_n-ok_queue :
    (hs : List H256) (q q' : HashQueue) → push_back_n q hs ≡ ok q' → q'.queue ≡ q.queue ++ hs
unfolding push_back_n
push_back_n-ok_queue [] q q' e = ap (λ r. r.queue) (sym (ok-injective e)) ∙ sym (append-nil q.queue)
push_back_n-ok_queue (h ∷ hs) q q' e =
    let (r, pushed, rest) = >>=-eq-ok (push_back q h) (λ p. push_back_n p hs) e in
    push_back_n-ok_queue hs r q' rest
    ∙ ap (λ l. l ++ hs) (push_back-ok_queue q r h pushed)
    ∙ append_assoc q.queue (h ∷ []) hs
