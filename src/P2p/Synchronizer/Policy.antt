-- ===== src/P2p/Synchronizer/Policy.antt =====
-- `ConfigurableSynchronizer`: what holds across changes of the policy.
use rust_randchain_prototype.Prelude.{
  ℕ, ◌≡◌, refl, ap, ◌∙◌, Bool, true, false, List, [], ◌∷◌, length, Bool-cases, inl, inr, ◌==◌,
  add_u32,
}
use rust_randchain_prototype.P2p.Synchronizer.Fifo
use rust_randchain_prototype.P2p.Synchronizer.Noop
use rust_randchain_prototype.P2p.Synchronizer.Threshold
use rust_randchain_prototype.P2p.Synchronizer.Configurable.{
  ConfigurableSynchronizer, InnerSynchronizer, noop, threshold, inner_declare, declare_response,
  inner_is_permitted, is_permitted, inner_permission, permission_for_response, changed,
  change_sync_policy,
}
use rust_randchain_prototype.P2p.Synchronizer.Ids.{ids_from}

pub data Call : Type 0 where
  declare : Call
  ask : ℕ → Call
  change : Bool → Call

-- The ids that a run of calls gives out.
unfoldable pub declared : ConfigurableSynchronizer → List Call → List ℕ
declared c [] = []
declared c (declare ∷ calls) = (declare_response c).0 ∷ declared (declare_response c).1 calls
declared c (ask id ∷ calls) = declared (permission_for_response c id).1 calls
declared c (change sync ∷ calls) = declared (change_sync_policy c sync) calls

abbrev pub counter : ConfigurableSynchronizer → ℕ
counter c = elim c.inner [
  | noop s ↦ s.declared_responses
  | threshold s ↦ s.inner.declared_responses
]

-- Declaring answers the counter and adds one to it.
counter-declared :
    (i : InnerSynchronizer)
    → (let c : ConfigurableSynchronizer = record { inner = i } in
        (declare_response c).0 ≡ counter c)
      × (counter (declare_response (record { inner = i })).1
          ≡ add_u32 (counter (record { inner = i })) 1)
unfolding declare_response inner_declare Noop.declare_response Threshold.declare_response
    Fifo.declare_response
counter-declared (noop s) = (refl, refl)
counter-declared (threshold s) = (refl, refl)

counter-asked :
    (i : InnerSynchronizer) (id : ℕ)
    → counter (permission_for_response (record { inner = i }) id).1 ≡ counter (record { inner = i })
unfolding permission_for_response inner_permission Noop.permission_for_response
    Threshold.permission_for_response Fifo.permission_for_response
counter-asked (noop s) id = refl
counter-asked (threshold s) id = elim (Bool-cases (id == s.inner.next_to_grant)) [
  | inl e ↦ rw e refl
  | inr e ↦ rw e refl
]

counter-changed :
    (i : InnerSynchronizer) (sync : Bool)
    → counter (change_sync_policy (record { inner = i }) sync) ≡ counter (record { inner = i })
unfolding change_sync_policy changed Threshold.new
counter-changed (noop s) true = refl
counter-changed (noop s) false = refl
counter-changed (threshold s) true = refl
counter-changed (threshold s) false = refl

-- However permissions are asked and the policy is changed in between, the ids that a synchronizer gives
-- out follow one another without a gap or a repetition, counted around 2 ^ 32.
pub declared-ids_from :
    (calls : List Call) (c : ConfigurableSynchronizer)
    → declared c calls ≡ ids_from (counter c) (length (declared c calls))
unfolding declared ids_from
declared-ids_from [] c = refl
declared-ids_from (declare ∷ calls) c =
    let (answer, next) = counter-declared c.inner in
    let later = (declare_response c).1 in
    ap (λ id. id ∷ declared later calls) answer
    ∙ ap (λ ids. counter c ∷ ids)
        (declared-ids_from calls later ∙ ap (λ n. ids_from n (length (declared later calls))) next)
declared-ids_from (ask id ∷ calls) c =
    let later = (permission_for_response c id).1 in
    declared-ids_from calls later
    ∙ ap (λ n. ids_from n (length (declared later calls))) (counter-asked c.inner id)
declared-ids_from (change sync ∷ calls) c =
    let later = change_sync_policy c sync in
    declared-ids_from calls later
    ∙ ap (λ n. ids_from n (length (declared later calls))) (counter-changed c.inner sync)

-- `is_permitted` tells beforehand what `permission_for_response` answers.
pub permission_for_response-is_permitted :
    (c : ConfigurableSynchronizer) (id : ℕ) → (permission_for_response c id).0 ≡ is_permitted c id
unfolding permission_for_response inner_permission is_permitted inner_is_permitted Noop.is_permitted
    Noop.permission_for_response Threshold.is_permitted Threshold.permission_for_response
    Fifo.is_permitted Fifo.permission_for_response
permission_for_response-is_permitted c id = go c.inner
  where
    go :
        (i : InnerSynchronizer)
        → (permission_for_response (record { inner = i }) id).0
          ≡ is_permitted (record { inner = i }) id
    go (noop s) = refl
    go (threshold s) = elim (Bool-cases (id == s.inner.next_to_grant)) [
      | inl e ↦ rw e refl
      | inr e ↦ rw e refl
    ]
