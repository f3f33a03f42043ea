-- ===== src/P2p/Synchronizer/Order.antt =====
-- `FifoSynchronizer`: permissions are given in the order of the declarations.
use rust_randchain_prototype.Prelude.{
  ℕ, ◌≤◌, ◌≡◌, refl, sym, ap, ◌∙◌, List, [], ◌∷◌, ◌==◌, ==_iff, ◌<◌, ◌+◌, ◌%◌, ◌^◌, arith,
  if◌then◌else◌, add_u32, length, take, Bool-cases, inl, inr,
}
use rust_randchain_prototype.P2p.Synchronizer.Fifo.{
  FifoSynchronizer, declare_response, permission_for_response,
}
use rust_randchain_prototype.P2p.Synchronizer.Ids.{ids_from, ids_from-take}

-- What is asked of a synchronizer: an id, or the permission to answer.
pub data Call : Type 0 where
  declare : Call
  ask : ℕ → Call

-- The ids given out, the ids granted, and the state that the calls leave.
pub record Outcome : Type 0 where
  pub declared : List ℕ
  pub granted : List ℕ
  pub final : FifoSynchronizer

unfoldable pub run : FifoSynchronizer → List Call → Outcome
run s [] = record { declared = []; granted = []; final = s }
run s (declare ∷ calls) =
    let rest = run (declare_response s).1 calls in
    record rest { declared = (declare_response s).0 ∷ rest.declared }
run s (ask id ∷ calls) =
    let rest = run (permission_for_response s id).1 calls in
    if (permission_for_response s id).0 then record rest { granted = id ∷ rest.granted } else rest

declared_ids :
    (calls : List Call) (s : FifoSynchronizer)
    → (run s calls).declared ≡ ids_from s.declared_responses (length (run s calls).declared)
unfolding run declare_response permission_for_response ids_from
declared_ids [] s = refl
declared_ids (declare ∷ calls) s =
    ap (λ l. s.declared_responses ∷ l) (declared_ids calls (declare_response s).1)
declared_ids (ask id ∷ calls) s = elim (Bool-cases (id == s.next_to_grant)) [
  | inl e ↦ rw e (declared_ids calls (record s { next_to_grant = add_u32 s.next_to_grant 1 }))
  | inr e ↦ rw e (declared_ids calls s)
]

granted_ids :
    (calls : List Call) (s : FifoSynchronizer)
    → (run s calls).granted ≡ ids_from s.next_to_grant (length (run s calls).granted)
unfolding run declare_response permission_for_response ids_from
granted_ids [] s = refl
granted_ids (declare ∷ calls) s = granted_ids calls (declare_response s).1
granted_ids (ask id ∷ calls) s = elim (Bool-cases (id == s.next_to_grant)) [
  | inl e ↦
      let later = record s { next_to_grant = add_u32 s.next_to_grant 1 } in
      let same : id ≡ s.next_to_grant = (==_iff id s.next_to_grant).0 e in
      rw e (
        ap (λ l. id ∷ l) (granted_ids calls later)
        ∙ ap (λ i. i ∷ ids_from (add_u32 s.next_to_grant 1) (length (run later calls).granted))
            same)
  | inr e ↦ rw e (granted_ids calls s)
]

-- Permission is asked only for ids that were given out: `count` ids have been, from `first` on.
abbrev pub AsksDeclared : ℕ → ℕ → List Call → Type 0
AsksDeclared first count [] = Unit
AsksDeclared first count (declare ∷ calls) = AsksDeclared first (count + 1) calls
AsksDeclared first count (ask id ∷ calls) =
    ((j : ℕ) × (j < count) × (id ≡ (first + j) % 2 ^ 32)) × AsksDeclared first count calls

granted_within :
    (calls : List Call) (s : FifoSynchronizer) (first count passed : ℕ)
    → s.next_to_grant ≡ (first + passed) % 2 ^ 32
    → passed ≤ count
    → count + length (run s calls).declared < 2 ^ 32
    → AsksDeclared first count calls
    → passed + length (run s calls).granted ≤ count + length (run s calls).declared
unfolding run declare_response permission_for_response
granted_within [] s first count passed next within short asks = omega arith
granted_within (declare ∷ calls) s first count passed next within short asks =
    let rest =
      granted_within calls (declare_response s).1 first (count + 1) passed next (omega arith)
        (omega arith) asks in
    omega arith
granted_within (ask id ∷ calls) s first count passed next within short ((j, given, is_id), asks) =
    elim (Bool-cases (id == s.next_to_grant)) [
      | inl e ↦
          let later : FifoSynchronizer = record s { next_to_grant = add_u32 s.next_to_grant 1 } in
          let same : id ≡ s.next_to_grant = (==_iff id s.next_to_grant).0 e in
          let declared_is : (run s (ask id ∷ calls)).declared ≡ (run later calls).declared =
            rw e refl in
          let granted_is : (run s (ask id ∷ calls)).granted ≡ id ∷ (run later calls).granted =
            rw e refl in
          let same_length = ap length declared_is in
          let rest =
            granted_within calls later first count (passed + 1) (omega arith) (omega arith)
              (omega arith) asks in
          let one_more = ap length granted_is in omega arith
      | inr e ↦
          let declared_is : (run s (ask id ∷ calls)).declared ≡ (run s calls).declared =
            rw e refl in
          let granted_is : (run s (ask id ∷ calls)).granted ≡ (run s calls).granted = rw e refl in
          let same_length = ap length declared_is in
          let rest = granted_within calls s first count passed next within (omega arith) asks in
          let as_many = ap length granted_is in omega arith
    ]

-- A synchronizer that grants next the id it gives out next, and any sequence of calls that give out fewer
-- than 2 ^ 32 ids and ask only for ids that were given out before: no more ids are granted than were
-- given out, and they are the ids first given out, in that order.
pub run-granted :
    (calls : List Call) (s : FifoSynchronizer)
    → s.declared_responses ≡ s.next_to_grant
    → s.next_to_grant < 2 ^ 32
    → length (run s calls).declared < 2 ^ 32
    → AsksDeclared s.next_to_grant 0 calls
    → (length (run s calls).granted ≤ length (run s calls).declared)
      × ((run s calls).granted ≡ take (length (run s calls).granted) (run s calls).declared)
run-granted calls s e small short asks =
    let h =
      granted_within calls s s.next_to_grant 0 0 (omega arith) (omega arith) (omega arith) asks in
    (
      omega arith,
      granted_ids calls s
          ∙ ap (λ i. ids_from i (length (run s calls).granted)) (sym e)
          ∙ sym (
              ids_from-take (length (run s calls).granted) (length (run s calls).declared)
                s.declared_responses (omega arith))
          ∙ ap (λ l. take (length (run s calls).granted) l) (sym (declared_ids calls s)),
    )
