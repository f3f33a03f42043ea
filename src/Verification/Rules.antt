-- ===== src/Verification/Rules.antt =====
-- What the checks on a header let through.
use rust_randchain_prototype.Prelude.{
  ℕ, ◌≤◌, ◌≡◌, refl, ◌↔◌, ◌⊎◌, inl, inr, Bool, true, false, ◌&&◌, arith, ltb, leb, if◌then◌else◌,
  add_u32, ok, ok-injective, >>=-eq-ok, Result, success, failure, then_check-success,
}
use rust_randchain_prototype.Blocks.{IndexedBlockHeader}
use rust_randchain_prototype.Network.{Network, max_compact}
use rust_randchain_prototype.Primitives.Compact.{Bigint, Compact, to_u256}
use rust_randchain_prototype.Verification.Errors.{Error, pow, futuristic_timestamp}
use rust_randchain_prototype.Verification.Work.{is_valid_proof_of_work}
use rust_randchain_prototype.Verification.Headers.{
  check_proof_of_work, check_timestamp, verify_header,
}

Result-cases : (r : Result ℕ ℕ) → ((v : ℕ) × (r ≡ success v)) ⊎ ((v : ℕ) × (r ≡ failure v))
Result-cases (success v) = inl (v, refl)
Result-cases (failure v) = inr (v, refl)

-- A check that succeeds has seen its test hold, or fail where that is wanted.
pub kept :
    (test : Bool) (e : Error) → (if test then success tt else failure e) ≡ success tt → test ≡ true
kept true e h = refl
kept false e h = cc

pub dropped :
    (test : Bool) (e : Error) → (if test then failure e else success tt) ≡ success tt → test ≡ false
dropped true e h = cc
dropped false e h = refl

pow_readable :
    (big : Bigint) (max_work_bits bits hash : ℕ)
    → is_valid_proof_of_work big max_work_bits bits hash ≡ true
    → (maximum target : ℕ) × (to_u256 big max_work_bits ≡ success maximum)
      × (to_u256 big bits ≡ success target)
      × (target ≤ maximum)
      × (hash ≤ target)
unfolding is_valid_proof_of_work
pow_readable big max_work_bits bits hash h = elim (Result-cases (to_u256 big max_work_bits)) [
  | inr (v, e) ↦ absurd (cc (rw (e, is_valid_proof_of_work) at h))
  | inl (maximum, e) ↦ elim (Result-cases (to_u256 big bits)) [
    | inr (v, f) ↦ absurd (cc (rw (e, f, is_valid_proof_of_work) at h))
    | inl (target, f) ↦
        let h' : (leb target maximum && leb hash target) ≡ true =
          rw (e, f, is_valid_proof_of_work) at h in
        (maximum, target, e, f, ground (arith, h'), ground (arith, h'))
  ]
]

pow_valid :
    (big : Bigint) (max_work_bits bits hash maximum target : ℕ)
    → to_u256 big max_work_bits ≡ success maximum
    → to_u256 big bits ≡ success target
    → target ≤ maximum
    → hash ≤ target
    → is_valid_proof_of_work big max_work_bits bits hash ≡ true
unfolding is_valid_proof_of_work
pow_valid big max_work_bits bits hash maximum target e f ht hh =
    rw (e, f, is_valid_proof_of_work) (ground (arith, ht, hh))

module _ {Pk Int : Type 0} (big : Bigint) where
  -- A header meets the rules on headers by themselves: both targets are readable, the claimed one is at
  -- most the network's, the hash is at most the claimed one, and its time is not too far ahead.
  pub record Meets (header : IndexedBlockHeader Pk Int) (network : Network) (current_time : ℕ)
      : Type 0 where
    pub max_work_bits : Compact
    pub maximum : ℕ
    pub target : ℕ
    pub network_bits : max_compact big network ≡ ok max_work_bits
    pub maximum_readable : to_u256 big max_work_bits ≡ success maximum
    pub target_readable : to_u256 big header.raw.bits ≡ success target
    pub target_bounded : target ≤ maximum
    pub hash_bounded : header.hash ≤ target
    pub time_bounded : header.raw.time ≤ add_u32 current_time 7200

  -- The verifier lets a header through exactly when its target and the network's are readable, its target is
  -- at most the network's, its hash is at most its target, and its time is at most the clock plus 7200
  -- seconds, a sum that wraps at 2 ^ 32.
  pub verify_header-Meets :
      (header : IndexedBlockHeader Pk Int) (network : Network) (current_time : ℕ)
      → (verify_header big header network current_time ≡ ok (success tt))
        ↔ Meets header network current_time
  unfolding verify_header check_proof_of_work check_timestamp
  verify_header-Meets header network current_time = (forth, back)
    where
      forth :
          verify_header big header network current_time ≡ ok (success tt)
          → Meets header network current_time
      forth h =
          let (bits, e, h') = >>=-eq-ok (max_compact big network) _ h in
          let (first, second) = then_check-success _ _ (ok-injective h') in
          let (maximum, target, em, et, lt, lh) =
            pow_readable big bits header.raw.bits header.hash (kept _ pow first.1) in
          record {
            max_work_bits = bits;
            maximum = maximum;
            target = target;
            network_bits = e;
            maximum_readable = em;
            target_readable = et;
            target_bounded = lt;
            hash_bounded = lh;
            time_bounded = ground (arith, dropped _ futuristic_timestamp second);
          }

      back :
          Meets header network current_time
          → verify_header big header network current_time ≡ ok (success tt)
      back m =
          let valid =
            pow_valid big m.max_work_bits header.raw.bits header.hash m.maximum m.target
              m.maximum_readable m.target_readable m.target_bounded m.hash_bounded in
          let early : ltb (add_u32 current_time 7200) header.raw.time ≡ false =
            ground (arith, m.time_bounded) in
          rw (m.network_bits, valid, early) refl
