-- ===== src/Db/Chain/Refinement/RouteLoop.antt =====
-- The loop of `block_origin` over a database that represents a ledger.
use rust_randchain_prototype.Prelude.{
  ℕ, zero, suc, ◌+◌, ◌-◌, ◌<◌, ◌^◌, ◌≡◌, refl, sym, ap, subst, ◌∙◌, true, Option, none, some, List,
  [], ◌∷◌, ◌++◌, append-nil, append_assoc, ◌==◌, ltb, if◌then◌else◌, arith, add_u32, as_u32, length,
  length-append, reverse, H256, success, failure, Run, ok, panic,
}
use rust_randchain_prototype.Blocks.{BestBlock}
use rust_randchain_prototype.Storage.{
  SideChainOrigin, BlockOrigin, side_chain, side_chain_becoming_canon_chain,
}
use rust_randchain_prototype.Serialization.Impls.{LittleEndian}
use rust_randchain_prototype.Serialization.Headers.{Block}
use rust_randchain_prototype.Db.Kv.Transaction.{Key, Value, KeyValueDatabase}
use rust_randchain_prototype.Db.Kv.Reliable.{IsReliable}
use rust_randchain_prototype.Db.Chain.{BlockChainDatabase, ancient_fork}
use rust_randchain_prototype.Db.Chain.Origin.{
  assert_is, hashes_between, side_chain_origin, route_loop,
}
use rust_randchain_prototype.Db.Chain.Ledger.{Ledger, best_of, at, position, position_lt, parent_of}
use rust_randchain_prototype.Db.Chain.Routes.{
  SideRoute, joined, aside, Walk, arrived, down, above, between, between-above,
}
use rust_randchain_prototype.Db.Chain.Refinement.{
  Represents, block_number-position, block_hash-at, block_header_lem,
}

-- What the ledger says of a route of a side chain.
abbrev pub route_origin : List H256 → ℕ → List H256 → SideChainOrigin
route_origin chain n route = record {
  ancestor = n;
  canonized_route = reverse route;
  decanonized_route = reverse (above chain n);
  block_number = n + length route + 1;
}

-- A side chain becomes the chain when it is the longer one.
abbrev pub side_of : ℕ → SideChainOrigin → BlockOrigin
side_of best origin =
    if ltb best origin.block_number
    then side_chain_becoming_canon_chain origin
    else side_chain origin

pub best_number-length :
    (chain : List H256) (n : ℕ) → n < length chain → (best_of chain).number + 1 ≡ length chain
best_number-length [] n e = omega arith
best_number-length (h ∷ below) n e = omega arith

pub best_at :
    (chain : List H256)
    → 0 < length chain
    → at chain (best_of chain).number ≡ some (best_of chain).hash
best_at [] some_block = ground arith
best_at (h ∷ below) some_block = ground arith

pub assert_is_lem :
    {A : Type 0} (h : H256) (o : Option H256) (next : Run A)
    → o ≡ some h
    → assert_is h o next ≡ next
assert_is_lem h none next e = cc
assert_is_lem h (some k) next e = let same : (h == k) ≡ true = ground arith in rw same refl

module _ {Pk Int : Type 0} {kv : KeyValueDatabase (Block Pk Int)} {Valid : kv.State → Type 0}
    {table : kv.State → Key → Option (Value (Block Pk Int))} (reliable : IsReliable kv Valid table)
    {order : LittleEndian} (c : BlockChainDatabase kv) (l : Ledger (Block Pk Int))
    (represents : Represents order Valid table c l) where
  hashes_between-between :
      (first count : ℕ) → hashes_between c first count ≡ ok (between (at l.chain) first count)
  unfolding hashes_between
  hashes_between-between first zero = refl
  hashes_between-between first (suc count) =
      rw (block_hash-at reliable c l represents first, hashes_between-between (first + 1) count)
        refl

  side_chain_origin_lem :
      (n : ℕ) (route : List H256)
      → n < length l.chain
      → length l.chain + length route < 2 ^ 32
      → side_chain_origin c n (length route) route
        ≡ ok (side_of (best_of l.chain).number (route_origin l.chain n route))
  unfolding side_chain_origin
  side_chain_origin_lem n route inside short =
      let best : (best_of l.chain).number + 1 ≡ length l.chain =
        best_number-length l.chain n inside in
      let wrap_best : add_u32 (best_of l.chain).number 1 ≡ length l.chain = ground arith in
      let wrap_n : add_u32 n 1 ≡ n + 1 = ground arith in
      let wrap_block : add_u32 (add_u32 n (as_u32 (length route))) 1 ≡ n + length route + 1 =
        ground arith in
      let best_is : c.best_block.number ≡ (best_of l.chain).number =
        ap (λ (b : BestBlock). b.number) represents.1 in
      rw
        (
          hashes_between-between (add_u32 n 1) (add_u32 c.best_block.number 1 - add_u32 n 1),
          best_is,
          wrap_best,
          wrap_n,
          wrap_block,
          between-above l.chain n (length l.chain - (n + 1)) (omega arith),
        )
        refl

  -- A route with fewer hashes than the rounds that are left is found.
  pub route_loop-joined :
      (rounds : ℕ) {h : H256} {n : ℕ} {route : List H256} (way : SideRoute l h n route)
      (passed : List H256)
      → length route < rounds
      → length l.chain + length (passed ++ route) < 2 ^ 32
      → route_loop c rounds (length passed) passed h
        ≡ ok (success (side_of (best_of l.chain).number (route_origin l.chain n (passed ++ route))))
  unfolding route_loop
  route_loop-joined zero way passed enough short = ground arith
  route_loop-joined (suc rounds) {h = h} {n = n} (joined found) passed enough short =
      rw
        (
          block_number-position reliable c l represents h,
          found,
          append-nil passed,
          side_chain_origin_lem n passed (position_lt l.chain h n found)
              (subst (λ r. length l.chain + length r < 2 ^ 32) (append-nil passed) short),
        )
        refl
  route_loop-joined (suc rounds) {h = h} {n = n} {route = _ ∷ route} (aside b off is_b way) passed
        enough short =
      rw
        (
          block_number-position reliable c l represents h,
          off,
          block_header_lem reliable c l represents h,
          is_b,
        )
        (ap (λ k. route_loop c rounds k (passed ++ (h ∷ [])) (parent_of b))
            (sym (length-append passed (h ∷ [])))
          ∙ route_loop-joined rounds way (passed ++ (h ∷ [])) (omega arith) (
              subst (λ r. length l.chain + length r < 2 ^ 32)
                (sym (append_assoc passed (h ∷ []) route)) short)
          ∙ ap (λ r. ok (success (side_of (best_of l.chain).number (route_origin l.chain n r))))
              (append_assoc passed (h ∷ []) route))

  -- A way with as many hashes as rounds ends the loop first.
  pub route_loop-ancient :
      (rounds : ℕ) {h k : H256} {route : List H256} (way : Walk l h k route) (fork_len : ℕ)
      (passed : List H256)
      → length route ≡ rounds
      → route_loop c rounds fork_len passed h ≡ ok (failure ancient_fork)
  unfolding route_loop
  route_loop-ancient zero way fork_len passed full = refl
  route_loop-ancient (suc rounds) arrived fork_len passed full = ground arith
  route_loop-ancient (suc rounds) {h = h} (down b off is_b way) fork_len passed full =
      rw
        (
          block_number-position reliable c l represents h,
          off,
          block_header_lem reliable c l represents h,
          is_b,
        )
        (route_loop-ancient rounds way (fork_len + 1) (passed ++ (h ∷ [])) (omega arith))

  -- A way that ends at a hash that is not stored is a panic.
  pub route_loop-rootless :
      (rounds : ℕ) {h k : H256} {route : List H256} (way : Walk l h k route) (fork_len : ℕ)
      (passed : List H256)
      → position l.chain k ≡ none
      → l.blocks k ≡ none
      → length route < rounds
      → route_loop c rounds fork_len passed h ≡ panic
  unfolding route_loop
  route_loop-rootless zero way fork_len passed off missing near = ground arith
  route_loop-rootless (suc rounds) {h = h} arrived fork_len passed off missing near =
      rw
        (
          block_number-position reliable c l represents h,
          off,
          block_header_lem reliable c l represents h,
          missing,
        )
        refl
  route_loop-rootless (suc rounds) {h = h} (down b off_h is_b way) fork_len passed off missing
        near =
      rw
        (
          block_number-position reliable c l represents h,
          off_h,
          block_header_lem reliable c l represents h,
          is_b,
        )
        (route_loop-rootless rounds way (fork_len + 1) (passed ++ (h ∷ [])) off missing
          (omega arith))
