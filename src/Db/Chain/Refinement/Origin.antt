-- ===== src/Db/Chain/Refinement/Origin.antt =====
-- `block_origin` over a database that represents a ledger: what it answers.
use rust_randchain_prototype.Prelude.{
  ℕ, ◌≢◌, ◌+◌, ◌<◌, ◌^◌, ◌≡◌, refl, sym, ap, ◌∙◌, true, false, Bool-cases, inl, inr, Run, panic,
  none, Option, some, is_some, List, [], ◌==◌, if◌then◌else◌, arith, add_u32, length, H256, Result,
  success, failure, ok,
}
use rust_randchain_prototype.Blocks.{BestBlock, IndexedBlockHeader}
use rust_randchain_prototype.Storage.{BlockOrigin, known_block, canon_chain}
use rust_randchain_prototype.Serialization.Impls.{LittleEndian}
use rust_randchain_prototype.Serialization.Headers.{Block}
use rust_randchain_prototype.Db.Kv.Transaction.{Key, Value, KeyValueDatabase}
use rust_randchain_prototype.Db.Kv.Reliable.{IsReliable}
use rust_randchain_prototype.Db.Chain.{BlockChainDatabase, Error, unknown_parent, ancient_fork}
use rust_randchain_prototype.Db.Chain.Origin.{
  max_fork_route_preset, route_loop, parent_origin, unknown_origin, block_origin,
}
use rust_randchain_prototype.Db.Chain.Ledger.{Ledger, best_of, at, position}
use rust_randchain_prototype.Db.Chain.Routes.{
  SideRoute, Walk, Ending, on_chain, rootless_at, longer, walk_ends,
}
use rust_randchain_prototype.Db.Chain.Refinement.{Represents, block_hash-at, contains_block_lem}
use rust_randchain_prototype.Db.Chain.Refinement.RouteLoop.{
  route_origin, side_of, best_number-length, best_at, assert_is_lem, route_loop-joined,
  route_loop-ancient, route_loop-rootless,
}

-- What the ledger says of a header: it is stored; or its parent is the best block, is not stored, or
-- stands beside the chain, on a route that the loop reaches the chain by, on one that is too long, or on one
-- that leads down to a block without a stored parent, which the code does not expect.
pub data OriginOf {Pk Int : Type 0} (l : Ledger (Block Pk Int)) (header : IndexedBlockHeader Pk Int)
    : Run (Result BlockOrigin Error) → Type 0 where
  stored : is_some (l.blocks header.hash) ≡ true → OriginOf l header (ok (success known_block))
  on_top :
      is_some (l.blocks header.hash) ≡ false
      → (best_of l.chain).hash ≡ header.raw.previous_header_hash
      → OriginOf l header (ok (success (canon_chain (length l.chain))))
  orphan :
      is_some (l.blocks header.hash) ≡ false
      → (best_of l.chain).hash ≢ header.raw.previous_header_hash
      → is_some (l.blocks header.raw.previous_header_hash) ≡ false
      → OriginOf l header (ok (failure unknown_parent))
  beside :
      {n : ℕ} {route : List H256}
      → is_some (l.blocks header.hash) ≡ false
      → (best_of l.chain).hash ≢ header.raw.previous_header_hash
      → is_some (l.blocks header.raw.previous_header_hash) ≡ true
      → SideRoute l header.raw.previous_header_hash n route
      → length route < max_fork_route_preset
      → OriginOf l header
          (ok (success (side_of (best_of l.chain).number (route_origin l.chain n route))))
  too_long :
      {k : H256} {route : List H256}
      → is_some (l.blocks header.hash) ≡ false
      → (best_of l.chain).hash ≢ header.raw.previous_header_hash
      → is_some (l.blocks header.raw.previous_header_hash) ≡ true
      → Walk l header.raw.previous_header_hash k route
      → length route ≡ max_fork_route_preset
      → OriginOf l header (ok (failure ancient_fork))
  rootless :
      {k : H256} {route : List H256}
      → is_some (l.blocks header.hash) ≡ false
      → (best_of l.chain).hash ≢ header.raw.previous_header_hash
      → is_some (l.blocks header.raw.previous_header_hash) ≡ true
      → Walk l header.raw.previous_header_hash k route
      → position l.chain k ≡ none
      → l.blocks k ≡ none
      → length route < max_fork_route_preset
      → OriginOf l header panic

-- Each header is one of these.
origin_beside :
    {Pk Int : Type 0} (l : Ledger (Block Pk Int)) (header : IndexedBlockHeader Pk Int)
    → is_some (l.blocks header.hash) ≡ false
    → (best_of l.chain).hash ≢ header.raw.previous_header_hash
    → is_some (l.blocks header.raw.previous_header_hash) ≡ true
    → Ending l max_fork_route_preset header.raw.previous_header_hash
    → (answer : Run (Result BlockOrigin Error)) × OriginOf l header answer
origin_beside l header new apart known (on_chain way near) = (_, beside new apart known way near)
origin_beside l header new apart known (longer way full) = (_, too_long new apart known way full)
origin_beside l header new apart known (rootless_at way off missing near) =
    (_, rootless new apart known way off missing near)

origin_of :
    {Pk Int : Type 0} (l : Ledger (Block Pk Int)) (header : IndexedBlockHeader Pk Int)
    → (answer : Run (Result BlockOrigin Error)) × OriginOf l header answer
origin_of l header = elim (Bool-cases (is_some (l.blocks header.hash))) [
  | inl known ↦ (_, stored known)
  | inr new ↦ elim (Bool-cases ((best_of l.chain).hash == header.raw.previous_header_hash)) [
    | inl tip ↦ (_, on_top new (ground arith))
    | inr other ↦
        let apart : (best_of l.chain).hash ≢ header.raw.previous_header_hash = ground arith in
        elim (Bool-cases (is_some (l.blocks header.raw.previous_header_hash))) [
          | inl parent ↦
              origin_beside l header new apart parent
                (walk_ends l max_fork_route_preset header.raw.previous_header_hash)
          | inr out ↦ (_, orphan new apart out)
        ]
  ]
]

module _ {Pk Int : Type 0} {kv : KeyValueDatabase (Block Pk Int)} {Valid : kv.State → Type 0}
    {table : kv.State → Key → Option (Value (Block Pk Int))} (reliable : IsReliable kv Valid table)
    {order : LittleEndian} (c : BlockChainDatabase kv) (l : Ledger (Block Pk Int))
    (represents : Represents order Valid table c l) where
  -- Past the assertion and the first look-up.
  block_origin_start :
      (header : IndexedBlockHeader Pk Int)
      → 0 < length l.chain
      → block_origin c header ≡ (
          if is_some (l.blocks header.hash)
          then ok (success known_block)
          else unknown_origin c header)
  unfolding block_origin
  block_origin_start header some_block =
      let best_is : c.best_block.hash ≡ (best_of l.chain).hash =
        ap (λ (b : BestBlock). b.hash) represents.1 in
      rw
        (
          block_hash-at reliable c l represents c.best_block.number,
          contains_block_lem reliable c l represents header.hash,
        )
        (assert_is_lem c.best_block.hash (at l.chain c.best_block.number) _ (
          ap (λ (b : BestBlock). at l.chain b.number) represents.1
          ∙ best_at l.chain some_block
          ∙ ap some (sym best_is)))

  unknown_origin_beside :
      (header : IndexedBlockHeader Pk Int)
      → (best_of l.chain).hash ≢ header.raw.previous_header_hash
      → unknown_origin c header ≡ (
          if is_some (l.blocks header.raw.previous_header_hash)
          then route_loop c max_fork_route_preset 0 [] header.raw.previous_header_hash
          else ok (failure unknown_parent))
  unfolding unknown_origin parent_origin
  unknown_origin_beside header apart =
      let other : (c.best_block.hash == header.raw.previous_header_hash) ≡ false =
        ground (arith, ap (λ (b : BestBlock). b.hash) represents.1) in
      rw (other, contains_block_lem reliable c l represents header.raw.previous_header_hash) refl

  -- `block_origin` answers what the ledger says of the header.
  pub block_origin-answer :
      (header : IndexedBlockHeader Pk Int) {answer : Run (Result BlockOrigin Error)}
      → OriginOf l header answer
      → 0 < length l.chain
      → length l.chain + max_fork_route_preset < 2 ^ 32
      → block_origin c header ≡ answer
  unfolding unknown_origin
  block_origin-answer header (stored known) some_block short =
      block_origin_start header some_block ∙ rw known refl
  block_origin-answer header (on_top new is_tip) some_block short =
      let best_is : c.best_block.hash ≡ header.raw.previous_header_hash =
        ap (λ (b : BestBlock). b.hash) represents.1 ∙ is_tip in
      let same : (c.best_block.hash == header.raw.previous_header_hash) ≡ true = ground arith in
      let number : c.best_block.number ≡ (best_of l.chain).number =
        ap (λ (b : BestBlock). b.number) represents.1 in
      let length_is : (best_of l.chain).number + 1 ≡ length l.chain =
        best_number-length l.chain 0 some_block in
      let counted : add_u32 c.best_block.number 1 ≡ length l.chain = ground arith in
      block_origin_start header some_block ∙ rw (new, unknown_origin, same, counted) refl
  block_origin-answer header (orphan new apart out) some_block short =
      block_origin_start header some_block
      ∙ rw new (unknown_origin_beside header apart ∙ rw out refl)
  block_origin-answer header (beside {n = n} {route = route} new apart known way found) some_block
        short =
      block_origin_start header some_block
      ∙ rw new (
          unknown_origin_beside header apart
          ∙ rw known (
              route_loop-joined reliable c l represents max_fork_route_preset way [] found
                (omega arith)))
  block_origin-answer header (too_long new apart known way full) some_block short =
      block_origin_start header some_block
      ∙ rw new (
          unknown_origin_beside header apart
          ∙ rw known
              (route_loop-ancient reliable c l represents max_fork_route_preset way 0 [] full))
  block_origin-answer header (rootless new apart known way off missing near) some_block short =
      block_origin_start header some_block
      ∙ rw new (
          unknown_origin_beside header apart
          ∙ rw known (
              route_loop-rootless reliable c l represents max_fork_route_preset way 0 [] off missing
                near))

  -- Over a database that represents a ledger with a chain, the ledger says for every header what
  -- `block_origin` answers: it is stored; its parent is the best block, or not stored; its parent stands on a
  -- route of fewer than 2048 blocks beside the chain, and then the numbers and both routes follow from it;
  -- or that route has 2048 blocks without reaching the chain. The answer is a panic in one case: the way
  -- leads, within 2048 blocks, down to a block beside the chain whose parent is not stored.
  pub block_origin-OriginOf :
      (header : IndexedBlockHeader Pk Int)
      → 0 < length l.chain
      → length l.chain + max_fork_route_preset < 2 ^ 32
      → ((answer : Run (Result BlockOrigin Error)) × OriginOf l header answer)
        × ((answer : Run (Result BlockOrigin Error))
            → OriginOf l header answer
            → block_origin c header ≡ answer)
  block_origin-OriginOf header some_block short =
      (origin_of l header, λ answer origin. block_origin-answer header origin some_block short)
