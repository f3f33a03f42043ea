-- ===== src/Sync/Tests/Flight.antt =====
-- `Chain` on a small state: one hash under verification, one requested and two scheduled.
use rust_randchain_prototype.Prelude.{ℕ, ◌≡◌, refl, [], ◌∷◌, arith, ok, take, erase}
use rust_randchain_prototype.Sync.HashQueue
use rust_randchain_prototype.Sync.HashQueue.{HashQueue, HashPosition}
use rust_randchain_prototype.Sync.QueueChain
use rust_randchain_prototype.Sync.BestHeaders
use rust_randchain_prototype.Sync.Chain.{Chain, request_blocks_hashes, forget_block_leave_header}
use rust_randchain_prototype.Sync.Chain.Moves.{
  IsOrdered, three, in_flight, request_blocks_hashes-in_flight,
}
use rust_randchain_prototype.Sync.Chain.Forget.{Located, forget_block_leave_header-in_flight}
use rust_randchain_prototype.Sync.Chain.Report.{information}

abbrev pub first : HashQueue
first = record { queue = 1 ∷ []; set = 1 ∷ [] }

abbrev pub second : HashQueue
second = record { queue = 2 ∷ []; set = 2 ∷ [] }

abbrev pub third : HashQueue
third = record { queue = 3 ∷ 4 ∷ []; set = 4 ∷ 3 ∷ [] }

abbrev pub flying : Chain ℕ ℕ ℕ
flying = record {
  genesis_block_hash = 9;
  best_storage_block = record { number = 5; hash = 0 };
  storage = 0;
  hash_chain = three first second third;
  headers_chain = BestHeaders.new ℕ ℕ 0;
  dead_end_blocks = [];
}

flying-IsOrdered : IsOrdered (three first second third)
flying-IsOrdered = record {
  verifying = first;
  requested = second;
  scheduled = third;
  shape = refl;
  verifying_valid = record { distinct = ground arith; same = λ h. ground arith };
  requested_valid = record { distinct = ground arith; same = λ h. ground arith };
  scheduled_valid = record { distinct = ground arith; same = λ h. ground arith };
  distinct = ground arith;
}

request_blocks_hashes-in_flight_example :
    (c' : Chain ℕ ℕ ℕ) × (request_blocks_hashes flying 1 ≡ ok (take 1 (3 ∷ 4 ∷ []), c'))
    × (in_flight c' ≡ in_flight flying)
    × (o' : IsOrdered c'.hash_chain) × (o'.verifying ≡ first)
    × (o'.requested.queue ≡ 2 ∷ 3 ∷ [])
    × (o'.scheduled.queue ≡ 4 ∷ [])
    × (c'.headers_chain ≡ flying.headers_chain)
unfolding flying-IsOrdered
request_blocks_hashes-in_flight_example = request_blocks_hashes-in_flight flying 1 flying-IsOrdered

forget_block_leave_header-in_flight_example :
    (p : HashPosition) × (c' : Chain ℕ ℕ ℕ) × (forget_block_leave_header flying 4 ≡ ok (p, c'))
    × Located first second third 4 p
    × (in_flight c' ≡ erase (in_flight flying) 4)
    × (o' : IsOrdered c'.hash_chain) × (o'.verifying.queue ≡ 1 ∷ [])
    × (o'.requested.queue ≡ 2 ∷ [])
    × (o'.scheduled.queue ≡ 3 ∷ [])
    × (c'.headers_chain ≡ flying.headers_chain)
unfolding flying-IsOrdered erase
forget_block_leave_header-in_flight_example =
    forget_block_leave_header-in_flight flying 4 flying-IsOrdered
      (omega arith, omega arith, omega arith)

information-flying :
    information flying
    ≡ ok (record {
      scheduled = 2;
      requested = 1;
      verifying = 1;
      stored = 6;
      headers = record { best = 0; total = 0 };
    })
unfolding information BestHeaders.new QueueChain.len_of HashQueue.len BestHeaders.information
    HashQueue.new
information-flying = refl
