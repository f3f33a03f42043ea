-- ===== src/Sync/Tests/Headers.antt =====
-- `BestHeadersChain` on small inputs.
use rust_randchain_prototype.Prelude.{ℕ, ◌≡◌, refl, List, [], ◌∷◌, ◌++◌, arith, H256, ok, take}
use rust_randchain_prototype.Prelude.HashMap
use rust_randchain_prototype.Blocks.{IndexedBlockHeader, hashes}
use rust_randchain_prototype.Sync.HashQueue
use rust_randchain_prototype.Sync.HashQueue.{HashQueue}
use rust_randchain_prototype.Sync.BestHeaders
use rust_randchain_prototype.Sync.BestHeaders.{BestHeadersChain}
use rust_randchain_prototype.Sync.BestHeaders.Linked.{IsValid}
use rust_randchain_prototype.Sync.BestHeaders.Insert.{insert_n-hashes}
use rust_randchain_prototype.Sync.BestHeaders.Remove.{remove-take}
use rust_randchain_prototype.Sync.BestHeaders.Stored.{after_stored, block_inserted_to_storage_lem}
use rust_randchain_prototype.Sync.BestHeaders.Steps.{here, next, inserts_n, HeadersReach-IsValid}

-- `VrfPk` and `Integer` taken as numbers.
abbrev Header : Type 0
Header = IndexedBlockHeader ℕ ℕ

abbrev header : H256 → H256 → Header
header hash previous = record {
  hash = hash;
  raw = record {
    version = 1;
    previous_header_hash = previous;
    time = 4;
    bits = 5;
    pubkey = 6;
    iterations = 100000;
    randomness = 8;
  };
}

abbrev two_headers : List Header
two_headers = header 11 10 ∷ header 12 11 ∷ []

abbrev empty : BestHeadersChain ℕ ℕ
empty = BestHeaders.new ℕ ℕ 10

abbrev two : BestHeadersChain ℕ ℕ
two = record {
  storage_best_hash = 10;
  headers = (11, header 11 10) ∷ (12, header 12 11) ∷ [];
  best = record { queue = 11 ∷ 12 ∷ []; set = 12 ∷ 11 ∷ [] };
}

insert_two : BestHeaders.insert_n empty two_headers ≡ ok two
unfolding BestHeaders.insert_n BestHeaders.insert BestHeaders.new BestHeaders.best_block_hash
    HashQueue.new HashQueue.back HashQueue.push_back HashMap.insert
insert_two = refl

two-IsValid : IsValid two
two-IsValid = HeadersReach-IsValid 10 (next here (inserts_n empty two two_headers insert_two))

HeadersReach-IsValid_example : IsValid two
HeadersReach-IsValid_example =
    HeadersReach-IsValid 10 (next here (inserts_n empty two two_headers insert_two))

insert_n-hashes_example :
    (c : BestHeadersChain ℕ ℕ) × (BestHeaders.insert_n two (header 13 12 ∷ []) ≡ ok c)
    × (c.best.queue ≡ (11 ∷ 12 ∷ []) ++ hashes (header 13 12 ∷ []))
    × IsValid c
insert_n-hashes_example =
    insert_n-hashes (header 13 12 ∷ []) two two-IsValid
      (unfold BestHeaders.best_block_hash HashQueue.back in (refl, tt)) (ground arith)

remove-take_example :
    (c : BestHeadersChain ℕ ℕ) × (BestHeaders.remove two 12 ≡ ok c)
    × (c.best.queue ≡ take 1 (11 ∷ 12 ∷ []))
    × IsValid c
remove-take_example = remove-take two 12 1 two-IsValid (omega arith) refl

block_inserted_to_storage_lem_example :
    IsValid (BestHeaders.block_inserted_to_storage two 11 11)
    × ((BestHeaders.block_inserted_to_storage two 11 11).best.queue
        ≡ after_stored (11 ∷ 12 ∷ []) 11)
    × ((BestHeaders.block_inserted_to_storage two 11 11).storage_best_hash ≡ 11)
block_inserted_to_storage_lem_example = block_inserted_to_storage_lem two 11 11 two-IsValid
