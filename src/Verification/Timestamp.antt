-- ===== src/Verification/Timestamp.antt =====
-- verification/src/timestamp.rs: the median of the times of the last eleven headers.
use rust_randchain_prototype.Prelude.{
  ℕ, ◌/◌, List, [], ◌∷◌, map, leb, if◌then◌else◌, H256, Run, ok, expect, length, get_elem?,
}
use rust_randchain_prototype.Blocks.{BlockHeader, by_hash}
use rust_randchain_prototype.Storage
use rust_randchain_prototype.Storage.{BlockHeaderProvider}

unfoldable pub insert_sorted : ℕ → List ℕ → List ℕ
insert_sorted t [] = t ∷ []
insert_sorted t (x ∷ xs) = let rest = insert_sorted t xs in if leb t x then t ∷ x ∷ xs else x ∷ rest

-- `timestamps.sort()`
unfoldable pub sort : List ℕ → List ℕ
unfolding insert_sorted
sort [] = []
sort (t ∷ ts) = insert_sorted t (sort ts)

-- What `median_timestamp_inclusive` does with the collected times.
unfoldable pub median : List ℕ → Run ℕ
unfolding sort
median [] = ok 0
median (t ∷ ts) = expect (get_elem? (sort (t ∷ ts)) (length (t ∷ ts) / 2))

module _ {Pk Int : Type 0} where
  unfoldable pub ancestor_times : H256 → BlockHeaderProvider Pk Int → List ℕ
  ancestor_times previous_header_hash store =
      map (λ header. header.raw.time)
        (Storage.collect 11 (Storage.new (by_hash previous_header_hash) store))

  unfoldable pub median_timestamp_inclusive : H256 → BlockHeaderProvider Pk Int → Run ℕ
  unfolding ancestor_times median
  median_timestamp_inclusive previous_header_hash store =
      median (ancestor_times previous_header_hash store)

  unfoldable pub median_timestamp : BlockHeader Pk Int → BlockHeaderProvider Pk Int → Run ℕ
  median_timestamp header store = median_timestamp_inclusive header.previous_header_hash store
