-- ===== src/Sync/Tests/Queues.antt =====
-- `HashQueue`, `HashQueueChain` and `KnownHashFilter` on small inputs.
use rust_randchain_prototype.Prelude.{
  ◌≡◌, refl, not, [], ◌∷◌, arith, H256, ok, panic, get_elem?, get_last?, contains, erase,
}
use rust_randchain_prototype.Sync.HashQueue
use rust_randchain_prototype.Sync.HashQueue.{HashQueue, HashPosition, missing, front, inside}
use rust_randchain_prototype.Sync.HashQueue.Invariant.{IsValid}
use rust_randchain_prototype.Sync.HashQueue.Positions.{PositionOf, remove-erase}
use rust_randchain_prototype.Sync.HashQueue.Steps.{
  here, next, pushes_back_n, removes, QueueReach-IsValid,
}
use rust_randchain_prototype.Sync.QueueChain
use rust_randchain_prototype.Sync.QueueChain.{HashQueueChain}
use rust_randchain_prototype.Sync.QueueChain.Order.{len-at-flat, back-flat}
use rust_randchain_prototype.Sync.KnownHashFilter
use rust_randchain_prototype.Sync.KnownHashFilter.Bounds.{insert_all, newest}
use rust_randchain_prototype.Sync.KnownHashFilter.Newest.{filter_block-newest}

abbrev three : HashQueue
three = record { queue = 1 ∷ 2 ∷ 3 ∷ []; set = 3 ∷ 2 ∷ 1 ∷ [] }

three-IsValid : IsValid three
three-IsValid = record { distinct = ground arith; same = λ h. ground arith }

push_three : HashQueue.push_back_n HashQueue.new (1 ∷ 2 ∷ 3 ∷ []) ≡ ok three
unfolding HashQueue.push_back_n HashQueue.new
push_three = refl

push_again : HashQueue.push_back_n three (4 ∷ 2 ∷ []) ≡ panic
unfolding HashQueue.push_back_n
push_again = refl

abbrev one_three : HashQueue
one_three = record { queue = 1 ∷ 3 ∷ []; set = 3 ∷ 1 ∷ [] }

remove_two : HashQueue.remove three 2 ≡ ok (inside 1, one_three)
unfolding HashQueue.remove HashQueue.remove_loop erase
remove_two = refl

QueueReach-IsValid_example : IsValid one_three
QueueReach-IsValid_example = QueueReach-IsValid (
    next (next here (pushes_back_n HashQueue.new three (1 ∷ 2 ∷ 3 ∷ []) push_three))
      (removes three one_three 2 (inside 1) remove_two))

remove-erase_example :
    (p : HashPosition) × (HashQueue.remove three 2
      ≡ ok (p, record { queue = erase (1 ∷ 2 ∷ 3 ∷ []) 2; set = erase (3 ∷ 2 ∷ 1 ∷ []) 2 }))
    × PositionOf three 2 p
remove-erase_example = remove-erase three 2 three-IsValid (omega arith)

abbrev empty : HashQueue
empty = record { queue = []; set = [] }

abbrev pair : HashQueueChain
pair = record { chain = three ∷ empty ∷ one_three ∷ [] }

len-at-flat_example :
    (QueueChain.len pair ≡ 5) × (QueueChain.at pair 3 ≡ get_elem? (1 ∷ 2 ∷ 3 ∷ 1 ∷ 3 ∷ []) 3)
len-at-flat_example = len-at-flat pair 3 (omega arith)

-- Three hashes in the first queue, and `back` finds none.
back-flat_example :
    QueueChain.back (record { chain = three ∷ empty ∷ empty ∷ [] }) ≡ ok (get_last? {A = H256} [])
back-flat_example = back-flat three (empty ∷ empty ∷ []) (omega arith)

filter_block-newest_example :
    KnownHashFilter.filter_block (insert_all KnownHashFilter.default (7 ∷ 8 ∷ [])) 7
    ≡ not (contains (newest (7 ∷ 8 ∷ [])) 7)
filter_block-newest_example = filter_block-newest (7 ∷ 8 ∷ []) 7 (ground arith)
