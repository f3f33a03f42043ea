-- ===== src/P2p/Tests.antt =====
-- The synchronizers of p2p/src/util/synchronizer.rs and the queue of p2p/src/util/response_queue.rs on small
-- runs.
use rust_randchain_prototype.Prelude.{
  ◌≤◌, ℕ, ◌+◌, ◌-◌, ◌%◌, ◌^◌, ◌≡◌, refl, true, false, List, [], ◌∷◌, arith, ltb, length, take, ◌++◌,
  some, ok,
}
use rust_randchain_prototype.Prelude.HashMap
use rust_randchain_prototype.P2p.ResponseQueue.{
  ResponseQueue, finished, default, push_finished_response, responses,
}
use rust_randchain_prototype.P2p.ResponseQueue.Complete.{
  pending, push_all, selected, push_finished_response-responses,
}
use rust_randchain_prototype.P2p.Synchronizer.Fifo
use rust_randchain_prototype.P2p.Synchronizer.Threshold
use rust_randchain_prototype.P2p.Synchronizer.Configurable
use rust_randchain_prototype.P2p.Synchronizer.Ids.{ids_from}
use rust_randchain_prototype.P2p.Synchronizer.Order
use rust_randchain_prototype.P2p.Synchronizer.Window.{within_threshold-window}
use rust_randchain_prototype.P2p.Synchronizer.Policy

-- `test_fifo_synchronizer` of the source.
abbrev fifo_calls : List Order.Call
fifo_calls =
    Order.declare
    ∷ Order.declare
    ∷ Order.declare
    ∷ Order.ask 1
    ∷ Order.ask 2
    ∷ Order.ask 0
    ∷ Order.ask 2
    ∷ Order.ask 1
    ∷ Order.ask 2
    ∷ []

fifo_granted : (Order.run Fifo.default fifo_calls).granted ≡ 0 ∷ 1 ∷ 2 ∷ []
unfolding Order.run Fifo.default Fifo.declare_response Fifo.permission_for_response
fifo_granted = refl

run-granted_example :
    (length (Order.run Fifo.default fifo_calls).granted
      ≤ length (Order.run Fifo.default fifo_calls).declared)
    × ((Order.run Fifo.default fifo_calls).granted
        ≡ take
            (length (Order.run Fifo.default fifo_calls).granted)
            (Order.run Fifo.default fifo_calls).declared)
unfolding Order.run Fifo.default Fifo.declare_response Fifo.permission_for_response
run-granted_example = Order.run-granted fifo_calls Fifo.default refl (omega arith) (omega arith) (
  (1, omega arith, refl),
  (
    (2, omega arith, refl),
    (
      (0, omega arith, refl),
      ((2, omega arith, refl), ((1, omega arith, refl), ((2, omega arith, refl), tt))),
    ),
  ),
)

within_threshold-window_example :
    Threshold.within_threshold (Threshold.new 1 3) 4294967295
    ≡ ltb (((1 + 2 ^ 32) - (4294967295 + 1)) % 2 ^ 32) 3
within_threshold-window_example =
    within_threshold-window 1 3 4294967295 (omega arith) (omega arith) (omega arith)

abbrev policy_calls : List Policy.Call
policy_calls =
    Policy.declare
    ∷ Policy.ask 0
    ∷ Policy.change true
    ∷ Policy.declare
    ∷ Policy.ask 5
    ∷ Policy.change false
    ∷ Policy.declare
    ∷ []

declared-ids_from_example :
    Policy.declared Configurable.default policy_calls
    ≡ ids_from
        (Policy.counter Configurable.default)
        (length (Policy.declared Configurable.default policy_calls))
declared-ids_from_example = Policy.declared-ids_from policy_calls Configurable.default

permission_for_response-is_permitted_example :
    (Configurable.permission_for_response (Configurable.new true) 0).0
    ≡ Configurable.is_permitted (Configurable.new true) 0
permission_for_response-is_permitted_example =
    Policy.permission_for_response-is_permitted (Configurable.new true) 0

-- Two responses to request 7 and one to request 8, interleaved.
abbrev pushes : List (ℕ × List ℕ)
pushes = (7, 1 ∷ []) ∷ (8, 2 ∷ []) ∷ (7, 3 ∷ []) ∷ []

push_finished_response-responses_example :
    (q' : ResponseQueue) × (push_finished_response (push_all default pushes) 7 (4 ∷ []) ≡ ok q')
    × ((responses q' 7).0
        ≡ some (finished ((pending default 7 ++ selected 7 pushes) ++ ((4 ∷ []) ∷ []))))
unfolding default HashMap.get
push_finished_response-responses_example =
    push_finished_response-responses pushes default 7 (4 ∷ []) refl
