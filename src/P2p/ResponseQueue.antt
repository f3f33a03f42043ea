-- ===== src/P2p/ResponseQueue.antt =====
-- p2p/src/util/response_queue.rs: responses that are ready before their turn. A response is its bytes;
-- maps and sets are lists, read by key.
pub mod Complete
use rust_randchain_prototype.Prelude.{
  ℕ, Bool, Option, none, some, List, [], ◌∷◌, ◌++◌, if◌then◌else◌, Run, ok, panic, contains, erase,
}
use rust_randchain_prototype.Prelude.HashMap

abbrev pub Bytes : Type 0
Bytes = List ℕ

pub record ResponseQueue : Type 0 where
  pub unfinished : List (ℕ × List Bytes)
  pub finished : List (ℕ × List Bytes)
  pub ignored : List ℕ

pub data Responses : Type 0 where
  unfinished finished : List Bytes → Responses
  ignored : Responses

unfoldable pub default : ResponseQueue
default = record { unfinished = []; finished = []; ignored = [] }

-- `unwrap_or_default`, and the vector of `or_insert_with(Vec::new)`.
unfoldable pub or_empty : Option (List Bytes) → List Bytes
or_empty none = []
or_empty (some found) = found

unfoldable pub push_unfinished_response : ResponseQueue → ℕ → Bytes → ResponseQueue
unfolding or_empty
push_unfinished_response q id response = record q {
  unfinished =
      HashMap.insert q.unfinished id (or_empty (HashMap.get q.unfinished id) ++ (response ∷ []));
}

unfoldable pub push_finished_response : ResponseQueue → ℕ → Bytes → Run ResponseQueue
unfolding or_empty
push_finished_response q id response =
    let responses = or_empty (HashMap.get q.unfinished id) ++ (response ∷ []) in
    elim (HashMap.get q.finished id) [
      | some previous ↦ panic
      | none ↦ ok (record q {
        unfinished = HashMap.remove q.unfinished id;
        finished = HashMap.insert q.finished id responses;
      })
    ]

unfoldable pub push_ignored_response : ResponseQueue → ℕ → Run ResponseQueue
push_ignored_response q id =
    if contains q.ignored id then panic else ok (record q { ignored = id ∷ q.ignored })

unfoldable pub responses : ResponseQueue → ℕ → Option Responses × ResponseQueue
responses q id = elim (HashMap.get q.unfinished id) [
  | some found ↦ (some (unfinished found), record q { unfinished = HashMap.remove q.unfinished id })
  | none ↦ elim (HashMap.get q.finished id) [
    | some found ↦ (some (finished found), record q { finished = HashMap.remove q.finished id })
    | none ↦
        if contains q.ignored id
        then (some ignored, record q { ignored = erase q.ignored id })
        else (none, q)
  ]
]
