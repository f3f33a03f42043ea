-- ===== src/P2p/ResponseQueue/Complete.antt =====
-- `ResponseQueue`: the responses to a request come out together, in the order in which they were pushed.
use rust_randchain_prototype.Prelude.{
  ℕ, ◌≡◌, refl, sym, ap, ◌∙◌, Bool, true, false, none, some, List, [], ◌∷◌, ◌++◌, append-nil,
  append_assoc, ◌==◌, ==_self, ==_iff, if◌then◌else◌, Bool-cases, inl, inr, ok, panic,
}
use rust_randchain_prototype.Prelude.HashMap
use rust_randchain_prototype.Prelude.HashMap.{get-insert, get-remove}
use rust_randchain_prototype.P2p.ResponseQueue.{
  Bytes, ResponseQueue, finished, or_empty, push_unfinished_response, push_finished_response,
  responses,
}

-- The responses to a request that are not finished.
unfoldable pub pending : ResponseQueue → ℕ → List Bytes
unfolding or_empty
pending q id = or_empty (HashMap.get q.unfinished id)

-- Responses to several requests, pushed in order.
unfoldable pub push_all : ResponseQueue → List (ℕ × Bytes) → ResponseQueue
push_all q [] = q
push_all q ((id, response) ∷ pushes) = push_all (push_unfinished_response q id response) pushes

-- Those that belong to one request.
abbrev pub selected : ℕ → List (ℕ × Bytes) → List Bytes
selected id [] = []
selected id ((j, response) ∷ pushes) =
    let rest = selected id pushes in if j == id then response ∷ rest else rest

push-pending :
    (q : ResponseQueue) (j id : ℕ) (response : Bytes)
    → pending (push_unfinished_response q j response) id
      ≡ (if j == id then pending q id ++ (response ∷ []) else pending q id)
unfolding pending push_unfinished_response or_empty
push-pending q j id response =
    let grown : List Bytes = or_empty (HashMap.get q.unfinished j) ++ (response ∷ []) in
    ap or_empty (get-insert q.unfinished j grown id) ∙ (elim (Bool-cases (j == id)) [
      | inl e ↦
          let same : j ≡ id = (==_iff j id).0 e in
          rw e (ap (λ k. or_empty (HashMap.get q.unfinished k) ++ (response ∷ [])) same)
      | inr e ↦ rw e refl
    ])

push_all-pending :
    (pushes : List (ℕ × Bytes)) (q : ResponseQueue) (id : ℕ)
    → pending (push_all q pushes) id ≡ pending q id ++ selected id pushes
unfolding push_all
push_all-pending [] q id = sym (append-nil (pending q id))
push_all-pending ((j, response) ∷ pushes) q id =
    push_all-pending pushes (push_unfinished_response q j response) id
    ∙ ap (λ l. l ++ selected id pushes) (push-pending q j id response)
    ∙ go (j == id)
  where
    go :
        (test : Bool)
        → (if test then pending q id ++ (response ∷ []) else pending q id) ++ selected id pushes
          ≡ pending q id ++ (if test then response ∷ selected id pushes else selected id pushes)
    go true = append_assoc (pending q id) (response ∷ []) (selected id pushes)
    go false = refl

push_all-finished :
    (pushes : List (ℕ × Bytes)) (q : ResponseQueue) → (push_all q pushes).finished ≡ q.finished
unfolding push_all push_unfinished_response
push_all-finished [] q = refl
push_all-finished ((j, response) ∷ pushes) q =
    push_all-finished pushes (push_unfinished_response q j response)

taken :
    (q : ResponseQueue) (id : ℕ) (found : List Bytes)
    → HashMap.get q.unfinished id ≡ none
    → HashMap.get q.finished id ≡ some found
    → (responses q id).0 ≡ some (finished found)
unfolding responses
taken q id found none_left there = rw (none_left, there, responses) refl

finish :
    (q : ResponseQueue) (id : ℕ) (last : Bytes)
    → HashMap.get q.finished id ≡ none
    → (q' : ResponseQueue) × (push_finished_response q id last ≡ ok q')
      × ((responses q' id).0 ≡ some (finished (pending q id ++ (last ∷ []))))
unfolding push_finished_response pending
finish q id last e =
    let all : List Bytes = pending q id ++ (last ∷ []) in
    let q' : ResponseQueue = record q {
      unfinished = HashMap.remove q.unfinished id;
      finished = HashMap.insert q.finished id all;
    } in
    (
      q',
      ap (λ o. elim o [ some previous ↦ panic | none ↦ ok q' ]) e,
      taken q' id all
          (get-remove q.unfinished id id
            ∙ ap (λ t. if t then none else HashMap.get q.unfinished id) (==_self id))
          (get-insert q.finished id all id
            ∙ ap (λ t. if t then some all else HashMap.get q.finished id) (==_self id)),
    )

-- When a request has no finished responses yet: after unfinished responses to any requests, in any
-- interleaving, its finished response is taken without a panic, and then `responses` answers with all of its
-- own responses, in the order of their pushes.
pub push_finished_response-responses :
    (pushes : List (ℕ × Bytes)) (q : ResponseQueue) (id : ℕ) (last : Bytes)
    → HashMap.get q.finished id ≡ none
    → (q' : ResponseQueue) × (push_finished_response (push_all q pushes) id last ≡ ok q')
      × ((responses q' id).0
          ≡ some (finished ((pending q id ++ selected id pushes) ++ (last ∷ []))))
push_finished_response-responses pushes q id last e =
    let (q', pushed, found) =
      finish (push_all q pushes) id last
        (ap (λ m. HashMap.get m id) (push_all-finished pushes q) ∙ e) in
    (
      q',
      pushed,
      found ∙ ap (λ l. some (finished (l ++ (last ∷ [])))) (push_all-pending pushes q id),
    )
