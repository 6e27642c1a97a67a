-- ===== src/PieceRequest/Policies.antt =====
-- The piece selection policies: default_policy.go and rarest_first_policy.go. The bit set of
-- candidates is the list of its set bits, ascending, and the counters are a function.
use kraken.Base.{
  ℕ, suc, zero, ◌+◌, Bool, none, some, List, [], ◌∷◌, ◌++◌, if◌then◌else◌, ltb, ◌==◌, length, set,
}
use kraken.PriorityQueue
use kraken.PriorityQueue.{Item}
use kraken.PieceRequest.Types.{Policy, default_policy, rarest_first_policy}

-- One valid candidate of the reservoir sampling: the reservoir, and how many were seen before.
-- `draws k` is what `rand.Intn(k)` answers.
unfoldable pub sample : (ℕ → ℕ) → ℕ → ℕ → List ℕ × ℕ → List ℕ × ℕ
sample draws limit i (pieces, k) =
    if ltb (length pieces) limit
    then (pieces ++ i ∷ [], k + 1)
    else if ltb (draws k) limit
    then (set pieces (draws k) i, k + 1)
    else (pieces, k + 1)

unfoldable pub reservoir : (ℕ → ℕ) → ℕ → (ℕ → Bool) → List ℕ → List ℕ × ℕ → List ℕ × ℕ
unfolding sample
reservoir draws limit valid [] state = state
reservoir draws limit valid (i ∷ is) state =
    reservoir draws limit valid is (if valid i then sample draws limit i state else state)

unfoldable pub select_default : (ℕ → ℕ) → ℕ → (ℕ → Bool) → List ℕ → List ℕ
unfolding reservoir
select_default draws limit valid candidates =
    if limit == 0 then [] else (reservoir draws limit valid candidates ([], 0)).0

unfoldable pub candidate_queue : (ℕ → ℕ) → List ℕ → List Item → List Item
candidate_queue num_peers [] q = q
candidate_queue num_peers (i ∷ is) q =
    candidate_queue num_peers is
      (PriorityQueue.push q (record { value = i; priority = num_peers i }))

-- Each round takes an item off the queue, so the queue's length is fuel enough.
unfoldable pub take_rarest : ℕ → ℕ → (ℕ → Bool) → List Item → List ℕ → List ℕ
take_rarest zero limit valid q pieces = pieces
take_rarest (suc fuel) limit valid q pieces =
    if ltb (length pieces) limit
    then elim (PriorityQueue.pop q) [
      | none ↦ pieces
      | some (item, rest) ↦
          take_rarest fuel limit valid rest
            (if valid item.value then pieces ++ item.value ∷ [] else pieces)
    ]
    else pieces

unfoldable pub select_rarest_first : (ℕ → ℕ) → ℕ → (ℕ → Bool) → List ℕ → List ℕ
unfolding candidate_queue take_rarest
select_rarest_first num_peers limit valid candidates =
    let q = candidate_queue num_peers candidates [] in take_rarest (length q) limit valid q []

unfoldable pub select_pieces : Policy → (ℕ → ℕ) → ℕ → (ℕ → Bool) → List ℕ → (ℕ → ℕ) → List ℕ
unfolding select_default select_rarest_first
select_pieces default_policy draws limit valid candidates num_peers =
    select_default draws limit valid candidates
select_pieces rarest_first_policy draws limit valid candidates num_peers =
    select_rarest_first num_peers limit valid candidates
