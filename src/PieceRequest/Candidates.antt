-- ===== src/PieceRequest/Candidates.antt =====
-- The policies select candidates only.
use kraken.Base.{
  ℕ, zero, suc, Bool, true, List, [], ◌∷◌, ◌++◌, ltb, ◌==◌, length, ◌≡◌, sym, subst, Option-cases,
  Bool-cases, inl, inr,
}
use kraken.PriorityQueue
use kraken.PriorityQueue.{Item}
use kraken.PriorityQueue.Members.{AllItems, push-AllItems, pop-AllItems}
use kraken.PieceRequest.{Manager, reserve_pieces, request_quota, valid_request}
use kraken.PieceRequest.Types.{Policy, default_policy, rarest_first_policy}
use kraken.PieceRequest.Policies.{sample, reservoir, candidate_queue, take_rarest, select_pieces}
use kraken.PieceRequest.Selection.{
  AllPass, AllPass-snoc, AllPass-set, take_rarest_full, take_rarest_empty, take_rarest_next,
}

sample-AllPass :
    (p : ℕ → Bool) (draws : ℕ → ℕ) (limit i : ℕ) (r : List ℕ × ℕ)
    → p i ≡ true
    → AllPass p r.0
    → AllPass p (sample draws limit i r).0
unfolding sample
sample-AllPass p draws limit i (xs, k) pi all = elim (Bool-cases (ltb (length xs) limit)) [
  | inl room ↦ rw room (AllPass-snoc p xs i all pi)
  | inr full ↦ elim (Bool-cases (ltb (draws k) limit)) [
    | inl hit ↦ rw (full, hit) (AllPass-set p xs (draws k) i all pi)
    | inr miss ↦ rw (full, miss) all
  ]
]

reservoir-AllPass :
    (p : ℕ → Bool) (draws : ℕ → ℕ) (limit : ℕ) (valid : ℕ → Bool) (is : List ℕ) (r : List ℕ × ℕ)
    → AllPass p is
    → AllPass p r.0
    → AllPass p (reservoir draws limit valid is r).0
unfolding reservoir
reservoir-AllPass p draws limit valid [] r cs all = all
reservoir-AllPass p draws limit valid (i ∷ is) r (pi, cs) all = elim (Bool-cases (valid i)) [
  | inl v ↦
      rw (v, reservoir)
        (reservoir-AllPass p draws limit valid is (sample draws limit i r) cs
          (sample-AllPass p draws limit i r pi all))
  | inr v ↦ rw (v, reservoir) (reservoir-AllPass p draws limit valid is r cs all)
]

candidate_queue-AllItems :
    (p : ℕ → Bool) (num_peers : ℕ → ℕ) (is : List ℕ) (q : List Item)
    → AllPass p is
    → AllItems (λ x. p x.value) q
    → AllItems (λ x. p x.value) (candidate_queue num_peers is q)
unfolding candidate_queue
candidate_queue-AllItems p num_peers [] q cs all = all
candidate_queue-AllItems p num_peers (i ∷ is) q (pi, cs) all =
    let x : Item = record { value = i; priority = num_peers i } in
    candidate_queue-AllItems p num_peers is (PriorityQueue.push q x) cs
      (push-AllItems (λ y. p y.value) q x pi all)

take_rarest-AllPass :
    (p : ℕ → Bool) (fuel limit : ℕ) (valid : ℕ → Bool) (q : List Item) (xs : List ℕ)
    → AllItems (λ x. p x.value) q
    → AllPass p xs
    → AllPass p (take_rarest fuel limit valid q xs)
take_rarest-AllPass p zero limit valid q xs all s = unfold take_rarest in s
take_rarest-AllPass p (suc fuel) limit valid q xs all s =
    elim (Bool-cases (ltb (length xs) limit)) [
      | inr full ↦ subst (AllPass p) (sym (take_rarest_full fuel limit valid q xs full)) s
      | inl room ↦ elim (Option-cases (PriorityQueue.pop q)) [
        | inl e ↦ subst (AllPass p) (sym (take_rarest_empty fuel limit valid q xs e)) s
        | inr ((item, rest), e) ↦
            let (pi, all') = pop-AllItems (λ x. p x.value) q rest item e all in
            subst (AllPass p) (sym (take_rarest_next fuel limit valid q xs item rest room e))
              (elim (Bool-cases (valid item.value)) [
                | inl v ↦ rw v (
                    take_rarest-AllPass p fuel limit valid rest (xs ++ item.value ∷ []) all'
                      (AllPass-snoc p xs item.value s pi))
                | inr v ↦ rw v (take_rarest-AllPass p fuel limit valid rest xs all' s)
              ])
      ]
    ]

pub select_pieces-AllPass :
    (p : ℕ → Bool) (policy : Policy) (draws : ℕ → ℕ) (limit : ℕ) (valid : ℕ → Bool)
    (candidates : List ℕ) (num_peers : ℕ → ℕ)
    → AllPass p candidates
    → AllPass p (select_pieces policy draws limit valid candidates num_peers)
unfolding select_pieces
select_pieces-AllPass p default_policy draws limit valid candidates num_peers cs =
    elim (Bool-cases (limit == 0)) [
      | inl zero_limit ↦ rw zero_limit tt
      | inr more ↦ rw more (reservoir-AllPass p draws limit valid candidates ([], 0) cs tt)
    ]
select_pieces-AllPass p rarest_first_policy draws limit valid candidates num_peers cs =
    take_rarest-AllPass p _ limit valid (candidate_queue num_peers candidates []) []
      (candidate_queue-AllItems p num_peers candidates [] cs (λ k below. elim below [ ])) tt

-- What is known of every candidate is known of the pieces that are reserved.
pub reserve_pieces-AllPass :
    (p : ℕ → Bool) (draws num_peers : ℕ → ℕ) (now peer : ℕ) (candidates : List ℕ) (allow : Bool)
    (m : Manager)
    → AllPass p candidates
    → AllPass p (reserve_pieces draws num_peers now peer candidates allow m).1
unfolding reserve_pieces
reserve_pieces-AllPass p draws num_peers now peer candidates allow m cs =
    elim (Bool-cases (request_quota now m peer == 0)) [
      | inl none_left ↦ rw none_left tt
      | inr some_left ↦ rw some_left (
          select_pieces-AllPass p m.policy draws (request_quota now m peer)
            (λ i. valid_request now m peer i allow) candidates num_peers cs)
    ]
