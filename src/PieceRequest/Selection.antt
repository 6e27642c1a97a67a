-- ===== src/PieceRequest/Selection.antt =====
-- What the policies select: valid candidates only, and no more than the limit.
use kraken.Base.{
  ℕ, zero, suc, ◌≤◌, Bool, true, false, none, some, List, [], ◌∷◌, ◌++◌, if◌then◌else◌, ltb, ◌==◌,
  length, set, ◌≡◌, refl, sym, subst, Option-cases, arith, length-append, length-set, Bool-cases,
  inl, inr,
}
use kraken.PriorityQueue
use kraken.PriorityQueue.{Item}
use kraken.PieceRequest.Types.{Policy, default_policy, rarest_first_policy}
use kraken.PieceRequest.Policies.{sample, reservoir, candidate_queue, take_rarest, select_pieces}

-- Each listed piece passes the test.
abbrev pub AllPass : (ℕ → Bool) → List ℕ → Type 0
AllPass valid [] = Unit
AllPass valid (x ∷ xs) = (valid x ≡ true) × AllPass valid xs

pub AllPass-snoc :
    (valid : ℕ → Bool) (xs : List ℕ) (i : ℕ)
    → AllPass valid xs
    → valid i ≡ true
    → AllPass valid (xs ++ i ∷ [])
AllPass-snoc valid [] i a v = (v, tt)
AllPass-snoc valid (x ∷ xs) i a v = (a.0, AllPass-snoc valid xs i a.1 v)

pub AllPass-set :
    (valid : ℕ → Bool) (xs : List ℕ) (j i : ℕ)
    → AllPass valid xs
    → valid i ≡ true
    → AllPass valid (set xs j i)
AllPass-set valid [] j i a v = tt
AllPass-set valid (x ∷ xs) zero i a v = (v, a.1)
AllPass-set valid (x ∷ xs) (suc j) i a v = (a.0, AllPass-set valid xs j i a.1 v)

-- The selection so far is within the limit and valid.
abbrev pub Selected : ℕ → (ℕ → Bool) → List ℕ → Type 0
Selected limit valid xs = (length xs ≤ limit) × AllPass valid xs

sample-Selected :
    (draws : ℕ → ℕ) (limit : ℕ) (valid : ℕ → Bool) (i k : ℕ) (xs : List ℕ)
    → valid i ≡ true
    → Selected limit valid xs
    → Selected limit valid (sample draws limit i (xs, k)).0
unfolding sample
sample-Selected draws limit valid i k xs v s = elim (Bool-cases (ltb (length xs) limit)) [
  | inl room ↦ rw room (ground (arith, length-append xs (i ∷ [])), AllPass-snoc valid xs i s.1 v)
  | inr full ↦ elim (Bool-cases (ltb (draws k) limit)) [
    | inl hit ↦
        rw (full, hit)
          (omega (arith, length-set xs (draws k) i, s.0), AllPass-set valid xs (draws k) i s.1 v)
    | inr miss ↦ rw (full, miss) s
  ]
]

reservoir-Selected :
    (draws : ℕ → ℕ) (limit : ℕ) (valid : ℕ → Bool) (is : List ℕ) (state : List ℕ × ℕ)
    → Selected limit valid state.0
    → Selected limit valid (reservoir draws limit valid is state).0
unfolding reservoir
reservoir-Selected draws limit valid [] state s = s
reservoir-Selected draws limit valid (i ∷ is) state s =
    reservoir-Selected draws limit valid is _ (advance (valid i) refl)
  where
    advance :
        (b : Bool)
        → valid i ≡ b
        → Selected limit valid (if b then sample draws limit i state else state).0
    advance true v = sample-Selected draws limit valid i state.1 state.0 v s
    advance false v = s

-- One round of the rarest-first loop.
module _ (fuel limit : ℕ) (valid : ℕ → Bool) (q : List Item) (xs : List ℕ) where
  pub take_rarest_full :
      ltb (length xs) limit ≡ false → take_rarest (suc fuel) limit valid q xs ≡ xs
  unfolding take_rarest
  take_rarest_full full = rw full

  pub take_rarest_empty : PriorityQueue.pop q ≡ none → take_rarest (suc fuel) limit valid q xs ≡ xs
  unfolding take_rarest
  take_rarest_empty e = ground arith

  pub take_rarest_next :
      (item : Item) (rest : List Item)
      → ltb (length xs) limit ≡ true
      → PriorityQueue.pop q ≡ some (item, rest)
      → take_rarest (suc fuel) limit valid q xs
        ≡ take_rarest fuel limit valid rest (if valid item.value then xs ++ item.value ∷ [] else xs)
  unfolding take_rarest
  take_rarest_next item rest room e = rw (room, e)

extend-Selected :
    (limit : ℕ) (valid : ℕ → Bool) (i : ℕ) (xs : List ℕ)
    → ltb (length xs) limit ≡ true
    → Selected limit valid xs
    → Selected limit valid (if valid i then xs ++ i ∷ [] else xs)
extend-Selected limit valid i xs room s = go (valid i) refl
  where
    go : (b : Bool) → valid i ≡ b → Selected limit valid (if b then xs ++ i ∷ [] else xs)
    go true v = (ground (arith, length-append xs (i ∷ [])), AllPass-snoc valid xs i s.1 v)
    go false v = s

take_rarest-Selected :
    (fuel limit : ℕ) (valid : ℕ → Bool) (q : List Item) (xs : List ℕ)
    → Selected limit valid xs
    → Selected limit valid (take_rarest fuel limit valid q xs)
take_rarest-Selected zero limit valid q xs s = unfold take_rarest in s
take_rarest-Selected (suc fuel) limit valid q xs s = elim (Bool-cases (ltb (length xs) limit)) [
  | inr full ↦ subst (Selected limit valid) (sym (take_rarest_full fuel limit valid q xs full)) s
  | inl room ↦ elim (Option-cases (PriorityQueue.pop q)) [
    | inl e ↦ subst (Selected limit valid) (sym (take_rarest_empty fuel limit valid q xs e)) s
    | inr ((item, rest), e) ↦
        subst (Selected limit valid) (sym (take_rarest_next fuel limit valid q xs item rest room e))
          (take_rarest-Selected fuel limit valid rest _
            (extend-Selected limit valid item.value xs room s))
  ]
]

-- Both policies select at most as many pieces as the limit, and only valid ones.
pub select_pieces-Selected :
    (policy : Policy) (draws : ℕ → ℕ) (limit : ℕ) (valid : ℕ → Bool) (candidates : List ℕ)
    (num_peers : ℕ → ℕ)
    → Selected limit valid (select_pieces policy draws limit valid candidates num_peers)
unfolding select_pieces
select_pieces-Selected default_policy draws limit valid candidates num_peers =
    elim (Bool-cases (limit == 0)) [
      | inl zero_limit ↦ rw zero_limit (omega arith)
      | inr more ↦ rw more (reservoir-Selected draws limit valid candidates ([], 0) (omega arith))
    ]
select_pieces-Selected rarest_first_policy draws limit valid candidates num_peers =
    take_rarest-Selected _ limit valid (candidate_queue num_peers candidates []) [] (omega arith)
