-- ===== src/PieceRequest/Sampling.antt =====
-- The distribution of the default policy's reservoir sampling.
use kraken.Base.{
  ℕ, zero, suc, ◌<◌, Bool, true, false, List, [], ◌∷◌, if◌then◌else◌, set, count, count-append, ◌≡◌,
  ◌≢◌, refl, arith, subst, sym, ap, ◌∙◌,
}
use kraken.PieceRequest.Policies.{sample, reservoir, select_default}

count-set_absent :
    (a : ℕ) (xs : List ℕ) (j i : ℕ) → a ≢ i → count a xs ≡ 0 → count a (set xs j i) ≡ 0
count-set_absent a [] j i n z = refl
count-set_absent a (x ∷ xs) zero i n z = ground arith
count-set_absent a (x ∷ xs) (suc j) i n z = ground (arith, count-set_absent a xs j i n)

sample_absent :
    (draws : ℕ → ℕ) (limit a i k : ℕ) (xs : List ℕ)
    → a ≢ i
    → count a xs ≡ 0
    → count a (sample draws limit i (xs, k)).0 ≡ 0
unfolding sample
sample_absent draws limit a i k xs n z =
    ground (arith, count-append a xs (i ∷ []), count-set_absent a xs (draws k) i n z)

-- What is neither in the reservoir nor among the candidates left does not come in.
reservoir_absent :
    (draws : ℕ → ℕ) (limit a : ℕ) (valid : ℕ → Bool) (is : List ℕ) (state : List ℕ × ℕ)
    → count a is ≡ 0
    → count a state.0 ≡ 0
    → count a (reservoir draws limit valid is state).0 ≡ 0
unfolding reservoir
reservoir_absent draws limit a valid [] state h z = z
reservoir_absent draws limit a valid (i ∷ is) state h z =
    reservoir_absent draws limit a valid is _ (ground arith) (advance (valid i))
  where
    advance : (b : Bool) → count a (if b then sample draws limit i state else state).0 ≡ 0
    advance true = sample_absent draws limit a i state.1 state.0 (ground arith) z
    advance false = z

first_two :
    (draws : ℕ → ℕ) (a b : ℕ)
    → draws 1 < 1
    → sample draws 1 b (sample draws 1 a ([], 0)) ≡ (b ∷ [], 2)
unfolding sample
first_two draws a b h = let zero_draw : draws 1 ≡ 0 = omega arith in rw zero_draw

reservoir_valid :
    (draws : ℕ → ℕ) (limit : ℕ) (valid : ℕ → Bool) (i : ℕ) (is : List ℕ) (state : List ℕ × ℕ)
    → valid i ≡ true
    → reservoir draws limit valid (i ∷ is) state
      ≡ reservoir draws limit valid is (sample draws limit i state)
unfolding reservoir
reservoir_valid draws limit valid i is state v =
    ap (λ b. reservoir draws limit valid is (if b then sample draws limit i state else state)) v

-- With a limit of one piece the first of two or more valid candidates is never selected, whatever
-- numbers `rand.Intn` draws: the second one always takes its place, since the draw is made below
-- the number of candidates before it and not up to it.
select_default_first_lost :
    (draws : ℕ → ℕ) (valid : ℕ → Bool) (a b : ℕ) (rest : List ℕ)
    → draws 1 < 1
    → valid a ≡ true
    → valid b ≡ true
    → a ≢ b
    → count a rest ≡ 0
    → count a (select_default draws 1 valid (a ∷ b ∷ rest)) ≡ 0
unfolding select_default
select_default_first_lost draws valid a b rest h va vb n z =
    subst (λ r. count a r.0 ≡ 0) (sym two_rounds)
      (reservoir_absent draws 1 a valid rest (b ∷ [], 2) z (ground arith))
  where
    two_rounds :
        reservoir draws 1 valid (a ∷ b ∷ rest) ([], 0) ≡ reservoir draws 1 valid rest (b ∷ [], 2)
    two_rounds =
        reservoir_valid draws 1 valid a (b ∷ rest) ([], 0) va
        ∙ reservoir_valid draws 1 valid b rest (sample draws 1 a ([], 0)) vb
        ∙ ap (reservoir draws 1 valid rest) (first_two draws a b h)
