-- ===== src/HealthCheck/Trends.antt =====
-- The active checks against a specification by the history of each host alone.
use Prim.Native.Nat.{min}
use kraken.Base.{
  ℕ, zero, suc, ◌≤◌, ◌<◌, Bool, true, false, not, List, [], ◌∷◌, if◌then◌else◌, ◌==◌, leb, ◌&&◌,
  ◌||◌, has, ℤ, pos, neg, sucℤ, predℤ, eq_int, ◌≡◌, arith, Bool-cases, inl, inr, ◌⊎◌, ap, ◌∙◌, sym,
}
use kraken.StringSet.{StringSet}
use kraken.HealthCheck.{FilterConfig, State, max_int, min_int, sync, failed, passed}

-- The calls that change the state.
pub data Call : Type 0 where
  calls_sync : StringSet → Call
  calls_failed calls_passed : ℕ → Call

unfoldable pub step : Call → State → State
step (calls_sync addrs) s = sync addrs s
step (calls_failed addr) s = failed addr s
step (calls_passed addr) s = passed addr s

unfoldable pub run : List Call → State → State
unfolding step
run [] s = s
run (c ∷ cs) s = run cs (step c s)

-- What the calls report of a host, before what was reported already; the latest answer is first.
abbrev pub history : ℕ → List Call → List Bool → List Bool
history a [] h = h
history a (calls_sync addrs ∷ cs) h = history a cs h
history a (calls_failed b ∷ cs) h = history a cs (if b == a then false ∷ h else h)
history a (calls_passed b ∷ cs) h = history a cs (if b == a then true ∷ h else h)

-- The host is listed at each `sync`.
abbrev pub Listed : ℕ → List Call → Type 0
Listed a [] = Unit
Listed a (calls_sync addrs ∷ cs) = (has a addrs ≡ true) × Listed a cs
Listed a (c ∷ cs) = Listed a cs

-- How many of the latest answers are passes, and how many are failures.
abbrev pub passes_in_a_row : List Bool → ℕ
passes_in_a_row [] = 0
passes_in_a_row (ok ∷ h) = if ok then suc (passes_in_a_row h) else 0

abbrev pub fails_in_a_row : List Bool → ℕ
fails_in_a_row [] = 0
fails_in_a_row (ok ∷ h) = if ok then 0 else suc (fails_in_a_row h)

-- A host starts healthy, turns unhealthy with the last of enough failures in a row, and healthy
-- with the last of enough passes in a row.
abbrev pub verdict : FilterConfig → List Bool → Bool
verdict c [] = true
verdict c (true ∷ h) = leb c.passes (passes_in_a_row (true ∷ h)) || verdict c h
verdict c (false ∷ h) = not (leb c.fails (fails_in_a_row (false ∷ h))) && verdict c h

-- The trend that a history leads to.
abbrev pub trend_of : FilterConfig → List Bool → ℤ
trend_of c [] = pos 0
trend_of c (true ∷ h) = pos (min (passes_in_a_row (true ∷ h)) c.passes)
trend_of c (false ∷ h) = neg (min (fails_in_a_row (false ∷ h)) c.fails)

min-cases : (m n : ℕ) → ((min m n ≡ m) × (m ≤ n)) ⊎ ((min m n ≡ n) × (n < m))
min-cases m n = elim (Bool-cases (leb m n)) [
  | inl e ↦ inl (ground arith)
  | inr e ↦ inr (ground arith)
]

fail_trend :
    (fails n : ℕ)
    → 0 < fails
    → max_int (min_int (predℤ (neg (min n fails))) (neg 1)) (neg fails) ≡ neg (min (suc n) fails)
unfolding max_int min_int
fail_trend zero n p = absurd (omega (arith, p))
fail_trend (suc f) zero p = ground arith
fail_trend (suc f) (suc n) p = elim (min-cases (suc n) (suc f)) [
  | inl (now, h) ↦ elim (min-cases (suc (suc n)) (suc f)) [
    | inl (later, h') ↦ rw (now, later) (ground arith)
    | inr (later, h') ↦ rw (now, later) (ground arith)
  ]
  | inr (now, h) ↦
      let later : min (suc (suc n)) (suc f) ≡ suc f = omega (arith, h) in
      rw (now, later) (ground arith)
]

fail_trend_first :
    (fails n : ℕ) → 0 < fails → max_int (min_int (predℤ (pos n)) (neg 1)) (neg fails) ≡ neg 1
unfolding max_int min_int
fail_trend_first zero n p = absurd (omega (arith, p))
fail_trend_first (suc f) zero p = ground arith
fail_trend_first (suc f) (suc n) p = ground arith

pass_trend :
    (passes n : ℕ)
    → 0 < passes
    → min_int (max_int (sucℤ (pos (min n passes))) (pos 1)) (pos passes) ≡ pos (min (suc n) passes)
unfolding max_int min_int
pass_trend passes n p = ground arith

pass_trend_first :
    (passes n : ℕ) → 0 < passes → min_int (max_int (sucℤ (neg n)) (pos 1)) (pos passes) ≡ pos 1
unfolding max_int min_int
pass_trend_first passes zero p = ground arith
pass_trend_first passes (suc zero) p = ground arith
pass_trend_first passes (suc (suc n)) p = ground arith

min_one : (n : ℕ) → 0 < n → min 1 n ≡ 1
min_one n p = omega (arith, p)

pub failed_trend :
    (c : FilterConfig) (h : List Bool)
    → 0 < c.fails
    → max_int (min_int (predℤ (trend_of c h)) (neg 1)) (neg c.fails) ≡ trend_of c (false ∷ h)
failed_trend c [] p = fail_trend_first c.fails 0 p ∙ ap neg (sym (min_one c.fails p))
failed_trend c (true ∷ h) p =
    fail_trend_first c.fails (min (suc (passes_in_a_row h)) c.passes) p
    ∙ ap neg (sym (min_one c.fails p))
failed_trend c (false ∷ h) p = fail_trend c.fails (suc (fails_in_a_row h)) p

pub passed_trend :
    (c : FilterConfig) (h : List Bool)
    → 0 < c.passes
    → min_int (max_int (sucℤ (trend_of c h)) (pos 1)) (pos c.passes) ≡ trend_of c (true ∷ h)
passed_trend c [] p = pass_trend_first c.passes 0 p ∙ ap pos (sym (min_one c.passes p))
passed_trend c (false ∷ h) p =
    pass_trend_first c.passes (min (suc (fails_in_a_row h)) c.fails) p
    ∙ ap pos (sym (min_one c.passes p))
passed_trend c (true ∷ h) p = pass_trend c.passes (suc (passes_in_a_row h)) p

neg_limit : (f n : ℕ) → eq_int (neg (min n f)) (neg f) ≡ leb f n
neg_limit f n = elim (min-cases n f) [
  | inl (e, h) ↦ rw e (neg_eq n f h)
  | inr (e, h) ↦ rw e (neg_eq f f (omega arith) ∙ ground arith)
]
  where
    neg_eq : (m k : ℕ) → m ≤ k → eq_int (neg m) (neg k) ≡ leb k m
    neg_eq zero zero h = ground arith
    neg_eq zero (suc k) h = ground arith
    neg_eq (suc m) zero h = absurd (omega (arith, h))
    neg_eq (suc m) (suc k) h = ground arith

-- The limit is reached with enough answers in a row.
pub failed_limit :
    (c : FilterConfig) (h : List Bool)
    → eq_int (trend_of c (false ∷ h)) (neg c.fails) ≡ leb c.fails (fails_in_a_row (false ∷ h))
failed_limit c h = neg_limit c.fails (suc (fails_in_a_row h))

pub passed_limit :
    (c : FilterConfig) (h : List Bool)
    → eq_int (trend_of c (true ∷ h)) (pos c.passes) ≡ leb c.passes (passes_in_a_row (true ∷ h))
passed_limit c h = ground arith
