-- ===== src/IntervalTrap/Spacing.antt =====
-- The task's runs lie an interval apart.
use kraken.Base.{ℕ, ◌+◌, ◌<◌, true, false, List, [], ◌∷◌, ◌≡◌, arith, Bool-cases, inl, inr, ◌⊎◌}
use kraken.IntervalTrap.{IntervalTrap, Visit, ready, trap, task_runs, new_interval_trap}

-- Each run starts more than the interval after the end of the one before.
abbrev pub Spaced : ℕ → ℕ → List Visit → Type 0
Spaced interval prev [] = Unit
Spaced interval prev (v ∷ vs) = (prev + interval < v.locked) × Spaced interval v.after vs

trap-cases :
    (v : Visit) (t : IntervalTrap)
    → (trap v t ≡ (t, false))
      ⊎ ((trap v t ≡ (record t { prev = v.after }, true)) × (t.prev + t.interval < v.locked))
unfolding trap ready
trap-cases v t = elim (Bool-cases (ready v.quick v.seen)) [
  | inl q ↦ elim (Bool-cases (ready v.locked t)) [
    | inl l ↦ inr (ground (arith, q, l), ground (arith, l))
    | inr l ↦ inl (ground (arith, q, l))
  ]
  | inr q ↦ inl (ground (arith, q))
]

task_runs-Spaced : (vs : List Visit) (t : IntervalTrap) → Spaced t.interval t.prev (task_runs vs t)
unfolding task_runs
task_runs-Spaced [] t = tt
task_runs-Spaced (v ∷ vs) t = elim (trap-cases v t) [
  | inl e ↦ rw (e, task_runs) (task_runs-Spaced vs t)
  | inr (e, h) ↦ rw (e, task_runs) (h, task_runs-Spaced vs (record t { prev = v.after }))
]

-- However calls of `Trap` interleave, whatever they read of the clock and saw at their quick test,
-- the task is run only more than the interval after the trap was made or its last run ended.
pub task_runs-new-Spaced :
    (now interval : ℕ) (vs : List Visit)
    → Spaced interval now (task_runs vs (new_interval_trap now interval))
unfolding new_interval_trap
task_runs-new-Spaced now interval vs = task_runs-Spaced vs (new_interval_trap now interval)
