-- ===== src/IntervalTrap/Tests.antt =====
-- Two calls that pass the quick test together: only one of them runs the task.
use kraken.Base.{[], ◌∷◌, ◌≡◌, refl}
use kraken.IntervalTrap.{Visit, ready, trap, task_runs, new_interval_trap}
use kraken.IntervalTrap.Spacing.{Spaced, task_runs-new-Spaced}

abbrev first : Visit
first = record { seen = record { interval = 10; prev = 0 }; quick = 11; locked = 11; after = 14 }

abbrev second : Visit
second = record { seen = record { interval = 10; prev = 0 }; quick = 12; locked = 15; after = 15 }

program : Unit {0}
unfolding ready trap task_runs new_interval_trap
program = tt

one_run : task_runs (first ∷ second ∷ []) (new_interval_trap 0 10) ≡ first ∷ []
unfolding program
one_run = refl

task_runs-new-Spaced_example : Spaced 10 0 (first ∷ [])
unfolding program
task_runs-new-Spaced_example = task_runs-new-Spaced 0 10 (first ∷ second ∷ [])
