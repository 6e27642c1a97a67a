-- ===== src/IntervalTrap.antt =====
-- utils/dedup/interval_trap.go: a task that is run at most once in an interval. The second test and
-- the run stand in one locked section, so the calls of `Trap` are a list in the order of theirs.
pub mod Spacing
mod Tests
use kraken.Base.{ℕ, ◌+◌, Bool, true, false, List, [], ◌∷◌, if◌then◌else◌, ◌&&◌, ltb}

pub record IntervalTrap : Type 0 where
  pub interval : ℕ
  pub prev : ℕ

unfoldable pub new_interval_trap : ℕ → ℕ → IntervalTrap
new_interval_trap now interval = record { interval = interval; prev = now }

unfoldable pub ready : ℕ → IntervalTrap → Bool
ready now t = ltb (t.prev + t.interval) now

-- The readings of the clock of one call: at the quick test, which may see an older `prev`, at the
-- test under the lock, and after the task. `seen` is what the quick test reads.
pub record Visit : Type 0 where
  pub seen : IntervalTrap
  pub quick : ℕ
  pub locked : ℕ
  pub after : ℕ

-- The trap after a call, and if the task was run.
unfoldable pub trap : Visit → IntervalTrap → IntervalTrap × Bool
unfolding ready
trap v t =
    if ready v.quick v.seen
    then if ready v.locked t then (record t { prev = v.after }, true) else (t, false)
    else (t, false)

-- The calls that ran the task.
unfoldable pub task_runs : List Visit → IntervalTrap → List Visit
unfolding trap
task_runs [] t = []
task_runs (v ∷ vs) t =
    let rest = task_runs vs (trap v t).0 in if (trap v t).1 then v ∷ rest else rest
