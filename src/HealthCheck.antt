-- ===== src/HealthCheck.antt =====
-- lib/healthcheck: which hosts of a list are healthy. Active checks are state.go and filter.go,
-- passive ones passive_filter.go and passive.go. Addresses are numbered, and a set of them is a
-- `StringSet`. Each lock makes the calls on its state atomic, so the goroutines of a round of
-- checks are a list of calls, in the order in which they take the lock. `Fails` and `Passes` are
-- not negative.
pub mod Trends
pub mod Following
pub mod Verdicts
pub mod Rounds
pub mod Passive
pub mod Windows
pub mod Tracking
pub mod Marks
mod Tests
use kraken.Base.{
  ℕ, suc, ◌+◌, Bool, true, false, not, Option, none, some, List, [], ◌∷◌, ◌++◌, if◌then◌else◌, ◌==◌,
  Map, get, put, del, has, size, ℤ, pos, neg, sucℤ, predℤ, ltb_int, eq_int,
}
use kraken.StringSet.{StringSet, insert, remove, copy}

pub record FilterConfig : Type 0 where
  pub fails : ℕ
  pub passes : ℕ
  pub timeout : ℕ

-- Three seconds in nanoseconds.
abbrev pub default_timeout : ℕ
default_timeout = 3000000000

unfoldable pub apply_defaults : FilterConfig → FilterConfig
apply_defaults c = record {
  fails = if c.fails == 0 then 3 else c.fails;
  passes = if c.passes == 0 then 2 else c.passes;
  timeout = if c.timeout == 0 then default_timeout else c.timeout;
}

pub record State : Type 0 where
  pub config : FilterConfig
  pub all : StringSet
  pub healthy : StringSet
  pub trend : Map ℤ

unfoldable pub new_state : FilterConfig → State
new_state config = record { config = config; all = []; healthy = []; trend = [] }

unfoldable pub max_int : ℤ → ℤ → ℤ
max_int a b = if ltb_int b a then a else b

unfoldable pub min_int : ℤ → ℤ → ℤ
min_int a b = if ltb_int a b then a else b

-- `s.trend[addr]`
unfoldable pub trend_at : ℕ → State → ℤ
trend_at addr s = elim (get addr s.trend) [ none ↦ pos 0 | some t ↦ t ]

-- The two loops of `sync`: over the given addresses, and over the healthy ones.
unfoldable pub sync_new : StringSet → State → State
sync_new [] s = s
sync_new ((addr, u) ∷ addrs) s = sync_new addrs (
    if has addr s.all
    then s
    else record s { all = insert addr s.all; healthy = insert addr s.healthy })

unfoldable pub sync_gone : StringSet → StringSet → State → State
sync_gone addrs [] s = s
sync_gone addrs ((addr, u) ∷ healthy) s = sync_gone addrs healthy (
    if has addr addrs
    then s
    else record s { healthy = remove addr s.healthy; trend = del addr s.trend })

unfoldable pub sync : StringSet → State → State
unfolding sync_new sync_gone
sync addrs s = let s' = sync_new addrs s in sync_gone addrs s'.healthy s'

unfoldable pub failed : ℕ → State → State
unfolding max_int min_int trend_at
failed addr s =
    let t = max_int (min_int (predℤ (trend_at addr s)) (neg 1)) (neg s.config.fails) in
    record s {
      trend = put addr t s.trend;
      healthy = if eq_int t (neg s.config.fails) then remove addr s.healthy else s.healthy;
    }

unfoldable pub passed : ℕ → State → State
unfolding max_int min_int trend_at
passed addr s =
    let t = min_int (max_int (sucℤ (trend_at addr s)) (pos 1)) (pos s.config.passes) in
    record s {
      trend = put addr t s.trend;
      healthy = if eq_int t (pos s.config.passes) then insert addr s.healthy else s.healthy;
    }

-- The answers of the checks, in the order in which the goroutines report them.
unfoldable pub report : List (ℕ × Bool) → State → State
unfolding failed passed
report [] s = s
report ((addr, ok) ∷ answers) s = report answers (if ok then passed addr s else failed addr s)

-- `answers` lists each of the addresses once, with what its check says before the timeout.
unfoldable pub run_filter : StringSet → List (ℕ × Bool) → State → State × StringSet
unfolding sync report
run_filter addrs answers s =
    let s' = report answers (sync addrs s) in
    if size addrs == 1 then (s, copy addrs) else (s', copy s'.healthy)
