-- ===== src/HealthCheck/Passive.antt =====
-- The passive checks: passive_filter.go and passive.go. `nows addr` is the reading of the clock
-- when the loop over the unhealthy hosts is at `addr`.
use kraken.Base.{
  ℕ, ◌+◌, Bool, none, some, List, [], ◌∷◌, ◌++◌, if◌then◌else◌, ◌==◌, leb, ltb, Map, get, put, del,
  size, length,
}
use kraken.StringSet.{StringSet, remove, copy}

pub record PassiveConfig : Type 0 where
  pub fails : ℕ
  pub fail_timeout : ℕ

-- Five minutes in nanoseconds.
abbrev pub default_fail_timeout : ℕ
default_fail_timeout = 300000000000

unfoldable pub passive_defaults : PassiveConfig → PassiveConfig
passive_defaults c = record {
  fails = if c.fails == 0 then 3 else c.fails;
  fail_timeout = if c.fail_timeout == 0 then default_fail_timeout else c.fail_timeout;
}

pub record PassiveFilter : Type 0 where
  pub config : PassiveConfig
  pub unhealthy : Map ℕ
  pub failures : Map (List ℕ)

unfoldable pub new_passive : PassiveConfig → PassiveFilter
unfolding passive_defaults
new_passive c = record { config = passive_defaults c; unhealthy = []; failures = [] }

-- `now.Sub(t) > f.config.FailTimeout`
abbrev pub over : PassiveConfig → ℕ → ℕ → Bool
over c now t = ltb (t + c.fail_timeout) now

-- The loop of `Run`, over the rest of the unhealthy hosts: the map of them, and the result.
unfoldable pub run_loop : PassiveConfig → (ℕ → ℕ) → Map ℕ → Map ℕ × StringSet → Map ℕ × StringSet
run_loop c nows [] r = r
run_loop c nows ((addr, t) ∷ m) (unhealthy, healthy) = run_loop c nows m (
    if over c (nows addr) t
    then (del addr unhealthy, healthy)
    else (unhealthy, remove addr healthy))

unfoldable pub run_passive : (ℕ → ℕ) → StringSet → PassiveFilter → PassiveFilter × StringSet
unfolding run_loop
run_passive nows addrs f =
    let (unhealthy, healthy) = run_loop f.config nows f.unhealthy (f.unhealthy, copy addrs) in
    (record f { unhealthy = unhealthy }, healthy)

-- `f.failures[addr]`
unfoldable pub failures_of : ℕ → PassiveFilter → List ℕ
failures_of addr f = elim (get addr f.failures) [ none ↦ [] | some ts ↦ ts ]

unfoldable pub pop_expired : PassiveConfig → ℕ → List ℕ → List ℕ
pop_expired c now [] = []
pop_expired c now (t ∷ ts) = if over c now t then pop_expired c now ts else t ∷ ts

unfoldable pub passive_failed : ℕ → ℕ → PassiveFilter → PassiveFilter
unfolding failures_of pop_expired
passive_failed now addr f =
    let failures = pop_expired f.config now (failures_of addr f) ++ now ∷ [] in
    record f {
      unhealthy =
          if leb f.config.fails (length failures) then put addr now f.unhealthy else f.unhealthy;
      failures = put addr failures f.failures;
    }

-- `Passive.Resolve`; `all` is what the host list resolves to.
unfoldable pub resolve : (ℕ → ℕ) → StringSet → PassiveFilter → PassiveFilter × StringSet
unfolding run_passive
resolve nows all f =
    let (f', healthy) = run_passive nows all f in (f', if size healthy == 0 then all else healthy)

-- The calls on the filter.
pub data PassiveCall : Type 0 where
  calls_run : (ℕ → ℕ) → StringSet → PassiveCall
  calls_fail : (now addr : ℕ) → PassiveCall

unfoldable pub passive_step : PassiveCall → PassiveFilter → PassiveFilter
unfolding run_passive passive_failed
passive_step (calls_run nows addrs) f = (run_passive nows addrs f).0
passive_step (calls_fail now addr) f = passive_failed now addr f

unfoldable pub passive_run : List PassiveCall → PassiveFilter → PassiveFilter
unfolding passive_step
passive_run [] f = f
passive_run (c ∷ cs) f = passive_run cs (passive_step c f)
