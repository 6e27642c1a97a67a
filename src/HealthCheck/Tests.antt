-- ===== src/HealthCheck/Tests.antt =====
-- Runs of the health checks, and each theorem at concrete calls.
use kraken.Base.{List, [], ◌∷◌, true, false, ◌≡◌, refl, has, get, put, del, arith}
use kraken.StringSet.{StringSet, copy, copy_loop}
use kraken.HealthCheck.{
  FilterConfig, apply_defaults, State, new_state, sync, sync_new, sync_gone, failed, passed,
  max_int, min_int, trend_at, report, run_filter,
}
use kraken.HealthCheck.Trends.{Call, calls_sync, calls_failed, calls_passed, run, step}
use kraken.HealthCheck.Verdicts.{run_healthy}
use kraken.HealthCheck.Passive.{
  PassiveConfig, new_passive, passive_defaults, PassiveCall, calls_run, calls_fail, passive_run,
  passive_step, run_passive, run_loop, passive_failed, failures_of, pop_expired, resolve,
}
use kraken.HealthCheck.Marks.{run_passive_exact}

-- Two failures make a host unhealthy, and two passes healthy.
abbrev twice : FilterConfig
twice = record { fails = 2; passes = 2; timeout = 5 }

abbrev hosts : StringSet
hosts = (7, tt) ∷ (8, tt) ∷ []

-- The second host fails twice in a row, passes once, and passes once more after a failure of 7.
abbrev checks : List Call
checks =
    calls_failed 8
    ∷ calls_passed 7
    ∷ calls_failed 8
    ∷ calls_sync hosts
    ∷ calls_failed 7
    ∷ calls_passed 8
    ∷ []

abbrev start : State
start = sync hosts (new_state (apply_defaults twice))

program : Unit {0}
unfolding sync sync_new sync_gone new_state apply_defaults run step failed passed max_int min_int
    trend_at report run_filter copy copy_loop get put del run_passive run_loop passive_run
    passive_step passive_failed failures_of pop_expired new_passive passive_defaults resolve
program = tt

healthy_left : (run checks start).healthy ≡ (7, tt) ∷ []
unfolding program
healthy_left = refl

healthy_again : has 8 (run (calls_passed 8 ∷ []) (run checks start)).healthy ≡ true
unfolding program
healthy_again = refl

run_healthy_example : has 8 (run checks start).healthy ≡ false
unfolding program
run_healthy_example = run_healthy twice 8 hosts checks refl (refl, tt)

-- A host that was left out of one sync and is listed again is not healthy.
listed_again : has 8 (sync hosts (sync ((7, tt) ∷ []) start)).healthy ≡ false
unfolding program
listed_again = refl

-- Two failures within ten nanoseconds take a host out for ten.
abbrev quick : PassiveConfig
quick = record { fails = 2; fail_timeout = 10 }

abbrev failing : List PassiveCall
failing = calls_fail 5 8 ∷ calls_fail 6 7 ∷ calls_run (λ a. 9) hosts ∷ calls_fail 12 8 ∷ []

down_now : (run_passive (λ a. 20) hosts (passive_run failing (new_passive quick))).1 ≡ (7, tt) ∷ []
unfolding program
down_now = refl

up_again : has 8 (run_passive (λ a. 23) hosts (passive_run failing (new_passive quick))).1 ≡ true
unfolding program
up_again = refl

all_down :
    (resolve (λ a. 20) ((8, tt) ∷ []) (passive_run failing (new_passive quick))).1 ≡ (8, tt) ∷ []
unfolding program
all_down = refl

run_passive_exact_example :
    has 8 (run_passive (λ a. 20) hosts (passive_run failing (new_passive quick))).1 ≡ false
unfolding program
run_passive_exact_example =
    run_passive_exact quick 8 failing (λ a. 20) hosts
      (omega arith, (omega arith, (omega arith, (omega arith, omega arith))))
