-- ===== src/RequestCache/Tests.antt =====
-- Runs of the request cache, and each theorem at concrete calls.
use kraken.Base.{◌==◌, [], ◌∷◌, true, false, some, ◌≡◌, refl, arith, get, put, del}
use kraken.RequestCache.{
  Config, Cache, new_cache, apply_defaults, reserve, clean, clean_loop, current_error,
  reserve_worker, release_worker, release, store_error, is_pending, cached_error, request_pending,
}
use kraken.RequestCache.Running.{Runs, Reach, here, next, starts, works}
use kraken.RequestCache.Owning.{IsValid, idle, Reach-new_cache-IsValid}
use kraken.RequestCache.Caching.{reserve-store_error}

-- One worker, and errors that are cached for ten nanoseconds.
abbrev small : Config
small = record {
  not_found_ttl = 20;
  error_ttl = 10;
  cleanup_interval = 5;
  num_workers = 1;
  busy_timeout = 3;
}

abbrev fresh : Cache
fresh = new_cache 0 (λ e. e == 404) small

program : Unit {0}
unfolding new_cache apply_defaults reserve clean clean_loop current_error reserve_worker
    release_worker release store_error get put del
program = tt

abbrev one_runs : Runs
one_runs = record {
  cache = record fresh { pending = (7, true) ∷ []; workers = 1 };
  waiting = [];
  running = 7 ∷ [];
  leaving = 0;
}

runs : Reach (idle fresh) one_runs
unfolding program
runs = next (next here (starts 1 7 _ refl)) (works 7 _ [] [] refl refl)

second_refused : (reserve 2 7 one_runs.cache).1 ≡ some request_pending
unfolding program
second_refused = refl

Reach-new_cache-IsValid_example : IsValid one_runs
unfolding program
Reach-new_cache-IsValid_example = Reach-new_cache-IsValid 0 (λ e. e == 404) small runs

reserve-store_error_example :
    ((reserve 18 7 (store_error 9 7 500 one_runs.cache)).1 ≡ some (cached_error 500))
    × (is_pending 7 (reserve 18 7 (store_error 9 7 500 one_runs.cache)).0 ≡ false)
unfolding program
reserve-store_error_example = reserve-store_error 9 18 7 500 one_runs.cache (omega arith)
