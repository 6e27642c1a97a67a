-- ===== src/RequestCache.antt =====
-- utils/dedup/request_cache.go: requests that run once at a time for each id, and whose errors are
-- cached. Ids and errors are numbered, times are nanoseconds, and `now` is the reading of the clock
-- within a locked section. The channel of workers is the number of its tokens.
pub mod Running
pub mod Owning
pub mod Caching
mod Tests
use kraken.Base.{
  ℕ, suc, ◌+◌, ◌-◌, Bool, true, false, not, Option, none, some, List, [], ◌∷◌, ◌++◌, if◌then◌else◌,
  ◌==◌, ltb, Map, get, put, del,
}

pub record Config : Type 0 where
  pub not_found_ttl : ℕ
  pub error_ttl : ℕ
  pub cleanup_interval : ℕ
  pub num_workers : ℕ
  pub busy_timeout : ℕ

abbrev pub second : ℕ
second = 1000000000

abbrev or_default : ℕ → ℕ → ℕ
or_default d n = if n == 0 then d else n

unfoldable pub apply_defaults : Config → Config
apply_defaults c = record {
  not_found_ttl = or_default 15000000000 c.not_found_ttl;
  error_ttl = or_default 15000000000 c.error_ttl;
  cleanup_interval = or_default 5000000000 c.cleanup_interval;
  num_workers = or_default 10000 c.num_workers;
  busy_timeout = or_default 5000000000 c.busy_timeout;
}

pub record CachedError : Type 0 where
  pub err : ℕ
  pub expires_at : ℕ

abbrev pub expired : ℕ → CachedError → Bool
expired now e = ltb e.expires_at now

pub record Cache : Type 0 where
  pub config : Config
  pub pending : Map Bool
  pub errors : Map CachedError
  pub last_clean : ℕ
  pub is_not_found : ℕ → Bool
  pub workers : ℕ

-- The matcher of errors is the one of `SetNotFound`, or the default.
unfoldable pub new_cache : ℕ → (ℕ → Bool) → Config → Cache
new_cache now is_not_found c = record {
  config = apply_defaults c;
  pending = [];
  errors = [];
  last_clean = now;
  is_not_found = is_not_found;
  workers = 0;
}

pub data StartError : Type 0 where
  request_pending workers_busy : StartError
  cached_error : ℕ → StartError

-- `c.pending[id]`
abbrev pub is_pending : ℕ → Cache → Bool
is_pending id c = elim (get id c.pending) [ none ↦ false | some b ↦ b ]

unfoldable pub clean_loop : ℕ → Map CachedError → Map CachedError
clean_loop now [] = []
clean_loop now ((id, e) ∷ m) =
    if expired now e then clean_loop now m else (id, e) ∷ clean_loop now m

unfoldable pub clean : ℕ → Cache → Cache
unfolding clean_loop
clean now c =
    if ltb (c.last_clean + c.config.cleanup_interval) now
    then record c { errors = clean_loop now c.errors; last_clean = now }
    else c

-- An error that is cached and not over.
unfoldable pub current_error : ℕ → ℕ → Cache → Option ℕ
current_error now id c = elim (get id c.errors) [
  | none ↦ none
  | some e ↦ if expired now e then none else some e.err
]

unfoldable pub reserve : ℕ → ℕ → Cache → Cache × Option StartError
unfolding clean current_error
reserve now id c =
    let c' = clean now c in
    if is_pending id c' then (c', some request_pending) else elim (current_error now id c') [
      | some err ↦ (c', some (cached_error err))
      | none ↦ (record c' { pending = put id true c'.pending }, none)
    ]

-- A token for a worker, if the channel has room; else `Start` waits, at last for `ErrWorkersBusy`.
unfoldable pub reserve_worker : Cache → Option Cache
reserve_worker c =
    if ltb c.workers c.config.num_workers then some (record c { workers = suc c.workers }) else none

unfoldable pub release_worker : Cache → Cache
release_worker c = record c { workers = c.workers - 1 }

unfoldable pub release : ℕ → Cache → Cache
release id c = record c { pending = del id c.pending }

-- `RequestCache.error`
unfoldable pub store_error : ℕ → ℕ → ℕ → Cache → Cache
store_error now id err c =
    let ttl = if c.is_not_found err then c.config.not_found_ttl else c.config.error_ttl in
    record c {
      pending = del id c.pending;
      errors = put id (record { err = err; expires_at = now + ttl }) c.errors;
    }
