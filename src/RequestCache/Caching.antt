-- ===== src/RequestCache/Caching.antt =====
-- How long an error is answered from the cache.
use kraken.Base.{
  ℕ, ◌+◌, ◌≤◌, false, none, some, [], ◌∷◌, if◌then◌else◌, ltb, Map, get, get-put, get-del, ◌≡◌,
  arith, Bool-cases, inl, inr,
}
use kraken.RequestCache.Owning.{clean-Same}
use kraken.RequestCache.{
  Cache, CachedError, cached_error, clean_loop, clean, current_error, reserve, store_error,
  is_pending, expired,
}

get-clean_loop :
    (now id : ℕ) (m : Map CachedError) (e : CachedError)
    → get id m ≡ some e
    → expired now e ≡ false
    → get id (clean_loop now m) ≡ some e
unfolding clean_loop get
get-clean_loop now id [] e at n = absurd (ground (arith, at))
get-clean_loop now id ((j, x) ∷ m) e at n = ground (arith, get-clean_loop now id m e, at, n)

current_error-clean :
    (now id err t : ℕ) (c : Cache)
    → get id c.errors ≡ some (record { err = err; expires_at = t })
    → now ≤ t
    → current_error now id (clean now c) ≡ some err
unfolding current_error clean
current_error-clean now id err t c at l =
    elim (Bool-cases (ltb (c.last_clean + c.config.cleanup_interval) now)) [
      | inl e ↦ ground (
        arith,
        e,
        get-clean_loop now id c.errors (record { err = err; expires_at = t }) at
            (ground (arith, l)),
      )
      | inr e ↦ ground (arith, e, at, l)
    ]

-- The time for which an error is cached.
abbrev pub ttl_of : ℕ → Cache → ℕ
ttl_of err c = if c.is_not_found err then c.config.not_found_ttl else c.config.error_ttl

released : (now id err : ℕ) (c : Cache) → get id (store_error now id err c).pending ≡ none
unfolding store_error
released now id err c = ground (arith, get-del id id c.pending)

-- After a request ended with an error, a `Start` of the same id that comes no later than the
-- error's time to live returns this error, and reserves nothing.
pub reserve-store_error :
    (now later id err : ℕ) (c : Cache)
    → later ≤ now + ttl_of err c
    → ((reserve later id (store_error now id err c)).1 ≡ some (cached_error err))
      × (is_pending id (reserve later id (store_error now id err c)).0 ≡ false)
reserve-store_error now later id err c l =
    let c1 = store_error now id err c in
    let cached : current_error later id (clean later c1) ≡ some err =
      current_error-clean later id err (now + ttl_of err c) c1
        (unfold store_error in
          ground
            (arith, get-put id id (record { err = err; expires_at = now + ttl_of err c }) c.errors))
        l in
    let idle : is_pending id (clean later c1) ≡ false =
      ground (arith, (clean-Same later c1).0, released now id err c) in
    unfold reserve in (ground (arith, idle, cached), ground (arith, idle, cached))
