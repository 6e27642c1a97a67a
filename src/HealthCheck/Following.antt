-- ===== src/HealthCheck/Following.antt =====
-- What the state keeps of a host, and what a call does to it.
use kraken.Base.{
  ℕ, ◌<◌, Bool, true, false, not, List, ◌∷◌, if◌then◌else◌, ◌==◌, ◌&&◌, ◌||◌, del, has, ℤ, pos, neg,
  sucℤ, predℤ, eq_int, ◌≡◌, refl, arith, get-put, get-del, ◌∙◌,
}
use kraken.StringSet.{insert, remove}
use kraken.StringSet.Members.{has-put, has-del}
use kraken.HealthCheck.{FilterConfig, State, max_int, min_int, trend_at, failed, passed}
use kraken.HealthCheck.Trends.{
  verdict, trend_of, failed_trend, passed_trend, failed_limit, passed_limit,
}

-- The trend that `failed` and `passed` store.
abbrev pub next_fail : State → ℕ → ℤ
next_fail s a = max_int (min_int (predℤ (trend_at a s)) (neg 1)) (neg s.config.fails)

abbrev pub next_pass : State → ℕ → ℤ
next_pass s a = min_int (max_int (sucℤ (trend_at a s)) (pos 1)) (pos s.config.passes)

pub trend_at-failed :
    (a b : ℕ) (s : State)
    → trend_at a (failed b s) ≡ (if b == a then next_fail s b else trend_at a s)
unfolding trend_at failed
trend_at-failed a b s = ground (arith, get-put b a (next_fail s b) s.trend)

pub has-failed :
    (a b : ℕ) (s : State)
    → has a (failed b s).healthy
      ≡ (has a s.healthy && not ((b == a) && eq_int (next_fail s b) (neg s.config.fails)))
unfolding failed
has-failed a b s = ground (arith, has-del b a s.healthy)

pub trend_at-passed :
    (a b : ℕ) (s : State)
    → trend_at a (passed b s) ≡ (if b == a then next_pass s b else trend_at a s)
unfolding trend_at passed
trend_at-passed a b s = ground (arith, get-put b a (next_pass s b) s.trend)

pub has-passed :
    (a b : ℕ) (s : State)
    → has a (passed b s).healthy
      ≡ (has a s.healthy || ((b == a) && eq_int (next_pass s b) (pos s.config.passes)))
unfolding passed
has-passed a b s = ground (arith, has-put b a s.healthy)

pub record Follows (c : FilterConfig) (a : ℕ) (h : List Bool) (s : State) : Type 0 where
  pub config : s.config ≡ c
  pub known : has a s.all ≡ true
  pub trend : trend_at a s ≡ trend_of c h
  pub healthy : has a s.healthy ≡ verdict c h

pub config-failed :
    (b : ℕ) (s : State) → ((failed b s).config ≡ s.config) × ((failed b s).all ≡ s.all)
unfolding failed
config-failed b s = (refl, refl)

pub config-passed :
    (b : ℕ) (s : State) → ((passed b s).config ≡ s.config) × ((passed b s).all ≡ s.all)
unfolding passed
config-passed b s = (refl, refl)

module _ (c : FilterConfig) (a : ℕ) (h : List Bool) (s : State) (f : Follows c a h s) where
  pub next_fail-Follows : 0 < c.fails → next_fail s a ≡ trend_of c (false ∷ h)
  next_fail-Follows p = rw (f.trend, f.config) (failed_trend c h p)

  pub failed_self : 0 < c.fails → Follows c a (false ∷ h) (failed a s)
  failed_self p = record {
    config = (config-failed a s).0 ∙ f.config;
    known = ground (arith, (config-failed a s).1, f.known);
    trend = ground (arith, trend_at-failed a a s, next_fail-Follows p);
    healthy =
        ground
          (arith, has-failed a a s, next_fail-Follows p, failed_limit c h, f.healthy, f.config);
  }

  pub next_pass-Follows : 0 < c.passes → next_pass s a ≡ trend_of c (true ∷ h)
  next_pass-Follows p = rw (f.trend, f.config) (passed_trend c h p)

  pub passed_self : 0 < c.passes → Follows c a (true ∷ h) (passed a s)
  passed_self p = record {
    config = (config-passed a s).0 ∙ f.config;
    known = ground (arith, (config-passed a s).1, f.known);
    trend = ground (arith, trend_at-passed a a s, next_pass-Follows p);
    healthy =
        ground
          (arith, has-passed a a s, next_pass-Follows p, passed_limit c h, f.healthy, f.config);
  }

  pub failed_other : (b : ℕ) → (b == a) ≡ false → Follows c a h (failed b s)
  failed_other b n = record {
    config = (config-failed b s).0 ∙ f.config;
    known = ground (arith, (config-failed b s).1, f.known);
    trend = ground (arith, trend_at-failed a b s, f.trend);
    healthy = ground (arith, has-failed a b s, f.healthy);
  }

  pub passed_other : (b : ℕ) → (b == a) ≡ false → Follows c a h (passed b s)
  passed_other b n = record {
    config = (config-passed b s).0 ∙ f.config;
    known = ground (arith, (config-passed b s).1, f.known);
    trend = ground (arith, trend_at-passed a b s, f.trend);
    healthy = ground (arith, has-passed a b s, f.healthy);
  }

  pub add_other :
      (b : ℕ)
      → (b == a) ≡ false
      → Follows c a h (record s { all = insert b s.all; healthy = insert b s.healthy })
  unfolding trend_at
  add_other b n = record {
    config = f.config;
    known = ground (arith, has-put b a s.all, f.known);
    trend = f.trend;
    healthy = ground (arith, has-put b a s.healthy, f.healthy);
  }

  pub drop_other :
      (b : ℕ)
      → (b == a) ≡ false
      → Follows c a h (record s { healthy = remove b s.healthy; trend = del b s.trend })
  unfolding trend_at
  drop_other b n = record {
    config = f.config;
    known = f.known;
    trend = ground (arith, get-del b a s.trend, f.trend);
    healthy = ground (arith, has-del b a s.healthy, f.healthy);
  }
