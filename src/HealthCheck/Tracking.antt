-- ===== src/HealthCheck/Tracking.antt =====
-- What the passive filter keeps of a host, and what a call does to it.
use kraken.Base.{
  ℕ, ◌≤◌, not, Option, none, some, List, [], ◌∷◌, ◌++◌, if◌then◌else◌, ◌==◌, leb, ◌&&◌, ◌||◌, Map,
  get, del, has, length, Distinct, ◌≡◌, refl, arith, get-put, get-del, put-Distinct, del-Distinct,
  Bool-cases, inl, inr, is_some,
}
use kraken.StringSet.{StringSet, remove}
use kraken.StringSet.Members.{has-del}
use kraken.HealthCheck.Passive.{
  PassiveConfig, PassiveFilter, over, run_loop, failures_of, pop_expired, passive_failed,
}
use kraken.HealthCheck.Windows.{recent, last_mark, still_down, Sorted, Below}

pub record Tracks (c : PassiveConfig) (a last : ℕ) (h : List ℕ) (f : PassiveFilter) : Type 0 where
  pub config : f.config ≡ c
  pub distinct : Distinct f.unhealthy
  pub sorted : Sorted (failures_of a f)
  pub below : Below last (failures_of a f)
  pub window : (now : ℕ) → last ≤ now → recent c now (failures_of a f) ≡ recent c now h
  pub down :
      (now : ℕ)
      → last ≤ now
      → still_down c now (get a f.unhealthy) ≡ still_down c now (last_mark c h)

-- The loop of `Run`, for one host.
pub run_loop-get :
    (c : PassiveConfig) (nows : ℕ → ℕ) (m u : Map ℕ) (healthy : StringSet) (a : ℕ)
    → Distinct m
    → get a (run_loop c nows m (u, healthy)).0
      ≡ (if still_down c (nows a) (get a m) || not (has a m) then get a u else none)
unfolding run_loop get
run_loop-get c nows [] u healthy a d = refl
run_loop-get c nows ((b, t) ∷ m) u healthy a d = ground (
  arith,
  run_loop-get c nows m (del b u) healthy a d.1,
  run_loop-get c nows m u (remove b healthy) a d.1,
  get-del b a u,
  d.0,
)

pub run_loop-has :
    (c : PassiveConfig) (nows : ℕ → ℕ) (m u : Map ℕ) (healthy : StringSet) (a : ℕ)
    → Distinct m
    → has a (run_loop c nows m (u, healthy)).1
      ≡ (has a healthy && not (still_down c (nows a) (get a m)))
unfolding run_loop get
run_loop-has c nows [] u healthy a d = ground arith
run_loop-has c nows ((b, t) ∷ m) u healthy a d = ground (
  arith,
  run_loop-has c nows m (del b u) healthy a d.1,
  run_loop-has c nows m u (remove b healthy) a d.1,
  has-del b a healthy,
  d.0,
)

pub run_loop-Distinct :
    (c : PassiveConfig) (nows : ℕ → ℕ) (m u : Map ℕ) (healthy : StringSet)
    → Distinct u
    → Distinct (run_loop c nows m (u, healthy)).0
unfolding run_loop
run_loop-Distinct c nows [] u healthy d = d
run_loop-Distinct c nows ((b, t) ∷ m) u healthy d = elim (Bool-cases (over c (nows b) t)) [
  | inl e ↦ rw (e, run_loop) (run_loop-Distinct c nows m (del b u) healthy (del-Distinct b u d))
  | inr e ↦ rw (e, run_loop) (run_loop-Distinct c nows m u (remove b healthy) d)
]

-- An entry that the loop deletes is not down later either.
pub still_down-kept :
    (c : PassiveConfig) (now later : ℕ) (o : Option ℕ)
    → now ≤ later
    → still_down c later (if still_down c now o || not (is_some o) then o else none)
      ≡ still_down c later o
still_down-kept c now later none l = refl
still_down-kept c now later (some t) l = ground arith

-- What `Failed` stores.
abbrev pub new_failures : ℕ → ℕ → PassiveFilter → List ℕ
new_failures now b f = pop_expired f.config now (failures_of b f) ++ now ∷ []

pub failures_of-failed :
    (a b now : ℕ) (f : PassiveFilter)
    → failures_of a (passive_failed now b f)
      ≡ (if b == a then new_failures now b f else failures_of a f)
unfolding passive_failed failures_of
failures_of-failed a b now f = ground (arith, get-put b a (new_failures now b f) f.failures)

pub unhealthy-failed :
    (a b now : ℕ) (f : PassiveFilter)
    → get a (passive_failed now b f).unhealthy ≡ (
        if (b == a) && leb f.config.fails (length (new_failures now b f))
        then some now
        else get a f.unhealthy)
unfolding passive_failed
unhealthy-failed a b now f = ground (arith, get-put b a now f.unhealthy)

pub Distinct-failed :
    (b now : ℕ) (f : PassiveFilter)
    → Distinct f.unhealthy
    → Distinct (passive_failed now b f).unhealthy
unfolding passive_failed
Distinct-failed b now f d = elim (Bool-cases (leb f.config.fails (length (new_failures now b f)))) [
  | inl e ↦ rw e (put-Distinct b now f.unhealthy d)
  | inr e ↦ rw e d
]

pub config-failed : (b now : ℕ) (f : PassiveFilter) → (passive_failed now b f).config ≡ f.config
unfolding passive_failed
config-failed b now f = refl
