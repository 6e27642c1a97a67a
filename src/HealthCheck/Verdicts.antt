-- ===== src/HealthCheck/Verdicts.antt =====
-- A host's health after any calls, by its own history.
use kraken.Base.{
  ℕ, ◌<◌, Bool, true, false, none, List, [], ◌∷◌, ◌==◌, get, has, ◌≡◌, refl, arith, Bool-cases, inl,
  inr, subst,
}
use kraken.StringSet.{StringSet, insert}
use kraken.StringSet.Members.{has-put}
use kraken.HealthCheck.{
  FilterConfig, apply_defaults, State, new_state, trend_at, sync, sync_new, sync_gone, failed,
  passed,
}
use kraken.HealthCheck.Trends.{
  Call, calls_sync, calls_failed, calls_passed, run, history, Listed, verdict,
}
use kraken.HealthCheck.Following.{
  failed_self, passed_self, failed_other, passed_other, add_other, drop_other, Follows,
}

module _ (c : FilterConfig) (a : ℕ) (h : List Bool) where
  sync_new-Follows :
      (addrs : StringSet) (s : State) → Follows c a h s → Follows c a h (sync_new addrs s)
  unfolding sync_new
  sync_new-Follows [] s f = f
  sync_new-Follows ((b, u) ∷ addrs) s f =
      sync_new-Follows addrs _ (elim (Bool-cases (has b s.all)) [
        | inl known ↦ rw known f
        | inr new ↦ rw new (add_other c a h s f b (ground (arith, f.known)))
      ])

  sync_gone-Follows :
      (addrs healthy : StringSet) (s : State)
      → has a addrs ≡ true
      → Follows c a h s
      → Follows c a h (sync_gone addrs healthy s)
  unfolding sync_gone
  sync_gone-Follows addrs [] s l f = f
  sync_gone-Follows addrs ((b, u) ∷ healthy) s l f =
      sync_gone-Follows addrs healthy _ l (elim (Bool-cases (has b addrs)) [
        | inl listed ↦ rw listed f
        | inr gone ↦ rw gone (drop_other c a h s f b (ground (arith, l)))
      ])

  sync-Follows :
      (addrs : StringSet) (s : State)
      → has a addrs ≡ true
      → Follows c a h s
      → Follows c a h (sync addrs s)
  unfolding sync
  sync-Follows addrs s l f =
      sync_gone-Follows addrs (sync_new addrs s).healthy (sync_new addrs s) l
        (sync_new-Follows addrs s f)

module _ (c : FilterConfig) (a : ℕ) (p : 0 < c.fails) (q : 0 < c.passes) where
  a_is : (b : ℕ) → (b == a) ≡ true → a ≡ b
  a_is b same = ground arith

  run-Follows :
      (cs : List Call) (h : List Bool) (s : State)
      → Listed a cs
      → Follows c a h s
      → Follows c a (history a cs h) (run cs s)
  unfolding run
  run-Follows [] h s l f = f
  run-Follows (calls_sync addrs ∷ cs) h s l f =
      run-Follows cs h (sync addrs s) l.1 (sync-Follows c a h addrs s l.0 f)
  run-Follows (calls_failed b ∷ cs) h s l f = elim (Bool-cases (b == a)) [
    | inl same ↦ rw same (
        run-Follows cs (false ∷ h) (failed b s) l (
          subst (λ x. Follows c a (false ∷ h) (failed x s)) (a_is b same)
            (failed_self c a h s f p)))
    | inr other ↦ rw other (run-Follows cs h (failed b s) l (failed_other c a h s f b other))
  ]
  run-Follows (calls_passed b ∷ cs) h s l f = elim (Bool-cases (b == a)) [
    | inl same ↦ rw same (
        run-Follows cs (true ∷ h) (passed b s) l (
          subst (λ x. Follows c a (true ∷ h) (passed x s)) (a_is b same) (passed_self c a h s f q)))
    | inr other ↦ rw other (run-Follows cs h (passed b s) l (passed_other c a h s f b other))
  ]

first_seen :
    (c : FilterConfig) (a b : ℕ) (s : State)
    → s.config ≡ c
    → (b == a) ≡ true
    → get a s.trend ≡ none
    → Follows c a [] (record s { all = insert b s.all; healthy = insert b s.healthy })
unfolding trend_at
first_seen c a b s e same fresh = record {
  config = e;
  known = ground (arith, has-put b a s.all);
  trend = ground (arith, fresh);
  healthy = ground (arith, has-put b a s.healthy);
}

unseen : (a b : ℕ) (all : StringSet) → (b == a) ≡ true → has a all ≡ false → has b all ≡ false
unseen a b all same n = ground (arith, n)

sync_new-first :
    (c : FilterConfig) (a : ℕ) (addrs : StringSet) (s : State)
    → s.config ≡ c
    → has a addrs ≡ true
    → has a s.all ≡ false
    → get a s.trend ≡ none
    → Follows c a [] (sync_new addrs s)
unfolding sync_new get
sync_new-first c a [] s e m n fresh = absurd (ground (arith, m))
sync_new-first c a ((b, u) ∷ addrs) s e m n fresh = elim (Bool-cases (b == a)) [
  | inl same ↦
      rw (unseen a b s.all same n)
        (sync_new-Follows c a [] addrs _ (first_seen c a b s e same fresh))
  | inr other ↦ elim (Bool-cases (has b s.all)) [
    | inl known ↦ rw known (sync_new-first c a addrs s e (ground arith) n fresh)
    | inr new ↦ rw new (
        sync_new-first c a addrs (record s { all = insert b s.all; healthy = insert b s.healthy }) e
          (ground arith) (ground (arith, has-put b a s.all)) fresh)
  ]
]

positive-defaults :
    (c : FilterConfig) → (0 < (apply_defaults c).fails) × (0 < (apply_defaults c).passes)
unfolding apply_defaults
positive-defaults c = (ground arith, ground arith)

sync_first :
    (c : FilterConfig) (a : ℕ) (addrs : StringSet)
    → has a addrs ≡ true
    → Follows c a [] (sync addrs (new_state c))
unfolding sync new_state get
sync_first c a addrs m =
    let s = sync_new addrs (new_state c) in
    sync_gone-Follows c a [] addrs s.healthy s m
      (sync_new-first c a addrs (new_state c) refl m refl refl)

-- From its first `sync` on, as long as each `sync` lists it, a host is among the healthy ones
-- exactly if its own history of answers says so, whatever calls come between.
pub run_healthy :
    (config : FilterConfig) (a : ℕ) (addrs : StringSet) (cs : List Call)
    → has a addrs ≡ true
    → Listed a cs
    → has a (run cs (sync addrs (new_state (apply_defaults config)))).healthy
      ≡ verdict (apply_defaults config) (history a cs [])
run_healthy config a addrs cs m l =
    let c = apply_defaults config in
    (run-Follows c a (positive-defaults config).0 (positive-defaults config).1 cs []
      (sync addrs (new_state c)) l (sync_first c a addrs m)).healthy
