-- ===== src/HealthCheck/Marks.antt =====
-- The passive filter takes out exactly the hosts that their failure times say are down.
use kraken.Base.{
  ℕ, suc, ◌≤◌, Bool, true, false, not, List, [], ◌∷◌, if◌then◌else◌, ◌==◌, ◌&&◌, get, has, length,
  ◌≡◌, refl, arith, Bool-cases, inl, inr, ◌∙◌, sym, ap, subst, length-append,
}
use kraken.StringSet.{StringSet, copy}
use kraken.StringSet.Members.{has-copy}
use kraken.HealthCheck.Passive.{
  PassiveConfig, PassiveFilter, new_passive, passive_defaults, run_passive, failures_of,
  pop_expired, passive_failed, PassiveCall, calls_run, calls_fail, passive_run,
}
use kraken.HealthCheck.Windows.{
  recent, last_mark, still_down, failure_times, Forward, Sorted, Below, length-pop_expired,
  recent-pop_expired, recent-append, pop_expired-Below, pop_expired-Sorted, append-Sorted,
  later-Below, append-Below,
}
use kraken.HealthCheck.Tracking.{
  Tracks, run_loop-get, run_loop-has, run_loop-Distinct, still_down-kept, new_failures,
  failures_of-failed, unhealthy-failed, Distinct-failed, config-failed,
}

module _ (c : PassiveConfig) (a last : ℕ) (h : List ℕ) (f : PassiveFilter)
    (r : Tracks c a last h f) where
  later_Tracks : (now : ℕ) → last ≤ now → Tracks c a now h f
  later_Tracks now l = record {
    config = r.config;
    distinct = r.distinct;
    sorted = r.sorted;
    below = later-Below last now (failures_of a f) l r.below;
    window = λ t m. r.window t (omega (arith, l, m));
    down = λ t m. r.down t (omega (arith, l, m));
  }

  still_down-run :
      (nows : ℕ → ℕ) (addrs : StringSet) (t : ℕ)
      → last ≤ nows a
      → nows a ≤ t
      → still_down c t (get a (run_passive nows addrs f).0.unhealthy)
        ≡ still_down c t (last_mark c h)
  unfolding run_passive
  still_down-run nows addrs t l m =
      ap (still_down c t)
        (run_loop-get f.config nows f.unhealthy f.unhealthy (copy addrs) a r.distinct)
      ∙ rw r.config
          (still_down-kept c (nows a) t (get a f.unhealthy) m ∙ r.down t (omega (arith, l, m)))

  run_passive-Tracks :
      (nows : ℕ → ℕ) (addrs : StringSet)
      → last ≤ nows a
      → Tracks c a (nows a) h (run_passive nows addrs f).0
  unfolding run_passive failures_of
  run_passive-Tracks nows addrs l = record {
    config = r.config;
    distinct = run_loop-Distinct f.config nows f.unhealthy f.unhealthy (copy addrs) r.distinct;
    sorted = r.sorted;
    below = later-Below last (nows a) (failures_of a f) l r.below;
    window = λ t m. r.window t (omega (arith, l, m));
    down = λ t m. still_down-run nows addrs t l m;
  }

  fail_other : (b now : ℕ) → (b == a) ≡ false → Tracks c a last h (passive_failed now b f)
  fail_other b now n =
      let same : failures_of a (passive_failed now b f) ≡ failures_of a f =
        ground (arith, failures_of-failed a b now f) in
      record {
        config = config-failed b now f ∙ r.config;
        distinct = Distinct-failed b now f r.distinct;
        sorted = subst Sorted (sym same) r.sorted;
        below = subst (Below last) (sym same) r.below;
        window = λ t m. ap (recent c t) same ∙ r.window t m;
        down = λ t m. ground (arith, unhealthy-failed a b now f, r.down t m);
      }

  popped_window :
      (now t : ℕ)
      → last ≤ now
      → now ≤ t
      → recent c t (pop_expired f.config now (failures_of a f)) ≡ recent c t h
  popped_window now t l m =
      subst (λ k. recent c t (pop_expired k now (failures_of a f)) ≡ recent c t h) (sym r.config)
        (recent-pop_expired c now t (failures_of a f) m ∙ r.window t (omega (arith, l, m)))

  length-new_failures :
      (now : ℕ) → last ≤ now → length (new_failures now a f) ≡ suc (recent c now h)
  length-new_failures now l =
      let popped = pop_expired f.config now (failures_of a f) in
      let own : length popped ≡ recent c now h =
        subst (λ k. length (pop_expired k now (failures_of a f)) ≡ recent c now h) (sym r.config)
          (length-pop_expired c now (failures_of a f) r.sorted ∙ r.window now l) in
      omega (arith, own, length-append popped (now ∷ []))

  fail_self : (now : ℕ) → last ≤ now → Tracks c a now (now ∷ h) (passive_failed now a f)
  fail_self now l =
      let own : failures_of a (passive_failed now a f) ≡ new_failures now a f =
        ground (arith, failures_of-failed a a now f) in
      let popped = pop_expired f.config now (failures_of a f) in
      let below_now = later-Below last now (failures_of a f) l r.below in
      let popped_below = pop_expired-Below f.config now now (failures_of a f) below_now in
      record {
        config = config-failed a now f ∙ r.config;
        distinct = Distinct-failed a now f r.distinct;
        sorted = subst Sorted (sym own) (
            append-Sorted now popped popped_below
              (pop_expired-Sorted f.config now (failures_of a f) r.sorted));
        below = subst (Below now) (sym own) (append-Below now popped popped_below);
        window = λ t m.
            ap (recent c t) own
            ∙ recent-append c t now popped
            ∙ ground (arith, popped_window now t l m);
        down = λ t m. ground (
          arith,
          unhealthy-failed a a now f,
          length-new_failures now l,
          r.config,
          r.down t (omega (arith, l, m)),
        );
      }

-- `Run` answers a host of the list exactly if it is not down.
has-run_passive :
    (c : PassiveConfig) (a last : ℕ) (h : List ℕ) (f : PassiveFilter)
    → Tracks c a last h f
    → (nows : ℕ → ℕ) (addrs : StringSet) → last ≤ nows a
    → has a (run_passive nows addrs f).1
      ≡ (has a addrs && not (still_down c (nows a) (last_mark c h)))
unfolding run_passive
has-run_passive c a last h f r nows addrs l = ground (
  arith,
  run_loop-has f.config nows f.unhealthy f.unhealthy (copy addrs) a r.distinct,
  has-copy addrs a,
  r.config,
  r.down (nows a) l,
)

time_case :
    (a last end now b : ℕ) (self : Bool) (cs : List PassiveCall)
    → (b == a) ≡ self
    → Forward a last (calls_fail now b ∷ cs) end
    → (last ≤ (if self then now else last)) × Forward a (if self then now else last) cs end
time_case a last end now b self cs e w =
    subst (λ z. (last ≤ (if z then now else last)) × Forward a (if z then now else last) cs end) e w

passive_run-Tracks :
    (c : PassiveConfig) (a last end : ℕ) (cs : List PassiveCall) (h : List ℕ) (f : PassiveFilter)
    → Forward a last cs end
    → Tracks c a last h f
    → Tracks c a end (failure_times a cs h) (passive_run cs f)
unfolding passive_run
passive_run-Tracks c a last end [] h f w r = later_Tracks c a last h f r end w
passive_run-Tracks c a last end (calls_run nows addrs ∷ cs) h f w r =
    passive_run-Tracks c a (nows a) end cs h (run_passive nows addrs f).0 w.1
      (run_passive-Tracks c a last h f r nows addrs w.0)
passive_run-Tracks c a last end (calls_fail now b ∷ cs) h f w r = elim (Bool-cases (b == a)) [
  | inl same ↦
      let (l, w') = time_case a last end now b true cs same w in
      rw same (
        passive_run-Tracks c a now end cs (now ∷ h) (passive_failed now b f) w' (
          subst (λ x. Tracks c a now (now ∷ h) (passive_failed now x f)) (ground (arith, same))
            (fail_self c a last h f r now l)))
  | inr other ↦ rw other (
      passive_run-Tracks c a last end cs h (passive_failed now b f)
        (time_case a last end now b false cs other w).1 (fail_other c a last h f r b now other))
]

new_passive-Tracks :
    (config : PassiveConfig) (a : ℕ) → Tracks (passive_defaults config) a 0 [] (new_passive config)
unfolding new_passive failures_of get
new_passive-Tracks config a = record {
  config = refl;
  distinct = tt;
  sorted = tt;
  below = tt;
  window = λ t m. refl;
  down = λ t m. refl;
}

-- Whatever calls were made on a new filter, as long as the clock does not run backwards between
-- the calls on a host, `Run` answers exactly the given hosts but those whose last failure that was
-- the last of enough failures within the timeout is at most the timeout ago.
pub run_passive_exact :
    (config : PassiveConfig) (a : ℕ) (cs : List PassiveCall) (nows : ℕ → ℕ) (addrs : StringSet)
    → Forward a 0 cs (nows a)
    → has a (run_passive nows addrs (passive_run cs (new_passive config))).1 ≡ (
        has a addrs
        && not (
            still_down
              (passive_defaults config)
              (nows a)
              (last_mark (passive_defaults config) (failure_times a cs []))))
run_passive_exact config a cs nows addrs w =
    let c = passive_defaults config in
    has-run_passive c a (nows a) (failure_times a cs []) (passive_run cs (new_passive config))
      (passive_run-Tracks c a 0 (nows a) cs [] (new_passive config) w (new_passive-Tracks config a))
      nows addrs (omega arith)
