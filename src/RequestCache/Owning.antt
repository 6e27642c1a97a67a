-- ===== src/RequestCache/Owning.antt =====
-- Each pending id has one owner, and the workers are counted, under any interleaving.
use kraken.Base.{
  ℕ, suc, ◌+◌, ◌≤◌, ◌<◌, Bool, true, false, none, some, List, [], ◌∷◌, ◌++◌, if◌then◌else◌, ltb,
  length, count, count-append, length-append, Map, get, put, del, get-put, get-del, ◌≡◌, refl,
  arith, Bool-cases, Option-cases, inl, inr, ◌⊎◌, subst, ◌∙◌, sym,
}
use mathlib.Core.Option.{some_inj}
use native.Mathlib.Nat.{add_comm}
use kraken.RequestCache.{
  Config, Cache, new_cache, StartError, request_pending, cached_error, is_pending, clean,
  current_error, reserve, reserve_worker, release_worker, release, store_error,
}
use kraken.RequestCache.Running.{
  Runs, Step, starts, refuses, works, gives_up, succeeds, errs, leaves, Reach, here, next,
}

abbrev held : ℕ → Map Bool → Bool
held j p = elim (get j p) [ none ↦ false | some b ↦ b ]

-- An id is pending exactly while one goroutine waits with it or runs it, and never two; the workers
-- are those that run or are about to leave, and there are no more than configured.
pub record IsValid (r : Runs) : Type 0 where
  pub owned :
      (id : ℕ) → count id r.waiting + count id r.running ≡ (if is_pending id r.cache then 1 else 0)
  pub workers : r.cache.workers ≡ length r.running + r.leaving
  pub bounded : r.cache.workers ≤ r.cache.config.num_workers

-- `clean` touches only the errors.
pub clean-Same :
    (now : ℕ) (c : Cache)
    → ((clean now c).pending ≡ c.pending)
      × ((clean now c).workers ≡ c.workers)
      × ((clean now c).config ≡ c.config)
unfolding clean
clean-Same now c = elim (Bool-cases (ltb (c.last_clean + c.config.cleanup_interval) now)) [
  | inl e ↦ rw e (refl, refl, refl)
  | inr e ↦ rw e (refl, refl, refl)
]

abbrev taken : ℕ → ℕ → Cache → Cache
taken now id c = record (clean now c) { pending = put id true (clean now c).pending }

-- `reserve` marks an id that is not pending, or only cleans.
reserve-cases :
    (now id : ℕ) (c : Cache)
    → ((e : StartError) × (reserve now id c ≡ (clean now c, some e)))
      ⊎ ((is_pending id (clean now c) ≡ false) × (reserve now id c ≡ (taken now id c, none)))
unfolding reserve
reserve-cases now id c = elim (Bool-cases (is_pending id (clean now c))) [
  | inl p ↦ inl (request_pending, ground (arith, p))
  | inr n ↦ elim (Option-cases (current_error now id (clean now c))) [
    | inl fresh ↦ inr (n, ground (arith, n, fresh))
    | inr (err, e) ↦ inl (cached_error err, ground (arith, n, e))
  ]
]

clean-IsValid : (now : ℕ) (r : Runs) → IsValid r → IsValid (record r { cache = clean now r.cache })
clean-IsValid now r v =
    let (p, w, c) = clean-Same now r.cache in
    record {
      owned = λ j. ground (arith, v.owned j, p);
      workers = w ∙ v.workers;
      bounded = ground (arith, w, c, v.bounded);
    }

starts-IsValid :
    (now id : ℕ) (r : Runs)
    → is_pending id (clean now r.cache) ≡ false
    → IsValid r
    → IsValid (record r { cache = taken now id r.cache; waiting = id ∷ r.waiting })
starts-IsValid now id r n v =
    let v' = clean-IsValid now r v in
    record {
      owned = λ j.
          ground (arith, v'.owned j, v'.owned id, get-put id j true (clean now r.cache).pending, n);
      workers = v'.workers;
      bounded = v'.bounded;
    }

-- A goroutine with an id among others gives the id back.
release-owned :
    (id : ℕ) (before behind others : List ℕ) (p : Map Bool) (q : Map Bool)
    → q ≡ del id p
    → ((j : ℕ) → count j (before ++ id ∷ behind) + count j others ≡ (if held j p then 1 else 0))
    → (j : ℕ) → count j (before ++ behind) + count j others ≡ (if held j q then 1 else 0)
release-owned id before behind others p q e own j = ground (
  arith,
  own j,
  own id,
  count-append j before (id ∷ behind),
  count-append j before behind,
  count-append id before (id ∷ behind),
  get-del id j p,
  e,
)

reserve_worker-cases :
    (c : Cache)
    → (reserve_worker c ≡ none)
      ⊎ ((reserve_worker c ≡ some (record c { workers = suc c.workers }))
          × (c.workers < c.config.num_workers))
unfolding reserve_worker
reserve_worker-cases c = elim (Bool-cases (ltb c.workers c.config.num_workers)) [
  | inl room ↦ inr (ground (arith, room), ground (arith, room))
  | inr full ↦ inl (ground (arith, full))
]

works-IsValid :
    (id : ℕ) (before behind : List ℕ) (r : Runs)
    → r.waiting ≡ before ++ id ∷ behind
    → r.cache.workers < r.cache.config.num_workers
    → IsValid r
    → IsValid (record {
      cache = record r.cache { workers = suc r.cache.workers };
      waiting = before ++ behind;
      running = id ∷ r.running;
      leaving = r.leaving;
    })
works-IsValid id before behind r at room v = record {
  owned = λ j. ground (
    arith,
    subst (λ ws. count j ws + count j r.running ≡ (if held j r.cache.pending then 1 else 0)) at
        (v.owned j),
    count-append j before (id ∷ behind),
    count-append j before behind,
  );
  workers = omega (arith, v.workers);
  bounded = omega (arith, room);
}

-- A goroutine that runs a request ends it.
ends-IsValid :
    (id : ℕ) (before behind : List ℕ) (r : Runs) (c : Cache)
    → r.running ≡ before ++ id ∷ behind
    → c.pending ≡ del id r.cache.pending
    → (c.workers ≡ r.cache.workers) × (c.config ≡ r.cache.config)
    → IsValid r
    → IsValid (record {
      cache = c;
      waiting = r.waiting;
      running = before ++ behind;
      leaving = suc r.leaving;
    })
ends-IsValid id before behind r c at p (w, k) v = record {
  owned = λ j.
      add_comm (count j r.waiting) (count j (before ++ behind))
      ∙ release-owned id before behind r.waiting r.cache.pending c.pending p
          (λ i.
            subst (λ ws. count i ws + count i r.waiting ≡ (if held i r.cache.pending then 1 else 0))
              at (add_comm (count i r.running) (count i r.waiting) ∙ v.owned i))
          j;
  workers = omega (
    arith,
    w,
    v.workers,
    subst (λ ws. length r.running ≡ length ws) at refl,
    length-append before (id ∷ behind),
    length-append before behind,
  );
  bounded = ground (arith, w, k, v.bounded);
}

step-IsValid : {r s : Runs} → Step r s → IsValid r → IsValid s
step-IsValid {r} (starts now id c at) v = elim (reserve-cases now id r.cache) [
  | inl (e, refused) ↦ absurd (ground (arith, at, refused))
  | inr (n, ok) ↦
      let same : taken now id r.cache ≡ c = ground (arith, at, ok) in
      subst (λ k. IsValid (record r { cache = k; waiting = id ∷ r.waiting })) same
        (starts-IsValid now id r n v)
]
step-IsValid {r} (refuses now id c e at) v = elim (reserve-cases now id r.cache) [
  | inl (e', refused) ↦
      let same : clean now r.cache ≡ c = ground (arith, at, refused) in
      subst (λ k. IsValid (record r { cache = k })) same (clean-IsValid now r v)
  | inr (n, ok) ↦ absurd (ground (arith, at, ok))
]
step-IsValid {r} (works id c before behind at room) v = elim (reserve_worker-cases r.cache) [
  | inl full ↦ absurd (ground (arith, room, full))
  | inr (e, free) ↦
      let same : some (record r.cache { workers = suc r.cache.workers }) ≡ some c = sym e ∙ room in
      subst
        (λ k.
          IsValid (record r { cache = k; waiting = before ++ behind; running = id ∷ r.running }))
        (some_inj.0 same) (works-IsValid id before behind r at free v)
]
step-IsValid {r} (gives_up id before behind at) v = record {
  owned =
      release-owned id before behind r.running r.cache.pending (release id r.cache).pending
        (unfold release in refl)
        (λ j.
          subst (λ ws. count j ws + count j r.running ≡ (if held j r.cache.pending then 1 else 0))
            at (v.owned j));
  workers = unfold release in v.workers;
  bounded = unfold release in v.bounded;
}
step-IsValid {r} (succeeds id before behind at) v =
    ends-IsValid id before behind r (release id r.cache) at (unfold release in refl)
      (unfold release in (refl, refl)) v
step-IsValid {r} (errs now id err before behind at) v =
    ends-IsValid id before behind r (store_error now id err r.cache) at (unfold store_error in refl)
      (unfold store_error in (refl, refl)) v
step-IsValid {r} (leaves n at) v = record {
  owned = unfold release_worker in v.owned;
  workers = unfold release_worker in omega (arith, v.workers, at);
  bounded = unfold release_worker in omega (arith, v.bounded);
}

Reach-IsValid : {r s : Runs} → Reach r s → IsValid r → IsValid s
Reach-IsValid here v = v
Reach-IsValid (next q s) v = step-IsValid s (Reach-IsValid q v)

abbrev pub idle : Cache → Runs
idle c = record { cache = c; waiting = []; running = []; leaving = 0 }

-- However calls of `Start` and the requests interleave on a new cache, an id is pending exactly
-- while one goroutine waits with it or runs it, and never two; the workers in use are those that
-- run a request or are about to leave, and there are no more than configured.
pub Reach-new_cache-IsValid :
    (now : ℕ) (is_not_found : ℕ → Bool) (config : Config) {r : Runs}
    → Reach (idle (new_cache now is_not_found config)) r
    → IsValid r
Reach-new_cache-IsValid now is_not_found config q =
    Reach-IsValid q
      (unfold new_cache get in record { owned = λ j. refl; workers = refl; bounded = omega arith })
