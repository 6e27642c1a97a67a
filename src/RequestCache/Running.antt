-- ===== src/RequestCache/Running.antt =====
-- Concurrent calls of `Start` and the requests that they run, as steps of the goroutines.
use kraken.Base.{ℕ, suc, none, some, List, ◌∷◌, ◌++◌, ◌≡◌}
use kraken.RequestCache.{
  Cache, StartError, reserve, reserve_worker, release_worker, release, store_error,
}

-- The ids whose `Start` waits for a worker, those that run, and how many goroutines are done with
-- their request and still hold their worker.
pub record Runs : Type 0 where
  pub cache : Cache
  pub waiting : List ℕ
  pub running : List ℕ
  pub leaving : ℕ

pub data Step (r : Runs) : Runs → Type 0 where
  starts :
      (now id : ℕ) (c : Cache)
      → reserve now id r.cache ≡ (c, none)
      → Step r (record r { cache = c; waiting = id ∷ r.waiting })
  refuses :
      (now id : ℕ) (c : Cache) (e : StartError)
      → reserve now id r.cache ≡ (c, some e)
      → Step r (record r { cache = c })
  works :
      (id : ℕ) (c : Cache) (before behind : List ℕ)
      → r.waiting ≡ before ++ id ∷ behind
      → reserve_worker r.cache ≡ some c
      → Step r (record r { cache = c; waiting = before ++ behind; running = id ∷ r.running })
  gives_up :
      (id : ℕ) (before behind : List ℕ)
      → r.waiting ≡ before ++ id ∷ behind
      → Step r (record r { cache = release id r.cache; waiting = before ++ behind })
  succeeds :
      (id : ℕ) (before behind : List ℕ)
      → r.running ≡ before ++ id ∷ behind
      → Step r (record r {
        cache = release id r.cache;
        running = before ++ behind;
        leaving = suc r.leaving;
      })
  errs :
      (now id err : ℕ) (before behind : List ℕ)
      → r.running ≡ before ++ id ∷ behind
      → Step r (record r {
        cache = store_error now id err r.cache;
        running = before ++ behind;
        leaving = suc r.leaving;
      })
  leaves :
      (n : ℕ)
      → r.leaving ≡ suc n
      → Step r (record r { cache = release_worker r.cache; leaving = n })

pub data Reach (r : Runs) : Runs → Type 0 where
  here : Reach r r
  next : {s t : Runs} → Reach r s → Step s t → Reach r t
