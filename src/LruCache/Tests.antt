-- ===== src/LruCache/Tests.antt =====
-- Runs of the cache, and each theorem at concrete calls.
use kraken.Base.{List, [], ◌∷◌, some, ◌≡◌, refl, arith, get, put, del}
use kraken.LruCache.{Cache, init, add, delete, clear, Call, calls_add, run}
use kraken.LruCache.Calls.{IsValid, Added, add-Added, lru_run-IsValid}

program : Unit {0}
unfolding init run add delete clear get put del
program = tt

abbrev calls : List Call
calls = calls_add 10 10 1 ∷ calls_add 11 11 2 ∷ calls_add 12 12 1 ∷ calls_add 13 13 3 ∷ []

abbrev two : Cache
two = record { entries = (1, 112) ∷ (3, 113) ∷ []; lru_order = 1 ∷ 3 ∷ []; max_size = 2; ttl = 100 }

-- Key 2 is the oldest when key 3 comes, since key 1 was added again.
oldest_evicted : run calls (init 2 100) ≡ some two
unfolding program
oldest_evicted = refl

two-IsValid : IsValid two
unfolding get
two-IsValid = record { distinct = ground arith; tracks = λ k. ground arith; bounded = omega arith }

add-Added_example : (c : Cache) × (add 14 14 5 two ≡ some c) × IsValid c × Added 14 14 5 two c
unfolding get
add-Added_example = add-Added 14 14 5 two refl two-IsValid

lru_run-IsValid_example : (c : Cache) × (run calls (init 2 100) ≡ some c) × IsValid c
lru_run-IsValid_example = lru_run-IsValid 2 100 calls
