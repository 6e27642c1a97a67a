-- ===== src/BlobMemoryCache/Tests.antt =====
-- Runs of the cache, and each theorem at concrete calls.
use kraken.Base.{◌-◌, [], ◌∷◌, true, ◌≡◌, refl, arith, get, put, del}
use kraken.MetaInfo.{MetaInfo}
use kraken.BlobMemoryCache.{
  u64_mod, MemoryEntry, Cache, init, add, remove, try_reserve, release_reservation, Store, Reach,
  reserves, adds, here, next,
}
use kraken.BlobMemoryCache.Accounting.{IsValid, Reach-init-IsValid}

program : Unit {0}
unfolding init add remove try_reserve release_reservation get put del
program = tt

abbrev meta_info : MetaInfo
meta_info = record {
  info = record { piece_length = 4; piece_sums = 6 ∷ []; name = 7; length = 3 };
  info_hash = 1;
  digest = 7;
}

abbrev blob : MemoryEntry
blob = record { name = 7; data_bytes = 1 ∷ 2 ∷ 3 ∷ []; meta_info = meta_info; created_at = 0 }

abbrev start : Store
start = record {
  cache = record { max_size = 10; entries = []; total_size = 0 };
  open_reservations = [];
}

abbrev opened : Store
opened = record {
  cache = record { max_size = 10; entries = []; total_size = 3 };
  open_reservations = 3 ∷ [];
}

abbrev filled : Store
filled = record {
  cache = record { max_size = 10; entries = (7, blob) ∷ []; total_size = 3 };
  open_reservations = [];
}

history : Reach (record { cache = init 10; open_reservations = [] }) filled
unfolding program
history =
    next {t = opened} (next {t = start} here (reserves 3 _ (omega arith) refl))
      (adds blob 3 [] [] _ refl refl)

Reach-init-IsValid_example : IsValid filled
unfolding history
Reach-init-IsValid_example = Reach-init-IsValid 10 history ((tt, omega arith), refl)

abbrev used : Cache
used = record { max_size = 10; entries = []; total_size = 4 }

-- A size of 2^64 - 1 wraps around: it is granted, and the total falls.
wrapped : (try_reserve (u64_mod - 1) used).1 ≡ true
unfolding try_reserve
wrapped = refl
