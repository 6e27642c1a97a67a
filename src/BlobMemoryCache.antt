-- ===== src/BlobMemoryCache.antt =====
-- utils/cache/blob_memory_cache.go, and the part of lib/store/ca_store.go that reserves memory,
-- fills it and gives it back. Blob names are numbered; sizes are `uint64`, with their wrap-around.
-- The cache's lock makes each of its calls atomic.
pub mod Accounting
mod Tests
use kraken.Base.{
  ℕ, suc, ◌+◌, ◌-◌, ◌%◌, ◌^◌, Bool, true, false, Option, none, some, List, [], ◌∷◌, ◌++◌, ◌≡◌, ◌<◌,
  if◌then◌else◌, ◌==◌, ltb, Map, get, put, del, has, size, length, keys,
}
use kraken.MetaInfo.{MetaInfo}

abbrev pub u64_mod : ℕ
u64_mod = 2 ^ 64

pub record MemoryEntry : Type 0 where
  pub name : ℕ
  pub data_bytes : List ℕ
  pub meta_info : MetaInfo
  pub created_at : ℕ

-- `uint64(len(m.Data))`
abbrev pub entry_size : MemoryEntry → ℕ
entry_size e = length e.data_bytes

pub record Cache : Type 0 where
  pub max_size : ℕ
  pub entries : Map MemoryEntry
  pub total_size : ℕ

unfoldable pub init : ℕ → Cache
init max_size = record { max_size = max_size; entries = []; total_size = 0 }

unfoldable pub add : MemoryEntry → Cache → Cache × Bool
add e c =
    if has e.name c.entries
    then (c, false)
    else (record c { entries = put e.name e c.entries }, true)

unfoldable pub lookup : ℕ → Cache → Option MemoryEntry
lookup name c = get name c.entries

unfoldable pub decrement_total_size : ℕ → Cache → Cache
decrement_total_size n c =
    if ltb c.total_size n
    then record c { total_size = 0 }
    else record c { total_size = c.total_size - n }

unfoldable pub remove : ℕ → Cache → Cache
unfolding decrement_total_size
remove name c = elim (get name c.entries) [
  | none ↦ c
  | some e ↦ decrement_total_size (entry_size e) (record c { entries = del name c.entries })
]

unfoldable pub remove_batch : List ℕ → Cache → Cache
unfolding remove
remove_batch [] c = c
remove_batch (name ∷ names) c = remove_batch names (remove name c)

abbrev pub num_entries : Cache → ℕ
num_entries c = size c.entries

unfoldable pub try_reserve : ℕ → Cache → Cache × Bool
try_reserve n c =
    if ltb c.max_size ((c.total_size + n) % u64_mod)
    then (c, false)
    else (record c { total_size = (c.total_size + n) % u64_mod }, true)

unfoldable pub release_reservation : ℕ → Cache → Cache
release_reservation n c =
    if ltb c.total_size n then c else record c { total_size = c.total_size - n }

expired_loop : ℕ → ℕ → Map MemoryEntry → List ℕ
expired_loop now ttl [] = []
expired_loop now ttl ((name, e) ∷ m) =
    let rest = expired_loop now ttl m in if ltb (e.created_at + ttl) now then name ∷ rest else rest

unfoldable pub get_expired_entries : ℕ → ℕ → Cache → List ℕ
unfolding expired_loop
get_expired_entries now ttl c = expired_loop now ttl c.entries

abbrev pub list_names : Cache → List ℕ
list_names c = keys c.entries

-- The use of the cache by `CAStore`: `open` lists the sizes that were reserved by a
-- `WriteBlobToCacheWithMetaInfo` that has not yet added its entry or released the reservation.
pub record Store : Type 0 where
  pub cache : Cache
  pub open_reservations : List ℕ

-- One round of some goroutine with the cache. A write that was reserved ends by `adds`, with an
-- entry of whatever size was written, or, after an error, by `releases`.
pub data Step (s : Store) : Store → Type 0 where
  reserves :
      (n : ℕ) (c : Cache)
      → n < u64_mod
      → try_reserve n s.cache ≡ (c, true)
      → Step s (record { cache = c; open_reservations = n ∷ s.open_reservations })
  refuses :
      (n : ℕ) (c : Cache) → try_reserve n s.cache ≡ (c, false) → Step s (record s { cache = c })
  adds :
      (e : MemoryEntry) (n : ℕ) (before behind : List ℕ) (c : Cache)
      → s.open_reservations ≡ before ++ n ∷ behind
      → add e s.cache ≡ (c, true)
      → Step s (record { cache = c; open_reservations = before ++ behind })
  releases :
      (n : ℕ) (before behind : List ℕ)
      → s.open_reservations ≡ before ++ n ∷ behind
      → Step s
          (record { cache = release_reservation n s.cache; open_reservations = before ++ behind })
  removes : (name : ℕ) → Step s (record s { cache = remove name s.cache })
  removes_batch : (names : List ℕ) → Step s (record s { cache = remove_batch names s.cache })
  expires :
      (now ttl : ℕ)
      → Step s (record s { cache = remove_batch (get_expired_entries now ttl s.cache) s.cache })

pub data Reach (s : Store) : Store → Type 0 where
  here : Reach s s
  next : {t u : Store} → Reach s t → Step t u → Reach s u
