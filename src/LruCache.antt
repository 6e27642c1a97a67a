-- ===== src/LruCache.antt =====
-- utils/cache/lru.go: a set of keys with a size limit and a time to live. Keys are numbered, times
-- and the time to live are nanoseconds, and each reading of the clock is an argument. The lock makes
-- each call atomic.
pub mod Evicting
pub mod Calls
mod Tests
use kraken.Base.{
  ℕ, suc, ◌+◌, Bool, true, false, not, Option, none, some, List, [], ◌∷◌, ◌++◌, if◌then◌else◌, ◌==◌,
  ltb, Map, get, put, del, has, size,
}

pub record Cache : Type 0 where
  pub entries : Map ℕ
  pub lru_order : List ℕ
  pub max_size : ℕ
  pub ttl : ℕ

unfoldable pub init : ℕ → ℕ → Cache
init max_size ttl = record { entries = []; lru_order = []; max_size = max_size; ttl = ttl }

-- A key that is missing or whose time is over.
unfoldable pub stale : ℕ → ℕ → Map ℕ → Bool
stale now k entries = elim (get k entries) [ none ↦ true | some t ↦ ltb t now ]

unfoldable pub contains : ℕ → ℕ → Cache → Bool
unfolding stale
contains now key c = not (stale now key c.entries)

-- The list without the first occurrence of a key.
unfoldable pub without : ℕ → List ℕ → List ℕ
without key [] = []
without key (k ∷ ks) = if k == key then ks else k ∷ without key ks

-- `moveToEnd`: a key that does not occur leaves the order as it is.
unfoldable pub move_to_end : ℕ → List ℕ → List ℕ
unfolding without
move_to_end key [] = []
move_to_end key (k ∷ ks) = if k == key then ks ++ key ∷ [] else k ∷ move_to_end key ks

-- The first loop of `evict`, over the rest of the order: what is left of it, and of the entries.
unfoldable pub evict_expired : ℕ → List ℕ → Map ℕ → List ℕ × Map ℕ
unfolding stale
evict_expired now [] entries = ([], entries)
evict_expired now (k ∷ ks) entries =
    let rest = evict_expired now ks (if stale now k entries then del k entries else entries) in
    if stale now k entries then rest else (k ∷ rest.0, rest.1)

-- The second loop; `none` is the panic at `lruOrder[0]` of an empty order.
unfoldable pub evict_oldest : ℕ → List ℕ → Map ℕ → Option (List ℕ × Map ℕ)
evict_oldest max_size [] entries = if ltb max_size (size entries) then none else some ([], entries)
evict_oldest max_size (k ∷ ks) entries =
    let rest = evict_oldest max_size ks (del k entries) in
    if ltb max_size (size entries) then rest else some (k ∷ ks, entries)

unfoldable pub evict : ℕ → Cache → Option Cache
unfolding evict_expired evict_oldest
evict now c =
    let (order, entries) = evict_expired now c.lru_order c.entries in
    elim (evict_oldest c.max_size order entries) [
      | none ↦ none
      | some (order', entries') ↦ some (record c { lru_order = order'; entries = entries' })
    ]

-- `Add` reads the clock at `now`, and `evict` at `later`.
unfoldable pub add : ℕ → ℕ → ℕ → Cache → Option Cache
unfolding move_to_end evict
add now later key c =
    if has key c.entries
    then some (record c {
      entries = put key (now + c.ttl) c.entries;
      lru_order = move_to_end key c.lru_order;
    })
    else evict later (record c {
      entries = put key (now + c.ttl) c.entries;
      lru_order = c.lru_order ++ key ∷ [];
    })

unfoldable pub delete : ℕ → Cache → Cache
unfolding without
delete key c =
    if has key c.entries
    then record c { entries = del key c.entries; lru_order = without key c.lru_order }
    else c

unfoldable pub clear : Cache → Cache
clear c = record c { entries = []; lru_order = [] }

-- The calls that change the cache; a panic ends the run.
pub data Call : Type 0 where
  calls_add : (now later key : ℕ) → Call
  calls_delete : ℕ → Call
  calls_clear : Call

unfoldable pub step : Call → Cache → Option Cache
step (calls_add now later key) c = add now later key c
step (calls_delete key) c = some (delete key c)
step calls_clear c = some (clear c)

unfoldable pub run : List Call → Cache → Option Cache
unfolding step
run [] c = some c
run (x ∷ xs) c = elim (step x c) [ none ↦ none | some c' ↦ run xs c' ]
