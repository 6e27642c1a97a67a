-- ===== src/FileStore/FileMap.antt =====
-- lib/store/base/file_map.go: the entries in memory, with the time of the last access, and eviction
-- of the least recently used. Calls run one after the other. In the code the lock of the map is
-- released between the choice of the oldest entry and its eviction, so two calls that overlap may
-- choose the same one; here the entry that is found under the name again is the same one. A call
-- reads the clock once, at `now`.
use kraken.Base.{
  ℕ, ◌+◌, Bool, true, false, Option, none, some, [], ◌∷◌, if◌then◌else◌, ◌==◌, ◌||◌, leb, Map, get,
  put, del, has, size,
}
use kraken.FileStore.Types.{
  FileError, failed, ok, Registry, last_access_time, Disk, Entry, Slot, Store,
}
use kraken.FileStore.Entries.{get_metadata, set_metadata, delete}

-- Five minutes.
abbrev pub time_resolution : ℕ
time_resolution = 300_000_000_000

unfoldable pub move_to_front : ℕ → Map Slot → Map Slot
move_to_front n q = elim (get n q) [ none ↦ q | some e ↦ (n, e) ∷ del n q ]

-- `syncGet`.
unfoldable pub sync_get : ℕ → Store → Store × Option Entry
unfolding move_to_front
sync_get n s = elim (get n s.queue) [
  | none ↦ (s, none)
  | some e ↦ (record s { queue = move_to_front n s.queue }, some e.fe)
]

-- The last element of the queue.
unfoldable pub get_oldest : Map Slot → Option (ℕ × Slot)
get_oldest [] = none
get_oldest (e ∷ []) = some e
get_oldest (e ∷ f ∷ q) = get_oldest (f ∷ q)

-- With the lock of the map: the entry to evict, where the capacity is exceeded.
unfoldable pub choose_oldest : Store → Option (ℕ × Slot)
unfolding get_oldest
choose_oldest s =
    if (s.capacity == 0) || leb (size s.queue) s.capacity then none else get_oldest s.queue

module _ (r : Registry) where
  unfoldable pub sync_get_and_touch : ℕ → ℕ → Store → Store × Option Entry
  unfolding move_to_front set_metadata
  sync_get_and_touch now n s = elim (get n s.queue) [
    | none ↦ (s, none)
    | some e ↦
        let front = move_to_front n s.queue in
        let (fe, d, updated) = set_metadata last_access_time (r.format_time now) n e.fe s.disk in
        if leb (e.last_access + time_resolution) now
        then (
          record s { queue = put n (record { fe = fe; last_access = now }) front; disk = d },
          some fe,
        )
        else (record s { queue = front }, some e.fe)
  ]

  -- With the lock of the entry that was chosen. It is removed also where its file could not be
  -- deleted; an entry that is gone by now is left.
  unfoldable pub evict : ℕ → Slot → Store → Store
  unfolding delete
  evict n e s =
      if has n s.queue
      then record s { disk = (delete r n e.fe s.disk).0; queue = del n s.queue }
      else s

  -- The two critical sections of `syncRemoveOldestIfNeeded`, with no other call between them.
  unfoldable pub remove_oldest_if_needed : Store → Store
  unfolding choose_oldest evict
  remove_oldest_if_needed s = elim (choose_oldest s) [ none ↦ s | some (n, e) ↦ evict n e s ]

  -- The last access time of a new entry: what the disk has, or now.
  unfoldable pub load_access_time : ℕ → ℕ → Entry → Disk → Entry × Disk × ℕ
  unfolding get_metadata set_metadata
  load_access_time now n e d =
      let (e', d', updated) = set_metadata last_access_time (r.format_time now) n e d in
      elim (get_metadata r.parse_time last_access_time n e d) [
        | failed err ↦ (e', d', now)
        | ok t ↦ (e, d, t)
      ]

  -- If the entry was stored, and the error of `f`. A name that is there gets a last access time at
  -- the path of the new entry, whose own time is zero.
  unfoldable pub try_store :
      ℕ
      → ℕ
      → Entry
      → (Entry → Disk → Entry × Disk × Option FileError)
      → Store
      → Store × Bool × Option FileError
  unfolding move_to_front set_metadata load_access_time remove_oldest_if_needed
  try_store now n e f s =
      if has n s.queue
      then (
        remove_oldest_if_needed (record s {
          queue = move_to_front n s.queue;
          disk =
              if leb time_resolution now
              then (set_metadata last_access_time (r.format_time now) n e s.disk).1
              else s.disk;
        }),
        false,
        none,
      )
      else (let (e1, d1, t) = load_access_time now n e s.disk in
          let (e2, d2, problem) = f e1 d1 in
          elim problem [
            | some err ↦ (remove_oldest_if_needed (record s { disk = d2 }), false, some err)
            | none ↦ (
              remove_oldest_if_needed (record s {
                disk = d2;
                queue = (n, record { fe = e2; last_access = t }) ∷ s.queue;
              }),
              true,
              none,
            )
          ])
