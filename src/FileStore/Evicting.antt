-- ===== src/FileStore/Evicting.antt =====
-- The number of entries in memory.
use kraken.Base.{
  ℕ, suc, ◌≤◌, Bool, true, false, Option, none, some, List, [], ◌∷◌, ◌≡◌, refl, arith, ◌==◌, leb,
  ◌+◌, get, put, del, if-cases, Option-cases, inl, inr, has, size, Map, Distinct, get-del,
  del-Distinct, put-Distinct, size-del, size-put, size-del-le,
}
use kraken.FileStore.Types.{FileError, Registry, Disk, Entry, Slot, Store}
use kraken.FileStore.FileMap.{
  sync_get, move_to_front, get_oldest, choose_oldest, evict, sync_get_and_touch,
  remove_oldest_if_needed, load_access_time, try_store, time_resolution,
}
use kraken.FileStore.Ops.{put_entry}
use kraken.FileStore.Calls.{
  Operation, creates, moves_from, moves, deletes, stats, gets, deletes_metadata, sets, gets_or_sets,
  sets_at, Call, run, new_store,
}
use kraken.FileStore.Stable.{Stable, Safe, AllSafe}
use kraken.FileStore.Stable.Runs.{run-Stable}

-- Each name once, and no more entries than the capacity, if there is one.
abbrev pub Fits : ℕ → Map Slot → Type 0
Fits c q = Distinct q × ((c == 0) ≡ false → size q ≤ c)

abbrev Holds : ℕ → Store → Type 0
Holds c s = (s.capacity ≡ c) × Fits c s.queue

move_to_front-Fits : (c n : ℕ) (q : Map Slot) → Fits c q → Fits c (move_to_front n q)
unfolding move_to_front
move_to_front-Fits c n q (d, b) = elim (Option-cases (get n q)) [
  | inl gone ↦ rw (gone, move_to_front) (d, b)
  | inr (e, there) ↦
      rw (there, move_to_front)
        (
          (ground (arith, get-del n n q), del-Distinct n q d),
          λ limited. ground (arith, size-del n q d, there, b limited),
        )
]

put-Fits : (c n : ℕ) (e : Slot) (q : Map Slot) → has n q ≡ true → Fits c q → Fits c (put n e q)
put-Fits c n e q h (d, b) =
    (put-Distinct n e q d, λ limited. ground (arith, size-put n e q, h, b limited))

del-Fits : (c n : ℕ) (q : Map Slot) → Fits c q → Fits c (del n q)
del-Fits c n q (d, b) = (del-Distinct n q d, λ limited. omega (arith, size-del-le n q, b limited))

get-get_oldest :
    (q : Map Slot) (n : ℕ) (e : Slot) → Distinct q → get_oldest q ≡ some (n, e) → get n q ≡ some e
unfolding get_oldest get
get-get_oldest [] n e d h = ground (arith, h)
get-get_oldest ((m, f) ∷ []) n e d h = ground (arith, h)
get-get_oldest ((m, f) ∷ g ∷ q) n e d h = ground (arith, h, d.0, get-get_oldest (g ∷ q) n e d.1 h)

get_oldest-none : (q : Map Slot) → get_oldest q ≡ none → size q ≡ 0
unfolding get_oldest
get_oldest-none [] h = refl
get_oldest-none (f ∷ []) h = ground (arith, h)
get_oldest-none (f ∷ g ∷ q) h = ground (arith, get_oldest-none (g ∷ q) h)

-- What is chosen is in memory; nothing is chosen only where the entries fit.
choose_oldest-none :
    (s : Store) → choose_oldest s ≡ none → (s.capacity == 0) ≡ false → size s.queue ≤ s.capacity
unfolding choose_oldest
choose_oldest-none s h limited = ground (arith, h, limited, get_oldest-none s.queue)

choose_oldest-some :
    (s : Store) (n : ℕ) (e : Slot)
    → Distinct s.queue
    → choose_oldest s ≡ some (n, e)
    → get n s.queue ≡ some e
unfolding choose_oldest
choose_oldest-some s n e d h = get-get_oldest s.queue n e d (ground (arith, h))

evict-Fits :
    (r : Registry) (c n : ℕ) (e f : Slot) (s : Store)
    → s.capacity ≡ c
    → Distinct s.queue
    → ((c == 0) ≡ false → size s.queue ≤ suc c)
    → get n s.queue ≡ some f
    → Holds c (evict r n e s)
unfolding evict
evict-Fits r c n e f s same d b there =
    if-cases (Holds c) (has n s.queue) _ s
      (λ found. (
        same,
        (
          del-Distinct n s.queue d,
          λ limited. ground (arith, size-del n s.queue d, there, b limited),
        ),
      ))
      (λ gone. absurd (ground (arith, gone, there)))

evicted-Fits :
    (r : Registry) (c : ℕ) (s : Store)
    → s.capacity ≡ c
    → Distinct s.queue
    → ((c == 0) ≡ false → size s.queue ≤ suc c)
    → Holds c (remove_oldest_if_needed r s)
unfolding remove_oldest_if_needed
evicted-Fits r c s same d b = elim (Option-cases (choose_oldest s)) [
  | inl fits ↦
      rw (fits, remove_oldest_if_needed)
        (same, (d, λ limited. ground (arith, same, choose_oldest-none s fits, limited)))
  | inr ((n, e), there) ↦
      rw (there, remove_oldest_if_needed)
        (evict-Fits r c n e e s same d b (choose_oldest-some s n e d there))
]

module _ (r : Registry) (c : ℕ) where
  sync_get-Holds : (n : ℕ) (s : Store) → Holds c s → Holds c (sync_get n s).0
  unfolding sync_get
  sync_get-Holds n s (same, fits) = elim (Option-cases (get n s.queue)) [
    | inl gone ↦ rw (gone, sync_get) (same, fits)
    | inr (e, there) ↦ rw (there, sync_get) (same, move_to_front-Fits c n s.queue fits)
  ]

  in_front : (n : ℕ) (q : Map Slot) → has n q ≡ true → has n (move_to_front n q) ≡ true
  unfolding move_to_front get
  in_front n q h = ground (arith, h)

  touch-Holds : (now n : ℕ) (s : Store) → Holds c s → Holds c (sync_get_and_touch r now n s).0
  unfolding sync_get_and_touch
  touch-Holds now n s (same, fits) = elim (Option-cases (get n s.queue)) [
    | inl gone ↦ rw (gone, sync_get_and_touch) (same, fits)
    | inr (e, there) ↦
        rw (there, sync_get_and_touch)
          (if-cases (λ (x : Store × Option Entry). Holds c x.0)
            (leb (e.last_access + time_resolution) now) _
            (record s { queue = move_to_front n s.queue }, some e.fe)
            (λ late. (
              same,
              put-Fits c n _ (move_to_front n s.queue) (in_front n s.queue (ground (arith, there)))
                  (move_to_front-Fits c n s.queue fits),
            ))
            (λ early. (same, move_to_front-Fits c n s.queue fits)))
  ]

  try_store-Holds :
      (now n : ℕ) (e : Entry) (f : Entry → Disk → Entry × Disk × Option FileError) (s : Store)
      → Holds c s
      → Holds c (try_store r now n e f s).0
  unfolding try_store
  try_store-Holds now n e f s (same, (d, b)) =
      let e' = load_access_time r now n e s.disk in
      let x = f e'.0 e'.1 in
      let with_entry : Store = record s {
        disk = x.1;
        queue = (n, record { fe = x.0; last_access = e'.2 }) ∷ s.queue;
      } in
      if-cases (λ (t : Store × Bool × Option FileError). Holds c t.0) (has n s.queue) _ _
        (λ there.
          let (d', b') = move_to_front-Fits c n s.queue (d, b) in
          evicted-Fits r c _ same d' (λ limited. omega (arith, b' limited)))
        (λ fresh. elim (Option-cases x.2) [
          | inl fine ↦
              rw (fine, try_store)
                (evicted-Fits r c with_entry same (ground (arith, fresh), d)
                  (λ limited. omega (arith, b limited)))
          | inr (err, bad) ↦
              rw (bad, try_store)
                (evicted-Fits r c (record s { disk = x.1 }) same d
                  (λ limited. omega (arith, b limited)))
        ])

  put_entry-Holds :
      (n : ℕ) (e : Entry) (d : Disk) (s : Store) → Holds c s → Holds c (put_entry n e d s)
  unfolding put_entry
  put_entry-Holds n e d s (same, fits) = elim (Option-cases (get n s.queue)) [
    | inl gone ↦ rw (gone, put_entry) (same, fits)
    | inr (slot, there) ↦
        rw (there, put_entry)
          (same, put-Fits c n (record slot { fe = e }) s.queue (ground (arith, there)) fits)
  ]

  Holds-Stable : Stable r (λ d d'. Unit {0}) (Holds c)
  Holds-Stable = record {
    unchanged = λ d. tt;
    found = λ n s h. sync_get-Holds n s h;
    touched = λ now n s h. touch-Holds now n s h;
    stored = λ now n e f s safe h. try_store-Holds now n e f s h;
    replaced = λ n e d s k h. put_entry-Holds n e d s h;
    dropped = λ n d s k h. (h.0, del-Fits c n s.queue h.1);
    taken = λ u s h. h;
  }

any-Safe : (r : Registry) (n : ℕ) (o : Operation) → Safe r (λ d d'. Unit {0}) n o
any-Safe r n (creates target len) = λ e d. tt
any-Safe r n (moves_from target source) = λ b e d. tt
any-Safe r n (moves target) = λ e d. tt
any-Safe r n deletes = λ e d. tt
any-Safe r n stats = tt
any-Safe r n (gets k) = tt
any-Safe r n (deletes_metadata k) = λ e d. tt
any-Safe r n (sets k b) = λ e d. tt
any-Safe r n (gets_or_sets k b) = λ e d. tt
any-Safe r n (sets_at k b offset) = λ e d. tt

any-AllSafe : (r : Registry) (cs : List Call) → AllSafe r (λ d d'. Unit {0}) cs
any-AllSafe r [] = tt
any-AllSafe r (c ∷ cs) = (any-Safe r c.name c.operation, any-AllSafe r cs)

-- Whatever is called on a new store, where no two calls overlap, it holds each name at most once,
-- and no more entries than its capacity, if it has one.
pub run-new_store-Fits :
    (r : Registry) (capacity : ℕ) (is_cas : Bool) (disk : Disk) (unmanaged : Map (List ℕ))
    (cs : List Call)
    → Fits capacity (run r cs (new_store capacity is_cas disk unmanaged)).queue
unfolding new_store
run-new_store-Fits r capacity is_cas disk unmanaged cs =
    (run-Stable r (λ d d'. Unit {0}) (Holds capacity) (Holds-Stable r capacity) cs
      (new_store capacity is_cas disk unmanaged) (any-AllSafe r cs)
      (refl, (tt, λ limited. omega arith))).1
