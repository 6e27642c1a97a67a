-- ===== src/FileStore/Persisting/Runs.antt =====
-- A file that is persisted stays, whatever is called, until it is moved or its persist metadata is
-- changed.
use kraken.Base.{
  ℕ, Bool, true, false, Option, none, some, List, [], ◌∷◌, if◌then◌else◌, ◌≡◌, subst, sym, arith,
  ◌==◌, ◌&&◌, ◌||◌, leb, ◌+◌, get, if-cases, Option-cases, inl, inr, has,
}
use kraken.FileStore.Types.{
  Result-cases, FileError, Registry, persist, last_access_time, Disk, data_at, Entry, Store,
}
use kraken.FileStore.Entries.{set_metadata, get_metadata}
use kraken.FileStore.FileMap.{
  sync_get, move_to_front, choose_oldest, evict, sync_get_and_touch, remove_oldest_if_needed,
  load_access_time, try_store, time_resolution,
}
use kraken.FileStore.Ops.{put_entry}
use kraken.FileStore.Calls.{
  Operation, creates, moves_from, moves, deletes, stats, gets, deletes_metadata, sets, gets_or_sets,
  sets_at, Call, run,
}
use kraken.FileStore.Stable.{Stable, Safe, AllSafe}
use kraken.FileStore.Stable.Runs.{run-Stable}
use kraken.FileStore.Persisting.{is_persisted, Keeps, Keeps-trans}
use kraken.FileStore.Persisting.Entries.{
  same-Keeps, set_metadata-Keeps, set_metadata_at-Keeps, get_or_set_metadata-Keeps,
  delete_metadata-Keeps, create-Keeps, move_from-Keeps, delete-Keeps, move-Keeps,
}

-- The suffix that an operation writes or deletes.
unfoldable pub changes : ℕ → Operation → Bool
changes k (deletes_metadata j) = j == k
changes k (sets j b) = j == k
changes k (gets_or_sets j b) = j == k
changes k (sets_at j b offset) = j == k
changes k _ = false

abbrev pub is_move : Operation → Bool
is_move (moves target) = true
is_move _ = false

module _ (r : Registry) (st n : ℕ) where
  pub disk-sync_get : (m : ℕ) (s : Store) → Keeps r st n s.disk (sync_get m s).0.disk
  unfolding sync_get
  disk-sync_get m s p = ground (arith, p)

  pub touch-Keeps :
      (now m : ℕ) (s : Store) → Keeps r st n s.disk (sync_get_and_touch r now m s).0.disk
  unfolding sync_get_and_touch
  touch-Keeps now m s = elim (Option-cases (get m s.queue)) [
    | inl gone ↦ rw (gone, sync_get_and_touch) (same-Keeps r st n s.disk)
    | inr (e, there) ↦
        rw (there, sync_get_and_touch)
          (if-cases (λ (x : Store × Option Entry). Keeps r st n s.disk x.0.disk)
            (leb (e.last_access + time_resolution) now) _
            (record s { queue = move_to_front m s.queue }, some e.fe)
            (λ late.
              set_metadata-Keeps r st n m last_access_time (r.format_time now) e.fe s.disk
                (ground arith))
            (λ early. same-Keeps r st n s.disk))
  ]

  evict-Keeps : (s : Store) → Keeps r st n s.disk (remove_oldest_if_needed r s).disk
  unfolding remove_oldest_if_needed evict
  evict-Keeps s = elim (Option-cases (choose_oldest s)) [
    | inl no_entry ↦ rw (no_entry, remove_oldest_if_needed) (same-Keeps r st n s.disk)
    | inr ((m, e), there) ↦
        rw (there, remove_oldest_if_needed)
          (if-cases (λ (x : Store). Keeps r st n s.disk x.disk) (has m s.queue) _ s
            (λ found. delete-Keeps r st n m e.fe s.disk) (λ gone. same-Keeps r st n s.disk))
  ]

  load_access_time-Keeps :
      (now m : ℕ) (e : Entry) (d : Disk) → Keeps r st n d (load_access_time r now m e d).1
  unfolding load_access_time
  load_access_time-Keeps now m e d =
      let new =
        set_metadata-Keeps r st n m last_access_time (r.format_time now) e d (ground arith) in
      elim (Result-cases (get_metadata r.parse_time last_access_time m e d)) [
        | inl (err, bad) ↦ rw (bad, load_access_time) new
        | inr (t, read) ↦ rw (read, load_access_time) (same-Keeps r st n d)
      ]

  pub try_store-Keeps :
      (now m : ℕ) (e : Entry) (f : Entry → Disk → Entry × Disk × Option FileError) (s : Store)
      → ((e : Entry) (d : Disk) → Keeps r st n d (f e d).1)
      → Keeps r st n s.disk (try_store r now m e f s).0.disk
  unfolding try_store
  try_store-Keeps now m e f s safe =
      let e' = load_access_time r now m e s.disk in
      let x = f e'.0 e'.1 in
      let told : Disk =
        if leb time_resolution now
        then (set_metadata last_access_time (r.format_time now) m e s.disk).1
        else s.disk in
      let front : Store = record s { queue = move_to_front m s.queue; disk = told } in
      let without : Store = record s { disk = x.1 } in
      let with_entry : Store = record s {
        disk = x.1;
        queue = (m, record { fe = x.0; last_access = e'.2 }) ∷ s.queue;
      } in
      let k1 : Keeps r st n s.disk told =
        if-cases (Keeps r st n s.disk) (leb time_resolution now)
          (set_metadata last_access_time (r.format_time now) m e s.disk).1 s.disk
          (λ late.
            set_metadata-Keeps r st n m last_access_time (r.format_time now) e s.disk
              (ground arith))
          (λ early. same-Keeps r st n s.disk) in
      let k2 : Keeps r st n s.disk x.1 =
        Keeps-trans r st n s.disk e'.1 x.1 (load_access_time-Keeps now m e s.disk)
          (safe e'.0 e'.1) in
      if-cases (λ (t : Store × Bool × Option FileError). Keeps r st n s.disk t.0.disk)
        (has m s.queue) (remove_oldest_if_needed r front, false, none) _
        (λ there.
          Keeps-trans r st n s.disk told (remove_oldest_if_needed r front).disk k1
            (evict-Keeps front))
        (λ fresh. elim (Option-cases x.2) [
          | inl fine ↦
              rw (fine, try_store)
                (Keeps-trans r st n s.disk x.1 (remove_oldest_if_needed r with_entry).disk k2
                  (evict-Keeps with_entry))
          | inr (err, bad) ↦
              rw (bad, try_store)
                (Keeps-trans r st n s.disk x.1 (remove_oldest_if_needed r without).disk k2
                  (evict-Keeps without))
        ])

  pub disk-put_entry : (m : ℕ) (e : Entry) (d : Disk) (s : Store) → (put_entry m e d s).disk ≡ d
  unfolding put_entry
  disk-put_entry m e d s = ground arith

  -- What the store keeps of a disk.
  Keeps-Stable : (d0 : Disk) → Stable r (Keeps r st n) (λ s. Keeps r st n d0 s.disk)
  Keeps-Stable d0 = record {
    unchanged = same-Keeps r st n;
    found = λ m s k. Keeps-trans r st n d0 s.disk (sync_get m s).0.disk k (disk-sync_get m s);
    touched = λ now m s k.
        Keeps-trans r st n d0 s.disk (sync_get_and_touch r now m s).0.disk k (touch-Keeps now m s);
    stored = λ now m e f s safe k.
        Keeps-trans r st n d0 s.disk (try_store r now m e f s).0.disk k
          (try_store-Keeps now m e f s safe);
    replaced = λ m e d s l k.
        subst (Keeps r st n d0) (sym (disk-put_entry m e d s)) (Keeps-trans r st n d0 s.disk d k l);
    dropped = λ m d s l k. Keeps-trans r st n d0 s.disk d k l;
    taken = λ u s k. k;
  }

  operation-Safe :
      (m : ℕ) (o : Operation)
      → ((m == n) && (is_move o || changes persist o)) ≡ false
      → Safe r (Keeps r st n) m o
  unfolding changes
  operation-Safe m (creates target len) h = λ e d. create-Keeps r st n len m e d
  operation-Safe m (moves_from target source) h = λ b e d. move_from-Keeps r st n b m e d
  operation-Safe m (moves target) h = λ e d. move-Keeps r st n target m e d (ground (arith, h))
  operation-Safe m deletes h = λ e d. delete-Keeps r st n m e d
  operation-Safe m stats h = tt
  operation-Safe m (gets k) h = tt
  operation-Safe m (deletes_metadata k) h =
      λ e d. delete_metadata-Keeps r st n m k e d (ground (arith, h))
  operation-Safe m (sets k b) h = λ e d. set_metadata-Keeps r st n m k b e d (ground (arith, h))
  operation-Safe m (gets_or_sets k b) h =
      λ e d. get_or_set_metadata-Keeps r st n m k b e d (ground (arith, h))
  operation-Safe m (sets_at k b offset) h =
      λ e d. set_metadata_at-Keeps r st n m k offset b e d (ground (arith, h))

-- The calls that neither move a file nor change its persist metadata.
abbrev pub AllSpare : ℕ → List Call → Type 0
AllSpare n [] = Unit
AllSpare n (c ∷ cs) =
    (((c.name == n) && (is_move c.operation || changes persist c.operation)) ≡ false)
    × AllSpare n cs

spare-AllSafe :
    (r : Registry) (st n : ℕ) (cs : List Call) → AllSpare n cs → AllSafe r (Keeps r st n) cs
spare-AllSafe r st n [] spared = tt
spare-AllSafe r st n (c ∷ cs) (h, spared) =
    (operation-Safe r st n c.name c.operation h, spare-AllSafe r st n cs spared)

-- A file that is persisted stays on disk with its data and stays persisted, whatever is called and
-- whatever the store evicts, as long as it is not moved and no call writes or deletes its persist
-- metadata.
pub run-keeps_persisted :
    (r : Registry) (state n : ℕ) (cs : List Call) (s : Store)
    → AllSpare n cs
    → is_persisted r state n s.disk ≡ true
    → (is_persisted r state n (run r cs s).disk ≡ true)
      × (data_at state n (run r cs s).disk ≡ data_at state n s.disk)
run-keeps_persisted r state n cs s spared =
    run-Stable r (Keeps r state n) (λ t. Keeps r state n s.disk t.disk)
      (Keeps-Stable r state n s.disk) cs s (spare-AllSafe r state n cs spared)
      (same-Keeps r state n s.disk)
