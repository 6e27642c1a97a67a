-- ===== src/FileStore/Stable.antt =====
-- A property of a store that its primitive steps keep is kept where an entry is looked up.
pub mod Runs
use kraken.Base.{
  ℕ, Bool, true, false, Option, none, some, List, [], ◌∷◌, ◌≡◌, refl, ◌==◌, ◌⊎◌, get, del, has,
  if-cases, Option-cases, inl, inr, Map,
}
use kraken.FileStore.Types.{
  Result-cases, FileError, file_state, exist, is_not_exist, Registry, Disk, Entry, Store,
}
use kraken.FileStore.Entries.{
  new_entry, create, reload, move_from, move, delete, set_metadata, set_metadata_at,
  get_or_set_metadata, delete_metadata,
}
use kraken.FileStore.FileMap.{sync_get, sync_get_and_touch, try_store}
use kraken.FileStore.Ops.{
  Result, failed, ok, result_of, Action, accepts, stat_action, get_action, set_action,
  set_at_action, get_or_set_action, delete_metadata_action, reload_loop, reload_file_entry,
  put_entry, act, lock_helper, store_new, create_file_helper, create_file, move_file_from,
  move_entry, move_file, delete_held, delete_file, get_file_stat, get_file_metadata,
  set_file_metadata, set_file_metadata_at, get_or_set_file_metadata, delete_file_metadata,
}
use kraken.FileStore.Calls.{
  Operation, creates, moves_from, moves, deletes, stats, gets, deletes_metadata, sets, gets_or_sets,
  sets_at, Call, operate, step, run,
}

-- `K` relates the disk before a change to the one after it.
pub record Stable (r : Registry) (K : Disk → Disk → Type 0) (P : Store → Type 0) : Type 0 where
  pub unchanged : (d : Disk) → K d d
  pub found : (n : ℕ) (s : Store) → P s → P (sync_get n s).0
  pub touched : (now n : ℕ) (s : Store) → P s → P (sync_get_and_touch r now n s).0
  pub stored :
      (now n : ℕ) (e : Entry) (f : Entry → Disk → Entry × Disk × Option FileError) (s : Store)
      → ((e : Entry) (d : Disk) → K d (f e d).1)
      → P s
      → P (try_store r now n e f s).0
  pub replaced :
      (n : ℕ) (e : Entry) (d : Disk) (s : Store) → K s.disk d → P s → P (put_entry n e d s)
  pub dropped :
      (n : ℕ) (d : Disk) (s : Store)
      → K s.disk d
      → P s
      → P (record s { disk = d; queue = del n s.queue })
  pub taken : (u : Map (List ℕ)) (s : Store) → P s → P (record s { unmanaged = u })

-- What an operation on a name does to the disk.
abbrev pub Safe : Registry → (Disk → Disk → Type 0) → ℕ → Operation → Type 0
Safe r K n (creates target size) = (e : Entry) (d : Disk) → K d (create size n e d).0
Safe r K n (moves_from target source) =
    (b : Option (List ℕ)) (e : Entry) (d : Disk) → K d (move_from b n e d).0
Safe r K n (moves target) = (e : Entry) (d : Disk) → K d (move r target n e d).1
Safe r K n deletes = (e : Entry) (d : Disk) → K d (delete r n e d).0
Safe r K n (deletes_metadata k) = (e : Entry) (d : Disk) → K d (delete_metadata k n e d).1
Safe r K n (sets k b) = (e : Entry) (d : Disk) → K d (set_metadata k b n e d).1
Safe r K n (gets_or_sets k b) = (e : Entry) (d : Disk) → K d (get_or_set_metadata k b n e d).1
Safe r K n (sets_at k b offset) = (e : Entry) (d : Disk) → K d (set_metadata_at k b offset n e d).0
Safe r K n _ = Unit

-- The calls whose operations are safe.
abbrev pub AllSafe : Registry → (Disk → Disk → Type 0) → List Call → Type 0
AllSafe r K [] = Unit
AllSafe r K (c ∷ cs) = Safe r K c.name c.operation × AllSafe r K cs

module _ (r : Registry) (K : Disk → Disk → Type 0) (P : Store → Type 0)
    (stable : Stable r K P) where
  reload_loop-Stable :
      (now n : ℕ) (states : List ℕ) (s : Store) → P s → P (reload_loop r now n states s).0
  unfolding reload_loop
  reload_loop-Stable now n [] s p = p
  reload_loop-Stable now n (state ∷ states) s p =
      let f : Entry → Disk → Entry × Disk × Option FileError =
        λ e d. let (e', err) = reload r n e d in (e', d, err) in
      let e0 = reload r n (new_entry state) s.disk in
      let x = try_store r now n e0.0 f s in
      let k : P x.0 = stable.stored now n e0.0 f s (λ e d. stable.unchanged d) p in
      elim (Option-cases e0.1) [
        | inr (err, missing) ↦ rw (missing, reload_loop) (reload_loop-Stable now n states s p)
        | inl there ↦
            rw (there, reload_loop)
              (elim (Option-cases x.2) [
                | inl fine ↦ rw (fine, reload_loop) k
                | inr (err, bad) ↦
                    rw (bad, reload_loop)
                      (if-cases (λ (t : Store × Option FileError). P t.0) (is_not_exist err)
                        (reload_loop r now n states x.0) (x.0, some err)
                        (λ gone. reload_loop-Stable now n states x.0 k) (λ other. k))
              ])
      ]

  pub reload-Stable :
      (now n : ℕ) (states : List ℕ) (s : Store) → P s → P (reload_file_entry r now n states s).0
  unfolding reload_file_entry
  reload-Stable now n states s p =
      if-cases (λ (t : Store × Bool × Option FileError). P t.0) (has n s.queue) (s, false, none) _
        (λ there. p)
        (λ fresh. elim (Option-cases (reload_loop r now n states s).1) [
          | inl fine ↦ rw (fine, reload_file_entry) (reload_loop-Stable now n states s p)
          | inr (err, bad) ↦ rw (bad, reload_file_entry) (reload_loop-Stable now n states s p)
        ])

  act-Stable :
      {A : Type 0} (n : ℕ) (states : List ℕ) (f : Action A) (s : Store) (held : Option Entry)
      → ((e : Entry) (d : Disk) → K d (f e d).1)
      → P s
      → P (act n states f (s, held)).0
  unfolding act
  act-Stable n states f s none safe p = p
  act-Stable {A} n states f s (some e) safe p =
      let x = f e s.disk in
      if-cases (λ (t : Store × Result A). P t.0) (accepts states e.state)
        (put_entry n x.0 x.1 s, x.2) (s, failed (file_state e.state))
        (λ fits. stable.replaced n x.0 x.1 s (safe e s.disk) p) (λ refused. p)

  pub lock_helper-Stable :
      {A : Type 0} (peeks : Bool) (now n : ℕ) (states : List ℕ) (f : Action A) (s : Store)
      → ((e : Entry) (d : Disk) → K d (f e d).1)
      → P s
      → P (lock_helper r peeks now n states f s).0
  unfolding lock_helper
  lock_helper-Stable {A} peeks now n states f s safe p =
      let x = reload_file_entry r now n states s in
      let k : P x.0 = reload-Stable now n states s p in
      let got = sync_get n x.0 in
      let loaded = sync_get_and_touch r now n x.0 in
      elim (Option-cases x.2) [
        | inr (err, bad) ↦ rw (bad, lock_helper) k
        | inl fine ↦
            rw (fine, lock_helper)
              (if-cases (λ (y : Store × Option Entry). P (act n states f y).0) peeks got loaded
                (λ peek. act-Stable n states f got.0 got.1 safe (stable.found n x.0 k))
                (λ load. act-Stable n states f loaded.0 loaded.1 safe (stable.touched now n x.0 k)))
      ]
