-- ===== src/FileStore/Stable/Runs.antt =====
-- A property of a store that its primitive steps keep is kept by every call.
use kraken.Base.{
  some, ℕ, true, false, Option, List, [], ◌∷◌, ◌==◌, get, del, if-cases, Option-cases, inl, inr,
}
use kraken.FileStore.Types.{
  Result-cases, FileError, file_state, exist, is_not_exist, Registry, Disk, Entry, Store,
}
use kraken.FileStore.Entries.{new_entry, create, move_from, move, delete}
use kraken.FileStore.FileMap.{sync_get, sync_get_and_touch, try_store}
use kraken.FileStore.Ops.{
  Result, failed, ok, result_of, Action, accepts, stat_action, get_action, set_action,
  set_at_action, get_or_set_action, delete_metadata_action, reload_file_entry, lock_helper,
  store_new, create_file_helper, create_file, move_file_from, move_entry, move_file, delete_held,
  delete_file, get_file_stat, get_file_metadata, set_file_metadata, set_file_metadata_at,
  get_or_set_file_metadata, delete_file_metadata,
}
use kraken.FileStore.Calls.{
  Operation, creates, moves_from, moves, deletes, stats, gets, deletes_metadata, sets, gets_or_sets,
  sets_at, Call, operate, step, run,
}
use kraken.FileStore.Stable.{Stable, Safe, AllSafe, reload-Stable, lock_helper-Stable}

module _ (r : Registry) (K : Disk → Disk → Type 0) (P : Store → Type 0)
    (stable : Stable r K P) where
  store_new-Stable :
      (now n : ℕ) (states : List ℕ) (target : ℕ) (f : Entry → Disk → Disk × Option FileError)
      (s : Store)
      → ((e : Entry) (d : Disk) → K d (f e d).0)
      → P s
      → P (store_new r now n states target f s).0
  unfolding store_new
  store_new-Stable now n states target f s safe p =
      let g : Entry → Disk → Entry × Disk × Option FileError =
        λ e d. let (d', err) = f e d in (e, d', err) in
      let look : Action (Unit {0}) = λ e d. (e, d, ok tt) in
      let x = try_store r now n (new_entry target) g s in
      let y = lock_helper r false now n states look x.0 in
      let k : P x.0 = stable.stored now n (new_entry target) g s safe p in
      let l : P y.0 =
        lock_helper-Stable r K P stable false now n states look x.0 (λ e d. stable.unchanged d) k in
      elim (Option-cases x.2) [
        | inr (err, bad) ↦ rw (bad, store_new) k
        | inl fine ↦
            rw (fine, store_new)
              (if-cases (λ (t : Store × Result (Unit {0})). P t.0) x.1 (x.0, ok tt) _ (λ kept. k)
                (λ raced. elim (Result-cases y.1) [
                  | inl (err, bad) ↦ rw (bad, store_new) l
                  | inr (a, there) ↦ rw (there, store_new) l
                ]))
      ]

  create_file_helper-Stable :
      (now n : ℕ) (states : List ℕ) (target : ℕ) (f : Entry → Disk → Disk × Option FileError)
      (s : Store)
      → ((e : Entry) (d : Disk) → K d (f e d).0)
      → P s
      → P (create_file_helper r now n states target f s).0
  unfolding create_file_helper
  create_file_helper-Stable now n states target f s safe p =
      let x = sync_get_and_touch r now n s in
      let y = reload_file_entry r now n states s in
      let z = store_new r now n states target f y.0 in
      let k : P y.0 = reload-Stable r K P stable now n states s p in
      let l : P z.0 = store_new-Stable now n states target f y.0 safe k in
      elim (Option-cases x.1) [
        | inr (e, there) ↦ rw (there, create_file_helper) (stable.touched now n s p)
        | inl fresh ↦
            rw (fresh, create_file_helper)
              (elim (Option-cases y.2) [
                | inr (err, bad) ↦
                    rw (bad, create_file_helper)
                      (if-cases (λ (t : Store × Result (Unit {0})). P t.0) (is_not_exist err) z
                        (y.0, failed err) (λ gone. l) (λ other. k))
                | inl fine ↦
                    rw (fine, create_file_helper)
                      (if-cases (λ (t : Store × Result (Unit {0})). P t.0) y.1 (y.0, failed exist) z
                        (λ reloaded. k) (λ not_there. l))
              ])
      ]

  move_file_from-Stable :
      (now n : ℕ) (states : List ℕ) (target source : ℕ) (s : Store)
      → ((b : Option (List ℕ)) (e : Entry) (d : Disk) → K d (move_from b n e d).0)
      → P s
      → P (move_file_from r now n states target source s).0
  unfolding move_file_from
  move_file_from-Stable now n states target source s safe p =
      let b = get source s.unmanaged in
      let x = create_file_helper r now n states target (move_from b n) s in
      let k : P x.0 = create_file_helper-Stable now n states target (move_from b n) s (safe b) p in
      elim (Result-cases x.1) [
        | inl (err, bad) ↦ rw (bad, move_file_from) k
        | inr (a, fine) ↦ rw (fine, move_file_from) (stable.taken (del source x.0.unmanaged) x.0 k)
      ]

  move_entry-K :
      (states : List ℕ) (target n : ℕ) (e : Entry) (d : Disk)
      → K d (move r target n e d).1
      → K d (move_entry r states target n e d).1
  unfolding move_entry
  move_entry-K states target n e d k =
      let moved = move r target n e d in
      if-cases (λ (t : Entry × Disk × Result (Unit {0})). K d t.1) (e.state == target)
        (e, d, failed exist) _ (λ same. stable.unchanged d)
        (λ differ.
          if-cases (λ (t : Entry × Disk × Result (Unit {0})). K d t.1) (accepts states e.state)
            (moved.0, moved.1, result_of moved.2) (e, d, failed (file_state e.state)) (λ fits. k)
            (λ refused. stable.unchanged d))

  move_file-Stable :
      (now n : ℕ) (states : List ℕ) (target : ℕ) (s : Store)
      → ((e : Entry) (d : Disk) → K d (move r target n e d).1)
      → P s
      → P (move_file r now n states target s).0
  unfolding move_file
  move_file-Stable now n states target s safe p =
      let y = reload_file_entry r now n states s in
      let x = sync_get_and_touch r now n y.0 in
      let k : P y.0 = reload-Stable r K P stable now n states s p in
      let l : P x.0 = stable.touched now n y.0 k in
      elim (Option-cases y.2) [
        | inr (err, bad) ↦ rw (bad, move_file) k
        | inl fine ↦
            rw (fine, move_file)
              (elim (Option-cases x.1) [
                | inl gone ↦ rw (gone, move_file) l
                | inr (e, there) ↦
                    rw (there, move_file)
                      (let z = move_entry r states target n e x.0.disk in
                        stable.replaced n z.0 z.1 x.0
                          (move_entry-K states target n e x.0.disk (safe e x.0.disk)) l)
              ])
      ]

  delete_file-Stable :
      (now n : ℕ) (states : List ℕ) (s : Store)
      → ((e : Entry) (d : Disk) → K d (delete r n e d).0)
      → P s
      → P (delete_file r now n states s).0
  unfolding delete_file delete_held
  delete_file-Stable now n states s safe p =
      let y = reload_file_entry r now n states s in
      let x = sync_get n y.0 in
      let k : P y.0 = reload-Stable r K P stable now n states s p in
      let l : P x.0 = stable.found n y.0 k in
      elim (Option-cases y.2) [
        | inr (err, bad) ↦ rw (bad, delete_file) k
        | inl fine ↦
            rw (fine, delete_file)
              (elim (Option-cases x.1) [
                | inl gone ↦ rw (gone, delete_file, delete_held) l
                | inr (e, there) ↦
                    rw (there, delete_file, delete_held)
                      (let z = delete r n e x.0.disk in
                        if-cases (λ (t : Store × Result (Unit {0})). P t.0) (accepts states e.state)
                          (record x.0 { disk = z.0; queue = del n x.0.queue }, result_of z.1)
                          (x.0, failed (file_state e.state))
                          (λ fits. stable.dropped n z.0 x.0 (safe e x.0.disk) l) (λ refused. l))
              ])
      ]

  operate-Stable :
      (now n : ℕ) (states : List ℕ) (o : Operation) (s : Store)
      → Safe r K n o
      → P s
      → P (operate r now n states o s)
  unfolding operate create_file get_file_stat get_file_metadata set_file_metadata
      set_file_metadata_at get_or_set_file_metadata delete_file_metadata stat_action get_action
      set_action set_at_action get_or_set_action delete_metadata_action
  operate-Stable now n states (creates target len) s safe p =
      create_file_helper-Stable now n states target (create len n) s safe p
  operate-Stable now n states (moves_from target source) s safe p =
      move_file_from-Stable now n states target source s safe p
  operate-Stable now n states (moves target) s safe p =
      move_file-Stable now n states target s safe p
  operate-Stable now n states deletes s safe p = delete_file-Stable now n states s safe p
  operate-Stable now n states stats s safe p =
      lock_helper-Stable r K P stable true now n states (stat_action n) s
        (λ e d. stable.unchanged d) p
  operate-Stable now n states (gets k) s safe p =
      lock_helper-Stable r K P stable true now n states (get_action (λ b. some b) n k) s
        (λ e d. stable.unchanged d) p
  operate-Stable now n states (deletes_metadata k) s safe p =
      lock_helper-Stable r K P stable false now n states (delete_metadata_action n k) s safe p
  operate-Stable now n states (sets k b) s safe p =
      lock_helper-Stable r K P stable false now n states (set_action n k b) s safe p
  operate-Stable now n states (gets_or_sets k b) s safe p =
      lock_helper-Stable r K P stable false now n states (get_or_set_action n k b) s safe p
  operate-Stable now n states (sets_at k b offset) s safe p =
      lock_helper-Stable r K P stable false now n states (set_at_action n k b offset) s safe p

  pub run-Stable : (cs : List Call) (s : Store) → AllSafe r K cs → P s → P (run r cs s)
  unfolding run step
  run-Stable [] s safe p = p
  run-Stable (c ∷ cs) s (h, safe) p =
      run-Stable cs (step r c s) safe (operate-Stable c.now c.name c.states c.operation s h p)
