-- ===== src/FileStore/Downloads/Restarting.antt =====
-- A torrent that is restored after a restart, from what its store left on disk.
use kraken.Base.{
  arith, ℕ, Bool, true, false, Option, none, some, List, ◌∷◌, ◌≡◌, refl, sym, ap, ◌∙◌, subst, ◌==◌,
  get, has, is_some, Bool-cases, inl, inr, leb, ◌+◌, ==-self, tally, Map, length,
}
use kraken.AgentTorrent.{
  PieceStatus, is_complete, is_dirty, Torrent, stored, new_torrent, bitfield, missing_pieces,
  serialize,
}
use kraken.AgentTorrent.Restart.{new_torrent-serialize}
use kraken.FileStore.Types.{
  FileError, Registry, last_access_time, Disk, data_at, file_at, Entry, Slot, Store,
}
use kraken.FileStore.Entries.{new_entry, reload, set_metadata, read_metadata, get_or_set_metadata}
use kraken.FileStore.FileMap.{
  sync_get_and_touch, time_resolution, load_access_time, try_store, remove_oldest_if_needed,
  choose_oldest,
}
use kraken.FileStore.Ops.{
  ok, accepts, get_or_set_action, act, reload_loop, reload_file_entry, lock_helper,
  get_or_set_file_metadata, read_result,
}
use kraken.FileStore.Calls.{new_store}
use kraken.FileStore.Downloads.{
  download_state, download, piece_status, stored_of, get_or_set_pieces,
}
use kraken.FileStore.Downloads.Holding.{OnDisk, Holding, set-Holding, reload-Holding, load-Holding}

module _ (r : Registry) (n : ℕ) (b : List ℕ) where
  -- The entry is in memory.
  Resident : Store → Type 0
  Resident s = (slot : Slot) × (get n s.queue ≡ some slot) × Holding n b slot.fe s.disk

  no_limit : (s : Store) → s.capacity ≡ 0 → remove_oldest_if_needed r s ≡ s
  unfolding remove_oldest_if_needed choose_oldest
  no_limit s e =
      let none_chosen : choose_oldest s ≡ none = ground (arith, e) in
      rw (none_chosen, remove_oldest_if_needed)

  store-Resident :
      (now : ℕ) (e : Entry) (s : Store)
      → r.is_known piece_status ≡ true
      → s.capacity ≡ 0
      → has n s.queue ≡ false
      → Holding n b e s.disk
      → let x = try_store r now n e (λ e d. let (e', err) = reload r n e d in (e', d, err)) s in
        Resident x.0 × (x.2 ≡ none)
  unfolding try_store Resident get
  store-Resident now e s known no_capacity fresh h =
      let x = load_access_time r now n e s.disk in
      let (state, knows, there) = load-Holding r n b now e s.disk h in
      let (h2, fine) = reload-Holding r n b x.0 x.1 known state there in
      let t : Store = record s {
        disk = x.1;
        queue = (n, record { fe = (reload r n x.0 x.1).0; last_access = x.2 }) ∷ s.queue;
      } in
      let kept : Resident t =
        (record { fe = (reload r n x.0 x.1).0; last_access = x.2 }, rw (==-self n), h2) in
      rw (fresh, fine, try_store) (subst Resident (sym (no_limit t no_capacity)) kept, refl)

  touch-Resident :
      (now : ℕ) (s : Store)
      → Resident s
      → (e : Entry) × ((sync_get_and_touch r now n s).1 ≡ some e)
        × Holding n b e (sync_get_and_touch r now n s).0.disk
  unfolding sync_get_and_touch Resident
  touch-Resident now s (slot, there, h) =
      elim (Bool-cases (leb (slot.last_access + time_resolution) now)) [
        | inl late ↦ (
          (set_metadata last_access_time (r.format_time now) n slot.fe s.disk).0,
          rw (there, late, sync_get_and_touch),
          rw (there, late, sync_get_and_touch)
              (set-Holding r n b last_access_time (r.format_time now) slot.fe s.disk refl h),
        )
        | inr early ↦ (
          slot.fe,
          rw (there, early, sync_get_and_touch),
          rw (there, early, sync_get_and_touch) h,
        )
      ]

  reloaded :
      (now : ℕ) (states : List ℕ) (s t : Store)
      → has n s.queue ≡ false
      → reload_loop r now n states s ≡ (t, none)
      → reload_file_entry r now n states s ≡ (t, true, none)
  unfolding reload_file_entry
  reloaded now states s t absent loop =
      rw (absent, ap (λ (y : Store × Option FileError). y.1) loop, reload_file_entry)
        (ap (λ (y : Store × Option FileError). (y.0, true, none)) loop)

  reload-Resident :
      (now : ℕ) (s : Store)
      → r.is_known piece_status ≡ true
      → s.capacity ≡ 0
      → has n s.queue ≡ false
      → OnDisk n b s.disk
      → Resident (reload_file_entry r now n download s).0
        × ((reload_file_entry r now n download s).2 ≡ none)
  unfolding reload_loop
  reload-Resident now s known no_capacity fresh there =
      let (h, found) = reload-Holding r n b (new_entry download_state) s.disk known refl there in
      let e = (reload r n (new_entry download_state) s.disk).0 in
      let (kept, fine) = store-Resident now e s known no_capacity fresh h in
      let x = try_store r now n e (λ e d. let (e', err) = reload r n e d in (e', d, err)) s in
      let loop : reload_loop r now n download s ≡ (x.0, none) = rw (found, fine, reload_loop) in
      let all : reload_file_entry r now n download s ≡ (x.0, true, none) =
        reloaded now download s x.0 fresh loop in
      subst (λ (y : Store × Bool × Option FileError). Resident y.0 × (y.2 ≡ none)) (sym all)
        (kept, refl)

  act-stored :
      (fresh : List ℕ) (y : Store × Option Entry) (e : Entry)
      → y.1 ≡ some e
      → Holding n b e y.0.disk
      → (act n download (get_or_set_action n piece_status fresh) y).1 ≡ ok b
  unfolding act get_or_set_action get_or_set_metadata read_metadata accepts
  act-stored fresh (s, found) e there (state, knows, on_disk) =
      let fits : accepts download e.state ≡ true = ap (accepts download) state in
      let read : (get_or_set_action n piece_status fresh e s.disk).2 ≡ ok b =
        rw (knows, get_or_set_action, get_or_set_metadata)
          (ap (λ k. read_result (file_at k n piece_status s.disk)) state
            ∙ ap read_result on_disk.1) in
      rw (there, act) (rw (fits, act) read)

  stored_after_restart :
      (now : ℕ) (fresh : List PieceStatus) (s : Store)
      → r.is_known piece_status ≡ true
      → s.capacity ≡ 0
      → has n s.queue ≡ false
      → OnDisk n b s.disk
      → (get_or_set_pieces r now n fresh s).1 ≡ stored b
  unfolding get_or_set_pieces get_or_set_file_metadata lock_helper stored_of
  stored_after_restart now fresh s known no_capacity absent there =
      let x = reload_file_entry r now n download s in
      let (kept, fine) = reload-Resident now s known no_capacity absent there in
      let (e, found, h) = touch-Resident now x.0 kept in
      rw (fine, get_or_set_pieces, get_or_set_file_metadata, lock_helper)
        (ap stored_of (act-stored (serialize fresh) (sync_get_and_touch r now n x.0) e found h))

-- After a restart, a torrent whose download file is on disk, with its statuses as they serialize,
-- is restored with the same bit set and missing pieces, and with the number of its complete pieces;
-- no piece is dirty, and it is committed where every piece is complete. The suffix of the statuses
-- is known, and the move to the cache does not fail.
pub restarted_torrent :
    (r : Registry) (now n : ℕ) (fresh : List PieceStatus) (t : Torrent) (disk : Disk)
    (unmanaged : Map (List ℕ))
    → r.is_known piece_status ≡ true
    → is_some (data_at download_state n disk) ≡ true
    → file_at download_state n piece_status disk ≡ some (serialize t.pieces)
    → (t' : Torrent) × (new_torrent
          (get_or_set_pieces r now n fresh (new_store 0 true disk unmanaged)).1
          true
          t.file
          t.meta_info
        ≡ some t')
      × (bitfield t' ≡ bitfield t)
      × (missing_pieces t' ≡ missing_pieces t)
      × (tally is_dirty t'.pieces ≡ 0)
      × (t'.num_complete ≡ tally is_complete t.pieces)
      × (t'.committed ≡ (tally is_complete t.pieces == length t.pieces))
unfolding new_store get
restarted_torrent r now n fresh t disk unmanaged known data_there file_there =
    let (t', made, bits, missing, clean, number, committed, file) = new_torrent-serialize t in
    (
      t',
      ap (λ a. new_torrent a true t.file t.meta_info)
            (stored_after_restart r n (serialize t.pieces) now fresh
              (new_store 0 true disk unmanaged) known refl refl (data_there, file_there))
          ∙ made,
      bits,
      missing,
      clean,
      number,
      committed,
    )
