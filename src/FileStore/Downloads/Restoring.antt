-- ===== src/FileStore/Downloads/Restoring.antt =====
-- A torrent that is restored from the store of downloads, after its file was moved to the cache.
use kraken.Base.{
  ℕ, Bool, true, false, not, Option, none, some, List, ◌≡◌, refl, sym, ap, ◌∙◌, arith, get, is_some,
  keys, Option-cases, Bool-cases, inl, inr, leb, ◌+◌, ==-self,
}
use kraken.MetaInfo.{MetaInfo, num_pieces}
use kraken.AgentTorrent.{
  PieceStatus, in_cache, new_torrent, restore_pieces, all_complete, serialize,
}
use kraken.AgentTorrent.Completing.{total-all_complete}
use kraken.FileStore.Types.{
  FileError, file_state, Registry, last_access_time, Disk, data_at, put_dir, dir_or_empty, Entry,
  Slot, Store,
}
use kraken.FileStore.Entries.{move, copy_metadata, set_metadata}
use kraken.FileStore.FileMap.{sync_get_and_touch, time_resolution}
use kraken.FileStore.Ops.{
  Result, failed, ok, accepts, get_or_set_action, act, reload_file_entry, put_entry, lock_helper,
  move_entry, move_file, get_or_set_file_metadata,
}
use kraken.FileStore.Metadata.{touched, in_memory, put_entry-there}
use kraken.FileStore.Downloads.{
  cache_state, download, move_download_file_to_cache, stored_of, get_or_set_pieces,
}

module _ (r : Registry) where
  state-move :
      (target n : ℕ) (e : Entry) (d : Disk)
      → (move r target n e d).2 ≡ none
      → (move r target n e d).0.state ≡ target
  unfolding move
  state-move target n e d done =
      let made = put_dir target n (dir_or_empty target n d) d in
      elim (Bool-cases (not (is_some (data_at e.state n made)))) [
        | inl gone ↦ absurd (ground (arith, gone, done))
        | inr there ↦
            elim (Option-cases (copy_metadata r e.state target n (keys e.metadata) made).1) [
              | inl fine ↦ rw (there, fine, move) refl
              | inr (err, bad) ↦ absurd (ground (arith, there, bad, done))
            ]
      ]

  state-move_entry :
      (states : List ℕ) (target n : ℕ) (e : Entry) (d : Disk)
      → (move_entry r states target n e d).2 ≡ ok tt
      → (move_entry r states target n e d).0.state ≡ target
  unfolding move_entry
  state-move_entry states target n e d done = ground (arith, done, state-move target n e d)

  -- A file that was moved is in memory, in the state that it was moved to.
  moved :
      (now n : ℕ) (states : List ℕ) (target : ℕ) (s t : Store)
      → move_file r now n states target s ≡ (t, ok tt)
      → (slot : Slot) × (get n t.queue ≡ some slot) × (slot.fe.state ≡ target)
  unfolding move_file
  moved now n states target s t done =
      let y = reload_file_entry r now n states s in
      let x = sync_get_and_touch r now n y.0 in
      elim (Option-cases y.2) [
        | inr (err, bad) ↦ absurd (ground (arith, bad, done))
        | inl fine ↦ elim (Option-cases x.1) [
          | inl gone ↦ absurd (ground (arith, fine, gone, done))
          | inr (e, there) ↦
              let z = move_entry r states target n e x.0.disk in
              let same : (put_entry n z.0 z.1 x.0, z.2) ≡ (t, ok tt) =
                sym (rw (fine, there, move_file)) ∙ done in
              let (on_disk, (slot, kept, fe)) =
                put_entry-there r n z.0 z.1 x.0 (touched r now n y.0 e there) in
              (
                slot,
                ap (λ (u : Store × Result (Unit {0})). get n u.0.queue) (sym same) ∙ kept,
                ap (λ (f : Entry). f.state) fe
                    ∙ state-move_entry states target n e x.0.disk
                        (ap (λ (u : Store × Result (Unit {0})). u.1) same),
              )
        ]
      ]

  -- A call that loads an entry in memory finds it in its state.
  loaded :
      (now n : ℕ) (s : Store) (slot : Slot)
      → get n s.queue ≡ some slot
      → (e : Entry) × ((sync_get_and_touch r now n s).1 ≡ some e) × (e.state ≡ slot.fe.state)
  unfolding sync_get_and_touch set_metadata
  loaded now n s slot there = elim (Bool-cases (leb (slot.last_access + time_resolution) now)) [
    | inl late ↦ (
      (set_metadata last_access_time (r.format_time now) n slot.fe s.disk).0,
      rw (there, late, sync_get_and_touch),
      refl,
    )
    | inr early ↦ (slot.fe, rw (there, early, sync_get_and_touch), refl)
  ]

  act-refused :
      {A : Type 0} (n : ℕ) (states : List ℕ) (f : Entry → Disk → Entry × Disk × Result A)
      (y : Store × Option Entry) (e : Entry)
      → y.1 ≡ some e
      → accepts states e.state ≡ false
      → (act n states f y).1 ≡ failed (file_state e.state)
  unfolding act
  act-refused n states f (s, found) e there refused = rw (there, act) (rw (refused, act))

  -- A call for other states fails with the state that the file is in.
  refused :
      {A : Type 0} (now n : ℕ) (states : List ℕ) (f : Entry → Disk → Entry × Disk × Result A)
      (s : Store) (slot : Slot)
      → get n s.queue ≡ some slot
      → accepts states slot.fe.state ≡ false
      → (lock_helper r false now n states f s).1 ≡ failed (file_state slot.fe.state)
  unfolding lock_helper
  refused now n states f s slot there out =
      let (e, found, same) = loaded now n s slot there in
      rw (in_memory r now n states s slot there, lock_helper)
        (ap
            (λ (x : Store × Bool × Option FileError).
              (act n states f (sync_get_and_touch r now n x.0)).1)
            (in_memory r now n states s slot there)
          ∙ act-refused n states f (sync_get_and_touch r now n s) e found
              (ap (accepts states) same ∙ out)
          ∙ ap (λ k. failed (file_state k)) same)

  moved_in_cache :
      (now later n : ℕ) (pieces : List PieceStatus) (s t : Store)
      → move_download_file_to_cache r now n s ≡ (t, ok tt)
      → (get_or_set_pieces r later n pieces t).1 ≡ in_cache
  unfolding move_download_file_to_cache get_or_set_pieces get_or_set_file_metadata accepts
  moved_in_cache now later n pieces s t done =
      let (slot, there, state) = moved now n download cache_state s t done in
      ap stored_of (
        refused later n download (get_or_set_action n 2 (serialize pieces)) t slot there
          (ap (accepts download) state)
        ∙ ap (λ k. failed (file_state k)) state)

  -- Where the next call of the store after a download file was moved to the cache without an error,
  -- with no restart and no other call between them, restores the torrent, at whatever time of the
  -- clock and with whatever statuses to set, the torrent is committed with all pieces complete.
  pub restored_complete :
      (now later n : ℕ) (pieces : List PieceStatus) (s t : Store) (file : ℕ → ℕ) (mi : MetaInfo)
      → move_download_file_to_cache r now n s ≡ (t, ok tt)
      → new_torrent (get_or_set_pieces r later n pieces t).1 true file mi
        ≡ some (record {
          meta_info = mi;
          pieces = all_complete (num_pieces mi);
          num_complete = num_pieces mi;
          committed = true;
          file = file;
        })
  unfolding new_torrent restore_pieces
  restored_complete now later n pieces s t file mi done =
      ap (λ a. new_torrent a true file mi) (moved_in_cache now later n pieces s t done)
      ∙ rw ((total-all_complete (num_pieces mi)).1, ==-self (num_pieces mi))
