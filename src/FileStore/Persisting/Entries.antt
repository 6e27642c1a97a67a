-- ===== src/FileStore/Persisting/Entries.antt =====
-- What each operation of an entry does to a file that is persisted.
use kraken.Base.{
  ℕ, Bool, true, false, not, Option, none, some, List, [], ◌∷◌, ◌≡◌, refl, arith, ◌==◌, ◌&&◌, del,
  get-del, is_some, if-cases, Option-cases, inl, inr, keys,
}
use kraken.FileStore.Types.{
  FileError, exist, bad_size, not_exist, Registry, persist, Disk, dir_at, put_dir, remove_all,
  dir_or_empty, data_at, file_at, write_file, write_data, bytes_eq, Entry,
}
use kraken.FileStore.Entries.{
  create, move_from, move, copy_metadata, compare_and_write, delete, set_metadata, set_metadata_at,
  get_or_set_metadata, delete_metadata, splice,
}
use kraken.FileStore.Persisting.{
  is_persisted, Keeps, Keeps-trans, write_file-Keeps, write_data-Keeps, remove_all-Keeps,
  dir_or_empty-put_dir,
}

module _ (r : Registry) (s n : ℕ) where
  pub same-Keeps : (d : Disk) → Keeps r s n d d
  same-Keeps d p = (p, refl)

  pub compare_and_write-Keeps :
      (t m k : ℕ) (b : List ℕ) (d : Disk)
      → ((m == n) && (k == persist)) ≡ false
      → Keeps r s n d (compare_and_write t m k b d).0
  unfolding compare_and_write
  compare_and_write-Keeps t m k b d h p = ground (arith, p, write_file-Keeps r s n t m k b d h p)

  pub set_metadata-Keeps :
      (m k : ℕ) (b : List ℕ) (e : Entry) (d : Disk)
      → ((m == n) && (k == persist)) ≡ false
      → Keeps r s n d (set_metadata k b m e d).1
  unfolding set_metadata
  set_metadata-Keeps m k b e d h = compare_and_write-Keeps e.state m k b d h

  pub set_metadata_at-Keeps :
      (m k offset : ℕ) (b : List ℕ) (e : Entry) (d : Disk)
      → ((m == n) && (k == persist)) ≡ false
      → Keeps r s n d (set_metadata_at k b offset m e d).0
  unfolding set_metadata_at
  set_metadata_at-Keeps m k offset b e d h = elim (Option-cases (file_at e.state m k d)) [
    | inl gone ↦ rw (gone, set_metadata_at) (same-Keeps d)
    | inr (old, there) ↦
        rw (there, set_metadata_at)
          (elim (Option-cases (splice offset b old)) [
            | inl short ↦ rw (short, set_metadata_at) (same-Keeps d)
            | inr ((prev, new), long) ↦
                rw (long, set_metadata_at)
                  (if-cases (λ (x : Disk × Bool × Option FileError). Keeps r s n d x.0)
                    (bytes_eq prev b) (d, false, none) (write_file e.state m k new d, true, none)
                    (λ same. same-Keeps d) (λ other. write_file-Keeps r s n e.state m k new d h))
          ])
  ]

  pub get_or_set_metadata-Keeps :
      (m k : ℕ) (b : List ℕ) (e : Entry) (d : Disk)
      → ((m == n) && (k == persist)) ≡ false
      → Keeps r s n d (get_or_set_metadata k b m e d).1
  unfolding get_or_set_metadata
  get_or_set_metadata-Keeps m k b e d h p =
      ground (arith, p, compare_and_write-Keeps e.state m k b d h p)

  pub delete_metadata-Keeps :
      (m k : ℕ) (e : Entry) (d : Disk)
      → ((m == n) && (k == persist)) ≡ false
      → Keeps r s n d (delete_metadata k m e d).1
  unfolding delete_metadata is_persisted data_at file_at dir_or_empty
  delete_metadata-Keeps m k e d h p = elim (Option-cases (dir_at e.state m d)) [
    | inl gone ↦ rw (gone, delete_metadata) (p, refl)
    | inr (x, there) ↦
        rw (there, delete_metadata)
          (ground (
            arith,
            h,
            p,
            there,
            dir_or_empty-put_dir r s n e.state m (record x { files = del k x.files }) d,
            get-del k persist x.files,
          ))
  ]

  pub create-Keeps :
      (size : Option ℕ) (m : ℕ) (e : Entry) (d : Disk) → Keeps r s n d (create size m e d).0
  unfolding create is_persisted
  create-Keeps none m e d =
      if-cases (λ (x : Disk × Option FileError). Keeps r s n d x.0) (is_some (data_at e.state m d))
        (d, some exist) (remove_all e.state m d, some bad_size) (λ there. same-Keeps d)
        (λ fresh. remove_all-Keeps r s n e.state m d (ground (arith, fresh)))
  create-Keeps (some k) m e d =
      if-cases (λ (x : Disk × Option FileError). Keeps r s n d x.0) (is_some (data_at e.state m d))
        (d, some exist) _ (λ there. same-Keeps d)
        (λ fresh. write_data-Keeps r s n e.state m _ d (ground (arith, fresh)))

  pub move_from-Keeps :
      (source : Option (List ℕ)) (m : ℕ) (e : Entry) (d : Disk)
      → Keeps r s n d (move_from source m e d).0
  unfolding move_from
  move_from-Keeps none m e d p = ground (arith, p)
  move_from-Keeps (some b) m e d p = ground (arith, p, write_data-Keeps r s n e.state m (some b) d)

  pub delete-Keeps : (m : ℕ) (e : Entry) (d : Disk) → Keeps r s n d (delete r m e d).0
  unfolding delete is_persisted
  delete-Keeps m e d p = ground (arith, p, remove_all-Keeps r s n e.state m d)

  pub copy_metadata-Keeps :
      (from to m : ℕ) (ks : List ℕ) (d : Disk)
      → (m == n) ≡ false
      → Keeps r s n d (copy_metadata r from to m ks d).0
  unfolding copy_metadata
  copy_metadata-Keeps from to m [] d h p = same-Keeps d p
  copy_metadata-Keeps from to m (k ∷ ks) d h p = elim (Option-cases (file_at from m k d)) [
    | inl gone ↦ ground (arith, p, gone, copy_metadata-Keeps from to m ks d h p)
    | inr (b, there) ↦
        let d' = (compare_and_write to m k b d).0 in
        let one : Keeps r s n d d' = compare_and_write-Keeps to m k b d (ground (arith, h)) in
        ground (
          arith,
          p,
          there,
          copy_metadata-Keeps from to m ks d h p,
          Keeps-trans r s n d d' (copy_metadata r from to m ks d').0 one
              (copy_metadata-Keeps from to m ks d' h) p,
        )
  ]

  put_same-Keeps : (t m : ℕ) (d : Disk) → Keeps r s n d (put_dir t m (dir_or_empty t m d) d)
  unfolding is_persisted data_at file_at
  put_same-Keeps t m d p = ground (arith, p, dir_or_empty-put_dir r s n t m (dir_or_empty t m d) d)

  pub move-Keeps :
      (target m : ℕ) (e : Entry) (d : Disk)
      → (m == n) ≡ false
      → Keeps r s n d (move r target m e d).1
  unfolding move
  move-Keeps target m e d h =
      let made = put_dir target m (dir_or_empty target m d) d in
      let copied = copy_metadata r e.state target m (keys e.metadata) made in
      let renamed = write_data target m (data_at e.state m copied.0) copied.0 in
      let k1 : Keeps r s n d made = put_same-Keeps target m d in
      let k2 : Keeps r s n d copied.0 =
        Keeps-trans r s n d made copied.0 k1
          (copy_metadata-Keeps e.state target m (keys e.metadata) made h) in
      let k3 : Keeps r s n d renamed =
        Keeps-trans r s n d copied.0 renamed k2
          (write_data-Keeps r s n target m _ copied.0 (ground (arith, h))) in
      let k4 : Keeps r s n d (remove_all e.state m renamed) =
        Keeps-trans r s n d renamed (remove_all e.state m renamed) k3
          (remove_all-Keeps r s n e.state m renamed (ground (arith, h))) in
      if-cases (λ (x : Entry × Disk × Option FileError). Keeps r s n d x.1)
        (not (is_some (data_at e.state m made))) (e, made, some not_exist) _ (λ gone. k1)
        (λ there. elim (Option-cases copied.1) [
          | inl fine ↦ rw (fine, move) k4
          | inr (err, failed) ↦ rw (failed, move) k2
        ])
