-- ===== src/FileStore/Persisting.antt =====
-- What each operation on the disk does to a file that is persisted.
pub mod Entries
pub mod Runs
use kraken.Base.{
  ℕ, zero, suc, Bool, true, false, not, Option, none, some, List, [], ◌∷◌, if◌then◌else◌, ◌≡◌, refl,
  ◌∙◌, sym, arith, ◌==◌, ◌&&◌, get, put, del, get-put, get-del, is_some, if-cases, Option-cases,
  Bool-cases, inl, inr, ◌⊎◌, keys, leb, ◌||◌, size, ◌+◌, has, Map,
}
use kraken.FileStore.Types.{
  FileError, Registry, persist, last_access_time, Dir, Disk, names_at, empty_dir, dir_at, put_dir,
  remove_all, dir_or_empty, data_at, file_at, write_file, write_data, bytes_eq, Entry, Store,
}
use kraken.FileStore.Entries.{
  create, move_from, move, copy_metadata, compare_and_write, delete, set_metadata, set_metadata_at,
  get_or_set_metadata, delete_metadata,
}

-- A data file whose persist metadata is true.
unfoldable pub is_persisted : Registry → ℕ → ℕ → Disk → Bool
unfolding data_at file_at
is_persisted r s n d = is_some (data_at s n d) && elim (file_at s n persist d) [
  | none ↦ false
  | some b ↦ elim (r.parse_bool b) [ none ↦ false | some value ↦ value ]
]

module _ (r : Registry) (s n : ℕ) where
  -- A file that is persisted before is so after, with the same data.
  abbrev pub Keeps : Disk → Disk → Type 0
  Keeps d d' =
      is_persisted r s n d ≡ true
      → (is_persisted r s n d' ≡ true) × (data_at s n d' ≡ data_at s n d)

  pub Keeps-trans : (d e f : Disk) → Keeps d e → Keeps e f → Keeps d f
  Keeps-trans d e f k l p = let (p1, e1) = k p in let (p2, e2) = l p1 in (p2, e2 ∙ e1)

  names_at-put :
      (t : ℕ) (names : Map Dir) (d : Disk)
      → names_at s (put t names d) ≡ (if t == s then names else names_at s d)
  unfolding names_at
  names_at-put t names d = ground (arith, get-put t s names d)

  pub dir_or_empty-put_dir :
      (t m : ℕ) (x : Dir) (d : Disk)
      → dir_or_empty s n (put_dir t m x d)
        ≡ (if (s == t) && (m == n) then x else dir_or_empty s n d)
  unfolding dir_or_empty put_dir dir_at
  dir_or_empty-put_dir t m x d =
      ground (arith, names_at-put t (put m x (names_at t d)) d, get-put m n x (names_at s d))

  dir_or_empty-remove_all :
      (t m : ℕ) (d : Disk)
      → dir_or_empty s n (remove_all t m d)
        ≡ (if (s == t) && (m == n) then empty_dir else dir_or_empty s n d)
  unfolding dir_or_empty remove_all dir_at
  dir_or_empty-remove_all t m d =
      ground (arith, names_at-put t (del m (names_at t d)) d, get-del m n (names_at s d))

  pub write_file-Keeps :
      (t m k : ℕ) (b : List ℕ) (d : Disk)
      → ((m == n) && (k == persist)) ≡ false
      → Keeps d (write_file t m k b d)
  unfolding is_persisted data_at file_at write_file
  write_file-Keeps t m k b d h p = ground (
    arith,
    h,
    p,
    dir_or_empty-put_dir t m
        (record (dir_or_empty t m d) { files = put k b (dir_or_empty t m d).files }) d,
    get-put k persist b (dir_or_empty t m d).files,
  )

  pub write_data-Keeps :
      (t m : ℕ) (b : Option (List ℕ)) (d : Disk)
      → ((m == n) && is_some (data_at t m d)) ≡ false
      → Keeps d (write_data t m b d)
  unfolding is_persisted data_at file_at write_data
  write_data-Keeps t m b d h p =
      ground
        (arith, h, p, dir_or_empty-put_dir t m (record (dir_or_empty t m d) { data_file = b }) d)

  pub remove_all-Keeps :
      (t m : ℕ) (d : Disk) → ((m == n) && is_persisted r t m d) ≡ false → Keeps d (remove_all t m d)
  unfolding is_persisted data_at file_at
  remove_all-Keeps t m d h p = ground (arith, h, p, dir_or_empty-remove_all t m d)
