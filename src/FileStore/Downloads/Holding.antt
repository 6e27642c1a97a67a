-- ===== src/FileStore/Downloads/Holding.antt =====
-- An entry of a download, and what is on disk of it.
use kraken.Base.{
  ℕ, Bool, true, false, none, some, List, [], ◌∷◌, if◌then◌else◌, ◌≡◌, refl, ap, ◌∙◌, arith, ◌==◌,
  get, put, has, is_some, Option-cases, Bool-cases, inl, inr, get-put, Map, if-cases,
}
use kraken.FileStore.Types.{
  Result-cases, Registry, last_access_time, Disk, data_at, file_at, write_file, dir_or_empty,
  bytes_eq, Entry,
}
use kraken.StringSet.{StringSet}
use kraken.FileStore.Entries.{add_known, reload, compare_and_write, set_metadata, get_metadata}
use kraken.FileStore.FileMap.{load_access_time}
use kraken.FileStore.Persisting.{dir_or_empty-put_dir}
use kraken.FileStore.Downloads.{download_state, piece_status}

-- The file of a download and its statuses are on disk.
abbrev pub OnDisk : ℕ → List ℕ → Disk → Type 0
OnDisk n b d =
    (is_some (data_at download_state n d) ≡ true)
    × (file_at download_state n piece_status d ≡ some b)

-- Its entry knows of the statuses.
abbrev pub Holding : ℕ → List ℕ → Entry → Disk → Type 0
Holding n b e d = (e.state ≡ download_state) × (has piece_status e.metadata ≡ true) × OnDisk n b d

has-put : (k j : ℕ) (m : StringSet) → has j m ≡ true → has j (put k tt m) ≡ true
has-put k j m h = ground (arith, h, get-put k j tt m)

has-add_known :
    (r : Registry) (k : ℕ) (fs : Map (List ℕ)) (m : StringSet)
    → has k m ≡ true
    → has k (add_known r fs m) ≡ true
unfolding add_known
has-add_known r k [] m h = h
has-add_known r k ((j, b) ∷ fs) m h =
    has-add_known r k fs (if r.is_known j then put j tt m else m) (
      if-cases (λ (x : StringSet). has k x ≡ true) (r.is_known j) (put j tt m) m
        (λ known. has-put j k m h) (λ other. h))

known-add_known :
    (r : Registry) (k : ℕ) (b : List ℕ) (fs : Map (List ℕ)) (m : StringSet)
    → r.is_known k ≡ true
    → get k fs ≡ some b
    → has k (add_known r fs m) ≡ true
unfolding add_known get
known-add_known r k b [] m known there = absurd (ground (arith, there))
known-add_known r k b ((j, c) ∷ fs) m known there = elim (Bool-cases (j == k)) [
  | inl same ↦
      has-add_known r k fs (if r.is_known j then put j tt m else m)
        (ground (arith, same, known, get-put j k tt m))
  | inr other ↦
      known-add_known r k b fs (if r.is_known j then put j tt m else m) known
        (ground (arith, other, there))
]

module _ (r : Registry) (n : ℕ) (b : List ℕ) where
  write-OnDisk :
      (s k : ℕ) (c : List ℕ) (d : Disk)
      → (k == piece_status) ≡ false
      → OnDisk n b d
      → OnDisk n b (write_file s n k c d)
  unfolding write_file data_at file_at
  write-OnDisk s k c d other (data_there, file_there) = ground (
    arith,
    other,
    data_there,
    file_there,
    dir_or_empty-put_dir r download_state n s n
        (record (dir_or_empty s n d) { files = put k c (dir_or_empty s n d).files }) d,
    get-put k piece_status c (dir_or_empty s n d).files,
  )

  -- Another file of the directory is written.
  pub set-Holding :
      (k : ℕ) (c : List ℕ) (e : Entry) (d : Disk)
      → (k == piece_status) ≡ false
      → Holding n b e d
      → Holding n b (set_metadata k c n e d).0 (set_metadata k c n e d).1
  unfolding set_metadata compare_and_write
  set-Holding k c e d other (state, known, there) =
      let written = write-OnDisk e.state k c d other there in
      (
        state,
        has-put k piece_status e.metadata known,
        elim (Option-cases (file_at e.state n k d)) [
          | inl gone ↦ rw (gone, set_metadata, compare_and_write) written
          | inr (old, found) ↦
              rw (found, set_metadata, compare_and_write)
                (if-cases (λ (x : Disk × Bool). OnDisk n b x.0) (bytes_eq old c) (d, false)
                  (write_file e.state n k c d, true) (λ same. there) (λ differ. written))
        ],
      )

  pub reload-Holding :
      (e : Entry) (d : Disk)
      → r.is_known piece_status ≡ true
      → e.state ≡ download_state
      → OnDisk n b d
      → Holding n b (reload r n e d).0 d × ((reload r n e d).1 ≡ none)
  unfolding reload file_at
  reload-Holding e d known state (data_there, file_there) =
      let here : is_some (data_at e.state n d) ≡ true =
        ap (λ k. is_some (data_at k n d)) state ∙ data_there in
      let files : get piece_status (dir_or_empty e.state n d).files ≡ some b =
        ap (λ k. file_at k n piece_status d) state ∙ file_there in
      rw (here, reload)
        (
          (
            state,
            known-add_known r piece_status b (dir_or_empty e.state n d).files e.metadata known
                files,
            (data_there, file_there),
          ),
          refl,
        )

  pub load-Holding :
      (now : ℕ) (e : Entry) (d : Disk)
      → Holding n b e d
      → Holding n b (load_access_time r now n e d).0 (load_access_time r now n e d).1
  unfolding load_access_time
  load-Holding now e d h =
      let new = set-Holding last_access_time (r.format_time now) e d refl h in
      elim (Result-cases (get_metadata r.parse_time last_access_time n e d)) [
        | inl (err, bad) ↦ rw (bad, load_access_time) new
        | inr (t, read) ↦ rw (read, load_access_time) h
      ]
