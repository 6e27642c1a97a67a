-- ===== src/FileStore/Entries.antt =====
-- lib/store/base/file_entry.go: the operations of one entry on its directory. No other error of the
-- operating system happens than of files that are missing or there.
use kraken.Base.{
  ℕ, zero, suc, Bool, true, false, Option, none, some, List, [], ◌∷◌, if◌then◌else◌, ◌==◌, not,
  length, Map, put, del, has, keys, is_some,
}
use kraken.StringSet.{StringSet}
use kraken.FileStore.Types.{
  FileError, not_exist, exist, file_persisted, bad_metadata, unknown_suffix, bad_size, Registry,
  persist, Disk, dir_at, put_dir, remove_all, dir_or_empty, data_at, file_at, write_file,
  write_data, bytes_eq, Entry, Result, failed, ok,
}

abbrev pub new_entry : ℕ → Entry
new_entry s = record { state = s; metadata = [] }

abbrev zeros : ℕ → List ℕ
zeros zero = []
zeros (suc n) = 0 ∷ zeros n

-- A size; `none` is a negative one, which `Truncate` refuses after the file was created.
unfoldable pub create : Option ℕ → ℕ → Entry → Disk → Disk × Option FileError
unfolding data_at write_data remove_all
create size n e d = if is_some (data_at e.state n d) then (d, some exist) else elim size [
  | none ↦ (remove_all e.state n d, some bad_size)
  | some length ↦ (write_data e.state n (some (zeros length)) d, none)
]

-- The loop of `Reload` over the files beside the data file.
unfoldable pub add_known : Registry → Map (List ℕ) → StringSet → StringSet
add_known r [] m = m
add_known r ((k, b) ∷ fs) m = add_known r fs (if r.is_known k then put k tt m else m)

unfoldable pub reload : Registry → ℕ → Entry → Disk → Entry × Option FileError
unfolding data_at dir_or_empty add_known
reload r n e d =
    if is_some (data_at e.state n d)
    then (record e { metadata = add_known r (dir_or_empty e.state n d).files e.metadata }, none)
    else (e, some not_exist)

-- The bytes at the source path, if it exists.
unfoldable pub move_from : Option (List ℕ) → ℕ → Entry → Disk → Disk × Option FileError
unfolding data_at write_data
move_from source n e d = if is_some (data_at e.state n d) then (d, some exist) else elim source [
  | none ↦ (d, some not_exist)
  | some b ↦ (write_data e.state n (some b) d, none)
]

-- `compareAndWriteFile`.
unfoldable pub compare_and_write : ℕ → ℕ → ℕ → List ℕ → Disk → Disk × Bool
unfolding file_at write_file bytes_eq
compare_and_write s n k b d = elim (file_at s n k d) [
  | none ↦ (write_file s n k b d, true)
  | some old ↦ if bytes_eq old b then (d, false) else (write_file s n k b d, true)
]

-- `performCopy` over the suffixes of an entry.
unfoldable pub copy_metadata : Registry → ℕ → ℕ → ℕ → List ℕ → Disk → Disk × Option FileError
unfolding file_at compare_and_write
copy_metadata r from to n [] d = (d, none)
copy_metadata r from to n (k ∷ ks) d =
    let skip = copy_metadata r from to n ks d in
    if not (r.is_known k)
    then (d, some unknown_suffix)
    else if not (r.is_movable k)
    then skip
    else elim (file_at from n k d) [
      | none ↦ (d, some not_exist)
      | some b ↦ copy_metadata r from to n ks (compare_and_write to n k b d).0
    ]

unfoldable pub move : Registry → ℕ → ℕ → Entry → Disk → Entry × Disk × Option FileError
unfolding data_at dir_or_empty put_dir write_data remove_all copy_metadata
move r target n e d =
    let made = put_dir target n (dir_or_empty target n d) d in
    let (copied, problem) = copy_metadata r e.state target n (keys e.metadata) made in
    if not (is_some (data_at e.state n made)) then (e, made, some not_exist) else elim problem [
      | some err ↦ (e, copied, some err)
      | none ↦ (
        record e { state = target },
        remove_all e.state n (write_data target n (data_at e.state n copied) copied),
        none,
      )
    ]

unfoldable pub delete : Registry → ℕ → Entry → Disk → Disk × Option FileError
unfolding file_at remove_all
delete r n e d =
    let gone = remove_all e.state n d in
    elim (file_at e.state n persist d) [
      | none ↦ (gone, none)
      | some b ↦ elim (r.parse_bool b) [
        | none ↦ (d, some bad_metadata)
        | some value ↦ if value then (d, some file_persisted) else (gone, none)
      ]
    ]

-- The bytes of a metadata file, where it exists.
unfoldable pub read_metadata : ℕ → ℕ → Entry → Disk → Option (List ℕ)
unfolding file_at
read_metadata k n e d = file_at e.state n k d

-- What `Deserialize` makes of the bytes, or its error.
abbrev pub decoded : {A : Type 0} → Option A → Result A
decoded none = failed bad_metadata
decoded (some x) = ok x

-- `decode` is the `Deserialize` of the metadata's type.
unfoldable pub get_metadata : {A : Type 0} → (List ℕ → Option A) → ℕ → ℕ → Entry → Disk → Result A
unfolding read_metadata
get_metadata decode k n e d = elim (read_metadata k n e d) [
  | none ↦ failed not_exist
  | some b ↦ decoded (decode b)
]

unfoldable pub set_metadata : ℕ → List ℕ → ℕ → Entry → Disk → Entry × Disk × Bool
unfolding compare_and_write
set_metadata k b n e d =
    let (d', updated) = compare_and_write e.state n k b d in
    (record e { metadata = put k tt e.metadata }, d', updated)

-- The bytes of a file from an offset on, if there are so many, and the file with others there.
unfoldable pub splice : ℕ → List ℕ → List ℕ → Option (List ℕ × List ℕ)
splice zero [] old = some ([], old)
splice zero (b ∷ bs) [] = none
splice zero (b ∷ bs) (x ∷ xs) = elim (splice zero bs xs) [
  | none ↦ none
  | some (prev, new) ↦ some (x ∷ prev, b ∷ new)
]
splice (suc offset) bs [] = if length bs == 0 then some ([], []) else none
splice (suc offset) bs (x ∷ xs) = elim (splice offset bs xs) [
  | none ↦ none
  | some (prev, new) ↦ some (prev, x ∷ new)
]

-- The error of `ReadAt` past the end is `bad_size`.
unfoldable pub set_metadata_at : ℕ → List ℕ → ℕ → ℕ → Entry → Disk → Disk × Bool × Option FileError
unfolding file_at write_file splice bytes_eq
set_metadata_at k b offset n e d = elim (file_at e.state n k d) [
  | none ↦ (d, false, some not_exist)
  | some old ↦ elim (splice offset b old) [
    | none ↦ (d, false, some bad_size)
    | some (prev, new) ↦
        if bytes_eq prev b then (d, false, none) else (write_file e.state n k new d, true, none)
  ]
]

-- The bytes of the metadata after the call, or the error that there are none. What `Deserialize`
-- makes of them, or its error, is the matter of the metadata's type: `restore_pieces` in AgentTorrent
-- for the statuses of pieces.
unfoldable pub get_or_set_metadata : ℕ → List ℕ → ℕ → Entry → Disk → Entry × Disk × Option (List ℕ)
unfolding read_metadata compare_and_write
get_or_set_metadata k b n e d = if has k e.metadata then (e, d, read_metadata k n e d) else (
  record e { metadata = put k tt e.metadata },
  (compare_and_write e.state n k b d).0,
  some b,
)

unfoldable pub delete_metadata : ℕ → ℕ → Entry → Disk → Entry × Disk
unfolding dir_at put_dir
delete_metadata k n e d = (
  record e { metadata = del k e.metadata },
  elim (dir_at e.state n d) [
    | none ↦ d
    | some x ↦ put_dir e.state n (record x { files = del k x.files }) d
  ],
)
