-- ===== src/FileStore/Types.antt =====
-- The state of lib/store/base: the directories on disk, the entries in memory, and the errors.
use Prim.Native.Nat.{ℕ}
use kraken.Base.{
  ◌≡◌, refl, inl, inr, ◌⊎◌, Bool, true, false, Option, none, some, List, [], ◌∷◌, ◌==◌, ◌&&◌, Map,
  get, put, del,
}
use kraken.StringSet.{StringSet}

-- A nil error is `none`. `bad_metadata` is an error of `Deserialize`, `unknown_suffix` the one of a
-- suffix that `CreateFromSuffix` does not know, and `bad_size` the one of a negative size.
pub data FileError : Type 0 where
  not_exist exist file_persisted bad_metadata unknown_suffix bad_size : FileError
  file_state : (state : ℕ) → FileError

abbrev pub is_not_exist : FileError → Bool
is_not_exist not_exist = true
is_not_exist _ = false

pub data Result (A : Type 0) : Type 0 where
  failed : FileError → Result A
  ok : A → Result A

pub Result-cases :
    {A : Type 0} (x : Result A) → ((err : FileError) × (x ≡ failed err)) ⊎ ((a : A) × (x ≡ ok a))
Result-cases (failed err) = inl (err, refl)
Result-cases (ok a) = inr (a, refl)

-- What the metadata package answers: the suffixes that `CreateFromSuffix` knows, which of them are
-- movable, and how the bytes of the two types that the store itself reads and writes are read.
pub record Registry : Type 0 where
  pub is_known : ℕ → Bool
  pub is_movable : ℕ → Bool
  pub parse_bool : List ℕ → Option Bool
  pub parse_time : List ℕ → Option ℕ
  pub format_time : ℕ → List ℕ

-- The suffixes of `Persist` and `LastAccessTime`.
abbrev pub persist : ℕ
persist = 0

abbrev pub last_access_time : ℕ
last_access_time = 1

-- The directory of an entry: its data file, and its other files by suffix.
pub record Dir : Type 0 where
  pub data_file : Option (List ℕ)
  pub files : Map (List ℕ)

-- For each state's directory, those of its entries. Names have no slash, so none is inside another.
abbrev pub Disk : Type 0
Disk = Map (Map Dir)

unfoldable pub names_at : ℕ → Disk → Map Dir
names_at s d = elim (get s d) [ none ↦ [] | some names ↦ names ]

abbrev pub empty_dir : Dir
empty_dir = record { data_file = none; files = [] }

unfoldable pub dir_at : ℕ → ℕ → Disk → Option Dir
unfolding names_at
dir_at s n d = get n (names_at s d)

unfoldable pub put_dir : ℕ → ℕ → Dir → Disk → Disk
unfolding names_at
put_dir s n x d = put s (put n x (names_at s d)) d

-- `os.RemoveAll`.
unfoldable pub remove_all : ℕ → ℕ → Disk → Disk
unfolding names_at
remove_all s n d = put s (del n (names_at s d)) d

-- `os.MkdirAll`, whose result is the directory too.
unfoldable pub dir_or_empty : ℕ → ℕ → Disk → Dir
unfolding dir_at
dir_or_empty s n d = elim (dir_at s n d) [ none ↦ empty_dir | some x ↦ x ]

-- What `os.Stat` and `os.ReadFile` find at the data file, and at another file.
unfoldable pub data_at : ℕ → ℕ → Disk → Option (List ℕ)
unfolding dir_or_empty
data_at s n d = (dir_or_empty s n d).data_file

unfoldable pub file_at : ℕ → ℕ → ℕ → Disk → Option (List ℕ)
unfolding dir_or_empty
file_at s n k d = get k (dir_or_empty s n d).files

unfoldable pub write_file : ℕ → ℕ → ℕ → List ℕ → Disk → Disk
unfolding dir_or_empty put_dir
write_file s n k b d =
    let x = dir_or_empty s n d in put_dir s n (record x { files = put k b x.files }) d

unfoldable pub write_data : ℕ → ℕ → Option (List ℕ) → Disk → Disk
unfolding dir_or_empty put_dir
write_data s n b d = put_dir s n (record (dir_or_empty s n d) { data_file = b }) d

unfoldable pub bytes_eq : List ℕ → List ℕ → Bool
bytes_eq [] [] = true
bytes_eq [] (y ∷ ys) = false
bytes_eq (x ∷ xs) [] = false
bytes_eq (x ∷ xs) (y ∷ ys) = (x == y) && bytes_eq xs ys

-- `localFileEntry`; its name is the key that it stands under, and its path is told by the state and
-- the name.
pub record Entry : Type 0 where
  pub state : ℕ
  pub metadata : StringSet

pub record Slot : Type 0 where
  pub fe : Entry
  pub last_access : ℕ

-- `queue` is the list of the elements, the front first, with the names that `elements` maps to them;
-- `unmanaged` are the files outside the store. A capacity of 0 is no limit.
pub record Store : Type 0 where
  pub disk : Disk
  pub unmanaged : Map (List ℕ)
  pub queue : Map Slot
  pub capacity : ℕ
  pub is_cas : Bool
