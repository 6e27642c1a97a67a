-- ===== src/FileStore/Ops.antt =====
-- lib/store/base/file_op.go: an operation of the store, for a list of acceptable states.
use kraken.Base.{
  ℕ, Bool, true, false, Option, none, some, List, [], ◌∷◌, ◌++◌, if◌then◌else◌, ◌==◌, ◌||◌, Map,
  get, put, del, has, is_some, length,
}
use kraken.FileStore.Types.{
  FileError, not_exist, exist, file_state, is_not_exist, Registry, Dir, Disk, names_at, data_at,
  Entry, Store,
}
use kraken.FileStore.Entries.{
  new_entry, create, reload, move_from, move, delete, get_metadata, set_metadata, set_metadata_at,
  get_or_set_metadata, delete_metadata,
}
pub use kraken.FileStore.Types.{Result, failed, ok}
use kraken.FileStore.FileMap.{sync_get, sync_get_and_touch, try_store}

-- The error of a result, where there is one.
abbrev pub error_of : {A : Type 0} → Result A → Option FileError
error_of (failed err) = some err
error_of (ok a) = none

abbrev pub result_of : Option FileError → Result (Unit {0})
result_of none = ok tt
result_of (some err) = failed err

unfoldable pub accepts : List ℕ → ℕ → Bool
accepts [] s = false
accepts (t ∷ ts) s = (s == t) || accepts ts s

-- What a call does with an entry that it holds.
abbrev pub Action : Type 0 → Type 0
Action A = Entry → Disk → Entry × Disk × Result A

-- An entry's fields after a call.
unfoldable pub put_entry : ℕ → Entry → Disk → Store → Store
put_entry n e d s = elim (get n s.queue) [
  | none ↦ record s { disk = d }
  | some slot ↦ record s { disk = d; queue = put n (record slot { fe = e }) s.queue }
]

unfoldable pub act : {A : Type 0} → ℕ → List ℕ → Action A → Store × Option Entry → Store × Result A
unfolding accepts put_entry
act n states f (s, found) = elim found [
  | none ↦ (s, failed not_exist)
  | some e ↦
      let (e', d, result) = f e s.disk in
      if accepts states e.state
      then (put_entry n e' d s, result)
      else (s, failed (file_state e.state))
]

abbrev pub read_result : Option (List ℕ) → Result (List ℕ)
read_result none = failed not_exist
read_result (some b) = ok b

-- The functions that are run on an entry.
unfoldable pub stat_action : ℕ → Action ℕ
unfolding data_at
stat_action n e d =
    (e, d, elim (data_at e.state n d) [ none ↦ failed not_exist | some b ↦ ok (length b) ])

unfoldable pub get_action : {A : Type 0} → (List ℕ → Option A) → ℕ → ℕ → Action A
unfolding get_metadata
get_action decode n k e d = (e, d, get_metadata decode k n e d)

unfoldable pub set_action : ℕ → ℕ → List ℕ → Action Bool
unfolding set_metadata
set_action n k b e d = let (e', d', updated) = set_metadata k b n e d in (e', d', ok updated)

unfoldable pub set_at_action : ℕ → ℕ → List ℕ → ℕ → Action Bool
unfolding set_metadata_at
set_at_action n k b offset e d =
    let (d', updated, err) = set_metadata_at k b offset n e d in
    (e, d', elim err [ none ↦ ok updated | some x ↦ failed x ])

unfoldable pub get_or_set_action : ℕ → ℕ → List ℕ → Action (List ℕ)
unfolding get_or_set_metadata
get_or_set_action n k b e d =
    let (e', d', read) = get_or_set_metadata k b n e d in (e', d', read_result read)

unfoldable pub delete_metadata_action : ℕ → ℕ → Action (Unit {0})
unfolding delete_metadata
delete_metadata_action n k e d = let (e', d') = delete_metadata k n e d in (e', d', ok tt)

module _ (r : Registry) where
  -- The loop of `reloadFileEntryHelper`. The second reload is `f` of `try_store`.
  unfoldable pub reload_loop : ℕ → ℕ → List ℕ → Store → Store × Option FileError
  unfolding reload try_store
  reload_loop now n [] s = (s, some not_exist)
  reload_loop now n (state ∷ states) s =
      let (e, missing) = reload r n (new_entry state) s.disk in
      let f : Entry → Disk → Entry × Disk × Option FileError =
        λ e d. let (e', err) = reload r n e d in (e', d, err) in
      let (s', stored, err) = try_store r now n e f s in
      elim missing [
        | some _ ↦ reload_loop now n states s
        | none ↦ elim err [
          | none ↦ (s', none)
          | some x ↦ if is_not_exist x then reload_loop now n states s' else (s', some x)
        ]
      ]

  -- If the entry was reloaded, and the error.
  unfoldable pub reload_file_entry : ℕ → ℕ → List ℕ → Store → Store × Bool × Option FileError
  unfolding reload_loop
  reload_file_entry now n states s =
      let (s', err) = reload_loop now n states s in
      if has n s.queue
      then (s, false, none)
      else elim err [ none ↦ (s', true, none) | some x ↦ (s', false, some x) ]

  -- `lockHelper`; only a peek does not touch the access time.
  unfoldable pub lock_helper :
      {A : Type 0} → Bool → ℕ → ℕ → List ℕ → Action A → Store → Store × Result A
  unfolding reload_file_entry sync_get sync_get_and_touch act
  lock_helper peeks now n states f s =
      let (s', reloaded, err) = reload_file_entry now n states s in
      elim err [
        | some x ↦ (s', failed x)
        | none ↦ act n states f (if peeks then sync_get n s' else sync_get_and_touch r now n s')
      ]

  -- `createFileHelper`, after the two tests of what is there.
  unfoldable pub store_new :
      ℕ
      → ℕ
      → List ℕ
      → ℕ
      → (Entry → Disk → Disk × Option FileError)
      → Store
      → Store × Result (Unit {0})
  unfolding try_store lock_helper
  store_new now n states target f s =
      let g : Entry → Disk → Entry × Disk × Option FileError =
        λ e d. let (d', err) = f e d in (e, d', err) in
      let (s', stored, err) = try_store r now n (new_entry target) g s in
      let (again, looked) = lock_helper false now n states (λ e d. (e, d, ok tt)) s' in
      elim err [
        | some x ↦ (s', failed x)
        | none ↦
            if stored
            then (s', ok tt)
            else elim looked [ failed x ↦ (again, failed x) | ok _ ↦ (again, failed exist) ]
      ]

  unfoldable pub create_file_helper :
      ℕ
      → ℕ
      → List ℕ
      → ℕ
      → (Entry → Disk → Disk × Option FileError)
      → Store
      → Store × Result (Unit {0})
  unfolding sync_get_and_touch accepts reload_file_entry store_new
  create_file_helper now n states target f s =
      let (touched, found) = sync_get_and_touch r now n s in
      let (s', reloaded, err) = reload_file_entry now n states s in
      let stored = store_new now n states target f s' in
      elim found [
        | some e ↦ (touched, failed (if accepts states e.state then exist else file_state e.state))
        | none ↦ elim err [
          | some x ↦ if is_not_exist x then stored else (s', failed x)
          | none ↦ if reloaded then (s', failed exist) else stored
        ]
      ]

  -- `none` is a negative size.
  unfoldable pub create_file : ℕ → ℕ → List ℕ → ℕ → Option ℕ → Store → Store × Result (Unit {0})
  unfolding create create_file_helper
  create_file now n states target size s = create_file_helper now n states target (create size n) s

  unfoldable pub move_file_from : ℕ → ℕ → List ℕ → ℕ → ℕ → Store → Store × Result (Unit {0})
  unfolding move_from create_file_helper
  move_file_from now n states target source s =
      let (s', result) =
        create_file_helper now n states target (move_from (get source s.unmanaged) n) s in
      elim result [
        | failed err ↦ (s', failed err)
        | ok _ ↦ (record s' { unmanaged = del source s'.unmanaged }, ok tt)
      ]

  -- The move is the one of `localFileEntry.Move`.
  unfoldable pub move_entry : List ℕ → ℕ → ℕ → Action (Unit {0})
  unfolding accepts move
  move_entry states target n e d =
      let (e', d', err) = move r target n e d in
      if e.state == target
      then (e, d, failed exist)
      else if accepts states e.state
      then (e', d', result_of err)
      else (e, d, failed (file_state e.state))

  unfoldable pub move_file : ℕ → ℕ → List ℕ → ℕ → Store → Store × Result (Unit {0})
  unfolding reload_file_entry sync_get_and_touch put_entry move_entry
  move_file now n states target s =
      let (s', reloaded, err) = reload_file_entry now n states s in
      let (t, found) = sync_get_and_touch r now n s' in
      elim err [
        | some x ↦ (s', failed x)
        | none ↦ elim found [
          | none ↦ (t, failed not_exist)
          | some e ↦
              let (e', d, result) = move_entry states target n e t.disk in
              (put_entry n e' d t, result)
        ]
      ]

  -- The entry leaves the map also where its file is persisted.
  unfoldable pub delete_held : ℕ → List ℕ → Store × Option Entry → Store × Result (Unit {0})
  unfolding accepts delete
  delete_held n states (s, found) = elim found [
    | none ↦ (s, ok tt)
    | some e ↦
        let (d, failure) = delete r n e s.disk in
        if accepts states e.state
        then (record s { disk = d; queue = del n s.queue }, result_of failure)
        else (s, failed (file_state e.state))
  ]

  unfoldable pub delete_file : ℕ → ℕ → List ℕ → Store → Store × Result (Unit {0})
  unfolding reload_file_entry sync_get delete_held
  delete_file now n states s =
      let (s', reloaded, err) = reload_file_entry now n states s in
      elim err [ some x ↦ (s', failed x) | none ↦ delete_held n states (sync_get n s') ]

  -- What `GetFileStat` tells of a file is its size.
  unfoldable pub get_file_stat : ℕ → ℕ → List ℕ → Store → Store × Result ℕ
  unfolding lock_helper stat_action
  get_file_stat now n states s = lock_helper true now n states (stat_action n) s

  unfoldable pub get_file_metadata :
      {A : Type 0} → (List ℕ → Option A) → ℕ → ℕ → List ℕ → ℕ → Store → Store × Result A
  unfolding lock_helper get_action
  get_file_metadata decode now n states k s =
      lock_helper true now n states (get_action decode n k) s

  -- If the metadata was updated.
  unfoldable pub set_file_metadata : ℕ → ℕ → List ℕ → ℕ → List ℕ → Store → Store × Result Bool
  unfolding lock_helper set_action
  set_file_metadata now n states k b s = lock_helper false now n states (set_action n k b) s

  unfoldable pub set_file_metadata_at :
      ℕ → ℕ → List ℕ → ℕ → List ℕ → ℕ → Store → Store × Result Bool
  unfolding lock_helper set_at_action
  set_file_metadata_at now n states k b offset s =
      lock_helper false now n states (set_at_action n k b offset) s

  unfoldable pub get_or_set_file_metadata :
      ℕ → ℕ → List ℕ → ℕ → List ℕ → Store → Store × Result (List ℕ)
  unfolding lock_helper get_or_set_action
  get_or_set_file_metadata now n states k b s =
      lock_helper false now n states (get_or_set_action n k b) s

  unfoldable pub delete_file_metadata : ℕ → ℕ → List ℕ → ℕ → Store → Store × Result (Unit {0})
  unfolding lock_helper delete_metadata_action
  delete_file_metadata now n states k s =
      lock_helper false now n states (delete_metadata_action n k) s

-- The names of a state: where names are sharded, those of all directories.
unfoldable pub names_of : Bool → Map Dir → List ℕ
names_of is_cas [] = []
names_of is_cas ((n, x) ∷ m) =
    let rest = names_of is_cas m in if is_cas || is_some x.data_file then n ∷ rest else rest

unfoldable pub list_names : List ℕ → Store → List ℕ
unfolding names_of names_at
list_names [] s = []
list_names (state ∷ states) s = names_of s.is_cas (names_at state s.disk) ++ list_names states s
