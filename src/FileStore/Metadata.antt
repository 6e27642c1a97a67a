-- ===== src/FileStore/Metadata.antt =====
-- What a call reads after another one, and what a delete does to a file that is persisted.
use kraken.Base.{
  ℕ, Bool, true, false, Option, none, some, List, [], ◌∷◌, ◌≡◌, refl, sym, ap, ◌∙◌, subst, arith,
  get, put, del, has, get-put, get-del, ==-self, Option-cases, Bool-cases, inl, inr, leb, ◌+◌,
}
use kraken.FileStore.Types.{
  Result, FileError, not_exist, file_persisted, Registry, persist, Disk, dir_or_empty, file_at,
  write_file, bytes_eq, Entry, Slot, Store,
}
use kraken.FileStore.Entries.{
  compare_and_write, decoded, get_metadata, read_metadata, set_metadata, delete,
}
use kraken.FileStore.FileMap.{move_to_front, sync_get, sync_get_and_touch, time_resolution}
use kraken.FileStore.Ops.{
  failed, ok, Action, accepts, get_action, set_action, reload_file_entry, put_entry, act,
  lock_helper, delete_held, delete_file, get_file_metadata, set_file_metadata,
}
use kraken.FileStore.Persisting.{is_persisted, dir_or_empty-put_dir}

bytes_eq-true : (xs ys : List ℕ) → bytes_eq xs ys ≡ true → xs ≡ ys
unfolding bytes_eq
bytes_eq-true [] [] h = refl
bytes_eq-true [] (y ∷ ys) h = absurd (ground arith)
bytes_eq-true (x ∷ xs) [] h = absurd (ground arith)
bytes_eq-true (x ∷ xs) (y ∷ ys) h = ground (arith, bytes_eq-true xs ys)

module _ (r : Registry) where
  file_at-write_file :
      (s n k : ℕ) (b : List ℕ) (d : Disk) → file_at s n k (write_file s n k b d) ≡ some b
  unfolding file_at write_file
  file_at-write_file s n k b d = ground (
    arith,
    dir_or_empty-put_dir r s n s n
        (record (dir_or_empty s n d) { files = put k b (dir_or_empty s n d).files }) d,
    get-put k k b (dir_or_empty s n d).files,
  )

  pub file_at-compare_and_write :
      (s n k : ℕ) (b : List ℕ) (d : Disk) → file_at s n k (compare_and_write s n k b d).0 ≡ some b
  unfolding compare_and_write
  file_at-compare_and_write s n k b d = elim (Option-cases (file_at s n k d)) [
    | inl gone ↦ rw (gone, compare_and_write) (file_at-write_file s n k b d)
    | inr (old, there) ↦ elim (Bool-cases (bytes_eq old b)) [
      | inl same ↦ rw (there, same, compare_and_write) (there ∙ ap some (bytes_eq-true old b same))
      | inr other ↦ rw (there, other, compare_and_write) (file_at-write_file s n k b d)
    ]
  ]

  -- An entry that is found stands in the map.
  pub touched :
      (now n : ℕ) (s : Store) (e : Entry)
      → (sync_get_and_touch r now n s).1 ≡ some e
      → has n (sync_get_and_touch r now n s).0.queue ≡ true
  unfolding sync_get_and_touch move_to_front get put
  touched now n s e found = elim (Option-cases (get n s.queue)) [
    | inl gone ↦ absurd (ground (arith, gone, found))
    | inr (slot, there) ↦ elim (Bool-cases (leb (slot.last_access + time_resolution) now)) [
      | inl late ↦ rw (there, late, sync_get_and_touch) (ground (arith, there))
      | inr early ↦ rw (there, early, sync_get_and_touch) (ground (arith, there))
    ]
  ]

  pub in_memory :
      (now n : ℕ) (states : List ℕ) (s : Store) (slot : Slot)
      → get n s.queue ≡ some slot
      → reload_file_entry r now n states s ≡ (s, false, none)
  unfolding reload_file_entry
  in_memory now n states s slot there = rw (there, reload_file_entry)

  got :
      (n : ℕ) (s : Store) (slot : Slot)
      → get n s.queue ≡ some slot
      → sync_get n s ≡ (record s { queue = move_to_front n s.queue }, some slot.fe)
  unfolding sync_get
  got n s slot there = rw (there, sync_get)

  acted :
      {A : Type 0} (n : ℕ) (states : List ℕ) (f : Action A) (s : Store) (e : Entry)
      → accepts states e.state ≡ true
      → act n states f (s, some e) ≡ (put_entry n (f e s.disk).0 (f e s.disk).1 s, (f e s.disk).2)
  unfolding act
  acted n states f s e fits = rw (fits, act)

  -- A peek at an entry in memory.
  peek :
      {A : Type 0} (now n : ℕ) (states : List ℕ) (f : Action A) (s : Store) (slot : Slot)
      → get n s.queue ≡ some slot
      → accepts states slot.fe.state ≡ true
      → (lock_helper r true now n states f s).1 ≡ (f slot.fe s.disk).2
  unfolding lock_helper
  peek now n states f s slot there fits =
      rw (in_memory now n states s slot there, lock_helper)
        (ap (λ (x : Store × Bool × Option FileError). (act n states f (sync_get n x.0)).1)
            (in_memory now n states s slot there)
          ∙ ap (λ y. (act n states f y).1) (got n s slot there)
          ∙ ap (λ y. y.1)
              (acted n states f (record s { queue = move_to_front n s.queue }) slot.fe fits))

  pub put_entry-there :
      (n : ℕ) (e : Entry) (d : Disk) (s : Store)
      → has n s.queue ≡ true
      → ((put_entry n e d s).disk ≡ d)
        × ((slot : Slot) × (get n (put_entry n e d s).queue ≡ some slot) × (slot.fe ≡ e))
  unfolding put_entry
  put_entry-there n e d s h = elim (Option-cases (get n s.queue)) [
    | inl gone ↦ absurd (ground (arith, gone, h))
    | inr (slot, there) ↦
        rw (there, put_entry)
          (
            refl,
            (
              record slot { fe = e },
              get-put n n (record slot { fe = e }) s.queue ∙ rw (==-self n),
              refl,
            ),
          )
  ]

  -- A call that holds the lock and succeeds ran on an entry in an acceptable state, which it left
  -- in the map.
  Left : {A : Type 0} → ℕ → List ℕ → Action A → Store → Type 0
  Left n states f t =
      (e : Entry) × (d : Disk) × (accepts states e.state ≡ true)
      × (t.disk ≡ (f e d).1)
      × ((slot : Slot) × (get n t.queue ≡ some slot) × (slot.fe ≡ (f e d).0))

  refused :
      {A : Type 0} (n : ℕ) (states : List ℕ) (f : Action A) (y : Store × Option Entry) (t : Store)
      (a : A)
      → y.1 ≡ none
      → act n states f y ≡ (t, ok a)
      → ⊥
  unfolding act
  refused n states f (s, none) t a gone done = ground (arith, done)
  refused n states f (s, some e) t a gone done = ground (arith, gone)

  accepted :
      {A : Type 0} (n : ℕ) (states : List ℕ) (f : Action A) (s t : Store) (e : Entry) (a : A)
      → has n s.queue ≡ true
      → act n states f (s, some e) ≡ (t, ok a)
      → Left n states f t
  unfolding Left act
  accepted n states f s t e a h done = elim (Bool-cases (accepts states e.state)) [
    | inr late ↦ absurd (ground (arith, late, done))
    | inl fits ↦
        let x = f e s.disk in
        let same : put_entry n x.0 x.1 s ≡ t =
          ap (λ p. p.0) (sym (acted n states f s e fits) ∙ done) in
        let (e1, e2) = put_entry-there n x.0 x.1 s h in
        subst (λ u. Left n states f u) same (e, s.disk, fits, e1, e2)
  ]

  locked :
      {A : Type 0} (now n : ℕ) (states : List ℕ) (f : Action A) (s t : Store) (a : A)
      → lock_helper r false now n states f s ≡ (t, ok a)
      → Left n states f t
  unfolding lock_helper
  locked {A} now n states f s t a done =
      let x = reload_file_entry r now n states s in
      let y = sync_get_and_touch r now n x.0 in
      elim (Option-cases x.2) [
        | inr (err, bad) ↦ absurd (ground (arith, bad, done))
        | inl fine ↦
            let e1 : lock_helper r false now n states f s ≡ act n states f y =
              rw (fine, lock_helper) in
            let e2 : act n states f y ≡ (t, ok a) = sym e1 ∙ done in
            elim (Option-cases y.1) [
              | inl gone ↦ absurd (refused n states f y t a gone e2)
              | inr (e, there) ↦
                  let e3 : act n states f (y.0, some e) ≡ (t, ok a) =
                    ap (λ o. act n states f (y.0, o)) (sym there) ∙ e2 in
                  accepted n states f y.0 t e a (touched now n x.0 e there) e3
            ]
      ]

  read_by : {A : Type 0} → (List ℕ → Option A) → Option (List ℕ) → Result A
  read_by decode o = elim o [ none ↦ failed not_exist | some b ↦ decoded (decode b) ]

  -- Where a metadata was set without an error, the next call that reads it for the same states, with
  -- no other call between them and at whatever time of the clock, gives what `Deserialize` makes of
  -- the bytes that `Serialize` gave, or its error.
  pub get-set_file_metadata :
      {A : Type 0} (decode : List ℕ → Option A) (now later n : ℕ) (states : List ℕ) (k : ℕ)
      (b : List ℕ) (s t : Store) (updated : Bool)
      → set_file_metadata r now n states k b s ≡ (t, ok updated)
      → (get_file_metadata r decode later n states k t).1 ≡ decoded (decode b)
  unfolding set_file_metadata get_file_metadata set_action get_action set_metadata get_metadata
      read_metadata read_by Left
  get-set_file_metadata decode now later n states k b s t updated done =
      let (e, d, fits, same, (slot, there, kept)) : Left n states (set_action n k b) t =
        locked now n states (set_action n k b) s t updated done in
      peek later n states (get_action decode n k) t slot there
        (subst (λ (x : Entry). accepts states x.state ≡ true) (sym kept) fits)
      ∙ ap (read_by decode) (
          ap (λ (x : Entry). file_at x.state n k t.disk) kept
          ∙ ap (λ (x : Disk). file_at e.state n k x) same
          ∙ file_at-compare_and_write e.state n k b d)

  delete-persisted :
      (n : ℕ) (e : Entry) (d : Disk)
      → is_persisted r e.state n d ≡ true
      → delete r n e d ≡ (d, some file_persisted)
  unfolding delete is_persisted
  delete-persisted n e d p = elim (Option-cases (file_at e.state n persist d)) [
    | inl gone ↦ absurd (ground (arith, gone, p))
    | inr (b, there) ↦ elim (Option-cases (r.parse_bool b)) [
      | inl bad ↦ absurd (ground (arith, there, bad, p))
      | inr (true, value) ↦ rw (there, value, delete)
      | inr (false, value) ↦ absurd (ground (arith, there, value, p))
    ]
  ]

  delete_held-persisted :
      (n : ℕ) (states : List ℕ) (s : Store) (e : Entry)
      → accepts states e.state ≡ true
      → is_persisted r e.state n s.disk ≡ true
      → delete_held r n states (s, some e)
        ≡ (record s { queue = del n s.queue }, failed file_persisted)
  unfolding delete_held
  delete_held-persisted n states s e fits p = rw (fits, delete-persisted n e s.disk p, delete_held)

  -- Deleting a file in memory that is persisted, in an acceptable state, fails as persisted and
  -- leaves the disk as it is, but takes the entry out of memory.
  pub delete_file-persisted :
      (now n : ℕ) (states : List ℕ) (s : Store) (slot : Slot)
      → get n s.queue ≡ some slot
      → accepts states slot.fe.state ≡ true
      → is_persisted r slot.fe.state n s.disk ≡ true
      → ((delete_file r now n states s).1 ≡ failed file_persisted)
        × ((delete_file r now n states s).0.disk ≡ s.disk)
        × (has n (delete_file r now n states s).0.queue ≡ false)
  unfolding delete_file
  delete_file-persisted now n states s slot there fits p =
      let front : Store = record s { queue = move_to_front n s.queue } in
      let e : delete_file r now n states s
          ≡ (record front { queue = del n front.queue }, failed file_persisted) =
        rw (in_memory now n states s slot there, delete_file)
          (ap (λ (x : Store × Bool × Option FileError). delete_held r n states (sync_get n x.0))
              (in_memory now n states s slot there)
            ∙ ap (delete_held r n states) (got n s slot there)
            ∙ delete_held-persisted n states front slot.fe fits p) in
      (
        ap (λ x. x.1) e,
        ap (λ x. x.0.disk) e,
        ap (λ x. has n x.0.queue) e ∙ ground (arith, get-del n n front.queue),
      )
