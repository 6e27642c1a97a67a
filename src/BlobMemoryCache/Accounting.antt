-- ===== src/BlobMemoryCache/Accounting.antt =====
-- The total size of the cache is what its entries and the open reservations come to.
use kraken.Base.{
  ℕ, ◌+◌, ◌-◌, ◌%◌, ◌≤◌, ◌<◌, true, false, none, some, List, [], ◌∷◌, ◌++◌, Map, get, put, del,
  Distinct, put-Distinct, get-put, del-Distinct, ◌≡◌, refl, sym, ap, subst, arith, Option-cases,
  inl, inr, del_absent,
}
use native.Mathlib.Nat.{mod-eq_of_lt}
use kraken.BlobMemoryCache.{
  u64_mod, MemoryEntry, entry_size, Cache, init, add, remove, remove_batch, decrement_total_size,
  try_reserve, release_reservation, Store, Step, Reach, reserves, refuses, adds, releases, removes,
  removes_batch, expires, here, next,
}

abbrev pub bytes : Map MemoryEntry → ℕ
bytes [] = 0
bytes ((name, e) ∷ m) = entry_size e + bytes m

abbrev pub sum : List ℕ → ℕ
sum [] = 0
sum (n ∷ ns) = n + sum ns

sum_middle :
    (before behind : List ℕ) (n : ℕ) → sum (before ++ n ∷ behind) ≡ n + sum (before ++ behind)
sum_middle [] behind n = refl
sum_middle (x ∷ xs) behind n = omega (arith, sum_middle xs behind n)

bytes-put_new :
    (name : ℕ) (e : MemoryEntry) (m : Map MemoryEntry)
    → get name m ≡ none
    → bytes (put name e m) ≡ entry_size e + bytes m
unfolding get put
bytes-put_new name e [] h = omega arith
bytes-put_new name e ((k, x) ∷ m) h = ground (arith, bytes-put_new name e m)

bytes-del :
    (name : ℕ) (e : MemoryEntry) (m : Map MemoryEntry)
    → Distinct m
    → get name m ≡ some e
    → bytes m ≡ entry_size e + bytes (del name m)
unfolding get del
bytes-del name e [] d h = absurd (ground arith)
bytes-del name e ((k, x) ∷ m) d h = ground (arith, bytes-del name e m d.1, del_absent name m)

-- The total counts every entry and every open reservation, within the limit.
pub record IsValid (s : Store) : Type 0 where
  pub distinct : Distinct s.cache.entries
  pub total : s.cache.total_size ≡ bytes s.cache.entries + sum s.open_reservations
  pub bounded : s.cache.total_size ≤ s.cache.max_size

remove-IsValid :
    (name : ℕ) (c : Cache) (opens : List ℕ)
    → IsValid (record { cache = c; open_reservations = opens })
    → IsValid (record { cache = remove name c; open_reservations = opens })
unfolding remove decrement_total_size
remove-IsValid name c opens v = elim (Option-cases (get name c.entries)) [
  | inl e ↦ rw (e, remove) v
  | inr (x, e) ↦
      let counted = bytes-del name x c.entries v.distinct e in
      record {
        distinct = ground (arith, del-Distinct name c.entries v.distinct, v.distinct);
        total = ground (arith, counted, v.total);
        bounded = ground (arith, counted, v.total, v.bounded);
      }
]

remove_batch-IsValid :
    (names : List ℕ) (c : Cache) (opens : List ℕ)
    → IsValid (record { cache = c; open_reservations = opens })
    → IsValid (record { cache = remove_batch names c; open_reservations = opens })
unfolding remove_batch
remove_batch-IsValid [] c opens v = v
remove_batch-IsValid (name ∷ names) c opens v =
    remove_batch-IsValid names (remove name c) opens (remove-IsValid name c opens v)

-- A reserved size that, beside a full cache, does not wrap around 64 bits, and an entry that has
-- the size that was reserved for it.
abbrev pub IsSized : {s t : Store} → Step s t → Type 0
IsSized {s} (reserves n c small e) = n + s.cache.max_size < u64_mod
IsSized (adds x n before behind c eo e) = entry_size x ≡ n
IsSized _ = Unit

-- What each call of the cache says when it succeeds.
try_reserve-ok :
    (n : ℕ) (c c' : Cache)
    → n + c.max_size < u64_mod
    → c.total_size ≤ c.max_size
    → try_reserve n c ≡ (c', true)
    → (c' ≡ record c { total_size = c.total_size + n }) × (c.total_size + n ≤ c.max_size)
unfolding try_reserve
try_reserve-ok n c c' w b e =
    let small : c.total_size + n < u64_mod = omega arith in
    let same : (c.total_size + n) % u64_mod ≡ c.total_size + n = mod-eq_of_lt small in
    ground (arith, same)

try_reserve-refused : (n : ℕ) (c c' : Cache) → try_reserve n c ≡ (c', false) → c' ≡ c
unfolding try_reserve
try_reserve-refused n c c' e = ground arith

add-ok :
    (x : MemoryEntry) (c c' : Cache)
    → add x c ≡ (c', true)
    → (get x.name c.entries ≡ none) × (c' ≡ record c { entries = put x.name x c.entries })
unfolding add
add-ok x c c' e = ground arith

step-IsValid : {s t : Store} (st : Step s t) → IsSized st → IsValid s → IsValid t
step-IsValid {s} (reserves n c small e) w v =
    let (same, fits) = try_reserve-ok n s.cache c w v.bounded e in
    subst (λ k. IsValid (record { cache = k; open_reservations = n ∷ s.open_reservations }))
      (sym same) (record { distinct = v.distinct; total = omega (arith, v.total); bounded = fits })
step-IsValid {s} (refuses n c e) w v =
    subst (λ k. IsValid (record { cache = k; open_reservations = s.open_reservations }))
      (sym (try_reserve-refused n s.cache c e)) v
step-IsValid {s} (adds x n before behind c eo e) w v =
    let (new, same) = add-ok x s.cache c e in
    subst (λ k. IsValid (record { cache = k; open_reservations = before ++ behind })) (sym same)
      (record {
        distinct = put-Distinct x.name x s.cache.entries v.distinct;
        total = omega (
          arith,
          v.total,
          ap sum eo,
          sum_middle before behind n,
          w,
          bytes-put_new x.name x s.cache.entries new,
        );
        bounded = v.bounded;
      })
step-IsValid {s} (releases n before behind eo) w v =
    unfold release_reservation in
    let split = sum_middle before behind n in
    let opened = ap sum eo in
    record {
      distinct = ground (arith, v.distinct);
      total = ground (arith, split, opened, v.total);
      bounded = ground (arith, v.bounded);
    }
step-IsValid {s} (removes name) w v = remove-IsValid name s.cache s.open_reservations v
step-IsValid {s} (removes_batch names) w v =
    remove_batch-IsValid names s.cache s.open_reservations v
step-IsValid {s} (expires now ttl) w v = remove_batch-IsValid _ s.cache s.open_reservations v

-- Each step of a run reserves without a wrap-around, and adds what was reserved.
abbrev pub AllSized : {s t : Store} → Reach s t → Type 0
AllSized here = Unit
AllSized (next r st) = AllSized r × IsSized st

Reach-IsValid : {s t : Store} (r : Reach s t) → AllSized r → IsValid s → IsValid t
Reach-IsValid here w v = v
Reach-IsValid (next r st) w v = step-IsValid st w.1 (Reach-IsValid r w.0 v)

-- However the goroutines of the store interleave on a new cache, as long as no reservation wraps
-- around 64 bits and each entry that is added has the size that was reserved for it, the total size
-- is the bytes of the entries and of the open reservations together, and does not exceed the limit.
pub Reach-init-IsValid :
    (max_size : ℕ) {t : Store}
    (r : Reach (record { cache = init max_size; open_reservations = [] }) t)
    → AllSized r
    → IsValid t
unfolding init
Reach-init-IsValid max_size r w =
    Reach-IsValid r w (record { distinct = tt; total = refl; bounded = omega arith })

-- A size that does wrap around is granted, and the total falls.
try_reserve_wraps :
    (n : ℕ) (c : Cache)
    → n < u64_mod
    → c.total_size ≤ c.max_size
    → c.total_size < u64_mod
    → u64_mod ≤ c.total_size + n
    → ((try_reserve n c).1 ≡ true) × ((try_reserve n c).0.total_size + (u64_mod - n) ≡ c.total_size)
unfolding try_reserve
try_reserve_wraps n c small fits word over =
    let wrapped : (c.total_size + n) % u64_mod ≡ c.total_size + n - u64_mod = omega arith in
    ground (arith, wrapped)

-- An entry that is smaller than its reservation leaves the difference in the total for good: it is
-- still counted when the entry is removed again.
pub add_smaller_leaks :
    (n : ℕ) (e : MemoryEntry) (c : Cache)
    → c.total_size + n < u64_mod
    → c.total_size + n ≤ c.max_size
    → entry_size e ≤ n
    → get e.name c.entries ≡ none
    → (remove e.name (add e (try_reserve n c).0).0).total_size ≡ c.total_size + (n - entry_size e)
unfolding try_reserve add remove decrement_total_size
add_smaller_leaks n e c word fits small new =
    let same : (c.total_size + n) % u64_mod ≡ c.total_size + n = mod-eq_of_lt word in
    ground (arith, same, get-put e.name e.name e c.entries)
