-- ===== src/LruCache/Calls.antt =====
-- The calls of the cache: none panics, each keeps it well-formed, and `Add` evicts the oldest keys.
use kraken.Base.{
  ℕ, ◌+◌, ◌-◌, ◌≤◌, true, false, not, none, some, List, [], ◌∷◌, ◌++◌, if◌then◌else◌, ◌==◌, ltb,
  get, put, has, Distinct, select, count, count-append, length, length-append, length-drop, ◌≡◌,
  refl, ap, ◌∙◌, arith, get-put, get-del, put-Distinct, del-Distinct, Bool-cases, inl, inr,
}
use kraken.LruCache.{
  Cache, init, stale, without, move_to_end, evict_expired, evict, add, delete, clear, Call,
  calls_add, calls_delete, calls_clear, step, run,
}
use kraken.LruCache.Evicting.{
  Tracks, newest, order-evict_expired, get-evict_expired, evict_expired-Distinct,
  evict_expired-Tracks, evict_oldest-Newest,
}

-- Distinct keys, each once in the order, and no more of them than the limit.
pub record IsValid (c : Cache) : Type 0 where
  pub distinct : Distinct c.entries
  pub tracks : Tracks c.lru_order c.entries
  pub bounded : length c.lru_order ≤ c.max_size

count-move_to_end : (key j : ℕ) (ks : List ℕ) → count j (move_to_end key ks) ≡ count j ks
unfolding move_to_end
count-move_to_end key j [] = refl
count-move_to_end key j (k ∷ ks) =
    ground (arith, count-move_to_end key j ks, count-append j ks (key ∷ []))

length-move_to_end : (key : ℕ) (ks : List ℕ) → length (move_to_end key ks) ≡ length ks
unfolding move_to_end
length-move_to_end key [] = refl
length-move_to_end key (k ∷ ks) =
    ground (arith, length-move_to_end key ks, length-append ks (key ∷ []))

count-without :
    (key j : ℕ) (ks : List ℕ)
    → count j (without key ks) ≡ (if key == j then count j ks - 1 else count j ks)
unfolding without
count-without key j [] = ground arith
count-without key j (k ∷ ks) = ground (arith, count-without key j ks)

length-without-le : (key : ℕ) (ks : List ℕ) → length (without key ks) ≤ length ks
unfolding without
length-without-le key [] = omega arith
length-without-le key (k ∷ ks) = ground (arith, length-without-le key ks)

-- The keys that an addition of a new key leaves before the limit is enforced.
abbrev pub survivors : ℕ → ℕ → ℕ → Cache → List ℕ
survivors now later key c =
    select (λ k. not (stale later k (put key (now + c.ttl) c.entries))) (c.lru_order ++ key ∷ [])

-- The outcome of adding a key that was not there.
pub record Added (now later key : ℕ) (c c' : Cache) : Type 0 where
  pub order : c'.lru_order ≡ newest c.max_size (survivors now later key c)
  pub reads :
      (j : ℕ)
      → get j c'.entries
        ≡ (if ltb 0 (count j c'.lru_order) then get j (put key (now + c.ttl) c.entries) else none)
  pub settings : (c'.max_size ≡ c.max_size) × (c'.ttl ≡ c.ttl)

appended-Tracks :
    (key t : ℕ) (c : Cache)
    → has key c.entries ≡ false
    → IsValid c
    → Tracks (c.lru_order ++ key ∷ []) (put key t c.entries)
appended-Tracks key t c new v j =
    ground (arith, v.tracks j, get-put key j t c.entries, count-append j c.lru_order (key ∷ []))

-- Both loops after one another, on distinct keys that the order tracks.
pub record Evicted (later : ℕ) (c c' : Cache) : Type 0 where
  pub valid : IsValid c'
  pub order :
      c'.lru_order ≡ newest c.max_size (select (λ k. not (stale later k c.entries)) c.lru_order)
  pub reads :
      (j : ℕ) → get j c'.entries ≡ (if ltb 0 (count j c'.lru_order) then get j c.entries else none)
  pub settings : (c'.max_size ≡ c.max_size) × (c'.ttl ≡ c.ttl)

evict-Evicted :
    (later : ℕ) (c : Cache)
    → Distinct c.entries
    → Tracks c.lru_order c.entries
    → (c' : Cache) × (evict later c ≡ some c') × Evicted later c c'
unfolding evict
evict-Evicted later c d t =
    let (kept, left) = evict_expired later c.lru_order c.entries in
    let (entries', e, n) =
      evict_oldest-Newest c.max_size kept left
        (evict_expired-Distinct later c.lru_order c.entries d)
        (evict_expired-Tracks later c.lru_order c.entries t) in
    (
      record c { lru_order = newest c.max_size kept; entries = entries' },
      ground (arith, e),
      record {
        valid = record {
          distinct = n.distinct;
          tracks = n.tracks;
          bounded = omega (arith, length-drop (length kept - c.max_size) kept);
        };
        order = ap (newest c.max_size) (order-evict_expired later c.lru_order c.entries);
        reads = λ j.
            ground (arith, n.reads j, n.tracks j, get-evict_expired later j c.lru_order c.entries);
        settings = (refl, refl);
      },
    )

-- The cache that `evict` is called on.
abbrev appended : ℕ → ℕ → Cache → Cache
appended now key c = record c {
  entries = put key (now + c.ttl) c.entries;
  lru_order = c.lru_order ++ key ∷ [];
}

add-new :
    (now later key : ℕ) (c : Cache)
    → has key c.entries ≡ false
    → add now later key c ≡ evict later (appended now key c)
unfolding add
add-new now later key c new = ground arith

add-old :
    (now later key : ℕ) (c : Cache)
    → has key c.entries ≡ true
    → add now later key c
      ≡ some (record c {
        entries = put key (now + c.ttl) c.entries;
        lru_order = move_to_end key c.lru_order;
      })
unfolding add
add-old now later key c old = ground arith

-- A new key on a well-formed cache: `Add` returns, and leaves a well-formed cache with the newest
-- of the keys that are not expired, the new one last, as many as the limit allows, each with the
-- expiration that it had or, the new one, gets.
pub add-Added :
    (now later key : ℕ) (c : Cache)
    → has key c.entries ≡ false
    → IsValid c
    → (c' : Cache) × (add now later key c ≡ some c') × IsValid c' × Added now later key c c'
add-Added now later key c new v =
    let (c', e, r) =
      evict-Evicted later (appended now key c) (put-Distinct key (now + c.ttl) c.entries v.distinct)
        (appended-Tracks key (now + c.ttl) c new v) in
    (
      c',
      add-new now later key c new ∙ e,
      r.valid,
      record { order = r.order; reads = r.reads; settings = r.settings },
    )

refreshed-IsValid :
    (now key : ℕ) (c : Cache)
    → has key c.entries ≡ true
    → IsValid c
    → IsValid (record c {
      entries = put key (now + c.ttl) c.entries;
      lru_order = move_to_end key c.lru_order;
    })
refreshed-IsValid now key c old v = record {
  distinct = put-Distinct key (now + c.ttl) c.entries v.distinct;
  tracks = λ j. ground (
    arith,
    v.tracks j,
    get-put key j (now + c.ttl) c.entries,
    count-move_to_end key j c.lru_order,
  );
  bounded = omega (arith, length-move_to_end key c.lru_order, v.bounded);
}

delete-IsValid : (key : ℕ) (c : Cache) → IsValid c → IsValid (delete key c)
unfolding delete
delete-IsValid key c v = elim (Bool-cases (has key c.entries)) [
  | inr absent ↦ rw (absent, delete) v
  | inl present ↦
      rw (present, delete)
        (record {
          distinct = del-Distinct key c.entries v.distinct;
          tracks = λ j.
              ground (arith, v.tracks j, get-del key j c.entries, count-without key j c.lru_order);
          bounded = omega (arith, length-without-le key c.lru_order, v.bounded);
        })
]

step-IsValid : (x : Call) (c : Cache) → IsValid c → (c' : Cache) × (step x c ≡ some c') × IsValid c'
unfolding step
step-IsValid (calls_add now later key) c v = elim (Bool-cases (has key c.entries)) [
  | inl old ↦ (_, add-old now later key c old, refreshed-IsValid now key c old v)
  | inr new ↦ let (c', e, v', _) = add-Added now later key c new v in (c', e, v')
]
step-IsValid (calls_delete key) c v = (delete key c, refl, delete-IsValid key c v)
step-IsValid calls_clear c v = (
  clear c,
  refl,
  unfold clear get in record { distinct = tt; tracks = λ j. refl; bounded = omega arith },
)

run-IsValid :
    (xs : List Call) (c : Cache) → IsValid c → (c' : Cache) × (run xs c ≡ some c') × IsValid c'
unfolding run
run-IsValid [] c v = (c, refl, v)
run-IsValid (x ∷ xs) c v =
    let (c', e, v') = step-IsValid x c v in
    let (c'', e', v'') = run-IsValid xs c' v' in (c'', ground (arith, e, e'), v'')

-- No sequence of calls on a new cache panics, and afterwards the order lists each key of the
-- entries once, and there are no more keys than the limit.
pub lru_run-IsValid :
    (max_size ttl : ℕ) (xs : List Call)
    → (c : Cache) × (run xs (init max_size ttl) ≡ some c) × IsValid c
lru_run-IsValid max_size ttl xs =
    run-IsValid xs (init max_size ttl)
      (unfold init get in record { distinct = tt; tracks = λ j. refl; bounded = omega arith })
