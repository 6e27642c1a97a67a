-- ===== src/LruCache/Evicting.antt =====
-- What the two loops of `evict` leave.
use kraken.Base.{
  ℕ, zero, suc, ◌-◌, ◌≤◌, ◌<◌, Bool, true, not, none, some, List, [], ◌∷◌, if◌then◌else◌, ◌==◌,
  ◌&&◌, ltb, Map, get, del, has, size, Distinct, select, count, length, drop, ◌≡◌, refl, sym, ap,
  subst, ◌∙◌, arith, get-del, size-del, del-Distinct, Bool-cases, inl, inr, eq-cases,
}
use kraken.LruCache.{stale, evict_expired, evict_oldest}

select-cong : (f g : ℕ → Bool) (xs : List ℕ) → ((x : ℕ) → f x ≡ g x) → select f xs ≡ select g xs
select-cong f g [] h = refl
select-cong f g (x ∷ xs) h = ground (arith, h x, select-cong f g xs h)

stale-del :
    (now k j : ℕ) (entries : Map ℕ)
    → stale now k entries ≡ true
    → stale now j (del k entries) ≡ stale now j entries
unfolding stale
stale-del now k j entries s = ground (arith, get-del k j entries)

-- The first loop keeps the keys that are not stale, in order, and deletes the entries of the others.
pub order-evict_expired :
    (now : ℕ) (order : List ℕ) (entries : Map ℕ)
    → (evict_expired now order entries).0 ≡ select (λ k. not (stale now k entries)) order
unfolding evict_expired
order-evict_expired now [] entries = refl
order-evict_expired now (k ∷ ks) entries = elim (Bool-cases (stale now k entries)) [
  | inl s ↦
      rw (s, evict_expired)
        (order-evict_expired now ks (del k entries)
          ∙ select-cong _ _ ks (λ j. ap not (stale-del now k j entries s)))
  | inr f ↦ rw (f, evict_expired) (ap (◌∷◌ k) (order-evict_expired now ks entries))
]

pub get-evict_expired :
    (now j : ℕ) (order : List ℕ) (entries : Map ℕ)
    → get j (evict_expired now order entries).1
      ≡ (if ltb 0 (count j order) && stale now j entries then none else get j entries)
unfolding evict_expired
get-evict_expired now j [] entries = ground arith
get-evict_expired now j (k ∷ ks) entries = ground (
  arith,
  get-evict_expired now j ks entries,
  get-evict_expired now j ks (del k entries),
  get-del k j entries,
  stale-del now k j entries,
)

pub evict_expired-Distinct :
    (now : ℕ) (order : List ℕ) (entries : Map ℕ)
    → Distinct entries
    → Distinct (evict_expired now order entries).1
unfolding evict_expired
evict_expired-Distinct now [] entries d = d
evict_expired-Distinct now (k ∷ ks) entries d = elim (Bool-cases (stale now k entries)) [
  | inl s ↦
      rw (s, evict_expired)
        (evict_expired-Distinct now ks (del k entries) (del-Distinct k entries d))
  | inr f ↦ rw (f, evict_expired) (evict_expired-Distinct now ks entries d)
]

-- The order lists each key of the entries once, and no other.
abbrev pub Tracks : List ℕ → Map ℕ → Type 0
Tracks order entries = (k : ℕ) → count k order ≡ (if has k entries then 1 else 0)

pub count-select :
    (f : ℕ → Bool) (j : ℕ) (xs : List ℕ) → count j (select f xs) ≡ (if f j then count j xs else 0)
count-select f j [] = ground arith
count-select f j (x ∷ xs) = elim (eq-cases x j) [
  | inl same ↦
      subst
        (λ y.
          count j (if f y then y ∷ select f xs else select f xs)
          ≡ (if f j then (if y == j then suc (count j xs) else count j xs) else 0))
        (sym same) (ground (arith, count-select f j xs))
  | inr other ↦ ground (arith, count-select f j xs)
]

pub evict_expired-Tracks :
    (now : ℕ) (order : List ℕ) (entries : Map ℕ)
    → Tracks order entries
    → Tracks (evict_expired now order entries).0 (evict_expired now order entries).1
evict_expired-Tracks now order entries t j =
    ap (count j) (order-evict_expired now order entries)
    ∙ count-select (λ k. not (stale now k entries)) j order
    ∙ ground (arith, get-evict_expired now j order entries, t j, unstale now j entries)
  where
    unstale : (now j : ℕ) (entries : Map ℕ) → get j entries ≡ none → stale now j entries ≡ true
    unstale now j entries e = unfold stale in ground arith

Tracks-tail :
    (k : ℕ) (ks : List ℕ) (entries : Map ℕ) → Tracks (k ∷ ks) entries → Tracks ks (del k entries)
Tracks-tail k ks entries t j = ground (arith, t j, get-del k j entries)

no_entries : (entries : Map ℕ) → Tracks [] entries → size entries ≡ 0
no_entries [] t = refl
no_entries ((k, v) ∷ m) t = absurd (unfold get in ground (arith, t k))

-- So the order is as long as the map is large.
pub size-Tracks :
    (order : List ℕ) (entries : Map ℕ)
    → Distinct entries
    → Tracks order entries
    → size entries ≡ length order
size-Tracks [] entries d t = no_entries entries t
size-Tracks (k ∷ ks) entries d t = ground (
  arith,
  t k,
  size-del k entries d,
  size-Tracks ks (del k entries) (del-Distinct k entries d) (Tracks-tail k ks entries t),
)

count-drop-le : (n j : ℕ) (xs : List ℕ) → count j (drop n xs) ≤ count j xs
count-drop-le zero j xs = omega arith
count-drop-le (suc n) j [] = omega arith
count-drop-le (suc n) j (x ∷ xs) = ground (arith, count-drop-le n j xs)

-- The newest keys, as many as a limit allows.
abbrev pub newest : ℕ → List ℕ → List ℕ
newest max_size order = drop (length order - max_size) order

newest_all :
    (max_size : ℕ) (order : List ℕ) → length order ≤ max_size → newest max_size order ≡ order
newest_all max_size order h =
    let none_over : length order - max_size ≡ 0 = omega arith in rw none_over

newest_tail :
    (max_size k : ℕ) (ks : List ℕ)
    → max_size < suc (length ks)
    → newest max_size (k ∷ ks) ≡ newest max_size ks
newest_tail max_size k ks h =
    let one_more : suc (length ks) - max_size ≡ suc (length ks - max_size) = omega arith in
    rw one_more

-- The second loop keeps the newest keys with their entries.
pub record Newest (max_size : ℕ) (order : List ℕ) (entries entries' : Map ℕ) : Type 0 where
  pub distinct : Distinct entries'
  pub tracks : Tracks (newest max_size order) entries'
  pub reads :
      (j : ℕ)
      → get j entries' ≡ (if ltb 0 (count j (newest max_size order)) then get j entries else none)

all-Newest :
    (max_size : ℕ) (order : List ℕ) (entries : Map ℕ)
    → Distinct entries
    → Tracks order entries
    → length order ≤ max_size
    → Newest max_size order entries entries
all-Newest max_size order entries d t h = record {
  distinct = d;
  tracks = λ j. ap (count j) (newest_all max_size order h) ∙ t j;
  reads = λ j. ground (arith, ap (count j) (newest_all max_size order h), t j);
}

tail-Newest :
    (max_size k : ℕ) (ks : List ℕ) (entries entries' : Map ℕ)
    → Tracks (k ∷ ks) entries
    → max_size < suc (length ks)
    → Newest max_size ks (del k entries) entries'
    → Newest max_size (k ∷ ks) entries entries'
tail-Newest max_size k ks entries entries' t h n = record {
  distinct = n.distinct;
  tracks = λ j. ap (count j) (newest_tail max_size k ks h) ∙ n.tracks j;
  reads = λ j. ground (
    arith,
    ap (count j) (newest_tail max_size k ks h),
    n.reads j,
    t k,
    get-del k j entries,
    count-drop-le (length ks - max_size) j ks,
  );
}

-- The loop does not panic.
pub evict_oldest-Newest :
    (max_size : ℕ) (order : List ℕ) (entries : Map ℕ)
    → Distinct entries
    → Tracks order entries
    → (entries' : Map ℕ) × (evict_oldest max_size order entries
        ≡ some (newest max_size order, entries'))
      × Newest max_size order entries entries'
unfolding evict_oldest
evict_oldest-Newest max_size [] entries d t = (
  entries,
  ground (arith, size-Tracks [] entries d t, newest_all max_size []),
  all-Newest max_size [] entries d t (omega arith),
)
evict_oldest-Newest max_size (k ∷ ks) entries d t =
    elim (Bool-cases (ltb max_size (size entries))) [
      | inl over ↦
          let sized = size-Tracks (k ∷ ks) entries d t in
          let h : max_size < suc (length ks) = ground arith in
          let (entries', e, n) =
            evict_oldest-Newest max_size ks (del k entries) (del-Distinct k entries d)
              (Tracks-tail k ks entries t) in
          (
            entries',
            ground (arith, e, newest_tail max_size k ks h),
            tail-Newest max_size k ks entries entries' t h n,
          )
      | inr fits ↦
          let sized = size-Tracks (k ∷ ks) entries d t in
          let h : suc (length ks) ≤ max_size = ground arith in
          (
            entries,
            ground (arith, newest_all max_size (k ∷ ks) h),
            all-Newest max_size (k ∷ ks) entries d t h,
          )
    ]
