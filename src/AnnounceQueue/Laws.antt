-- ===== src/AnnounceQueue/Laws.antt =====
-- What each call of the announce queue does to the number of places that a torrent holds.
use kraken.Base.{
  ℕ, suc, ◌+◌, ◌-◌, ◌≤◌, true, none, some, List, [], ◌∷◌, if◌then◌else◌, ◌==◌, put, ◌≡◌, refl,
  arith, count, count-append, get-put, get-del, ◌≢◌, ◌⊎◌, inl, inr,
}
use kraken.AnnounceQueue.{Queue, next, add, ready, remove_first, eject, is_pending}

-- The places that `h` holds: in the ready list, and among the pending torrents.
abbrev pub places : ℕ → Queue → ℕ
places h q = count h q.ready_queue + (if is_pending h q then 1 else 0)

-- Each torrent stands in the queue at most once, ready or pending.
abbrev pub IsValid : Queue → Type 0
IsValid q = (h : ℕ) → places h q ≤ 1

pub count-remove_first_self : (h : ℕ) (xs : List ℕ) → count h (remove_first h xs) ≡ count h xs - 1
unfolding remove_first
count-remove_first_self h [] = refl
count-remove_first_self h (x ∷ xs) = ground (arith, count-remove_first_self h xs)

pub count-remove_first_ne :
    (h j : ℕ) (xs : List ℕ) → j ≢ h → count j (remove_first h xs) ≡ count j xs
unfolding remove_first
count-remove_first_ne h j [] n = refl
count-remove_first_ne h j (x ∷ xs) n = ground (arith, count-remove_first_ne h j xs)

-- `next` fails on an empty queue only, and otherwise returns the front and marks it pending.
pub next-cases :
    (q : Queue)
    → ((q.ready_queue ≡ []) × (next q ≡ (q, none)))
      ⊎ ((h : ℕ) × (rest : List ℕ) × (q.ready_queue ≡ h ∷ rest)
          × (next q ≡ (record { ready_queue = rest; pending = put h true q.pending }, some h)))
unfolding next
next-cases q = go q.ready_queue refl
  where
    go :
        (l : List ℕ)
        → q.ready_queue ≡ l
        → ((q.ready_queue ≡ []) × (next q ≡ (q, none)))
          ⊎ ((h : ℕ) × (rest : List ℕ) × (q.ready_queue ≡ h ∷ rest)
              × (next q ≡ (record { ready_queue = rest; pending = put h true q.pending }, some h)))
    go [] e = inl (e, ground arith)
    go (h ∷ rest) e = inr (h, rest, e, ground arith)

-- `next` moves a torrent from ready to pending.
pub places-next : (h : ℕ) (q : Queue) → IsValid q → places h (next q).0 ≡ places h q
places-next h q v = elim (next-cases q) [
  | inl (e, s) ↦ rw s
  | inr (x, rest, e, s) ↦ rw s (ground (arith, get-put x h true q.pending, v h))
]

-- `ready` moves a pending torrent back, and does nothing to any other.
pub places-ready : (h j : ℕ) (q : Queue) → places j (ready h q) ≡ places j q
unfolding ready
places-ready h j q = ground (arith, get-del h j q.pending, count-append j q.ready_queue (h ∷ []))

pub places-add :
    (h j : ℕ) (q : Queue) → places j (add h q) ≡ (if h == j then suc (places j q) else places j q)
unfolding add
places-add h j q = ground (arith, count-append j q.ready_queue (h ∷ []))

pub places-eject_ne : (h j : ℕ) (q : Queue) → j ≢ h → places j (eject h q) ≡ places j q
unfolding eject
places-eject_ne h j q n =
    ground (arith, get-del h j q.pending, count-remove_first_ne h j q.ready_queue)

-- `eject` takes out the pending mark and one ready place.
pub places-eject_self : (h : ℕ) (q : Queue) → places h (eject h q) ≡ count h q.ready_queue - 1
unfolding eject
places-eject_self h q =
    ground (arith, get-del h h q.pending, count-remove_first_self h q.ready_queue)
