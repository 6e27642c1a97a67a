-- ===== src/Scheduler/Announcing.antt =====
-- The torrents that a tick passes over, and those that it puts back in the announce queue.
pub mod Order
use kraken.Base.{
  ℕ, suc, ◌+◌, ◌≤◌, ◌<◌, Bool, true, false, none, some, List, [], ◌∷◌, ◌++◌, ◌==◌, ◌≡◌, refl, sym,
  ap, ◌∙◌, subst, arith, get, put, del, Map, Bool-cases, inl, inr, ◌⊎◌, count, length, select,
  length-append, append_assoc, append-nil, get-put, get-del,
}
use kraken.AnnounceQueue
use kraken.AnnounceQueue.{Queue}
use kraken.ConnState
use kraken.Scheduler.{State, Control, Effect, Timeouts, announces, tick_loop, ready_all, tick}

-- A tick passes over these: each is saturated, or has no control.
abbrev pub Passed : State → List ℕ → Type 0
Passed s [] = Unit
Passed s (x ∷ xs) =
    ((ConnState.saturated x s.conns ≡ true) ⊎ (get x s.controls ≡ none)) × Passed s xs

-- No torrent stands twice.
abbrev pub Unique : List ℕ → Type 0
Unique [] = Unit
Unique (x ∷ xs) = (count x xs ≡ 0) × Unique xs

-- The saturated ones among some torrents.
abbrev pub saturated_of : State → List ℕ → List ℕ
saturated_of s xs = select (λ h. ConnState.saturated h s.conns) xs

-- The state with this announce queue.
abbrev pub with_queue : State → List ℕ → Map Bool → State
with_queue s q m = record s { announce_queue = record { ready_queue = q; pending = m } }

abbrev pub mark : List ℕ → Map Bool → Map Bool
mark [] m = m
mark (x ∷ xs) m = mark xs (put x true m)

-- Fuel for some rounds more.
abbrev pub fuel_for : List ℕ → ℕ → ℕ
fuel_for [] fuel = fuel
fuel_for (x ∷ xs) fuel = suc (fuel_for xs fuel)

length-fuel_for : (xs : List ℕ) (fuel : ℕ) → fuel_for xs fuel ≡ length xs + fuel
length-fuel_for [] fuel = omega arith
length-fuel_for (x ∷ xs) fuel = ground (arith, length-fuel_for xs fuel)

pub fuel_of_length : (xs ys : List ℕ) → suc (length (xs ++ ys)) ≡ fuel_for xs (suc (length ys))
fuel_of_length xs ys = omega (arith, length-append xs ys, length-fuel_for xs (suc (length ys)))

pub length_suc : (xs : List ℕ) → suc (length xs) ≡ fuel_for xs 1
length_suc xs = omega (arith, length-fuel_for xs 1)

skip_saturated :
    (x : ℕ) (rest : List ℕ) (fuel : ℕ) (s : State) (m : Map Bool) (skipped : List ℕ)
    → ConnState.saturated x s.conns ≡ true
    → tick_loop (suc fuel) (with_queue s (x ∷ rest) m) skipped
      ≡ tick_loop fuel (with_queue s rest (put x true m)) (skipped ++ x ∷ [])
unfolding tick_loop AnnounceQueue.next
skip_saturated x rest fuel s m skipped full = rw (full, tick_loop)

skip_unknown :
    (x : ℕ) (rest : List ℕ) (fuel : ℕ) (s : State) (m : Map Bool) (skipped : List ℕ)
    → ConnState.saturated x s.conns ≡ false
    → get x s.controls ≡ none
    → tick_loop (suc fuel) (with_queue s (x ∷ rest) m) skipped
      ≡ tick_loop fuel (with_queue s rest (put x true m)) skipped
unfolding tick_loop AnnounceQueue.next
skip_unknown x rest fuel s m skipped room gone = rw (room, gone, tick_loop)

saturated_of-keeps :
    (s : State) (x : ℕ) (xs : List ℕ)
    → ConnState.saturated x s.conns ≡ true
    → saturated_of s (x ∷ xs) ≡ x ∷ saturated_of s xs
saturated_of-keeps s x xs full = rw full

saturated_of-drops :
    (s : State) (x : ℕ) (xs : List ℕ)
    → ConnState.saturated x s.conns ≡ false
    → saturated_of s (x ∷ xs) ≡ saturated_of s xs
saturated_of-drops s x xs room = rw room

pub skip_over :
    (xs rest : List ℕ) (fuel : ℕ) (s : State) (m : Map Bool) (skipped : List ℕ)
    → Passed s xs
    → tick_loop (fuel_for xs fuel) (with_queue s (xs ++ rest) m) skipped
      ≡ tick_loop fuel (with_queue s rest (mark xs m)) (skipped ++ saturated_of s xs)
skip_over [] rest fuel s m skipped p =
    ap (λ l. tick_loop fuel (with_queue s rest m) l) (sym (append-nil skipped))
skip_over (x ∷ xs) rest fuel s m skipped (p, ps) =
    let here = with_queue s rest (mark (x ∷ xs) m) in
    elim (Bool-cases (ConnState.saturated x s.conns)) [
      | inl full ↦
          skip_saturated x (xs ++ rest) (fuel_for xs fuel) s m skipped full
          ∙ skip_over xs rest fuel s (put x true m) (skipped ++ x ∷ []) ps
          ∙ ap (tick_loop fuel here) (
              append_assoc skipped (x ∷ []) (saturated_of s xs)
              ∙ ap (λ l. skipped ++ l) (sym (saturated_of-keeps s x xs full)))
      | inr room ↦ elim p [
        | inl full ↦ ground (arith, full, room)
        | inr gone ↦
            skip_unknown x (xs ++ rest) (fuel_for xs fuel) s m skipped room gone
            ∙ skip_over xs rest fuel s (put x true m) skipped ps
            ∙ ap (λ l. tick_loop fuel here (skipped ++ l)) (sym (saturated_of-drops s x xs room))
      ]
    ]

mark_pending :
    (xs : List ℕ) (m : Map Bool) (j : ℕ) → get j m ≡ some true → get j (mark xs m) ≡ some true
mark_pending [] m j e = e
mark_pending (x ∷ xs) m j e =
    mark_pending xs (put x true m) j (ground (arith, e, get-put x j true m))

pub mark_marks :
    (xs : List ℕ) (m : Map Bool) (j : ℕ) → 0 < count j xs → get j (mark xs m) ≡ some true
mark_marks [] m j c = ground arith
mark_marks (x ∷ xs) m j c = elim (Bool-cases (x == j)) [
  | inl e ↦ mark_pending xs (put x true m) j (ground (arith, e, get-put x j true m))
  | inr ne ↦ mark_marks xs (put x true m) j (ground (arith, ne, c))
]

pub count-select : (p : ℕ → Bool) (xs : List ℕ) (j : ℕ) → count j (select p xs) ≤ count j xs
count-select p [] j = omega arith
count-select p (x ∷ xs) j = ground (arith, count-select p xs j)

pub select-Unique : (p : ℕ → Bool) (xs : List ℕ) → Unique xs → Unique (select p xs)
select-Unique p [] u = tt
select-Unique p (x ∷ xs) (new, u) = elim (Bool-cases (p x)) [
  | inl e ↦ rw e (ground (arith, new, count-select p xs x), select-Unique p xs u)
  | inr e ↦ rw e (select-Unique p xs u)
]

ready_pending :
    (h : ℕ) (q : List ℕ) (m : Map Bool)
    → get h m ≡ some true
    → AnnounceQueue.ready h (record { ready_queue = q; pending = m })
      ≡ record { ready_queue = q ++ h ∷ []; pending = del h m }
unfolding AnnounceQueue.ready
ready_pending h q m marked = ground (arith, marked)

pub ready_all-pending :
    (hs q : List ℕ) (m : Map Bool)
    → Unique hs
    → ((j : ℕ) → 0 < count j hs → get j m ≡ some true)
    → (ready_all hs (record { ready_queue = q; pending = m })).ready_queue ≡ q ++ hs
unfolding ready_all
ready_all-pending [] q m u p = sym (append-nil q)
ready_all-pending (h ∷ hs) q m (new, u) p =
    ap (λ t. (ready_all hs t).ready_queue) (ready_pending h q m (p h (ground arith)))
    ∙ ready_all-pending hs (q ++ h ∷ []) (del h m) u
        (λ j there. ground (arith, get-del h j m, p j, there, new))
    ∙ append_assoc q (h ∷ []) hs
