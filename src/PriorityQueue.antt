-- ===== src/PriorityQueue.antt =====
-- utils/heap/priority_queue.go, with the sift loops of Go's `container/heap` that its `Push` and
-- `Pop` call. The slice of items is a list. The loops run on fuel: an item rises at most as often
-- as its index is large, and sinks at most as often as the slice is long. The stored values are
-- numbers, and the priorities, which count peers, are not negative.
pub mod Members
use kraken.Base.{
  ℕ, suc, zero, ◌+◌, ◌-◌, ◌*◌, ◌/◌, Bool, Option, none, some, List, [], ◌∷◌, ◌++◌, if◌then◌else◌,
  ◌==◌, ◌&&◌, ◌||◌, ltb, leb, not, length, get_or, set, drop_last,
}

pub record Item : Type 0 where
  pub value : ℕ
  pub priority : ℕ

abbrev pub zero_item : Item
zero_item = record { value = 0; priority = 0 }

abbrev pub item_at : List Item → ℕ → Item
item_at q i = get_or q i zero_item

-- `internalQueue.Less` and `internalQueue.Swap`
unfoldable pub less : List Item → ℕ → ℕ → Bool
less q i j = ltb (item_at q i).priority (item_at q j).priority

unfoldable pub swap : List Item → ℕ → ℕ → List Item
swap q i j = set (set q i (item_at q j)) j (item_at q i)

-- The parent of an index; that of the root is the root.
abbrev pub parent : ℕ → ℕ
parent j = (j - 1) / 2

unfoldable pub up : ℕ → List Item → ℕ → List Item
unfolding less swap
up zero q j = q
up (suc fuel) q j =
    let rest = up fuel (swap q (parent j) j) (parent j) in
    if (parent j == j) || not (less q j (parent j)) then q else rest

-- The child of `i` with the lower priority, the left one if they are equal.
unfoldable pub least_child : List Item → ℕ → ℕ → ℕ
unfolding less
least_child q i n =
    if ltb (2 * i + 2) n && less q (2 * i + 2) (2 * i + 1) then 2 * i + 2 else 2 * i + 1

unfoldable pub down : ℕ → List Item → ℕ → ℕ → List Item
unfolding less swap least_child
down zero q i n = q
down (suc fuel) q i n =
    let j = least_child q i n in
    let rest = down fuel (swap q i j) j n in
    if leb n (2 * i + 1) || not (less q j i) then q else rest

-- `internalQueue.Push` and `internalQueue.Pop`
abbrev pub push_last : List Item → Item → List Item
push_last q x = q ++ x ∷ []

abbrev pub pop_last : List Item → ℕ → Item × List Item
pop_last q n = (item_at q n, drop_last q)

unfoldable pub push : List Item → Item → List Item
unfolding up
push q x = up (suc (length q)) (push_last q x) (length q)

-- `none` is the error on an empty queue. `heap.Pop` swaps the root with the last item, sinks the
-- new root among the others, and takes the last item off.
unfoldable pub pop : List Item → Option (Item × List Item)
unfolding down swap
pop q =
    let n = length q - 1 in
    let q' = down n (swap q 0 n) 0 n in if length q == 0 then none else some (pop_last q' n)
