-- ===== src/PriorityQueue/Members.antt =====
-- What is known of every item of a queue is known of the items that it gives back.
use kraken.Base.{
  ℕ, suc, zero, ◌+◌, ◌-◌, ◌*◌, ◌≤◌, ◌<◌, Bool, true, some, List, [], ◌∷◌, ◌≡◌, refl, sym, ap, ◌∙◌,
  subst, arith, ◌==◌, ◌||◌, ltb, leb, not, length, set, drop_last, length-append, length-set,
  get_or-set-cases, Bool-cases, inl, inr, get_or-append_left, get_or-append_length, some_injective,
}
use kraken.PriorityQueue.{
  Item, zero_item, item_at, pop_last, less, swap, parent, up, least_child, down, push_last, push,
  pop,
}

-- Each item of the queue passes the test.
abbrev pub AllItems : (Item → Bool) → List Item → Type 0
AllItems p q = (k : ℕ) → k < length q → p (item_at q k) ≡ true

pub length-swap : (q : List Item) (i j : ℕ) → length (swap q i j) ≡ length q
unfolding swap
length-swap q i j =
    length-set (set q i (item_at q j)) j (item_at q i) ∙ length-set q i (item_at q j)

set-AllItems :
    (p : Item → Bool) (q : List Item) (i : ℕ) (x : Item)
    → p x ≡ true
    → AllItems p q
    → AllItems p (set q i x)
set-AllItems p q i x px all k below = elim (get_or-set-cases q i k x zero_item) [
  | inl e ↦ ap p e ∙ all k (ground (arith, below, length-set q i x))
  | inr (e, same) ↦ ap p e ∙ px
]

swap-AllItems :
    (p : Item → Bool) (q : List Item) (i j : ℕ)
    → i < length q
    → j < length q
    → AllItems p q
    → AllItems p (swap q i j)
unfolding swap
swap-AllItems p q i j i_in j_in all =
    set-AllItems p (set q i (item_at q j)) j (item_at q i) (all i i_in)
      (set-AllItems p q i (item_at q j) (all j j_in) all)

up-AllItems :
    (p : Item → Bool) (fuel : ℕ) (q : List Item) (j : ℕ)
    → j < length q
    → AllItems p q
    → AllItems p (up fuel q j)
unfolding up
up-AllItems p zero q j j_in all = all
up-AllItems p (suc fuel) q j j_in all =
    elim (Bool-cases ((parent j == j) || not (less q j (parent j)))) [
      | inl stop ↦ rw (stop, up) all
      | inr on ↦
          rw (on, up)
            (up-AllItems p fuel (swap q (parent j) j) (parent j)
              (omega (arith, j_in, length-swap q (parent j) j))
              (swap-AllItems p q (parent j) j (omega (arith, j_in)) j_in all))
    ]

least_child-le : (q : List Item) (i n : ℕ) → 2 * i + 1 < n → least_child q i n < n
unfolding least_child
least_child-le q i n room = ground arith

down-AllItems :
    (p : Item → Bool) (fuel : ℕ) (q : List Item) (i n : ℕ)
    → n ≤ length q
    → AllItems p q
    → AllItems p (down fuel q i n)
unfolding down
down-AllItems p zero q i n fits all = all
down-AllItems p (suc fuel) q i n fits all =
    let j = least_child q i n in
    elim (Bool-cases (leb n (2 * i + 1) || not (less q j i))) [
      | inl stop ↦ rw (stop, down) all
      | inr on ↦
          let room : 2 * i + 1 < n = ground (arith, on) in
          let j_in : j < length q = omega (arith, fits, least_child-le q i n room) in
          rw (on, down)
            (down-AllItems p fuel (swap q i j) j n (omega (arith, fits, length-swap q i j))
              (swap-AllItems p q i j (omega (arith, room, fits)) j_in all))
    ]

length-down : (fuel : ℕ) (q : List Item) (i n : ℕ) → length (down fuel q i n) ≡ length q
unfolding down
length-down zero q i n = refl
length-down (suc fuel) q i n =
    let j = least_child q i n in
    elim (Bool-cases (leb n (2 * i + 1) || not (less q j i))) [
      | inl stop ↦ rw (stop, down)
      | inr on ↦ rw (on, down) (length-down fuel (swap q i j) j n ∙ length-swap q i j)
    ]

push_last-AllItems :
    (p : Item → Bool) (q : List Item) (x : Item)
    → p x ≡ true
    → AllItems p q
    → AllItems p (push_last q x)
push_last-AllItems p q x px all k below = elim (Bool-cases (ltb k (length q))) [
  | inl old ↦
      ap p (get_or-append_left q (x ∷ []) k zero_item (ground (arith, old)))
      ∙ all k (ground (arith, old))
  | inr new ↦
      let last : k ≡ length q = ground (arith, new, below, length-append q (x ∷ [])) in
      ap (λ n. p (item_at (push_last q x) n)) last ∙ ap p (get_or-append_length q x zero_item) ∙ px
]

pub push-AllItems :
    (p : Item → Bool) (q : List Item) (x : Item) → p x ≡ true → AllItems p q → AllItems p (push q x)
push-AllItems p q x px all =
    unfold push in
    up-AllItems p (suc (length q)) (push_last q x) (length q)
      (omega (arith, length-append q (x ∷ []))) (push_last-AllItems p q x px all)

length-drop_last : (q : List Item) → length (drop_last q) ≡ length q - 1
length-drop_last [] = omega arith
length-drop_last (x ∷ []) = omega arith
length-drop_last (x ∷ y ∷ q) = omega (arith, length-drop_last (y ∷ q))

item_at-drop_last :
    (q : List Item) (k : ℕ) → k < length (drop_last q) → item_at (drop_last q) k ≡ item_at q k
item_at-drop_last [] k below = refl
item_at-drop_last (x ∷ []) k below = elim below [ ]
item_at-drop_last (x ∷ y ∷ q) zero below = refl
item_at-drop_last (x ∷ y ∷ q) (suc k) below = item_at-drop_last (y ∷ q) k (omega arith)

pub pop-AllItems :
    (p : Item → Bool) (q rest : List Item) (x : Item)
    → pop q ≡ some (x, rest)
    → AllItems p q
    → (p x ≡ true) × AllItems p rest
pop-AllItems p q rest x e all = elim (Bool-cases (length q == 0)) [
  | inl empty ↦ unfold pop in ground (arith, e, empty)
  | inr some_left ↦
      let n = length q - 1 in
      let q' = down n (swap q 0 n) 0 n in
      let popped : pop q ≡ some (pop_last q' n) = (unfold pop in rw some_left) in
      let all' : AllItems p q' =
        down-AllItems p n (swap q 0 n) 0 n (omega (arith, length-swap q 0 n))
          (swap-AllItems p q 0 n (ground (arith, some_left)) (ground (arith, some_left)) all) in
      let len : length q' ≡ length q = length-down n (swap q 0 n) 0 n ∙ length-swap q 0 n in
      let pair : pop_last q' n ≡ (x, rest) = some_injective (sym popped ∙ e) in
      (
        ap (λ r. p r.0) (sym pair) ∙ all' n (ground (arith, len, some_left)),
        subst (AllItems p) (ap (λ r. r.1) pair) (λ k below.
            ap p (item_at-drop_last q' k below)
            ∙ all' k (omega (arith, below, length-drop_last q'))),
      )
]
