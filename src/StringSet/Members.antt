-- ===== src/StringSet/Members.antt =====
-- The members of the sets that the operations build.
use kraken.Base.{
  ℕ, suc, ◌≤◌, true, [], ◌∷◌, ◌==◌, ◌||◌, ◌&&◌, not, get, put, del, has, size, Distinct, ◌≡◌, refl,
  arith, get-put, get-del, del-Distinct, size-del, ◌↔◌, Bool-cases, inl, inr, sym, ◌∙◌,
}
use kraken.StringSet.{StringSet, sub_loop, sub, subset_loop, equal, copy_loop, copy}

pub has-put : (x y : ℕ) (s : StringSet) → has y (put x tt s) ≡ ((x == y) || has y s)
has-put x y s = ground (arith, get-put x y tt s)

pub has-del : (x y : ℕ) (s : StringSet) → has y (del x s) ≡ (not (x == y) && has y s)
has-del x y s = ground (arith, get-del x y s)

copy_loop-has : (s c : StringSet) (y : ℕ) → has y (copy_loop s c) ≡ (has y s || has y c)
unfolding copy_loop get
copy_loop-has [] c y = refl
copy_loop-has ((x, u) ∷ s) c y = ground (arith, copy_loop-has s (put x tt c) y, has-put x y c)

pub has-copy : (s : StringSet) (y : ℕ) → has y (copy s) ≡ has y s
unfolding copy get
has-copy s y = ground (arith, copy_loop-has s [] y)

sub_loop-has :
    (s s2 result : StringSet) (y : ℕ)
    → has y (sub_loop s s2 result) ≡ ((has y s && not (has y s2)) || has y result)
unfolding sub_loop get
sub_loop-has [] s2 result y = refl
sub_loop-has ((x, u) ∷ s) s2 result y =
    ground
      (arith, sub_loop-has s s2 (put x tt result) y, sub_loop-has s s2 result y, has-put x y result)

-- `Sub` keeps the members of the first set that the second one does not have.
pub has-sub : (s s2 : StringSet) (y : ℕ) → has y (sub s s2) ≡ (has y s && not (has y s2))
unfolding sub get
has-sub s s2 y = ground (arith, sub_loop-has s s2 [] y)

subset_loop-has :
    (s s2 : StringSet) (y : ℕ) → subset_loop s s2 ≡ true → has y s ≡ true → has y s2 ≡ true
unfolding subset_loop get
subset_loop-has [] s2 y h m = ground (arith, m)
subset_loop-has ((x, u) ∷ s) s2 y h m = ground (arith, subset_loop-has s s2 y)

subset_loop-true :
    (s s2 : StringSet)
    → Distinct s
    → ((y : ℕ) → has y s ≡ true → has y s2 ≡ true)
    → subset_loop s s2 ≡ true
unfolding subset_loop get
subset_loop-true [] s2 d sub = refl
subset_loop-true ((x, u) ∷ s) s2 d sub =
    let first = sub x (ground arith) in
    let rest = subset_loop-true s s2 d.1 (λ y m. ground (arith, sub y)) in ground arith

-- A set has at most as many members as one that has all of its members, and only if it has fewer
-- does the other one have more of them.
subset-size :
    (s s2 : StringSet)
    → Distinct s
    → Distinct s2
    → ((y : ℕ) → has y s ≡ true → has y s2 ≡ true)
    → (size s ≤ size s2) × (size s ≡ size s2 → (y : ℕ) → has y s2 ≡ true → has y s ≡ true)
unfolding get
subset-size [] [] d d2 sub = (omega arith, λ e y m. m)
subset-size [] ((z, u) ∷ s2) d d2 sub = (omega arith, λ e. absurd (omega (arith, e)))
subset-size ((x, u) ∷ s) s2 d d2 sub =
    let first : has x s2 ≡ true = sub x (ground arith) in
    let one_less : size s2 ≡ suc (size (del x s2)) = ground (arith, size-del x s2 d2) in
    let (le, same) =
      subset-size s (del x s2) d.1 (del-Distinct x s2 d2)
        (λ y m. ground (arith, sub y, has-del x y s2, d.0)) in
    (
      omega (arith, le, one_less),
      λ e y m. elim (Bool-cases (x == y)) [
        | inl is_x ↦ ground arith
        | inr other ↦
            ground (arith, same (omega (arith, e, one_less)) y (ground (arith, has-del x y s2)))
      ],
    )

-- `Equal` holds exactly for sets with the same members.
pub equal_iff :
    (s1 s2 : StringSet)
    → Distinct s1
    → Distinct s2
    → (equal s1 s2 ≡ true) ↔ ((y : ℕ) → has y s1 ≡ has y s2)
unfolding equal
equal_iff s1 s2 d1 d2 = (forward, backward)
  where
    forward : equal s1 s2 ≡ true → (y : ℕ) → has y s1 ≡ has y s2
    forward e y =
        let sizes : size s1 ≡ size s2 = ground arith in
        let inside : subset_loop s1 s2 ≡ true = ground arith in
        let there = λ (z : ℕ) (m : has z s1 ≡ true). subset_loop-has s1 s2 z inside m in
        let back = (subset-size s1 s2 d1 d2 there).1 sizes y in ground (arith, there y, back)

    backward : ((y : ℕ) → has y s1 ≡ has y s2) → equal s1 s2 ≡ true
    backward e =
        let there = λ (z : ℕ) (m : has z s1 ≡ true). sym (e z) ∙ m in
        let back = λ (z : ℕ) (m : has z s2 ≡ true). e z ∙ m in
        let le = (subset-size s1 s2 d1 d2 there).0 in
        let ge = (subset-size s2 s1 d2 d1 back).0 in
        let sizes : size s1 ≡ size s2 = omega (arith, le, ge) in
        ground (arith, subset_loop-true s1 s2 d1 there)
