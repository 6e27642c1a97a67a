-- ===== src/HashRing/Locations.antt =====
-- The replica set is the healthy hosts among the first ones, or the first healthy host.
use kraken.Base.{
  ℕ, zero, suc, ◌-◌, true, false, List, [], ◌∷◌, ◌++◌, if◌then◌else◌, ◌==◌, ◌||◌, ltb, length, take,
  has, ◌≡◌, refl, sym, ap, ◌∙◌, arith, Bool-cases, inl, inr, ◌⊎◌, append_assoc, append-nil,
}
use kraken.StringSet.{StringSet}
use kraken.HashRing.{Node, locations_loop}

-- The labels of the healthy nodes, in order.
abbrev pub healthy_labels : StringSet → List Node → List ℕ
healthy_labels healthy [] = []
healthy_labels healthy (n ∷ ns) =
    if has n.label healthy then n.label ∷ healthy_labels healthy ns else healthy_labels healthy ns

-- The healthy ones of the first `max` nodes, and where there are none, the first healthy one.
unfoldable pub replicas : ℕ → StringSet → List Node → List ℕ
replicas max healthy nodes =
    let first = healthy_labels healthy (take max nodes) in
    if length first == 0 then take 1 (healthy_labels healthy nodes) else first

take_empty : (m : ℕ) → take {A = Node} m [] ≡ []
take_empty zero = refl
take_empty (suc m) = refl

-- How many nodes are left before the limit.
left_cases :
    (max i : ℕ)
    → ((max - i ≡ 0) × (ltb i max ≡ false))
      ⊎ ((k : ℕ) × (max - i ≡ suc k) × (max - suc i ≡ k) × (ltb i max ≡ true))
left_cases max i = elim (Bool-cases (ltb i max)) [
  | inl below ↦ inr (max - suc i, ground (arith, below), refl, below)
  | inr above ↦ inl (ground (arith, above), above)
]

-- Once a location was found, the loop goes on to the limit.
loop_found :
    (max : ℕ) (healthy : StringSet) (i : ℕ) (ns : List Node) (l : ℕ) (ls : List ℕ)
    → locations_loop max healthy i ns (l ∷ ls)
      ≡ (l ∷ ls) ++ healthy_labels healthy (take (max - i) ns)
unfolding locations_loop
loop_found max healthy i [] l ls =
    sym (append-nil (l ∷ ls))
    ∙ ap (λ xs. (l ∷ ls) ++ healthy_labels healthy xs) (sym (take_empty (max - i)))
loop_found max healthy i (n ∷ ns) l ls = elim (left_cases max i) [
  | inl (e, above) ↦
      let stop : ((length (l ∷ ls) == 0) || ltb i max) ≡ false = ground (arith, above) in
      rw (e, stop) (sym (append-nil (l ∷ ls)))
  | inr (k, e, e', below) ↦
      let go_on : ((length (l ∷ ls) == 0) || ltb i max) ≡ true = ground (arith, below) in
      elim (Bool-cases (has n.label healthy)) [
        | inl well ↦
            rw (e, go_on, well)
              (loop_found max healthy (suc i) ns l (ls ++ n.label ∷ [])
                ∙ append_assoc (l ∷ ls) (n.label ∷ [])
                    (healthy_labels healthy (take (max - suc i) ns))
                ∙ ap (λ j. (l ∷ ls) ++ n.label ∷ healthy_labels healthy (take j ns)) e')
        | inr ill ↦
            rw (e, go_on, ill)
              (loop_found max healthy (suc i) ns l ls
                ∙ ap (λ j. (l ∷ ls) ++ healthy_labels healthy (take j ns)) e')
      ]
]

module _ (healthy : StringSet) (n : Node) (ns : List Node) where
  replicas_well :
      (k : ℕ)
      → has n.label healthy ≡ true
      → replicas (suc k) healthy (n ∷ ns) ≡ n.label ∷ healthy_labels healthy (take k ns)
  unfolding replicas
  replicas_well k well = ground (arith, well)

  replicas_ill :
      (k : ℕ)
      → has n.label healthy ≡ false
      → replicas (suc k) healthy (n ∷ ns) ≡ replicas k healthy ns
  unfolding replicas
  replicas_ill k ill = rw ill refl

  replicas_zero_well : has n.label healthy ≡ true → replicas 0 healthy (n ∷ ns) ≡ n.label ∷ []
  unfolding replicas
  replicas_zero_well well = rw well refl

  replicas_zero_ill :
      has n.label healthy ≡ false → replicas 0 healthy (n ∷ ns) ≡ replicas 0 healthy ns
  unfolding replicas
  replicas_zero_ill ill = rw ill refl

pub loop_replicas :
    (max : ℕ) (healthy : StringSet) (i : ℕ) (ns : List Node)
    → locations_loop max healthy i ns [] ≡ replicas (max - i) healthy ns
unfolding locations_loop
loop_replicas max healthy i [] =
    unfold replicas in
    ground (arith, ap (λ xs. length (healthy_labels healthy xs)) (take_empty (max - i)))
loop_replicas max healthy i (n ∷ ns) = elim (left_cases max i) [
  | inl (e, above) ↦
      let e0 : max - suc i ≡ 0 = omega (arith, e) in
      elim (Bool-cases (has n.label healthy)) [
        | inl well ↦ rw well (
            loop_found max healthy (suc i) ns n.label []
            ∙ ap (λ j. n.label ∷ healthy_labels healthy (take j ns)) e0
            ∙ sym (replicas_zero_well healthy n ns well)
            ∙ ap (λ j. replicas j healthy (n ∷ ns)) (sym e))
        | inr ill ↦ rw ill (
            loop_replicas max healthy (suc i) ns
            ∙ ap (λ j. replicas j healthy ns) e0
            ∙ sym (replicas_zero_ill healthy n ns ill)
            ∙ ap (λ j. replicas j healthy (n ∷ ns)) (sym e))
      ]
  | inr (k, e, e', below) ↦ elim (Bool-cases (has n.label healthy)) [
    | inl well ↦ rw well (
        loop_found max healthy (suc i) ns n.label []
        ∙ ap (λ j. n.label ∷ healthy_labels healthy (take j ns)) e'
        ∙ sym (replicas_well healthy n ns k well)
        ∙ ap (λ j. replicas j healthy (n ∷ ns)) (sym e))
    | inr ill ↦ rw ill (
        loop_replicas max healthy (suc i) ns
        ∙ ap (λ j. replicas j healthy ns) e'
        ∙ sym (replicas_ill healthy n ns k ill)
        ∙ ap (λ j. replicas j healthy (n ∷ ns)) (sym e))
  ]
]
