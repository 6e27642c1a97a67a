-- ===== src/HashRing/Members.antt =====
-- The ring's nodes are its addresses, and a blob always has a location.
use kraken.Base.{
  ℕ, ◌+◌, ◌<◌, Bool, true, List, [], ◌∷◌, ◌++◌, ◌==◌, length, get, has, size, ◌≡◌, refl, ◌∙◌, arith,
  if-cases, ◌⊎◌, ◌↔◌, tally, tally-append, length-append, Distinct,
}
use kraken.StringSet.{StringSet, equal}
use kraken.StringSet.Members.{equal_iff}
use kraken.HashRing.{Node, Sort, Ring, init, add_node, add_nodes, refresh, run, default_weight}

-- How many nodes have the label.
abbrev pub labelled : ℕ → List Node → ℕ
labelled x nodes = tally (λ n. n.label == x) nodes

-- A sort only permutes the nodes.
abbrev pub Permutes : Sort → Type 0
Permutes sort =
    (score : Node → ℕ) (p : Node → Bool) (xs : List Node) → tally p (sort score xs) ≡ tally p xs

-- As many nodes as addresses, with the addresses as labels; healthy addresses are in the ring.
pub record IsValid (r : Ring) : Type 0 where
  pub sizes : length r.hash ≡ size r.addrs
  pub labels : (x : ℕ) → (has x r.addrs ≡ true) ↔ (0 < labelled x r.hash)
  pub distinct : Distinct r.addrs
  pub inside : (x : ℕ) → has x r.healthy ≡ true → has x r.addrs ≡ true

-- What the cluster and the filter answer: some hosts, each once, of which some are healthy.
abbrev pub Resolved : StringSet × StringSet → Type 0
Resolved (latest, healthy) =
    (0 < size latest) × Distinct latest × ((x : ℕ) → has x healthy ≡ true → has x latest ≡ true)

abbrev pub AllResolved : List (StringSet × StringSet) → Type 0
AllResolved [] = Unit
AllResolved (p ∷ ps) = Resolved p × AllResolved ps

length-add_nodes : (s : StringSet) (ns : List Node) → length (add_nodes s ns) ≡ length ns + size s
unfolding add_nodes add_node
length-add_nodes [] ns = omega arith
length-add_nodes ((x, u) ∷ s) ns =
    let n : Node = record { label = x; weight = default_weight } in
    ground (arith, length-add_nodes s (ns ++ n ∷ []), length-append ns (n ∷ []))

labelled-add_nodes :
    (y : ℕ) (s : StringSet) (ns : List Node)
    → (0 < labelled y (add_nodes s ns)) ↔ ((has y s ≡ true) ⊎ (0 < labelled y ns))
unfolding add_nodes add_node get
labelled-add_nodes y [] ns = ground arith
labelled-add_nodes y ((x, u) ∷ s) ns =
    let n : Node = record { label = x; weight = default_weight } in
    ground
      (arith, labelled-add_nodes y s (ns ++ n ∷ []), tally-append (λ m. m.label == y) ns (n ∷ []))

size-equal : (s1 s2 : StringSet) → equal s1 s2 ≡ true → size s1 ≡ size s2
unfolding equal
size-equal s1 s2 same = ground (arith, same)

pub refresh-IsValid :
    (latest healthy : StringSet) (r : Ring)
    → Resolved (latest, healthy)
    → IsValid r
    → IsValid (refresh latest healthy r)
unfolding refresh
refresh-IsValid latest healthy r (some_host, distinct, inside) v =
    if-cases IsValid (equal r.addrs latest) (record r { addrs = latest; healthy = healthy }) _
      (λ same.
        let members = (equal_iff r.addrs latest v.distinct distinct).0 same in
        record {
          sizes = v.sizes ∙ size-equal r.addrs latest same;
          labels = λ x. ground (arith, v.labels x, members x);
          distinct = distinct;
          inside = inside;
        })
      (λ changed. record {
        sizes = length-add_nodes latest [] ∙ (omega arith);
        labels = λ x. ground (arith, labelled-add_nodes x latest []);
        distinct = distinct;
        inside = inside;
      })

pub init-IsValid : (max : ℕ) → IsValid (init max)
unfolding init get
init-IsValid max = record {
  sizes = refl;
  labels = λ x. ground arith;
  distinct = tt;
  inside = λ x there. there;
}

pub run-IsValid_refreshed :
    (rs : List (StringSet × StringSet)) (r : Ring) → AllResolved rs → IsValid r → IsValid (run rs r)
unfolding run
run-IsValid_refreshed [] r o v = v
run-IsValid_refreshed ((latest, healthy) ∷ rs) r (o, os) v =
    run-IsValid_refreshed rs (refresh latest healthy r) os (refresh-IsValid latest healthy r o v)

-- The ring has addresses once it was refreshed.
pub size-run :
    (rs : List (StringSet × StringSet)) (r : Ring)
    → AllResolved rs
    → 0 < size r.addrs
    → 0 < size (run rs r).addrs
unfolding run
size-run [] r o some_host = some_host
size-run ((latest, healthy) ∷ rs) r (o, os) some_host =
    size-run rs (refresh latest healthy r) os (unfold refresh in ground (arith, o.0))
