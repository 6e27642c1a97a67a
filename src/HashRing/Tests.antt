-- ===== src/HashRing/Tests.antt =====
-- A ring of three hosts, and each theorem at it.
use kraken.Base.{
  ℕ, Bool, true, some, List, [], ◌∷◌, if◌then◌else◌, ◌≡◌, refl, leb, ◌<◌, arith, tally, get, has,
  size,
}
use kraken.StringSet.{StringSet, equal, copy, subset_loop}
use kraken.HashRing.{
  Node, Sort, Ring, init, refresh, run, locations, get_ordered_nodes, locations_loop, add_nodes,
  add_node,
}
use kraken.HashRing.Locations.{replicas}
use kraken.HashRing.Members.{Permutes, IsValid, AllResolved, run-IsValid_refreshed, init-IsValid}
use kraken.HashRing.Placing.{locations-replicas, Placed, run-locations-Placed}

insert_node : (Node → ℕ) → Node → List Node → List Node
insert_node score n [] = n ∷ []
insert_node score n (m ∷ ms) =
    if leb (score m) (score n) then n ∷ m ∷ ms else m ∷ insert_node score n ms

insertion_sort : Sort
unfolding insert_node
insertion_sort score [] = []
insertion_sort score (n ∷ ns) = insert_node score n (insertion_sort score ns)

tally-insert_node :
    (score : Node → ℕ) (p : Node → Bool) (n : Node) (ns : List Node)
    → tally p (insert_node score n ns) ≡ tally p (n ∷ ns)
unfolding insert_node
tally-insert_node score p n [] = refl
tally-insert_node score p n (m ∷ ms) = ground (arith, tally-insert_node score p n ms)

insertion_sort-Permutes : Permutes insertion_sort
unfolding insertion_sort
insertion_sort-Permutes score p [] = refl
insertion_sort-Permutes score p (n ∷ ns) = ground (
  arith,
  tally-insert_node score p n (insertion_sort score ns),
  insertion_sort-Permutes score p ns,
)

-- Three hosts, of which the last one is unhealthy; then only the first one is healthy.
abbrev hosts : StringSet
hosts = (1, tt) ∷ (2, tt) ∷ (3, tt) ∷ []

abbrev two_healthy : StringSet
two_healthy = (1, tt) ∷ (2, tt) ∷ []

abbrev one_healthy : StringSet
one_healthy = (1, tt) ∷ []

abbrev ring : Ring
ring = run ((hosts, two_healthy) ∷ (hosts, one_healthy) ∷ []) (init 2)

-- Host 3 has the highest score.
abbrev score : Node → ℕ
score n = n.label

program : Unit {0}
unfolding run init refresh locations get_ordered_nodes locations_loop add_nodes add_node
    insertion_sort insert_node get equal subset_loop copy
program = tt

next_healthy : locations insertion_sort score ring ≡ some (1 ∷ [])
unfolding program
next_healthy = refl

subset : (x : ℕ) → has x two_healthy ≡ true → has x hosts ≡ true
unfolding get
subset x there = ground (arith, there)

subset_one : (x : ℕ) → has x one_healthy ≡ true → has x hosts ≡ true
unfolding get
subset_one x there = ground (arith, there)

resolved : AllResolved ((hosts, two_healthy) ∷ (hosts, one_healthy) ∷ [])
unfolding get
resolved = (
  (omega arith, (refl, (refl, (refl, tt))), subset),
  ((omega arith, (refl, (refl, (refl, tt))), subset_one), tt),
)

ring-IsValid : IsValid ring
ring-IsValid =
    run-IsValid_refreshed ((hosts, two_healthy) ∷ (hosts, one_healthy) ∷ []) (init 2) resolved
      (init-IsValid 2)

one_left : 0 < size ring.healthy
unfolding program
one_left = omega arith

locations-replicas_example :
    locations insertion_sort score ring
    ≡ some (replicas ring.max_replica ring.healthy (insertion_sort score ring.hash))
locations-replicas_example =
    locations-replicas insertion_sort score ring insertion_sort-Permutes ring-IsValid one_left

run-locations-Placed_example : Placed ring (locations insertion_sort score ring)
run-locations-Placed_example =
    run-locations-Placed insertion_sort score 2 hosts two_healthy ((hosts, one_healthy) ∷ [])
      insertion_sort-Permutes resolved
