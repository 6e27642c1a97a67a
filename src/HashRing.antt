-- ===== src/HashRing.antt =====
-- lib/hashring/ring.go on lib/hrw/rendezvous.go: which origins own a blob. The scores of the nodes
-- for a key are an argument, as numbers in the order of the floating-point scores; so is `sort`,
-- Go's `sort.Sort` by descending score. The keys are the digests' shards, and hosts are numbered.
-- The loops over sets run in the order of the list. The model has one watcher.
pub mod Locations
pub mod Members
pub mod Placing
mod Tests
use kraken.Base.{
  ℕ, zero, suc, ◌-◌, Bool, true, false, not, Option, none, some, List, [], ◌∷◌, ◌++◌, if◌then◌else◌,
  ◌==◌, ◌&&◌, ◌||◌, leb, ltb, length, map, take, has, size,
}
use kraken.StringSet.{StringSet, equal, copy}

pub record Node : Type 0 where
  pub label : ℕ
  pub weight : ℕ

unfoldable pub add_node : ℕ → ℕ → List Node → List Node
add_node seed weight nodes = nodes ++ record { label = seed; weight = weight } ∷ []

unfoldable pub remove_node : ℕ → List Node → List Node
remove_node name [] = []
remove_node name (n ∷ ns) = if n.label == name then ns else n ∷ remove_node name ns

-- The node of a name; the index is left out.
unfoldable pub get_node : ℕ → List Node → Option Node
get_node name [] = none
get_node name (n ∷ ns) = if n.label == name then some n else get_node name ns

-- A sort: by a score, highest first.
abbrev pub Sort : Type 0
Sort = (Node → ℕ) → List Node → List Node

unfoldable pub get_ordered_nodes : Sort → (Node → ℕ) → ℕ → List Node → List Node
get_ordered_nodes sort score n nodes =
    let ordered = sort score nodes in if leb (length ordered) n then ordered else take n ordered

abbrev pub default_weight : ℕ
default_weight = 100

pub record Ring : Type 0 where
  pub max_replica : ℕ
  pub addrs : StringSet
  pub hash : List Node
  pub healthy : StringSet
  pub notified : List StringSet

-- The ring before the first `Refresh` of `New`.
unfoldable pub init : ℕ → Ring
init max_replica = record {
  max_replica = if max_replica == 0 then 3 else max_replica;
  addrs = [];
  hash = [];
  healthy = [];
  notified = [];
}

unfoldable pub add_nodes : StringSet → List Node → List Node
unfolding add_node
add_nodes [] nodes = nodes
add_nodes ((addr, u) ∷ s) nodes = add_nodes s (add_node addr default_weight nodes)

-- `latest` is what the cluster resolves to, and `healthy` what the filter answers for it.
unfoldable pub refresh : StringSet → StringSet → Ring → Ring
unfolding add_nodes
refresh latest healthy r =
    if equal r.addrs latest then record r { addrs = latest; healthy = healthy } else record r {
      addrs = latest;
      healthy = healthy;
      hash = add_nodes latest [];
      notified = r.notified ++ copy latest ∷ [];
    }

unfoldable pub contains : ℕ → Ring → Bool
contains addr r = has addr r.addrs

-- The loop of `Locations`, at index `i`.
unfoldable pub locations_loop : ℕ → StringSet → ℕ → List Node → List ℕ → List ℕ
locations_loop max healthy i [] locs = locs
locations_loop max healthy i (n ∷ ns) locs =
    let found = locations_loop max healthy (suc i) ns (locs ++ n.label ∷ []) in
    let next = locations_loop max healthy (suc i) ns locs in
    if (length locs == 0) || ltb i max then if has n.label healthy then found else next else locs

-- `none` where the process ends: the nodes are not as many as the addresses, or there are none.
unfoldable pub locations : Sort → (Node → ℕ) → Ring → Option (List ℕ)
unfolding get_ordered_nodes locations_loop
locations sort score r =
    let nodes = get_ordered_nodes sort score (size r.addrs) r.hash in
    if not (length nodes == size r.addrs)
    then none
    else if size r.healthy == 0
    then elim nodes [ [] ↦ none | n ∷ ns ↦ some (n.label ∷ []) ]
    else some (locations_loop r.max_replica r.healthy 0 nodes [])

-- Refreshes, each with its membership and its healthy hosts.
unfoldable pub run : List (StringSet × StringSet) → Ring → Ring
unfolding refresh
run [] r = r
run ((latest, healthy) ∷ rs) r = run rs (refresh latest healthy r)
