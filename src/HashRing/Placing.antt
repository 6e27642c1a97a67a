-- ===== src/HashRing/Placing.antt =====
-- Where blobs are placed: the healthy hosts in the order of the scores.
use kraken.Base.{
  ℕ, zero, suc, ◌-◌, ◌≤◌, ◌<◌, true, false, Option, some, List, [], ◌∷◌, ◌==◌, leb, length,
  length-take, take, get, has, size, ◌≡◌, refl, sym, ap, ◌∙◌, subst, arith, Bool-cases, if-cases,
  inl, inr, tally, count, eq-cases,
}
use kraken.StringSet.{StringSet}
use kraken.HashRing.{Node, Sort, get_ordered_nodes, Ring, init, refresh, locations, run}
use kraken.HashRing.Locations.{healthy_labels, replicas, loop_replicas}
use kraken.HashRing.Members.{
  labelled, Permutes, IsValid, AllResolved, size-run, run-IsValid_refreshed, init-IsValid,
  refresh-IsValid,
}

length-tally : (xs : List Node) → tally (λ n. true) xs ≡ length xs
length-tally [] = refl
length-tally (x ∷ xs) = ap suc (length-tally xs)

-- What a replica set holds: healthy nodes, and one at least if there is one.
healthy_labels-healthy :
    (healthy : StringSet) (ns : List Node) (x : ℕ)
    → 0 < count x (healthy_labels healthy ns)
    → has x healthy ≡ true
healthy_labels-healthy healthy [] x there = ground (arith, there)
healthy_labels-healthy healthy (n ∷ ns) x there = elim (Bool-cases (has n.label healthy)) [
  | inr ill ↦ healthy_labels-healthy healthy ns x (rw ill at there)
  | inl well ↦ elim (eq-cases n.label x) [
    | inl same ↦ subst (λ y. has y healthy ≡ true) same well
    | inr other ↦ healthy_labels-healthy healthy ns x (ground (arith, other, rw well at there))
  ]
]

healthy_labels-some :
    (healthy : StringSet) (ns : List Node) (x : ℕ)
    → has x healthy ≡ true
    → 0 < labelled x ns
    → 0 < length (healthy_labels healthy ns)
healthy_labels-some healthy [] x well there = ground (arith, there)
healthy_labels-some healthy (n ∷ ns) x well there = elim (eq-cases n.label x) [
  | inl same ↦
      let here : has n.label healthy ≡ true = subst (λ y. has y healthy ≡ true) (sym same) well in
      rw here (omega arith)
  | inr other ↦
      let rest = healthy_labels-some healthy ns x well (ground (arith, other, there)) in
      if-cases (λ l. 0 < length l) (has n.label healthy) (n.label ∷ healthy_labels healthy ns) _
        (λ h. omega arith) (λ h. rest)
]

replicas-some :
    (max : ℕ) (healthy : StringSet) (ns : List Node) (x : ℕ)
    → has x healthy ≡ true
    → 0 < labelled x ns
    → 0 < length (replicas max healthy ns)
unfolding replicas
replicas-some max healthy ns x well there =
    let first = healthy_labels healthy (take max ns) in
    if-cases (λ l. 0 < length l) (length first == 0) (take 1 (healthy_labels healthy ns)) first
      (λ none_first. omega (
        arith,
        length-take 1 (healthy_labels healthy ns),
        healthy_labels-some healthy ns x well there,
      ))
      (λ some_first. ground (arith, some_first))

count-take : (x k : ℕ) (xs : List ℕ) → count x (take k xs) ≤ count x xs
count-take x zero xs = omega arith
count-take x (suc k) [] = omega arith
count-take x (suc k) (y ∷ ys) = ground (arith, count-take x k ys)

replicas-healthy :
    (max : ℕ) (healthy : StringSet) (ns : List Node) (x : ℕ)
    → 0 < count x (replicas max healthy ns)
    → has x healthy ≡ true
unfolding replicas
replicas-healthy max healthy ns x =
    let first = healthy_labels healthy (take max ns) in
    let all = healthy_labels healthy ns in
    if-cases (λ l. 0 < count x l → has x healthy ≡ true) (length first == 0) (take 1 all) first
      (λ none_first there.
        healthy_labels-healthy healthy ns x (omega (arith, there, count-take x 1 all)))
      (λ some_first there. healthy_labels-healthy healthy (take max ns) x there)

length-sort :
    (sort : Sort) (score : Node → ℕ) (r : Ring)
    → Permutes sort
    → IsValid r
    → length (sort score r.hash) ≡ size r.addrs
length-sort sort score r permutes v =
    sym (length-tally (sort score r.hash))
    ∙ permutes score (λ n. true) r.hash
    ∙ length-tally r.hash
    ∙ v.sizes

-- The nodes in the order of their scores, all of them.
ordered-all :
    (sort : Sort) (score : Node → ℕ) (r : Ring)
    → Permutes sort
    → IsValid r
    → get_ordered_nodes sort score (size r.addrs) r.hash ≡ sort score r.hash
unfolding get_ordered_nodes
ordered-all sort score r permutes v =
    let fits : leb (length (sort score r.hash)) (size r.addrs) ≡ true =
      ground (arith, length-sort sort score r permutes v) in
    rw fits

-- While some hosts are healthy, `Locations` answers the healthy ones among the first nodes in the
-- order of the scores, as many nodes as there are replicas, and where these have none, the first
-- healthy one; for a sort that permutes the nodes, and a well-formed ring.
pub locations-replicas :
    (sort : Sort) (score : Node → ℕ) (r : Ring)
    → Permutes sort
    → IsValid r
    → 0 < size r.healthy
    → locations sort score r ≡ some (replicas r.max_replica r.healthy (sort score r.hash))
unfolding locations
locations-replicas sort score r permutes v some_healthy =
    let all = (length (sort score r.hash) == size r.addrs) in
    let fits : all ≡ true = ground (arith, length-sort sort score r permutes v) in
    let well : (size r.healthy == 0) ≡ false = ground (arith, some_healthy) in
    let whole : r.max_replica - 0 ≡ r.max_replica = omega arith in
    rw (ordered-all sort score r permutes v, fits, well)
      (ap some (
        loop_replicas r.max_replica r.healthy 0 (sort score r.hash)
        ∙ ap (λ k. replicas k r.healthy (sort score r.hash)) whole))

-- While no host is healthy, the first node is the location.
locations-first :
    (sort : Sort) (score : Node → ℕ) (r : Ring) (n : Node) (ns : List Node)
    → Permutes sort
    → IsValid r
    → size r.healthy ≡ 0
    → sort score r.hash ≡ n ∷ ns
    → locations sort score r ≡ some (n.label ∷ [])
unfolding locations
locations-first sort score r n ns permutes v none_healthy front =
    let fits : (length (n ∷ ns) == size r.addrs) ≡ true =
      ground (arith, ap length front, length-sort sort score r permutes v) in
    let ill : (size r.healthy == 0) ≡ true = ground (arith, none_healthy) in
    rw (ordered-all sort score r permutes v, front, fits, ill)

-- A blob has some locations; each is in the ring, and is healthy if any host is.
abbrev pub Placed : Ring → Option (List ℕ) → Type 0
Placed r locs =
    (ls : List ℕ) × (locs ≡ some ls)
    × (0 < length ls)
    × ((x : ℕ) → 0 < count x ls → has x r.addrs ≡ true)
    × (0 < size r.healthy → (x : ℕ) → 0 < count x ls → has x r.healthy ≡ true)

first_host : (s : StringSet) → 0 < size s → (x : ℕ) × (has x s ≡ true)
unfolding get
first_host [] some_host = ground (arith, some_host)
first_host ((x, u) ∷ s) some_host = (x, ground arith)

IsValid-Placed :
    (sort : Sort) (score : Node → ℕ) (r : Ring)
    → Permutes sort
    → IsValid r
    → 0 < size r.addrs
    → Placed r (locations sort score r)
IsValid-Placed sort score r permutes v some_host = elim (Bool-cases (size r.healthy == 0)) [
  | inr well ↦
      let some_healthy : 0 < size r.healthy = ground (arith, well) in
      let nodes = sort score r.hash in
      let (x, healthy_x) = first_host r.healthy some_healthy in
      let there : 0 < labelled x nodes =
        omega (
          arith,
          permutes score (λ n. n.label == x) r.hash,
          (v.labels x).0 (v.inside x healthy_x),
        ) in
      let inside = replicas-healthy r.max_replica r.healthy nodes in
      (
        replicas r.max_replica r.healthy nodes,
        locations-replicas sort score r permutes v some_healthy,
        replicas-some r.max_replica r.healthy nodes x healthy_x there,
        λ y c. v.inside y (inside y c),
        λ s y c. inside y c,
      )
  | inl ill ↦ first (sort score r.hash) refl (ground (arith, ill))
]
  where
    first :
        (nodes : List Node)
        → sort score r.hash ≡ nodes
        → size r.healthy ≡ 0
        → Placed r (locations sort score r)
    first [] e none_healthy =
        ground (arith, some_host, ap length e, length-sort sort score r permutes v)
    first (n ∷ ns) e none_healthy = (
      n.label ∷ [],
      locations-first sort score r n ns permutes v none_healthy e,
      omega arith,
      λ x c.
          let same : n.label ≡ x = ground (arith, c) in
          let there : 0 < labelled x (n ∷ ns) = ground (arith, same) in
          (v.labels x).1
            (omega (arith, permutes score (λ m. m.label == x) r.hash, ap (labelled x) e, there)),
      λ s x c. ground (arith, s, none_healthy),
    )

-- A ring that was refreshed always has a location for a blob: the process does not end, each
-- location is in the ring, and is healthy if any host is; for a sort that permutes the nodes, and
-- answers of the cluster and the filter with some hosts, each once, of which some may be healthy.
pub run-locations-Placed :
    (sort : Sort) (score : Node → ℕ) (max : ℕ) (latest healthy : StringSet)
    (rs : List (StringSet × StringSet))
    → Permutes sort
    → AllResolved ((latest, healthy) ∷ rs)
    → Placed
        (run ((latest, healthy) ∷ rs) (init max))
        (locations sort score (run ((latest, healthy) ∷ rs) (init max)))
unfolding run
run-locations-Placed sort score max latest healthy rs permutes (o, os) =
    let r = refresh latest healthy (init max) in
    IsValid-Placed sort score (run rs r) permutes
      (run-IsValid_refreshed rs r os
        (refresh-IsValid latest healthy (init max) o (init-IsValid max)))
      (size-run rs r os (unfold refresh in ground (arith, o.0)))
