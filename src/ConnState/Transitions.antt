-- ===== src/ConnState/Transitions.antt =====
-- The status of each connection: which call moves it along which edge, and when a pending one is
-- added.
use kraken.Base.{
  ℕ, ◌≤◌, false, none, some, List, [], ◌∷◌, length, select, if◌then◌else◌, ◌&&◌, ◌||◌, ◌==◌, has,
  get, size, ◌≡◌, refl, arith, ◌≢◌, ◌⊎◌, inl, inr, Option-cases,
}
use kraken.ConnState.Peers.{IsValid, EntryIsValid}
use kraken.ConnState.{
  State, Status, Entry, uninit, pending, active, is_pending, is_active, Error, peers_of, get_entry,
  num_mutual_conns, add_blacklist, clear_blacklist, add_pending, delete_pending, pending_entry,
  Call, calls_blacklist, calls_clear, calls_add_pending, calls_delete_pending, calls_move,
  calls_delete_active, step,
}
use kraken.ConnState.Entries.{
  get_entry-put_entry, get_entry-delete_entry, get_entry-move, get_entry-delete_active,
}

abbrev pub status_of : ℕ → ℕ → State → Status
status_of h p s = (get_entry h p s).status

-- The edges along which a call may move the status of the connection to `p` for torrent `h`.
abbrev pub Edge : ℕ → ℕ → Call → Status → Status → Type 0
Edge h p (calls_add_pending q j ids) x y =
    (x ≡ y) ⊎ ((q ≡ p) × (j ≡ h) × (x ≡ uninit) × (y ≡ pending))
Edge h p (calls_delete_pending q j) x y =
    (x ≡ y) ⊎ ((q ≡ p) × (j ≡ h) × (x ≡ pending) × (y ≡ uninit))
Edge h p (calls_move closed c) x y =
    (x ≡ y)
    ⊎ ((closed ≡ false) × (c.peer_id ≡ p) × (c.info_hash ≡ h) × (x ≡ pending) × (y ≡ active))
Edge h p (calls_delete_active c) x y =
    (x ≡ y) ⊎ ((c.peer_id ≡ p) × (c.info_hash ≡ h) × (x ≡ active) × (y ≡ uninit))
Edge h p (calls_blacklist now q j) x y = x ≡ y
Edge h p (calls_clear j) x y = x ≡ y

pub step-Edge :
    (h p : ℕ) (s : State) (c : Call) → Edge h p c (status_of h p s) (status_of h p (step s c))
unfolding step
step-Edge h p s (calls_blacklist now q j) = unfold add_blacklist get_entry peers_of in ground arith
step-Edge h p s (calls_clear j) = unfold clear_blacklist get_entry peers_of in ground arith
step-Edge h p s (calls_add_pending q j ids) =
    unfold add_pending in ground (arith, get_entry-put_entry j q h p pending_entry s)
step-Edge h p s (calls_delete_pending q j) =
    unfold delete_pending in ground (arith, get_entry-delete_entry j q h p s)
step-Edge h p s (calls_move closed c) = ground (arith, get_entry-move h p closed c s)
step-Edge h p s (calls_delete_active c) = ground (arith, get_entry-delete_active h p c s)

-- What `AddPending` asks for, in terms of which peers have an entry for the torrent.
abbrev pub Admissible : ℕ → ℕ → List ℕ → State → Type 0
Admissible p h ids s =
    (size (peers_of h s) ≢ s.config.max_open_connections_per_torrent)
    × (has p (peers_of h s) ≡ false)
    × (length (select (λ q. has q (peers_of h s)) ids) ≤ s.config.max_mutual_connections)

-- The entries of one state are those of another, apart from a pending one for the connection.
abbrev pub AddsPending : ℕ → ℕ → State → State → Type 0
AddsPending p h s t =
    (j q : ℕ) → get_entry j q t ≡ (if (h == j) && (p == q) then pending_entry else get_entry j q s)

peers_of-EntryIsValid :
    (h p : ℕ) (e : Entry) (s : State)
    → IsValid s
    → get p (peers_of h s) ≡ some e
    → EntryIsValid h p e
unfolding peers_of get
peers_of-EntryIsValid h p e s v there = elim (Option-cases (get h s.conns)) [
  | inl gone ↦ absurd (ground (arith, gone, there))
  | inr (m, known) ↦ (v.peers h m known).entries p e (ground (arith, known, there))
]

-- In a well-formed state, an entry that is there is pending or active.
has-status :
    (h p : ℕ) (s : State)
    → IsValid s
    → has p (peers_of h s)
      ≡ (is_pending (get_entry h p s).status || is_active (get_entry h p s).status)
unfolding get_entry
has-status h p s v = elim (Option-cases (get p (peers_of h s))) [
  | inl gone ↦ ground (arith, gone)
  | inr (e, there) ↦ ground (arith, there, peers_of-EntryIsValid h p e s v there)
]

num_mutual_conns-counts :
    (h : ℕ) (ids : List ℕ) (s : State)
    → IsValid s
    → num_mutual_conns h ids s ≡ length (select (λ q. has q (peers_of h s)) ids)
unfolding num_mutual_conns
num_mutual_conns-counts h [] s v = refl
num_mutual_conns-counts h (q ∷ ids) s v =
    ground (arith, has-status h q s v, num_mutual_conns-counts h ids s v)

add_pending-Admissible :
    (p h : ℕ) (ids : List ℕ) (s : State)
    → IsValid s
    → (add_pending p h ids s).1 ≡ none
    → Admissible p h ids s
unfolding add_pending
add_pending-Admissible p h ids s v fine =
    ground (arith, fine, has-status h p s v, num_mutual_conns-counts h ids s v)

Admissible-fine :
    (p h : ℕ) (ids : List ℕ) (s : State)
    → IsValid s
    → Admissible p h ids s
    → (add_pending p h ids s).1 ≡ none
unfolding add_pending
Admissible-fine p h ids s v would =
    ground (arith, would, has-status h p s v, num_mutual_conns-counts h ids s v)

-- In a well-formed state, `AddPending` succeeds exactly if the torrent is not at its capacity, the
-- peer has no entry for it, and at most `MaxMutualConnections` of the neighbours have one; then it
-- adds a pending entry for the peer and changes no other entry, and otherwise it changes nothing.
pub add_pending-decides :
    (p h : ℕ) (ids : List ℕ) (s : State)
    → IsValid s
    → (((add_pending p h ids s).1 ≡ none)
        × Admissible p h ids s
        × AddsPending p h s (add_pending p h ids s).0)
      ⊎ ((e : Error) × ((add_pending p h ids s).1 ≡ some e)
          × ¬ Admissible p h ids s
          × ((add_pending p h ids s).0 ≡ s))
add_pending-decides p h ids s v = elim (Option-cases (add_pending p h ids s).1) [
  | inl fine ↦ inl (
    fine,
    add_pending-Admissible p h ids s v fine,
    λ j q. unfold add_pending in ground (arith, fine, get_entry-put_entry h p j q pending_entry s),
  )
  | inr (e, refused) ↦ inr (
    e,
    refused,
    λ would. ground (arith, Admissible-fine p h ids s v would, refused),
    unfold add_pending in ground (arith, refused),
  )
]
