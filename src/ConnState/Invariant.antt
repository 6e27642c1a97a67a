-- ===== src/ConnState/Invariant.antt =====
-- Every call on a `State` keeps it well-formed.
use kraken.Base.{
  ℕ, Bool, true, List, [], ◌∷◌, get, has, size, Distinct, ◌≡◌, refl, arith, ◌≢◌, ◌⊎◌, inl, inr, sym,
  subst, ◌∙◌,
}
use kraken.ConnState.{
  Config, apply_defaults, State, init, Conn, pending_entry, active_entry, peers_of, get_entry,
  put_entry, delete_entry, add_blacklist, clear_blacklist, add_pending, delete_pending,
  move_pending_to_active, delete_active, Call, calls_blacklist, calls_clear, calls_add_pending,
  calls_delete_pending, calls_move, calls_delete_active, step, run, is_pending,
}
use kraken.ConnState.Peers.{
  PeersAreValid, IsValid, peers_bounded, put_entry-IsValid, delete_entry-IsValid,
}

-- Events and the blacklist have no part in it.
same_conns : (s t : State) → t.conns ≡ s.conns → t.config ≡ s.config → IsValid s → IsValid t
same_conns s t e f v = record {
  distinct = subst Distinct (sym e) v.distinct;
  peers = λ h m g.
      subst (λ c. PeersAreValid c.max_open_connections_per_torrent h m) (sym f)
        (v.peers h m (ground arith));
}

add_pending-cases :
    (p h : ℕ) (ids : List ℕ) (s : State)
    → ((size (peers_of h s) ≢ s.config.max_open_connections_per_torrent)
        × ((add_pending p h ids s).0 ≡ put_entry h p pending_entry s))
      ⊎ ((add_pending p h ids s).0 ≡ s)
unfolding add_pending
add_pending-cases p h ids s = ground arith

add_pending-IsValid :
    (p h : ℕ) (ids : List ℕ) (s : State) → IsValid s → IsValid (add_pending p h ids s).0
add_pending-IsValid p h ids s v = elim (add_pending-cases p h ids s) [
  | inl (room, e) ↦ subst IsValid (sym e) (
      put_entry-IsValid h p pending_entry s v (inr (omega (arith, peers_bounded h s v)))
        (inl (refl, refl)))
  | inr e ↦ subst IsValid (sym e) v
]

has_pending :
    (h p : ℕ) (s : State) → is_pending (get_entry h p s).status ≡ true → has p (peers_of h s) ≡ true
unfolding get_entry
has_pending h p s e = ground arith

move-cases :
    (closed : Bool) (c : Conn) (s : State)
    → ((move_pending_to_active closed c s).0 ≡ s)
      ⊎ ((is_pending (get_entry c.info_hash c.peer_id s).status ≡ true)
          × ((move_pending_to_active closed c s).0.conns
              ≡ (put_entry c.info_hash c.peer_id (active_entry c) s).conns)
          × ((move_pending_to_active closed c s).0.config
              ≡ (put_entry c.info_hash c.peer_id (active_entry c) s).config))
unfolding move_pending_to_active
move-cases closed c s = ground arith

move-IsValid :
    (closed : Bool) (c : Conn) (s : State)
    → IsValid s
    → IsValid (move_pending_to_active closed c s).0
move-IsValid closed c s v = elim (move-cases closed c s) [
  | inl e ↦ subst IsValid (sym e) v
  | inr (was, e, f) ↦ same_conns (put_entry c.info_hash c.peer_id (active_entry c) s) _ e f (
      put_entry-IsValid c.info_hash c.peer_id (active_entry c) s v
        (inl (has_pending c.info_hash c.peer_id s was)) (inr (c, refl, refl, refl, refl)))
]

delete_pending-cases :
    (p h : ℕ) (s : State) → (delete_pending p h s ≡ s) ⊎ (delete_pending p h s ≡ delete_entry h p s)
unfolding delete_pending
delete_pending-cases p h s = ground arith

delete_active-cases :
    (c : Conn) (s : State)
    → (delete_active c s ≡ s)
      ⊎ (((delete_active c s).conns ≡ (delete_entry c.info_hash c.peer_id s).conns)
          × ((delete_active c s).config ≡ (delete_entry c.info_hash c.peer_id s).config))
unfolding delete_active
delete_active-cases c s = ground arith

add_blacklist-same :
    (now p h : ℕ) (s : State)
    → ((add_blacklist now p h s).0.conns ≡ s.conns)
      × ((add_blacklist now p h s).0.config ≡ s.config)
unfolding add_blacklist
add_blacklist-same now p h s = ground arith

step-IsValid : (s : State) (c : Call) → IsValid s → IsValid (step s c)
unfolding step
step-IsValid s (calls_blacklist now p h) v =
    let (e, f) = add_blacklist-same now p h s in same_conns s _ e f v
step-IsValid s (calls_clear h) v =
    same_conns s _ (unfold clear_blacklist in refl) (unfold clear_blacklist in refl) v
step-IsValid s (calls_add_pending p h ids) v = add_pending-IsValid p h ids s v
step-IsValid s (calls_delete_pending p h) v = elim (delete_pending-cases p h s) [
  | inl e ↦ subst IsValid (sym e) v
  | inr e ↦ subst IsValid (sym e) (delete_entry-IsValid h p s v)
]
step-IsValid s (calls_move closed c) v = move-IsValid closed c s v
step-IsValid s (calls_delete_active c) v = elim (delete_active-cases c s) [
  | inl e ↦ subst IsValid (sym e) v
  | inr (e, f) ↦
      same_conns (delete_entry c.info_hash c.peer_id s) _ e f
        (delete_entry-IsValid c.info_hash c.peer_id s v)
]

step-config : (s : State) (c : Call) → (step s c).config ≡ s.config
unfolding step put_entry delete_entry
step-config s (calls_blacklist now p h) = unfold add_blacklist in ground arith
step-config s (calls_clear h) = unfold clear_blacklist in refl
step-config s (calls_add_pending p h ids) = unfold add_pending in ground arith
step-config s (calls_delete_pending p h) = unfold delete_pending in ground arith
step-config s (calls_move closed c) = unfold move_pending_to_active in ground arith
step-config s (calls_delete_active c) = unfold delete_active in ground arith

run-config : (s : State) (cs : List Call) → (run s cs).config ≡ s.config
unfolding run
run-config s [] = refl
run-config s (c ∷ cs) = run-config (step s c) cs ∙ step-config s c

run-IsValid : (s : State) (cs : List Call) → IsValid s → IsValid (run s cs)
unfolding run
run-IsValid s [] v = v
run-IsValid s (c ∷ cs) v = run-IsValid (step s c) cs (step-IsValid s c v)

-- Any calls on a new state lead to a well-formed one: no torrent ever has more pending and active
-- connections together than `MaxOpenConnectionsPerTorrent`, no torrent is left with an empty map
-- of peers, no key stands twice, and an active entry holds a connection of its own torrent and
-- peer. The configuration stays the given one with its defaults filled in.
pub init-run-IsValid :
    (config : Config) (self : ℕ) (cs : List Call)
    → IsValid (run (init config self) cs)
      × ((run (init config self) cs).config ≡ apply_defaults config)
init-run-IsValid config self cs = (
  run-IsValid (init config self) cs new,
  run-config (init config self) cs ∙ (unfold init in refl),
)
  where
    new : IsValid (init config self)
    new = record {
      distinct = unfold init in tt;
      peers = λ h m g. absurd (unfold init get in ground arith);
    }
