-- ===== src/ConnState/Events.antt =====
-- The network events that a `State` produces, against the connections that are active.
use kraken.Base.{
  ℕ, suc, ◌+◌, get, not, Bool, List, [], ◌∷◌, ◌++◌, if◌then◌else◌, ◌==◌, ◌&&◌, ◌≡◌, refl, sym,
  subst, arith,
}
use kraken.ConnState.{
  Config, State, Entry, init, Conn, NetworkEvent, add_active_conn, drop_active_conn, blacklist_conn,
  get_entry, peers_of, put_entry, delete_entry, add_blacklist, clear_blacklist, add_pending,
  delete_pending, move_pending_to_active, delete_active, Call, calls_blacklist, calls_clear,
  calls_add_pending, calls_delete_pending, calls_move, calls_delete_active, step, run, is_active,
  is_pending, same_conn,
}
use kraken.ConnState.Entries.{get_entry-move, get_entry-delete_active}
use kraken.ConnState.Transitions.{status_of, step-Edge}

-- How often a connection was reported as added, and as dropped.
abbrev pub adds : ℕ → ℕ → List NetworkEvent → ℕ
adds h p [] = 0
adds h p (add_active_conn j self q ∷ es) =
    if (j == h) && (q == p) then suc (adds h p es) else adds h p es
adds h p (e ∷ es) = adds h p es

abbrev pub drops : ℕ → ℕ → List NetworkEvent → ℕ
drops h p [] = 0
drops h p (drop_active_conn j self q ∷ es) =
    if (j == h) && (q == p) then suc (drops h p es) else drops h p es
drops h p (e ∷ es) = drops h p es

adds-append :
    (h p : ℕ) (xs ys : List NetworkEvent) → adds h p (xs ++ ys) ≡ adds h p xs + adds h p ys
adds-append h p [] ys = omega arith
adds-append h p (add_active_conn j self q ∷ xs) ys = ground (arith, adds-append h p xs ys)
adds-append h p (drop_active_conn j self q ∷ xs) ys = adds-append h p xs ys
adds-append h p (blacklist_conn j self q d ∷ xs) ys = adds-append h p xs ys

drops-append :
    (h p : ℕ) (xs ys : List NetworkEvent) → drops h p (xs ++ ys) ≡ drops h p xs + drops h p ys
drops-append h p [] ys = omega arith
drops-append h p (drop_active_conn j self q ∷ xs) ys = ground (arith, drops-append h p xs ys)
drops-append h p (add_active_conn j self q ∷ xs) ys = drops-append h p xs ys
drops-append h p (blacklist_conn j self q d ∷ xs) ys = drops-append h p xs ys

-- A connection was reported as added once more than as dropped exactly while it is active.
abbrev pub Accounts : ℕ → ℕ → List NetworkEvent → Bool → Type 0
Accounts h p es live = adds h p es ≡ drops h p es + (if live then 1 else 0)

abbrev pub Balanced : ℕ → ℕ → State → Type 0
Balanced h p s = Accounts h p s.produced (is_active (status_of h p s))

-- To show the balance of a state, show it of events and of a status that equal the state's.
Balanced-of :
    (h p : ℕ) (t : State) (es : List NetworkEvent) (e : Entry)
    → t.produced ≡ es
    → get_entry h p t ≡ e
    → Accounts h p es (is_active e.status)
    → Balanced h p t
Balanced-of h p t es e f g a =
    subst (λ l. Accounts h p l (is_active (status_of h p t))) (sym f)
      (subst (λ x. Accounts h p es (is_active x.status)) (sym g) a)

-- What each call appends to the events.
produced-move :
    (closed : Bool) (c : Conn) (s : State)
    → (move_pending_to_active closed c s).0.produced ≡ (
        if not closed && is_pending (status_of c.info_hash c.peer_id s)
        then s.produced ++ add_active_conn c.info_hash s.local_peer_id c.peer_id ∷ []
        else s.produced)
unfolding move_pending_to_active
produced-move closed c s = ground arith

produced-delete_active :
    (c : Conn) (s : State)
    → (delete_active c s).produced ≡ (
        if is_active (status_of c.info_hash c.peer_id s)
          && same_conn (get_entry c.info_hash c.peer_id s).conn c
        then s.produced ++ drop_active_conn c.info_hash s.local_peer_id c.peer_id ∷ []
        else s.produced)
unfolding delete_active
produced-delete_active c s = ground arith

produced-add_pending :
    (p h : ℕ) (ids : List ℕ) (s : State) → (add_pending p h ids s).0.produced ≡ s.produced
unfolding add_pending put_entry
produced-add_pending p h ids s = ground arith

produced-delete_pending : (p h : ℕ) (s : State) → (delete_pending p h s).produced ≡ s.produced
unfolding delete_pending delete_entry
produced-delete_pending p h s = ground arith

-- A call that leaves the events and the activity of a connection alone keeps the balance.
keep_Balanced :
    (h p : ℕ) (s t : State)
    → t.produced ≡ s.produced
    → is_active (status_of h p t) ≡ is_active (status_of h p s)
    → Balanced h p s
    → Balanced h p t
keep_Balanced h p s t e f b =
    subst (λ l. Accounts h p l (is_active (status_of h p t))) (sym e)
      (subst (λ x. Accounts h p s.produced x) (sym f) b)

move-Balanced :
    (h p : ℕ) (closed : Bool) (c : Conn) (s : State)
    → Balanced h p s
    → Balanced h p (move_pending_to_active closed c s).0
move-Balanced h p closed c s b =
    Balanced-of h p _ _ _ (produced-move closed c s) (get_entry-move h p closed c s) (
      ground (
        arith,
        adds-append h p s.produced (add_active_conn c.info_hash s.local_peer_id c.peer_id ∷ []),
        drops-append h p s.produced (add_active_conn c.info_hash s.local_peer_id c.peer_id ∷ []),
      ))

delete_active-Balanced :
    (h p : ℕ) (c : Conn) (s : State) → Balanced h p s → Balanced h p (delete_active c s)
delete_active-Balanced h p c s b =
    Balanced-of h p _ _ _ (produced-delete_active c s) (get_entry-delete_active h p c s) (
      ground (
        arith,
        adds-append h p s.produced (drop_active_conn c.info_hash s.local_peer_id c.peer_id ∷ []),
        drops-append h p s.produced (drop_active_conn c.info_hash s.local_peer_id c.peer_id ∷ []),
      ))

blacklist-Balanced :
    (h p now q j : ℕ) (s : State) → Balanced h p s → Balanced h p (add_blacklist now q j s).0
unfolding add_blacklist get_entry peers_of
blacklist-Balanced h p now q j s b = ground (
  arith,
  adds-append h p s.produced (blacklist_conn j s.local_peer_id q s.config.blacklist_duration ∷ []),
  drops-append h p s.produced (blacklist_conn j s.local_peer_id q s.config.blacklist_duration ∷ []),
)

step-Balanced : (h p : ℕ) (s : State) (c : Call) → Balanced h p s → Balanced h p (step s c)
unfolding step
step-Balanced h p s (calls_blacklist now q j) b = blacklist-Balanced h p now q j s b
step-Balanced h p s (calls_clear j) b =
    keep_Balanced h p s (clear_blacklist j s) (unfold clear_blacklist in refl)
      (unfold clear_blacklist get_entry peers_of in refl) b
step-Balanced h p s (calls_add_pending q j ids) b =
    keep_Balanced h p s (add_pending q j ids s).0 (produced-add_pending q j ids s)
      (ground (arith, step-Edge h p s (calls_add_pending q j ids))) b
step-Balanced h p s (calls_delete_pending q j) b =
    keep_Balanced h p s (delete_pending q j s) (produced-delete_pending q j s)
      (ground (arith, step-Edge h p s (calls_delete_pending q j))) b
step-Balanced h p s (calls_move closed c) b = move-Balanced h p closed c s b
step-Balanced h p s (calls_delete_active c) b = delete_active-Balanced h p c s b

run-Balanced : (h p : ℕ) (s : State) (cs : List Call) → Balanced h p s → Balanced h p (run s cs)
unfolding run
run-Balanced h p s [] b = b
run-Balanced h p s (c ∷ cs) b = run-Balanced h p (step s c) cs (step-Balanced h p s c b)

-- After any calls on a new state, the reports of a connection as added outnumber those as dropped
-- by one while the connection is active, and equal them while it is not.
pub init-run-Balanced :
    (config : Config) (self h p : ℕ) (cs : List Call) → Balanced h p (run (init config self) cs)
init-run-Balanced config self h p cs =
    run-Balanced h p (init config self) cs (unfold init get_entry peers_of get in refl)
