-- ===== src/ConnState/Tests.antt =====
-- Runs of the connection state, and each theorem at concrete calls.
use kraken.Base.{◌≡◌, refl, List, [], ◌∷◌, true, false, none, some, arith, ◌⊎◌}
use kraken.ConnState.{
  Error, Config, State, init, apply_defaults, Conn, Call, calls_blacklist, calls_clear,
  calls_add_pending, calls_move, calls_delete_active, run, step, pending, active, add_pending,
  torrent_at_capacity, saturated, add_blacklist, blacklisted, get_entry, num_active,
  num_mutual_conns, expiration, put_expiration, delete_active, delete_pending,
  move_pending_to_active, put_entry, delete_entry, peers_of,
}
use kraken.ConnState.Blacklist.{add_blacklist_holds}
use kraken.ConnState.Events.{Balanced, init-run-Balanced}
use kraken.ConnState.Invariant.{init-run-IsValid}
use kraken.ConnState.Peers.{IsValid}
use kraken.ConnState.Transitions.{
  Edge, status_of, step-Edge, Admissible, AddsPending, add_pending-decides,
}
use kraken.Base.{get, put, del}

-- Two connections for each torrent at most, and blacklisting for ten nanoseconds.
abbrev small : Config
small = record {
  max_open_connections_per_torrent = 2;
  max_mutual_connections = 0;
  disable_blacklist = false;
  blacklist_duration = 10;
}

abbrev conn_a : Conn
conn_a = record { id = 1; info_hash = 7; peer_id = 100 }

abbrev calls : List Call
calls =
    calls_add_pending 100 7 []
    ∷ calls_add_pending 101 7 []
    ∷ calls_add_pending 102 7 []
    ∷ calls_move false conn_a
    ∷ []

abbrev busy : State
busy = run (init small 1) calls

program : Unit {0}
unfolding run init peers_of get_entry put_entry delete_entry num_mutual_conns add_pending
    delete_pending move_pending_to_active delete_active add_blacklist expiration put_expiration get
    put del saturated num_active
program = tt

third_refused : (add_pending 102 7 [] busy).1 ≡ some torrent_at_capacity
unfolding program
third_refused = refl

moved :
    (status_of 7 100 busy ≡ active) × (status_of 7 101 busy ≡ pending) × (saturated 7 busy ≡ false)
unfolding program
moved = (refl, refl, refl)

init-run-IsValid_example : IsValid busy × (busy.config ≡ apply_defaults small)
init-run-IsValid_example = init-run-IsValid small 1 calls

add_pending-decides_example :
    (((add_pending 102 7 (100 ∷ []) busy).1 ≡ none)
      × Admissible 102 7 (100 ∷ []) busy
      × AddsPending 102 7 busy (add_pending 102 7 (100 ∷ []) busy).0)
    ⊎ ((e : Error) × ((add_pending 102 7 (100 ∷ []) busy).1 ≡ some e)
        × ¬ Admissible 102 7 (100 ∷ []) busy
        × ((add_pending 102 7 (100 ∷ []) busy).0 ≡ busy))
add_pending-decides_example =
    add_pending-decides 102 7 (100 ∷ []) busy (init-run-IsValid small 1 calls).0

init-run-Balanced_example : Balanced 7 100 busy
init-run-Balanced_example = init-run-Balanced small 1 7 100 calls

step-Edge_example :
    Edge 7 100
      (calls_delete_active conn_a)
      (status_of 7 100 busy)
      (status_of 7 100 (step busy (calls_delete_active conn_a)))
step-Edge_example = step-Edge 7 100 busy (calls_delete_active conn_a)

add_blacklist_holds_example :
    blacklisted 12 101 7
      (run (add_blacklist 5 101 7 busy).0 (calls_clear 8 ∷ calls_blacklist 6 101 7 ∷ []))
    ≡ true
unfolding program
add_blacklist_holds_example =
    add_blacklist_holds 5 7 101 12 busy (calls_clear 8 ∷ calls_blacklist 6 101 7 ∷ []) refl refl
      (omega arith, tt) (omega arith)
