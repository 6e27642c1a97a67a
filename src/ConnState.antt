-- ===== src/ConnState.antt =====
-- lib/torrent/scheduler/connstate/config.go and state.go: which connections of which torrent are
-- pending or active, and which peers are blacklisted. Info hashes and peer ids are the numbers
-- that their bytes spell, times and durations are nanoseconds, and the clock's reading is an
-- argument. The configured integers are not negative. An error is `some`, Go's nil is `none`;
-- log lines are left out, and `netevents.Produce` appends to the field `produced`.
mod Types
pub mod Blacklist
pub mod Entries
pub mod Events
pub mod Invariant
pub mod Peers
mod Tests
pub mod Transitions
use kraken.Base.{
  ℕ, suc, ◌+◌, ◌-◌, Bool, true, false, not, Option, none, some, List, [], ◌∷◌, ◌++◌, if◌then◌else◌,
  ◌==◌, ◌&&◌, ◌||◌, ltb, Map, get, put, del, size, select,
}
unfoldable pub use Types.*

-- The peers of a torrent; a missing map reads as the empty one.
unfoldable pub peers_of : ℕ → State → Map Entry
peers_of h s = elim (get h s.conns) [ none ↦ [] | some peers ↦ peers ]

unfoldable pub get_entry : ℕ → ℕ → State → Entry
unfolding peers_of
get_entry h p s = elim (get p (peers_of h s)) [ none ↦ empty_entry | some e ↦ e ]

unfoldable pub put_entry : ℕ → ℕ → Entry → State → State
unfolding peers_of
put_entry h p e s = record s { conns = put h (put p e (peers_of h s)) s.conns }

unfoldable pub delete_entry : ℕ → ℕ → State → State
delete_entry h p s = elim (get h s.conns) [
  | none ↦ s
  | some peers ↦
      if size (del p peers) == 0
      then record s { conns = del h s.conns }
      else record s { conns = put h (del p peers) s.conns }
]

active_conns_of : Map Entry → List (Option Conn)
active_conns_of [] = []
active_conns_of ((p, e) ∷ peers) =
    if is_active e.status then e.conn ∷ active_conns_of peers else active_conns_of peers

active_conns_in : Map (Map Entry) → List (Option Conn)
unfolding active_conns_of
active_conns_in [] = []
active_conns_in ((h, peers) ∷ rest) = active_conns_of peers ++ active_conns_in rest

unfoldable pub active_conns : State → List (Option Conn)
unfolding active_conns_in
active_conns s = active_conns_in s.conns

-- The loop of `Saturated`.
unfoldable pub num_active : Map Entry → ℕ
num_active [] = 0
num_active ((p, e) ∷ peers) =
    if is_active e.status then suc (num_active peers) else num_active peers

unfoldable pub saturated : ℕ → State → Bool
saturated h s = elim (get h s.conns) [
  | none ↦ false
  | some peers ↦ num_active peers == s.config.max_open_connections_per_torrent
]

abbrev pub same_key : ConnKey → ℕ → ℕ → Bool
same_key k h p = (k.hash == h) && (k.peer_id == p)

unfoldable pub expiration : ℕ → ℕ → List (ConnKey × ℕ) → Option ℕ
expiration h p [] = none
expiration h p ((k, t) ∷ b) = if same_key k h p then some t else expiration h p b

unfoldable pub put_expiration : ℕ → ℕ → ℕ → List (ConnKey × ℕ) → List (ConnKey × ℕ)
put_expiration h p t [] = (record { hash = h; peer_id = p }, t) ∷ []
put_expiration h p t ((k, u) ∷ b) =
    if same_key k h p then (k, t) ∷ b else (k, u) ∷ put_expiration h p t b

-- `expiration.Sub(now) > 0`
unfoldable pub blacklisted : ℕ → ℕ → ℕ → State → Bool
blacklisted now p h s = elim (expiration h p s.blacklist) [ none ↦ false | some t ↦ ltb now t ]

unfoldable pub add_blacklist : ℕ → ℕ → ℕ → State → State × Option Error
unfolding blacklisted
add_blacklist now p h s =
    if s.config.disable_blacklist
    then (s, none)
    else if blacklisted now p h s
    then (s, some conn_already_blacklisted)
    else (
      record s {
        blacklist = put_expiration h p (now + s.config.blacklist_duration) s.blacklist;
        produced =
            s.produced ++ blacklist_conn h s.local_peer_id p s.config.blacklist_duration ∷ [];
      },
      none,
    )

unfoldable pub clear_blacklist : ℕ → State → State
clear_blacklist h s = record s { blacklist = select (λ e. not (e.0.hash == h)) s.blacklist }

-- The neighbours that have a pending or active connection for the torrent.
unfoldable pub num_mutual_conns : ℕ → List ℕ → State → ℕ
num_mutual_conns h [] s = 0
num_mutual_conns h (id ∷ ids) s =
    if is_pending (get_entry h id s).status || is_active (get_entry h id s).status
    then suc (num_mutual_conns h ids s)
    else num_mutual_conns h ids s

unfoldable pub add_pending : ℕ → ℕ → List ℕ → State → State × Option Error
add_pending p h neighbors s =
    if size (peers_of h s) == s.config.max_open_connections_per_torrent
    then (s, some torrent_at_capacity)
    else elim (get_entry h p s).status [
      | uninit ↦
          if ltb s.config.max_mutual_connections (num_mutual_conns h neighbors s)
          then (s, some too_many_mutual_conns)
          else (put_entry h p pending_entry s, none)
      | pending ↦ (s, some conn_already_pending)
      | active ↦ (s, some conn_already_active)
    ]

unfoldable pub delete_pending : ℕ → ℕ → State → State
delete_pending p h s = if is_pending (get_entry h p s).status then delete_entry h p s else s

-- `closed` is what `c.IsClosed()` reads at the call.
unfoldable pub move_pending_to_active : Bool → Conn → State → State × Option Error
move_pending_to_active closed c s =
    if closed
    then (s, some conn_closed)
    else if is_pending (get_entry c.info_hash c.peer_id s).status
    then (
      record (put_entry c.info_hash c.peer_id (active_entry c) s) {
        produced = s.produced ++ add_active_conn c.info_hash s.local_peer_id c.peer_id ∷ [];
      },
      none,
    )
    else (s, some invalid_active_transition)

-- `e.conn == c`: the same pointer.
abbrev pub same_conn : Option Conn → Conn → Bool
same_conn none c = false
same_conn (some d) c = d.id == c.id

unfoldable pub delete_active : Conn → State → State
delete_active c s =
    let e = get_entry c.info_hash c.peer_id s in
    if is_active e.status && same_conn e.conn c
    then record (delete_entry c.info_hash c.peer_id s) {
      produced = s.produced ++ drop_active_conn c.info_hash s.local_peer_id c.peer_id ∷ [];
    }
    else s

-- `BlacklistSnapshot`, with `Remaining` as how long an entry has left and how long it is over.
unfoldable pub blacklist_snapshot : ℕ → List (ConnKey × ℕ) → List (ConnKey × ℕ × ℕ)
blacklist_snapshot now [] = []
blacklist_snapshot now ((k, t) ∷ b) = (k, t - now, now - t) ∷ blacklist_snapshot now b

-- The calls that change the state.
pub data Call : Type 0 where
  calls_blacklist : (now p h : ℕ) → Call
  calls_clear : (h : ℕ) → Call
  calls_add_pending : (p h : ℕ) → List ℕ → Call
  calls_delete_pending : (p h : ℕ) → Call
  calls_move : Bool → Conn → Call
  calls_delete_active : Conn → Call

unfoldable pub step : State → Call → State
step s (calls_blacklist now p h) = (add_blacklist now p h s).0
step s (calls_clear h) = clear_blacklist h s
step s (calls_add_pending p h neighbors) = (add_pending p h neighbors s).0
step s (calls_delete_pending p h) = delete_pending p h s
step s (calls_move closed c) = (move_pending_to_active closed c s).0
step s (calls_delete_active c) = delete_active c s

unfoldable pub run : State → List Call → State
unfolding step
run s [] = s
run s (c ∷ cs) = run (step s c) cs
