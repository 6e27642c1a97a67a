-- ===== src/Scheduler.antt =====
-- lib/torrent/scheduler/state.go and events.go: the event loop, which owns the torrent controls, the
-- connection state and the announce queue. An event is applied as a whole, so a history is a list
-- of events, and of the moments at which a dispatcher finishes its torrent. An event that reads the
-- clock several times gets one reading. Log lines, metrics and network events are left out.
mod Types
pub mod Ticks
pub mod Connections
pub mod Waiting
pub mod Clients
pub mod Announcing
mod Tests
use kraken.Base.{
  ℕ, zero, suc, ◌+◌, ◌-◌, Bool, true, false, not, Option, none, some, List, [], ◌∷◌, ◌++◌,
  if◌then◌else◌, ◌==◌, ◌&&◌, ◌||◌, ltb, leb, length, map, take_out, Map, get, put, del, has,
}
use kraken.ConnState
use kraken.ConnState.{Conn}
use kraken.AnnounceQueue
use kraken.AnnounceQueue.{Queue}
unfoldable pub use Types.*

unfoldable pub new_state : Timeouts → ConnState.Config → ℕ → State
new_state timeouts config peer_id = record {
  timeouts = timeouts;
  peer_id = peer_id;
  controls = [];
  conns = ConnState.init config peer_id;
  announce_queue = AnnounceQueue.init;
  due = [];
  answers = [];
  effects = [];
  is_stopped = false;
}

-- The same answer to several clients.
unfoldable pub answer_all : Answer → List ℕ → List (ℕ × Answer)
answer_all a [] = []
answer_all a (w ∷ ws) = (w, a) ∷ answer_all a ws

-- A dispatcher of a complete torrent sends its completion event when it is made.
unfoldable pub add_torrent : NewTorrent → Bool → State → State × Bool
add_torrent t local_request s =
    if t.dispatchable
    then (
      record s {
        announce_queue = AnnounceQueue.add t.info_hash s.announce_queue;
        controls =
            put t.info_hash
              (record {
                digest = t.digest;
                complete = t.complete;
                errors = [];
                local_request = local_request;
              })
              s.controls;
        due = if t.complete then t.info_hash ∷ s.due else s.due;
      },
      true,
    )
    else (s, false)

unfoldable pub remove_torrent : ℕ → Answer → State → State
unfolding answer_all
remove_torrent h a s = elim (get h s.controls) [
  | none ↦ s
  | some c ↦ if c.complete then record s { controls = del h s.controls } else record s {
    announce_queue = AnnounceQueue.eject h s.announce_queue;
    answers = s.answers ++ answer_all a c.errors;
    effects = s.effects ++ tears_down h ∷ deletes c.digest ∷ [];
    controls = del h s.controls;
  }
]

-- The result is false for an error.
unfoldable pub add_outgoing_conn : Bool → Bool → Conn → ℕ → State → State × Bool
add_outgoing_conn closed taken c h s =
    let (conns, e) = ConnState.move_pending_to_active closed c s.conns in
    elim e [
      | some err ↦ (record s { conns = conns }, false)
      | none ↦ (
        record s { conns = conns; effects = s.effects ++ starts c ∷ [] },
        has h s.controls && taken,
      )
    ]

-- `found` is what the archive's `GetTorrent` answers, where the torrent has no control.
unfoldable pub add_incoming_conn : Bool → Bool → Conn → ℕ → Option NewTorrent → State → State × Bool
unfolding add_torrent
add_incoming_conn closed taken c h found s =
    let (conns, e) = ConnState.move_pending_to_active closed c s.conns in
    let started : State = record s { conns = conns; effects = s.effects ++ starts c ∷ [] } in
    elim e [
      | some err ↦ (record s { conns = conns }, false)
      | none ↦ if has h s.controls then (started, taken) else elim found [
        | none ↦ (started, false)
        | some t ↦ let (s', ok) = add_torrent t false started in (s', ok && taken)
      ]
    ]

-- An event that adds a connection closes it on an error.
unfoldable pub or_close : Conn → State × Bool → State
or_close c (s, ok) = if ok then s else record s { effects = s.effects ++ closes c ∷ [] }

-- The loop of `announceTickEvent`: the state, and the torrents that were skipped. Each round takes
-- a torrent off the ready queue, so fuel above its length is enough.
unfoldable pub tick_loop : ℕ → State → List ℕ → State × List ℕ
tick_loop zero s skipped = (s, skipped)
tick_loop (suc fuel) s skipped =
    let (q, o) = AnnounceQueue.next s.announce_queue in
    let s' : State = record s { announce_queue = q } in
    elim o [
      | none ↦ (s', skipped)
      | some h ↦
          if ConnState.saturated h s.conns
          then tick_loop fuel s' (skipped ++ h ∷ [])
          else elim (get h s.controls) [
            | none ↦ tick_loop fuel s' skipped
            | some c ↦
                (record s' { effects = s.effects ++ announces c.digest h c.complete ∷ [] }, skipped)
          ]
    ]

unfoldable pub ready_all : List ℕ → Queue → Queue
ready_all [] q = q
ready_all (h ∷ hs) q = ready_all hs (AnnounceQueue.ready h q)

unfoldable pub tick : State → State
unfolding tick_loop ready_all
tick s =
    let (s', skipped) = tick_loop (suc (length s.announce_queue.ready_queue)) s [] in
    record s' { announce_queue = ready_all skipped s'.announce_queue }

-- The loop of `announceResultEvent`, which ends when the torrent is at its capacity.
unfoldable pub connect_loop : ℕ → ℕ → List ℕ → State → State
connect_loop now h [] s = s
connect_loop now h (p ∷ ps) s =
    let skip = connect_loop now h ps s in
    let (conns, e) = ConnState.add_pending p h [] s.conns in
    let go_on =
      connect_loop now h ps
        (record s { conns = conns; effects = s.effects ++ connects p h ∷ [] }) in
    if (p == s.peer_id) || ConnState.blacklisted now p h s.conns
    then skip
    else elim e [ none ↦ go_on | some ConnState.torrent_at_capacity ↦ s | some _ ↦ skip ]

unfoldable pub handle_result : ℕ → ℕ → List ℕ → State → State
unfolding connect_loop
handle_result now h peers s = elim (get h s.controls) [
  | none ↦ s
  | some c ↦
      let s' : State = record s { announce_queue = AnnounceQueue.ready h s.announce_queue } in
      if c.complete then s' else connect_loop now h peers s'
]

-- A client of a torrent that has a control.
unfoldable pub join_torrent : ℕ → ℕ → Control → State → State
join_torrent h client c s =
    if c.complete then record s { answers = s.answers ++ (client, done) ∷ [] } else record s {
      controls = put h (record c { errors = c.errors ++ client ∷ [] }) s.controls;
      effects = s.effects ++ announces c.digest h false ∷ [];
    }

unfoldable pub handle_new : NewTorrent → ℕ → State → State
unfolding join_torrent add_torrent
handle_new t client s = elim (get t.info_hash s.controls) [
  | some c ↦ join_torrent t.info_hash client c s
  | none ↦
      let (s', ok) = add_torrent t true s in
      if ok
      then join_torrent t.info_hash client
          (record { digest = t.digest; complete = t.complete; errors = []; local_request = true })
          s'
      else record s { answers = s.answers ++ (client, not_added) ∷ [] }
]

unfoldable pub handle_complete : ℕ → State → State
unfolding answer_all
handle_complete h s =
    let s' : State = record s {
      conns = ConnState.clear_blacklist h s.conns;
      announce_queue = AnnounceQueue.eject h s.announce_queue;
      due = take_out h s.due;
    } in
    elim (get h s.controls) [
      | none ↦ s'
      | some c ↦ record s' {
        answers = s.answers ++ answer_all done c.errors;
        effects = s.effects ++ announces c.digest h true ∷ [];
      }
    ]

-- The connections that a preemption or a shutdown closes; every active entry has its connection.
unfoldable pub idle_conn : Readings → State → Conn → Bool
idle_conn r s c =
    if has c.info_hash s.controls
    then (ltb (r.conn_created c.id + s.timeouts.conn_tti) r.now
        && ltb (r.last_received c.info_hash c.peer_id + s.timeouts.conn_tti) r.now
        && ltb (r.last_sent c.info_hash c.peer_id + s.timeouts.conn_tti) r.now)
      || ltb (r.conn_created c.id + s.timeouts.conn_ttl) r.now
    else true

unfoldable pub close_conns : (Conn → Bool) → List (Option Conn) → State → State
close_conns which [] s = s
close_conns which (none ∷ cs) s = close_conns which cs s
close_conns which (some c ∷ cs) s =
    close_conns which cs (if which c then record s { effects = s.effects ++ closes c ∷ [] } else s)

unfoldable pub is_idle : Readings → State → ℕ → Control → Bool
is_idle r s h c =
    if c.complete
    then leb (r.last_read h + s.timeouts.seeder_tti) r.now
    else leb (r.last_write h + s.timeouts.leecher_tti) r.now

unfoldable pub remove_loop : (ℕ → Control → Bool) → Answer → Map Control → State → State
unfolding remove_torrent
remove_loop which a [] s = s
remove_loop which a ((h, c) ∷ m) s =
    remove_loop which a m (if which h c then remove_torrent h a s else s)

unfoldable pub preempt : Readings → State → State
unfolding idle_conn close_conns is_idle remove_loop
preempt r s =
    let s' = close_conns (idle_conn r s) (ConnState.active_conns s.conns) s in
    remove_loop (is_idle r s) timed_out s'.controls s'

unfoldable pub handle_remove : ℕ → ℕ → Bool → State → State
unfolding remove_loop
handle_remove digest client gone s =
    let s' = remove_loop (λ h c. c.digest == digest) removed s.controls s in
    record s' { answers = s'.answers ++ (client, deleted gone) ∷ [] }

unfoldable pub stop_all : Map Control → State → State
unfolding answer_all
stop_all [] s = s
stop_all ((h, c) ∷ m) s = stop_all m (record s {
  answers = s.answers ++ answer_all stopped c.errors;
  effects = s.effects ++ tears_down h ∷ [];
})

unfoldable pub shut_down : State → State
unfolding close_conns stop_all
shut_down s =
    let s' = close_conns (λ c. true) (ConnState.active_conns s.conns) s in
    record (stop_all s'.controls s') { is_stopped = true }

-- The event `apply` of each event.
unfoldable pub apply : Event → State → State
unfolding or_close
apply (conn_closed now c) s = record s {
  conns = (ConnState.add_blacklist now c.peer_id c.info_hash (ConnState.delete_active c s.conns)).0;
}
apply (incoming_handshake peer h neighbors) s =
    let (conns, e) = ConnState.add_pending peer h neighbors s.conns in
    record s {
      conns = conns;
      effects = s.effects ++ elim e [ some err ↦ rejects peer h | none ↦ establishes peer h ] ∷ [];
    }
apply (failed_incoming peer h) s = record s { conns = ConnState.delete_pending peer h s.conns }
apply (incoming_conn closed taken c h found) s =
    or_close c (add_incoming_conn closed taken c h found s)
apply (failed_outgoing now peer h) s = record s {
  conns = (ConnState.add_blacklist now peer h (ConnState.delete_pending peer h s.conns)).0;
}
apply (outgoing_conn closed taken c h) s = or_close c (add_outgoing_conn closed taken c h s)
apply announce_tick s = tick s
apply (announce_result now h peers) s = handle_result now h peers s
apply (announce_err h) s = record s { announce_queue = AnnounceQueue.ready h s.announce_queue }
apply (new_torrent t client) s = handle_new t client s
apply (dispatcher_complete h) s = handle_complete h s
apply (peer_removed peer h) s = s
apply (preemption_tick r) s = preempt r s
apply emit_stats s = s
apply blacklist_snapshot s = s
apply probe s = s
apply shutdown s = shut_down s
apply (remove_torrent_event digest client gone) s = handle_remove digest client gone s

-- A dispatcher finishes its torrent in its own goroutine, and sends its completion event once.
unfoldable pub finish : ℕ → State → State
finish h s = elim (get h s.controls) [
  | none ↦ s
  | some c ↦
      if c.complete
      then s
      else record s { controls = put h (record c { complete = true }) s.controls; due = h ∷ s.due }
]

pub data Move : Type 0 where
  event : Event → Move
  finishes : ℕ → Move

unfoldable pub step : Move → State → State
unfolding apply finish
step (event e) s = apply e s
step (finishes h) s = finish h s

unfoldable pub run : List Move → State → State
unfolding step
run [] s = s
run (m ∷ ms) s = run ms (step m s)
