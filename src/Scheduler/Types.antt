-- ===== src/Scheduler/Types.antt =====
-- The state of lib/torrent/scheduler/state.go, and the events of events.go.
use kraken.Base.{ℕ, Bool, Option, List, Map}
use kraken.ConnState
use kraken.ConnState.{Conn}
use kraken.AnnounceQueue.{Queue}

-- A `torrentControl`. Of its dispatcher the event loop reads the digest and `Complete()`; the
-- clients' channels in `errors` are numbered.
pub record Control : Type 0 where
  pub digest : ℕ
  pub complete : Bool
  pub errors : List ℕ
  pub local_request : Bool

-- What is sent to a client: nil, an error of the scheduler, that a torrent could not be added, or
-- what the archive answers to a deletion.
pub data Answer : Type 0 where
  done timed_out removed stopped not_added : Answer
  deleted : Bool → Answer

-- What the event loop starts or calls outside of its state.
pub data Effect : Type 0 where
  announces : (digest h : ℕ) → Bool → Effect
  connects establishes rejects : (peer h : ℕ) → Effect
  starts closes : Conn → Effect
  tears_down deletes : ℕ → Effect

pub record Timeouts : Type 0 where
  pub conn_tti : ℕ
  pub conn_ttl : ℕ
  pub seeder_tti : ℕ
  pub leecher_tti : ℕ

-- `due` lists the completion events that dispatchers have sent and the loop has not applied.
pub record State : Type 0 where
  pub timeouts : Timeouts
  pub peer_id : ℕ
  pub controls : Map Control
  pub conns : ConnState.State
  pub announce_queue : Queue
  pub due : List ℕ
  pub answers : List (ℕ × Answer)
  pub effects : List Effect
  pub is_stopped : Bool

-- What the archive and the dispatcher say of a torrent that is to be added.
pub record NewTorrent : Type 0 where
  pub info_hash : ℕ
  pub digest : ℕ
  pub complete : Bool
  -- `dispatch.New` makes a dispatcher.
  pub dispatchable : Bool

-- What the clock, the connections and the dispatchers say during a preemption.
pub record Readings : Type 0 where
  pub now : ℕ
  pub conn_created : ℕ → ℕ
  pub last_received : ℕ → ℕ → ℕ
  pub last_sent : ℕ → ℕ → ℕ
  pub last_read : ℕ → ℕ
  pub last_write : ℕ → ℕ

-- Each event with what the code reads besides the state: the clock (`now`), if a connection is
-- closed, if the dispatcher takes the peer (`taken`), and what the archive answers.
pub data Event : Type 0 where
  conn_closed : (now : ℕ) → Conn → Event
  incoming_handshake : (peer h : ℕ) → List ℕ → Event
  failed_incoming : (peer h : ℕ) → Event
  incoming_conn : (closed taken : Bool) → Conn → (h : ℕ) → Option NewTorrent → Event
  failed_outgoing : (now peer h : ℕ) → Event
  outgoing_conn : (closed taken : Bool) → Conn → (h : ℕ) → Event
  announce_tick : Event
  announce_result : (now h : ℕ) → List ℕ → Event
  announce_err : ℕ → Event
  new_torrent : NewTorrent → (client : ℕ) → Event
  dispatcher_complete : ℕ → Event
  peer_removed : (peer h : ℕ) → Event
  preemption_tick : Readings → Event
  emit_stats blacklist_snapshot probe shutdown : Event
  remove_torrent_event : (digest client : ℕ) → Bool → Event
