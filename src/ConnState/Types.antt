-- ===== src/ConnState/Types.antt =====
-- lib/torrent/scheduler/connstate/config.go and the types of state.go.
use kraken.Base.{ℕ, Bool, true, false, Option, none, some, List, [], if◌then◌else◌, ◌==◌, Map}

pub record Config : Type 0 where
  pub max_open_connections_per_torrent : ℕ
  pub max_mutual_connections : ℕ
  pub disable_blacklist : Bool
  pub blacklist_duration : ℕ

abbrev pub default_blacklist_duration : ℕ
default_blacklist_duration = 30_000_000_000

unfoldable pub apply_defaults : Config → Config
apply_defaults c =
    let max_open =
      if c.max_open_connections_per_torrent == 0 then 10 else c.max_open_connections_per_torrent in
    record c {
      max_open_connections_per_torrent = max_open;
      max_mutual_connections =
          if c.max_mutual_connections == 0 then max_open else c.max_mutual_connections;
      blacklist_duration =
          if c.blacklist_duration == 0 then default_blacklist_duration else c.blacklist_duration;
    }

pub data Error : Type 0 where
  torrent_at_capacity conn_already_pending conn_already_active conn_closed : Error
  invalid_active_transition too_many_mutual_conns conn_already_blacklisted : Error

pub data Status : Type 0 where
  uninit pending active : Status

-- A `*conn.Conn`: `id` stands for the pointer, which `DeleteActive` compares.
pub record Conn : Type 0 where
  pub id : ℕ
  pub info_hash : ℕ
  pub peer_id : ℕ

pub record Entry : Type 0 where
  pub status : Status
  pub conn : Option Conn

-- The zero value of `entry`.
abbrev pub empty_entry : Entry
empty_entry = record { status = uninit; conn = none }

abbrev pub pending_entry : Entry
pending_entry = record { status = pending; conn = none }

abbrev pub active_entry : Conn → Entry
active_entry c = record { status = active; conn = some c }

pub record ConnKey : Type 0 where
  pub hash : ℕ
  pub peer_id : ℕ

pub data NetworkEvent : Type 0 where
  blacklist_conn : ℕ → ℕ → ℕ → ℕ → NetworkEvent
  add_active_conn : ℕ → ℕ → ℕ → NetworkEvent
  drop_active_conn : ℕ → ℕ → ℕ → NetworkEvent

pub record State : Type 0 where
  pub config : Config
  pub local_peer_id : ℕ
  pub conns : Map (Map Entry)
  pub blacklist : List (ConnKey × ℕ)
  pub produced : List NetworkEvent

unfoldable pub init : Config → ℕ → State
unfolding apply_defaults
init config local_peer_id = record {
  config = apply_defaults config;
  local_peer_id = local_peer_id;
  conns = [];
  blacklist = [];
  produced = [];
}

abbrev pub is_active : Status → Bool
is_active active = true
is_active _ = false

abbrev pub is_pending : Status → Bool
is_pending pending = true
is_pending _ = false
