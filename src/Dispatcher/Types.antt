-- ===== src/Dispatcher/Types.antt =====
-- The state of lib/torrent/scheduler/dispatch (dispatcher.go, peer.go), and its messages.
use Prim.Native.String.{String}
use text.Mathlib.Text.{◌==◌ as str_eq}
use kraken.Base.{ℕ, ℤ, Bool, List, Map, if◌then◌else◌, ◌==◌}
use kraken.MetaInfo.{MetaInfo}
use kraken.PieceRequest.{Manager}

-- The timeouts go through floating-point numbers: the manager's timeout is an argument of `new`.
pub record Config : Type 0 where
  pub piece_request_policy : String
  pub pipeline_limit : ℕ
  pub endgame_threshold : ℕ
  pub disable_endgame : Bool

unfoldable pub apply_defaults : Config → Config
apply_defaults c =
    let limit = if c.pipeline_limit == 0 then 3 else c.pipeline_limit in
    record c {
      piece_request_policy =
          if str_eq c.piece_request_policy "" then "default" else c.piece_request_policy;
      pipeline_limit = limit;
      endgame_threshold = if c.endgame_threshold == 0 then limit else c.endgame_threshold;
    }

pub record PeerStats : Type 0 where
  pub piece_requests_sent : ℕ
  pub piece_requests_received : ℕ
  pub pieces_sent : ℕ
  pub good_pieces_received : ℕ
  pub duplicate_pieces_received : ℕ

abbrev pub zero_stats : PeerStats
zero_stats = record {
  piece_requests_sent = 0;
  piece_requests_received = 0;
  pieces_sent = 0;
  good_pieces_received = 0;
  duplicate_pieces_received = 0;
}

-- The zero time is 0.
pub record Peer : Type 0 where
  pub bitfield : List Bool
  pub last_good_piece_received : ℕ
  pub last_piece_sent : ℕ

-- An element of `syncutil.Counters`, whose count is `ups` less `downs` and may be negative.
pub record Counter : Type 0 where
  pub ups : ℕ
  pub downs : ℕ

-- What is sent to a peer or to the event loop, and the connections that are closed.
pub data Sent : Type 0 where
  requests announces : (peer i : ℕ) → Sent
  payload rejects : (peer : ℕ) (i : ℤ) → Sent
  completes closes removed : ℕ → Sent
  completed : Sent

-- The torrent is seen through its interface: `torrent` is its bitfield and `is_complete` what
-- `Complete` answers. `is_watching` is false once `pendingPiecesDone` is closed.
pub record State : Type 0 where
  pub config : Config
  pub meta_info : MetaInfo
  pub torrent : List Bool
  pub is_complete : Bool
  pub last_write : ℕ
  pub last_read : ℕ
  pub peers : Map Peer
  pub peer_stats : Map PeerStats
  pub num_peers_by_piece : List Counter
  pub manager : Manager
  pub is_watching : Bool
  pub is_completed : Bool
  pub sent : List Sent
  pub has_panicked : Bool

-- What `WritePiece` answers: no error, with what `Complete` answers then; that the piece is
-- complete; or another error.
pub data Written : Type 0 where
  written : Bool → Written
  piece_complete write_failed : Written

-- The messages of a peer; the indices, offsets and lengths are signed numbers.
pub data Message : Type 0 where
  error : (is_request_failure : Bool) (i : ℤ) → Message
  announce_piece : ℤ → Message
  piece_request : (i offset length : ℤ) → Message
  piece_payload : (i offset length : ℤ) → Written → Message
  cancel_piece : ℤ → Message
  bitfield complete unknown : Message

-- What a handler reads besides the state: the clock, `rand.Intn` after so many requests, if a
-- message can be sent, and if `GetPieceReader` and the reader's `Close` give no error.
pub record Answers : Type 0 where
  pub now : ℕ
  pub draws : ℕ → ℕ → ℕ
  pub sends : Sent → Bool
  pub opens : ℤ → Bool
  pub reader_closes : Bool
