-- ===== src/Dispatcher.antt =====
-- lib/torrent/scheduler/dispatch/{dispatcher,peer,sync_bitfield,torrent_access_watcher}.go, with
-- utils/syncutil/counters.go: the handlers of one torrent's messages on the piece requests, the
-- peers and the torrent. Each peer has a goroutine that handles its messages, with locks in the
-- parts; the model applies one handler at a time. A bit set is a list of bits. Summaries for the
-- torrent log, network events and log lines are left out.
mod Types
mod Bits
mod Requests
pub mod Sending
pub mod Handling
pub mod Panics
pub mod Pipeline
mod Tests
use kraken.Base.{
  ℕ, ℤ, pos, negsuc, eq_int, zero, suc, ◌+◌, ◌-◌, Bool, true, false, not, Option, none, some, List,
  [], ◌∷◌, ◌++◌, if◌then◌else◌, ◌==◌, ◌&&◌, ◌||◌, leb, ltb, length, get_or, set, tally, Map, get,
  put, del, has, keys,
}
use kraken.MetaInfo.{MetaInfo, get_piece_length}
use kraken.PieceRequest
use kraken.PieceRequest.{Manager, Request, Status}
unfoldable pub use Types.*
unfoldable pub use Bits.*
unfoldable pub use Requests.*

-- `addPeer`; the result is false for a peer that exists.
unfoldable pub add_peer : ℕ → List Bool → State → State × Bool
unfolding count_up
add_peer id bits s =
    let with_stats : State = record s {
      peer_stats = if has id s.peer_stats then s.peer_stats else put id zero_stats s.peer_stats;
    } in
    if has id s.peers then (with_stats, false) else (
      record with_stats {
        peers =
            put id (record { bitfield = bits; last_good_piece_received = 0; last_piece_sent = 0 })
              s.peers;
        num_peers_by_piece = count_all count_up (all_set bits) s.num_peers_by_piece;
        has_panicked = s.has_panicked || not (in_range (all_set bits) s.num_peers_by_piece);
      },
      true,
    )

-- `removePeer`, at the end of `feed`.
unfoldable pub remove_peer : ℕ → State → State
unfolding count_down
remove_peer id s = elim (get id s.peers) [
  | none ↦ s
  | some p ↦ record s {
    peers = del id s.peers;
    manager = PieceRequest.clear_peer id s.manager;
    num_peers_by_piece = count_all count_down (all_set p.bitfield) s.num_peers_by_piece;
    has_panicked = s.has_panicked || not (in_range (all_set p.bitfield) s.num_peers_by_piece);
    sent = s.sent ++ removed id ∷ [];
  }
]

unfoldable pub close_all : Map Peer → State → State
close_all [] s = s
close_all ((id, p) ∷ ps) s = close_all ps (record s { sent = s.sent ++ closes id ∷ [] })

unfoldable pub tear_down : State → State
unfolding close_all
tear_down s = close_all s.peers (record s { is_watching = false })

-- The loop of `complete` over the peers.
unfoldable pub notify_all : Answers → Map Peer → State → State
unfolding send
notify_all a [] s = s
notify_all a ((id, p) ∷ ps) s = notify_all a ps (
    if all_bits p.bitfield
    then record s { sent = s.sent ++ closes id ∷ [] }
    else send a (completes id) s)

unfoldable pub complete_torrent : Answers → State → State
unfolding notify_all
complete_torrent a s = notify_all a s.peers (record s {
  is_completed = true;
  is_watching = false;
  sent = if s.is_completed then s.sent else s.sent ++ completed ∷ [];
})

-- `newDispatcher`, with its request manager.
unfoldable pub new_state : ℕ → Config → Manager → MetaInfo → List Bool → Bool → State
new_state now config m mi torrent is_complete = record {
  config = config;
  meta_info = mi;
  torrent = torrent;
  is_complete = is_complete;
  last_write = now;
  last_read = now;
  peers = [];
  peer_stats = [];
  num_peers_by_piece = new_counters (length torrent);
  manager = m;
  is_watching = true;
  is_completed = false;
  sent = [];
  has_panicked = false;
}

-- `none` is the error of a policy that does not exist.
unfoldable pub new : Answers → Config → ℕ → MetaInfo → List Bool → Bool → Option State
unfolding complete_torrent new_state
new a c timeout mi torrent is_complete =
    let config = apply_defaults c in
    elim (PieceRequest.new_manager timeout config.piece_request_policy config.pipeline_limit) [
      | none ↦ none
      | some m ↦
          let s = new_state a.now config m mi torrent is_complete in
          some (if is_complete then complete_torrent a s else s)
    ]

-- The messages. A payload or a request must be for a full piece.
unfoldable pub is_full_piece : ℤ → ℤ → ℤ → State → Bool
is_full_piece (pos i) offset n s =
    eq_int offset (pos 0) && eq_int n (pos (get_piece_length s.meta_info i))
is_full_piece (negsuc i) offset n s = eq_int offset (pos 0) && eq_int n (pos 0)

-- A negative index is below the number of pieces, and out of the range of the counters.
unfoldable pub handle_announce_piece : Answers → ℕ → ℤ → State → State
unfolding update_peer maybe_request_more_pieces
handle_announce_piece a peer (negsuc i) s = record s { has_panicked = true }
handle_announce_piece a peer (pos i) s =
    if leb (length s.torrent) i
    then s
    else maybe_request_more_pieces a peer (
        update_peer peer (λ p. record p { bitfield = set_bit i p.bitfield })
          (record s { num_peers_by_piece = count_up i s.num_peers_by_piece }))

-- The payload's reader is closed once it was sent; the read time is touched where `Close` fails.
-- A piece with a negative index, where the torrent opens it, is out of the range of the bit set.
unfoldable pub handle_piece_request : Answers → ℕ → ℤ → ℤ → ℤ → State → State
unfolding update_stats update_peer send is_full_piece
handle_piece_request a peer (pos i) offset n s =
    let counted =
      update_stats peer (λ p. record p { piece_requests_received = suc p.piece_requests_received })
        s in
    if not (is_full_piece (pos i) offset n s) || not (a.opens (pos i))
    then send a (rejects peer (pos i)) counted
    else if a.sends (payload peer (pos i))
    then update_peer peer
        (λ p. record p { bitfield = set_bit i p.bitfield; last_piece_sent = a.now })
        (update_stats peer (λ p. record p { pieces_sent = suc p.pieces_sent })
          (record counted {
            sent = s.sent ++ payload peer (pos i) ∷ [];
            last_read = if a.reader_closes then s.last_read else a.now;
          }))
    else counted
handle_piece_request a peer (negsuc i) offset n s =
    let counted =
      update_stats peer (λ p. record p { piece_requests_received = suc p.piece_requests_received })
        s in
    if not (is_full_piece (negsuc i) offset n s) || not (a.opens (negsuc i))
    then send a (rejects peer (negsuc i)) counted
    else if a.sends (payload peer (negsuc i))
    then record counted { sent = s.sent ++ payload peer (negsuc i) ∷ []; has_panicked = true }
    else counted

unfoldable pub announce_all : Answers → ℕ → ℕ → Map Peer → State → State
unfolding send
announce_all a peer i [] s = s
announce_all a peer i ((id, p) ∷ ps) s =
    announce_all a peer i ps (if id == peer then s else send a (announces id i) s)

-- A payload that was written, where `Complete` answers `all` then.
unfoldable pub handle_written : Answers → ℕ → ℕ → Bool → State → State
unfolding update_stats update_peer complete_torrent maybe_request_more_pieces announce_all
handle_written a peer i all s =
    let s' =
      update_peer peer (λ p. record p { last_good_piece_received = a.now })
        (update_stats peer (λ p. record p { good_pieces_received = suc p.good_pieces_received })
          (record s { torrent = set s.torrent i true; is_complete = all; last_write = a.now })) in
    let done = if all then complete_torrent a s' else s' in
    let more =
      maybe_request_more_pieces a peer
        (record done { manager = PieceRequest.clear i done.manager }) in
    announce_all a peer i more.peers more

-- No request has a negative index, so that `MarkInvalid` of one changes nothing, and no torrent
-- writes a piece with one: that of an agent panics.
unfoldable pub handle_piece_payload : Answers → ℕ → ℤ → ℤ → ℤ → Written → State → State
unfolding is_full_piece handle_written update_stats
handle_piece_payload a peer (pos i) offset n answer s =
    let refused : State = record s { manager = PieceRequest.mark_invalid peer i s.manager } in
    if not (is_full_piece (pos i) offset n s) then refused else elim answer [
      | written all ↦ handle_written a peer i all s
      | piece_complete ↦
          update_stats peer
            (λ p. record p { duplicate_pieces_received = suc p.duplicate_pieces_received }) s
      | write_failed ↦ refused
    ]
handle_piece_payload a peer (negsuc i) offset n answer s =
    if not (is_full_piece (negsuc i) offset n s) then s else elim answer [
      | written all ↦ record s { has_panicked = true }
      | piece_complete ↦
          update_stats peer
            (λ p. record p { duplicate_pieces_received = suc p.duplicate_pieces_received }) s
      | write_failed ↦ s
    ]

unfoldable pub handle_complete : Answers → ℕ → State → State
unfolding update_peer maybe_request_more_pieces
handle_complete a peer s =
    if s.is_complete
    then record s { sent = s.sent ++ closes peer ∷ [] }
    else maybe_request_more_pieces a peer
        (update_peer peer (λ p. record p { bitfield = set_all p.bitfield }) s)

unfoldable pub dispatch : Answers → ℕ → Message → State → State
unfolding handle_announce_piece handle_piece_request handle_piece_payload handle_complete
dispatch a peer (error is_request_failure (negsuc i)) s = s
dispatch a peer (error is_request_failure (pos i)) s =
    if is_request_failure
    then record s { manager = PieceRequest.mark_invalid peer i s.manager }
    else s
dispatch a peer (announce_piece i) s = handle_announce_piece a peer i s
dispatch a peer (piece_request i offset n) s = handle_piece_request a peer i offset n s
dispatch a peer (piece_payload i offset n answer) s =
    handle_piece_payload a peer i offset n answer s
dispatch a peer (cancel_piece i) s = s
dispatch a peer bitfield s = s
dispatch a peer complete s = handle_complete a peer s
dispatch a peer unknown s = s

-- What happens at a dispatcher: `AddPeer` with the requests of its goroutine, a message that `feed`
-- receives, the end of `feed`, a tick of `watchPendingPieceRequests`, and `TearDown`.
pub data Move : Type 0 where
  adds : ℕ → List Bool → Move
  asks_more : Answers → ℕ → Move
  receives : Answers → ℕ → Message → Move
  leaves : ℕ → Move
  resends : Answers → Move
  tears_down : Move

unfoldable pub step : Move → State → State
unfolding add_peer maybe_request_more_pieces dispatch remove_peer resend_failed_piece_requests
    tear_down
step (adds id bits) s = (add_peer id bits s).0
step (asks_more a id) s = maybe_request_more_pieces a id s
step (receives a id msg) s = dispatch a id msg s
step (leaves id) s = remove_peer id s
step (resends a) s = if s.is_watching then resend_failed_piece_requests a s else s
step tears_down s = tear_down s

unfoldable pub run : List Move → State → State
unfolding step
run [] s = s
run (m ∷ ms) s = run ms (step m s)
