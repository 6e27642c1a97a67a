-- ===== src/Dispatcher/Tests.antt =====
-- Runs of a dispatcher, and each theorem at concrete moves.
use kraken.Base.{
  pos, negsuc, ltb_int, true, false, some, List, [], ◌∷◌, ◌≡◌, refl, ◌≤◌, ◌<◌, tally, get, put, del,
  arith,
}
use kraken.MetaInfo.{MetaInfo, get_piece_length}
use kraken.PieceRequest
use kraken.PieceRequest.{Manager, default_policy}
use kraken.Dispatcher.{
  Answers, Config, State, requests, announces, payload, completes, closes, completed, Move, adds,
  asks_more, receives, leaves, resends, announce_piece, piece_request, piece_payload, complete,
  written, apply_defaults, new, new_state, run, step, add_peer, remove_peer, dispatch,
  maybe_request_more_pieces, resend_failed_piece_requests, tear_down, complete_torrent,
  handle_announce_piece, handle_piece_request, handle_piece_payload, handle_complete, wanted,
  priority, all_set, set_all, set_bit, all_bits, in_range, count_all, new_counters,
}
use kraken.Dispatcher.Handling.{Asks}
use kraken.Dispatcher.Handling.Steps.{step-Asks, run-completes_once}
use kraken.Dispatcher.Panics.{Fits}
use kraken.Dispatcher.Panics.Runs.{run-new-Fits}
use kraken.Dispatcher.Sending.{is_completion}
use kraken.PieceRequest.{pieces_of}
use kraken.PieceRequest.Pipeline.Live.{live_count}

abbrev config : Config
config = record {
  piece_request_policy = "";
  pipeline_limit = 0;
  endgame_threshold = 0;
  disable_endgame = true;
}

-- Everything can be sent.
abbrev answers : Answers
answers = record {
  now = 5;
  draws = λ m k. 0;
  sends = λ e. true;
  opens = λ i. ltb_int i (pos 2);
  reader_closes = true;
}

abbrev two_pieces : MetaInfo
two_pieces = record {
  info = record { piece_length = 1; piece_sums = 7 ∷ 8 ∷ []; name = 0; length = 2 };
  info_hash = 3;
  digest = 4;
}

-- One peer has the first piece; another one has nothing, gets the first piece, and completes.
abbrev moves : List Move
moves =
    adds 1 (true ∷ false ∷ [])
    ∷ asks_more answers 1
    ∷ receives answers 1 (piece_payload (pos 0) (pos 0) (pos 1) (written false))
    ∷ adds 2 (false ∷ false ∷ [])
    ∷ receives answers 2 (piece_request (pos 0) (pos 0) (pos 1))
    ∷ receives answers 2 complete
    ∷ receives answers 2 (piece_payload (pos 1) (pos 0) (pos 1) (written true))
    ∷ []

program : Unit {0}
unfolding new run count_all new_counters handle_announce_piece handle_piece_request
    handle_piece_payload handle_complete add_peer remove_peer dispatch maybe_request_more_pieces
    resend_failed_piece_requests tear_down complete_torrent apply_defaults new_state wanted priority
    all_set in_range get put del get_piece_length set_all set_bit all_bits PieceRequest.new_manager
    PieceRequest.reserve_pieces PieceRequest.mark_invalid PieceRequest.mark_unsent
    PieceRequest.clear PieceRequest.clear_peer PieceRequest.get_failed_requests
    PieceRequest.request_quota PieceRequest.valid_request PieceRequest.requests_of
    PieceRequest.pieces_of PieceRequest.live PieceRequest.expired PieceRequest.reserve
program = tt

abbrev no_manager : Manager
no_manager = record {
  cells = [];
  requests = [];
  requests_by_peer = [];
  timeout = 0;
  policy = default_policy;
  pipeline_limit = 3;
}

abbrev start : State
start =
    new_state 5 (apply_defaults config) (record no_manager { timeout = 100 }) two_pieces
      (false ∷ false ∷ []) false

start-new : new answers config 100 two_pieces (false ∷ false ∷ []) false ≡ some start
unfolding program
start-new = refl

sent_so_far :
    (run moves start).sent
    ≡ requests 1 0
      ∷ payload 2 (pos 0)
      ∷ requests 2 1
      ∷ completed
      ∷ completes 1
      ∷ closes 2
      ∷ announces 1 1
      ∷ []
unfolding program
sent_so_far = refl

-- A peer that had no piece completes and leaves: the count of its pieces is one below zero.
counters_drift :
    (run
      (adds 1 (false ∷ false ∷ []) ∷ receives answers 1 complete ∷ leaves 1 ∷ [])
      start).num_peers_by_piece
    ≡ record { ups = 0; downs = 1 } ∷ record { ups = 0; downs = 1 } ∷ []
unfolding program
counters_drift = refl

-- A piece that is announced twice counts twice.
announced_twice :
    (run
      (adds 1 (false ∷ false ∷ [])
        ∷ receives answers 1 (announce_piece (pos 0))
        ∷ receives answers 1 (announce_piece (pos 0))
        ∷ [])
      start).num_peers_by_piece
    ≡ record { ups = 2; downs = 0 } ∷ record { ups = 0; downs = 0 } ∷ []
unfolding program
announced_twice = refl

-- A bit set that is longer than the torrent panics.
long_bitfield_panics : (step (adds 1 (false ∷ false ∷ true ∷ [])) start).has_panicked ≡ true
unfolding program
long_bitfield_panics = refl

-- A negative index passes the test of the bounds, and is out of the range of the counters.
negative_announce_panics :
    (step (receives answers 1 (announce_piece (negsuc 0))) start).has_panicked ≡ true
unfolding program
negative_announce_panics = refl

-- A piece that is read at time 9, without an error, leaves the time of the last read at 5.
read_untouched :
    (run
      (adds 1 (false ∷ false ∷ [])
        ∷ receives (record answers { now = 9 }) 1 (piece_request (pos 0) (pos 0) (pos 1))
        ∷ [])
      start).last_read
    ≡ 5
unfolding program
read_untouched = refl

step-Asks_example : Asks (run moves start) (step (resends answers) (run moves start))
step-Asks_example = step-Asks (resends answers) (run moves start)

run-completes_once_example :
    (tally is_completion (run moves start).sent ≤ 1)
    × ((run moves start).is_complete ≡ true → tally is_completion (run moves start).sent ≡ 1)
run-completes_once_example =
    run-completes_once answers config 100 two_pieces (false ∷ false ∷ []) false start moves
      start-new

opened_0 : answers.opens (pos 0) ≡ true → 0 < 2
opened_0 e = omega arith

run-new-Fits_example : Fits 2 (run moves start)
run-new-Fits_example =
    run-new-Fits answers config 100 two_pieces (false ∷ false ∷ []) false start moves start-new
      (refl, (tt, (tt, (refl, (opened_0, (tt, (tt, tt)))))))

-- Two pieces are asked of a peer that has both, and are in flight at time 20.
abbrev two_asked : List Move
two_asked = adds 1 (true ∷ true ∷ []) ∷ asks_more answers 1 ∷ []

two_in_flight :
    live_count 20 (run two_asked start).manager (pieces_of 1 (run two_asked start).manager) ≡ 2
unfolding program live_count
two_in_flight = refl
