-- ===== src/PieceRequest/Tests.antt =====
-- Runs of the request manager, and each theorem at concrete calls.
use kraken.Base.{
  ℕ, true, false, List, [], ◌∷◌, ◌≡◌, refl, arith, get, put, del, count, ◌==◌, if◌then◌else◌,
}
use kraken.PriorityQueue.{push, pop}
use kraken.PieceRequest.{
  Manager, rarest_first_policy, new_manager, requests_of, pieces_of, reserve, reserve_pieces,
  request_quota, valid_request, live, mark_loop, clear_peer, clear, get_failed_requests,
  pending_pieces, run,
}
use kraken.PieceRequest.Policies.{select_default, select_pieces}
use kraken.PieceRequest.Exclusive.{reserve_pieces_exclusive}
use kraken.PieceRequest.Selection.{Selected, select_pieces-Selected}

program : Unit {0}
unfolding new_manager requests_of pieces_of reserve_pieces request_quota valid_request live
    mark_loop clear_peer clear run get put del push pop get_failed_requests pending_pieces reserve
program = tt

abbrev empty : Manager
empty = record {
  cells = [];
  requests = [];
  requests_by_peer = [];
  timeout = 5;
  policy = rarest_first_policy;
  pipeline_limit = 2;
}

abbrev draws : ℕ → ℕ
draws k = 0

-- Piece 2 is at fewer peers than piece 1 and piece 3.
abbrev peers : ℕ → ℕ
peers i = if i == 2 then 1 else 4

abbrev reserved : Manager × List ℕ
reserved = reserve_pieces draws peers 10 100 (1 ∷ 2 ∷ 3 ∷ []) false empty

rarest_first : reserved.1 ≡ 2 ∷ 3 ∷ []
unfolding program
rarest_first = refl

reserve_pieces_exclusive_example :
    (valid_request 15 reserved.0 100 2 true ≡ false)
    × (valid_request 15 reserved.0 200 2 false ≡ false)
unfolding program
reserve_pieces_exclusive_example =
    reserve_pieces_exclusive draws peers 10 100 15 2 200 (1 ∷ 2 ∷ 3 ∷ []) false empty reserved.0
      reserved.1 refl (omega arith) (omega arith)

-- The second of two requests of a peer that left still blocks another peer.
second_blocks :
    valid_request 22 (clear_peer 100 (reserve 20 100 (reserve 10 100 empty 7) 7)) 200 7 false
    ≡ false
unfolding program
second_blocks = refl

-- With a quota of one, and draws of 0, the first candidate is not selected.
first_lost : count 4 (select_default draws 1 (λ i. true) (4 ∷ 5 ∷ 6 ∷ [])) ≡ 0
unfolding program
first_lost = refl

select_pieces-Selected_example :
    Selected 2
      (λ i. true)
      (select_pieces rarest_first_policy draws 2 (λ i. true) (1 ∷ 2 ∷ 3 ∷ []) peers)
select_pieces-Selected_example =
    select_pieces-Selected rarest_first_policy draws 2 (λ i. true) (1 ∷ 2 ∷ 3 ∷ []) peers
