-- ===== src/PieceRequest.antt =====
-- lib/torrent/scheduler/dispatch/piecerequest: which pieces are requested from which peer.
-- `requests` and `requestsByPeer` hold pointers to the same `Request` structs, so the model has a
-- heap: `cells` lists the structs in the order of their allocation, and a pointer is an index into
-- it. Peer ids are numbers, the clock's reading `now` and the timeout are nanoseconds, and a
-- pipeline limit that is not positive is 0. The manager's lock makes each call atomic.
mod Types
pub mod Policies
pub mod Pipeline
pub mod Reads
pub mod Sampling
pub mod Selection
pub mod Candidates
mod Tests
pub mod Clearing
pub mod Exclusive
use kraken.Base.{
  ℕ, suc, ◌+◌, ◌-◌, Bool, true, false, not, Option, none, some, List, [], ◌∷◌, ◌++◌, if◌then◌else◌,
  ◌==◌, ◌&&◌, ◌||◌, ltb, leb, Map, get, put, del, size, length, get_or, set, drop_last,
}
unfoldable pub use Types.*
use Policies.{select_pieces}

-- `m.requests[i]` and `m.requestsByPeer[peerID]`; a missing key reads as empty.
unfoldable pub requests_of : ℕ → Manager → List ℕ
requests_of i m = elim (get i m.requests) [ none ↦ [] | some rs ↦ rs ]

unfoldable pub pieces_of : ℕ → Manager → Map ℕ
pieces_of p m = elim (get p m.requests_by_peer) [ none ↦ [] | some pm ↦ pm ]

unfoldable pub expired : ℕ → Manager → Request → Bool
expired now m r = ltb (r.sent_at + m.timeout) now

-- A request that is pending and has not expired.
unfoldable pub live : ℕ → Manager → ℕ → Bool
unfolding expired
live now m r = is_pending (deref m r).status && not (expired now m (deref m r))

unfoldable pub valid_loop : ℕ → Manager → ℕ → Bool → List ℕ → Bool
valid_loop now m peer allow_duplicates [] = true
valid_loop now m peer allow_duplicates (r ∷ rs) =
    if live now m r && (((deref m r).peer_id == peer) || not allow_duplicates)
    then false
    else valid_loop now m peer allow_duplicates rs

unfoldable pub valid_request : ℕ → Manager → ℕ → ℕ → Bool → Bool
unfolding valid_loop
valid_request now m peer i allow_duplicates =
    valid_loop now m peer allow_duplicates (requests_of i m)

-- The loop over the peer's requests, which stops when the quota is used up.
unfoldable pub quota_loop : ℕ → Manager → ℕ → Map ℕ → ℕ
quota_loop now m quota [] = quota
quota_loop now m quota ((i, r) ∷ pm) =
    let rest = quota_loop now m (if live now m r then quota - 1 else quota) pm in
    if live now m r && (quota - 1 == 0) then 0 else rest

unfoldable pub request_quota : ℕ → Manager → ℕ → ℕ
unfolding quota_loop
request_quota now m peer = elim (get peer m.requests_by_peer) [
  | none ↦ m.pipeline_limit
  | some pm ↦ quota_loop now m m.pipeline_limit pm
]

-- One round of the loop of `ReservePieces`: a new struct, and the pointer to it in both maps.
unfoldable pub reserve : ℕ → ℕ → Manager → ℕ → Manager
reserve now peer m i =
    let r = length m.cells in
    record m {
      cells =
          m.cells
          ++ record { piece = i; peer_id = peer; status = Status.pending; sent_at = now } ∷ [];
      requests = put i (requests_of i m ++ r ∷ []) m.requests;
      requests_by_peer = put peer (put i r (pieces_of peer m)) m.requests_by_peer;
    }

unfoldable pub reserve_all : ℕ → ℕ → Manager → List ℕ → Manager
reserve_all now peer m [] = m
reserve_all now peer m (i ∷ is) = reserve_all now peer (reserve now peer m i) is

-- `draws` answers `rand.Intn`, `num_peers` reads the counters, and `candidates` lists the set bits.
unfoldable pub reserve_pieces :
    (ℕ → ℕ) → (ℕ → ℕ) → ℕ → ℕ → List ℕ → Bool → Manager → Manager × List ℕ
unfolding reserve_all select_pieces
reserve_pieces draws num_peers now peer candidates allow_duplicates m =
    let quota = request_quota now m peer in
    let valid = λ (i : ℕ). valid_request now m peer i allow_duplicates in
    let pieces = select_pieces m.policy draws quota valid candidates num_peers in
    if quota == 0 then (m, []) else (reserve_all now peer m pieces, pieces)

unfoldable pub mark_loop : ℕ → Status → List ℕ → List Request → List Request
mark_loop peer s [] cells = cells
mark_loop peer s (r ∷ rs) cells = mark_loop peer s rs (
    if (get_or cells r zero_request).peer_id == peer
    then set cells r (record (get_or cells r zero_request) { status = s })
    else cells)

unfoldable pub mark_status : ℕ → ℕ → Status → Manager → Manager
unfolding mark_loop
mark_status peer i s m = record m { cells = mark_loop peer s (requests_of i m) m.cells }

unfoldable pub mark_unsent : ℕ → ℕ → Manager → Manager
unfolding mark_status
mark_unsent peer i m = mark_status peer i Status.unsent m

unfoldable pub mark_invalid : ℕ → ℕ → Manager → Manager
unfolding mark_status
mark_invalid peer i m = mark_status peer i Status.invalid m

unfoldable pub clear_loop : ℕ → Map (Map ℕ) → Map (Map ℕ)
clear_loop i [] = []
clear_loop i ((p, pm) ∷ rest) =
    if size (del i pm) == 0 then clear_loop i rest else (p, del i pm) ∷ clear_loop i rest

unfoldable pub clear : ℕ → Manager → Manager
unfolding clear_loop
clear i m = record m {
  requests = del i m.requests;
  requests_by_peer = clear_loop i m.requests_by_peer;
}

-- The position of the peer's first request.
unfoldable pub index_of : Manager → ℕ → List ℕ → Option ℕ
index_of m peer [] = none
index_of m peer (r ∷ rs) =
    if (deref m r).peer_id == peer
    then some 0
    else elim (index_of m peer rs) [ none ↦ none | some j ↦ some (suc j) ]

-- `rs[j] = rs[len(rs)-1]; rs[:len(rs)-1]` for the first request of the peer.
unfoldable pub eject : Manager → ℕ → List ℕ → List ℕ
unfolding index_of
eject m peer rs = elim (index_of m peer rs) [
  | none ↦ rs
  | some j ↦ drop_last (set rs j (get_or rs (length rs - 1) 0))
]

unfoldable pub eject_loop : Manager → ℕ → Map (List ℕ) → Map (List ℕ)
unfolding eject
eject_loop m peer [] = []
eject_loop m peer ((i, rs) ∷ rest) = (i, eject m peer rs) ∷ eject_loop m peer rest

unfoldable pub clear_peer : ℕ → Manager → Manager
unfolding eject_loop
clear_peer peer m = record m {
  requests_by_peer = del peer m.requests_by_peer;
  requests = eject_loop m peer m.requests;
}

-- `sort.Ints`
insert_sorted : ℕ → List ℕ → List ℕ
insert_sorted x [] = x ∷ []
insert_sorted x (y ∷ ys) = if leb x y then x ∷ y ∷ ys else y ∷ insert_sorted x ys

pending_loop : Manager → Map ℕ → List ℕ
unfolding insert_sorted
pending_loop m [] = []
pending_loop m ((i, r) ∷ pm) =
    if is_pending (deref m r).status then insert_sorted i (pending_loop m pm) else pending_loop m pm

unfoldable pub pending_pieces : ℕ → Manager → List ℕ
unfolding pending_loop
pending_pieces peer m = pending_loop m (pieces_of peer m)

-- The status that `GetFailedRequests` reports.
unfoldable pub current_status : ℕ → Manager → Request → Status
unfolding expired
current_status now m r = if is_pending r.status && expired now m r then Status.expired else r.status

failed_of : ℕ → Manager → List ℕ → List Request
unfolding current_status
failed_of now m [] = []
failed_of now m (r ∷ rs) =
    if is_pending (current_status now m (deref m r))
    then failed_of now m rs
    else record {
      piece = (deref m r).piece;
      peer_id = (deref m r).peer_id;
      status = current_status now m (deref m r);
      sent_at = 0;
    }
      ∷ failed_of now m rs

failed_loop : ℕ → Manager → Map (List ℕ) → List Request
unfolding failed_of
failed_loop now m [] = []
failed_loop now m ((i, rs) ∷ rest) = failed_of now m rs ++ failed_loop now m rest

unfoldable pub get_failed_requests : ℕ → Manager → List Request
unfolding failed_loop
get_failed_requests now m = failed_loop now m m.requests

-- The calls that change the manager.
pub data Call : Type 0 where
  calls_reserve : (draws num_peers : ℕ → ℕ) (peer : ℕ) → List ℕ → Bool → Call
  calls_unsent calls_invalid : (peer i : ℕ) → Call
  calls_clear calls_clear_peer : ℕ → Call

unfoldable pub step : ℕ → Call → Manager → Manager
step now (calls_reserve draws num_peers peer candidates allow) m =
    (reserve_pieces draws num_peers now peer candidates allow m).0
step now (calls_unsent peer i) m = mark_unsent peer i m
step now (calls_invalid peer i) m = mark_invalid peer i m
step now (calls_clear i) m = clear i m
step now (calls_clear_peer peer) m = clear_peer peer m

-- Calls, each at its time.
unfoldable pub run : List (ℕ × Call) → Manager → Manager
unfolding step
run [] m = m
run ((now, c) ∷ cs) m = run cs (step now c m)
