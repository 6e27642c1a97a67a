-- ===== src/Dispatcher/Requests.antt =====
-- Piece requests, and requests that failed: `maybeRequestMorePieces`, `resendFailedPieceRequests`.
use kraken.Base.{
  ℕ, suc, ◌-◌, Bool, true, false, not, none, some, List, [], ◌∷◌, ◌++◌, if◌then◌else◌, ◌==◌, ◌&&◌,
  ◌||◌, leb, length, tally, get, put, keys,
}
use kraken.PieceRequest
use kraken.PieceRequest.{Manager, Request, Status}
use kraken.Dispatcher.Types.{State, PeerStats, Peer, Answers, Sent, requests}
use kraken.Dispatcher.Bits.{priority, wanted, member, is_refusal}

-- `endgame`: few pieces are left.
unfoldable pub endgame : State → Bool
endgame s =
    if s.config.disable_endgame
    then false
    else leb (length s.torrent - tally (λ b. b) s.torrent) s.config.endgame_threshold

unfoldable pub update_stats : ℕ → (PeerStats → PeerStats) → State → State
update_stats peer f s = elim (get peer s.peer_stats) [
  | none ↦ s
  | some p ↦ record s { peer_stats = put peer (f p) s.peer_stats }
]

unfoldable pub update_peer : ℕ → (Peer → Peer) → State → State
update_peer peer f s = elim (get peer s.peers) [
  | none ↦ s
  | some p ↦ record s { peers = put peer (f p) s.peers }
]

unfoldable pub send : Answers → Sent → State → State
send a m s = if a.sends m then record s { sent = s.sent ++ m ∷ [] } else s

-- The loop of `maybeSendPieceRequests`, which ends at the first message that cannot be sent.
unfoldable pub send_requests : Answers → ℕ → List ℕ → State → State × Bool
unfolding update_stats
send_requests a peer [] s = (s, true)
send_requests a peer (i ∷ is) s =
    if a.sends (requests peer i)
    then send_requests a peer is (
        update_stats peer (λ p. record p { piece_requests_sent = suc p.piece_requests_sent })
          (record s { sent = s.sent ++ requests peer i ∷ [] }))
    else (record s { manager = PieceRequest.mark_unsent peer i s.manager }, false)

-- The result is true when requests were sent, without an error.
unfoldable pub maybe_send_piece_requests : Answers → ℕ → List ℕ → State → State × Bool
unfolding send_requests endgame
maybe_send_piece_requests a peer candidates s =
    let (m, pieces) =
      PieceRequest.reserve_pieces (a.draws (length s.manager.cells)) (priority s.num_peers_by_piece)
        a.now peer candidates (endgame s) s.manager in
    if length pieces == 0
    then (record s { manager = m }, false)
    else send_requests a peer pieces (record s { manager = m })

unfoldable pub maybe_request_more_pieces : Answers → ℕ → State → State
unfolding maybe_send_piece_requests
maybe_request_more_pieces a peer s = elim (get peer s.peers) [
  | none ↦ s
  | some p ↦ (maybe_send_piece_requests a peer (wanted p.bitfield s.torrent) s).0
]

-- One peer in the loop of `resendFailedPieceRequests`: the result is true when the request was sent.
unfoldable pub resend_to : Answers → Request → ℕ → State → State × Bool
unfolding maybe_send_piece_requests
resend_to a r id s = elim (get id s.peers) [
  | none ↦ (s, false)
  | some p ↦
      if (is_refusal r.status && (r.peer_id == id))
        || not (member r.piece (wanted p.bitfield s.torrent))
      then (s, false)
      else maybe_send_piece_requests a id (r.piece ∷ []) s
]

-- The loop over the peers, for one request.
unfoldable pub resend_one : Answers → Request → List ℕ → State → State
unfolding resend_to
resend_one a r [] s = s
resend_one a r (id ∷ ids) s =
    let (s', ok) = resend_to a r id s in
    let go_on = resend_one a r ids s' in if ok then s' else go_on

unfoldable pub resend_all : Answers → List Request → State → State
unfolding resend_one
resend_all a [] s = s
resend_all a (r ∷ rs) s = resend_all a rs (resend_one a r (keys s.peers) s)

unfoldable pub resend_failed_piece_requests : Answers → State → State
unfolding resend_all
resend_failed_piece_requests a s = resend_all a (PieceRequest.get_failed_requests a.now s.manager) s
