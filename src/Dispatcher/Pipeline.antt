-- ===== src/Dispatcher/Pipeline.antt =====
-- The requests of a dispatcher are calls of the request manager, which keep its pipeline limit.
pub mod Runs
pub mod Limit
use kraken.Base.{
  ℕ, zero, suc, ◌+◌, ◌≤◌, ◌<◌, Bool, true, false, not, Option, none, some, List, [], ◌∷◌, ◌++◌,
  if◌then◌else◌, ◌≡◌, refl, sym, ap, ◌∙◌, subst, arith, ◌==◌, ◌&&◌, ◌||◌, leb, length, set, Map,
  get, put, has, keys, if-cases, Bool-cases, Option-cases, inl, inr,
}
use kraken.PieceRequest
use kraken.PieceRequest.{
  Manager, Request, Call, calls_reserve, calls_unsent, calls_invalid, calls_clear, calls_clear_peer,
}
use kraken.PieceRequest.Pipeline.Live.{live_count}
use kraken.PieceRequest.Pipeline.Reserving.{IsBounded, later-IsBounded, pieces-Fits}
use kraken.PieceRequest.Pipeline.Calls.{
  step-IsBounded, limit-step, new_manager-IsBounded, limit-new_manager,
}
use kraken.Dispatcher.{
  State, Peer, PeerStats, Answers, Sent, requests, payload, rejects, closes, completed, Message,
  error, announce_piece, piece_request, piece_payload, cancel_piece, bitfield, complete, unknown,
  Written, written, piece_complete, write_failed, update_stats, update_peer, send, send_requests,
  maybe_send_piece_requests, maybe_request_more_pieces, resend_to, resend_one, resend_all,
  resend_failed_piece_requests, close_all, tear_down, notify_all, announce_all, add_peer,
  remove_peer, complete_torrent, is_full_piece, handle_announce_piece, handle_piece_request,
  handle_written, handle_piece_payload, handle_complete, dispatch, Move, adds, asks_more, receives,
  leaves, resends, tears_down, step, run, set_bit, set_all, count_up, priority, endgame, wanted,
  is_refusal, member, all_bits, announces, completes,
}

-- At a time, no peer has more live requests than the limit.
abbrev pub Bounded : ℕ → ℕ → Manager → Type 0
Bounded now limit m = IsBounded now m × (m.pipeline_limit ≡ limit)

call-Bounded :
    (now limit : ℕ) (c : Call) (m : Manager)
    → Bounded now limit m
    → Bounded now limit (PieceRequest.step now c m)
call-Bounded now limit c m (b, l) = (step-IsBounded now c m b, limit-step now c m ∙ l)

module _ (now limit : ℕ) (m : Manager) (b : Bounded now limit m) where
  reserve-Bounded :
      (draws num_peers : ℕ → ℕ) (peer : ℕ) (candidates : List ℕ) (allow : Bool)
      → Bounded now limit
          (PieceRequest.reserve_pieces draws num_peers now peer candidates allow m).0
  unfolding PieceRequest.step
  reserve-Bounded draws num_peers peer candidates allow =
      call-Bounded now limit (calls_reserve draws num_peers peer candidates allow) m b

  unsent-Bounded : (peer i : ℕ) → Bounded now limit (PieceRequest.mark_unsent peer i m)
  unfolding PieceRequest.step
  unsent-Bounded peer i = call-Bounded now limit (calls_unsent peer i) m b

  pub invalid-Bounded : (peer i : ℕ) → Bounded now limit (PieceRequest.mark_invalid peer i m)
  unfolding PieceRequest.step
  invalid-Bounded peer i = call-Bounded now limit (calls_invalid peer i) m b

  pub clear-Bounded : (i : ℕ) → Bounded now limit (PieceRequest.clear i m)
  unfolding PieceRequest.step
  clear-Bounded i = call-Bounded now limit (calls_clear i) m b

  pub clear_peer-Bounded : (peer : ℕ) → Bounded now limit (PieceRequest.clear_peer peer m)
  unfolding PieceRequest.step
  clear_peer-Bounded peer = call-Bounded now limit (calls_clear_peer peer) m b

pub manager-update_stats :
    (peer : ℕ) (f : PeerStats → PeerStats) (s : State) → (update_stats peer f s).manager ≡ s.manager
unfolding update_stats
manager-update_stats peer f s = ground arith

pub manager-update_peer :
    (peer : ℕ) (f : Peer → Peer) (s : State) → (update_peer peer f s).manager ≡ s.manager
unfolding update_peer
manager-update_peer peer f s = ground arith

pub manager-send : (a : Answers) (m : Sent) (s : State) → (send a m s).manager ≡ s.manager
unfolding send
manager-send a m s = ground arith

pub manager-announce_all :
    (a : Answers) (peer i : ℕ) (ps : Map Peer) (s : State)
    → (announce_all a peer i ps s).manager ≡ s.manager
unfolding announce_all
manager-announce_all a peer i [] s = refl
manager-announce_all a peer i ((id, p) ∷ ps) s =
    let t = send a (announces id i) s in
    let s' = if id == peer then s else t in
    manager-announce_all a peer i ps s'
    ∙ if-cases (λ (u : State). u.manager ≡ s.manager) (id == peer) s t (λ same. refl)
        (λ other. manager-send a (announces id i) s)

manager-notify_all :
    (a : Answers) (ps : Map Peer) (s : State) → (notify_all a ps s).manager ≡ s.manager
unfolding notify_all
manager-notify_all a [] s = refl
manager-notify_all a ((id, p) ∷ ps) s =
    let closed : State = record s { sent = s.sent ++ closes id ∷ [] } in
    let told = send a (completes id) s in
    let s' = if all_bits p.bitfield then closed else told in
    manager-notify_all a ps s'
    ∙ if-cases (λ (u : State). u.manager ≡ s.manager) (all_bits p.bitfield) closed told
        (λ all. refl) (λ some_left. manager-send a (completes id) s)

pub manager-complete_torrent :
    (a : Answers) (s : State) → (complete_torrent a s).manager ≡ s.manager
unfolding complete_torrent
manager-complete_torrent a s = manager-notify_all a s.peers (record s {
  is_completed = true;
  is_watching = false;
  sent = if s.is_completed then s.sent else s.sent ++ completed ∷ [];
})

pub manager-close_all : (ps : Map Peer) (s : State) → (close_all ps s).manager ≡ s.manager
unfolding close_all
manager-close_all [] s = refl
manager-close_all ((id, p) ∷ ps) s =
    manager-close_all ps (record s { sent = s.sent ++ closes id ∷ [] })

module _ (a : Answers) (limit : ℕ) where
  send_requests-Bounded :
      (peer : ℕ) (is : List ℕ) (s : State)
      → Bounded a.now limit s.manager
      → Bounded a.now limit (send_requests a peer is s).0.manager
  unfolding send_requests
  send_requests-Bounded peer [] s b = b
  send_requests-Bounded peer (i ∷ is) s b =
      let f : PeerStats → PeerStats =
        λ p. record p { piece_requests_sent = suc p.piece_requests_sent } in
      let sent_one : State = record s { sent = s.sent ++ requests peer i ∷ [] } in
      let s' = update_stats peer f sent_one in
      if-cases (λ (t : State × Bool). Bounded a.now limit t.0.manager) (a.sends (requests peer i))
        (send_requests a peer is s')
        (record s { manager = PieceRequest.mark_unsent peer i s.manager }, false)
        (λ ok.
          send_requests-Bounded peer is s'
            (subst (Bounded a.now limit) (sym (manager-update_stats peer f sent_one)) b))
        (λ lost. unsent-Bounded a.now limit s.manager b peer i)

  pub maybe_send-Bounded :
      (peer : ℕ) (candidates : List ℕ) (s : State)
      → Bounded a.now limit s.manager
      → Bounded a.now limit (maybe_send_piece_requests a peer candidates s).0.manager
  unfolding maybe_send_piece_requests
  maybe_send-Bounded peer candidates s b =
      let r =
        PieceRequest.reserve_pieces (a.draws (length s.manager.cells))
          (priority s.num_peers_by_piece) a.now peer candidates (endgame s) s.manager in
      let b' =
        reserve-Bounded a.now limit s.manager b (a.draws (length s.manager.cells))
          (priority s.num_peers_by_piece) peer candidates (endgame s) in
      if-cases (λ (t : State × Bool). Bounded a.now limit t.0.manager) (length r.1 == 0)
        (record s { manager = r.0 }, false) (send_requests a peer r.1 (record s { manager = r.0 }))
        (λ none_reserved. b')
        (λ some_reserved. send_requests-Bounded peer r.1 (record s { manager = r.0 }) b')

  pub maybe_request_more-Bounded :
      (peer : ℕ) (s : State)
      → Bounded a.now limit s.manager
      → Bounded a.now limit (maybe_request_more_pieces a peer s).manager
  unfolding maybe_request_more_pieces
  maybe_request_more-Bounded peer s b = elim (Option-cases (get peer s.peers)) [
    | inl gone ↦ rw (gone, maybe_request_more_pieces) b
    | inr (p, there) ↦
        rw (there, maybe_request_more_pieces)
          (maybe_send-Bounded peer (wanted p.bitfield s.torrent) s b)
  ]
