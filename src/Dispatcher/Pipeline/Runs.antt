-- ===== src/Dispatcher/Pipeline/Runs.antt =====
-- The pipeline limit over everything that happens at a dispatcher.
use kraken.Base.{
  ℤ, pos, negsuc, ℕ, suc, Bool, true, false, not, List, [], ◌∷◌, ◌++◌, if◌then◌else◌, ◌≡◌, refl,
  sym, ◌∙◌, subst, ◌==◌, ◌&&◌, ◌||◌, leb, length, set, get, keys, if-cases, Option-cases, inl, inr,
}
use kraken.PieceRequest
use kraken.PieceRequest.{
  Manager, Request, Call, calls_reserve, calls_unsent, calls_invalid, calls_clear, calls_clear_peer,
}
use kraken.Dispatcher.{
  State, Peer, PeerStats, Answers, payload, rejects, closes, Message, error, announce_piece,
  piece_request, piece_payload, cancel_piece, bitfield, complete, unknown, Written, written,
  piece_complete, write_failed, update_stats, update_peer, send, maybe_send_piece_requests,
  maybe_request_more_pieces, resend_to, resend_one, resend_all, resend_failed_piece_requests,
  announce_all, complete_torrent, is_full_piece, handle_announce_piece, handle_piece_request,
  handle_written, handle_piece_payload, handle_complete, dispatch, set_bit, set_all, count_up,
  wanted, is_refusal, member,
}
use kraken.Dispatcher.Pipeline.{
  Bounded, invalid-Bounded, clear-Bounded, manager-update_stats, manager-update_peer, manager-send,
  manager-announce_all, manager-complete_torrent, maybe_send-Bounded, maybe_request_more-Bounded,
}

module _ (a : Answers) (limit : ℕ) where
  -- At the time of the handler.
  abbrev pub Holds : State → Type 0
  Holds s = Bounded a.now limit s.manager

  same-Holds : (s t : State) → t.manager ≡ s.manager → Holds s → Holds t
  same-Holds s t e h = subst (Bounded a.now limit) (sym e) h

  resend_to-Holds : (r : Request) (id : ℕ) (s : State) → Holds s → Holds (resend_to a r id s).0
  unfolding resend_to
  resend_to-Holds r id s h = elim (Option-cases (get id s.peers)) [
    | inl gone ↦ rw (gone, resend_to) h
    | inr (p, there) ↦
        rw (there, resend_to)
          (if-cases (λ (t : State × Bool). Bounded a.now limit t.0.manager)
            ((is_refusal r.status && (r.peer_id == id))
              || not (member r.piece (wanted p.bitfield s.torrent)))
            (s, false) (maybe_send_piece_requests a id (r.piece ∷ []) s) (λ skip. h)
            (λ fits. maybe_send-Bounded a limit id (r.piece ∷ []) s h))
  ]

  resend_one-Holds :
      (r : Request) (ids : List ℕ) (s : State) → Holds s → Holds (resend_one a r ids s)
  unfolding resend_one
  resend_one-Holds r [] s h = h
  resend_one-Holds r (id ∷ ids) s h =
      let s' = (resend_to a r id s).0 in
      let h' = resend_to-Holds r id s h in
      if-cases Holds (resend_to a r id s).1 s' (resend_one a r ids s') (λ ok. h')
        (λ on. resend_one-Holds r ids s' h')

  resend_all-Holds : (rs : List Request) (s : State) → Holds s → Holds (resend_all a rs s)
  unfolding resend_all
  resend_all-Holds [] s h = h
  resend_all-Holds (r ∷ rs) s h =
      resend_all-Holds rs (resend_one a r (keys s.peers) s) (resend_one-Holds r (keys s.peers) s h)

  pub more-Holds : (peer : ℕ) (s : State) → Holds s → Holds (maybe_request_more_pieces a peer s)
  more-Holds peer s h = maybe_request_more-Bounded a limit peer s h

  announce_piece-Holds :
      (peer i : ℕ) (s : State) → Holds s → Holds (handle_announce_piece a peer (pos i) s)
  unfolding handle_announce_piece
  announce_piece-Holds peer i s h =
      let f : Peer → Peer = λ p. record p { bitfield = set_bit i p.bitfield } in
      let s' : State = record s { num_peers_by_piece = count_up i s.num_peers_by_piece } in
      let t = update_peer peer f s' in
      if-cases Holds (leb (length s.torrent) i) s (maybe_request_more_pieces a peer t) (λ out. h)
        (λ in_torrent. more-Holds peer t (same-Holds s t (manager-update_peer peer f s') h))

  piece_request-Holds :
      (peer i : ℕ) (offset n : ℤ) (s : State)
      → Holds s
      → Holds (handle_piece_request a peer (pos i) offset n s)
  unfolding handle_piece_request
  piece_request-Holds peer i offset n s h =
      let received : PeerStats → PeerStats =
        λ p. record p { piece_requests_received = suc p.piece_requests_received } in
      let counted = update_stats peer received s in
      let same = manager-update_stats peer received s in
      let sent_stats : PeerStats → PeerStats = λ p. record p { pieces_sent = suc p.pieces_sent } in
      let sent_piece : Peer → Peer =
        λ p. record p { bitfield = set_bit i p.bitfield; last_piece_sent = a.now } in
      let with_payload : State = record counted {
        sent = s.sent ++ payload peer (pos i) ∷ [];
        last_read = if a.reader_closes then s.last_read else a.now;
      } in
      if-cases Holds (not (is_full_piece (pos i) offset n s) || not (a.opens (pos i)))
        (send a (rejects peer (pos i)) counted)
        (if a.sends (payload peer (pos i))
          then update_peer peer sent_piece (update_stats peer sent_stats with_payload)
          else counted)
        (λ refused.
          same-Holds s (send a (rejects peer (pos i)) counted)
            (manager-send a (rejects peer (pos i)) counted ∙ same) h)
        (λ fine.
          if-cases Holds (a.sends (payload peer (pos i)))
            (update_peer peer sent_piece (update_stats peer sent_stats with_payload)) counted
            (λ ok.
              same-Holds s (update_peer peer sent_piece (update_stats peer sent_stats with_payload))
                (manager-update_peer peer sent_piece (update_stats peer sent_stats with_payload)
                  ∙ manager-update_stats peer sent_stats with_payload
                  ∙ same)
                h)
            (λ lost. same-Holds s counted same h))

  negative_request-Holds :
      (peer i : ℕ) (offset n : ℤ) (s : State)
      → Holds s
      → Holds (handle_piece_request a peer (negsuc i) offset n s)
  unfolding handle_piece_request
  negative_request-Holds peer i offset n s h =
      let received : PeerStats → PeerStats =
        λ p. record p { piece_requests_received = suc p.piece_requests_received } in
      let counted = update_stats peer received s in
      let same = manager-update_stats peer received s in
      let m = negsuc i in
      let panicked : State = record counted {
        sent = s.sent ++ payload peer m ∷ [];
        has_panicked = true;
      } in
      if-cases Holds (not (is_full_piece m offset n s) || not (a.opens m))
        (send a (rejects peer m) counted) (if a.sends (payload peer m) then panicked else counted)
        (λ refused.
          same-Holds s (send a (rejects peer m) counted)
            (manager-send a (rejects peer m) counted ∙ same) h)
        (λ fine.
          if-cases Holds (a.sends (payload peer m)) panicked counted
            (λ ok. same-Holds s panicked same h) (λ lost. same-Holds s counted same h))

  invalid-Holds :
      (peer i : ℕ) (s : State)
      → Holds s
      → Holds (record s { manager = PieceRequest.mark_invalid peer i s.manager })
  invalid-Holds peer i s h = invalid-Bounded a.now limit s.manager h peer i

  clear-Holds :
      (i : ℕ) (s : State) → Holds s → Holds (record s { manager = PieceRequest.clear i s.manager })
  clear-Holds i s h = clear-Bounded a.now limit s.manager h i

  written-Holds :
      (peer i : ℕ) (all : Bool) (s : State) → Holds s → Holds (handle_written a peer i all s)
  unfolding handle_written
  written-Holds peer i all s h =
      let received : Peer → Peer = λ p. record p { last_good_piece_received = a.now } in
      let good : PeerStats → PeerStats =
        λ p. record p { good_pieces_received = suc p.good_pieces_received } in
      let s0 : State = record s {
        torrent = set s.torrent i true;
        is_complete = all;
        last_write = a.now;
      } in
      let s1 = update_peer peer received (update_stats peer good s0) in
      let done = if all then complete_torrent a s1 else s1 in
      let cleared : State = record done { manager = PieceRequest.clear i done.manager } in
      let more = maybe_request_more_pieces a peer cleared in
      let h1 : Holds s1 =
        same-Holds s s1
          (manager-update_peer peer received (update_stats peer good s0)
            ∙ manager-update_stats peer good s0)
          h in
      let h2 : Holds done =
        if-cases Holds all (complete_torrent a s1) s1
          (λ e. same-Holds s1 (complete_torrent a s1) (manager-complete_torrent a s1) h1)
          (λ e. h1) in
      same-Holds more (announce_all a peer i more.peers more)
        (manager-announce_all a peer i more.peers more)
        (more-Holds peer cleared (clear-Holds i done h2))

  piece_payload-Holds :
      (peer i : ℕ) (offset n : ℤ) (answer : Written) (s : State)
      → Holds s
      → Holds (handle_piece_payload a peer (pos i) offset n answer s)
  unfolding handle_piece_payload
  piece_payload-Holds peer i offset n (written all) s h =
      if-cases Holds (not (is_full_piece (pos i) offset n s))
        (record s { manager = PieceRequest.mark_invalid peer i s.manager })
        (handle_written a peer i all s) (λ part. invalid-Holds peer i s h)
        (λ full. written-Holds peer i all s h)
  piece_payload-Holds peer i offset n piece_complete s h =
      let duplicate : PeerStats → PeerStats =
        λ p. record p { duplicate_pieces_received = suc p.duplicate_pieces_received } in
      if-cases Holds (not (is_full_piece (pos i) offset n s))
        (record s { manager = PieceRequest.mark_invalid peer i s.manager })
        (update_stats peer duplicate s) (λ part. invalid-Holds peer i s h)
        (λ full.
          same-Holds s (update_stats peer duplicate s) (manager-update_stats peer duplicate s) h)
  piece_payload-Holds peer i offset n write_failed s h =
      let refused : State = record s { manager = PieceRequest.mark_invalid peer i s.manager } in
      if-cases Holds (not (is_full_piece (pos i) offset n s)) refused refused
        (λ part. invalid-Holds peer i s h) (λ full. invalid-Holds peer i s h)

  negative_payload-Holds :
      (peer i : ℕ) (offset n : ℤ) (answer : Written) (s : State)
      → Holds s
      → Holds (handle_piece_payload a peer (negsuc i) offset n answer s)
  unfolding handle_piece_payload
  negative_payload-Holds peer i offset n (written all) s h =
      let panicked : State = record s { has_panicked = true } in
      if-cases Holds (not (is_full_piece (negsuc i) offset n s)) s panicked (λ part. h) (λ full. h)
  negative_payload-Holds peer i offset n piece_complete s h =
      let duplicate : PeerStats → PeerStats =
        λ p. record p { duplicate_pieces_received = suc p.duplicate_pieces_received } in
      let t = update_stats peer duplicate s in
      if-cases Holds (not (is_full_piece (negsuc i) offset n s)) s t (λ part. h)
        (λ full. same-Holds s t (manager-update_stats peer duplicate s) h)
  negative_payload-Holds peer i offset n write_failed s h =
      if-cases Holds (not (is_full_piece (negsuc i) offset n s)) s s (λ part. h) (λ full. h)

  complete-Holds : (peer : ℕ) (s : State) → Holds s → Holds (handle_complete a peer s)
  unfolding handle_complete
  complete-Holds peer s h =
      let f : Peer → Peer = λ p. record p { bitfield = set_all p.bitfield } in
      let t = update_peer peer f s in
      let closed : State = record s { sent = s.sent ++ closes peer ∷ [] } in
      if-cases Holds s.is_complete closed (maybe_request_more_pieces a peer t)
        (λ done. same-Holds s closed refl h)
        (λ on. more-Holds peer t (same-Holds s t (manager-update_peer peer f s) h))

  pub dispatch-Holds :
      (peer : ℕ) (msg : Message) (s : State) → Holds s → Holds (dispatch a peer msg s)
  unfolding dispatch
  dispatch-Holds peer (error true (pos i)) s h = invalid-Holds peer i s h
  dispatch-Holds peer (error false (pos i)) s h = h
  dispatch-Holds peer (error b (negsuc i)) s h = h
  dispatch-Holds peer (announce_piece (pos i)) s h = announce_piece-Holds peer i s h
  dispatch-Holds peer (announce_piece (negsuc i)) s h =
      unfold handle_announce_piece in same-Holds s (record s { has_panicked = true }) refl h
  dispatch-Holds peer (piece_request (pos i) offset n) s h = piece_request-Holds peer i offset n s h
  dispatch-Holds peer (piece_request (negsuc i) offset n) s h =
      negative_request-Holds peer i offset n s h
  dispatch-Holds peer (piece_payload (pos i) offset n w) s h =
      piece_payload-Holds peer i offset n w s h
  dispatch-Holds peer (piece_payload (negsuc i) offset n w) s h =
      negative_payload-Holds peer i offset n w s h
  dispatch-Holds peer (cancel_piece i) s h = h
  dispatch-Holds peer bitfield s h = h
  dispatch-Holds peer complete s h = complete-Holds peer s h
  dispatch-Holds peer unknown s h = h

  pub resend_failed-Holds : (s : State) → Holds s → Holds (resend_failed_piece_requests a s)
  unfolding resend_failed_piece_requests
  resend_failed-Holds s h = resend_all-Holds (PieceRequest.get_failed_requests a.now s.manager) s h
