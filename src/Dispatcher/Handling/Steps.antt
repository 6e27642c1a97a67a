-- ===== src/Dispatcher/Handling/Steps.antt =====
-- A written piece, every message and every step of a dispatcher.
use kraken.Base.{
  ℤ, pos, negsuc, ℕ, suc, ◌≤◌, Bool, true, false, not, some, List, [], ◌∷◌, ◌++◌, ◌≡◌, refl, sym,
  ap, ◌∙◌, subst, arith, set, tally, tally-append, get, has, Bool-cases, if-cases, some_injective,
  Option-cases, inl, inr, if◌then◌else◌,
}
use kraken.MetaInfo.{MetaInfo}
use kraken.PieceRequest
use kraken.PieceRequest.{Manager}
use kraken.Dispatcher.{
  State, Peer, PeerStats, Answers, Config, closes, removed, Message, error, announce_piece,
  piece_request, piece_payload, cancel_piece, bitfield, complete, unknown, Written, written,
  piece_complete, write_failed, update_stats, update_peer, maybe_request_more_pieces,
  resend_failed_piece_requests, close_all, tear_down, announce_all, add_peer, remove_peer,
  complete_torrent, new, new_state, apply_defaults, is_full_piece, handle_announce_piece,
  handle_written, handle_piece_payload, handle_complete, dispatch, Move, adds, asks_more, receives,
  leaves, resends, tears_down, step, run, set_all,
}
use kraken.Dispatcher.Sending.{is_completion, Sends, maybe_request_more-Sends}
use kraken.Dispatcher.Sending.Loops.{resend_failed-Sends, close_all-Sends, announce_all-Sends}
use kraken.Dispatcher.Handling.{
  Told, bit, Asks, Asks-quiet, flags, Asks-none, Asks-one, Asks-Sends, Asks-after,
  flags-update_peer, flags-update_stats, announce_piece-Asks, piece_request-Asks,
  negative_request-Asks, complete_torrent-Asks, is_completed-complete_torrent,
}

-- A written piece, once the completion is told where there is one.
written_rest-Asks :
    (a : Answers) (peer i : ℕ) (s t : State)
    → Asks s t
    → Asks s (
        announce_all a peer i
          (maybe_request_more_pieces a peer
            (record t { manager = PieceRequest.clear i t.manager })).peers
          (maybe_request_more_pieces a peer
            (record t { manager = PieceRequest.clear i t.manager })))
written_rest-Asks a peer i s t asks =
    let t' : State = record t { manager = PieceRequest.clear i t.manager } in
    let more = maybe_request_more_pieces a peer t' in
    Asks-Sends s more (announce_all a peer i more.peers more)
      (Asks-Sends s t' more asks (maybe_request_more-Sends a peer t'))
      (announce_all-Sends a peer i more.peers more)

written-Asks :
    (a : Answers) (peer i : ℕ) (all : Bool) (s : State) → Asks s (handle_written a peer i all s)
unfolding handle_written
written-Asks a peer i all s =
    let received : Peer → Peer = λ p. record p { last_good_piece_received = a.now } in
    let good : PeerStats → PeerStats =
      λ p. record p { good_pieces_received = suc p.good_pieces_received } in
    let s0 : State = record s {
      torrent = set s.torrent i true;
      is_complete = all;
      last_write = a.now;
    } in
    let s1 = update_peer peer received (update_stats peer good s0) in
    let same : flags s1 ≡ (s.sent, all, s.is_completed) =
      flags-update_peer peer received (update_stats peer good s0)
      ∙ flags-update_stats peer good s0 in
    let done = if all then complete_torrent a s1 else s1 in
    written_rest-Asks a peer i s done (
      if-cases (Asks s) all (complete_torrent a s1) s1
        (λ e.
          complete_torrent-Asks a s s1 (ap (λ w. w.0) same) (ap (λ w. w.2) same)
            (ap (λ w. w.1) same ∙ e))
        (λ e.
          Asks-quiet s s1 (ap (λ w. w.0) same) (ap (λ w. w.2) same)
            (λ was now. ground (arith, e, now, ap (λ w. w.1) same))))

piece_payload-Asks :
    (a : Answers) (peer i : ℕ) (offset n : ℤ) (answer : Written) (s : State)
    → Asks s (handle_piece_payload a peer (pos i) offset n answer s)
unfolding handle_piece_payload
piece_payload-Asks a peer i offset n (written all) s =
    if-cases (Asks s) (not (is_full_piece (pos i) offset n s)) _ (handle_written a peer i all s)
      (λ part. Asks-none s (record s { manager = PieceRequest.mark_invalid peer i s.manager }) refl)
      (λ full. written-Asks a peer i all s)
piece_payload-Asks a peer i offset n piece_complete s =
    let duplicate : PeerStats → PeerStats =
      λ p. record p { duplicate_pieces_received = suc p.duplicate_pieces_received } in
    if-cases (Asks s) (not (is_full_piece (pos i) offset n s)) _ (update_stats peer duplicate s)
      (λ part. Asks-none s (record s { manager = PieceRequest.mark_invalid peer i s.manager }) refl)
      (λ full. Asks-none s (update_stats peer duplicate s) (flags-update_stats peer duplicate s))
piece_payload-Asks a peer i offset n write_failed s =
    let refused : State = record s { manager = PieceRequest.mark_invalid peer i s.manager } in
    if-cases (Asks s) (not (is_full_piece (pos i) offset n s)) refused refused
      (λ part. Asks-none s refused refl) (λ full. Asks-none s refused refl)

negative_payload-Asks :
    (a : Answers) (peer i : ℕ) (offset n : ℤ) (answer : Written) (s : State)
    → Asks s (handle_piece_payload a peer (negsuc i) offset n answer s)
unfolding handle_piece_payload
negative_payload-Asks a peer i offset n (written all) s =
    if-cases (Asks s) (not (is_full_piece (negsuc i) offset n s)) s _ (λ part. Asks-none s s refl)
      (λ full. Asks-none s (record s { has_panicked = true }) refl)
negative_payload-Asks a peer i offset n piece_complete s =
    let duplicate : PeerStats → PeerStats =
      λ p. record p { duplicate_pieces_received = suc p.duplicate_pieces_received } in
    if-cases (Asks s) (not (is_full_piece (negsuc i) offset n s)) s (update_stats peer duplicate s)
      (λ part. Asks-none s s refl)
      (λ full. Asks-none s (update_stats peer duplicate s) (flags-update_stats peer duplicate s))
negative_payload-Asks a peer i offset n write_failed s =
    if-cases (Asks s) (not (is_full_piece (negsuc i) offset n s)) s s (λ part. Asks-none s s refl)
      (λ full. Asks-none s s refl)

complete-Asks : (a : Answers) (peer : ℕ) (s : State) → Asks s (handle_complete a peer s)
unfolding handle_complete
complete-Asks a peer s =
    let f : Peer → Peer = λ p. record p { bitfield = set_all p.bitfield } in
    let t = update_peer peer f s in
    if-cases (Asks s) s.is_complete _ (maybe_request_more_pieces a peer t)
      (λ done.
        Asks-one s (record s { sent = s.sent ++ closes peer ∷ [] }) (closes peer) refl tt refl)
      (λ on.
        Asks-after s t (maybe_request_more_pieces a peer t) (flags-update_peer peer f s)
          (maybe_request_more-Sends a peer t))

Sends-Asks : (s t : State) → Sends s t → Asks s t
Sends-Asks s t sends = Asks-after s s t refl sends

dispatch-Asks :
    (a : Answers) (peer : ℕ) (msg : Message) (s : State) → Asks s (dispatch a peer msg s)
unfolding dispatch
dispatch-Asks a peer (error true (negsuc i)) s = Asks-none s s refl
dispatch-Asks a peer (error false (negsuc i)) s = Asks-none s s refl
dispatch-Asks a peer (error true (pos i)) s =
    Asks-none s (record s { manager = PieceRequest.mark_invalid peer i s.manager }) refl
dispatch-Asks a peer (error false (pos i)) s = Asks-none s s refl
dispatch-Asks a peer (announce_piece (pos i)) s = announce_piece-Asks a peer i s
dispatch-Asks a peer (announce_piece (negsuc i)) s =
    unfold handle_announce_piece in Asks-none s (record s { has_panicked = true }) refl
dispatch-Asks a peer (piece_request (pos i) offset n) s = piece_request-Asks a peer i offset n s
dispatch-Asks a peer (piece_request (negsuc i) offset n) s =
    negative_request-Asks a peer i offset n s
dispatch-Asks a peer (piece_payload (pos i) offset n w) s = piece_payload-Asks a peer i offset n w s
dispatch-Asks a peer (piece_payload (negsuc i) offset n w) s =
    negative_payload-Asks a peer i offset n w s
dispatch-Asks a peer (cancel_piece i) s = Asks-none s s refl
dispatch-Asks a peer bitfield s = Asks-none s s refl
dispatch-Asks a peer complete s = complete-Asks a peer s
dispatch-Asks a peer unknown s = Asks-none s s refl

remove_peer-Asks : (id : ℕ) (s : State) → Asks s (remove_peer id s)
unfolding remove_peer
remove_peer-Asks id s = elim (Option-cases (get id s.peers)) [
  | inl gone ↦ rw (gone, remove_peer) (Asks-none s s refl)
  | inr (p, there) ↦
      rw (there, remove_peer)
        (
          removed id ∷ [],
          refl,
          tt,
          ground arith,
          λ told. told,
          λ before now. ground (arith, before, now),
        )
]

flags-add_peer : (id : ℕ) (bits : List Bool) (s : State) → flags (add_peer id bits s).0 ≡ flags s
unfolding add_peer
flags-add_peer id bits s = elim (Bool-cases (has id s.peers)) [
  | inl known ↦ rw (known, add_peer)
  | inr fresh ↦ rw (fresh, add_peer)
]

-- Where the handlers of a dispatcher run one after the other, each to its end, it requests from a
-- peer only pieces that the peer has and the torrent lacks; it tells the event loop of the
-- completion once at most, where the torrent becomes complete, and only of a complete torrent.
pub step-Asks : (m : Move) (s : State) → Asks s (step m s)
unfolding step
step-Asks (adds id bits) s = Asks-none s (add_peer id bits s).0 (flags-add_peer id bits s)
step-Asks (asks_more a id) s =
    Sends-Asks s (maybe_request_more_pieces a id s) (maybe_request_more-Sends a id s)
step-Asks (receives a id msg) s = dispatch-Asks a id msg s
step-Asks (leaves id) s = remove_peer-Asks id s
step-Asks (resends a) s =
    if-cases (Asks s) s.is_watching (resend_failed_piece_requests a s) s
      (λ on. Sends-Asks s (resend_failed_piece_requests a s) (resend_failed-Sends a s))
      (λ off. Asks-none s s refl)
step-Asks tears_down s =
    let t : State = record s { is_watching = false } in
    unfold tear_down in Asks-after s t (close_all s.peers t) refl (close_all-Sends s.peers t)

run-Told :
    (ms : List Move) (s : State)
    → tally is_completion s.sent ≡ bit s.is_completed
    → Told s
    → (tally is_completion (run ms s).sent ≡ bit (run ms s).is_completed) × Told (run ms s)
unfolding run
run-Told [] s n told = (n, told)
run-Told (m ∷ ms) s n told =
    let (new, e, all, n', told', of_complete) = step-Asks m s in
    run-Told ms (step m s) (ground (arith, e, n, n', tally-append is_completion s.sent new))
      (told' told)

-- A new dispatcher is in the state of `newDispatcher`, where it told a complete torrent.
pub new-cases :
    (a : Answers) (c : Config) (timeout : ℕ) (mi : MetaInfo) (torrent : List Bool) (all : Bool)
    (s : State)
    → new a c timeout mi torrent all ≡ some s
    → (m : Manager) × ((if all
          then complete_torrent a (new_state a.now (apply_defaults c) m mi torrent all)
          else new_state a.now (apply_defaults c) m mi torrent all)
        ≡ s)
      × (PieceRequest.new_manager timeout
            (apply_defaults c).piece_request_policy
            (apply_defaults c).pipeline_limit
          ≡ some m)
unfolding new
new-cases a c timeout mi torrent all s made =
    let config = apply_defaults c in
    elim (Option-cases
      (PieceRequest.new_manager timeout config.piece_request_policy config.pipeline_limit)) [
        | inl no_policy ↦ ground (arith, made, no_policy)
        | inr (m, e) ↦ (m, some_injective (sym (unfold new in rw (e, new)) ∙ made), e)
      ]

new-Told :
    (a : Answers) (c : Config) (timeout : ℕ) (mi : MetaInfo) (torrent : List Bool) (all : Bool)
    (s : State)
    → new a c timeout mi torrent all ≡ some s
    → (tally is_completion s.sent ≡ bit s.is_completed) × Told s
new-Told a c timeout mi torrent all s made =
    let (m, e, is_new) = new-cases a c timeout mi torrent all s made in
    let s0 = new_state a.now (apply_defaults c) m mi torrent all in
    let P : State → Type 0 = λ t. (tally is_completion t.sent ≡ bit t.is_completed) × Told t in
    subst P e (
      if-cases P all (complete_torrent a s0) s0
        (λ done.
          let (sent, e', w, n, told, of_complete) =
            complete_torrent-Asks a s0 s0 refl refl (unfold new_state in done) in
          (unfold new_state in ground (arith, e', n), λ now. is_completed-complete_torrent a s0))
        (λ still.
          (unfold new_state in refl, λ now. unfold new_state in ground (arith, now, still))))

-- The event loop is told at most once that a torrent is complete, and once it is complete it was
-- told, whatever happens at a new dispatcher.
pub run-completes_once :
    (a : Answers) (c : Config) (timeout : ℕ) (mi : MetaInfo) (torrent : List Bool) (all : Bool)
    (s : State) (ms : List Move)
    → new a c timeout mi torrent all ≡ some s
    → (tally is_completion (run ms s).sent ≤ 1)
      × ((run ms s).is_complete ≡ true → tally is_completion (run ms s).sent ≡ 1)
run-completes_once a c timeout mi torrent all s ms made =
    let (n, told) = new-Told a c timeout mi torrent all s made in
    let (n', told') = run-Told ms s n told in
    (ground (arith, n'), λ done. ground (arith, n', told' done))
