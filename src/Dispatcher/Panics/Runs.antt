-- ===== src/Dispatcher/Panics/Runs.antt =====
-- Every step of a dispatcher keeps its indices in range.
use kraken.Base.{
  ℤ, pos, negsuc, ℕ, zero, suc, ◌<◌, Bool, true, false, not, some, List, [], ◌∷◌, ◌++◌,
  if◌then◌else◌, ◌≡◌, refl, ap, ◌∙◌, subst, arith, ◌||◌, length, set, length-set, get, has, get-del,
  Bool-cases, if-cases, Option-cases, inl, inr,
}
use kraken.MetaInfo.{MetaInfo}
use kraken.PieceRequest
use kraken.Dispatcher.{
  State, Peer, PeerStats, Answers, Config, payload, rejects, completed, Message, error,
  announce_piece, piece_request, piece_payload, cancel_piece, bitfield, complete, unknown, Written,
  written, piece_complete, write_failed, update_stats, update_peer, send, maybe_request_more_pieces,
  resend_failed_piece_requests, close_all, tear_down, notify_all, announce_all, add_peer,
  remove_peer, complete_torrent, is_full_piece, handle_piece_request, handle_written,
  handle_piece_payload, dispatch, Move, adds, asks_more, receives, leaves, resends, tears_down,
  step, run, set_bit, count_up, count_down, new, new_state, new_counters, apply_defaults, all_set,
}
use kraken.Dispatcher.Handling.Steps.{new-cases}
use kraken.Dispatcher.Sending.{update_stats-Sends, send-Sends, maybe_request_more-Sends}
use kraken.Dispatcher.Sending.Loops.{
  resend_failed-Sends, close_all-Sends, announce_all-Sends, notify_all-Sends,
}
use kraken.Dispatcher.Panics.{
  Fits, Fits-Sends, length-set_bit, length-count_all, length-count_up, length-count_down,
  all_set-in_range, put-lengths, update_peer-Fits, announce_piece-Fits, complete-Fits,
}

-- The archive opens readers of the torrent's pieces only.
piece_request-Fits :
    (n : ℕ) (a : Answers) (peer i : ℕ) (offset len : ℤ) (s : State)
    → (a.opens (pos i) ≡ true → i < n)
    → Fits n s
    → Fits n (handle_piece_request a peer (pos i) offset len s)
unfolding handle_piece_request
piece_request-Fits n a peer i offset len s opened fits =
    let received : PeerStats → PeerStats =
      λ p. record p { piece_requests_received = suc p.piece_requests_received } in
    let sent_stats : PeerStats → PeerStats = λ p. record p { pieces_sent = suc p.pieces_sent } in
    let sent_piece : Peer → Peer =
      λ p. record p { bitfield = set_bit i p.bitfield; last_piece_sent = a.now } in
    let counted = update_stats peer received s in
    let with_payload : State = record counted {
      sent = s.sent ++ payload peer (pos i) ∷ [];
      last_read = if a.reader_closes then s.last_read else a.now;
    } in
    let fits' = Fits-Sends n s counted fits (update_stats-Sends peer received s) in
    if-cases (Fits n) (not (is_full_piece (pos i) offset len s) || not (a.opens (pos i)))
      (send a (rejects peer (pos i)) counted) _
      (λ refused.
        Fits-Sends n counted (send a (rejects peer (pos i)) counted) fits'
          (send-Sends a (rejects peer (pos i)) counted tt refl))
      (λ fine.
        if-cases (Fits n) (a.sends (payload peer (pos i))) _ counted
          (λ ok.
            update_peer-Fits n peer sent_piece (update_stats peer sent_stats with_payload)
              (λ p e. length-set_bit i p.bitfield (ground (arith, e, fine, opened)) ∙ e)
              (Fits-Sends n with_payload (update_stats peer sent_stats with_payload) fits'
                (update_stats-Sends peer sent_stats with_payload)))
          (λ lost. fits'))

complete_torrent-Fits : (n : ℕ) (a : Answers) (s : State) → Fits n s → Fits n (complete_torrent a s)
unfolding complete_torrent
complete_torrent-Fits n a s fits =
    let told : State = record s {
      is_completed = true;
      is_watching = false;
      sent = if s.is_completed then s.sent else s.sent ++ completed ∷ [];
    } in
    Fits-Sends n told (notify_all a s.peers told) fits (notify_all-Sends a s.peers told)

written-Fits :
    (n : ℕ) (a : Answers) (peer i : ℕ) (all : Bool) (s : State)
    → Fits n s
    → Fits n (handle_written a peer i all s)
unfolding handle_written
written-Fits n a peer i all s (t, c, q, ls) =
    let received : Peer → Peer = λ p. record p { last_good_piece_received = a.now } in
    let good : PeerStats → PeerStats =
      λ p. record p { good_pieces_received = suc p.good_pieces_received } in
    let s0 : State = record s {
      torrent = set s.torrent i true;
      is_complete = all;
      last_write = a.now;
    } in
    let s1 = update_peer peer received (update_stats peer good s0) in
    let done = if all then complete_torrent a s1 else s1 in
    let cleared : State = record done { manager = PieceRequest.clear i done.manager } in
    let more = maybe_request_more_pieces a peer cleared in
    let fits0 : Fits n s0 = (length-set s.torrent i true ∙ t, c, q, ls) in
    let fits1 : Fits n s1 =
      update_peer-Fits n peer received (update_stats peer good s0) (λ p e. e)
        (Fits-Sends n s0 (update_stats peer good s0) fits0 (update_stats-Sends peer good s0)) in
    let fits2 : Fits n done =
      if-cases (Fits n) all (complete_torrent a s1) s1 (λ e. complete_torrent-Fits n a s1 fits1)
        (λ e. fits1) in
    Fits-Sends n more (announce_all a peer i more.peers more)
      (Fits-Sends n cleared more fits2 (maybe_request_more-Sends a peer cleared))
      (announce_all-Sends a peer i more.peers more)

piece_payload-Fits :
    (n : ℕ) (a : Answers) (peer i : ℕ) (offset len : ℤ) (answer : Written) (s : State)
    → Fits n s
    → Fits n (handle_piece_payload a peer (pos i) offset len answer s)
unfolding handle_piece_payload
piece_payload-Fits n a peer i offset len (written all) s fits =
    if-cases (Fits n) (not (is_full_piece (pos i) offset len s)) _ (handle_written a peer i all s)
      (λ part. fits) (λ full. written-Fits n a peer i all s fits)
piece_payload-Fits n a peer i offset len piece_complete s fits =
    let duplicate : PeerStats → PeerStats =
      λ p. record p { duplicate_pieces_received = suc p.duplicate_pieces_received } in
    if-cases (Fits n) (not (is_full_piece (pos i) offset len s)) _ (update_stats peer duplicate s)
      (λ part. fits)
      (λ full.
        Fits-Sends n s (update_stats peer duplicate s) fits (update_stats-Sends peer duplicate s))
piece_payload-Fits n a peer i offset len write_failed s fits =
    let refused : State = record s { manager = PieceRequest.mark_invalid peer i s.manager } in
    if-cases (Fits n) (not (is_full_piece (pos i) offset len s)) refused refused (λ part. fits)
      (λ full. fits)

abbrev pub IsIndex : ℤ → Type 0
IsIndex (pos i) = Unit
IsIndex (negsuc i) = ⊥

-- A peer that is added has a bit set of the torrent's length, a message about a piece has no negative
-- index, and a piece that is opened is one of the torrent's.
abbrev pub FitsMove : ℕ → Move → Type 0
FitsMove n (adds id bits) = length bits ≡ n
FitsMove n (receives a id (announce_piece i)) = IsIndex i
FitsMove n (receives a id (piece_request (pos i) offset len)) = a.opens (pos i) ≡ true → i < n
FitsMove n (receives a id (piece_request (negsuc i) offset len)) = ⊥
FitsMove n (receives a id (piece_payload i offset len w)) = IsIndex i
FitsMove n m = Unit

dispatch-Fits :
    (n : ℕ) (a : Answers) (peer : ℕ) (msg : Message) (s : State)
    → FitsMove n (receives a peer msg)
    → Fits n s
    → Fits n (dispatch a peer msg s)
unfolding dispatch
dispatch-Fits n a peer (error true (pos i)) s o fits = fits
dispatch-Fits n a peer (error false (pos i)) s o fits = fits
dispatch-Fits n a peer (error b (negsuc i)) s o fits = fits
dispatch-Fits n a peer (announce_piece (pos i)) s o fits = announce_piece-Fits n a peer i s fits
dispatch-Fits n a peer (announce_piece (negsuc i)) s o fits = absurd o
dispatch-Fits n a peer (piece_request (pos i) offset len) s o fits =
    piece_request-Fits n a peer i offset len s o fits
dispatch-Fits n a peer (piece_request (negsuc i) offset len) s o fits = absurd o
dispatch-Fits n a peer (piece_payload (negsuc i) offset len w) s o fits = absurd o
dispatch-Fits n a peer (piece_payload (pos i) offset len w) s o fits =
    piece_payload-Fits n a peer i offset len w s fits
dispatch-Fits n a peer (cancel_piece i) s o fits = fits
dispatch-Fits n a peer bitfield s o fits = fits
dispatch-Fits n a peer complete s o fits = complete-Fits n a peer s fits
dispatch-Fits n a peer unknown s o fits = fits

add_peer-Fits :
    (n id : ℕ) (bits : List Bool) (s : State)
    → length bits ≡ n
    → Fits n s
    → Fits n (add_peer id bits s).0
unfolding add_peer
add_peer-Fits n id bits s len (t, c, q, ls) = elim (Bool-cases (has id s.peers)) [
  | inl known ↦ rw (known, add_peer) (t, c, q, ls)
  | inr fresh ↦
      rw (fresh, add_peer)
        (
          t,
          length-count_all count_up (all_set bits) s.num_peers_by_piece length-count_up ∙ c,
          ground (arith, q, all_set-in_range n bits s.num_peers_by_piece len c),
          put-lengths n id _ s.peers len ls,
        )
]

remove_peer-Fits : (n id : ℕ) (s : State) → Fits n s → Fits n (remove_peer id s)
unfolding remove_peer
remove_peer-Fits n id s (t, c, q, ls) = elim (Option-cases (get id s.peers)) [
  | inl gone ↦ rw (gone, remove_peer) (t, c, q, ls)
  | inr (p, there) ↦
      rw (there, remove_peer)
        (
          t,
          length-count_all count_down (all_set p.bitfield) s.num_peers_by_piece length-count_down
              ∙ c,
          ground (arith, q, all_set-in_range n p.bitfield s.num_peers_by_piece (ls id p there) c),
          λ k x found. ls k x (ground (arith, found, get-del id k s.peers)),
        )
]

step-Fits : (n : ℕ) (m : Move) (s : State) → FitsMove n m → Fits n s → Fits n (step m s)
unfolding step
step-Fits n (adds id bits) s o fits = add_peer-Fits n id bits s o fits
step-Fits n (asks_more a id) s o fits =
    Fits-Sends n s (maybe_request_more_pieces a id s) fits (maybe_request_more-Sends a id s)
step-Fits n (receives a id msg) s o fits = dispatch-Fits n a id msg s o fits
step-Fits n (leaves id) s o fits = remove_peer-Fits n id s fits
step-Fits n (resends a) s o fits =
    if-cases (Fits n) s.is_watching (resend_failed_piece_requests a s) s
      (λ on. Fits-Sends n s (resend_failed_piece_requests a s) fits (resend_failed-Sends a s))
      (λ off. fits)
step-Fits n tears_down s o fits =
    let t : State = record s { is_watching = false } in
    unfold tear_down in Fits-Sends n t (close_all s.peers t) fits (close_all-Sends s.peers t)

abbrev pub AllFit : ℕ → List Move → Type 0
AllFit n [] = Unit
AllFit n (m ∷ ms) = FitsMove n m × AllFit n ms

run-Fits : (n : ℕ) (ms : List Move) (s : State) → AllFit n ms → Fits n s → Fits n (run ms s)
unfolding run
run-Fits n [] s o fits = fits
run-Fits n (m ∷ ms) s (o, os) fits = run-Fits n ms (step m s) os (step-Fits n m s o fits)

length-new_counters : (n : ℕ) → length (new_counters n) ≡ n
unfolding new_counters
length-new_counters zero = refl
length-new_counters (suc n) = ap suc (length-new_counters n)

no_peer : (n id : ℕ) (p : Peer) → get id [] ≡ some p → length p.bitfield ≡ n
unfolding get
no_peer n id p there = ground (arith, there)

new-Fits :
    (a : Answers) (c : Config) (timeout : ℕ) (mi : MetaInfo) (torrent : List Bool) (all : Bool)
    (s : State)
    → new a c timeout mi torrent all ≡ some s
    → Fits (length torrent) s
new-Fits a c timeout mi torrent all s made =
    let n = length torrent in
    let (m, e, is_new) = new-cases a c timeout mi torrent all s made in
    let s0 = new_state a.now (apply_defaults c) m mi torrent all in
    let fits0 : Fits n s0 =
      (unfold new_state in
        (refl, length-new_counters n, refl, λ id p there. no_peer n id p there)) in
    subst (Fits n) e (
      if-cases (Fits n) all (complete_torrent a s0) s0 (λ done. complete_torrent-Fits n a s0 fits0)
        (λ still. fits0))

-- No index of the counters of a new dispatcher is out of range, whatever happens, while each peer
-- is added with a bit set of the torrent's length, no announced, requested or sent piece has a
-- negative index, and only the torrent's pieces are opened; all its bit sets keep the torrent's
-- length.
pub run-new-Fits :
    (a : Answers) (c : Config) (timeout : ℕ) (mi : MetaInfo) (torrent : List Bool) (all : Bool)
    (s : State) (ms : List Move)
    → new a c timeout mi torrent all ≡ some s
    → AllFit (length torrent) ms
    → Fits (length torrent) (run ms s)
run-new-Fits a c timeout mi torrent all s ms made fit =
    run-Fits (length torrent) ms s fit (new-Fits a c timeout mi torrent all s made)
