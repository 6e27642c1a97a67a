-- ===== src/Dispatcher/Handling.antt =====
-- The steps of a dispatcher: what they request, and that the torrent's completion is told once.
pub mod Steps
use kraken.Base.{
  ℤ, pos, negsuc, ℕ, zero, suc, ◌+◌, ◌≤◌, ◌<◌, Bool, true, false, not, Option, none, some, List, [],
  ◌∷◌, ◌++◌, ◌≡◌, refl, sym, ap, ◌∙◌, subst, arith, ◌==◌, ◌&&◌, ◌||◌, leb, length, get_or, set,
  tally, tally-append, Map, get, put, has, Bool-cases, if-cases, some_injective, Option-cases, inl,
  inr, append_assoc, append-nil, if◌then◌else◌,
}
use kraken.MetaInfo.{MetaInfo}
use kraken.PieceRequest
use kraken.PieceRequest.{Manager}
use kraken.Dispatcher.{
  State, Peer, PeerStats, Counter, Answers, Config, Sent, requests, payload, rejects, closes,
  removed, completed, Message, error, announce_piece, piece_request, piece_payload, cancel_piece,
  bitfield, complete, unknown, Written, written, piece_complete, write_failed, update_stats,
  update_peer, send, maybe_request_more_pieces, resend_failed_piece_requests, close_all, tear_down,
  notify_all, announce_all, add_peer, remove_peer, complete_torrent, new, new_state, apply_defaults,
  is_full_piece, handle_announce_piece, handle_piece_request, handle_written, handle_piece_payload,
  handle_complete, dispatch, Move, adds, asks_more, receives, leaves, resends, tears_down, step,
  run, set_bit, set_all, count_up,
}
use kraken.Dispatcher.Sending.{
  wants, AllWanted, is_completion, view, Sends, Sends-none, Sends-trans, Sends-one,
  update_stats-Sends, send-Sends, maybe_request_more-Sends, AllWanted-append,
}
use kraken.Dispatcher.Sending.Loops.{
  resend_failed-Sends, close_all-Sends, announce_all-Sends, notify_all-Sends,
}

-- A complete torrent was told to the event loop.
abbrev pub Told : State → Type 0
Told s = s.is_complete ≡ true → s.is_completed ≡ true

abbrev pub bit : Bool → ℕ
bit b = if b then 1 else 0

-- What was sent between two states: each request is for a piece that the peer has and the torrent
-- lacks in the second one; the completion is told at most once, where the torrent becomes complete,
-- and only of a complete torrent.
abbrev pub Asks : State → State → Type 0
Asks s t =
    (new : List Sent) × (t.sent ≡ s.sent ++ new)
    × AllWanted t.peers t.torrent new
    × (tally is_completion new + bit s.is_completed ≡ bit t.is_completed)
    × (Told s → Told t)
    × (s.is_completed ≡ false → t.is_completed ≡ true → t.is_complete ≡ true)

-- Nothing is sent.
pub Asks-quiet :
    (s t : State) → t.sent ≡ s.sent → t.is_completed ≡ s.is_completed → (Told s → Told t) → Asks s t
Asks-quiet s t e c told = (
  [],
  e ∙ sym (append-nil s.sent),
  tt,
  ground (arith, c),
  told,
  λ before now. ground (arith, c, before, now),
)

-- What the theorem reads of a state.
abbrev pub flags : State → List Sent × Bool × Bool
flags s = (s.sent, s.is_complete, s.is_completed)

pub Asks-none : (s t : State) → flags t ≡ flags s → Asks s t
Asks-none s t e =
    Asks-quiet s t (ap (λ w. w.0) e) (ap (λ w. w.2) e)
      (λ told. subst (λ w. w.1 ≡ true → w.2 ≡ true) (sym e) told)

-- One message that is neither a request nor the completion.
pub Asks-one :
    (s t : State) (m : Sent)
    → flags t ≡ (s.sent ++ m ∷ [], s.is_complete, s.is_completed)
    → AllWanted t.peers t.torrent (m ∷ [])
    → is_completion m ≡ false
    → Asks s t
Asks-one s t m e w c = (
  m ∷ [],
  ap (λ f. f.0) e,
  w,
  ground (arith, c, ap (λ f. f.2) e),
  λ told. subst (λ f. f.1 ≡ true → f.2 ≡ true) (sym e) told,
  λ before now. ground (arith, ap (λ f. f.2) e, before, now),
)

pub Asks-Sends : (s t u : State) → Asks s t → Sends t u → Asks s u
Asks-Sends s t u (xs, e, all, n, told, of_complete) (ys, v, e', all', c) = (
  xs ++ ys,
  e' ∙ ap (λ l. l ++ ys) e ∙ append_assoc s.sent xs ys,
  subst (λ w. AllWanted w.0 w.1 (xs ++ ys)) (sym v)
      (AllWanted-append t.peers t.torrent xs ys all all'),
  ground (arith, n, c, tally-append is_completion xs ys, ap (λ w. w.3) v),
  λ was. subst (λ w. w.2 ≡ true → w.3 ≡ true) (sym v) (told was),
  λ before. subst (λ w. w.3 ≡ true → w.2 ≡ true) (sym v) (of_complete before),
)

-- After a change that sends nothing.
pub Asks-after : (s t u : State) → flags t ≡ flags s → Sends t u → Asks s u
Asks-after s t u e sends = Asks-Sends s t u (Asks-none s t e) sends

pub flags-update_peer :
    (peer : ℕ) (f : Peer → Peer) (s : State) → flags (update_peer peer f s) ≡ flags s
unfolding update_peer
flags-update_peer peer f s = elim (Option-cases (get peer s.peers)) [
  | inl gone ↦ rw (gone, update_peer)
  | inr (p, there) ↦ rw (there, update_peer)
]

pub flags-update_stats :
    (peer : ℕ) (f : PeerStats → PeerStats) (s : State) → flags (update_stats peer f s) ≡ flags s
unfolding update_stats
flags-update_stats peer f s = elim (Option-cases (get peer s.peer_stats)) [
  | inl gone ↦ rw (gone, update_stats)
  | inr (p, there) ↦ rw (there, update_stats)
]

pub announce_piece-Asks :
    (a : Answers) (peer i : ℕ) (s : State) → Asks s (handle_announce_piece a peer (pos i) s)
unfolding handle_announce_piece
announce_piece-Asks a peer i s =
    let f : Peer → Peer = λ p. record p { bitfield = set_bit i p.bitfield } in
    let s' : State = record s { num_peers_by_piece = count_up i s.num_peers_by_piece } in
    let t = update_peer peer f s' in
    if-cases (Asks s) (leb (length s.torrent) i) s (maybe_request_more_pieces a peer t)
      (λ out. Asks-none s s refl)
      (λ in_range.
        Asks-after s t (maybe_request_more_pieces a peer t) (flags-update_peer peer f s')
          (maybe_request_more-Sends a peer t))

pub piece_request-Asks :
    (a : Answers) (peer i : ℕ) (offset n : ℤ) (s : State)
    → Asks s (handle_piece_request a peer (pos i) offset n s)
unfolding handle_piece_request
piece_request-Asks a peer i offset n s =
    let received : PeerStats → PeerStats =
      λ p. record p { piece_requests_received = suc p.piece_requests_received } in
    let counted = update_stats peer received s in
    let same = flags-update_stats peer received s in
    let sent_piece : Peer → Peer =
      λ p. record p { bitfield = set_bit i p.bitfield; last_piece_sent = a.now } in
    let sent_stats : PeerStats → PeerStats = λ p. record p { pieces_sent = suc p.pieces_sent } in
    let with_payload : State → State = λ t. record t {
      sent = s.sent ++ payload peer (pos i) ∷ [];
      last_read = if a.reader_closes then s.last_read else a.now;
    } in
    if-cases (Asks s) (not (is_full_piece (pos i) offset n s) || not (a.opens (pos i)))
      (send a (rejects peer (pos i)) counted) _
      (λ refused.
        Asks-after s counted (send a (rejects peer (pos i)) counted) same
          (send-Sends a (rejects peer (pos i)) counted tt refl))
      (λ fine.
        if-cases (Asks s) (a.sends (payload peer (pos i))) _ counted
          (λ ok.
            Asks-one s
              (update_peer peer sent_piece (update_stats peer sent_stats (with_payload counted)))
              (payload peer (pos i))
              (flags-update_peer peer sent_piece
                  (update_stats peer sent_stats (with_payload counted))
                ∙ flags-update_stats peer sent_stats (with_payload counted)
                ∙ ap (λ f. (s.sent ++ payload peer (pos i) ∷ [], f.1, f.2)) same)
              tt refl)
          (λ lost. Asks-none s counted same))

-- The same for a negative index.
pub negative_request-Asks :
    (a : Answers) (peer i : ℕ) (offset n : ℤ) (s : State)
    → Asks s (handle_piece_request a peer (negsuc i) offset n s)
unfolding handle_piece_request
negative_request-Asks a peer i offset n s =
    let received : PeerStats → PeerStats =
      λ p. record p { piece_requests_received = suc p.piece_requests_received } in
    let counted = update_stats peer received s in
    let same = flags-update_stats peer received s in
    let m = negsuc i in
    if-cases (Asks s) (not (is_full_piece m offset n s) || not (a.opens m))
      (send a (rejects peer m) counted) _
      (λ refused.
        Asks-after s counted (send a (rejects peer m) counted) same
          (send-Sends a (rejects peer m) counted tt refl))
      (λ fine.
        if-cases (Asks s) (a.sends (payload peer m)) _ counted
          (λ ok.
            Asks-one s
              (record counted { sent = s.sent ++ payload peer m ∷ []; has_panicked = true })
              (payload peer m) (ap (λ f. (s.sent ++ payload peer m ∷ [], f.1, f.2)) same) tt refl)
          (λ lost. Asks-none s counted same))

pub complete_torrent-Asks :
    (a : Answers) (s t : State)
    → t.sent ≡ s.sent
    → t.is_completed ≡ s.is_completed
    → t.is_complete ≡ true
    → Asks s (complete_torrent a t)
unfolding complete_torrent
complete_torrent-Asks a s t e same done =
    let told : State = record t {
      is_completed = true;
      is_watching = false;
      sent = if t.is_completed then t.sent else t.sent ++ completed ∷ [];
    } in
    let first : Asks s told = elim (Bool-cases t.is_completed) [
      | inl before ↦ (
        [],
        ground (arith, before, e, append-nil s.sent),
        tt,
        ground (arith, before, same),
        λ was now. refl,
        λ was now. done,
      )
      | inr now ↦ (
        completed ∷ [],
        ground (arith, now, e),
        tt,
        ground (arith, now, same),
        λ was told_now. refl,
        λ was told_now. done,
      )
    ] in
    Asks-Sends s told (notify_all a t.peers told) first (notify_all-Sends a t.peers told)

pub is_completed-complete_torrent :
    (a : Answers) (s : State) → (complete_torrent a s).is_completed ≡ true
unfolding complete_torrent
is_completed-complete_torrent a s =
    let (sent, v, e, all, n) = notify_all-Sends a s.peers _ in ap (λ w. w.3) v
