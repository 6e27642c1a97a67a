-- ===== src/Dispatcher/Sending.antt =====
-- What the loops that send messages change, and which pieces they request.
pub mod Loops
use kraken.Base.{
  ℕ, zero, suc, ◌+◌, Bool, true, false, not, Option, none, some, List, [], ◌∷◌, ◌++◌, ◌≡◌, refl,
  sym, ap, ◌∙◌, subst, arith, ◌==◌, ◌&&◌, ◌||◌, keys, length, get_or, tally, tally-append, Map, get,
  put, Bool-cases, Option-cases, inl, inr, append_assoc, append-nil,
}
use kraken.PieceRequest
use kraken.PieceRequest.{Manager, Request}
use kraken.PieceRequest.Candidates.{reserve_pieces-AllPass}
use kraken.PieceRequest.Selection.{AllPass}
use kraken.Dispatcher.{
  State, Peer, PeerStats, Counter, Answers, Sent, requests, announces, payload, rejects, completes,
  closes, removed, completed, update_stats, send, send_requests, maybe_send_piece_requests,
  maybe_request_more_pieces, resend_to, resend_one, resend_all, resend_failed_piece_requests,
  close_all, tear_down, notify_all, announce_all, wanted, wanted_from, member, is_refusal, all_bits,
  priority, endgame,
}

-- The peer has the piece, and the torrent lacks it.
unfoldable pub wants : Map Peer → List Bool → ℕ → ℕ → Bool
wants ps torrent peer i = elim (get peer ps) [
  | none ↦ false
  | some p ↦ get_or p.bitfield i false && not (get_or torrent i true)
]

-- Each request is for a piece that the peer has and the torrent lacks.
abbrev pub AllWanted : Map Peer → List Bool → List Sent → Type 0
AllWanted ps torrent [] = Unit
AllWanted ps torrent (requests peer i ∷ es) =
    (wants ps torrent peer i ≡ true) × AllWanted ps torrent es
AllWanted ps torrent (e ∷ es) = AllWanted ps torrent es

abbrev pub is_completion : Sent → Bool
is_completion completed = true
is_completion _ = false

-- The parts of the state that no loop over messages changes.
abbrev pub view : State → Map Peer × List Bool × Bool × Bool × List Counter × Bool
view s = (s.peers, s.torrent, s.is_complete, s.is_completed, s.num_peers_by_piece, s.has_panicked)

-- From one state to the other messages are sent; no completion event is, and each request is for a
-- piece that the peer has and the torrent lacks.
abbrev pub Sends : State → State → Type 0
Sends s t =
    (new : List Sent) × (view t ≡ view s)
    × (t.sent ≡ s.sent ++ new)
    × AllWanted s.peers s.torrent new
    × (tally is_completion new ≡ 0)

-- The other fields may change.
pub Sends-none : (s t : State) → view t ≡ view s → t.sent ≡ s.sent → Sends s t
Sends-none s t v e = ([], v, e ∙ sym (append-nil s.sent), tt, refl)

pub AllWanted-append :
    (ps : Map Peer) (torrent : List Bool) (xs ys : List Sent)
    → AllWanted ps torrent xs
    → AllWanted ps torrent ys
    → AllWanted ps torrent (xs ++ ys)
AllWanted-append ps torrent [] ys a b = b
AllWanted-append ps torrent (requests peer i ∷ xs) ys a b =
    (a.0, AllWanted-append ps torrent xs ys a.1 b)
AllWanted-append ps torrent (announces peer i ∷ xs) ys a b = AllWanted-append ps torrent xs ys a b
AllWanted-append ps torrent (payload peer i ∷ xs) ys a b = AllWanted-append ps torrent xs ys a b
AllWanted-append ps torrent (rejects peer i ∷ xs) ys a b = AllWanted-append ps torrent xs ys a b
AllWanted-append ps torrent (completes peer ∷ xs) ys a b = AllWanted-append ps torrent xs ys a b
AllWanted-append ps torrent (closes peer ∷ xs) ys a b = AllWanted-append ps torrent xs ys a b
AllWanted-append ps torrent (removed peer ∷ xs) ys a b = AllWanted-append ps torrent xs ys a b
AllWanted-append ps torrent (completed ∷ xs) ys a b = AllWanted-append ps torrent xs ys a b

pub Sends-trans : (s t u : State) → Sends s t → Sends t u → Sends s u
Sends-trans s t u (xs, v, e, all, c) (ys, v', e', all', c') = (
  xs ++ ys,
  v' ∙ v,
  e' ∙ ap (λ l. l ++ ys) e ∙ append_assoc s.sent xs ys,
  AllWanted-append s.peers s.torrent xs ys all (subst (λ w. AllWanted w.0 w.1 ys) v all'),
  ground (arith, tally-append is_completion xs ys, c, c'),
)

-- One message that is not a request.
pub Sends-one :
    (s t : State) (m : Sent)
    → view t ≡ view s
    → t.sent ≡ s.sent ++ m ∷ []
    → AllWanted s.peers s.torrent (m ∷ [])
    → is_completion m ≡ false
    → Sends s t
Sends-one s t m v e w c = (m ∷ [], v, e, w, ground (arith, c))

pub update_stats-Sends :
    (peer : ℕ) (f : PeerStats → PeerStats) (s : State) → Sends s (update_stats peer f s)
unfolding update_stats
update_stats-Sends peer f s = elim (Option-cases (get peer s.peer_stats)) [
  | inl none_yet ↦
      Sends-none s (update_stats peer f s) (rw (none_yet, update_stats))
        (rw (none_yet, update_stats))
  | inr (p, there) ↦
      Sends-none s (update_stats peer f s) (rw (there, update_stats)) (rw (there, update_stats))
]

pub send-Sends :
    (a : Answers) (m : Sent) (s : State)
    → AllWanted s.peers s.torrent (m ∷ [])
    → is_completion m ≡ false
    → Sends s (send a m s)
unfolding send
send-Sends a m s w c = elim (Bool-cases (a.sends m)) [
  | inl ok ↦ rw (ok, send) (Sends-one s (record s { sent = s.sent ++ m ∷ [] }) m refl refl w c)
  | inr lost ↦ rw (lost, send) (Sends-none s s refl refl)
]

send_requests-Sends :
    (a : Answers) (peer : ℕ) (is : List ℕ) (s : State)
    → AllPass (wants s.peers s.torrent peer) is
    → Sends s (send_requests a peer is s).0
unfolding send_requests
send_requests-Sends a peer [] s w = Sends-none s s refl refl
send_requests-Sends a peer (i ∷ is) s (wi, w) = elim (Bool-cases (a.sends (requests peer i))) [
  | inr lost ↦
      rw (lost, send_requests)
        (Sends-none s (record s { manager = PieceRequest.mark_unsent peer i s.manager }) refl refl)
  | inl ok ↦
      let s' : State = record s { sent = s.sent ++ requests peer i ∷ [] } in
      let f : PeerStats → PeerStats =
        λ p. record p { piece_requests_sent = suc p.piece_requests_sent } in
      let s'' = update_stats peer f s' in
      let here : Sends s s'' =
        Sends-trans s s' s'' (Sends-one s s' (requests peer i) refl refl (wi, tt) refl)
          (update_stats-Sends peer f s') in
      rw (ok, send_requests)
        (Sends-trans s s'' (send_requests a peer is s'').0 here (
          send_requests-Sends a peer is s''
            (subst (λ v. AllPass (wants v.0 v.1 peer) is) (sym here.1) w)))
]

wanted_from-AllPass :
    (p : ℕ → Bool) (k : ℕ) (bs ts : List Bool)
    → ((j : ℕ) → (get_or bs j false && not (get_or ts j true)) ≡ true → p (k + j) ≡ true)
    → AllPass p (wanted_from k bs ts)
unfolding wanted_from
wanted_from-AllPass p k [] ts here = tt
wanted_from-AllPass p k (b ∷ bs) [] here = tt
wanted_from-AllPass p k (b ∷ bs) (t ∷ ts) here =
    let step : (j : ℕ) → k + suc j ≡ suc k + j = λ j. omega arith in
    let first : k + 0 ≡ k = omega arith in
    let rest =
      wanted_from-AllPass p (suc k) bs ts
        (λ j e. subst (λ n. p n ≡ true) (step j) (here (suc j) e)) in
    elim (Bool-cases (b && not t)) [
      | inl e ↦ rw (e, wanted_from) (subst (λ n. p n ≡ true) first (here 0 e), rest)
      | inr e ↦ rw (e, wanted_from) rest
    ]

pub wanted-AllPass :
    (ps : Map Peer) (torrent : List Bool) (peer : ℕ) (p : Peer)
    → get peer ps ≡ some p
    → AllPass (wants ps torrent peer) (wanted p.bitfield torrent)
wanted-AllPass ps torrent peer p there =
    unfold wanted in
    wanted_from-AllPass (wants ps torrent peer) 0 p.bitfield torrent
      (λ j e. unfold wants in ground (arith, there, e))

pub member-passes :
    (p : ℕ → Bool) (i : ℕ) (xs : List ℕ) → member i xs ≡ true → AllPass p xs → p i ≡ true
unfolding member
member-passes p i [] e all = ground (arith, e)
member-passes p i (x ∷ xs) e (px, all) = elim (Bool-cases (x == i)) [
  | inl same ↦ subst (λ n. p n ≡ true) (ground (arith, same)) px
  | inr ne ↦ member-passes p i xs (ground (arith, e, ne)) all
]

pub maybe_send-Sends :
    (a : Answers) (peer : ℕ) (candidates : List ℕ) (s : State)
    → AllPass (wants s.peers s.torrent peer) candidates
    → Sends s (maybe_send_piece_requests a peer candidates s).0
unfolding maybe_send_piece_requests
maybe_send-Sends a peer candidates s w =
    let r =
      PieceRequest.reserve_pieces (a.draws (length s.manager.cells)) (priority s.num_peers_by_piece)
        a.now peer candidates (endgame s) s.manager in
    let s' : State = record s { manager = r.0 } in
    elim (Bool-cases (length r.1 == 0)) [
      | inl none_reserved ↦
          rw (none_reserved, maybe_send_piece_requests) (Sends-none s s' refl refl)
      | inr some_reserved ↦
          rw (some_reserved, maybe_send_piece_requests)
            (Sends-trans s s' (send_requests a peer r.1 s').0 (Sends-none s s' refl refl) (
              send_requests-Sends a peer r.1 s' (
                reserve_pieces-AllPass (wants s.peers s.torrent peer)
                  (a.draws (length s.manager.cells)) (priority s.num_peers_by_piece) a.now peer
                  candidates (endgame s) s.manager w)))
    ]

pub maybe_request_more-Sends :
    (a : Answers) (peer : ℕ) (s : State) → Sends s (maybe_request_more_pieces a peer s)
unfolding maybe_request_more_pieces
maybe_request_more-Sends a peer s = elim (Option-cases (get peer s.peers)) [
  | inl gone ↦ rw (gone, maybe_request_more_pieces) (Sends-none s s refl refl)
  | inr (p, there) ↦
      rw (there, maybe_request_more_pieces)
        (maybe_send-Sends a peer (wanted p.bitfield s.torrent) s
          (wanted-AllPass s.peers s.torrent peer p there))
]
