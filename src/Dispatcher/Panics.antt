-- ===== src/Dispatcher/Panics.antt =====
-- No index of the counters is out of range, where the bit sets of the peers have the torrent's length.
pub mod Runs
use kraken.Base.{
  ℤ, pos, negsuc, ℕ, zero, suc, ◌+◌, ◌≤◌, ◌<◌, Bool, true, false, not, Option, none, some, List, [],
  ◌∷◌, ◌++◌, if◌then◌else◌, ◌≡◌, refl, sym, ap, ◌∙◌, subst, arith, ◌==◌, ◌&&◌, ◌||◌, leb, ltb,
  length, get_or, set, length-set, Map, get, put, del, has, get-put, get-del, Bool-cases, if-cases,
  some_injective, Option-cases, inl, inr, eq-cases,
}
use kraken.MetaInfo.{MetaInfo}
use kraken.PieceRequest
use kraken.Dispatcher.{
  State, Peer, PeerStats, Counter, Answers, Config, Sent, payload, rejects, closes, completed,
  Message, error, announce_piece, piece_request, piece_payload, cancel_piece, bitfield, complete,
  unknown, Written, written, piece_complete, write_failed, update_stats, update_peer, send,
  maybe_request_more_pieces, resend_failed_piece_requests, close_all, tear_down, notify_all,
  announce_all, add_peer, remove_peer, complete_torrent, is_full_piece, handle_announce_piece,
  handle_piece_request, handle_written, handle_piece_payload, handle_complete, dispatch, Move, adds,
  asks_more, receives, leaves, resends, tears_down, step, run, set_bit, set_all, count_up,
  count_down, count_all, new, new_state, new_counters, apply_defaults, all_set, all_set_from,
  in_range,
}
use kraken.Dispatcher.Handling.Steps.{new-cases}
use kraken.Dispatcher.Sending.{
  view, Sends, update_stats-Sends, send-Sends, maybe_request_more-Sends,
}
use kraken.Dispatcher.Sending.Loops.{
  resend_failed-Sends, close_all-Sends, announce_all-Sends, notify_all-Sends,
}

-- Bit sets and counters have the length of the torrent, and nothing panicked.
abbrev FitsView : ℕ → Map Peer × List Bool × Bool × Bool × List Counter × Bool → Type 0
FitsView n (ps, torrent, a, b, counters, panicked) =
    (length torrent ≡ n)
    × (length counters ≡ n)
    × (panicked ≡ false)
    × ((id : ℕ) (p : Peer) → get id ps ≡ some p → length p.bitfield ≡ n)

abbrev pub Fits : ℕ → State → Type 0
Fits n s = FitsView n (view s)

pub Fits-Sends : (n : ℕ) (s t : State) → Fits n s → Sends s t → Fits n t
Fits-Sends n s t fits (new, v, e, all, c) = subst (FitsView n) (sym v) fits

pub length-set_bit : (i : ℕ) (bs : List Bool) → i < length bs → length (set_bit i bs) ≡ length bs
unfolding set_bit
length-set_bit i [] below = elim below [ ]
length-set_bit zero (b ∷ bs) below = refl
length-set_bit (suc i) (b ∷ bs) below = ap suc (length-set_bit i bs (omega arith))

length-set_all : (bs : List Bool) → length (set_all bs) ≡ length bs
unfolding set_all
length-set_all [] = refl
length-set_all (b ∷ bs) = ap suc (length-set_all bs)

pub length-count_all :
    (f : ℕ → List Counter → List Counter) (is : List ℕ) (cs : List Counter)
    → ((i : ℕ) (ds : List Counter) → length (f i ds) ≡ length ds)
    → length (count_all f is cs) ≡ length cs
unfolding count_all
length-count_all f [] cs same = refl
length-count_all f (i ∷ is) cs same = length-count_all f is (f i cs) same ∙ same i cs

pub length-count_up : (i : ℕ) (cs : List Counter) → length (count_up i cs) ≡ length cs
unfolding count_up
length-count_up i cs = length-set cs i _

pub length-count_down : (i : ℕ) (cs : List Counter) → length (count_down i cs) ≡ length cs
unfolding count_down
length-count_down i cs = length-set cs i _

all_set_from-in_range :
    (k : ℕ) (bs : List Bool) (cs : List Counter)
    → k + length bs ≤ length cs
    → in_range (all_set_from k bs) cs ≡ true
unfolding all_set_from in_range
all_set_from-in_range k [] cs fits = refl
all_set_from-in_range k (b ∷ bs) cs fits =
    ground (arith, fits, all_set_from-in_range (suc k) bs cs (omega (arith, fits)))

pub all_set-in_range :
    (n : ℕ) (bs : List Bool) (cs : List Counter)
    → length bs ≡ n
    → length cs ≡ n
    → in_range (all_set bs) cs ≡ true
all_set-in_range n bs cs e d = unfold all_set in all_set_from-in_range 0 bs cs (omega (arith, e, d))

pub put-lengths :
    (n k : ℕ) (v : Peer) (ps : Map Peer)
    → length v.bitfield ≡ n
    → ((id : ℕ) (p : Peer) → get id ps ≡ some p → length p.bitfield ≡ n)
    → (id : ℕ) (p : Peer) → get id (put k v ps) ≡ some p
    → length p.bitfield ≡ n
put-lengths n k v ps len ls id p there = elim (eq-cases k id) [
  | inl same ↦
      let found : some v ≡ some p = ground (arith, there, same, get-put k id v ps) in
      ap (λ x. length x.bitfield) (sym (some_injective found)) ∙ len
  | inr other ↦ ls id p (ground (arith, there, other, get-put k id v ps))
]

-- A peer is changed in place, and keeps the length of its bit set.
pub update_peer-Fits :
    (n peer : ℕ) (f : Peer → Peer) (s : State)
    → ((p : Peer) → length p.bitfield ≡ n → length (f p).bitfield ≡ n)
    → Fits n s
    → Fits n (update_peer peer f s)
unfolding update_peer
update_peer-Fits n peer f s keeps (t, c, q, ls) = elim (Option-cases (get peer s.peers)) [
  | inl gone ↦ rw (gone, update_peer) (t, c, q, ls)
  | inr (p, there) ↦
      rw (there, update_peer)
        (t, c, q, put-lengths n peer (f p) s.peers (keeps p (ls peer p there)) ls)
]

pub announce_piece-Fits :
    (n : ℕ) (a : Answers) (peer i : ℕ) (s : State)
    → Fits n s
    → Fits n (handle_announce_piece a peer (pos i) s)
unfolding handle_announce_piece
announce_piece-Fits n a peer i s (t, c, q, ls) =
    let f : Peer → Peer = λ p. record p { bitfield = set_bit i p.bitfield } in
    let s' : State = record s { num_peers_by_piece = count_up i s.num_peers_by_piece } in
    let s'' = update_peer peer f s' in
    if-cases (Fits n) (leb (length s.torrent) i) s (maybe_request_more_pieces a peer s'')
      (λ out. (t, c, q, ls))
      (λ in_torrent.
        Fits-Sends n s'' (maybe_request_more_pieces a peer s'')
          (update_peer-Fits n peer f s'
            (λ p e. length-set_bit i p.bitfield (ground (arith, e, t, in_torrent)) ∙ e)
            (t, length-count_up i s.num_peers_by_piece ∙ c, q, ls))
          (maybe_request_more-Sends a peer s''))

pub complete-Fits :
    (n : ℕ) (a : Answers) (peer : ℕ) (s : State) → Fits n s → Fits n (handle_complete a peer s)
unfolding handle_complete
complete-Fits n a peer s fits =
    let f : Peer → Peer = λ p. record p { bitfield = set_all p.bitfield } in
    let t = update_peer peer f s in
    if-cases (Fits n) s.is_complete _ (maybe_request_more_pieces a peer t) (λ done. fits)
      (λ on.
        Fits-Sends n t (maybe_request_more_pieces a peer t)
          (update_peer-Fits n peer f s (λ p e. length-set_all p.bitfield ∙ e) fits)
          (maybe_request_more-Sends a peer t))
