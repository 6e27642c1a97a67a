-- ===== src/Dispatcher/Sending/Loops.antt =====
-- The loops over failed requests and over the peers.
use kraken.Base.{
  ℕ, not, List, [], ◌∷◌, ◌++◌, refl, arith, ◌==◌, ◌&&◌, ◌||◌, keys, Map, get, Bool-cases,
  Option-cases, inl, inr,
}
use kraken.PieceRequest
use kraken.PieceRequest.{Manager, Request}
use kraken.Dispatcher.{
  State, Peer, Answers, announces, completes, closes, send, resend_to, resend_one, resend_all,
  resend_failed_piece_requests, close_all, notify_all, announce_all, wanted, member, is_refusal,
  all_bits,
}
use kraken.Dispatcher.Sending.{
  wants, Sends, Sends-none, Sends-trans, Sends-one, send-Sends, wanted-AllPass, member-passes,
  maybe_send-Sends,
}

resend_to-Sends : (a : Answers) (r : Request) (id : ℕ) (s : State) → Sends s (resend_to a r id s).0
unfolding resend_to
resend_to-Sends a r id s = elim (Option-cases (get id s.peers)) [
  | inl gone ↦ rw (gone, resend_to) (Sends-none s s refl refl)
  | inr (p, there) ↦
      elim (Bool-cases (
        (is_refusal r.status && (r.peer_id == id))
        || not (member r.piece (wanted p.bitfield s.torrent)))) [
          | inl skip ↦ rw (there, skip, resend_to) (Sends-none s s refl refl)
          | inr fits ↦
              rw (there, fits, resend_to)
                (maybe_send-Sends a id (r.piece ∷ []) s (
                  member-passes (wants s.peers s.torrent id) r.piece (wanted p.bitfield s.torrent)
                      (ground (arith, fits)) (wanted-AllPass s.peers s.torrent id p there),
                  tt,
                ))
        ]
]

resend_one-Sends :
    (a : Answers) (r : Request) (ids : List ℕ) (s : State) → Sends s (resend_one a r ids s)
unfolding resend_one
resend_one-Sends a r [] s = Sends-none s s refl refl
resend_one-Sends a r (id ∷ ids) s = elim (Bool-cases (resend_to a r id s).1) [
  | inl ok ↦ rw (ok, resend_one) (resend_to-Sends a r id s)
  | inr on ↦
      let s' = (resend_to a r id s).0 in
      rw (on, resend_one)
        (Sends-trans s s' (resend_one a r ids s') (resend_to-Sends a r id s)
          (resend_one-Sends a r ids s'))
]

resend_all-Sends : (a : Answers) (rs : List Request) (s : State) → Sends s (resend_all a rs s)
unfolding resend_all
resend_all-Sends a [] s = Sends-none s s refl refl
resend_all-Sends a (r ∷ rs) s =
    let s' = resend_one a r (keys s.peers) s in
    Sends-trans s s' (resend_all a rs s') (resend_one-Sends a r (keys s.peers) s)
      (resend_all-Sends a rs s')

pub resend_failed-Sends : (a : Answers) (s : State) → Sends s (resend_failed_piece_requests a s)
unfolding resend_failed_piece_requests
resend_failed-Sends a s = resend_all-Sends a (PieceRequest.get_failed_requests a.now s.manager) s

pub close_all-Sends : (ps : Map Peer) (s : State) → Sends s (close_all ps s)
unfolding close_all
close_all-Sends [] s = Sends-none s s refl refl
close_all-Sends ((id, p) ∷ ps) s =
    let s' : State = record s { sent = s.sent ++ closes id ∷ [] } in
    Sends-trans s s' (close_all ps s') (Sends-one s s' (closes id) refl refl tt refl)
      (close_all-Sends ps s')

pub announce_all-Sends :
    (a : Answers) (peer i : ℕ) (ps : Map Peer) (s : State) → Sends s (announce_all a peer i ps s)
unfolding announce_all
announce_all-Sends a peer i [] s = Sends-none s s refl refl
announce_all-Sends a peer i ((id, p) ∷ ps) s = elim (Bool-cases (id == peer)) [
  | inl same ↦ rw (same, announce_all) (announce_all-Sends a peer i ps s)
  | inr other ↦
      let s' = send a (announces id i) s in
      rw (other, announce_all)
        (Sends-trans s s' (announce_all a peer i ps s') (send-Sends a (announces id i) s tt refl)
          (announce_all-Sends a peer i ps s'))
]

pub notify_all-Sends : (a : Answers) (ps : Map Peer) (s : State) → Sends s (notify_all a ps s)
unfolding notify_all
notify_all-Sends a [] s = Sends-none s s refl refl
notify_all-Sends a ((id, p) ∷ ps) s = elim (Bool-cases (all_bits p.bitfield)) [
  | inl all ↦
      let s' : State = record s { sent = s.sent ++ closes id ∷ [] } in
      rw (all, notify_all)
        (Sends-trans s s' (notify_all a ps s') (Sends-one s s' (closes id) refl refl tt refl)
          (notify_all-Sends a ps s'))
  | inr some_left ↦
      let s' = send a (completes id) s in
      rw (some_left, notify_all)
        (Sends-trans s s' (notify_all a ps s') (send-Sends a (completes id) s tt refl)
          (notify_all-Sends a ps s'))
]
