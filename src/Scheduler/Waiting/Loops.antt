-- ===== src/Scheduler/Waiting/Loops.antt =====
-- What the loops of the event loop do to the clients that wait.
use kraken.Base.{
  ℕ, zero, suc, Bool, true, false, Option, none, some, List, [], ◌∷◌, ◌++◌, ◌≡◌, refl, sym, ap, ◌∙◌,
  subst, arith, get, Map, Bool-cases, Option-cases, inl, inr,
}
use kraken.AnnounceQueue
use kraken.ConnState
use kraken.ConnState.{Conn}
use kraken.Scheduler.Ticks.{
  popped, ends, skips, forgets, announces, tick_loop-Round, connected, connect_round,
}
use kraken.Scheduler.Waiting.{
  Served, Same, answers-Served, remove_torrent-Served, add_torrent-Served,
}
use kraken.Scheduler.{
  State, Control, NewTorrent, Answer, starts, closes, tears_down, remove_torrent, add_outgoing_conn,
  add_incoming_conn, or_close, tick_loop, connect_loop, handle_result, close_conns, remove_loop,
  stop_all, stopped, answer_all,
}

Same-refl : (s : State) → Same s s
Same-refl s = (refl, refl, refl)

pub Same-trans : (s t u : State) → Same s t → Same t u → Same s u
Same-trans s t u p q = (q.0 ∙ p.0, q.1 ∙ p.1, q.2 ∙ p.2)

pub tick_loop-Same : (fuel : ℕ) (s : State) (skipped : List ℕ) → Same s (tick_loop fuel s skipped).0
tick_loop-Same zero s skipped = unfold tick_loop in Same-refl s
tick_loop-Same (suc fuel) s skipped = elim (tick_loop-Round fuel s skipped) [
  | ends e ↦ subst (λ r. Same s r.0) (sym e) (Same-refl s)
  | skips h n full e ↦
      subst (λ r. Same s r.0) (sym e) (tick_loop-Same fuel (popped s) (skipped ++ h ∷ []))
  | forgets h n room gone e ↦
      subst (λ r. Same s r.0) (sym e) (tick_loop-Same fuel (popped s) skipped)
  | announces h c n room known e ↦ subst (λ r. Same s r.0) (sym e) (Same-refl s)
]

pub connect_loop-Same : (now h : ℕ) (ps : List ℕ) (s : State) → Same s (connect_loop now h ps s)
connect_loop-Same now h [] s = unfold connect_loop in Same-refl s
connect_loop-Same now h (p ∷ ps) s = elim (connect_round now h p ps s) [
  | inl e ↦ subst (Same s) (sym e) (Same-refl s)
  | inr (inl e) ↦ subst (Same s) (sym e) (connect_loop-Same now h ps s)
  | inr (inr e) ↦ subst (Same s) (sym e) (connect_loop-Same now h ps (connected h p s))
]

pub handle_result-Same : (now h : ℕ) (ps : List ℕ) (s : State) → Same s (handle_result now h ps s)
unfolding handle_result
handle_result-Same now h ps s = elim (Option-cases (get h s.controls)) [
  | inl gone ↦ rw (gone, handle_result) (Same-refl s)
  | inr (c, known) ↦ elim (Bool-cases c.complete) [
    | inl e ↦ rw (known, e, handle_result) (Same-refl s)
    | inr e ↦
        rw (known, e, handle_result)
          (connect_loop-Same now h ps
            (record s { announce_queue = AnnounceQueue.ready h s.announce_queue }))
  ]
]

pub close_conns-Same :
    (which : Conn → Bool) (cs : List (Option Conn)) (s : State) → Same s (close_conns which cs s)
unfolding close_conns
close_conns-Same which [] s = Same-refl s
close_conns-Same which (none ∷ cs) s = close_conns-Same which cs s
close_conns-Same which (some c ∷ cs) s = elim (Bool-cases (which c)) [
  | inl e ↦
      rw (e, close_conns)
        (close_conns-Same which cs (record s { effects = s.effects ++ closes c ∷ [] }))
  | inr e ↦ rw (e, close_conns) (close_conns-Same which cs s)
]

pub or_close-Same : (c : Conn) (r : State × Bool) → Same r.0 (or_close c r)
unfolding or_close
or_close-Same c (s, true) = Same-refl s
or_close-Same c (s, false) = Same-refl s

pub add_outgoing-Same :
    (closed taken : Bool) (c : Conn) (h : ℕ) (s : State)
    → Same s (add_outgoing_conn closed taken c h s).0
unfolding add_outgoing_conn
add_outgoing-Same closed taken c h s =
    elim (Option-cases (ConnState.move_pending_to_active closed c s.conns).1) [
      | inl e ↦ rw (e, add_outgoing_conn) (Same-refl s)
      | inr (err, e) ↦ rw (e, add_outgoing_conn) (Same-refl s)
    ]

-- `found` has the hash of the torrent that the peer handshook for.
pub add_incoming-Served :
    (w : ℕ) (closed taken : Bool) (c : Conn) (h : ℕ) (found : Option NewTorrent) (s : State)
    → ((t : NewTorrent) → found ≡ some t → t.info_hash ≡ h)
    → Served w s
    → Served w (add_incoming_conn closed taken c h found s).0
unfolding add_incoming_conn
add_incoming-Served w closed taken c h found s hash v =
    elim (Option-cases (ConnState.move_pending_to_active closed c s.conns).1) [
      | inr (err, e) ↦ rw (e, add_incoming_conn) v
      | inl e ↦ elim (Option-cases (get h s.controls)) [
        | inr (d, known) ↦ rw (e, known, add_incoming_conn) v
        | inl new ↦ elim (Option-cases found) [
          | inl missing ↦ rw (e, new, missing, add_incoming_conn) v
          | inr (t, there) ↦
              rw (e, new, there, add_incoming_conn)
                (add_torrent-Served w t false
                  (record s {
                    conns = (ConnState.move_pending_to_active closed c s.conns).0;
                    effects = s.effects ++ starts c ∷ [];
                  })
                  (ap (λ x. get x s.controls) (hash t there) ∙ new) v)
        ]
      ]
    ]

due-remove_torrent : (h : ℕ) (a : Answer) (s : State) → (remove_torrent h a s).due ≡ s.due
unfolding remove_torrent
due-remove_torrent h a s = ground arith

pub remove_loop-Served :
    (w : ℕ) (which : ℕ → Control → Bool) (a : Answer) (m : Map Control) (s : State)
    → s.due ≡ []
    → Served w s
    → Served w (remove_loop which a m s)
unfolding remove_loop
remove_loop-Served w which a [] s none_due v = v
remove_loop-Served w which a ((h, c) ∷ m) s none_due v = elim (Bool-cases (which h c)) [
  | inl e ↦
      rw (e, remove_loop)
        (remove_loop-Served w which a m (remove_torrent h a s) (due-remove_torrent h a s ∙ none_due)
          (remove_torrent-Served w h a s none_due v))
  | inr e ↦ rw (e, remove_loop) (remove_loop-Served w which a m s none_due v)
]

pub stop_all-Served : (w : ℕ) (m : Map Control) (s : State) → Served w s → Served w (stop_all m s)
unfolding stop_all
stop_all-Served w [] s v = v
stop_all-Served w ((h, c) ∷ m) s v =
    let s' : State = record s {
      answers = s.answers ++ answer_all stopped c.errors;
      effects = s.effects ++ tears_down h ∷ [];
    } in
    stop_all-Served w m s' (answers-Served w s s' (answer_all stopped c.errors) refl refl refl v)
