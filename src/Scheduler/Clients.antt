-- ===== src/Scheduler/Clients.antt =====
-- Over any events, a client that asks for a torrent is answered or keeps waiting.
pub mod Runs
use kraken.Base.{
  ℕ, zero, suc, ◌+◌, ◌≤◌, ◌<◌, Bool, true, false, Option, none, some, List, [], ◌∷◌, ◌++◌, ◌==◌,
  ==_iff, ◌||◌, eq-cases, ◌≡◌, refl, sym, ap, ◌∙◌, subst, arith, if◌then◌else◌, get, put, del, Map,
  Bool-cases, Option-cases, inl, inr, ◌⊎◌, has, count, tally, length, tally-append, get-put,
}
use kraken.AnnounceQueue
use kraken.ConnState
use kraken.ConnState.{Conn}
use kraken.Scheduler.Waiting.{
  answered, Waits, Served, Same, Same-Served, answers-Served, more_answers, last_answered,
  add_torrent-Served, join_torrent-Served, join_torrent-joins, handle_complete-Served,
  finish-Served, answered-all, all_answered,
}
use kraken.Scheduler.Waiting.Loops.{
  Same-trans, tick_loop-Same, connect_loop-Same, handle_result-Same, close_conns-Same,
  or_close-Same, add_outgoing-Same, add_incoming-Served, remove_loop-Served, stop_all-Served,
}
use kraken.Scheduler.{
  State, Event, Control, NewTorrent, Readings, Answer, Timeouts, conn_closed, incoming_handshake,
  failed_incoming, incoming_conn, failed_outgoing, outgoing_conn, announce_tick, announce_result,
  announce_err, new_torrent, dispatcher_complete, peer_removed, preemption_tick, emit_stats,
  blacklist_snapshot, probe, shutdown, remove_torrent_event, removed, new_state, idle_conn, is_idle,
  timed_out, starts, closes, tears_down, add_torrent, remove_torrent, add_outgoing_conn,
  add_incoming_conn, or_close, tick_loop, tick, connect_loop, handle_result, join_torrent,
  handle_new, close_conns, remove_loop, preempt, handle_remove, stop_all, shut_down, apply, finish,
  Move, event, finishes, step, run, stopped, not_added, answer_all, deleted,
}

-- The client that an event is sent for.
unfoldable pub asks : ℕ → Event → Bool
asks w (new_torrent t x) = x == w
asks w (remove_torrent_event digest x gone) = x == w
asks w e = false

-- A torrent is removed only while no completion event is due, and the archive finds the torrent of
-- the peer's handshake.
abbrev pub Orderly : Event → State → Type 0
Orderly (preemption_tick r) s = s.due ≡ []
Orderly (remove_torrent_event digest x gone) s = s.due ≡ []
Orderly (incoming_conn closed taken c h found) s =
    (t : NewTorrent) → found ≡ some t → t.info_hash ≡ h
Orderly e s = Unit

-- The control of a torrent that a client asked for.
abbrev new_control : NewTorrent → Control
new_control t = record {
  digest = t.digest;
  complete = t.complete;
  errors = [];
  local_request = true;
}

-- A client joins the torrent's control, or the one that it gets, or the torrent has no dispatcher.
data Asked (t : NewTorrent) (x : ℕ) (s : State) : Type 0 where
  joins :
      (c : Control)
      → get t.info_hash s.controls ≡ some c
      → handle_new t x s ≡ join_torrent t.info_hash x c s
      → Asked t x s
  adds :
      get t.info_hash s.controls ≡ none
      → get t.info_hash (add_torrent t true s).0.controls ≡ some (new_control t)
      → handle_new t x s ≡ join_torrent t.info_hash x (new_control t) (add_torrent t true s).0
      → Asked t x s
  fails : handle_new t x s ≡ record s { answers = s.answers ++ (x, not_added) ∷ [] } → Asked t x s

handle_new-Asked : (t : NewTorrent) (x : ℕ) (s : State) → Asked t x s
handle_new-Asked t x s = elim (Option-cases (get t.info_hash s.controls)) [
  | inr (c, known) ↦ joins c known (unfold handle_new in rw (known, handle_new))
  | inl new ↦ elim (Bool-cases t.dispatchable) [
    | inr e ↦ fails (unfold handle_new add_torrent in rw (new, e, handle_new, add_torrent))
    | inl ok ↦
        adds new
          (unfold add_torrent in
            ground (arith, ok, get-put t.info_hash t.info_hash (new_control t) s.controls))
          (unfold handle_new add_torrent in rw (new, ok, handle_new, add_torrent))
  ]
]

handle_new-Served :
    (w x : ℕ) (t : NewTorrent) (s : State) → Served w s → Served w (handle_new t x s)
handle_new-Served w x t s v = elim (handle_new-Asked t x s) [
  | joins c known e ↦ subst (Served w) (sym e) (join_torrent-Served w t.info_hash x c s known v)
  | adds new there e ↦ subst (Served w) (sym e) (
      join_torrent-Served w t.info_hash x (new_control t) (add_torrent t true s).0 there
        (add_torrent-Served w t true s new v))
  | fails e ↦ subst (Served w) (sym e) (
      answers-Served w s (record s { answers = s.answers ++ (x, not_added) ∷ [] })
        ((x, not_added) ∷ []) refl refl refl v)
]

handle_new-asks : (w : ℕ) (t : NewTorrent) (s : State) → Served w (handle_new t w s)
handle_new-asks w t s = elim (handle_new-Asked t w s) [
  | joins c known e ↦ subst (Served w) (sym e) (join_torrent-joins t.info_hash w c s)
  | adds new there e ↦
      subst (Served w) (sym e)
        (join_torrent-joins t.info_hash w (new_control t) (add_torrent t true s).0)
  | fails e ↦
      subst (Served w) (sym e)
        (inl (ground (arith, tally-append (λ a. a.0 == w) s.answers ((w, not_added) ∷ []))))
]

preempt-Served :
    (w : ℕ) (r : Readings) (s : State) → s.due ≡ [] → Served w s → Served w (preempt r s)
unfolding preempt
preempt-Served w r s none_due v =
    let s' = close_conns (idle_conn r s) (ConnState.active_conns s.conns) s in
    let same = close_conns-Same (idle_conn r s) (ConnState.active_conns s.conns) s in
    remove_loop-Served w (is_idle r s) timed_out s'.controls s' (same.1 ∙ none_due)
      (Same-Served w s s' same v)

shut_down-Served : (w : ℕ) (s : State) → Served w s → Served w (shut_down s)
unfolding shut_down
shut_down-Served w s v =
    let s' = close_conns (λ c. true) (ConnState.active_conns s.conns) s in
    stop_all-Served w s'.controls s'
      (Same-Served w s s' (close_conns-Same (λ c. true) (ConnState.active_conns s.conns) s) v)

handle_remove-Served :
    (w digest x : ℕ) (gone : Bool) (s : State)
    → s.due ≡ []
    → Served w s
    → Served w (handle_remove digest x gone s)
unfolding handle_remove
handle_remove-Served w digest x gone s none_due v =
    let s' = remove_loop (λ h c. c.digest == digest) removed s.controls s in
    answers-Served w s' (handle_remove digest x gone s) ((x, deleted gone) ∷ []) refl refl refl
      (remove_loop-Served w (λ h c. c.digest == digest) removed s.controls s none_due v)

tick-Served : (w : ℕ) (s : State) → Served w s → Served w (tick s)
unfolding tick
tick-Served w s =
    Same-Served w s (tick s) (tick_loop-Same (suc (length s.announce_queue.ready_queue)) s [])

pub apply-Served : (w : ℕ) (e : Event) (s : State) → Orderly e s → Served w s → Served w (apply e s)
unfolding apply
apply-Served w (conn_closed now c) s o v = v
apply-Served w (incoming_handshake peer h ids) s o v = v
apply-Served w (failed_incoming peer h) s o v = v
apply-Served w (incoming_conn closed taken c h found) s o v =
    let r = add_incoming_conn closed taken c h found s in
    Same-Served w r.0 (or_close c r) (or_close-Same c r)
      (add_incoming-Served w closed taken c h found s o v)
apply-Served w (failed_outgoing now peer h) s o v = v
apply-Served w (outgoing_conn closed taken c h) s o v =
    let r = add_outgoing_conn closed taken c h s in
    Same-Served w s (or_close c r)
      (Same-trans s r.0 (or_close c r) (add_outgoing-Same closed taken c h s) (or_close-Same c r)) v
apply-Served w announce_tick s o v = tick-Served w s v
apply-Served w (announce_result now h ps) s o v =
    Same-Served w s (handle_result now h ps s) (handle_result-Same now h ps s) v
apply-Served w (announce_err h) s o v = v
apply-Served w (new_torrent t x) s o v = handle_new-Served w x t s v
apply-Served w (dispatcher_complete h) s o v = handle_complete-Served w h s v
apply-Served w (peer_removed p h) s o v = v
apply-Served w (preemption_tick r) s o v = preempt-Served w r s o v
apply-Served w emit_stats s o v = v
apply-Served w blacklist_snapshot s o v = v
apply-Served w probe s o v = v
apply-Served w shutdown s o v = shut_down-Served w s v
apply-Served w (remove_torrent_event d x gone) s o v = handle_remove-Served w d x gone s o v

-- The client that an event is sent for is answered, or waits.
pub apply-asks : (w : ℕ) (e : Event) (s : State) → asks w e ≡ true → Served w (apply e s)
unfolding asks apply
apply-asks w (new_torrent t x) s same =
    subst (λ y. Served w (handle_new t y s)) (sym ((==_iff x w).0 same)) (handle_new-asks w t s)
apply-asks w (remove_torrent_event digest x gone) s same =
    let s' = remove_loop (λ h c. c.digest == digest) removed s.controls s in
    inl (
      last_answered w x (deleted gone) s' (handle_remove digest x gone s)
        (unfold handle_remove in refl) ((==_iff x w).0 same))
apply-asks w (conn_closed now c) s same = ground arith
apply-asks w (incoming_handshake peer h ids) s same = ground arith
apply-asks w (failed_incoming peer h) s same = ground arith
apply-asks w (incoming_conn closed taken c h found) s same = ground arith
apply-asks w (failed_outgoing now peer h) s same = ground arith
apply-asks w (outgoing_conn closed taken c h) s same = ground arith
apply-asks w announce_tick s same = ground arith
apply-asks w (announce_result now h ps) s same = ground arith
apply-asks w (announce_err h) s same = ground arith
apply-asks w (dispatcher_complete h) s same = ground arith
apply-asks w (peer_removed p h) s same = ground arith
apply-asks w (preemption_tick r) s same = ground arith
apply-asks w emit_stats s same = ground arith
apply-asks w blacklist_snapshot s same = ground arith
apply-asks w probe s same = ground arith
apply-asks w shutdown s same = ground arith
