-- ===== src/Scheduler/Connections.antt =====
-- What the events do to the connection state is a sequence of its own calls.
use kraken.Base.{
  ℕ, zero, suc, Bool, true, false, Option, none, some, List, [], ◌∷◌, ◌++◌, ◌≡◌, refl, sym, ap, ◌∙◌,
  subst, arith, get, Map, ◌==◌, length, Bool-cases, Option-cases, inl, inr, has,
}
use kraken.AnnounceQueue
use kraken.ConnState
use kraken.ConnState.{
  Conn, Call, calls_blacklist, calls_clear, calls_add_pending, calls_delete_pending, calls_move,
  calls_delete_active,
}
use kraken.ConnState.Invariant.{init-run-IsValid}
use kraken.ConnState.Peers.{IsValid}
use kraken.Scheduler.Ticks.{
  popped, ends, skips, forgets, announces, tick_loop-Round, connected, connect_round,
}
use kraken.Scheduler.{
  State, Event, Control, NewTorrent, Readings, Answer, Timeouts, conn_closed, incoming_handshake,
  failed_incoming, incoming_conn, failed_outgoing, outgoing_conn, announce_tick, announce_result,
  announce_err, new_torrent, dispatcher_complete, peer_removed, preemption_tick, emit_stats,
  blacklist_snapshot, probe, shutdown, remove_torrent_event, removed, new_state, idle_conn, is_idle,
  timed_out, starts, add_torrent, remove_torrent, add_outgoing_conn, add_incoming_conn, or_close,
  tick_loop, tick, connect_loop, handle_result, handle_new, handle_complete, close_conns,
  remove_loop, preempt, handle_remove, stop_all, shut_down, apply, finish, Move, event, finishes,
  run,
}

-- The second connection state is the first one after some calls.
abbrev pub Called : ConnState.State → ConnState.State → Type 0
Called c d = (cs : List Call) × (d ≡ ConnState.run c cs)

run-append :
    (c : ConnState.State) (cs ds : List Call)
    → ConnState.run c (cs ++ ds) ≡ ConnState.run (ConnState.run c cs) ds
unfolding ConnState.run
run-append c [] ds = refl
run-append c (x ∷ cs) ds = run-append (ConnState.step c x) cs ds

Called-trans : (c d e : ConnState.State) → Called c d → Called d e → Called c e
Called-trans c d e (cs, p) (ds, q) =
    (cs ++ ds, q ∙ ap (λ x. ConnState.run x ds) p ∙ sym (run-append c cs ds))

-- No calls, and one.
same_conns : (c d : ConnState.State) → d ≡ c → Called c d
same_conns c d e = ([], unfold ConnState.run in e)

one_call : (c d : ConnState.State) (x : Call) → d ≡ ConnState.step c x → Called c d
one_call c d x e = (x ∷ [], unfold ConnState.run in e)

conns-remove_torrent : (h : ℕ) (a : Answer) (s : State) → (remove_torrent h a s).conns ≡ s.conns
unfolding remove_torrent
conns-remove_torrent h a s = ground arith

conns-remove_loop :
    (which : ℕ → Control → Bool) (a : Answer) (m : Map Control) (s : State)
    → (remove_loop which a m s).conns ≡ s.conns
unfolding remove_loop
conns-remove_loop which a [] s = refl
conns-remove_loop which a ((h, c) ∷ m) s = elim (Bool-cases (which h c)) [
  | inl e ↦
      rw (e, remove_loop)
        (conns-remove_loop which a m (remove_torrent h a s) ∙ conns-remove_torrent h a s)
  | inr e ↦ rw (e, remove_loop) (conns-remove_loop which a m s)
]

conns-close_conns :
    (which : Conn → Bool) (cs : List (Option Conn)) (s : State)
    → (close_conns which cs s).conns ≡ s.conns
unfolding close_conns
conns-close_conns which [] s = refl
conns-close_conns which (none ∷ cs) s = conns-close_conns which cs s
conns-close_conns which (some c ∷ cs) s = elim (Bool-cases (which c)) [
  | inl e ↦ rw (e, close_conns) (conns-close_conns which cs _)
  | inr e ↦ rw (e, close_conns) (conns-close_conns which cs s)
]

conns-stop_all : (m : Map Control) (s : State) → (stop_all m s).conns ≡ s.conns
unfolding stop_all
conns-stop_all [] s = refl
conns-stop_all ((h, c) ∷ m) s = conns-stop_all m _

conns-tick_loop :
    (fuel : ℕ) (s : State) (skipped : List ℕ) → (tick_loop fuel s skipped).0.conns ≡ s.conns
conns-tick_loop zero s skipped = unfold tick_loop in refl
conns-tick_loop (suc fuel) s skipped = elim (tick_loop-Round fuel s skipped) [
  | ends e ↦ ap (λ r. r.0.conns) e
  | skips h n full e ↦ ap (λ r. r.0.conns) e ∙ conns-tick_loop fuel (popped s) (skipped ++ h ∷ [])
  | forgets h n room gone e ↦ ap (λ r. r.0.conns) e ∙ conns-tick_loop fuel (popped s) skipped
  | announces h c n room known e ↦ ap (λ r. r.0.conns) e
]

conns-connect_loop :
    (now h : ℕ) (ps : List ℕ) (s : State) → Called s.conns (connect_loop now h ps s).conns
conns-connect_loop now h [] s = same_conns s.conns _ (unfold connect_loop in refl)
conns-connect_loop now h (p ∷ ps) s = elim (connect_round now h p ps s) [
  | inl e ↦ same_conns s.conns _ (ap (λ t. t.conns) e)
  | inr (inl e) ↦ subst (λ t. Called s.conns t.conns) (sym e) (conns-connect_loop now h ps s)
  | inr (inr e) ↦
      subst (λ t. Called s.conns t.conns) (sym e)
        (Called-trans s.conns (connected h p s).conns _
          (one_call s.conns _ (calls_add_pending p h []) (unfold ConnState.step in refl))
          (conns-connect_loop now h ps (connected h p s)))
]

conns-add_torrent : (t : NewTorrent) (l : Bool) (s : State) → (add_torrent t l s).0.conns ≡ s.conns
unfolding add_torrent
conns-add_torrent t l s = ground arith

conns-or_close : (c : Conn) (r : State × Bool) → (or_close c r).conns ≡ r.0.conns
unfolding or_close
conns-or_close c (s, true) = refl
conns-or_close c (s, false) = refl

conns-add_incoming :
    (closed taken : Bool) (c : Conn) (h : ℕ) (found : Option NewTorrent) (s : State)
    → (add_incoming_conn closed taken c h found s).0.conns
      ≡ (ConnState.move_pending_to_active closed c s.conns).0
unfolding add_incoming_conn
conns-add_incoming closed taken c h found s =
    elim (Option-cases (ConnState.move_pending_to_active closed c s.conns).1) [
      | inr (err, e) ↦ ground (arith, e)
      | inl e ↦ elim (Bool-cases (has h s.controls)) [
        | inl known ↦ rw (e, known, add_incoming_conn)
        | inr new ↦ elim (Option-cases found) [
          | inl missing ↦ rw (e, new, missing, add_incoming_conn)
          | inr (t, there) ↦
              rw (e, new, there, add_incoming_conn)
                (conns-add_torrent t false (record s {
                  conns = (ConnState.move_pending_to_active closed c s.conns).0;
                  effects = s.effects ++ starts c ∷ [];
                }))
        ]
      ]
    ]

conns-add_outgoing :
    (closed taken : Bool) (c : Conn) (h : ℕ) (s : State)
    → (add_outgoing_conn closed taken c h s).0.conns
      ≡ (ConnState.move_pending_to_active closed c s.conns).0
unfolding add_outgoing_conn
conns-add_outgoing closed taken c h s = ground arith

conns-handle_new : (t : NewTorrent) (w : ℕ) (s : State) → (handle_new t w s).conns ≡ s.conns
unfolding handle_new
conns-handle_new t w s = ground arith

conns-tick : (s : State) → (tick s).conns ≡ s.conns
unfolding tick
conns-tick s = conns-tick_loop (suc (length s.announce_queue.ready_queue)) s []

conns-handle_result :
    (now h : ℕ) (ps : List ℕ) (s : State) → Called s.conns (handle_result now h ps s).conns
unfolding handle_result
conns-handle_result now h ps s = elim (Option-cases (get h s.controls)) [
  | inl gone ↦ rw (gone, handle_result) (same_conns s.conns s.conns refl)
  | inr (c, known) ↦ elim (Bool-cases c.complete) [
    | inl e ↦ rw (known, e, handle_result) (same_conns s.conns s.conns refl)
    | inr e ↦
        rw (known, e, handle_result)
          (conns-connect_loop now h ps
            (record s { announce_queue = AnnounceQueue.ready h s.announce_queue }))
  ]
]

conns-handle_complete :
    (h : ℕ) (s : State) → (handle_complete h s).conns ≡ ConnState.clear_blacklist h s.conns
unfolding handle_complete
conns-handle_complete h s = ground arith

conns-preempt : (r : Readings) (s : State) → (preempt r s).conns ≡ s.conns
unfolding preempt
conns-preempt r s =
    let open_conns = ConnState.active_conns s.conns in
    let s' = close_conns (idle_conn r s) open_conns s in
    conns-remove_loop (is_idle r s) timed_out s'.controls s'
    ∙ conns-close_conns (idle_conn r s) open_conns s

conns-shut_down : (s : State) → (shut_down s).conns ≡ s.conns
unfolding shut_down
conns-shut_down s =
    let open_conns = ConnState.active_conns s.conns in
    let s' = close_conns (λ c. true) open_conns s in
    conns-stop_all s'.controls s' ∙ conns-close_conns (λ c. true) open_conns s

conns-finish : (h : ℕ) (s : State) → (finish h s).conns ≡ s.conns
unfolding finish
conns-finish h s = ground arith

conns-handle_remove :
    (digest w : ℕ) (gone : Bool) (s : State) → (handle_remove digest w gone s).conns ≡ s.conns
unfolding handle_remove
conns-handle_remove digest w gone s =
    conns-remove_loop (λ h c. c.digest == digest) removed s.controls s

two_calls :
    (c d : ConnState.State) (x y : Call) → d ≡ ConnState.step (ConnState.step c x) y → Called c d
two_calls c d x y e = (x ∷ y ∷ [], unfold ConnState.run in e)

apply-Called : (e : Event) (s : State) → Called s.conns (apply e s).conns
unfolding apply
apply-Called (conn_closed now c) s =
    two_calls s.conns _ (calls_delete_active c) (calls_blacklist now c.peer_id c.info_hash)
      (unfold ConnState.step in refl)
apply-Called (incoming_handshake peer h ids) s =
    one_call s.conns _ (calls_add_pending peer h ids) (unfold ConnState.step in refl)
apply-Called (failed_incoming peer h) s =
    one_call s.conns _ (calls_delete_pending peer h) (unfold ConnState.step in refl)
apply-Called (incoming_conn closed taken c h found) s = one_call s.conns _ (calls_move closed c) (
    conns-or_close c (add_incoming_conn closed taken c h found s)
    ∙ conns-add_incoming closed taken c h found s
    ∙ (unfold ConnState.step in refl))
apply-Called (failed_outgoing now peer h) s =
    two_calls s.conns _ (calls_delete_pending peer h) (calls_blacklist now peer h)
      (unfold ConnState.step in refl)
apply-Called (outgoing_conn closed taken c h) s = one_call s.conns _ (calls_move closed c) (
    conns-or_close c (add_outgoing_conn closed taken c h s)
    ∙ conns-add_outgoing closed taken c h s
    ∙ (unfold ConnState.step in refl))
apply-Called announce_tick s = same_conns s.conns _ (conns-tick s)
apply-Called (announce_result now h ps) s = conns-handle_result now h ps s
apply-Called (announce_err h) s = same_conns s.conns s.conns refl
apply-Called (new_torrent t w) s = same_conns s.conns _ (conns-handle_new t w s)
apply-Called (dispatcher_complete h) s =
    one_call s.conns _ (calls_clear h) (conns-handle_complete h s ∙ (unfold ConnState.step in refl))
apply-Called (peer_removed p h) s = same_conns s.conns s.conns refl
apply-Called (preemption_tick r) s = same_conns s.conns _ (conns-preempt r s)
apply-Called emit_stats s = same_conns s.conns s.conns refl
apply-Called blacklist_snapshot s = same_conns s.conns s.conns refl
apply-Called probe s = same_conns s.conns s.conns refl
apply-Called shutdown s = same_conns s.conns _ (conns-shut_down s)
apply-Called (remove_torrent_event d w gone) s =
    same_conns s.conns _ (conns-handle_remove d w gone s)

run-Called : (ms : List Move) (s : State) → Called s.conns (run ms s).conns
unfolding run
run-Called [] s = same_conns s.conns s.conns refl
run-Called (event e ∷ ms) s =
    Called-trans s.conns (apply e s).conns _ (apply-Called e s) (run-Called ms (apply e s))
run-Called (finishes h ∷ ms) s =
    Called-trans s.conns (finish h s).conns _ (same_conns s.conns _ (conns-finish h s))
      (run-Called ms (finish h s))

-- Whatever events a new scheduler applies, its connection state is well-formed: capacity, keys and
-- entries are as the connection state's own calls leave them.
run-conns-IsValid :
    (timeouts : Timeouts) (config : ConnState.Config) (peer_id : ℕ) (ms : List Move)
    → IsValid (run ms (new_state timeouts config peer_id)).conns
run-conns-IsValid timeouts config peer_id ms =
    let (cs, e) = run-Called ms (new_state timeouts config peer_id) in
    subst IsValid (sym e) (unfold new_state in (init-run-IsValid config peer_id cs).0)
