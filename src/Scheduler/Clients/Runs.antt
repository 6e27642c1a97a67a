-- ===== src/Scheduler/Clients/Runs.antt =====
-- The clients over whole histories of events, up to a shutdown.
use kraken.Base.{
  ℕ, ◌<◌, Bool, true, false, some, List, [], ◌∷◌, ◌++◌, ◌||◌, eq-cases, ◌≡◌, refl, arith, get, Map,
  Bool-cases, inl, inr, count,
}
use kraken.ConnState
use kraken.ConnState.{Conn}
use kraken.Scheduler.Waiting.{
  answered, Served, Same-Served, more_answers, finish-Served, all_answered,
}
use kraken.Scheduler.Waiting.Loops.{close_conns-Same}
use kraken.Scheduler.{
  State, Control, Timeouts, new_state, tears_down, close_conns, stop_all, shut_down, apply, finish,
  Move, event, finishes, run, stopped, answer_all,
}
use kraken.Scheduler.Clients.{asks, Orderly, apply-Served, apply-asks}

-- Some event is sent for the client.
unfoldable pub asked_in : ℕ → List Move → Bool
unfolding asks
asked_in w [] = false
asked_in w (event e ∷ ms) = asks w e || asked_in w ms
asked_in w (finishes h ∷ ms) = asked_in w ms

-- Each event is in order where it is applied.
abbrev pub AllOrderly : List Move → State → Type 0
AllOrderly [] s = Unit
AllOrderly (event e ∷ ms) s = Orderly e s × AllOrderly ms (apply e s)
AllOrderly (finishes h ∷ ms) s = AllOrderly ms (finish h s)

run-Served :
    (w : ℕ) (ms : List Move) (s : State) → AllOrderly ms s → Served w s → Served w (run ms s)
unfolding run
run-Served w [] s o v = v
run-Served w (event e ∷ ms) s (o, os) v = run-Served w ms (apply e s) os (apply-Served w e s o v)
run-Served w (finishes h ∷ ms) s os v = run-Served w ms (finish h s) os (finish-Served w h s v)

run-asked :
    (w : ℕ) (ms : List Move) (s : State)
    → AllOrderly ms s
    → asked_in w ms ≡ true
    → Served w (run ms s)
unfolding asked_in run
run-asked w [] s o some_ask = ground arith
run-asked w (event e ∷ ms) s (o, os) some_ask = elim (Bool-cases (asks w e)) [
  | inl now ↦ run-Served w ms (apply e s) os (apply-asks w e s now)
  | inr later ↦ run-asked w ms (apply e s) os (ground (arith, some_ask, later))
]
run-asked w (finishes h ∷ ms) s os some_ask = run-asked w ms (finish h s) os some_ask

-- No client is lost: after any moves of a new scheduler in which torrents are removed only while no
-- completion event is due, and the archive finds the torrent of the peer's handshake, each client
-- that an event was sent for was answered, or waits at a torrent that is incomplete or whose
-- completion event is due.
pub run-new_state-Served :
    (timeouts : Timeouts) (config : ConnState.Config) (peer_id w : ℕ) (ms : List Move)
    → AllOrderly ms (new_state timeouts config peer_id)
    → asked_in w ms ≡ true
    → Served w (run ms (new_state timeouts config peer_id))
run-new_state-Served timeouts config peer_id w ms =
    run-asked w ms (new_state timeouts config peer_id)

stop_all-keeps :
    (w : ℕ) (m : Map Control) (s : State) → 0 < answered w s → 0 < answered w (stop_all m s)
unfolding stop_all
stop_all-keeps w [] s v = v
stop_all-keeps w ((h, c) ∷ m) s v =
    let s' : State = record s {
      answers = s.answers ++ answer_all stopped c.errors;
      effects = s.effects ++ tears_down h ∷ [];
    } in
    stop_all-keeps w m s' (more_answers w s s' (answer_all stopped c.errors) refl v)

stop_all-answers :
    (w h : ℕ) (c : Control) (m : Map Control) (s : State)
    → get h m ≡ some c
    → 0 < count w c.errors
    → 0 < answered w (stop_all m s)
unfolding get stop_all
stop_all-answers w h c [] s at there = ground arith
stop_all-answers w h c ((k, d) ∷ m) s at there =
    let s' : State = record s {
      answers = s.answers ++ answer_all stopped d.errors;
      effects = s.effects ++ tears_down k ∷ [];
    } in
    elim (eq-cases k h) [
      | inl e ↦
          stop_all-keeps w m s' (all_answered w stopped d s s' refl (ground (arith, e, at, there)))
      | inr ne ↦ stop_all-answers w h c m s' (ground (arith, ne, at)) there
    ]

shut_down-answers : (w : ℕ) (s : State) → Served w s → 0 < answered w (shut_down s)
unfolding shut_down
shut_down-answers w s v =
    let open_conns = ConnState.active_conns s.conns in
    let s' = close_conns (λ c. true) open_conns s in
    elim (Same-Served w s s' (close_conns-Same (λ c. true) open_conns s) v) [
      | inl a ↦ stop_all-keeps w s'.controls s' a
      | inr (h, c, at, there, why) ↦ stop_all-answers w h c s'.controls s' at there
    ]

-- Once the scheduler shuts down, every client that an event was sent for has been answered, after
-- any moves of a new scheduler in which torrents are removed only while no completion event is due,
-- and the archive finds the torrent of the peer's handshake.
pub run-shut_down-answered :
    (timeouts : Timeouts) (config : ConnState.Config) (peer_id w : ℕ) (ms : List Move)
    → AllOrderly ms (new_state timeouts config peer_id)
    → asked_in w ms ≡ true
    → 0 < answered w (shut_down (run ms (new_state timeouts config peer_id)))
run-shut_down-answered timeouts config peer_id w ms o asked =
    shut_down-answers w (run ms (new_state timeouts config peer_id))
      (run-new_state-Served timeouts config peer_id w ms o asked)
