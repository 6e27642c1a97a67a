-- ===== src/Scheduler/Ticks.antt =====
-- The rounds of the loops over the announce queue and over the peers of an announce.
use kraken.Base.{
  ◌==◌, ◌||◌, ◌⊎◌, ℕ, suc, true, false, none, some, List, [], ◌∷◌, ◌++◌, ◌≡◌, arith, get,
  Bool-cases, Option-cases, inl, inr,
}
use kraken.AnnounceQueue
use kraken.ConnState
use kraken.Scheduler.{State, Control, Effect, tick_loop, connect_loop}

-- The state once `Next` has taken a torrent off the queue.
abbrev pub popped : State → State
popped s = record s { announce_queue = (AnnounceQueue.next s.announce_queue).0 }

-- A round ends on an empty queue, skips a saturated torrent, forgets one without a control, or
-- announces one and ends.
pub data Round (fuel : ℕ) (s : State) (skipped : List ℕ) : Type 0 where
  ends : tick_loop (suc fuel) s skipped ≡ (popped s, skipped) → Round fuel s skipped
  skips :
      (h : ℕ)
      → (AnnounceQueue.next s.announce_queue).1 ≡ some h
      → ConnState.saturated h s.conns ≡ true
      → tick_loop (suc fuel) s skipped ≡ tick_loop fuel (popped s) (skipped ++ h ∷ [])
      → Round fuel s skipped
  forgets :
      (h : ℕ)
      → (AnnounceQueue.next s.announce_queue).1 ≡ some h
      → ConnState.saturated h s.conns ≡ false
      → get h s.controls ≡ none
      → tick_loop (suc fuel) s skipped ≡ tick_loop fuel (popped s) skipped
      → Round fuel s skipped
  announces :
      (h : ℕ) (c : Control)
      → (AnnounceQueue.next s.announce_queue).1 ≡ some h
      → ConnState.saturated h s.conns ≡ false
      → get h s.controls ≡ some c
      → tick_loop (suc fuel) s skipped ≡ (
        record (popped s) { effects = s.effects ++ Effect.announces c.digest h c.complete ∷ [] },
        skipped,
      )
      → Round fuel s skipped

pub tick_loop-Round : (fuel : ℕ) (s : State) (skipped : List ℕ) → Round fuel s skipped
unfolding tick_loop
tick_loop-Round fuel s skipped = elim (Option-cases (AnnounceQueue.next s.announce_queue).1) [
  | inl nothing ↦ ends (ground (arith, nothing))
  | inr (h, front) ↦ elim (Bool-cases (ConnState.saturated h s.conns)) [
    | inl full ↦ skips h front full (rw (front, full, tick_loop))
    | inr room ↦ elim (Option-cases (get h s.controls)) [
      | inl gone ↦ forgets h front room gone (rw (front, room, gone, tick_loop))
      | inr (c, known) ↦ announces h c front room known (rw (front, room, known, tick_loop))
    ]
  ]
]

-- The state once a connection to a peer is pending.
abbrev pub connected : ℕ → ℕ → State → State
connected h p s = record s {
  conns = (ConnState.add_pending p h [] s.conns).0;
  effects = s.effects ++ Effect.connects p h ∷ [];
}

connect_error :
    (now h p : ℕ) (ps : List ℕ) (s : State) (e : ConnState.Error)
    → (ConnState.add_pending p h [] s.conns).1 ≡ some e
    → ((p == s.peer_id) || ConnState.blacklisted now p h s.conns) ≡ false
    → (connect_loop now h (p ∷ ps) s ≡ s)
      ⊎ (connect_loop now h (p ∷ ps) s ≡ connect_loop now h ps s)
unfolding connect_loop
connect_error now h p ps s ConnState.torrent_at_capacity e t = inl (rw (e, t, connect_loop))
connect_error now h p ps s ConnState.conn_already_pending e t = inr (rw (e, t, connect_loop))
connect_error now h p ps s ConnState.conn_already_active e t = inr (rw (e, t, connect_loop))
connect_error now h p ps s ConnState.conn_closed e t = inr (rw (e, t, connect_loop))
connect_error now h p ps s ConnState.invalid_active_transition e t = inr (rw (e, t, connect_loop))
connect_error now h p ps s ConnState.too_many_mutual_conns e t = inr (rw (e, t, connect_loop))
connect_error now h p ps s ConnState.conn_already_blacklisted e t = inr (rw (e, t, connect_loop))

-- A round ends the loop, skips the peer, or connects to it.
pub connect_round :
    (now h p : ℕ) (ps : List ℕ) (s : State)
    → (connect_loop now h (p ∷ ps) s ≡ s)
      ⊎ ((connect_loop now h (p ∷ ps) s ≡ connect_loop now h ps s)
          ⊎ (connect_loop now h (p ∷ ps) s ≡ connect_loop now h ps (connected h p s)))
connect_round now h p ps s =
    elim (Bool-cases ((p == s.peer_id) || ConnState.blacklisted now p h s.conns)) [
      | inl t ↦ inr (inl (unfold connect_loop in rw (t, connect_loop)))
      | inr t ↦ elim (Option-cases (ConnState.add_pending p h [] s.conns).1) [
        | inl ok ↦ inr (inr (unfold connect_loop in rw (ok, t, connect_loop)))
        | inr (e, err) ↦ elim (connect_error now h p ps s e err t) [
          | inl stop ↦ inl stop
          | inr on ↦ inr (inl on)
        ]
      ]
    ]
