-- ===== src/Scheduler/Announcing/Order.antt =====
-- Which torrent a tick announces, and what it leaves in the announce queue.
use kraken.Base.{
  append-nil, ℕ, suc, ◌<◌, Bool, true, false, some, List, [], ◌∷◌, ◌++◌, ◌≡◌, refl, sym, ap, ◌∙◌,
  arith, get, put, Map, count, length, get-put,
}
use kraken.AnnounceQueue
use kraken.AnnounceQueue.{Queue}
use kraken.ConnState
use kraken.Scheduler.{State, Control, announces, tick_loop, ready_all, tick}
use kraken.Scheduler.Announcing.{
  Passed, Unique, saturated_of, with_queue, mark, skip_over, mark_marks, count-select,
  select-Unique, ready_all-pending, fuel_of_length, length_suc,
}

announce_round :
    (h : ℕ) (c : Control) (rest : List ℕ) (fuel : ℕ) (s : State) (m : Map Bool) (skipped : List ℕ)
    → ConnState.saturated h s.conns ≡ false
    → get h s.controls ≡ some c
    → tick_loop (suc fuel) (with_queue s (h ∷ rest) m) skipped ≡ (
      record (with_queue s rest (put h true m)) {
        effects = s.effects ++ announces c.digest h c.complete ∷ [];
      },
      skipped,
    )
unfolding tick_loop AnnounceQueue.next
announce_round h c rest fuel s m skipped room known = rw (room, known, tick_loop)

empty_round :
    (fuel : ℕ) (s : State) (m : Map Bool) (skipped : List ℕ)
    → tick_loop (suc fuel) (with_queue s [] m) skipped ≡ (with_queue s [] m, skipped)
unfolding tick_loop AnnounceQueue.next
empty_round fuel s m skipped = refl

-- The torrents that were skipped go to the back of the queue.
tick-requeues :
    (s t : State) (m : Map Bool) (xs rest : List ℕ)
    → tick_loop (suc (length s.announce_queue.ready_queue)) s [] ≡ (t, saturated_of s xs)
    → Unique xs
    → t.announce_queue ≡ record { ready_queue = rest; pending = m }
    → ((j : ℕ) → 0 < count j xs → get j m ≡ some true)
    → (tick s).announce_queue.ready_queue ≡ rest ++ saturated_of s xs
unfolding tick
tick-requeues s t m xs rest e u queue marked =
    let is_saturated : ℕ → Bool = λ h. ConnState.saturated h s.conns in
    ap (λ r. (ready_all r.1 r.0.announce_queue).ready_queue) e
    ∙ ap (λ q. (ready_all (saturated_of s xs) q).ready_queue) queue
    ∙ ready_all-pending (saturated_of s xs) rest m (select-Unique is_saturated xs u)
        (λ j there. marked j (ground (arith, there, count-select is_saturated xs j)))

tick-effects :
    (s t : State) (skipped : List ℕ)
    → tick_loop (suc (length s.announce_queue.ready_queue)) s [] ≡ (t, skipped)
    → (tick s).effects ≡ t.effects
unfolding tick
tick-effects s t skipped e = ap (λ r. r.0.effects) e

-- A tick announces the first torrent in the announce queue that is not saturated and has a control:
-- of those before it, which stand in the queue once each, the saturated ones go to the back in
-- order, and the ones without a control leave the queue.
pub tick-announces_first :
    (s : State) (xs rest : List ℕ) (h : ℕ) (c : Control)
    → s.announce_queue.ready_queue ≡ xs ++ h ∷ rest
    → Passed s xs
    → Unique xs
    → ConnState.saturated h s.conns ≡ false
    → get h s.controls ≡ some c
    → ((tick s).effects ≡ s.effects ++ announces c.digest h c.complete ∷ [])
      × ((tick s).announce_queue.ready_queue ≡ rest ++ saturated_of s xs)
tick-announces_first s xs rest h c queue passed unique room known =
    let m = s.announce_queue.pending in
    let t : State = record (with_queue s rest (put h true (mark xs m))) {
      effects = s.effects ++ announces c.digest h c.complete ∷ [];
    } in
    let loop : tick_loop (suc (length s.announce_queue.ready_queue)) s [] ≡ (t, saturated_of s xs) =
      ap (λ q. tick_loop (suc (length q)) (with_queue s q m) []) queue
      ∙ ap (λ n. tick_loop n (with_queue s (xs ++ h ∷ rest) m) []) (fuel_of_length xs (h ∷ rest))
      ∙ skip_over xs (h ∷ rest) (suc (length (h ∷ rest))) s m [] passed
      ∙ announce_round h c rest (length (h ∷ rest)) s (mark xs m) (saturated_of s xs) room known in
    (
      tick-effects s t (saturated_of s xs) loop,
      tick-requeues s t (put h true (mark xs m)) xs rest loop unique refl
          (λ j there. ground (arith, mark_marks xs m j there, get-put h j true (mark xs m))),
    )

-- A tick announces nothing when each torrent in the queue, where it stands once, is saturated or has
-- no control; the saturated ones stay in order.
pub tick-announces_none :
    (s : State)
    → Passed s s.announce_queue.ready_queue
    → Unique s.announce_queue.ready_queue
    → ((tick s).effects ≡ s.effects)
      × ((tick s).announce_queue.ready_queue ≡ saturated_of s s.announce_queue.ready_queue)
tick-announces_none s passed unique =
    let m = s.announce_queue.pending in
    let xs = s.announce_queue.ready_queue in
    let t = with_queue s [] (mark xs m) in
    let loop : tick_loop (suc (length xs)) s [] ≡ (t, saturated_of s xs) =
      ap (λ q. tick_loop (suc (length xs)) (with_queue s q m) []) (sym (append-nil xs))
      ∙ ap (λ n. tick_loop n (with_queue s (xs ++ []) m) []) (length_suc xs)
      ∙ skip_over xs [] 1 s m [] passed
      ∙ empty_round 0 s (mark xs m) (saturated_of s xs) in
    (
      tick-effects s t (saturated_of s xs) loop,
      tick-requeues s t (mark xs m) xs [] loop unique refl (mark_marks xs m),
    )
