-- ===== src/AnnounceQueue/Tests.antt =====
-- Runs of the announce queue, and each theorem at concrete calls.
use kraken.Base.{◌≡◌, refl, List, [], ◌∷◌, true, arith, ◌<◌, get, put, del, count, inl, inr}
use kraken.AnnounceQueue.{
  Queue, init, next, add, ready, eject, remove_first, step, run, is_pending, Call, calls_next,
  calls_add, calls_ready, calls_eject,
}
use kraken.AnnounceQueue.Laws.{IsValid}
use kraken.AnnounceQueue.Turns.{init-IsValid, run-IsValid, next_once, run_fair}

program : Unit {0}
unfolding init next add ready eject remove_first step run get put del
program = tt

abbrev calls : List Call
calls = calls_add 1 ∷ calls_add 2 ∷ calls_next ∷ calls_ready 1 ∷ calls_next ∷ calls_eject 2 ∷ []

-- 1, then 2; 1 stands ready again, and 2 is gone.
run-calls : run init calls ≡ (record { ready_queue = 1 ∷ []; pending = [] }, 1 ∷ 2 ∷ [])
unfolding program
run-calls = refl

run-IsValid_example : IsValid (run init calls).0
unfolding program
run-IsValid_example = run-IsValid init calls (omega arith) init-IsValid

abbrev two : Queue
two = record { ready_queue = 1 ∷ 2 ∷ []; pending = [] }

abbrev after_next : Queue
after_next = record { ready_queue = 2 ∷ []; pending = (1, true) ∷ [] }

two-IsValid : IsValid two
unfolding get
two-IsValid h = ground arith

abbrev later_calls : List Call
later_calls = calls_next ∷ calls_add 3 ∷ calls_ready 2 ∷ calls_next ∷ calls_next ∷ []

next_once_example : (is_pending 1 after_next ≡ true) × (count 1 (run after_next later_calls).1 ≡ 0)
unfolding program
next_once_example = next_once two after_next 1 later_calls two-IsValid refl (omega arith)

run_fair_example :
    0 < count 2 (run two (calls_next ∷ calls_add 3 ∷ calls_eject 1 ∷ calls_next ∷ [])).1
run_fair_example =
    run_fair 2 2 two (calls_next ∷ calls_add 3 ∷ calls_eject 1 ∷ calls_next ∷ []) (inr (inl refl))
      (omega arith) (omega arith)
