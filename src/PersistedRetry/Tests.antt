-- ===== src/PersistedRetry/Tests.antt =====
-- Runs of the manager, and each theorem at concrete steps.
use kraken.Base.{
  true, false, List, [], ◌∷◌, ◌≡◌, refl, inl, ◌⊎◌, ◌<◌, count, ◌==◌, get, put, del, has, Map,
}
use kraken.PersistedRetry.{
  Status, pending, failed, new_manager, Step, adds, enqueues_incoming, enqueues_retry, polls,
  retries_next, receives_incoming, receives_retry, executes, sync_executes, sync_exec, add,
  enqueue_incoming, poll_retries, retry, enqueue_retry, receive_incoming, receive_retry, exec, run,
  mark,
}
use kraken.PersistedRetry.Places.{Held}
use kraken.PersistedRetry.Places.Runs.{run-new_manager-Held, run-keeps}

-- Task 7 was pending when the last manager stopped.
abbrev left_over : Map Status
left_over = (7, pending) ∷ []

-- Task 8 is dropped by a full queue; task 9 fails; task 7 is retried and succeeds.
abbrev steps : List Step
steps =
    adds 9 true true
    ∷ enqueues_incoming 9 true
    ∷ adds 8 true true
    ∷ enqueues_incoming 8 true
    ∷ receives_incoming
    ∷ executes 9 false true
    ∷ polls (λ t. t == 7)
    ∷ retries_next true
    ∷ enqueues_retry 7 true
    ∷ receives_retry
    ∷ sync_executes 8 false
    ∷ executes 7 true true
    ∷ []

program : Unit {0}
unfolding run new_manager enqueue_incoming poll_retries retry enqueue_retry receive_incoming
    receive_retry exec sync_exec add get put del mark
program = tt

outcome : (run steps (new_manager 1 1 left_over)).store ≡ (9, failed) ∷ (8, failed) ∷ []
unfolding program
outcome = refl

run-new_manager-Held_example : Held 7 (run steps (new_manager 1 1 left_over))
unfolding get
run-new_manager-Held_example = run-new_manager-Held 1 1 7 left_over steps (refl, tt)

left_over_there : has 7 (new_manager 1 1 left_over).store ≡ true
unfolding program
left_over_there = refl

run-keeps_example :
    (has 7 (run steps (new_manager 1 1 left_over)).store ≡ true)
    ⊎ (0 < count 7 (run steps (new_manager 1 1 left_over)).executed)
run-keeps_example = run-keeps 7 steps (new_manager 1 1 left_over) (inl left_over_there)
