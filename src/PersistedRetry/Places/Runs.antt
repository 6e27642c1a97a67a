-- ===== src/PersistedRetry/Places/Runs.antt =====
-- Where tasks are held, over all steps.
use kraken.Base.{
  ℕ, ◌≤◌, ◌<◌, true, none, List, [], ◌∷◌, count, Map, get, has, get-put, get-del, ◌≡◌, refl, arith,
  inl, inr, ◌⊎◌, eq-cases, Distinct,
}
use kraken.PersistedRetry.{
  Status, State, mark_all_failed, new_manager, add, enqueue_incoming, poll_retries, retry,
  enqueue_retry, receive_incoming, receive_retry, exec, close, Step, adds, enqueues_incoming,
  enqueues_retry, polls, retries_next, receives_incoming, receives_retry, closes, executes,
  sync_executes, sync_exec, step, run,
}
use kraken.PersistedRetry.Places.{
  Held, add-Held, enqueue_incoming-Held, enqueue_retry-Held, retry-Held, receive_incoming-Held,
  receive_retry-Held, exec-Held, poll_retries-Held,
}
use kraken.PersistedRetry.Storing.{Stores, same, puts, deletes, Stores-Distinct, step-Stores}

step-Held : (t : ℕ) (x : Step) (s : State) → Distinct s.store → Held t s → Held t (step x s)
unfolding step
step-Held t (adds x ready ok) s d h = add-Held t x ready ok s h
step-Held t (enqueues_incoming x ok) s d h = enqueue_incoming-Held t x ok s h
step-Held t (enqueues_retry x ok) s d h = enqueue_retry-Held t x ok s h
step-Held t (polls due) s d h = poll_retries-Held t due s d h
step-Held t (retries_next ok) s d h = retry-Held t ok s h
step-Held t receives_incoming s d h = receive_incoming-Held t s h
step-Held t receives_retry s d h = receive_retry-Held t s h
step-Held t closes s d h = unfold close in h
step-Held t (executes x done ok) s d h = exec-Held t x done ok s h
step-Held t (sync_executes x done) s d h = unfold sync_exec in ground (arith, h)

run-Held : (t : ℕ) (xs : List Step) (s : State) → Distinct s.store → Held t s → Held t (run xs s)
unfolding run
run-Held t [] s d h = h
run-Held t (x ∷ xs) s d h =
    run-Held t xs (step x s) (Stores-Distinct s (step x s) (step-Stores x s) d)
      (step-Held t x s d h)

mark_all_failed-Distinct : (store : Map Status) → Distinct store → Distinct (mark_all_failed store)
unfolding mark_all_failed get
mark_all_failed-Distinct [] d = tt
mark_all_failed-Distinct ((x, v) ∷ store) (new, d) =
    (get-mark_all_failed x store new, mark_all_failed-Distinct store d)
  where
    get-mark_all_failed :
        (x : ℕ) (m : Map Status) → get x m ≡ none → get x (mark_all_failed m) ≡ none
    get-mark_all_failed x [] gone = refl
    get-mark_all_failed x ((y, w) ∷ m) gone = ground (arith, gone, get-mark_all_failed x m)

-- Over any steps of a new manager, also when calls of the store give errors, a task is held by one
-- queue or goroutine of the manager at most, and then it is pending in the store (`SyncExec`, which
-- may run a task beside them, holds none); what the ticker has left to retry are failed tasks, each
-- once.
pub run-new_manager-Held :
    (incoming_buffer retry_buffer t : ℕ) (store : Map Status) (xs : List Step)
    → Distinct store
    → Held t (run xs (new_manager incoming_buffer retry_buffer store))
run-new_manager-Held incoming_buffer retry_buffer t store xs d =
    run-Held t xs (new_manager incoming_buffer retry_buffer store)
      (unfold new_manager in mark_all_failed-Distinct store d) (unfold new_manager in ground arith)

executed-step : (t : ℕ) (x : Step) (s : State) → count t s.executed ≤ count t (step x s).executed
unfolding step
executed-step t (adds u ready ok) s = unfold add in ground arith
executed-step t (enqueues_incoming u ok) s = unfold enqueue_incoming in ground arith
executed-step t (enqueues_retry u ok) s = unfold enqueue_retry in ground arith
executed-step t (polls due) s = unfold poll_retries in ground arith
executed-step t (retries_next ok) s = unfold retry in ground arith
executed-step t receives_incoming s = unfold receive_incoming in ground arith
executed-step t receives_retry s = unfold receive_retry in ground arith
executed-step t closes s = unfold close in ground arith
executed-step t (executes u done ok) s = unfold exec in ground arith
executed-step t (sync_executes u done) s = unfold sync_exec in ground arith

has-step :
    (t : ℕ) (s t' : State)
    → Stores s t'
    → has t s.store ≡ true
    → (has t t'.store ≡ true) ⊎ (0 < count t t'.executed)
has-step t s t' (same e) there = inl (ground (arith, e, there))
has-step t s t' (puts x v e) there = inl (ground (arith, e, there, get-put x t v s.store))
has-step t s t' (deletes x e done) there = elim (eq-cases x t) [
  | inl here ↦ inr (ground (arith, here, done))
  | inr other ↦ inl (ground (arith, e, there, other, get-del x t s.store))
]

-- No task is lost: over any steps, also when calls of the store give errors, a task that is in the
-- store stays there until it was executed without an error.
pub run-keeps :
    (t : ℕ) (xs : List Step) (s : State)
    → (has t s.store ≡ true) ⊎ (0 < count t s.executed)
    → (has t (run xs s).store ≡ true) ⊎ (0 < count t (run xs s).executed)
unfolding run
run-keeps t [] s here = here
run-keeps t (x ∷ xs) s (inl there) =
    run-keeps t xs (step x s) (has-step t s (step x s) (step-Stores x s) there)
run-keeps t (x ∷ xs) s (inr done) =
    run-keeps t xs (step x s) (inr (omega (arith, done, executed-step t x s)))
