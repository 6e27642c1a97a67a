-- ===== src/PersistedRetry.antt =====
-- lib/persistedretry/manager.go: tasks that are executed, and retried until they succeed. Tasks are
-- numbered by what the store knows them by. The store does what interfaces.go says of it: it maps a
-- task to its status, and each of its calls may give an error and do nothing. The goroutines run
-- concurrently: `adding`, `retrying` and `working` list the tasks that a call of `Add`, the ticker
-- and the workers hold between two critical steps, and `polled` what the ticker has left of the
-- failed tasks that it read. Metrics and the sleeps of the workers are left out.
pub mod Places
pub mod Storing
mod Tests
use kraken.Base.{
  ℕ, Bool, true, false, not, Option, none, some, List, [], ◌∷◌, ◌++◌, if◌then◌else◌, ◌==◌, ◌&&◌,
  ◌||◌, ltb, length, count, take_out, Map, get, put, del, has,
}

pub data Status : Type 0 where
  pending failed : Status

abbrev pub is_failed : Status → Bool
is_failed failed = true
is_failed pending = false

pub record State : Type 0 where
  pub store : Map Status
  pub incoming : List ℕ
  pub retries : List ℕ
  pub adding : List ℕ
  pub polled : List ℕ
  pub retrying : List ℕ
  pub working : List ℕ
  pub executed : List ℕ
  pub incoming_buffer : ℕ
  pub retry_buffer : ℕ
  pub is_closed : Bool

-- The store's `MarkPending` and `MarkFailed`, where they give no error.
unfoldable pub mark : ℕ → Status → Map Status → Map Status
mark t s store = if has t store then put t s store else store

unfoldable pub mark_all_failed : Map Status → Map Status
mark_all_failed [] = []
mark_all_failed ((t, s) ∷ store) = (t, failed) ∷ mark_all_failed store

-- A manager on a store that gives no error: its pending tasks are failed.
unfoldable pub new_manager : ℕ → ℕ → Map Status → State
unfolding mark_all_failed
new_manager incoming_buffer retry_buffer store = record {
  store = mark_all_failed store;
  incoming = [];
  retries = [];
  adding = [];
  polled = [];
  retrying = [];
  working = [];
  executed = [];
  incoming_buffer = incoming_buffer;
  retry_buffer = retry_buffer;
  is_closed = false;
}

-- `Add` up to the store, for a task that is ready or not; `ok` is false where the store gives
-- another error than that the task exists.
unfoldable pub add : ℕ → (ready ok : Bool) → State → State
add t ready ok s = if s.is_closed || has t s.store || not ok then s else record s {
  store = put t (if ready then pending else failed) s.store;
  adding = if ready then t ∷ s.adding else s.adding;
}

-- `enqueue` on the incoming queue, at the end of `Add`; a full queue marks the task as failed.
unfoldable pub enqueue_incoming : ℕ → Bool → State → State
unfolding mark
enqueue_incoming t ok s =
    let s' : State = record s { adding = take_out t s.adding } in
    if count t s.adding == 0
    then s
    else if ltb (length s.incoming) s.incoming_buffer
    then record s' { incoming = s.incoming ++ t ∷ [] }
    else if ok
    then record s' { store = mark t failed s.store }
    else s'

-- The failed tasks that are ready, and whose last attempt is long enough ago.
unfoldable pub failed_tasks : (ℕ → Bool) → Map Status → List ℕ
failed_tasks due [] = []
failed_tasks due ((t, s) ∷ store) =
    if is_failed s && due t then t ∷ failed_tasks due store else failed_tasks due store

-- `pollRetries`, once the ticker is through with the tasks of the last poll.
unfoldable pub poll_retries : (ℕ → Bool) → State → State
unfolding failed_tasks
poll_retries due s = elim s.polled [
  | [] ↦ record s { polled = failed_tasks due s.store }
  | t ∷ ts ↦ s
]

-- `retry` of the next task, up to the store.
unfoldable pub retry : Bool → State → State
unfolding mark
retry ok s = elim s.polled [
  | [] ↦ s
  | t ∷ ts ↦
      let s' : State = record s { polled = ts } in
      if ok && has t s.store
      then record s' { store = mark t pending s.store; retrying = t ∷ s.retrying }
      else s'
]

-- `enqueue` on the queue of retries.
unfoldable pub enqueue_retry : ℕ → Bool → State → State
unfolding mark
enqueue_retry t ok s =
    let s' : State = record s { retrying = take_out t s.retrying } in
    if count t s.retrying == 0
    then s
    else if ltb (length s.retries) s.retry_buffer
    then record s' { retries = s.retries ++ t ∷ [] }
    else if ok
    then record s' { store = mark t failed s.store }
    else s'

-- A worker receives the front of its queue.
unfoldable pub receive_incoming : State → State
receive_incoming s = elim s.incoming [
  | [] ↦ s
  | t ∷ ts ↦ record s { incoming = ts; working = t ∷ s.working }
]

unfoldable pub receive_retry : State → State
receive_retry s = elim s.retries [
  | [] ↦ s
  | t ∷ ts ↦ record s { retries = ts; working = t ∷ s.working }
]

-- `exec`: whether the executor gives no error, and the store's call after it.
unfoldable pub exec : ℕ → (done ok : Bool) → State → State
unfolding mark
exec t done ok s =
    let s' : State = record s {
      working = take_out t s.working;
      executed = if done then t ∷ s.executed else s.executed;
    } in
    if count t s.working == 0
    then s
    else if not ok
    then s'
    else record s' { store = if done then del t s.store else mark t failed s.store }

-- `SyncExec`: the executor runs a task at once, whichever goroutine holds it; neither the store nor
-- a queue is touched.
unfoldable pub sync_exec : ℕ → (done : Bool) → State → State
sync_exec t done s = record s { executed = if done then t ∷ s.executed else s.executed }

unfoldable pub close : State → State
close s = record s { is_closed = true }

-- The steps of the goroutines.
pub data Step : Type 0 where
  adds : ℕ → (ready ok : Bool) → Step
  enqueues_incoming enqueues_retry : ℕ → Bool → Step
  polls : (ℕ → Bool) → Step
  retries_next : Bool → Step
  receives_incoming receives_retry closes : Step
  executes : ℕ → (done ok : Bool) → Step
  sync_executes : ℕ → (done : Bool) → Step

unfoldable pub step : Step → State → State
unfolding add enqueue_incoming poll_retries retry enqueue_retry receive_incoming receive_retry exec
    sync_exec close
step (adds t ready ok) s = add t ready ok s
step (enqueues_incoming t ok) s = enqueue_incoming t ok s
step (enqueues_retry t ok) s = enqueue_retry t ok s
step (polls due) s = poll_retries due s
step (retries_next ok) s = retry ok s
step receives_incoming s = receive_incoming s
step receives_retry s = receive_retry s
step closes s = close s
step (executes t done ok) s = exec t done ok s
step (sync_executes t done) s = sync_exec t done s

unfoldable pub run : List Step → State → State
unfolding step
run [] s = s
run (x ∷ xs) s = run xs (step x s)
