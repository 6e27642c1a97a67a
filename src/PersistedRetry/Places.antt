-- ===== src/PersistedRetry/Places.antt =====
-- Where a task is held: a pending task is in one place at most, and a failed one in none.
pub mod Runs
use kraken.Base.{
  ℕ, zero, suc, ◌+◌, ◌≤◌, ◌<◌, Bool, true, false, not, Option, none, some, List, [], ◌∷◌, ◌++◌,
  if◌then◌else◌, ◌==◌, ◌&&◌, ◌||◌, ltb, length, count, count-append, take_out, count-take_out,
  count-take_out_self, Map, get, put, del, has, get-put, get-del, ◌≡◌, refl, sym, ap, ◌∙◌, subst,
  arith, Bool-cases, if-cases, Option-cases, inl, inr, ◌⊎◌, ◌≢◌, eq-cases, Distinct, put-Distinct,
  del-Distinct,
}
use kraken.PersistedRetry.{
  Status, pending, failed, is_failed, State, mark, mark_all_failed, new_manager, add,
  enqueue_incoming, failed_tasks, poll_retries, retry, enqueue_retry, receive_incoming,
  receive_retry, exec, close, Step, adds, enqueues_incoming, enqueues_retry, polls, retries_next,
  receives_incoming, receives_retry, closes, executes, step, run,
}

-- How many goroutines and queues hold the task.
abbrev pub places : ℕ → State → ℕ
places t s =
    count t s.adding
    + count t s.incoming
    + count t s.retrying
    + count t s.retries
    + count t s.working

abbrev pub is_pending : Option Status → ℕ
is_pending none = 0
is_pending (some pending) = 1
is_pending (some failed) = 0

-- A task that the ticker has read is failed.
abbrev pub may_poll : Option Status → ℕ
may_poll none = 0
may_poll (some pending) = 0
may_poll (some failed) = 1

-- One task: it is held by one place at most, and then pending in the store; what the ticker has
-- left to retry is failed.
abbrev pub Held : ℕ → State → Type 0
Held t s = (places t s ≤ is_pending (get t s.store)) × (count t s.polled ≤ may_poll (get t s.store))

-- The number without one occurrence of a task, for the same task and for another one.
count-take_out-cases :
    (a b : ℕ) (xs : List ℕ)
    → 0 < count a xs
    → ((a ≡ b) × (suc (count b (take_out a xs)) ≡ count b xs))
      ⊎ ((a ≢ b) × (count b (take_out a xs) ≡ count b xs))
count-take_out-cases a b xs there = elim (eq-cases a b) [
  | inl e ↦ inl (
    e,
    subst (λ n. suc (count n (take_out a xs)) ≡ count n xs) e (count-take_out_self a xs there),
  )
  | inr ne ↦ inr (ne, count-take_out a b xs ne)
]

get-mark :
    (x t : ℕ) (v : Status) (store : Map Status)
    → get t (mark x v store) ≡ (if (x == t) && has t store then some v else get t store)
unfolding mark
get-mark x t v store = ground (arith, get-put x t v store)

pub add-Held : (t x : ℕ) (ready ok : Bool) (s : State) → Held t s → Held t (add x ready ok s)
unfolding add
add-Held t x ready ok s h =
    if-cases (Held t) (s.is_closed || has x s.store || not ok) s _ (λ refused. h)
      (λ new. ground (arith, h, new, get-put x t (if ready then pending else failed) s.store))

-- A queue takes the task, or the store marks it as failed, or neither.
pub enqueue_incoming-Held :
    (t x : ℕ) (ok : Bool) (s : State) → Held t s → Held t (enqueue_incoming x ok s)
unfolding enqueue_incoming
enqueue_incoming-Held t x ok s h =
    let s' : State = record s { adding = take_out x s.adding } in
    if-cases (Held t) (count x s.adding == 0) s _ (λ nothing. h)
      (λ held.
        let out = count-take_out-cases x t s.adding (ground (arith, held)) in
        if-cases (Held t) (ltb (length s.incoming) s.incoming_buffer)
          (record s' { incoming = s.incoming ++ x ∷ [] }) _
          (λ room. ground (arith, h, out, count-append t s.incoming (x ∷ [])))
          (λ full.
            if-cases (Held t) ok (record s' { store = mark x failed s.store }) s'
              (λ fine. ground (arith, h, out, get-mark x t failed s.store))
              (λ lost. ground (arith, h, out))))

pub enqueue_retry-Held :
    (t x : ℕ) (ok : Bool) (s : State) → Held t s → Held t (enqueue_retry x ok s)
unfolding enqueue_retry
enqueue_retry-Held t x ok s h =
    let s' : State = record s { retrying = take_out x s.retrying } in
    if-cases (Held t) (count x s.retrying == 0) s _ (λ nothing. h)
      (λ held.
        let out = count-take_out-cases x t s.retrying (ground (arith, held)) in
        if-cases (Held t) (ltb (length s.retries) s.retry_buffer)
          (record s' { retries = s.retries ++ x ∷ [] }) _
          (λ room. ground (arith, h, out, count-append t s.retries (x ∷ [])))
          (λ full.
            if-cases (Held t) ok (record s' { store = mark x failed s.store }) s'
              (λ fine. ground (arith, h, out, get-mark x t failed s.store))
              (λ lost. ground (arith, h, out))))

pub retry-Held : (t : ℕ) (ok : Bool) (s : State) → Held t s → Held t (retry ok s)
unfolding retry
retry-Held t ok s h = next s.polled refl
  where
    next : (ps : List ℕ) → s.polled ≡ ps → Held t (retry ok s)
    next [] e = rw (e, retry) h
    next (x ∷ xs) e =
        rw (e, retry)
          (if-cases (Held t) (ok && has x s.store) _ (record s { polled = xs })
            (λ fine. ground (arith, h, e, fine, get-mark x t pending s.store))
            (λ lost. ground (arith, h, e)))

pub receive_incoming-Held : (t : ℕ) (s : State) → Held t s → Held t (receive_incoming s)
unfolding receive_incoming
receive_incoming-Held t s h = ground (arith, h)

pub receive_retry-Held : (t : ℕ) (s : State) → Held t s → Held t (receive_retry s)
unfolding receive_retry
receive_retry-Held t s h = ground (arith, h)

pub exec-Held : (t x : ℕ) (done ok : Bool) (s : State) → Held t s → Held t (exec x done ok s)
unfolding exec
exec-Held t x done ok s h =
    if-cases (Held t) (count x s.working == 0) s _ (λ nothing. h)
      (λ held.
        let out = count-take_out-cases x t s.working (ground (arith, held)) in
        ground (arith, h, out, get-mark x t failed s.store, get-del x t s.store))

failed_tasks-absent :
    (t : ℕ) (due : ℕ → Bool) (store : Map Status)
    → get t store ≡ none
    → count t (failed_tasks due store) ≡ 0
unfolding get failed_tasks
failed_tasks-absent t due [] gone = refl
failed_tasks-absent t due ((x, v) ∷ store) gone =
    ground (arith, gone, failed_tasks-absent t due store)

count-failed_tasks :
    (t : ℕ) (due : ℕ → Bool) (store : Map Status)
    → Distinct store
    → count t (failed_tasks due store) ≤ may_poll (get t store)
unfolding get failed_tasks
count-failed_tasks t due [] d = omega arith
count-failed_tasks t due ((x, v) ∷ store) (new, d) = elim (eq-cases x t) [
  | inl same ↦ ground (arith, same, new, failed_tasks-absent t due store)
  | inr other ↦ ground (arith, other, count-failed_tasks t due store d)
]

pub poll_retries-Held :
    (t : ℕ) (due : ℕ → Bool) (s : State) → Distinct s.store → Held t s → Held t (poll_retries due s)
unfolding poll_retries
poll_retries-Held t due s d h = left s.polled refl
  where
    left : (ps : List ℕ) → s.polled ≡ ps → Held t (poll_retries due s)
    left [] e = rw (e, poll_retries) (h.0, count-failed_tasks t due s.store d)
    left (x ∷ xs) e = rw (e, poll_retries) h
