-- ===== src/PersistedRetry/Storing.antt =====
-- What the steps do to the store.
use kraken.Base.{
  ℕ, ◌<◌, Bool, true, false, not, List, [], ◌∷◌, if◌then◌else◌, ◌==◌, ◌&&◌, ◌||◌, ltb, length,
  count, put, del, has, ◌≡◌, refl, sym, subst, arith, Bool-cases, if-cases, inl, inr, Distinct,
  put-Distinct, del-Distinct,
}
use kraken.PersistedRetry.{
  Status, pending, failed, State, mark, add, enqueue_incoming, poll_retries, retry, enqueue_retry,
  receive_incoming, receive_retry, exec, close, Step, adds, enqueues_incoming, enqueues_retry,
  polls, retries_next, receives_incoming, receives_retry, closes, executes, sync_executes,
  sync_exec, step,
}

-- What a step does to the store.
pub data Stores (s t : State) : Type 0 where
  same : t.store ≡ s.store → Stores s t
  puts : (x : ℕ) (v : Status) → t.store ≡ put x v s.store → Stores s t
  deletes : (x : ℕ) → t.store ≡ del x s.store → 0 < count x t.executed → Stores s t

mark-Stores : (x : ℕ) (v : Status) (s t : State) → t.store ≡ mark x v s.store → Stores s t
unfolding mark
mark-Stores x v s t e = elim (Bool-cases (has x s.store)) [
  | inl there ↦ puts x v (ground (arith, e, there))
  | inr gone ↦ same (ground (arith, e, gone))
]

pub Stores-Distinct : (s t : State) → Stores s t → Distinct s.store → Distinct t.store
Stores-Distinct s t (same e) d = subst Distinct (sym e) d
Stores-Distinct s t (puts x v e) d = subst Distinct (sym e) (put-Distinct x v s.store d)
Stores-Distinct s t (deletes x e done) d = subst Distinct (sym e) (del-Distinct x s.store d)

retry-Stores : (ok : Bool) (s : State) → Stores s (retry ok s)
unfolding retry
retry-Stores ok s = next s.polled refl
  where
    next : (ps : List ℕ) → s.polled ≡ ps → Stores s (retry ok s)
    next [] e = rw (e, retry) (same refl)
    next (x ∷ xs) e =
        rw (e, retry)
          (if-cases (Stores (record s { polled = x ∷ xs })) (ok && has x s.store) _
            (record s { polled = xs })
            (λ fine. mark-Stores x pending (record s { polled = x ∷ xs }) _ refl)
            (λ lost. same refl))

exec-Stores : (x : ℕ) (done ok : Bool) (s : State) → Stores s (exec x done ok s)
unfolding exec
exec-Stores x true ok s =
    if-cases (Stores s) (count x s.working == 0) s _ (λ nothing. same refl)
      (λ held.
        if-cases (Stores s) (not ok) _ _ (λ lost. same refl)
          (λ fine. deletes x refl (ground arith)))
exec-Stores x false ok s =
    if-cases (Stores s) (count x s.working == 0) s _ (λ nothing. same refl)
      (λ held.
        if-cases (Stores s) (not ok) _ _ (λ lost. same refl)
          (λ fine. mark-Stores x failed s _ refl))

pub step-Stores : (x : Step) (s : State) → Stores s (step x s)
unfolding step
step-Stores (adds t ready ok) s =
    unfold add in
    if-cases (Stores s) (s.is_closed || has t s.store || not ok) s _ (λ refused. same refl)
      (λ new. puts t (if ready then pending else failed) refl)
step-Stores (enqueues_incoming t ok) s =
    unfold enqueue_incoming in
    if-cases (Stores s) (count t s.adding == 0) s _ (λ nothing. same refl)
      (λ held.
        if-cases (Stores s) (ltb (length s.incoming) s.incoming_buffer) _ _ (λ room. same refl)
          (λ full.
            if-cases (Stores s) ok _ _ (λ fine. mark-Stores t failed s _ refl) (λ lost. same refl)))
step-Stores (enqueues_retry t ok) s =
    unfold enqueue_retry in
    if-cases (Stores s) (count t s.retrying == 0) s _ (λ nothing. same refl)
      (λ held.
        if-cases (Stores s) (ltb (length s.retries) s.retry_buffer) _ _ (λ room. same refl)
          (λ full.
            if-cases (Stores s) ok _ _ (λ fine. mark-Stores t failed s _ refl) (λ lost. same refl)))
step-Stores (polls due) s = same (unfold poll_retries in ground arith)
step-Stores (retries_next ok) s = retry-Stores ok s
step-Stores receives_incoming s = same (unfold receive_incoming in ground arith)
step-Stores receives_retry s = same (unfold receive_retry in ground arith)
step-Stores closes s = unfold close in same refl
step-Stores (executes t done ok) s = exec-Stores t done ok s
step-Stores (sync_executes t done) s = same (unfold sync_exec in refl)
