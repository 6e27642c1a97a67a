-- ===== src/HealthCheck/Rounds.antt =====
-- A whole round of checks, `filter.Run`, and hosts that leave the list and come back.
use kraken.Base.{
  ℕ, Bool, true, false, List, [], ◌∷◌, ◌==◌, get, del, has, size, ◌≡◌, refl, arith, Bool-cases, inl,
  inr, ◌∙◌,
}
use kraken.StringSet.{StringSet, insert, remove}
use kraken.StringSet.Members.{has-put, has-del, has-copy}
use kraken.HealthCheck.{State, sync, sync_new, sync_gone, failed, passed, report, run_filter}
use kraken.HealthCheck.Following.{has-failed, has-passed}

-- Every answer is one of the given addresses'.
abbrev pub AnswersFrom : StringSet → List (ℕ × Bool) → Type 0
AnswersFrom addrs [] = Unit
AnswersFrom addrs ((a, ok) ∷ answers) = (has a addrs ≡ true) × AnswersFrom addrs answers

sync_gone-subset :
    (addrs healthy : StringSet) (s : State) (a : ℕ)
    → has a (sync_gone addrs healthy s).healthy ≡ true
    → has a addrs ≡ false
    → (has a healthy ≡ false) × (has a s.healthy ≡ true)
unfolding sync_gone get
sync_gone-subset addrs [] s a h n = (refl, h)
sync_gone-subset addrs ((b, u) ∷ healthy) s a h n = elim (Bool-cases (has b addrs)) [
  | inl listed ↦ ground (arith, sync_gone-subset addrs healthy s a)
  | inr gone ↦
      let s' : State = record s { healthy = remove b s.healthy; trend = del b s.trend } in
      ground (arith, sync_gone-subset addrs healthy s' a, has-del b a s.healthy)
]

-- After `sync` only listed hosts are healthy.
pub sync-subset :
    (addrs : StringSet) (s : State) (a : ℕ)
    → has a (sync addrs s).healthy ≡ true
    → has a addrs ≡ true
unfolding sync
sync-subset addrs s a h = elim (Bool-cases (has a addrs)) [
  | inl listed ↦ listed
  | inr gone ↦
      let (a0, a1) =
        sync_gone-subset addrs (sync_new addrs s).healthy (sync_new addrs s) a h gone in
      ground (arith, a0, a1)
]

report-subset :
    (addrs : StringSet) (answers : List (ℕ × Bool)) (s : State) (a : ℕ)
    → AnswersFrom addrs answers
    → (has a s.healthy ≡ true → has a addrs ≡ true)
    → has a (report answers s).healthy ≡ true
    → has a addrs ≡ true
unfolding report
report-subset addrs [] s a from sub h = sub h
report-subset addrs ((b, true) ∷ answers) s a from sub h =
    report-subset addrs answers (passed b s) a from.1
      (λ m. ground (arith, sub, has-passed a b s, from.0)) h
report-subset addrs ((b, false) ∷ answers) s a from sub h =
    report-subset addrs answers (failed b s) a from.1 (λ m. ground (arith, sub, has-failed a b s)) h

-- A round returns only hosts of the list that it is given, whatever is known from earlier rounds.
pub run_filter-subset :
    (addrs : StringSet) (answers : List (ℕ × Bool)) (s : State) (a : ℕ)
    → AnswersFrom addrs answers
    → has a (run_filter addrs answers s).1 ≡ true
    → has a addrs ≡ true
unfolding run_filter
run_filter-subset addrs answers s a from h = elim (Bool-cases (size addrs == 1)) [
  | inl one ↦ ground (arith, has-copy addrs a)
  | inr more ↦
      report-subset addrs answers (sync addrs s) a from (sync-subset addrs s a)
        (ground (arith, has-copy (report answers (sync addrs s)).healthy a))
]

sync_new-all :
    (addrs : StringSet) (s : State) (a : ℕ)
    → has a s.all ≡ true
    → (has a (sync_new addrs s).all ≡ true) × (has a (sync_new addrs s).healthy ≡ has a s.healthy)
unfolding sync_new
sync_new-all [] s a k = (k, refl)
sync_new-all ((b, u) ∷ addrs) s a k = elim (Bool-cases (has b s.all)) [
  | inl known ↦ rw (known, sync_new) (sync_new-all addrs s a k)
  | inr new ↦
      let s' : State = record s { all = insert b s.all; healthy = insert b s.healthy } in
      let (k', e) = sync_new-all addrs s' a (ground (arith, has-put b a s.all)) in
      rw (new, sync_new) (k', e ∙ ground (arith, has-put b a s.healthy))
]

sync_gone-all :
    (addrs healthy : StringSet) (s : State) (a : ℕ)
    → ((sync_gone addrs healthy s).all ≡ s.all)
      × (has a s.healthy ≡ false → has a (sync_gone addrs healthy s).healthy ≡ false)
unfolding sync_gone
sync_gone-all addrs [] s a = (refl, λ n. n)
sync_gone-all addrs ((b, u) ∷ healthy) s a = elim (Bool-cases (has b addrs)) [
  | inl listed ↦ rw (listed, sync_gone) (sync_gone-all addrs healthy s a)
  | inr gone ↦
      let s' : State = record s { healthy = remove b s.healthy; trend = del b s.trend } in
      let (e, keep) = sync_gone-all addrs healthy s' a in
      rw (gone, sync_gone) (e, λ n. keep (ground (arith, has-del b a s.healthy)))
]

sync-all :
    (addrs : StringSet) (s : State) (a : ℕ)
    → has a s.all ≡ true
    → (has a (sync addrs s).all ≡ true)
      × (has a s.healthy ≡ false → has a (sync addrs s).healthy ≡ false)
unfolding sync
sync-all addrs s a k =
    let (k', e) = sync_new-all addrs s a k in
    let (e', keep) = sync_gone-all addrs (sync_new addrs s).healthy (sync_new addrs s) a in
    (ground (arith, e', k'), λ n. keep (e ∙ n))

-- A host that was listed before and is left out of one `sync` is not healthy when the next one
-- lists it again, although a host listed for the first time would be.
sync_again_unhealthy :
    (without again : StringSet) (s : State) (a : ℕ)
    → has a s.all ≡ true
    → has a without ≡ false
    → has a (sync again (sync without s)).healthy ≡ false
sync_again_unhealthy without again s a known gone =
    let s1 = sync without s in
    let left_out : has a s1.healthy ≡ false = elim (Bool-cases (has a s1.healthy)) [
      | inl h ↦ absurd (ground (arith, sync-subset without s a h))
      | inr h ↦ h
    ] in
    (sync-all again s1 a (sync-all without s a known).0).1 left_out
