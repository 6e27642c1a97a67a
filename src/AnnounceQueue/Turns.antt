-- ===== src/AnnounceQueue/Turns.antt =====
-- Whole sequences of calls: the invariant, whom `next` returns, and in what order.
use kraken.Base.{
  ℕ, zero, suc, ◌≤◌, ◌<◌, true, none, some, List, [], ◌∷◌, ◌++◌, ◌==◌, get, put, ◌≡◌, refl, sym, ap,
  arith, count, count-append, get-put, subst, ◌≢◌, inl, inr, eq-cases, Bool-cases, ◌⊎◌,
}
use kraken.AnnounceQueue.{
  Queue, init, next, add, ready, remove_first, eject, is_pending, Call, calls_next, calls_add,
  calls_ready, calls_eject, step, run,
}
use kraken.AnnounceQueue.Laws.{
  next-cases, places, IsValid, places-next, places-ready, places-add, places-eject_ne,
  places-eject_self, count-remove_first_ne, count-remove_first_self,
}

-- A torrent is added only while it holds no place: the rule that `Add` asks of its callers.
abbrev pub Allowed : Queue → Call → Type 0
Allowed q (calls_add h) = places h q ≡ 0
Allowed q _ = Unit

abbrev pub AllAllowed : Queue → List Call → Type 0
AllAllowed q [] = Unit
AllAllowed q (c ∷ cs) = Allowed q c × AllAllowed (step q c).0 cs

pub init-IsValid : IsValid init
unfolding init get
init-IsValid h = omega arith

pub step-IsValid : (q : Queue) (c : Call) → Allowed q c → IsValid q → IsValid (step q c).0
unfolding step
step-IsValid q calls_next a v h = ground (arith, places-next h q v, v h)
step-IsValid q (calls_add x) a v h = ground (arith, places-add x h q, v h)
step-IsValid q (calls_ready x) a v h = ground (arith, places-ready x h q, v h)
step-IsValid q (calls_eject x) a v h = elim (eq-cases h x) [
  | inl e ↦ ground (arith, places-eject_self x q, v x)
  | inr n ↦ ground (arith, places-eject_ne x h q n, v h)
]

pub run-IsValid : (q : Queue) (cs : List Call) → AllAllowed q cs → IsValid q → IsValid (run q cs).0
unfolding run
run-IsValid q [] a v = v
run-IsValid q (c ∷ cs) a v = run-IsValid (step q c).0 cs a.1 (step-IsValid q c a.0 v)

-- The calls that give `h` a place again are left out.
abbrev pub Avoids : ℕ → Call → Type 0
Avoids h (calls_add x) = x ≢ h
Avoids h (calls_ready x) = x ≢ h
Avoids h _ = Unit

abbrev pub AllAvoid : ℕ → List Call → Type 0
AllAvoid h [] = Unit
AllAvoid h (c ∷ cs) = Avoids h c × AllAvoid h cs

-- A torrent that is not ready is not returned, and stays so while the calls avoid it.
step_absent :
    (h : ℕ) (q : Queue) (c : Call)
    → Avoids h c
    → count h q.ready_queue ≡ 0
    → (count h (step q c).0.ready_queue ≡ 0) × ((step q c).1 ≢ some h)
unfolding step next add ready eject
step_absent h q calls_next a z = elim (next-cases q) [
  | inl (e, s) ↦ rw s (z, λ e. cc)
  | inr (x, rest, e, s) ↦ rw s (ground arith, ground arith)
]
step_absent h q (calls_add x) a z = (ground (arith, count-append h q.ready_queue (x ∷ [])), λ e. cc)
step_absent h q (calls_ready x) a z =
    (ground (arith, count-append h q.ready_queue (x ∷ [])), λ e. cc)
step_absent h q (calls_eject x) a z = elim (eq-cases h x) [
  | inl e ↦ (ground (arith, count-remove_first_self x q.ready_queue), λ e. cc)
  | inr n ↦ (ground (arith, count-remove_first_ne x h q.ready_queue n), λ e. cc)
]

run_absent :
    (h : ℕ) (q : Queue) (cs : List Call)
    → AllAvoid h cs
    → count h q.ready_queue ≡ 0
    → count h (run q cs).1 ≡ 0
unfolding run
run_absent h q [] a z = refl
run_absent h q (c ∷ cs) a z =
    let (kept, other) = step_absent h q c a.0 z in
    ground (arith, other, run_absent h (step q c).0 cs a.1 kept)

-- In a queue that holds each torrent at most once, a torrent that `next` returned is pending and is
-- not returned again by any calls that neither add it nor make it ready.
pub next_once :
    (q q' : Queue) (h : ℕ) (cs : List Call)
    → IsValid q
    → next q ≡ (q', some h)
    → AllAvoid h cs
    → (is_pending h q' ≡ true) × (count h (run q' cs).1 ≡ 0)
next_once q q' h cs v e a = elim (next-cases q) [
  | inl (_, s) ↦ absurd (ground arith)
  | inr (x, rest, el, s) ↦
      (ground (arith, get-put x h true q.pending), run_absent h q' cs a (ground (arith, v h)))
]

-- `h` stands among the first `n` of a list.
abbrev pub Within : ℕ → ℕ → List ℕ → Type 0
Within n h [] = ⊥
Within zero h (x ∷ xs) = ⊥
Within (suc n) h (x ∷ xs) = (x ≡ h) ⊎ Within n h xs

Within-suc : (n h : ℕ) (xs : List ℕ) → Within n h xs → Within (suc n) h xs
Within-suc zero h (x ∷ xs) w = absurd w
Within-suc (suc n) h (x ∷ xs) (inl e) = inl e
Within-suc (suc n) h (x ∷ xs) (inr w) = inr (Within-suc n h xs w)
Within-suc n h [] w = absurd w

Within-append : (n h : ℕ) (xs ys : List ℕ) → Within n h xs → Within n h (xs ++ ys)
Within-append zero h (x ∷ xs) ys w = absurd w
Within-append (suc n) h (x ∷ xs) ys (inl e) = inl e
Within-append (suc n) h (x ∷ xs) ys (inr w) = inr (Within-append n h xs ys w)
Within-append n h [] ys w = absurd w

Within-remove_first :
    (n h x : ℕ) (xs : List ℕ) → h ≢ x → Within n h xs → Within n h (remove_first x xs)
unfolding remove_first
Within-remove_first zero h x (y ∷ xs) ne w = absurd w
Within-remove_first (suc n) h x (y ∷ xs) ne w = elim (Bool-cases (y == x)) [
  | inl same ↦ rw same (elim w [ inl e ↦ absurd (ground arith) | inr w' ↦ Within-suc n h xs w' ])
  | inr other ↦
      rw other (elim w [ inl e ↦ inl e | inr w' ↦ inr (Within-remove_first n h x xs ne w') ])
]
Within-remove_first n h x [] ne w = absurd w

Within-pos : (n h : ℕ) (xs : List ℕ) → Within n h xs → 0 < n
Within-pos zero h (x ∷ xs) w = absurd w
Within-pos (suc n) h xs w = omega arith
Within-pos n h [] w = absurd w

Within-cases :
    (n h x : ℕ) (xs : List ℕ)
    → Within n h (x ∷ xs)
    → (x ≡ h) ⊎ ((m : ℕ) × (n ≡ suc m) × Within m h xs)
Within-cases zero h x xs w = absurd w
Within-cases (suc n) h x xs (inl e) = inl e
Within-cases (suc n) h x xs (inr w) = inr (n, refl, w)

Within-ready :
    (n h x : ℕ) (q : Queue) → Within n h q.ready_queue → Within n h (ready x q).ready_queue
unfolding ready
Within-ready n h x q w = elim (Bool-cases (is_pending x q)) [
  | inl e ↦ rw e (Within-append n h q.ready_queue (x ∷ []) w)
  | inr e ↦ rw e w
]

-- The number of calls of `next`.
abbrev pub turns : List Call → ℕ
turns [] = 0
turns (calls_next ∷ cs) = suc (turns cs)
turns (c ∷ cs) = turns cs

-- No call ejects `h`.
abbrev pub AllKeep : ℕ → List Call → Type 0
AllKeep h [] = Unit
AllKeep h (calls_eject x ∷ cs) = (h ≢ x) × AllKeep h cs
AllKeep h (c ∷ cs) = AllKeep h cs

run-cons_next :
    (q : Queue) {q' : Queue} {x : ℕ} (cs : List Call)
    → next q ≡ (q', some x)
    → (run q (calls_next ∷ cs)).1 ≡ x ∷ (run q' cs).1
unfolding run step
run-cons_next q cs s =
    ap {B = List ℕ} (λ r. elim r.1 [ none ↦ (run r.0 cs).1 | some h ↦ h ∷ (run r.0 cs).1 ]) s

-- A torrent among the first `n` ready ones is returned by one of the next `n` calls of `next`,
-- whatever other calls come between, as long as it is not ejected.
pub run_fair :
    (n h : ℕ) (q : Queue) (cs : List Call)
    → Within n h q.ready_queue
    → n ≤ turns cs
    → AllKeep h cs
    → 0 < count h (run q cs).1
unfolding run step next add ready eject
run_fair n h q [] w t k = absurd (omega (arith, Within-pos n h q.ready_queue w))
run_fair n h q (calls_next ∷ cs) w t k = elim (next-cases q) [
  | inl (e, _) ↦ absurd (subst (Within n h) e w)
  | inr (x, rest, e, s) ↦ elim (Within-cases n h x rest (subst (Within n h) e w)) [
    | inl same ↦ subst (λ l. 0 < count h l) (sym (run-cons_next q cs s)) (ground arith)
    | inr (m, below, w') ↦
        let ih =
          run_fair m h (record { ready_queue = rest; pending = put x true q.pending }) cs w'
            (omega arith) k in
        subst (λ l. 0 < count h l) (sym (run-cons_next q cs s)) (ground (arith, ih))
  ]
]
run_fair n h q (calls_add x ∷ cs) w t k =
    run_fair n h (add x q) cs (Within-append n h q.ready_queue (x ∷ []) w) t k
run_fair n h q (calls_ready x ∷ cs) w t k = run_fair n h (ready x q) cs (Within-ready n h x q w) t k
run_fair n h q (calls_eject x ∷ cs) w t k =
    run_fair n h (eject x q) cs (Within-remove_first n h x q.ready_queue k.0 w) t k.1
