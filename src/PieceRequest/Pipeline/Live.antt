-- ===== src/PieceRequest/Pipeline/Live.antt =====
-- Live requests of a peer, counted through the pointers of its table.
use kraken.Base.{
  ℕ, suc, ◌-◌, ◌≤◌, ◌<◌, true, some, [], ◌∷◌, if◌then◌else◌, ◌==◌, Map, get, put, del, size, length,
  ◌≡◌, subst, arith, Bool-cases, inl, inr,
}
use kraken.PieceRequest.{Manager, live, quota_loop, clear_loop}

unfoldable pub live_count : ℕ → Manager → Map ℕ → ℕ
live_count now m [] = 0
live_count now m ((i, r) ∷ pm) =
    if live now m r then suc (live_count now m pm) else live_count now m pm

-- The loop with its early exit computes what is left of the quota.
pub quota_loop-live_count :
    (now : ℕ) (m : Manager) (quota : ℕ) (pm : Map ℕ)
    → quota_loop now m quota pm ≡ quota - live_count now m pm
unfolding quota_loop live_count
quota_loop-live_count now m quota [] = omega arith
quota_loop-live_count now m quota ((i, r) ∷ pm) =
    ground (arith, quota_loop-live_count now m (quota - 1) pm, quota_loop-live_count now m quota pm)

-- All pointers are allocated.
abbrev pub AllBelow : ℕ → Map ℕ → Type 0
AllBelow n [] = Unit
AllBelow n ((i, r) ∷ pm) = (r < n) × AllBelow n pm

pub AllBelow-mono : (n k : ℕ) (pm : Map ℕ) → n ≤ k → AllBelow n pm → AllBelow k pm
AllBelow-mono n k [] h a = tt
AllBelow-mono n k ((i, r) ∷ pm) h a = (omega arith, AllBelow-mono n k pm h a.1)

pub put-AllBelow : (n i r : ℕ) (pm : Map ℕ) → r < n → AllBelow n pm → AllBelow n (put i r pm)
unfolding put
put-AllBelow n i r [] h a = (h, tt)
put-AllBelow n i r ((j, x) ∷ pm) h a = ground (arith, put-AllBelow n i r pm h a.1)

pub del-AllBelow : (n i : ℕ) (pm : Map ℕ) → AllBelow n pm → AllBelow n (del i pm)
unfolding del
del-AllBelow n i [] a = tt
del-AllBelow n i ((j, x) ∷ pm) a = ground (arith, del-AllBelow n i pm a.1)

pub live_count-put :
    (now : ℕ) (m : Manager) (i r : ℕ) (pm : Map ℕ)
    → live_count now m (put i r pm) ≤ suc (live_count now m pm)
unfolding live_count put
live_count-put now m i r [] = ground arith
live_count-put now m i r ((j, x) ∷ pm) = ground (arith, live_count-put now m i r pm)

pub live_count-del :
    (now : ℕ) (m : Manager) (i : ℕ) (pm : Map ℕ) → live_count now m (del i pm) ≤ live_count now m pm
unfolding live_count del
live_count-del now m i [] = omega arith
live_count-del now m i ((j, x) ∷ pm) = ground (arith, live_count-del now m i pm)

-- Where every allocated pointer that is live later was live before, no count grows.
pub live_count_mono :
    (t t' : ℕ) (m m' : Manager) (n : ℕ) (pm : Map ℕ)
    → ((r : ℕ) → r < n → live t' m' r ≡ true → live t m r ≡ true)
    → AllBelow n pm
    → live_count t' m' pm ≤ live_count t m pm
unfolding live_count
live_count_mono t t' m m' n [] h a = omega arith
live_count_mono t t' m m' n ((i, r) ∷ pm) h a =
    ground (arith, h r a.0, live_count_mono t t' m m' n pm h a.1)

-- A table of one peer fits: its pointers are allocated and the limit is kept.
abbrev pub Fits : ℕ → Manager → Map ℕ → Type 0
Fits now m pm = AllBelow (length m.cells) pm × (live_count now m pm ≤ m.pipeline_limit)

abbrev pub Every : (Map ℕ → Type 0) → Map (Map ℕ) → Type 0
Every P [] = Unit
Every P ((p, pm) ∷ mm) = P pm × Every P mm

pub Every-get :
    (P : Map ℕ → Type 0) (p : ℕ) (mm : Map (Map ℕ)) (pm : Map ℕ)
    → Every P mm
    → get p mm ≡ some pm
    → P pm
unfolding get
Every-get P p [] pm a e = absurd (ground arith)
Every-get P p ((q, x) ∷ mm) pm a e = elim (Bool-cases (q == p)) [
  | inl same ↦ subst P (ground arith) a.0
  | inr other ↦ Every-get P p mm pm a.1 (ground arith)
]

pub Every-put :
    (P : Map ℕ → Type 0) (p : ℕ) (pm : Map ℕ) (mm : Map (Map ℕ))
    → P pm
    → Every P mm
    → Every P (put p pm mm)
unfolding put
Every-put P p pm [] h a = (h, tt)
Every-put P p pm ((q, x) ∷ mm) h a = elim (Bool-cases (q == p)) [
  | inl same ↦ rw same (h, a.1)
  | inr other ↦ rw other (a.0, Every-put P p pm mm h a.1)
]

pub Every-del : (P : Map ℕ → Type 0) (p : ℕ) (mm : Map (Map ℕ)) → Every P mm → Every P (del p mm)
unfolding del
Every-del P p [] a = tt
Every-del P p ((q, x) ∷ mm) a = elim (Bool-cases (q == p)) [
  | inl same ↦ rw (same, del) (Every-del P p mm a.1)
  | inr other ↦ rw (other, del) (a.0, Every-del P p mm a.1)
]

pub Every-mono :
    (P Q : Map ℕ → Type 0) (mm : Map (Map ℕ))
    → ((pm : Map ℕ) → P pm → Q pm)
    → Every P mm
    → Every Q mm
Every-mono P Q [] h a = tt
Every-mono P Q ((p, pm) ∷ mm) h a = (h pm a.0, Every-mono P Q mm h a.1)

pub Every-clear_loop :
    (P : Map ℕ → Type 0) (i : ℕ) (mm : Map (Map ℕ))
    → ((pm : Map ℕ) → P pm → P (del i pm))
    → Every P mm
    → Every P (clear_loop i mm)
unfolding clear_loop
Every-clear_loop P i [] h a = tt
Every-clear_loop P i ((p, pm) ∷ mm) h a = elim (Bool-cases (size (del i pm) == 0)) [
  | inl empty ↦ rw (empty, clear_loop) (Every-clear_loop P i mm h a.1)
  | inr left ↦ rw (left, clear_loop) (h pm a.0, Every-clear_loop P i mm h a.1)
]
