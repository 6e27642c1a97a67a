-- ===== src/Scheduler/Waiting.antt =====
-- The clients that wait for a torrent, and the answers that they get.
pub mod Loops
use kraken.Base.{
  ℕ, ◌≤◌, ◌<◌, Bool, true, false, none, some, List, [], ◌∷◌, ◌++◌, ◌==◌, ◌≡◌, refl, sym, ap, ◌∙◌,
  subst, arith, get, put, del, Bool-cases, Option-cases, inl, inr, ◌⊎◌, count, count-append,
  take_out, count-take_out, tally, tally-append, get-put, get-del, eq-cases, ◌≢◌,
}
use kraken.Scheduler.{
  State, Control, NewTorrent, Answer, done, add_torrent, remove_torrent, answer_all, join_torrent,
  handle_complete, finish,
}

-- How many answers a client was sent.
abbrev pub answered : ℕ → State → ℕ
answered w s = tally (λ a. a.0 == w) s.answers

-- A client waits at a torrent that is incomplete, or whose completion event is due.
abbrev pub Waits : ℕ → State → Type 0
Waits w s =
    (h : ℕ) × (c : Control) × (get h s.controls ≡ some c)
    × (0 < count w c.errors)
    × ((c.complete ≡ false) ⊎ (0 < count h s.due))

-- A client was answered, or waits.
abbrev pub Served : ℕ → State → Type 0
Served w s = (0 < answered w s) ⊎ Waits w s

-- What an event leaves alone.
abbrev pub Same : State → State → Type 0
Same s t = (t.controls ≡ s.controls) × (t.due ≡ s.due) × (t.answers ≡ s.answers)

pub Same-Served : (w : ℕ) (s t : State) → Same s t → Served w s → Served w t
Same-Served w s t e (inl a) = inl (ground (arith, e.2, a))
Same-Served w s t e (inr (h, c, at, there, why)) = inr (
  h,
  c,
  ap (get h) e.0 ∙ at,
  there,
  elim why [ inl inc ↦ inl inc | inr dueh ↦ inr (subst (λ d. 0 < count h d) (sym e.1) dueh) ],
)

pub answered-all :
    (w : ℕ) (a : Answer) (ws : List ℕ) → tally (λ x. x.0 == w) (answer_all a ws) ≡ count w ws
unfolding answer_all
answered-all w a [] = refl
answered-all w a (v ∷ ws) = ground (arith, answered-all w a ws)

-- A client that gets one more answer, or whose torrent's control stays.
pub more_answers :
    (w : ℕ) (s t : State) (more : List (ℕ × Answer))
    → t.answers ≡ s.answers ++ more
    → 0 < answered w s
    → 0 < answered w t
more_answers w s t more e a = ground (arith, e, a, tally-append (λ x. x.0 == w) s.answers more)

pub last_answered :
    (w x : ℕ) (a : Answer) (s t : State)
    → t.answers ≡ s.answers ++ (x, a) ∷ []
    → x ≡ w
    → 0 < answered w t
last_answered w x a s t e same =
    ground (arith, e, same, tally-append (λ y. y.0 == w) s.answers ((x, a) ∷ []))

-- A client that waited at a torrent, once the torrent's clients are answered.
pub all_answered :
    (w : ℕ) (a : Answer) (c : Control) (s t : State)
    → t.answers ≡ s.answers ++ answer_all a c.errors
    → 0 < count w c.errors
    → 0 < answered w t
all_answered w a c s t e there = ground (
  arith,
  e,
  there,
  tally-append (λ x. x.0 == w) s.answers (answer_all a c.errors),
  answered-all w a c.errors,
)

pub answers-Served :
    (w : ℕ) (s t : State) (more : List (ℕ × Answer))
    → t.controls ≡ s.controls
    → t.due ≡ s.due
    → t.answers ≡ s.answers ++ more
    → Served w s
    → Served w t
answers-Served w s t more ec ed ea (inl v) = inl (more_answers w s t more ea v)
answers-Served w s t more ec ed ea (inr (h, c, at, there, why)) = inr (
  h,
  c,
  ap (get h) ec ∙ at,
  there,
  subst (λ x. (c.complete ≡ false) ⊎ (0 < count h x)) (sym ed) why,
)

-- The torrent's clients are answered with it gone, where no completion event is due.
remove_incomplete-Served :
    (w h : ℕ) (a : Answer) (c : Control) (s t : State)
    → get h s.controls ≡ some c
    → t.controls ≡ del h s.controls
    → t.due ≡ s.due
    → t.answers ≡ s.answers ++ answer_all a c.errors
    → Served w s
    → Served w t
remove_incomplete-Served w h a c s t known ec ed ea (inl v) = inl (more_answers w s t _ ea v)
remove_incomplete-Served w h a c s t known ec ed ea (inr (k, d, at, there, why)) =
    elim (eq-cases h k) [
      | inl e ↦ inl (all_answered w a c s t ea (ground (arith, e, known, at, there)))
      | inr ne ↦ inr (
        k,
        d,
        ground (arith, ec, at, ne, get-del h k s.controls),
        there,
        subst (λ x. (d.complete ≡ false) ⊎ (0 < count k x)) (sym ed) why,
      )
    ]

-- A complete torrent is dropped without an answer, where no completion event is due.
remove_complete-Served :
    (w h : ℕ) (c : Control) (s t : State)
    → get h s.controls ≡ some c
    → c.complete ≡ true
    → s.due ≡ []
    → t.controls ≡ del h s.controls
    → t.due ≡ s.due
    → t.answers ≡ s.answers
    → Served w s
    → Served w t
remove_complete-Served w h c s t known all none_due ec ed ea (inl v) = inl (ground (arith, ea, v))
remove_complete-Served w h c s t known all none_due ec ed ea (inr (k, d, at, there, inl inc)) =
    elim (eq-cases h k) [
      | inl e ↦ inl (ground (arith, e, known, at, inc, all))
      | inr ne ↦ inr (k, d, ground (arith, ec, at, ne, get-del h k s.controls), there, inl inc)
    ]
remove_complete-Served w h c s t known all none_due ec ed ea (inr (k, d, at, there, inr dueh)) =
    inl (ground (arith, none_due, dueh))

pub remove_torrent-Served :
    (w h : ℕ) (a : Answer) (s : State) → s.due ≡ [] → Served w s → Served w (remove_torrent h a s)
unfolding remove_torrent
remove_torrent-Served w h a s none_due v = elim (Option-cases (get h s.controls)) [
  | inl gone ↦ rw (gone, remove_torrent) v
  | inr (c, known) ↦ elim (Bool-cases c.complete) [
    | inl e ↦
        remove_complete-Served w h c s (remove_torrent h a s) known e none_due
          (rw (known, e, remove_torrent)) (rw (known, e, remove_torrent))
          (rw (known, e, remove_torrent)) v
    | inr e ↦
        remove_incomplete-Served w h a c s (remove_torrent h a s) known
          (rw (known, e, remove_torrent)) (rw (known, e, remove_torrent))
          (rw (known, e, remove_torrent)) v
  ]
]

-- What is written under a key whose control, if it has one, has no client that the new one lacks.
put-Served :
    (w h : ℕ) (c : Control) (s t : State)
    → ((d : Control)
        → get h s.controls ≡ some d
        → 0 < count w d.errors
        → (0 < count w c.errors) × ((c.complete ≡ false) ⊎ (0 < count h t.due)))
    → t.controls ≡ put h c s.controls
    → ((k : ℕ) → count k s.due ≤ count k t.due)
    → t.answers ≡ s.answers
    → Served w s
    → Served w t
put-Served w h c s t keeps ec ed ea (inl v) = inl (ground (arith, ea, v))
put-Served w h c s t keeps ec ed ea (inr (k, d, at, there, why)) = elim (eq-cases h k) [
  | inl e ↦
      let (there', why') = keeps d (ground (arith, e, at)) there in
      inr (h, c, ground (arith, ec, get-put h h c s.controls), there', why')
  | inr ne ↦ inr (
    k,
    d,
    ground (arith, ec, at, ne, get-put h k c s.controls),
    there,
    elim why [ inl inc ↦ inl inc | inr dueh ↦ inr (ground (arith, ed k, dueh)) ],
  )
]

-- A new torrent under a hash that has no control.
pub add_torrent-Served :
    (w : ℕ) (t : NewTorrent) (l : Bool) (s : State)
    → get t.info_hash s.controls ≡ none
    → Served w s
    → Served w (add_torrent t l s).0
unfolding add_torrent
add_torrent-Served w t l s new v = elim (Bool-cases t.dispatchable) [
  | inr e ↦ rw (e, add_torrent) v
  | inl e ↦
      put-Served w t.info_hash
        (record { digest = t.digest; complete = t.complete; errors = []; local_request = l }) s
        (add_torrent t l s).0 (λ d at. ground (arith, at, new)) (rw (e, add_torrent))
        (λ k. ground (arith, e)) (rw (e, add_torrent)) v
]

-- A client that joins a torrent is answered, or waits at it; the others lose nothing.
pub join_torrent-Served :
    (w h x : ℕ) (c : Control) (s : State)
    → get h s.controls ≡ some c
    → Served w s
    → Served w (join_torrent h x c s)
unfolding join_torrent
join_torrent-Served w h x c s known v = elim (Bool-cases c.complete) [
  | inl e ↦
      answers-Served w s (join_torrent h x c s) ((x, done) ∷ []) (rw (e, join_torrent))
        (rw (e, join_torrent)) (rw (e, join_torrent)) v
  | inr e ↦
      put-Served w h (record c { errors = c.errors ++ x ∷ [] }) s (join_torrent h x c s)
        (λ d at there. (ground (arith, at, known, there, count-append w c.errors (x ∷ [])), inl e))
        (rw (e, join_torrent)) (λ k. ground (arith, e)) (rw (e, join_torrent)) v
]

pub join_torrent-joins : (h x : ℕ) (c : Control) (s : State) → Served x (join_torrent h x c s)
unfolding join_torrent
join_torrent-joins h x c s = elim (Bool-cases c.complete) [
  | inl e ↦ inl (ground (arith, e, tally-append (λ a. a.0 == x) s.answers ((x, done) ∷ [])))
  | inr e ↦ inr (
    h,
    record c { errors = c.errors ++ x ∷ [] },
    ground (arith, e, get-put h h (record c { errors = c.errors ++ x ∷ [] }) s.controls),
    ground (arith, count-append x c.errors (x ∷ [])),
    inl e,
  )
]

-- The torrent's clients are answered; the other completion events stay due.
complete-Served :
    (w h : ℕ) (c : Control) (s t : State)
    → get h s.controls ≡ some c
    → t.controls ≡ s.controls
    → t.due ≡ take_out h s.due
    → t.answers ≡ s.answers ++ answer_all done c.errors
    → Served w s
    → Served w t
complete-Served w h c s t known ec ed ea (inl v) = inl (more_answers w s t _ ea v)
complete-Served w h c s t known ec ed ea (inr (k, d, at, there, why)) = elim (eq-cases h k) [
  | inl e ↦ inl (all_answered w done c s t ea (ground (arith, e, known, at, there)))
  | inr ne ↦ inr (
    k,
    d,
    ap (get k) ec ∙ at,
    there,
    elim why [
      | inl inc ↦ inl inc
      | inr dueh ↦ inr (ground (arith, ed, dueh, count-take_out h k s.due ne))
    ],
  )
]

missing-Served :
    (w h : ℕ) (s t : State)
    → get h s.controls ≡ none
    → t.controls ≡ s.controls
    → t.due ≡ take_out h s.due
    → t.answers ≡ s.answers
    → Served w s
    → Served w t
missing-Served w h s t gone ec ed ea (inl v) = inl (ground (arith, ea, v))
missing-Served w h s t gone ec ed ea (inr (k, d, at, there, why)) = elim (eq-cases h k) [
  | inl e ↦ inl (ground (arith, e, gone, at))
  | inr ne ↦ inr (
    k,
    d,
    ap (get k) ec ∙ at,
    there,
    elim why [
      | inl inc ↦ inl inc
      | inr dueh ↦ inr (ground (arith, ed, dueh, count-take_out h k s.due ne))
    ],
  )
]

pub handle_complete-Served : (w h : ℕ) (s : State) → Served w s → Served w (handle_complete h s)
unfolding handle_complete
handle_complete-Served w h s v = elim (Option-cases (get h s.controls)) [
  | inl gone ↦
      missing-Served w h s (handle_complete h s) gone (rw (gone, handle_complete))
        (rw (gone, handle_complete)) (rw (gone, handle_complete)) v
  | inr (c, known) ↦
      complete-Served w h c s (handle_complete h s) known (rw (known, handle_complete))
        (rw (known, handle_complete)) (rw (known, handle_complete)) v
]

pub finish-Served : (w h : ℕ) (s : State) → Served w s → Served w (finish h s)
unfolding finish
finish-Served w h s v = elim (Option-cases (get h s.controls)) [
  | inl gone ↦ rw (gone, finish) v
  | inr (c, known) ↦ elim (Bool-cases c.complete) [
    | inl e ↦ rw (known, e, finish) v
    | inr e ↦
        put-Served w h (record c { complete = true }) s (finish h s)
          (λ d at there. (ground (arith, at, known, there), inr (ground (arith, known, e))))
          (rw (known, e, finish)) (λ k. ground (arith, known, e)) (rw (known, e, finish)) v
  ]
]
