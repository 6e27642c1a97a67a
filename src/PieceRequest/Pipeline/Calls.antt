-- ===== src/PieceRequest/Pipeline/Calls.antt =====
-- Every call keeps the pipeline limit.
use kraken.Base.{
  ℕ, ◌≤◌, true, false, some, List, [], ◌∷◌, length, get_or, set, ◌≡◌, refl, sym, subst, arith,
  Option-cases, inl, inr, ◌∙◌, ap, get_or-set-cases, ◌⊎◌,
}
use Prim.Native.String.{String}
use kraken.PieceRequest.{
  policy_named, requests_of, Manager, Request, Status, zero_request, pieces_of, live, reserve,
  reserve_all, mark_loop, mark_status, mark_unsent, mark_invalid, clear, clear_peer, is_pending,
  new_manager, Call, calls_reserve, calls_unsent, calls_invalid, calls_clear, calls_clear_peer,
  step, run,
}
use kraken.PieceRequest.Reads.{settings-reserve, reserve_pieces-cases, length-mark_loop}
use kraken.PieceRequest.Pipeline.Live.{
  live_count, AllBelow, del-AllBelow, live_count-del, live_count_mono, Fits, Every, Every-del,
  Every-mono, Every-clear_loop,
}
use kraken.PieceRequest.Pipeline.Reserving.{
  IsBounded, later-IsBounded, pieces-Fits, reserve_pieces-IsBounded,
}

-- Marking with a status that is not pending makes no request live.
mark_loop-cases :
    (peer : ℕ) (s : Status) (rs : List ℕ) (cells : List Request) (r : ℕ)
    → (get_or (mark_loop peer s rs cells) r zero_request ≡ get_or cells r zero_request)
      ⊎ (get_or (mark_loop peer s rs cells) r zero_request
          ≡ record (get_or cells r zero_request) { status = s })
unfolding mark_loop
mark_loop-cases peer s [] cells r = inl refl
mark_loop-cases peer s (x ∷ rs) cells r = ground (
  arith,
  mark_loop-cases peer s rs cells r,
  mark_loop-cases peer s rs (set cells x (record (get_or cells x zero_request) { status = s })) r,
  get_or-set-cases cells x r (record (get_or cells x zero_request) { status = s }) zero_request,
)

live-mark_status :
    (now peer i : ℕ) (s : Status) (m : Manager) (r : ℕ)
    → is_pending s ≡ false
    → live now (mark_status peer i s m) r ≡ true
    → live now m r ≡ true
unfolding live mark_status
live-mark_status now peer i s m r done l =
    ground (arith, mark_loop-cases peer s (requests_of i m) m.cells r)

mark_status-IsBounded :
    (now peer i : ℕ) (s : Status) (m : Manager)
    → is_pending s ≡ false
    → IsBounded now m
    → IsBounded now (mark_status peer i s m)
unfolding live_count mark_status
mark_status-IsBounded now peer i s m done b =
    Every-mono (Fits now m) (Fits now (mark_status peer i s m)) m.requests_by_peer
      (λ pm f. (
        subst (λ n. AllBelow n pm) (sym same_length) f.0,
        omega (
          arith,
          f.1,
          live_count_mono now now m (mark_status peer i s m) (length m.cells) pm
              (λ r _. live-mark_status now peer i s m r done) f.0,
        ),
      ))
      b
  where
    same_length : length (mark_status peer i s m).cells ≡ length m.cells
    same_length = unfold mark_status in length-mark_loop peer s (requests_of i m) m.cells

clear-IsBounded : (now i : ℕ) (m : Manager) → IsBounded now m → IsBounded now (clear i m)
unfolding clear live_count live
clear-IsBounded now i m b =
    Every-clear_loop (Fits now m) i m.requests_by_peer
      (λ pm f. (del-AllBelow _ i pm f.0, omega (arith, live_count-del now m i pm, f.1))) b

clear_peer-IsBounded :
    (now peer : ℕ) (m : Manager) → IsBounded now m → IsBounded now (clear_peer peer m)
unfolding clear_peer live_count live
clear_peer-IsBounded now peer m b = Every-del (Fits now m) peer m.requests_by_peer b

pub step-IsBounded :
    (now : ℕ) (c : Call) (m : Manager) → IsBounded now m → IsBounded now (step now c m)
unfolding step
step-IsBounded now (calls_reserve draws num_peers peer candidates allow) m b =
    reserve_pieces-IsBounded draws num_peers now peer candidates allow m b
step-IsBounded now (calls_unsent peer i) m b =
    unfold mark_unsent in mark_status-IsBounded now peer i Status.unsent m refl b
step-IsBounded now (calls_invalid peer i) m b =
    unfold mark_invalid in mark_status-IsBounded now peer i Status.invalid m refl b
step-IsBounded now (calls_clear i) m b = clear-IsBounded now i m b
step-IsBounded now (calls_clear_peer peer) m b = clear_peer-IsBounded now peer m b

-- The clock does not run backwards.
abbrev pub Ascending : ℕ → List (ℕ × Call) → Type 0
Ascending t [] = Unit
Ascending t ((now, c) ∷ cs) = (t ≤ now) × Ascending now cs

abbrev pub last_time : ℕ → List (ℕ × Call) → ℕ
last_time t [] = t
last_time t ((now, c) ∷ cs) = last_time now cs

run-IsBounded :
    (t : ℕ) (cs : List (ℕ × Call)) (m : Manager)
    → Ascending t cs
    → IsBounded t m
    → IsBounded (last_time t cs) (run cs m)
unfolding run
run-IsBounded t [] m a b = b
run-IsBounded t ((now, c) ∷ cs) m a b =
    run-IsBounded now cs (step now c m) a.1 (step-IsBounded now c m (later-IsBounded t now m a.0 b))

pub new_manager-IsBounded :
    (timeout limit : ℕ) (name : String) (m : Manager)
    → new_manager timeout name limit ≡ some m
    → IsBounded 0 m
unfolding new_manager
new_manager-IsBounded timeout limit name m new = elim (Option-cases (policy_named name)) [
  | inl e ↦ absurd (ground arith)
  | inr (p, e) ↦
      let no_peers : m.requests_by_peer ≡ [] = ground arith in
      subst (Every (Fits 0 m)) (sym no_peers) tt
]

limit-reserve_all :
    (now peer : ℕ) (m : Manager) (pieces : List ℕ)
    → (reserve_all now peer m pieces).pipeline_limit ≡ m.pipeline_limit
unfolding reserve_all
limit-reserve_all now peer m [] = refl
limit-reserve_all now peer m (i ∷ is) =
    limit-reserve_all now peer (reserve now peer m i) is ∙ (settings-reserve now peer m i).1

pub limit-step :
    (now : ℕ) (c : Call) (m : Manager) → (step now c m).pipeline_limit ≡ m.pipeline_limit
unfolding step mark_status
limit-step now (calls_reserve draws num_peers peer candidates allow) m =
    elim (reserve_pieces-cases draws num_peers now peer candidates allow m) [
      | inl nothing ↦ ap (λ r. r.0.pipeline_limit) nothing
      | inr (all, _) ↦ ap (λ r. r.pipeline_limit) all ∙ limit-reserve_all now peer m _
    ]
limit-step now (calls_unsent peer i) m = unfold mark_unsent in refl
limit-step now (calls_invalid peer i) m = unfold mark_invalid in refl
limit-step now (calls_clear i) m = unfold clear in refl
limit-step now (calls_clear_peer peer) m = unfold clear_peer in refl

limit-run : (cs : List (ℕ × Call)) (m : Manager) → (run cs m).pipeline_limit ≡ m.pipeline_limit
unfolding run
limit-run [] m = refl
limit-run ((now, c) ∷ cs) m = limit-run cs (step now c m) ∙ limit-step now c m

pub limit-new_manager :
    (timeout limit : ℕ) (name : String) (m : Manager)
    → new_manager timeout name limit ≡ some m
    → m.pipeline_limit ≡ limit
unfolding new_manager
limit-new_manager timeout limit name m new = ground arith

-- Whatever calls are made on a new manager, as long as the clock does not run backwards, no peer
-- ever has more live requests than the manager's pipeline limit, at the last call or later.
run_within_limit :
    (timeout limit : ℕ) (name : String) (m : Manager) (cs : List (ℕ × Call)) (later peer : ℕ)
    → new_manager timeout name limit ≡ some m
    → Ascending 0 cs
    → last_time 0 cs ≤ later
    → live_count later (run cs m) (pieces_of peer (run cs m)) ≤ limit
run_within_limit timeout limit name m cs later peer new a h = omega (
  arith,
  (pieces-Fits later peer (run cs m) (
      later-IsBounded (last_time 0 cs) later (run cs m) h
        (run-IsBounded 0 cs m a (new_manager-IsBounded timeout limit name m new)))).1,
  limit-run cs m,
  limit-new_manager timeout limit name m new,
)
