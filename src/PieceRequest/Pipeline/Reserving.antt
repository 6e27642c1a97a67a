-- ===== src/PieceRequest/Pipeline/Reserving.antt =====
-- Reservations keep the pipeline limit.
use kraken.Base.{
  ℕ, suc, ◌+◌, ◌-◌, ◌≤◌, ◌<◌, Bool, true, List, [], ◌∷◌, Map, get, put, length, ◌≡◌, refl, sym,
  subst, arith, Option-cases, inl, inr, ◌∙◌,
}
use kraken.PieceRequest.{
  Manager, pieces_of, live, reserve, reserve_all, reserve_pieces, request_quota,
}
use kraken.PieceRequest.Reads.{
  length-reserve, pieces_of-reserve, deref-reserve_old, settings-reserve, reserve_pieces-cases,
}
use kraken.PieceRequest.Pipeline.Live.{
  live_count, quota_loop-live_count, AllBelow, AllBelow-mono, put-AllBelow, live_count-put,
  live_count_mono, Fits, Every, Every-get, Every-put, Every-mono,
}

abbrev pub IsBounded : ℕ → Manager → Type 0
IsBounded now m = Every (Fits now m) m.requests_by_peer

-- A request that is live at a time was live at any earlier time.
live-earlier : (t t' : ℕ) (m : Manager) (r : ℕ) → t ≤ t' → live t' m r ≡ true → live t m r ≡ true
unfolding live
live-earlier t t' m r h l = ground arith

pub later-IsBounded : (t t' : ℕ) (m : Manager) → t ≤ t' → IsBounded t m → IsBounded t' m
later-IsBounded t t' m h b =
    Every-mono (Fits t m) (Fits t' m) m.requests_by_peer
      (λ pm f. (
        f.0,
        omega (
          arith,
          f.1,
          live_count_mono t t' m m (length m.cells) pm (λ r _. live-earlier t t' m r h) f.0,
        ),
      ))
      b

pub pieces-Fits : (now p : ℕ) (m : Manager) → IsBounded now m → Fits now m (pieces_of p m)
unfolding pieces_of
pieces-Fits now p m b = elim (Option-cases (get p m.requests_by_peer)) [
  | inl e ↦ rw (e, pieces_of) (unfold live_count in omega arith)
  | inr (pm, e) ↦ rw (e, pieces_of) (Every-get (Fits now m) p m.requests_by_peer pm b e)
]

live-reserve :
    (t now peer : ℕ) (m : Manager) (i r : ℕ)
    → r < length m.cells
    → live t (reserve now peer m i) r ≡ live t m r
unfolding live
live-reserve t now peer m i r h =
    ground (arith, deref-reserve_old now peer m i r h, settings-reserve now peer m i)

-- A reservation keeps every table, but for the new entry in that of its peer.
reserve-Fits :
    (now peer : ℕ) (m : Manager) (i : ℕ) (pm : Map ℕ)
    → Fits now m pm
    → Fits now (reserve now peer m i) pm
reserve-Fits now peer m i pm f = (
  AllBelow-mono (length m.cells) _ pm (omega (arith, length-reserve now peer m i)) f.0,
  omega (
    arith,
    f.1,
    (settings-reserve now peer m i).1,
    live_count_mono now now m (reserve now peer m i) (length m.cells) pm
        (λ r h l. sym (live-reserve now now peer m i r h) ∙ l) f.0,
  ),
)

reserve_new-Fits :
    (now peer : ℕ) (m : Manager) (i : ℕ) (pm : Map ℕ)
    → AllBelow (length m.cells) pm
    → live_count now m pm < m.pipeline_limit
    → Fits now (reserve now peer m i) (put i (length m.cells) pm)
      × (live_count now (reserve now peer m i) (put i (length m.cells) pm)
          ≤ suc (live_count now m pm))
reserve_new-Fits now peer m i pm a less = (
  (
    put-AllBelow _ i (length m.cells) pm (omega (arith, length-reserve now peer m i))
        (AllBelow-mono (length m.cells) _ pm (omega (arith, length-reserve now peer m i)) a),
    omega (arith, less, (settings-reserve now peer m i).1, count),
  ),
  count,
)
  where
    count :
        live_count now (reserve now peer m i) (put i (length m.cells) pm)
        ≤ suc (live_count now m pm)
    count = omega (
      arith,
      live_count-put now (reserve now peer m i) i (length m.cells) pm,
      live_count_mono now now m (reserve now peer m i) (length m.cells) pm
          (λ r h l. sym (live-reserve now now peer m i r h) ∙ l) a,
    )

pieces_of-reserve_self :
    (now peer : ℕ) (m : Manager) (i : ℕ)
    → pieces_of peer (reserve now peer m i) ≡ put i (length m.cells) (pieces_of peer m)
pieces_of-reserve_self now peer m i = ground (arith, pieces_of-reserve now peer m i peer)

by_peer-reserve :
    (now peer : ℕ) (m : Manager) (i : ℕ)
    → (reserve now peer m i).requests_by_peer
      ≡ put peer (put i (length m.cells) (pieces_of peer m)) m.requests_by_peer
unfolding reserve
by_peer-reserve now peer m i = refl

reserve-IsBounded :
    (now peer : ℕ) (m : Manager) (i : ℕ)
    → IsBounded now m
    → live_count now m (pieces_of peer m) < m.pipeline_limit
    → IsBounded now (reserve now peer m i)
reserve-IsBounded now peer m i b less =
    subst (Every (Fits now (reserve now peer m i))) (sym (by_peer-reserve now peer m i)) (
      Every-put _ peer (put i (length m.cells) (pieces_of peer m)) m.requests_by_peer
        (reserve_new-Fits now peer m i (pieces_of peer m) (pieces-Fits now peer m b).0 less).0
        (Every-mono (Fits now m) _ m.requests_by_peer (reserve-Fits now peer m i) b))

reserve_all-IsBounded :
    (now peer : ℕ) (m : Manager) (pieces : List ℕ)
    → IsBounded now m
    → live_count now m (pieces_of peer m) + length pieces ≤ m.pipeline_limit
    → IsBounded now (reserve_all now peer m pieces)
unfolding reserve_all
reserve_all-IsBounded now peer m [] b room = b
reserve_all-IsBounded now peer m (i ∷ is) b room =
    reserve_all-IsBounded now peer (reserve now peer m i) is
      (reserve-IsBounded now peer m i b (omega arith))
      (rw (pieces_of-reserve_self now peer m i) (
        omega (
          arith,
          (settings-reserve now peer m i).1,
          (reserve_new-Fits now peer m i (pieces_of peer m) (pieces-Fits now peer m b).0
              (omega arith)).1,
        )))

request_quota-live_count :
    (now : ℕ) (m : Manager) (peer : ℕ)
    → request_quota now m peer ≡ m.pipeline_limit - live_count now m (pieces_of peer m)
unfolding request_quota pieces_of
request_quota-live_count now m peer = elim (Option-cases (get peer m.requests_by_peer)) [
  | inl e ↦ unfold live_count in ground arith
  | inr (pm, e) ↦ rw (e, request_quota, pieces_of) (quota_loop-live_count now m m.pipeline_limit pm)
]

pub reserve_pieces-IsBounded :
    (draws num_peers : ℕ → ℕ) (now peer : ℕ) (candidates : List ℕ) (allow : Bool) (m : Manager)
    → IsBounded now m
    → IsBounded now (reserve_pieces draws num_peers now peer candidates allow m).0
reserve_pieces-IsBounded draws num_peers now peer candidates allow m b =
    elim (reserve_pieces-cases draws num_peers now peer candidates allow m) [
      | inl nothing ↦ subst (λ r. IsBounded now r.0) (sym nothing) b
      | inr (all, selected) ↦ subst (IsBounded now) (sym all) (
          reserve_all-IsBounded now peer m _ b (
            omega (
              arith,
              selected.0,
              request_quota-live_count now m peer,
              (pieces-Fits now peer m b).1,
            )))
    ]
