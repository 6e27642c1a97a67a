-- ===== src/PieceRequest/Exclusive.antt =====
-- A reserved piece is not handed out again while its request is live.
use kraken.Base.{
  ℕ, ◌+◌, ◌≤◌, ◌<◌, Bool, true, false, not, List, [], ◌∷◌, if◌then◌else◌, ◌==◌, ◌&&◌, ◌||◌, length,
  count, count-append, ◌≡◌, refl, sym, subst, arith, eq-cases, inl, inr,
}
use kraken.PieceRequest.{
  Manager, deref, requests_of, live, valid_loop, valid_request, reserve, reserve_all,
  reserve_pieces,
}
use kraken.PieceRequest.Reads.{
  new_request, requests_of-reserve, length-reserve, deref-reserve_old, deref-reserve_new,
  settings-reserve, reserve_pieces-cases,
}

-- The piece has a request to the peer, sent at `now` and still pending.
pub record Requested (now peer i : ℕ) (m : Manager) : Type 0 where
  pub pointer : ℕ
  pub listed : 0 < count pointer (requests_of i m)
  pub allocated : pointer < length m.cells
  pub struct : deref m pointer ≡ new_request now peer i

reserve-Requested_new :
    (now peer : ℕ) (m : Manager) (i : ℕ) → Requested now peer i (reserve now peer m i)
reserve-Requested_new now peer m i = record {
  pointer = length m.cells;
  listed = ground (
    arith,
    requests_of-reserve now peer m i i,
    count-append (length m.cells) (requests_of i m) (length m.cells ∷ []),
  );
  allocated = omega (arith, length-reserve now peer m i);
  struct = deref-reserve_new now peer m i;
}

reserve-Requested_old :
    (now peer j t p i : ℕ) (m : Manager)
    → Requested t p i m
    → Requested t p i (reserve now peer m j)
reserve-Requested_old now peer j t p i m r = record {
  pointer = r.pointer;
  listed = ground (
    arith,
    requests_of-reserve now peer m j i,
    count-append r.pointer (requests_of i m) (length m.cells ∷ []),
    r.listed,
  );
  allocated = omega (arith, length-reserve now peer m j, r.allocated);
  struct = ground (arith, deref-reserve_old now peer m j r.pointer, r.allocated, r.struct);
}

reserve_all-Requested_old :
    (now peer t p i : ℕ) (m : Manager) (pieces : List ℕ)
    → Requested t p i m
    → Requested t p i (reserve_all now peer m pieces)
unfolding reserve_all
reserve_all-Requested_old now peer t p i m [] r = r
reserve_all-Requested_old now peer t p i m (j ∷ js) r =
    reserve_all-Requested_old now peer t p i (reserve now peer m j) js
      (reserve-Requested_old now peer j t p i m r)

reserve_all-Requested :
    (now peer i : ℕ) (m : Manager) (pieces : List ℕ)
    → 0 < count i pieces
    → Requested now peer i (reserve_all now peer m pieces)
unfolding reserve_all
reserve_all-Requested now peer i m [] c = absurd (omega arith)
reserve_all-Requested now peer i m (j ∷ js) c = elim (eq-cases j i) [
  | inl same ↦ reserve_all-Requested_old now peer now peer i (reserve now peer m j) js (
      subst (λ k. Requested now peer k (reserve now peer m j)) same
        (reserve-Requested_new now peer m j))
  | inr other ↦ reserve_all-Requested now peer i (reserve now peer m j) js (ground arith)
]

reserve_all-timeout :
    (now peer : ℕ) (m : Manager) (pieces : List ℕ)
    → (reserve_all now peer m pieces).timeout ≡ m.timeout
unfolding reserve_all
reserve_all-timeout now peer m [] = refl
reserve_all-timeout now peer m (j ∷ js) =
    ground
      (arith, reserve_all-timeout now peer (reserve now peer m j) js, settings-reserve now peer m j)

-- A live request of the list blocks its own peer, and without duplicates everybody.
valid_loop-blocked :
    (now : ℕ) (m : Manager) (peer r : ℕ) (allow : Bool) (rs : List ℕ)
    → 0 < count r rs
    → live now m r ≡ true
    → ((deref m r).peer_id == peer) || not allow ≡ true
    → valid_loop now m peer allow rs ≡ false
unfolding valid_loop
valid_loop-blocked now m peer r allow [] c l b = absurd (omega arith)
valid_loop-blocked now m peer r allow (x ∷ rs) c l b = elim (eq-cases x r) [
  | inl same ↦
      subst
        (λ y.
          (if live now m y && (((deref m y).peer_id == peer) || not allow)
            then false
            else valid_loop now m peer allow rs)
          ≡ false)
        (sym same) (rw (l, b))
  | inr other ↦ ground (arith, valid_loop-blocked now m peer r allow rs)
]

pub Requested-blocked :
    (now peer i t q : ℕ) (allow : Bool) (m : Manager)
    → Requested now peer i m
    → t ≤ now + m.timeout
    → (peer == q) || not allow ≡ true
    → valid_request t m q i allow ≡ false
unfolding valid_request
Requested-blocked now peer i t q allow m r early b =
    valid_loop-blocked t m q r.pointer allow (requests_of i m) r.listed
      (unfold live in ground (arith, r.struct)) (ground (arith, r.struct))

-- In the manager that `ReservePieces` leaves, before any other call, and until the request times
-- out, a piece that it returned for a peer is no valid request for that peer again, nor for any
-- peer where duplicates are not allowed.
pub reserve_pieces_exclusive :
    (draws num_peers : ℕ → ℕ) (now peer later i q : ℕ) (candidates : List ℕ) (allow : Bool)
    (m m' : Manager) (pieces : List ℕ)
    → reserve_pieces draws num_peers now peer candidates allow m ≡ (m', pieces)
    → 0 < count i pieces
    → later ≤ now + m.timeout
    → (valid_request later m' peer i true ≡ false) × (valid_request later m' q i false ≡ false)
reserve_pieces_exclusive draws num_peers now peer later i q candidates allow m m' pieces e c early =
    elim (reserve_pieces-cases draws num_peers now peer candidates allow m) [
      | inl nothing ↦ absurd (ground arith)
      | inr (all, _) ↦
          let reserved : m' ≡ reserve_all now peer m pieces = ground arith in
          let requested =
            subst (Requested now peer i) (sym reserved)
              (reserve_all-Requested now peer i m pieces c) in
          let in_time : later ≤ now + m'.timeout =
            ground (arith, reserve_all-timeout now peer m pieces) in
          (
            Requested-blocked now peer i later peer true m' requested in_time (ground arith),
            Requested-blocked now peer i later q false m' requested in_time (ground arith),
          )
    ]
