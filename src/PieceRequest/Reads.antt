-- ===== src/PieceRequest/Reads.antt =====
-- What the tables of a manager hold after each call.
use kraken.Base.{
  ℕ, suc, ◌<◌, Bool, List, [], ◌∷◌, ◌++◌, if◌then◌else◌, ◌==◌, put, length, get_or, set,
  get_or-append_left, get_or-append_length, ◌≡◌, refl, arith, get-put, ◌⊎◌, inl, inr, Bool-cases,
  length-append, length-set,
}
use kraken.PieceRequest.{
  Manager, Request, Status, zero_request, deref, requests_of, pieces_of, reserve, mark_loop,
  reserve_pieces, reserve_all, request_quota, valid_request,
}
use kraken.PieceRequest.Selection.{Selected, select_pieces-Selected}

-- The struct that `reserve` allocates.
abbrev pub new_request : ℕ → ℕ → ℕ → Request
new_request now peer i = record {
  piece = i;
  peer_id = peer;
  status = Status.pending;
  sent_at = now;
}

module _ (now peer : ℕ) (m : Manager) (i : ℕ) where
  pub requests_of-reserve :
      (j : ℕ)
      → requests_of j (reserve now peer m i)
        ≡ (if i == j then requests_of i m ++ length m.cells ∷ [] else requests_of j m)
  unfolding reserve requests_of
  requests_of-reserve j =
      ground (arith, get-put i j (requests_of i m ++ length m.cells ∷ []) m.requests)

  pub pieces_of-reserve :
      (q : ℕ)
      → pieces_of q (reserve now peer m i)
        ≡ (if peer == q then put i (length m.cells) (pieces_of peer m) else pieces_of q m)
  unfolding reserve pieces_of
  pieces_of-reserve q =
      ground (arith, get-put peer q (put i (length m.cells) (pieces_of peer m)) m.requests_by_peer)

  pub length-reserve : length (reserve now peer m i).cells ≡ suc (length m.cells)
  unfolding reserve
  length-reserve = omega (arith, length-append m.cells (new_request now peer i ∷ []))

  pub deref-reserve_old : (r : ℕ) → r < length m.cells → deref (reserve now peer m i) r ≡ deref m r
  unfolding reserve
  deref-reserve_old r h = get_or-append_left m.cells (new_request now peer i ∷ []) r zero_request h

  pub deref-reserve_new : deref (reserve now peer m i) (length m.cells) ≡ new_request now peer i
  unfolding reserve
  deref-reserve_new = get_or-append_length m.cells (new_request now peer i) zero_request

  pub settings-reserve :
      ((reserve now peer m i).timeout ≡ m.timeout)
      × ((reserve now peer m i).pipeline_limit ≡ m.pipeline_limit)
  unfolding reserve
  settings-reserve = (refl, refl)

-- Marking writes the status of the peer's structs among those listed, and nothing else.
abbrev pub SameButStatus : Request → Request → Type 0
SameButStatus a b = (a.piece ≡ b.piece) × (a.peer_id ≡ b.peer_id) × (a.sent_at ≡ b.sent_at)

pub length-mark_loop :
    (peer : ℕ) (s : Status) (rs : List ℕ) (cells : List Request)
    → length (mark_loop peer s rs cells) ≡ length cells
unfolding mark_loop
length-mark_loop peer s [] cells = refl
length-mark_loop peer s (r ∷ rs) cells = ground (
  arith,
  length-mark_loop peer s rs cells,
  length-mark_loop peer s rs (set cells r (record (get_or cells r zero_request) { status = s })),
  length-set cells r (record (get_or cells r zero_request) { status = s }),
)

-- The two ways in which `ReservePieces` ends: no quota is left, or it reserves what it returns,
-- which is valid and within the quota.
pub reserve_pieces-cases :
    (draws num_peers : ℕ → ℕ) (now peer : ℕ) (candidates : List ℕ) (allow : Bool) (m : Manager)
    → (reserve_pieces draws num_peers now peer candidates allow m ≡ (m, []))
      ⊎ (((reserve_pieces draws num_peers now peer candidates allow m).0
            ≡ reserve_all now peer m (reserve_pieces draws num_peers now peer candidates allow m).1)
          × Selected
              (request_quota now m peer)
              (λ i. valid_request now m peer i allow)
              (reserve_pieces draws num_peers now peer candidates allow m).1)
unfolding reserve_pieces
reserve_pieces-cases draws num_peers now peer candidates allow m =
    elim (Bool-cases (request_quota now m peer == 0)) [
      | inl none_left ↦ inl (rw none_left)
      | inr some_left ↦ inr (
          rw some_left (
            refl,
            select_pieces-Selected m.policy draws (request_quota now m peer)
                (λ i. valid_request now m peer i allow) candidates num_peers,
          ))
    ]
