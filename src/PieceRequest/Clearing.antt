-- ===== src/PieceRequest/Clearing.antt =====
-- What `ClearPeer` takes out of the requests, and what it leaves.
use kraken.Base.{
  tally, ℕ, zero, suc, ◌+◌, ◌-◌, ◌≤◌, ◌<◌, Bool, true, false, none, some, List, [], ◌∷◌,
  if◌then◌else◌, ◌==◌, Map, get, length, get_or, set, drop_last, ◌≡◌, refl, arith, Option-cases,
  Bool-cases, inl, inr, ◌∙◌, ap, ◌⊎◌,
}
use kraken.PieceRequest.{
  Manager, deref, requests_of, index_of, eject, eject_loop, clear_peer, valid_request, reserve,
}
use kraken.PieceRequest.Reads.{
  requests_of-reserve, length-reserve, deref-reserve_old, deref-reserve_new, settings-reserve,
}
use kraken.PieceRequest.Exclusive.{Requested, Requested-blocked}

abbrev pub one_if : Bool → ℕ
one_if b = if b then 1 else 0

tally-last :
    (f : ℕ → Bool) (x : ℕ) (xs : List ℕ)
    → tally f (drop_last (x ∷ xs)) + one_if (f (get_or (x ∷ xs) (length xs) 0)) ≡ tally f (x ∷ xs)
tally-last f x [] = ground arith
tally-last f x (y ∷ ys) = ground (arith, tally-last f y ys)

-- To overwrite an entry by the last one and drop the last one takes that entry out.
tally-swap_out :
    (f : ℕ → Bool) (x : ℕ) (xs : List ℕ) (j : ℕ)
    → j ≤ length xs
    → tally f (drop_last (set (x ∷ xs) j (get_or (x ∷ xs) (length xs) 0)))
        + one_if (f (get_or (x ∷ xs) j 0))
      ≡ tally f (x ∷ xs)
tally-swap_out f x [] zero h = ground arith
tally-swap_out f x [] (suc j) h = absurd (omega arith)
tally-swap_out f x (y ∷ ys) zero h = ground (arith, tally-last f y ys)
tally-swap_out f x (y ∷ ys) (suc zero) h = ground (arith, tally-swap_out f y ys zero)
tally-swap_out f x (y ∷ ys) (suc (suc j)) h = ground (arith, tally-swap_out f y ys (suc j))

-- The test for a pointer to a request of a peer.
abbrev pub sent_to : Manager → ℕ → ℕ → Bool
sent_to m q r = (deref m r).peer_id == q

index_of-cases :
    (m : Manager) (peer : ℕ) (rs : List ℕ)
    → ((index_of m peer rs ≡ none) × (tally (sent_to m peer) rs ≡ 0))
      ⊎ ((j : ℕ) × (index_of m peer rs ≡ some j)
          × (j < length rs)
          × (sent_to m peer (get_or rs j 0) ≡ true))
unfolding index_of
index_of-cases m peer [] = inl (refl, refl)
index_of-cases m peer (r ∷ rs) = elim (Bool-cases (sent_to m peer r)) [
  | inl here ↦ inr (0, ground arith, omega arith, here)
  | inr past ↦ elim (index_of-cases m peer rs) [
    | inl (e, z) ↦ inl (ground arith, ground arith)
    | inr (j, e, h, s) ↦ inr (suc j, ground arith, omega arith, s)
  ]
]

pred_length : (x : ℕ) (xs : List ℕ) → length (x ∷ xs) - 1 ≡ length xs
pred_length x xs = omega arith

-- `eject` takes out one request of the peer, if there is one, and keeps those of the others.
eject-tally :
    (m : Manager) (peer q : ℕ) (rs : List ℕ)
    → tally (sent_to m q) (eject m peer rs)
      ≡ (if peer == q then tally (sent_to m q) rs - 1 else tally (sent_to m q) rs)
unfolding eject
eject-tally m peer q rs = elim (index_of-cases m peer rs) [
  | inl (e, z) ↦ rw (e, eject) (ground arith)
  | inr (j, e, h, s) ↦ rw (e, eject) (found rs j h s)
]
  where
    found :
        (l : List ℕ) (j : ℕ)
        → j < length l
        → sent_to m peer (get_or l j 0) ≡ true
        → tally (sent_to m q) (drop_last (set l j (get_or l (length l - 1) 0)))
          ≡ (if peer == q then tally (sent_to m q) l - 1 else tally (sent_to m q) l)
    found [] j h s = elim h [ ]
    found (x ∷ xs) j h s =
        rw (pred_length x xs) (ground (arith, tally-swap_out (sent_to m q) x xs j))

get-eject_loop :
    (m : Manager) (peer j : ℕ) (l : Map (List ℕ))
    → get j (eject_loop m peer l)
      ≡ elim (get j l) [ none ↦ none | some rs ↦ some (eject m peer rs) ]
unfolding get eject_loop
get-eject_loop m peer j [] = refl
get-eject_loop m peer j ((i, rs) ∷ rest) = ground (arith, get-eject_loop m peer j rest)

requests_of-clear_peer :
    (m : Manager) (peer j : ℕ) → requests_of j (clear_peer peer m) ≡ eject m peer (requests_of j m)
unfolding requests_of clear_peer
requests_of-clear_peer m peer j = elim (Option-cases (get j m.requests)) [
  | inl e ↦ unfold eject index_of in ground (arith, get-eject_loop m peer j m.requests)
  | inr (rs, e) ↦ ground (arith, get-eject_loop m peer j m.requests)
]

-- `ClearPeer` takes one request of the peer out of each piece's list, where there is one, and keeps
-- all requests of the other peers.
clear_peer-tally :
    (m : Manager) (peer q j : ℕ)
    → tally (sent_to m q) (requests_of j (clear_peer peer m)) ≡ (
        if peer == q
        then tally (sent_to m q) (requests_of j m) - 1
        else tally (sent_to m q) (requests_of j m))
clear_peer-tally m peer q j =
    ap (tally (sent_to m q)) (requests_of-clear_peer m peer j)
    ∙ eject-tally m peer q (requests_of j m)

eject_two :
    (m : Manager) (peer a b : ℕ) → sent_to m peer a ≡ true → eject m peer (a ∷ b ∷ []) ≡ b ∷ []
unfolding eject index_of
eject_two m peer a b s = ground arith

twice_requests :
    (m : Manager) (peer i t1 t2 : ℕ)
    → requests_of i m ≡ []
    → requests_of i (reserve t2 peer (reserve t1 peer m i) i)
      ≡ length m.cells ∷ suc (length m.cells) ∷ []
twice_requests m peer i t1 t2 fresh = ground (
  arith,
  requests_of-reserve t1 peer m i i,
  requests_of-reserve t2 peer (reserve t1 peer m i) i i,
  length-reserve t1 peer m i,
)

deref-clear_peer : (m : Manager) (peer r : ℕ) → deref (clear_peer peer m) r ≡ deref m r
unfolding clear_peer
deref-clear_peer m peer r = refl

settings-clear_peer :
    (m : Manager) (peer : ℕ)
    → ((clear_peer peer m).timeout ≡ m.timeout) × ((clear_peer peer m).cells ≡ m.cells)
unfolding clear_peer
settings-clear_peer m peer = (refl, refl)

twice-Requested :
    (m : Manager) (peer i t1 t2 : ℕ)
    → requests_of i m ≡ []
    → Requested t2 peer i (clear_peer peer (reserve t2 peer (reserve t1 peer m i) i))
twice-Requested m peer i t1 t2 fresh = record {
  pointer = suc n;
  listed = ground (
    arith,
    requests_of-clear_peer m2 peer i,
    twice_requests m peer i t1 t2 fresh,
    eject_two m2 peer n (suc n) first_sent,
  );
  allocated =
      ground (
        arith,
        settings-clear_peer m2 peer,
        length-reserve t1 peer m i,
        length-reserve t2 peer m1 i,
      );
  struct = ground (
    arith,
    deref-clear_peer m2 peer (suc n),
    deref-reserve_new t2 peer m1 i,
    length-reserve t1 peer m i,
  );
}
  where
    n : ℕ
    n = length m.cells

    m1 : Manager
    m1 = reserve t1 peer m i

    m2 : Manager
    m2 = reserve t2 peer m1 i

    first_sent : sent_to m2 peer n ≡ true
    first_sent = ground (
      arith,
      deref-reserve_old t2 peer m1 i n (omega (arith, length-reserve t1 peer m i)),
      deref-reserve_new t1 peer m i,
    )

-- A piece that was reserved twice for a peer stays blocked for all peers after `ClearPeer` of that
-- peer, until the second request times out.
clear_peer_leaves_second :
    (m : Manager) (peer i q t1 t2 t : ℕ)
    → requests_of i m ≡ []
    → t ≤ t2 + m.timeout
    → valid_request t (clear_peer peer (reserve t2 peer (reserve t1 peer m i) i)) q i false ≡ false
clear_peer_leaves_second m peer i q t1 t2 t fresh early =
    Requested-blocked t2 peer i t q false _ (twice-Requested m peer i t1 t2 fresh)
      (omega (
        arith,
        (settings-clear_peer (reserve t2 peer (reserve t1 peer m i) i) peer).0,
        (settings-reserve t2 peer (reserve t1 peer m i) i).0,
        (settings-reserve t1 peer m i).0,
      ))
      (ground arith)
