-- ===== src/AgentTorrent/Marking.antt =====
-- What a change of one piece's status does to a torrent, and when a writer makes it.
use kraken.Base.{
  ℕ, zero, suc, ◌+◌, ◌<◌, Bool, true, false, none, some, List, [], ◌∷◌, if◌then◌else◌, ◌==◌, length,
  get_elem?, get_or, ◌⊎◌, set, tally, tally-set, tally_full, length-set, get_or-set_self,
  get_or-set_ne, ◌≡◌, refl, arith, Bool-cases, inl, inr, ◌∙◌, subst, eq-cases, Option-cases,
}
use kraken.AgentTorrent.{
  PieceStatus, empty, complete, dirty, is_complete, is_dirty, Torrent, begin_write, mark,
  WriteError, invalid_index, invalid_length, piece_complete, write_conflict,
}
use kraken.MetaInfo.{get_piece_length}
use kraken.AgentTorrent.Writing.{copying, marked, counted, Writer, Download}

abbrev pub copies_piece : ℕ → Writer → Bool
copies_piece i w = elim w.phase [ copying ↦ w.piece == i | marked ↦ false | counted ↦ false ]

abbrev pub is_marked : Writer → Bool
is_marked w = elim w.phase [ copying ↦ false | marked ↦ true | counted ↦ false ]

abbrev pub is_counted : Writer → Bool
is_counted w = elim w.phase [ copying ↦ false | marked ↦ false | counted ↦ true ]

abbrev pub status_at : ℕ → Torrent → PieceStatus
status_at i t = get_or t.pieces i empty

-- A piece is dirty while one writer copies it, and no other one does; the counter is the number of
-- complete pieces but those that are still to be counted; a committed torrent has all pieces.
pub record IsValid (d : Download) : Type 0 where
  pub owned :
      (i : ℕ)
      → tally (copies_piece i) d.writers ≡ (if is_dirty (status_at i d.torrent) then 1 else 0)
  pub total :
      tally is_complete d.torrent.pieces ≡ d.torrent.num_complete + tally is_marked d.writers
  pub whole :
      d.torrent.committed ≡ true → tally is_complete d.torrent.pieces ≡ length d.torrent.pieces

-- If every piece is counted and the torrent is not committed, a writer is about to commit it.
abbrev pub Committing : Download → Type 0
Committing d =
    d.torrent.committed ≡ false
    → d.torrent.num_complete ≡ length d.torrent.pieces
    → 0 < tally is_counted d.writers

pub status-mark :
    (i j : ℕ) (s : PieceStatus) (t : Torrent)
    → i < length t.pieces
    → status_at j (mark i s t) ≡ (if i == j then s else status_at j t)
unfolding mark
status-mark i j s t h = elim (eq-cases i j) [
  | inl e ↦ ground (
    arith,
    subst (λ k. get_or (set t.pieces i s) k empty ≡ s) e (get_or-set_self t.pieces i s empty h),
    e,
  )
  | inr n ↦ ground (arith, get_or-set_ne t.pieces i j s empty n, n)
]

get_elem?-some :
    (xs : List PieceStatus) (i : ℕ) (s : PieceStatus)
    → get_elem? xs i ≡ some s
    → (get_or xs i empty ≡ s) × (i < length xs)
get_elem?-some [] i s e = absurd (ground (arith, e))
get_elem?-some (x ∷ xs) zero s e = (ground (arith, e), omega arith)
get_elem?-some (x ∷ xs) (suc i) s e = let (a, b) = get_elem?-some xs i s e in (a, omega (arith, b))

begin_write-at :
    (i n : ℕ) (s : PieceStatus) (t : Torrent)
    → get_elem? t.pieces i ≡ some s
    → ((begin_write i n t ≡ (mark i dirty t, none)) × (s ≡ empty))
      ⊎ ((e : WriteError) × (begin_write i n t ≡ (t, some e)))
unfolding begin_write
begin_write-at i n empty t at = elim (Bool-cases (n == get_piece_length t.meta_info i)) [
  | inl ok ↦ inl (ground (arith, at, ok), refl)
  | inr bad ↦ inr (invalid_length, ground (arith, at, bad))
]
begin_write-at i n complete t at = elim (Bool-cases (n == get_piece_length t.meta_info i)) [
  | inl ok ↦ inr (piece_complete, ground (arith, at, ok))
  | inr bad ↦ inr (invalid_length, ground (arith, at, bad))
]
begin_write-at i n dirty t at = elim (Bool-cases (n == get_piece_length t.meta_info i)) [
  | inl ok ↦ inr (write_conflict, ground (arith, at, ok))
  | inr bad ↦ inr (invalid_length, ground (arith, at, bad))
]

-- `WritePiece` goes on exactly with a piece that is empty, and which it marks; else it changes
-- nothing.
pub begin_write-cases :
    (i n : ℕ) (t : Torrent)
    → ((begin_write i n t ≡ (mark i dirty t, none))
        × (status_at i t ≡ empty)
        × (i < length t.pieces))
      ⊎ ((e : WriteError) × (begin_write i n t ≡ (t, some e)))
begin_write-cases i n t = elim (Option-cases (get_elem? t.pieces i)) [
  | inl absent ↦ inr (invalid_index, unfold begin_write in ground (arith, absent))
  | inr (s, at) ↦
      let (here_s, inside) = get_elem?-some t.pieces i s at in
      elim (begin_write-at i n s t at) [
        | inl (e, is_empty) ↦ inl (e, here_s ∙ is_empty, inside)
        | inr refused ↦ inr refused
      ]
]

pub status_in_range : (i : ℕ) (t : Torrent) → is_dirty (status_at i t) ≡ true → i < length t.pieces
status_in_range i t d = in_range t.pieces i d
  where
    in_range : (xs : List PieceStatus) (j : ℕ) → is_dirty (get_or xs j empty) ≡ true → j < length xs
    in_range [] j e = absurd (ground (arith, e))
    in_range (x ∷ xs) zero e = omega arith
    in_range (x ∷ xs) (suc j) e = omega (arith, in_range xs j e)

-- What a mark does to the number of complete pieces, and leaves as it is.
module _ (i : ℕ) (s : PieceStatus) (t : Torrent) where
  pub total-mark :
      i < length t.pieces
      → tally is_complete (mark i s t).pieces + (if is_complete (status_at i t) then 1 else 0)
        ≡ tally is_complete t.pieces + (if is_complete s then 1 else 0)
  unfolding mark
  total-mark h = tally-set is_complete t.pieces i s empty h

  pub kept-mark :
      (length (mark i s t).pieces ≡ length t.pieces)
      × ((mark i s t).num_complete ≡ t.num_complete)
      × ((mark i s t).committed ≡ t.committed)
  unfolding mark
  kept-mark = (length-set t.pieces i s, refl, refl)

  -- A torrent with a piece that is not complete is not committed.
  pub whole-mark :
      i < length t.pieces
      → is_complete (status_at i t) ≡ false
      → (t.committed ≡ true → tally is_complete t.pieces ≡ length t.pieces)
      → (mark i s t).committed ≡ true
      → tally is_complete (mark i s t).pieces ≡ length (mark i s t).pieces
  unfolding mark
  whole-mark h n w c = absurd (ground (arith, tally_full is_complete t.pieces i empty (w c) h, n))
