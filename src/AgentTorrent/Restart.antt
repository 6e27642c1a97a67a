-- ===== src/AgentTorrent/Restart.antt =====
-- A torrent that is restored from the metadata of an earlier one.
use kraken.Base.{
  ℕ, suc, true, some, List, [], ◌∷◌, map, tally, length, ◌≡◌, refl, ap, ◌∙◌, arith, ◌==◌,
}
use kraken.AgentTorrent.{
  PieceStatus, empty, complete, dirty, is_complete, is_dirty, Torrent, stored, serialize,
  deserialize, restore_pieces, new_torrent, bitfield, missing_from, missing_pieces,
}

-- A piece that was being written is to be written again.
clean : PieceStatus → PieceStatus
clean complete = complete
clean _ = empty

abbrev clean_all : List PieceStatus → List PieceStatus
clean_all [] = []
clean_all (s ∷ ss) = clean s ∷ clean_all ss

deserialize-serialize : (ss : List PieceStatus) → deserialize (serialize ss) ≡ clean_all ss
unfolding deserialize serialize clean
deserialize-serialize [] = refl
deserialize-serialize (empty ∷ ss) = ap (λ l. empty ∷ l) (deserialize-serialize ss)
deserialize-serialize (complete ∷ ss) = ap (λ l. complete ∷ l) (deserialize-serialize ss)
deserialize-serialize (dirty ∷ ss) = ap (λ l. empty ∷ l) (deserialize-serialize ss)

complete-clean : (s : PieceStatus) → is_complete (clean s) ≡ is_complete s
unfolding clean
complete-clean empty = refl
complete-clean complete = refl
complete-clean dirty = refl

map-clean : (ss : List PieceStatus) → map is_complete (clean_all ss) ≡ map is_complete ss
map-clean [] = refl
map-clean (s ∷ ss) = rw (complete-clean s, map-clean ss)

tally-clean : (ss : List PieceStatus) → tally is_complete (clean_all ss) ≡ tally is_complete ss
tally-clean [] = refl
tally-clean (s ∷ ss) = rw (complete-clean s, tally-clean ss)

length-clean : (ss : List PieceStatus) → length (clean_all ss) ≡ length ss
length-clean [] = refl
length-clean (s ∷ ss) = ap suc (length-clean ss)

missing-clean : (i : ℕ) (ss : List PieceStatus) → missing_from i (clean_all ss) ≡ missing_from i ss
unfolding missing_from
missing-clean i [] = refl
missing-clean i (s ∷ ss) = rw (complete-clean s, missing-clean (suc i) ss)

none_dirty : (ss : List PieceStatus) → tally is_dirty (clean_all ss) ≡ 0
unfolding clean
none_dirty [] = refl
none_dirty (empty ∷ ss) = none_dirty ss
none_dirty (complete ∷ ss) = none_dirty ss
none_dirty (dirty ∷ ss) = none_dirty ss

abbrev with_pieces : List PieceStatus → Torrent → Torrent
with_pieces ps t = record t {
  pieces = ps;
  num_complete = tally is_complete ps;
  committed = tally is_complete ps == length ps;
}

new_torrent-stored :
    (bytes : List ℕ) (t : Torrent)
    → new_torrent (stored bytes) true t.file t.meta_info ≡ some (with_pieces (deserialize bytes) t)
unfolding new_torrent restore_pieces
new_torrent-stored bytes t = ground arith

-- The torrent that is restored from what the statuses of another one serialize to has the same bit
-- set and the same missing pieces, and its counter is their number of complete pieces; no piece of
-- it is dirty; it is committed where every piece is complete. The move to the cache does not fail,
-- and the download file is kept.
pub new_torrent-serialize :
    (t : Torrent)
    → (t' : Torrent) × (new_torrent (stored (serialize t.pieces)) true t.file t.meta_info ≡ some t')
      × (bitfield t' ≡ bitfield t)
      × (missing_pieces t' ≡ missing_pieces t)
      × (tally is_dirty t'.pieces ≡ 0)
      × (t'.num_complete ≡ tally is_complete t.pieces)
      × (t'.committed ≡ (tally is_complete t.pieces == length t.pieces))
      × (t'.file ≡ t.file)
unfolding bitfield missing_pieces
new_torrent-serialize t =
    let ps = clean_all t.pieces in
    let made =
      new_torrent-stored (serialize t.pieces) t
      ∙ ap (λ (l : List PieceStatus). some (with_pieces l t)) (deserialize-serialize t.pieces) in
    (
      with_pieces ps t,
      made,
      map-clean t.pieces,
      missing-clean 0 t.pieces,
      none_dirty t.pieces,
      tally-clean t.pieces,
      rw (tally-clean t.pieces, length-clean t.pieces),
      refl,
    )
