-- ===== src/AgentTorrent.antt =====
-- lib/torrent/storage/agentstorage: a torrent that is being downloaded (pieces.go, torrent.go).
-- The store's answers (errors, the metadata that it holds) are arguments. The download file is a
-- function from offsets to bytes, and `sum` is the piece hash. Writers run concurrently: each has
-- passed `tryMarkDirty` and not yet returned from `WritePiece`.
pub mod Writing
pub mod Marking
pub mod Counting
pub mod Completing
pub mod Restart
mod Tests
use kraken.Base.{
  ℕ, zero, suc, ◌+◌, ◌-◌, ◌*◌, Bool, true, false, not, Option, none, some, List, [], ◌∷◌, ◌++◌,
  if◌then◌else◌, ◌==◌, ◌&&◌, ltb, leb, length, get_elem?, get_or, set, tally, map,
}
use kraken.MetaInfo.{MetaInfo, num_pieces, get_piece_length, get_piece_sum}

pub data PieceStatus : Type 0 where
  empty complete dirty : PieceStatus

abbrev pub is_complete : PieceStatus → Bool
is_complete complete = true
is_complete _ = false

abbrev pub is_dirty : PieceStatus → Bool
is_dirty dirty = true
is_dirty _ = false

abbrev pub status_byte : PieceStatus → ℕ
status_byte empty = 0
status_byte complete = 1
status_byte dirty = 2

-- `pieceStatusMetadata`: the statuses as bytes, where reading takes all but `_complete` as empty.
unfoldable pub serialize : List PieceStatus → List ℕ
serialize [] = []
serialize (s ∷ ss) = status_byte s ∷ serialize ss

unfoldable pub deserialize : List ℕ → List PieceStatus
deserialize [] = []
deserialize (b ∷ bs) = (if b == 1 then complete else empty) ∷ deserialize bs

abbrev pub all_empty : ℕ → List PieceStatus
all_empty zero = []
all_empty (suc n) = empty ∷ all_empty n

abbrev pub all_complete : ℕ → List PieceStatus
all_complete zero = []
all_complete (suc n) = complete ∷ all_complete n

-- What `GetOrSetMetadata` answers: the metadata that the download file has, or gets now; that the
-- file is in the cache already; or another error.
pub data Stored : Type 0 where
  stored : List ℕ → Stored
  set_now in_cache store_error : Stored

unfoldable pub restore_pieces : Stored → ℕ → Option (List PieceStatus × ℕ)
unfolding deserialize
restore_pieces (stored bytes) n = some (deserialize bytes, tally is_complete (deserialize bytes))
restore_pieces set_now n = some (all_empty n, tally is_complete (all_empty n))
restore_pieces in_cache n = some (all_complete n, n)
restore_pieces store_error n = none

pub record Torrent : Type 0 where
  pub meta_info : MetaInfo
  pub pieces : List PieceStatus
  pub num_complete : ℕ
  pub committed : Bool
  pub file : ℕ → ℕ

-- `moved` is false if the move to the cache fails, other than for a file that is there already.
unfoldable pub new_torrent : Stored → Bool → (ℕ → ℕ) → MetaInfo → Option Torrent
unfolding restore_pieces
new_torrent answer moved file mi = elim (restore_pieces answer (num_pieces mi)) [
  | none ↦ none
  | some (pieces, n) ↦
      if (n == length pieces) && not moved
      then none
      else some (record {
        meta_info = mi;
        pieces = pieces;
        num_complete = n;
        committed = n == length pieces;
        file = file;
      })
]

unfoldable pub bytes_downloaded : Torrent → ℕ
bytes_downloaded t =
    if ltb (t.num_complete * t.meta_info.info.piece_length) t.meta_info.info.length
    then t.num_complete * t.meta_info.info.piece_length
    else t.meta_info.info.length

-- `Bitfield` and `HasPiece`; no piece out of range is complete.
unfoldable pub bitfield : Torrent → List Bool
bitfield t = map is_complete t.pieces

unfoldable pub has_piece : ℕ → Torrent → Bool
has_piece i t = elim (get_elem? t.pieces i) [ none ↦ false | some s ↦ is_complete s ]

missing_from : ℕ → List PieceStatus → List ℕ
missing_from i [] = []
missing_from i (s ∷ ss) =
    if is_complete s then missing_from (suc i) ss else i ∷ missing_from (suc i) ss

unfoldable pub missing_pieces : Torrent → List ℕ
unfolding missing_from
missing_pieces t = missing_from 0 t.pieces

unfoldable pub get_file_offset : ℕ → Torrent → ℕ
get_file_offset i t = t.meta_info.info.piece_length * i

pub data WriteError : Type 0 where
  invalid_index invalid_length piece_complete write_conflict : WriteError

unfoldable pub mark : ℕ → PieceStatus → Torrent → Torrent
mark i s t = record t { pieces = set t.pieces i s }

-- `WritePiece` up to `tryMarkDirty`, for a reader that claims `n` bytes. The two tests of the
-- status before it only return early with the error that it would give.
unfoldable pub begin_write : ℕ → ℕ → Torrent → Torrent × Option WriteError
unfolding mark
begin_write i n t = elim (get_elem? t.pieces i) [
  | none ↦ (t, some invalid_index)
  | some s ↦
      if not (n == get_piece_length t.meta_info i) then (t, some invalid_length) else elim s [
        | empty ↦ (mark i dirty t, none)
        | dirty ↦ (t, some write_conflict)
        | complete ↦ (t, some piece_complete)
      ]
]

-- The file with bytes written at an offset.
unfoldable pub write_at : ℕ → List ℕ → (ℕ → ℕ) → ℕ → ℕ
write_at offset bytes file i =
    if leb offset i && ltb i (offset + length bytes) then get_or bytes (i - offset) 0 else file i

-- One chunk of `io.Copy`, after the bytes that were copied before.
unfoldable pub copy_chunk : ℕ → List ℕ → List ℕ → Torrent → Torrent
unfolding write_at get_file_offset
copy_chunk i copied chunk t = record t {
  file = write_at (get_file_offset i t + length copied) chunk t.file;
}

-- The test of the sum, which comes before the piece is marked.
unfoldable pub sum_matches : (List ℕ → ℕ) → ℕ → List ℕ → Torrent → Bool
sum_matches sum i copied t = elim (get_piece_sum t.meta_info i) [
  | none ↦ false
  | some s ↦ sum copied == s
]

unfoldable pub increment : Torrent → Torrent
increment t = record t { num_complete = suc t.num_complete }

-- The end of `WritePiece`; `moved` as in `new_torrent`.
unfoldable pub finish_write : Bool → Torrent → Torrent
finish_write moved t =
    if (t.num_complete == length t.pieces) && moved then record t { committed = true } else t
