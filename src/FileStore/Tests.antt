-- ===== src/FileStore/Tests.antt =====
-- Runs of a store with one place in memory, and each theorem at concrete calls.
use kraken.Base.{
  if◌then◌else◌, ℕ, true, false, not, Option, none, some, List, [], ◌∷◌, ◌≡◌, refl, ltb, ◌==◌, get,
  put, del, has, tally, length,
}
use kraken.MetaInfo.{MetaInfo, num_pieces}
use kraken.AgentTorrent.{
  PieceStatus, empty, complete, dirty, is_complete, is_dirty, Torrent, new_torrent, bitfield,
  missing_pieces, serialize, all_complete,
}
use kraken.FileStore.Downloads.{
  create_download_file, move_download_file_to_cache, get_or_set_pieces,
}
use kraken.FileStore.Downloads.Restoring.{restored_complete}
use kraken.FileStore.Downloads.Restarting.{restarted_torrent}
use kraken.FileStore.Types.{
  Registry, not_exist, file_persisted, Disk, Store, Slot, data_at, write_data, write_file,
}
use kraken.FileStore.FileMap.{move_to_front, get_oldest}
use kraken.FileStore.Ops.{
  ok, failed, create_file, move_file_from, move_file, delete_file, get_file_stat, get_file_metadata,
  set_file_metadata, list_names,
}
use kraken.FileStore.Calls.{Call, creates, moves, deletes, stats, run, new_store}
use kraken.FileStore.Persisting.{is_persisted}
use kraken.FileStore.Persisting.Runs.{AllSpare, changes, run-keeps_persisted}
use kraken.FileStore.Evicting.{Fits, run-new_store-Fits}
use kraken.FileStore.Metadata.{get-set_file_metadata, delete_file-persisted}

abbrev one_byte : List ℕ → Option ℕ
one_byte (b ∷ []) = some b
one_byte _ = none

-- A true persist metadata is the byte 1, and a time is one byte.
abbrev registry : Registry
registry = record {
  is_known = λ k. ltb k 5;
  is_movable = λ k. not (k == 4);
  parse_bool = λ b. elim (one_byte b) [ none ↦ none | some x ↦ some (x == 1) ];
  parse_time = one_byte;
  format_time = λ t. t ∷ [];
}

-- In the directory 1, a file 7 of two bytes that is persisted.
abbrev disk : Disk
disk = (1, (7, record { data_file = some (3 ∷ 4 ∷ []); files = (0, 1 ∷ []) ∷ [] }) ∷ []) ∷ []

abbrev start : Store
start = record { disk = disk; unmanaged = []; queue = []; capacity = 1; is_cas = true }

abbrev both : List ℕ
both = 1 ∷ 2 ∷ []

-- The file is read, evicted by a new one, deleted, and the new one is moved.
abbrev calls : List Call
calls =
    record { now = 9; name = 7; states = both; operation = stats }
    ∷ record { now = 9; name = 8; states = both; operation = creates 2 (some 3) }
    ∷ record { now = 9; name = 7; states = both; operation = deletes }
    ∷ record { now = 9; name = 8; states = both; operation = moves 1 }
    ∷ []

program : Unit {0}
unfolding run new_store is_persisted write_data write_file create_file move_file_from move_file
    delete_file get_file_stat get_file_metadata set_file_metadata list_names get put del changes
    move_to_front get_oldest
program = tt

reads_back : (get_file_stat registry 9 7 both start).1 ≡ ok 2
unfolding program
reads_back = refl

kept_on_disk : data_at 1 7 (run registry calls start).disk ≡ some (3 ∷ 4 ∷ [])
unfolding program
kept_on_disk = refl

-- A file that could not be moved in, since the source does not exist, leaves a directory with its
-- last access time behind, which is listed as a name from then on.
leftover :
    (list_names (2 ∷ []) (move_file_from registry 9 6 both 2 5 start).0 ≡ 6 ∷ [])
    × ((get_file_stat registry 9 6 both (move_file_from registry 9 6 both 2 5 start).0).1
        ≡ failed not_exist)
unfolding program
leftover = (refl, refl)

spared : AllSpare 7 calls
unfolding program
spared = (refl, (refl, (refl, (refl, tt))))

run-keeps_persisted_example :
    (is_persisted registry 1 7 (run registry calls start).disk ≡ true)
    × (data_at 1 7 (run registry calls start).disk ≡ some (3 ∷ 4 ∷ []))
unfolding program
run-keeps_persisted_example = run-keeps_persisted registry 1 7 calls start spared refl

run-new_store-Fits_example : Fits 1 (run registry calls start).queue
unfolding program
run-new_store-Fits_example = run-new_store-Fits registry 1 true disk [] calls

abbrev marked : Store
marked = (set_file_metadata registry 9 7 both 3 (5 ∷ []) start).0

-- A type whose `Deserialize` reads one byte, and no more than 9.
abbrev digit : List ℕ → Option ℕ
digit b = elim (one_byte b) [ none ↦ none | some x ↦ if ltb x 10 then some x else none ]

get-set_file_metadata_example : (get_file_metadata registry digit 10 7 both 3 marked).1 ≡ ok 5
unfolding program
get-set_file_metadata_example =
    get-set_file_metadata registry digit 9 10 7 both 3 (5 ∷ []) start marked true refl

abbrev loaded : Store
loaded = (get_file_stat registry 9 7 both start).0

abbrev slot : Slot
slot = record { fe = record { state = 1; metadata = (0, tt) ∷ (1, tt) ∷ [] }; last_access = 9 }

delete_file-persisted_example :
    ((delete_file registry 9 7 both loaded).1 ≡ failed file_persisted)
    × ((delete_file registry 9 7 both loaded).0.disk ≡ loaded.disk)
    × (has 7 (delete_file registry 9 7 both loaded).0.queue ≡ false)
unfolding program
delete_file-persisted_example = delete_file-persisted registry 9 7 both loaded slot refl refl refl

-- A torrent of three pieces, and what a store leaves of it on disk.
abbrev three_pieces : MetaInfo
three_pieces = record {
  info = record { piece_length = 1; piece_sums = 1 ∷ 2 ∷ 3 ∷ []; name = 7; length = 3 };
  info_hash = 3;
  digest = 7;
}

abbrev half_done : Torrent
half_done = record {
  meta_info = three_pieces;
  pieces = complete ∷ dirty ∷ empty ∷ [];
  num_complete = 1;
  committed = false;
  file = λ i. 0;
}

abbrev left_over : Disk
left_over =
    (0, (7, record { data_file = some (1 ∷ 0 ∷ 0 ∷ []); files = (2, 1 ∷ 2 ∷ 0 ∷ []) ∷ [] }) ∷ [])
    ∷ []

abbrev no_pieces : List PieceStatus
no_pieces = empty ∷ empty ∷ empty ∷ []

downloading : Unit {0}
unfolding program get_or_set_pieces move_download_file_to_cache create_download_file serialize
downloading = tt

restarted_torrent_example :
    (t' : Torrent) × (new_torrent
        (get_or_set_pieces registry 9 7 no_pieces (new_store 0 true left_over [])).1
        true
        half_done.file
        three_pieces
      ≡ some t')
    × (bitfield t' ≡ bitfield half_done)
    × (missing_pieces t' ≡ missing_pieces half_done)
    × (tally is_dirty t'.pieces ≡ 0)
    × (t'.num_complete ≡ tally is_complete half_done.pieces)
    × (t'.committed ≡ (tally is_complete half_done.pieces == length half_done.pieces))
unfolding downloading
restarted_torrent_example =
    restarted_torrent registry 9 7 no_pieces half_done left_over [] refl refl refl

abbrev created : Store
created = (create_download_file registry 9 7 (some 3) (new_store 0 true [] [])).0

abbrev in_the_cache : Store
in_the_cache = (move_download_file_to_cache registry 9 7 created).0

restored_complete_example :
    new_torrent
      (get_or_set_pieces registry 10 7 no_pieces in_the_cache).1
      true
      half_done.file
      three_pieces
    ≡ some (record {
      meta_info = three_pieces;
      pieces = all_complete (num_pieces three_pieces);
      num_complete = num_pieces three_pieces;
      committed = true;
      file = half_done.file;
    })
unfolding downloading
restored_complete_example =
    restored_complete registry 9 10 7 no_pieces created in_the_cache half_done.file three_pieces
      refl
