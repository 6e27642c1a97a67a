-- ===== src/FileStore/Downloads.antt =====
-- lib/store/ca_download_store.go: downloads and the cache as two states of a sharded file store
-- without a limit, and how a torrent is restored from it (`restorePieces` of
-- lib/torrent/storage/agentstorage/pieces.go).
pub mod Restoring
pub mod Holding
pub mod Restarting
use kraken.Base.{
  ℕ, Bool, true, false, Option, none, some, List, [], ◌∷◌, if◌then◌else◌, ◌==◌, has, get,
}
use kraken.FileStore.Types.{FileError, file_state, Registry, Store}
use kraken.FileStore.Ops.{
  Result, failed, ok, create_file, move_file, delete_file, get_file_metadata, set_file_metadata_at,
  get_or_set_file_metadata,
}
use kraken.AgentTorrent.{PieceStatus, Stored, stored, in_cache, store_error, serialize}

abbrev pub download_state : ℕ
download_state = 0

abbrev pub cache_state : ℕ
cache_state = 1

-- The scope `Download`.
abbrev pub download : List ℕ
download = download_state ∷ []

abbrev in_cache_error : FileError → Bool
in_cache_error (file_state s) = s == cache_state
in_cache_error _ = false

-- The suffix of the statuses of a torrent's pieces.
abbrev pub piece_status : ℕ
piece_status = 2

-- What `restorePieces` gets of `GetOrSetMetadata` with new statuses.
unfoldable pub stored_of : Result (List ℕ) → Stored
stored_of (ok b) = stored b
stored_of (failed err) = if in_cache_error err then in_cache else store_error

module _ (r : Registry) where
  -- No state is acceptable.
  unfoldable pub create_download_file : ℕ → ℕ → Option ℕ → Store → Store × Result (Unit {0})
  unfolding create_file
  create_download_file now n size s = create_file r now n [] download_state size s

  unfoldable pub move_download_file_to_cache : ℕ → ℕ → Store → Store × Result (Unit {0})
  unfolding move_file
  move_download_file_to_cache now n s = move_file r now n download cache_state s

  unfoldable pub get_or_set_pieces : ℕ → ℕ → List PieceStatus → Store → Store × Stored
  unfolding get_or_set_file_metadata stored_of serialize
  get_or_set_pieces now n pieces s =
      let (s', result) =
        get_or_set_file_metadata r now n download piece_status (serialize pieces) s in
      (s', stored_of result)
