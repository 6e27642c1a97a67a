-- ===== src/AgentTorrent/Writing.antt =====
-- Concurrent calls of `WritePiece`, as steps of their goroutines. A piece's status has its own lock
-- and the counters are atomic, so the steps are the critical sections and the file's writes.
use kraken.Base.{ℕ, Bool, true, none, some, List, [], ◌∷◌, ◌++◌, ◌≡◌}
use kraken.AgentTorrent.{
  empty, complete, Torrent, begin_write, mark, copy_chunk, sum_matches, increment, finish_write,
  WriteError,
}

-- How far a writer is: it copies bytes, has marked its piece as complete, or has counted it.
pub data Phase : Type 0 where
  copying marked counted : Phase

pub record Writer : Type 0 where
  pub piece : ℕ
  pub copied : List ℕ
  pub phase : Phase

pub record Download : Type 0 where
  pub torrent : Torrent
  pub writers : List Writer

abbrev pub new_writer : ℕ → Writer
new_writer i = record { piece = i; copied = []; phase = copying }

pub data Step (sum : List ℕ → ℕ) (d : Download) : Download → Type 0 where
  refuses :
      (i n : ℕ) (t : Torrent) (e : WriteError)
      → begin_write i n d.torrent ≡ (t, some e)
      → Step sum d (record d { torrent = t })
  begins :
      (i n : ℕ) (t : Torrent)
      → begin_write i n d.torrent ≡ (t, none)
      → Step sum d (record { torrent = t; writers = new_writer i ∷ d.writers })
  copies :
      (i : ℕ) (copied chunk : List ℕ) (before behind : List Writer)
      → d.writers ≡ before ++ record { piece = i; copied = copied; phase = copying } ∷ behind
      → Step sum d (record {
        torrent = copy_chunk i copied chunk d.torrent;
        writers =
            before ++ record { piece = i; copied = copied ++ chunk; phase = copying } ∷ behind;
      })
  -- The reader, the file, the sum or the store's metadata fails.
  fails :
      (i : ℕ) (copied : List ℕ) (before behind : List Writer)
      → d.writers ≡ before ++ record { piece = i; copied = copied; phase = copying } ∷ behind
      → Step sum d (record { torrent = mark i empty d.torrent; writers = before ++ behind })
  marks :
      (i : ℕ) (copied : List ℕ) (before behind : List Writer)
      → d.writers ≡ before ++ record { piece = i; copied = copied; phase = copying } ∷ behind
      → sum_matches sum i copied d.torrent ≡ true
      → Step sum d (record {
        torrent = mark i complete d.torrent;
        writers = before ++ record { piece = i; copied = copied; phase = marked } ∷ behind;
      })
  counts :
      (i : ℕ) (copied : List ℕ) (before behind : List Writer)
      → d.writers ≡ before ++ record { piece = i; copied = copied; phase = marked } ∷ behind
      → Step sum d (record {
        torrent = increment d.torrent;
        writers = before ++ record { piece = i; copied = copied; phase = counted } ∷ behind;
      })
  finishes :
      (i : ℕ) (copied : List ℕ) (moved : Bool) (before behind : List Writer)
      → d.writers ≡ before ++ record { piece = i; copied = copied; phase = counted } ∷ behind
      → Step sum d (record { torrent = finish_write moved d.torrent; writers = before ++ behind })

pub data Reach (sum : List ℕ → ℕ) (d : Download) : Download → Type 0 where
  here : Reach sum d d
  next : {e f : Download} → Reach sum d e → Step sum e f → Reach sum d f

-- The store moves each finished file.
abbrev pub Moved : {sum : List ℕ → ℕ} {d e : Download} → Step sum d e → Type 0
Moved (finishes i copied moved before behind at) = moved ≡ true
Moved _ = Unit

abbrev pub AllMoved : {sum : List ℕ → ℕ} {d e : Download} → Reach sum d e → Type 0
AllMoved here = Unit
AllMoved (next r s) = AllMoved r × Moved s
