-- ===== src/AgentTorrent/Tests.antt =====
-- A download of one piece, and each theorem at it.
use kraken.Base.{ℕ, List, [], ◌∷◌, true, false, ◌≡◌, refl, length, ◌↔◌, tally}
use kraken.MetaInfo.{MetaInfo, get_piece_length, get_piece_sum}
use kraken.AgentTorrent.{
  Torrent, empty, complete, dirty, is_complete, new_torrent, restore_pieces, stored, deserialize,
  serialize, begin_write, mark, copy_chunk, write_at, get_file_offset, sum_matches, increment,
  finish_write,
}
use kraken.AgentTorrent.Writing.{Reach, here, next, begins, copies, marks, counts, finishes}
use kraken.AgentTorrent.Marking.{IsValid}
use kraken.AgentTorrent.Completing.{alone, Reach-new_torrent-IsValid, Reach-committed_iff}

-- One piece of four bytes, whose hash is taken to be the number of its bytes.
abbrev one_piece : MetaInfo
one_piece = record {
  info = record { piece_length = 4; piece_sums = 4 ∷ []; name = 9; length = 4 };
  info_hash = 7;
  digest = 9;
}

abbrev blank : ℕ → ℕ
blank i = 0

abbrev restored : Torrent
restored = record {
  meta_info = one_piece;
  pieces = empty ∷ [];
  num_complete = 0;
  committed = false;
  file = blank;
}

abbrev bytes : List ℕ
bytes = 1 ∷ 2 ∷ 3 ∷ 4 ∷ []

abbrev finished : Torrent
finished = record {
  meta_info = one_piece;
  pieces = complete ∷ [];
  num_complete = 1;
  committed = true;
  file = write_at 0 bytes blank;
}

program : Unit {0}
unfolding new_torrent restore_pieces deserialize serialize begin_write mark copy_chunk
    get_file_offset sum_matches increment finish_write get_piece_length get_piece_sum
program = tt

statuses_kept : deserialize (serialize (complete ∷ dirty ∷ [])) ≡ complete ∷ empty ∷ []
unfolding program
statuses_kept = refl

downloads : Reach length (alone restored) (alone finished)
unfolding program
downloads =
    next
      (next
        (next
          (next (next here (begins 0 4 (mark 0 dirty restored) refl))
            (copies 0 [] bytes [] [] refl))
          (marks 0 bytes [] [] refl refl))
        (counts 0 bytes [] [] refl))
      (finishes 0 bytes true [] [] refl)

Reach-new_torrent-IsValid_example : IsValid (alone finished)
unfolding program
Reach-new_torrent-IsValid_example =
    Reach-new_torrent-IsValid length (stored (0 ∷ [])) true blank one_piece restored refl downloads

Reach-committed_iff_example : (finished.committed ≡ true) ↔ (tally is_complete finished.pieces ≡ 1)
unfolding program downloads
Reach-committed_iff_example =
    Reach-committed_iff length (stored (0 ∷ [])) true blank one_piece restored finished refl
      downloads (((((tt, tt), tt), tt), tt), refl)
