-- ===== src/AgentTorrent/Counting.antt =====
-- The counter of complete pieces, and the commit, under any interleaving of writers.
use kraken.Base.{
  ℕ, ◌<◌, Bool, true, List, ◌∷◌, ◌++◌, length, tally-split, tally-replace, tally-length, ◌≡◌, arith,
  inl, inr, subst,
}
use kraken.AgentTorrent.{
  empty, complete, dirty, is_complete, is_dirty, Torrent, mark, copy_chunk, increment, finish_write,
}
use kraken.AgentTorrent.Marking.{
  copies_piece, is_marked, status_at, IsValid, status-mark, begin_write-cases, status_in_range,
  total-mark, kept-mark, whole-mark,
}
use kraken.AgentTorrent.Writing.{
  copying, marked, counted, Writer, Download, new_writer, Step, refuses, begins, copies, fails,
  marks, counts, finishes, Reach, here, next,
}

begins-IsValid :
    (i : ℕ) (t : Torrent) (ws : List Writer)
    → status_at i t ≡ empty
    → i < length t.pieces
    → IsValid (record { torrent = t; writers = ws })
    → IsValid (record { torrent = mark i dirty t; writers = new_writer i ∷ ws })
begins-IsValid i t ws e h v = record {
  owned = λ j. ground (arith, v.owned j, v.owned i, status-mark i j dirty t h, e);
  total = ground (arith, v.total, total-mark i dirty t h, (kept-mark i dirty t).1, e);
  whole = whole-mark i dirty t h (ground (arith, e)) v.whole;
}

-- A writer that is among them, in place of others in the same order.
module _ (i : ℕ) (copied : List ℕ) (before behind : List Writer) (t : Torrent) where
  abbrev writing : Download
  writing = record {
    torrent = t;
    writers = before ++ record { piece = i; copied = copied; phase = copying } ∷ behind;
  }

  owner_dirty : IsValid writing → is_dirty (status_at i t) ≡ true
  owner_dirty v = ground (
    arith,
    v.owned i,
    tally-split (copies_piece i) before behind
        (record { piece = i; copied = copied; phase = copying }),
  )

  fails-IsValid :
      IsValid writing → IsValid (record { torrent = mark i empty t; writers = before ++ behind })
  fails-IsValid v =
      let w : Writer = record { piece = i; copied = copied; phase = copying } in
      let d = owner_dirty v in
      let h = status_in_range i t d in
      record {
        owned = λ j. ground (
          arith,
          v.owned j,
          tally-split (copies_piece j) before behind w,
          status-mark i j empty t h,
          d,
        );
        total = ground (
          arith,
          v.total,
          tally-split is_marked before behind w,
          total-mark i empty t h,
          (kept-mark i empty t).1,
          d,
        );
        whole = whole-mark i empty t h (ground (arith, d)) v.whole;
      }

  marks-IsValid :
      IsValid writing
      → IsValid (record {
        torrent = mark i complete t;
        writers = before ++ record { piece = i; copied = copied; phase = marked } ∷ behind;
      })
  marks-IsValid v =
      let w : Writer = record { piece = i; copied = copied; phase = copying } in
      let w' : Writer = record { piece = i; copied = copied; phase = marked } in
      let d = owner_dirty v in
      let h = status_in_range i t d in
      record {
        owned = λ j. ground (
          arith,
          v.owned j,
          tally-replace (copies_piece j) before behind w w',
          status-mark i j complete t h,
          d,
        );
        total = ground (
          arith,
          v.total,
          tally-replace is_marked before behind w w',
          total-mark i complete t h,
          (kept-mark i complete t).1,
          d,
        );
        whole = whole-mark i complete t h (ground (arith, d)) v.whole;
      }

-- The steps that leave the statuses as they are.
module _ (i : ℕ) (before behind : List Writer) (t : Torrent) where
  copies-IsValid :
      (copied chunk : List ℕ)
      → IsValid (writing i copied before behind t)
      → IsValid (writing i (copied ++ chunk) before behind (copy_chunk i copied chunk t))
  unfolding copy_chunk
  copies-IsValid copied chunk v =
      let w : Writer = record { piece = i; copied = copied; phase = copying } in
      let w' : Writer = record { piece = i; copied = copied ++ chunk; phase = copying } in
      record {
        owned = λ j. ground (arith, v.owned j, tally-replace (copies_piece j) before behind w w');
        total = ground (arith, v.total, tally-replace is_marked before behind w w');
        whole = v.whole;
      }

  counts-IsValid :
      (copied : List ℕ)
      → IsValid (record {
        torrent = t;
        writers = before ++ record { piece = i; copied = copied; phase = marked } ∷ behind;
      })
      → IsValid (record {
        torrent = increment t;
        writers = before ++ record { piece = i; copied = copied; phase = counted } ∷ behind;
      })
  unfolding increment
  counts-IsValid copied v =
      let w : Writer = record { piece = i; copied = copied; phase = marked } in
      let w' : Writer = record { piece = i; copied = copied; phase = counted } in
      record {
        owned = λ j. ground (arith, v.owned j, tally-replace (copies_piece j) before behind w w');
        total = ground (arith, v.total, tally-replace is_marked before behind w w');
        whole = v.whole;
      }

  finishes-IsValid :
      (copied : List ℕ) (moved : Bool)
      → IsValid (record {
        torrent = t;
        writers = before ++ record { piece = i; copied = copied; phase = counted } ∷ behind;
      })
      → IsValid (record { torrent = finish_write moved t; writers = before ++ behind })
  unfolding finish_write
  finishes-IsValid copied moved v =
      let w : Writer = record { piece = i; copied = copied; phase = counted } in
      record {
        owned = λ j. ground (arith, v.owned j, tally-split (copies_piece j) before behind w);
        total = ground (arith, v.total, tally-split is_marked before behind w);
        whole = λ c. ground (arith, v.total, v.whole, tally-length is_complete t.pieces, c);
      }

-- The download with its writers as a step lists them.
listed-IsValid :
    {ws : List Writer} (d : Download)
    → d.writers ≡ ws
    → IsValid d
    → IsValid (record { torrent = d.torrent; writers = ws })
listed-IsValid d at v = subst (λ xs. IsValid (record { torrent = d.torrent; writers = xs })) at v

step-IsValid : (sum : List ℕ → ℕ) {d e : Download} → Step sum d e → IsValid d → IsValid e
step-IsValid sum {d} (refuses i n t err at) v = elim (begin_write-cases i n d.torrent) [
  | inl (e, _, _) ↦ absurd (ground (arith, at, e))
  | inr (_, e) ↦ subst (λ u. IsValid (record d { torrent = u })) (ground (arith, at, e)) v
]
step-IsValid sum {d} (begins i n t at) v = elim (begin_write-cases i n d.torrent) [
  | inl (e, is_empty, h) ↦
      subst (λ u. IsValid (record { torrent = u; writers = new_writer i ∷ d.writers }))
        (ground (arith, at, e)) (begins-IsValid i d.torrent d.writers is_empty h v)
  | inr (_, e) ↦ absurd (ground (arith, at, e))
]
step-IsValid sum {d} (copies i copied chunk before behind at) v =
    copies-IsValid i before behind d.torrent copied chunk (listed-IsValid d at v)
step-IsValid sum {d} (fails i copied before behind at) v =
    fails-IsValid i copied before behind d.torrent (listed-IsValid d at v)
step-IsValid sum {d} (marks i copied before behind at ok) v =
    marks-IsValid i copied before behind d.torrent (listed-IsValid d at v)
step-IsValid sum {d} (counts i copied before behind at) v =
    counts-IsValid i before behind d.torrent copied (listed-IsValid d at v)
step-IsValid sum {d} (finishes i copied moved before behind at) v =
    finishes-IsValid i before behind d.torrent copied moved (listed-IsValid d at v)

pub Reach-IsValid : (sum : List ℕ → ℕ) {d e : Download} → Reach sum d e → IsValid d → IsValid e
Reach-IsValid sum here v = v
Reach-IsValid sum (next r s) v = step-IsValid sum s (Reach-IsValid sum r v)
