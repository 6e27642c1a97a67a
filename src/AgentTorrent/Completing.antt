-- ===== src/AgentTorrent/Completing.antt =====
-- From a new torrent to its commit: the invariants hold at first, and no commit is missed.
use kraken.Base.{
  ℕ, zero, suc, ◌<◌, Bool, true, false, not, some, List, [], ◌∷◌, ◌++◌, ◌==◌, ◌&&◌, length, get_or,
  tally, tally-split, tally-replace, ◌≡◌, refl, arith, Bool-cases, inl, inr, ◌∙◌, sym, subst, ap,
  ◌↔◌, Option-cases,
}
use mathlib.Core.Option.{some_inj}
use kraken.MetaInfo.{MetaInfo, num_pieces}
use kraken.AgentTorrent.{
  PieceStatus, empty, complete, dirty, is_complete, is_dirty, Torrent, mark, copy_chunk,
  finish_write, Stored, stored, set_now, in_cache, store_error, new_torrent, restore_pieces,
  deserialize, all_empty, all_complete,
}
use kraken.AgentTorrent.Marking.{
  is_counted, status_at, IsValid, Committing, begin_write-cases, kept-mark,
}
use kraken.AgentTorrent.Writing.{
  copying, marked, counted, Writer, Download, new_writer, Step, refuses, begins, copies, fails,
  marks, counts, finishes, Reach, here, next, Moved, AllMoved,
}
use kraken.AgentTorrent.Counting.{Reach-IsValid}

pub total-all_complete :
    (n : ℕ) → (tally is_complete (all_complete n) ≡ n) × (length (all_complete n) ≡ n)
total-all_complete zero = (refl, refl)
total-all_complete (suc n) = let (a, b) = total-all_complete n in (ap suc a, ap suc b)

all_complete-clean : (n i : ℕ) → is_dirty (get_or (all_complete n) i empty) ≡ false
all_complete-clean zero i = refl
all_complete-clean (suc n) zero = refl
all_complete-clean (suc n) (suc i) = all_complete-clean n i

all_empty-clean : (n i : ℕ) → is_dirty (get_or (all_empty n) i empty) ≡ false
all_empty-clean zero i = refl
all_empty-clean (suc n) zero = refl
all_empty-clean (suc n) (suc i) = all_empty-clean n i

deserialize-clean : (bs : List ℕ) (i : ℕ) → is_dirty (get_or (deserialize bs) i empty) ≡ false
unfolding deserialize
deserialize-clean [] i = refl
deserialize-clean (b ∷ bs) zero = elim (Bool-cases (b == 1)) [
  | inl e ↦ rw e refl
  | inr e ↦ rw e refl
]
deserialize-clean (b ∷ bs) (suc i) = deserialize-clean bs i

-- What a restored torrent starts with.
restored :
    (answer : Stored) (n : ℕ) (ps : List PieceStatus) (k : ℕ)
    → restore_pieces answer n ≡ some (ps, k)
    → (tally is_complete ps ≡ k) × ((i : ℕ) → is_dirty (get_or ps i empty) ≡ false)
unfolding restore_pieces
restored (stored bytes) n ps k e =
    subst (λ r. (tally is_complete r.0 ≡ r.1) × ((i : ℕ) → is_dirty (get_or r.0 i empty) ≡ false))
      (some_inj.0 e) (refl, deserialize-clean bytes)
restored set_now n ps k e =
    subst (λ r. (tally is_complete r.0 ≡ r.1) × ((i : ℕ) → is_dirty (get_or r.0 i empty) ≡ false))
      (some_inj.0 e) (refl, all_empty-clean n)
restored in_cache n ps k e =
    subst (λ r. (tally is_complete r.0 ≡ r.1) × ((i : ℕ) → is_dirty (get_or r.0 i empty) ≡ false))
      (some_inj.0 e) ((total-all_complete n).0, all_complete-clean n)
restored store_error n ps k e = absurd (ground (arith, e))

abbrev pub alone : Torrent → Download
alone t = record { torrent = t; writers = [] }

-- A torrent without writers, whose counter and commit agree with its pieces.
consistent-IsValid :
    (t : Torrent)
    → tally is_complete t.pieces ≡ t.num_complete
    → ((i : ℕ) → is_dirty (status_at i t) ≡ false)
    → t.committed ≡ (t.num_complete == length t.pieces)
    → IsValid (alone t) × Committing (alone t)
consistent-IsValid t total clean c = (
  record {
    owned = λ i. ground (arith, clean i);
    total = omega (arith, total);
    whole = λ d. ground (arith, d, c, total);
  },
  λ n whole. absurd (ground (arith, n, whole, c)),
)

new_torrent-IsValid :
    (answer : Stored) (moved : Bool) (file : ℕ → ℕ) (mi : MetaInfo) (t : Torrent)
    → new_torrent answer moved file mi ≡ some t
    → IsValid (alone t) × Committing (alone t)
unfolding new_torrent
new_torrent-IsValid answer moved file mi t e =
    elim (Option-cases (restore_pieces answer (num_pieces mi))) [
      | inl none_there ↦ absurd (ground (arith, e, none_there))
      | inr ((ps, k), there) ↦
          let (total, clean) = restored answer (num_pieces mi) ps k there in
          let made : Torrent = record {
            meta_info = mi;
            pieces = ps;
            num_complete = k;
            committed = k == length ps;
            file = file;
          } in
          let same : some made ≡ some t = elim (Bool-cases ((k == length ps) && not moved)) [
            | inl bad ↦ absurd (ground (arith, e, there, bad))
            | inr ok ↦ ground (arith, e, there, ok)
          ] in
          subst (λ u. IsValid (alone u) × Committing (alone u)) (some_inj.0 same)
            (consistent-IsValid made total clean refl)
    ]

-- A step that keeps the commit, the counter, the number of pieces and the counted writers.
kept-Committing :
    (d : Download) (t : Torrent) (ws : List Writer)
    → t.committed ≡ d.torrent.committed
    → t.num_complete ≡ d.torrent.num_complete
    → length t.pieces ≡ length d.torrent.pieces
    → tally is_counted ws ≡ tally is_counted d.writers
    → Committing d
    → Committing (record { torrent = t; writers = ws })
kept-Committing d t ws same_commit same_number same_length same_writers c n f =
    subst (λ k. 0 < k) (sym same_writers)
      (c (sym same_commit ∙ n) (sym same_number ∙ f ∙ same_length))

-- Only the writers that have counted their piece are counted.
counted-replace :
    (i : ℕ) (copied : List ℕ) (before behind : List Writer) (w : Writer)
    → is_counted w ≡ false
    → tally is_counted (before ++ w ∷ behind)
      ≡ tally is_counted (before ++ record { piece = i; copied = copied; phase = copying } ∷ behind)
counted-replace i copied before behind w n = ground (
  arith,
  tally-replace is_counted before behind w (record { piece = i; copied = copied; phase = copying }),
  n,
)

counted-split :
    (i : ℕ) (copied : List ℕ) (before behind : List Writer)
    → tally is_counted (before ++ behind)
      ≡ tally is_counted (before ++ record { piece = i; copied = copied; phase = copying } ∷ behind)
counted-split i copied before behind = ground (
  arith,
  tally-split is_counted before behind (record { piece = i; copied = copied; phase = copying }),
)

step-Committing :
    (sum : List ℕ → ℕ) {d e : Download} (s : Step sum d e) → Moved s → Committing d → Committing e
step-Committing sum {d} (refuses i n t err at) w c = elim (begin_write-cases i n d.torrent) [
  | inl (e, _, _) ↦ absurd (ground (arith, at, e))
  | inr (_, e) ↦
      let same : d.torrent ≡ t = ground (arith, at, e) in
      subst (λ u. Committing (record { torrent = u; writers = d.writers })) same c
]
step-Committing sum {d} (begins i n t at) w c = elim (begin_write-cases i n d.torrent) [
  | inl (e, _, _) ↦
      let made : mark i dirty d.torrent ≡ t = ground (arith, at, e) in
      let (same_len, same_num, same_com) = kept-mark i dirty d.torrent in
      subst (λ u. Committing (record { torrent = u; writers = new_writer i ∷ d.writers })) made
        (kept-Committing d (mark i dirty d.torrent) (new_writer i ∷ d.writers) same_com same_num
          same_len refl c)
  | inr (_, e) ↦ absurd (ground (arith, at, e))
]
step-Committing sum {d} (copies i copied chunk before behind at) w c =
    kept-Committing d (copy_chunk i copied chunk d.torrent)
      (before ++ record { piece = i; copied = copied ++ chunk; phase = copying } ∷ behind)
      (unfold copy_chunk in refl) (unfold copy_chunk in refl) (unfold copy_chunk in refl)
      (counted-replace i copied before behind
          (record { piece = i; copied = copied ++ chunk; phase = copying }) refl
        ∙ ap (tally is_counted) (sym at))
      c
step-Committing sum {d} (fails i copied before behind at) w c =
    let (same_len, same_num, same_com) = kept-mark i empty d.torrent in
    kept-Committing d (mark i empty d.torrent) (before ++ behind) same_com same_num same_len
      (counted-split i copied before behind ∙ ap (tally is_counted) (sym at)) c
step-Committing sum {d} (marks i copied before behind at ok) w c =
    let (same_len, same_num, same_com) = kept-mark i complete d.torrent in
    kept-Committing d (mark i complete d.torrent)
      (before ++ record { piece = i; copied = copied; phase = marked } ∷ behind) same_com same_num
      same_len
      (counted-replace i copied before behind
          (record { piece = i; copied = copied; phase = marked }) refl
        ∙ ap (tally is_counted) (sym at))
      c
step-Committing sum {d} (counts i copied before behind at) w c = λ n f. ground (
  arith,
  tally-split is_counted before behind (record { piece = i; copied = copied; phase = counted }),
)
step-Committing sum {d} (finishes i copied moved before behind at) w c =
    λ n f. absurd (unfold finish_write in ground (arith, n, f, w))

Reach-Committing :
    (sum : List ℕ → ℕ) {d e : Download} (r : Reach sum d e)
    → AllMoved r
    → Committing d
    → Committing e
Reach-Committing sum here w c = c
Reach-Committing sum (next r s) w c = step-Committing sum s w.1 (Reach-Committing sum r w.0 c)

-- However the writers of a restored torrent interleave, a piece is dirty exactly while one writer
-- copies it, and no piece has two such writers; the counter and the pieces that are marked and not
-- yet counted make up the complete pieces; and a committed torrent has all of its pieces.
pub Reach-new_torrent-IsValid :
    (sum : List ℕ → ℕ) (answer : Stored) (moved : Bool) (file : ℕ → ℕ) (mi : MetaInfo) (t : Torrent)
    {e : Download}
    → new_torrent answer moved file mi ≡ some t
    → Reach sum (alone t) e
    → IsValid e
Reach-new_torrent-IsValid sum answer moved file mi t new r =
    Reach-IsValid sum r (new_torrent-IsValid answer moved file mi t new).0

-- Once all writers of a restored torrent have returned, and provided that no move to the cache
-- failed, the torrent is committed exactly if all of its pieces are complete.
pub Reach-committed_iff :
    (sum : List ℕ → ℕ) (answer : Stored) (moved : Bool) (file : ℕ → ℕ) (mi : MetaInfo)
    (t e : Torrent)
    → new_torrent answer moved file mi ≡ some t
    → (r : Reach sum (alone t) (alone e)) → AllMoved r
    → (e.committed ≡ true) ↔ (tally is_complete e.pieces ≡ length e.pieces)
Reach-committed_iff sum answer moved file mi t e new r w =
    let (v0, c0) = new_torrent-IsValid answer moved file mi t new in
    let v = Reach-IsValid sum r v0 in
    let c = Reach-Committing sum r w c0 in
    (
      v.whole,
      λ full. elim (Bool-cases e.committed) [
        | inl is_so ↦ is_so
        | inr not_so ↦ absurd (omega (arith, c not_so (omega (arith, v.total, full))))
      ],
    )
