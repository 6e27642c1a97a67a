-- ===== src/MetaInfo/Pieces.antt =====
-- `NewMetaInfo` splits the blob into its pieces: what it records is what the bytes say.
use kraken.Base.{
  ℤ, pos, negsuc, Bool, ℕ, zero, suc, ◌+◌, ◌-◌, ◌*◌, ◌≤◌, ◌<◌, min, true, false, Option, some, List,
  [], ◌∷◌, ◌++◌, if◌then◌else◌, ◌==◌, ltb, leb, length, take, drop, get_elem?, ◌≡◌, refl, sym, ap,
  subst, ◌∙◌, arith, Bool-cases, inl, inr, ◌⊎◌, length-take, length-drop, drop-drop,
}
use mathlib.Core.List.{append-nil, append_assoc}
use kraken.MetaInfo.{
  Info, MetaInfo, Blob, ok, error, piece_length_not_positive, read_blob, sums_loop, calc_piece_sums,
  new_meta_info, num_pieces, get_piece_length, get_piece_sum,
}

-- The bytes of piece `i`.
abbrev pub chunk : ℕ → List ℕ → ℕ → List ℕ
chunk piece_length bytes i = take piece_length (drop (piece_length * i) bytes)

-- The sums are those of the consecutive pieces, none empty, that use up the bytes.
abbrev pub Covers : (List ℕ → ℕ) → ℕ → List ℕ → List ℕ → Type 0
Covers sum piece_length [] bytes = length bytes ≡ 0
Covers sum piece_length (s ∷ ss) bytes =
    (0 < length bytes)
    × (s ≡ sum (take piece_length bytes))
    × Covers sum piece_length ss (drop piece_length bytes)

-- What a round does: it ends on an empty or a short read, or goes on behind a whole piece.
module _ (sum : List ℕ → ℕ) (pl fuel : ℕ) (blob : Blob) (total : ℕ) (sums : List ℕ) where
  loop_empty :
      0 < pl
      → blob.broken ≡ false
      → length blob.bytes ≡ 0
      → sums_loop sum pl (suc fuel) blob total sums ≡ ok (total, sums)
  unfolding sums_loop
  loop_empty p fine e = ground (arith, length-take pl blob.bytes)

  loop_short :
      blob.broken ≡ false
      → 0 < length blob.bytes
      → length blob.bytes < pl
      → sums_loop sum pl (suc fuel) blob total sums
        ≡ ok (total + length blob.bytes, sums ++ sum (take pl blob.bytes) ∷ [])
  unfolding sums_loop
  loop_short fine more short = ground (arith, length-take pl blob.bytes)

  loop_next :
      0 < pl
      → pl ≤ length blob.bytes
      → sums_loop sum pl (suc fuel) blob total sums
        ≡ sums_loop sum pl fuel
            (record blob { bytes = drop pl blob.bytes })
            (total + pl)
            (sums ++ sum (take pl blob.bytes) ∷ [])
  unfolding sums_loop
  loop_next p whole = ground (arith, length-take pl blob.bytes)

-- What the loop finds.
abbrev Ends : (List ℕ → ℕ) → ℕ → ℕ → Blob → ℕ → List ℕ → Type 0
Ends sum pl fuel blob total sums =
    (ss : List ℕ) × (sums_loop sum pl fuel blob total sums
      ≡ ok (total + length blob.bytes, sums ++ ss))
    × Covers sum pl ss blob.bytes

sums_loop-Ends :
    (sum : List ℕ → ℕ) (pl fuel : ℕ) (blob : Blob) (total : ℕ) (sums : List ℕ)
    → 0 < pl
    → blob.broken ≡ false
    → length blob.bytes < fuel
    → Ends sum pl fuel blob total sums
sums_loop-Ends sum pl zero blob total sums p fine f = absurd (omega arith)
sums_loop-Ends sum pl (suc fuel) blob total sums p fine f =
    elim (Bool-cases (length blob.bytes == 0)) [
      | inl e ↦ (
        [],
        loop_empty sum pl fuel blob total sums p fine (ground arith)
            ∙ ground (arith, append-nil sums),
        ground arith,
      )
      | inr more ↦ elim (Bool-cases (ltb (length blob.bytes) pl)) [
        | inl short ↦ (
          sum (take pl blob.bytes) ∷ [],
          loop_short sum pl fuel blob total sums fine (ground arith) (ground arith),
          (ground arith, refl, ground (arith, length-drop pl blob.bytes)),
        )
        | inr whole ↦
            let (ss, e, c) =
              sums_loop-Ends sum pl fuel (record blob { bytes = drop pl blob.bytes }) (total + pl)
                (sums ++ sum (take pl blob.bytes) ∷ []) p fine
                (ground (arith, length-drop pl blob.bytes)) in
            (
              sum (take pl blob.bytes) ∷ ss,
              loop_next sum pl fuel blob total sums p (ground arith)
                  ∙ e
                  ∙ ground (
                    arith,
                    length-drop pl blob.bytes,
                    append_assoc sums (sum (take pl blob.bytes) ∷ []) ss,
                  ),
              (ground arith, refl, c),
            )
      ]
    ]

drop-zero : (pl : ℕ) (bytes : List ℕ) → drop (pl * 0) bytes ≡ bytes
drop-zero pl bytes = let z : pl * 0 ≡ 0 = omega arith in rw z

drop-suc : (pl i : ℕ) (bytes : List ℕ) → drop (pl * i) (drop pl bytes) ≡ drop (pl * suc i) bytes
drop-suc pl i bytes =
    let e : pl + pl * i ≡ pl * suc i = omega arith in
    drop-drop (pl * i) pl bytes ∙ ap (λ n. drop n bytes) e

Covers-get :
    (sum : List ℕ → ℕ) (pl : ℕ) (ss bytes : List ℕ) (i : ℕ)
    → Covers sum pl ss bytes
    → i < length ss
    → (get_elem? ss i ≡ some (sum (chunk pl bytes i))) × (pl * i < length bytes)
Covers-get sum pl [] bytes i c h = elim h [ ]
Covers-get sum pl (s ∷ ss) bytes zero c h =
    (ap some (c.1 ∙ ap (λ l. sum (take pl l)) (sym (drop-zero pl bytes))), omega (arith, c.0))
Covers-get sum pl (s ∷ ss) bytes (suc i) c h =
    let (e, below) = Covers-get sum pl ss (drop pl bytes) i c.2 (omega arith) in
    (
      e ∙ ap (λ l. some (sum (take pl l))) (drop-suc pl i bytes),
      omega (arith, below, length-drop pl bytes),
    )

Covers-length :
    (sum : List ℕ → ℕ) (pl : ℕ) (ss bytes : List ℕ)
    → Covers sum pl ss bytes
    → length bytes ≤ pl * length ss
Covers-length sum pl [] bytes c = omega (arith, c)
Covers-length sum pl (s ∷ ss) bytes c =
    omega (arith, Covers-length sum pl ss (drop pl bytes) c.2, length-drop pl bytes)

-- The record of a blob: its length, and of each piece the length and the sum.
pub record Describes (sum : List ℕ → ℕ) (pl : ℕ) (bytes : List ℕ) (mi : MetaInfo) : Type 0 where
  pub total : mi.info.length ≡ length bytes
  pub enough : length bytes ≤ pl * num_pieces mi
  pub piece :
      (i : ℕ)
      → i < num_pieces mi
      → (pl * i < length bytes)
        × (get_piece_length mi i ≡ length (chunk pl bytes i))
        × (get_piece_sum mi i ≡ some (sum (chunk pl bytes i)))

length-chunk :
    (pl : ℕ) (bytes : List ℕ) (i : ℕ) → length (chunk pl bytes i) ≡ min pl (length bytes - pl * i)
length-chunk pl bytes i =
    omega (arith, length-take pl (drop (pl * i) bytes), length-drop (pl * i) bytes)

Covers-Describes :
    (sum : List ℕ → ℕ) (pl d h : ℕ) (ss bytes : List ℕ)
    → Covers sum pl ss bytes
    → Describes sum pl bytes (record {
      info = record { piece_length = pl; piece_sums = ss; name = d; length = length bytes };
      info_hash = h;
      digest = d;
    })
unfolding get_piece_length get_piece_sum
Covers-Describes sum pl d h ss bytes c = record {
  total = refl;
  enough = Covers-length sum pl ss bytes c;
  piece = λ i less.
      let (e, below) = Covers-get sum pl ss bytes i c less in (below, size i less below, e);
}
  where
    size :
        (i : ℕ)
        → i < length ss
        → pl * i < length bytes
        → (if leb (length ss) i
            then 0
            else if i + 1 == length ss
            then length bytes - pl * i
            else pl)
          ≡ length (chunk pl bytes i)
    size i less below = elim (Bool-cases (i + 1 == length ss)) [
      | inl last ↦
          let n : length ss ≡ i + 1 = ground arith in
          let all : length bytes ≤ pl * length ss = Covers-length sum pl ss bytes c in
          let bound : length bytes ≤ pl * (i + 1) = subst (λ k. length bytes ≤ pl * k) n all in
          let in_piece : length bytes - pl * i ≤ pl = omega arith in
          ground (arith, length-chunk pl bytes i)
      | inr inner ↦
          let next : i + 1 < length ss = ground arith in
          let behind = (Covers-get sum pl ss bytes (i + 1) c next).1 in
          let whole : pl ≤ length bytes - pl * i = omega (arith, behind) in
          ground (arith, length-chunk pl bytes i)
    ]

-- For a readable blob and a positive piece length, `NewMetaInfo` succeeds wherever the info can be
-- encoded, and describes the blob: the total length, and for each piece a range inside the blob,
-- the length of the bytes in that range and their sum; the ranges reach the end of the blob.
pub new_meta_info-Describes :
    (sum : List ℕ → ℕ) (hash : Info → Option ℕ) (d pl : ℕ) (bytes : List ℕ)
    → 0 < pl
    → ((info : Info) → (h : ℕ) × (hash info ≡ some h))
    → (mi : MetaInfo) × (new_meta_info sum hash d
          (record { bytes = bytes; broken = false })
          (pos pl)
        ≡ ok mi)
      × (mi.digest ≡ d)
      × Describes sum pl bytes mi
unfolding new_meta_info
new_meta_info-Describes sum hash d pl bytes p encodes =
    let blob : Blob = record { bytes = bytes; broken = false } in
    let (ss, e, c) = sums_loop-Ends sum pl (suc (length bytes)) blob 0 [] p refl (omega arith) in
    let info : Info = record {
      piece_length = pl;
      piece_sums = ss;
      name = d;
      length = length bytes;
    } in
    let (h, eh) = encodes info in
    (
      record { info = info; info_hash = h; digest = d },
      ground arith,
      refl,
      Covers-Describes sum pl d h ss bytes c,
    )

sums_loop_broken :
    (sum : List ℕ → ℕ) (pl fuel : ℕ) (blob : Blob) (total : ℕ) (sums : List ℕ)
    → 0 < pl
    → blob.broken ≡ true
    → length blob.bytes < fuel
    → sums_loop sum pl fuel blob total sums ≡ error read_blob
sums_loop_broken sum pl zero blob total sums p b f = absurd (omega arith)
sums_loop_broken sum pl (suc fuel) blob total sums p b f =
    elim (Bool-cases (ltb (length blob.bytes) pl)) [
      | inl short ↦ unfold sums_loop in ground (arith, length-take pl blob.bytes)
      | inr whole ↦
          loop_next sum pl fuel blob total sums p (ground arith)
          ∙ sums_loop_broken sum pl fuel (record blob { bytes = drop pl blob.bytes }) (total + pl) _
              p b (ground (arith, length-drop pl blob.bytes))
    ]

abbrev pub is_positive : ℤ → Bool
is_positive (pos n) = ltb 0 n
is_positive (negsuc n) = false

-- `NewMetaInfo` refuses a piece length that is not positive with the error for it, and with a
-- positive one it fails with a read error whenever the reader fails, wherever in the blob that is.
pub new_meta_info_refused :
    (sum : List ℕ → ℕ) (hash : Info → Option ℕ) (d : ℕ) (pl : ℤ) (blob : Blob)
    → (blob.broken ≡ true) ⊎ (is_positive pl ≡ false)
    → new_meta_info sum hash d blob pl
      ≡ error (if is_positive pl then read_blob else piece_length_not_positive)
unfolding new_meta_info calc_piece_sums
new_meta_info_refused sum hash d (negsuc n) blob bad = refl
new_meta_info_refused sum hash d (pos pl) blob bad = elim (Bool-cases (pl == 0)) [
  | inl zero_length ↦ ground arith
  | inr positive ↦
      let read : blob.broken ≡ true = ground (arith, bad, positive) in
      ground (
        arith,
        positive,
        sums_loop_broken sum pl (suc (length blob.bytes)) blob 0 [] (ground (arith, positive)) read
            (omega arith),
      )
]
