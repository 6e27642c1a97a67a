-- ===== src/MetaInfo.antt =====
-- core/metainfo.go: the pieces of a blob. A blob is its bytes, with a mark for a reader that fails
-- after them instead of ending. `sum` is the piece hash, `hash` the info hash of the encoded info,
-- both of libraries; the digest of a blob is the number that it spells.
pub mod Pieces
mod Tests
use kraken.Base.{
  ℤ, pos, negsuc, ℕ, zero, suc, ◌+◌, ◌-◌, ◌*◌, Bool, true, false, Option, none, some, List, [], ◌∷◌,
  ◌++◌, if◌then◌else◌, ◌==◌, ◌&&◌, ◌||◌, ltb, leb, length, take, drop, get_elem?, get_or,
}

pub record Info : Type 0 where
  pub piece_length : ℕ
  pub piece_sums : List ℕ
  pub name : ℕ
  pub length : ℕ

pub record MetaInfo : Type 0 where
  pub info : Info
  pub info_hash : ℕ
  pub digest : ℕ

pub record Blob : Type 0 where
  pub bytes : List ℕ
  pub broken : Bool

-- The errors: the piece length is not positive, the reader fails, the encoding behind `hash` fails.
pub data Failure : Type 0 where
  piece_length_not_positive read_blob compute_info_hash : Failure

-- What a call gives; where a loop runs out of fuel, it gives nothing.
pub data Result (A : Type 0) : Type 0 where
  ok : A → Result A
  error : Failure → Result A
  out_of_fuel : Result A

-- The loop of `calcPieceSums`. A round reads at most one piece. A round that does not end the loop
-- takes a whole piece off, so fuel above the blob's length is enough.
unfoldable pub sums_loop : (List ℕ → ℕ) → ℕ → ℕ → Blob → ℕ → List ℕ → Result (ℕ × List ℕ)
sums_loop sum piece_length zero blob total sums = out_of_fuel
sums_loop sum piece_length (suc fuel) blob total sums =
    let chunk = take piece_length blob.bytes in
    let n = length chunk in
    let rest =
      sums_loop sum piece_length fuel (record blob { bytes = drop piece_length blob.bytes })
        (total + n) (sums ++ sum chunk ∷ []) in
    if ltb n piece_length && blob.broken
    then error read_blob
    else if n == 0
    then ok (total, sums)
    else if ltb n piece_length
    then ok (total + n, sums ++ sum chunk ∷ [])
    else rest

-- The piece length is a signed number.
unfoldable pub calc_piece_sums : (List ℕ → ℕ) → Blob → ℤ → Result (ℕ × List ℕ)
unfolding sums_loop
calc_piece_sums sum blob (negsuc n) = error piece_length_not_positive
calc_piece_sums sum blob (pos piece_length) =
    if piece_length == 0
    then error piece_length_not_positive
    else sums_loop sum piece_length (suc (length blob.bytes)) blob 0 []

-- A number that is positive, where it is read.
abbrev magnitude : ℤ → ℕ
magnitude (pos n) = n
magnitude (negsuc n) = suc n

unfoldable pub new_meta_info : (List ℕ → ℕ) → (Info → Option ℕ) → ℕ → Blob → ℤ → Result MetaInfo
unfolding calc_piece_sums
new_meta_info sum hash d blob piece_length = elim (calc_piece_sums sum blob piece_length) [
  | out_of_fuel ↦ out_of_fuel
  | error e ↦ error e
  | ok (total, sums) ↦
      let info : Info = record {
        piece_length = magnitude piece_length;
        piece_sums = sums;
        name = d;
        length = total;
      } in
      elim (hash info) [
        | none ↦ error compute_info_hash
        | some h ↦ ok (record { info = info; info_hash = h; digest = d })
      ]
]

abbrev pub num_pieces : MetaInfo → ℕ
num_pieces mi = length mi.info.piece_sums

-- The last piece may be shorter; out of range the length is 0.
unfoldable pub get_piece_length : MetaInfo → ℕ → ℕ
get_piece_length mi i =
    if leb (num_pieces mi) i
    then 0
    else if i + 1 == num_pieces mi
    then mi.info.length - mi.info.piece_length * i
    else mi.info.piece_length

-- `none` is the panic of an index out of range.
unfoldable pub get_piece_sum : MetaInfo → ℕ → Option ℕ
get_piece_sum mi i = get_elem? mi.info.piece_sums i
