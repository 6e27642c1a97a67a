-- ===== src/MetaInfo/Tests.antt =====
-- A blob of five bytes in pieces of two.
use kraken.Base.{
  pos, negsuc, ℕ, ◌+◌, List, [], ◌∷◌, Option, some, true, false, ◌≡◌, refl, inl, arith,
}
use kraken.MetaInfo.{
  Info, MetaInfo, ok, error, piece_length_not_positive, read_blob, new_meta_info, get_piece_length,
}
use kraken.MetaInfo.Pieces.{Describes, new_meta_info-Describes, new_meta_info_refused}

abbrev sum : List ℕ → ℕ
sum [] = 0
sum (x ∷ xs) = x + sum xs

abbrev hash : Info → Option ℕ
hash info = some 77

abbrev bytes : List ℕ
bytes = 1 ∷ 2 ∷ 3 ∷ 4 ∷ 5 ∷ []

abbrev described : MetaInfo
described = record {
  info = record { piece_length = 2; piece_sums = 3 ∷ 7 ∷ 5 ∷ []; name = 9; length = 5 };
  info_hash = 77;
  digest = 9;
}

five_bytes :
    new_meta_info sum hash 9 (record { bytes = bytes; broken = false }) (pos 2) ≡ ok described
unfolding new_meta_info
five_bytes = refl

last_piece : get_piece_length described 2 ≡ 1
unfolding get_piece_length
last_piece = refl

new_meta_info-Describes_example :
    (mi : MetaInfo) × (new_meta_info sum hash 9 (record { bytes = bytes; broken = false }) (pos 2)
      ≡ ok mi)
    × (mi.digest ≡ 9)
    × Describes sum 2 bytes mi
new_meta_info-Describes_example =
    new_meta_info-Describes sum hash 9 2 bytes (omega arith) (λ info. (77, refl))

new_meta_info_refused_example :
    new_meta_info sum hash 9 (record { bytes = bytes; broken = true }) (pos 2) ≡ error read_blob
new_meta_info_refused_example =
    new_meta_info_refused sum hash 9 (pos 2) (record { bytes = bytes; broken = true }) (inl refl)

negative_length :
    new_meta_info sum hash 9 (record { bytes = bytes; broken = false }) (negsuc 0)
    ≡ error piece_length_not_positive
unfolding new_meta_info
negative_length = refl
