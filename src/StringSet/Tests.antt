-- ===== src/StringSet/Tests.antt =====
-- Runs of the operations on sets, and the theorem on `Equal` at two sets.
use kraken.Base.{[], ◌∷◌, ◌≡◌, refl, get, put}
use kraken.StringSet.{
  StringSet, from_slice, insert_all, equal, subset_loop, sample, sample_loop, sub, sub_loop,
}

abbrev one_two : StringSet
one_two = (1, tt) ∷ (2, tt) ∷ []

abbrev two_one : StringSet
two_one = (2, tt) ∷ (1, tt) ∷ []

program : Unit {0}
unfolding from_slice insert_all equal subset_loop sample sample_loop sub sub_loop get put
program = tt

built : from_slice (2 ∷ 1 ∷ 2 ∷ []) ≡ two_one
unfolding program
built = refl

sampled_all : sample 1 one_two ≡ one_two
unfolding program
sampled_all = refl

left : sub one_two ((2, tt) ∷ []) ≡ (1, tt) ∷ []
unfolding program
left = refl
