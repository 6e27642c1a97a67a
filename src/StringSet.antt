-- ===== src/StringSet.antt =====
-- utils/stringset/stringset.go: sets of strings, which are numbered. A loop over a set runs in the
-- order of the list.
pub mod Members
mod Tests
use kraken.Base.{
  ℕ, zero, suc, Bool, true, false, Option, none, some, List, [], ◌∷◌, if◌then◌else◌, ◌==◌, Map, get,
  put, del, has, size,
}

abbrev pub StringSet : Type 0
StringSet = Map (Unit {0})

abbrev pub insert : ℕ → StringSet → StringSet
insert x s = put x tt s

abbrev pub remove : ℕ → StringSet → StringSet
remove x s = del x s

insert_all : List ℕ → StringSet → StringSet
insert_all [] s = s
insert_all (x ∷ xs) s = insert_all xs (insert x s)

unfoldable pub from_slice : List ℕ → StringSet
unfolding insert_all
from_slice xs = insert_all xs []

-- The loops of `Sub` and `Copy`.
sub_loop : StringSet → StringSet → StringSet → StringSet
sub_loop [] s2 result = result
sub_loop ((x, u) ∷ s) s2 result = sub_loop s s2 (if has x s2 then result else insert x result)

unfoldable pub sub : StringSet → StringSet → StringSet
unfolding sub_loop
sub s s2 = sub_loop s s2 []

unfoldable pub to_slice : StringSet → List ℕ
to_slice [] = []
to_slice ((x, u) ∷ s) = x ∷ to_slice s

unfoldable pub subset_loop : StringSet → StringSet → Bool
subset_loop [] s2 = true
subset_loop ((x, u) ∷ s) s2 = if has x s2 then subset_loop s s2 else false

unfoldable pub equal : StringSet → StringSet → Bool
unfolding subset_loop
equal s1 s2 = if size s1 == size s2 then subset_loop s1 s2 else false

unfoldable pub copy_loop : StringSet → StringSet → StringSet
copy_loop [] c = c
copy_loop ((x, u) ∷ s) c = copy_loop s (insert x c)

unfoldable pub copy : StringSet → StringSet
unfolding copy_loop
copy s = copy_loop s []

-- `none` is the error for an empty set.
unfoldable pub random : StringSet → Option ℕ
random [] = none
random ((x, u) ∷ s) = some x

sample_loop : ℕ → StringSet → StringSet → StringSet
sample_loop zero s c = c
sample_loop (suc n) [] c = c
sample_loop (suc n) ((x, u) ∷ s) c = sample_loop n s (insert x c)

-- `Sample` builds a set of `n` elements, and returns the whole set.
unfoldable pub sample : ℕ → StringSet → StringSet
unfolding sample_loop
sample n s = let c = sample_loop n s [] in s
