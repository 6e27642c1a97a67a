-- ===== src/Base/Maps.antt =====
-- Go's maps with comparable keys, as association lists over numbered keys. `put` overwrites in
-- place, `del` removes the key, and `get` of a missing key is `none`. `size` is Go's `len`.
use Prim.Native.Nat.{ℕ, suc, ◌≤◌, ◌<◌}
use mathlib.Core.Path.{◌≡◌, refl}
use mathlib.Core.List.{List, [], ◌∷◌, map}
use mathlib.Core.Bool.{Bool}
use mathlib.Core.Option.{Option, none, some}
use native.Mathlib.Omega.{arith}
use kraken.Base.Tests.{if◌then◌else◌, ◌==◌, is_some}
use kraken.Base.Lists.{length}

abbrev pub Map {ℓ} : Type ℓ → Type ℓ
Map V = List (ℕ × V)

module _ {ℓ} {V : Type ℓ} where
  unfoldable pub get : ℕ → Map V → Option V
  get k [] = none
  get k ((j, v) ∷ m) = if j == k then some v else get k m

  unfoldable pub put : ℕ → V → Map V → Map V
  put k v [] = (k, v) ∷ []
  put k v ((j, w) ∷ m) = if j == k then (k, v) ∷ m else (j, w) ∷ put k v m

  unfoldable pub del : ℕ → Map V → Map V
  del k [] = []
  del k ((j, w) ∷ m) = if j == k then del k m else (j, w) ∷ del k m

  abbrev pub has : ℕ → Map V → Bool
  has k m = is_some (get k m)

  abbrev pub size : Map V → ℕ
  size m = length m

  abbrev pub keys : Map V → List ℕ
  keys = map (λ e. e.0)

  -- No key stands twice.
  abbrev pub Distinct : Map V → Type ℓ
  Distinct [] = Unit
  Distinct ((k, v) ∷ m) = (get k m ≡ none) × Distinct m

  pub get-put :
      (k j : ℕ) (v : V) (m : Map V) → get j (put k v m) ≡ (if k == j then some v else get j m)
  unfolding get put
  get-put k j v [] = refl
  get-put k j v ((i, w) ∷ m) = ground (arith, get-put k j v m)

  pub get-del : (k j : ℕ) (m : Map V) → get j (del k m) ≡ (if k == j then none else get j m)
  unfolding get del
  get-del k j [] = ground arith
  get-del k j ((i, w) ∷ m) = ground (arith, get-del k j m)

  pub put-Distinct : (k : ℕ) (v : V) (m : Map V) → Distinct m → Distinct (put k v m)
  unfolding get put
  put-Distinct k v [] d = (refl, tt)
  put-Distinct k v ((i, w) ∷ m) d = ground (arith, put-Distinct k v m d.1, get-put k i v m)

  pub del-Distinct : (k : ℕ) (m : Map V) → Distinct m → Distinct (del k m)
  unfolding get del
  del-Distinct k [] d = tt
  del-Distinct k ((i, w) ∷ m) d = ground (arith, del-Distinct k m d.1, get-del k i m)

  -- A write adds one entry exactly when the key is new.
  pub size-put :
      (k : ℕ) (v : V) (m : Map V) → size (put k v m) ≡ (if has k m then size m else suc (size m))
  unfolding get put
  size-put k v [] = refl
  size-put k v ((i, w) ∷ m) = ground (arith, size-put k v m)

  pub del_absent : (k : ℕ) (m : Map V) → get k m ≡ none → del k m ≡ m
  unfolding get del
  del_absent k [] h = refl
  del_absent k ((i, w) ∷ m) h = ground (arith, del_absent k m)

  -- A deletion takes one entry exactly when the key is there.
  pub size-del :
      (k : ℕ) (m : Map V)
      → Distinct m
      → size m ≡ (if has k m then suc (size (del k m)) else size (del k m))
  unfolding get del
  size-del k [] d = refl
  size-del k ((i, w) ∷ m) d = ground (arith, size-del k m d.1, del_absent k m)

  pub size-del-le : (k : ℕ) (m : Map V) → size (del k m) ≤ size m
  unfolding del
  size-del-le k [] = omega arith
  size-del-le k ((i, w) ∷ m) = ground (arith, size-del-le k m)

  pub size_pos : (k : ℕ) (m : Map V) {v : V} → get k m ≡ some v → 0 < size m
  unfolding get
  size_pos k [] h = ground arith
  size_pos k ((i, w) ∷ m) h = omega arith
