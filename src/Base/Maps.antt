-- ===== src/Base/Maps.antt =====
-- Go maps: association lists over a key with a decidable equality, read by the library's `lookup`.
-- The order of the entries is the order of iteration.
use mathlib.Core.Path.{◌≡◌, refl}
use mathlib.Core.Logic.{ite}
use mathlib.Core.List.{List, [], ◌∷◌, lookup}
use mathlib.Core.Option.{Option, none, some}
use native.Mathlib.Omega.{arith}

abbrev pub Map {ℓ} : Type ℓ → Type ℓ → Type ℓ
Map K V = List (K × V)

module _ {ℓ} {K V : Type ℓ} (dec : Discrete K) where
  -- `m[k] = v`
  unfoldable pub insert : K → V → Map K V → Map K V
  insert k v [] = (k, v) ∷ []
  insert k v ((j, w) ∷ m) = ite (dec k j) ((k, v) ∷ m) ((j, w) ∷ insert k v m)

  -- `delete(m, k)`
  unfoldable pub delete : K → Map K V → Map K V
  delete k [] = []
  delete k ((j, w) ∷ m) = ite (dec k j) (delete k m) ((j, w) ∷ delete k m)

  pub lookup-insert :
      (k j : K) (v : V) (m : Map K V)
      → lookup dec j (insert k v m) ≡ ite (dec j k) (some v) (lookup dec j m)
  unfolding lookup insert
  lookup-insert k j v [] = refl
  lookup-insert k j v ((i, w) ∷ m) = ground (arith, lookup-insert k j v m)

  pub lookup-delete :
      (k j : K) (m : Map K V) → lookup dec j (delete k m) ≡ ite (dec j k) none (lookup dec j m)
  unfolding lookup delete
  lookup-delete k j [] = ground arith
  lookup-delete k j ((i, w) ∷ m) = ground (arith, lookup-delete k j m)

abbrev pub entries {ℓ} : {V : Type ℓ} → Option (List V) → List V
entries none = []
entries (some l) = l

module _ {ℓ} {K V : Type ℓ} (dec : Discrete K) where
  -- `m[k]` of a map of slices: a missing key reads as the nil slice.
  abbrev pub get_list : K → Map K (List V) → List V
  get_list k m = entries (lookup dec k m)

  pub get_list-insert :
      (k j : K) (v : List V) (m : Map K (List V))
      → get_list j (insert dec k v m) ≡ ite (dec j k) v (get_list j m)
  get_list-insert k j v m = ground (arith, lookup-insert dec k j v m)

  pub get_list-delete :
      (k j : K) (m : Map K (List V)) → get_list j (delete dec k m) ≡ ite (dec j k) [] (get_list j m)
  get_list-delete k j m = ground (arith, lookup-delete dec k j m)

pub ruleset maps = (lookup-insert, lookup-delete)
