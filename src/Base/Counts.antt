-- ===== src/Base/Counts.antt =====
-- Counting by a Boolean test, and the removal that moves the last element into the hole.
use Prim.Native.Nat.{ℕ, zero, suc, ◌+◌, ◌<◌}
use mathlib.Core.Path.{◌≡◌, refl, ap}
use mathlib.Core.Bool.{Bool, true}
use mathlib.Core.List.{List, [], ◌∷◌, ◌++◌}
use mathlib.Core.Option.{some}
use native.Mathlib.Omega.{arith}
use event_api.Base.Tests.{if◌then◌else◌}
use event_api.Base.Lists.{length, get_elem?, set}

module _ {ℓ} {A : Type ℓ} where
  -- How many elements pass the test.
  unfoldable pub occurrences : (A → Bool) → List A → ℕ
  occurrences p [] = 0
  occurrences p (x ∷ xs) = (if p x then 1 else 0) + occurrences p xs

  pub occurrences-append :
      (p : A → Bool) (xs ys : List A)
      → occurrences p (xs ++ ys) ≡ occurrences p xs + occurrences p ys
  unfolding occurrences
  occurrences-append p [] ys = omega arith
  occurrences-append p (x ∷ xs) ys = omega (arith, occurrences-append p xs ys)

  pub get_elem?-occurrences :
      (p : A → Bool) (xs : List A) (i : ℕ) {x : A}
      → get_elem? xs i ≡ some x
      → p x ≡ true
      → 0 < occurrences p xs
  unfolding occurrences
  get_elem?-occurrences p [] i e h = absurd (ground arith)
  get_elem?-occurrences p (y ∷ xs) zero e h = ground arith
  get_elem?-occurrences p (y ∷ xs) (suc i) e h = omega (arith, get_elem?-occurrences p xs i e h)

  pub occurrences-set :
      (p : A → Bool) (xs : List A) (i : ℕ) (v : A) {x : A}
      → get_elem? xs i ≡ some x
      → occurrences p (set xs i v) + (if p x then 1 else 0)
        ≡ occurrences p xs + (if p v then 1 else 0)
  unfolding occurrences
  occurrences-set p [] i v e = absurd (ground arith)
  occurrences-set p (y ∷ xs) zero v e = ground arith
  occurrences-set p (y ∷ xs) (suc i) v e = omega (arith, occurrences-set p xs i v e)

  abbrev pub last_or : A → List A → A
  last_or d [] = d
  last_or d (x ∷ xs) = last_or x xs

  -- `s[:len(s)-1]`
  abbrev pub init : List A → List A
  init [] = []
  init (x ∷ []) = []
  init (x ∷ y ∷ xs) = x ∷ init (y ∷ xs)

  -- `s[i] = s[len(s)-1]`
  abbrev pub move_last : List A → ℕ → List A
  move_last [] i = []
  move_last (x ∷ xs) i = set (x ∷ xs) i (last_or x xs)

  -- `s[i] = s[len(s)-1]; return s[:len(s)-1]`
  abbrev pub swap_remove : List A → ℕ → List A
  swap_remove xs i = init (move_last xs i)

  occurrences-init :
      (p : A → Bool) (x : A) (xs : List A)
      → occurrences p (init (x ∷ xs)) + (if p (last_or x xs) then 1 else 0) ≡ occurrences p (x ∷ xs)
  unfolding occurrences
  occurrences-init p x [] = omega arith
  occurrences-init p x (y ∷ xs) = omega (arith, occurrences-init p y xs)

  last_or-set : (d : A) (xs : List A) (i : ℕ) → last_or d (set xs i (last_or d xs)) ≡ last_or d xs
  last_or-set d [] i = refl
  last_or-set d (x ∷ []) zero = refl
  last_or-set d (x ∷ y ∷ xs) zero = refl
  last_or-set d (x ∷ xs) (suc i) = last_or-set x xs i

  -- The removal takes away the element at the index, and nothing else.
  pub occurrences-swap_remove :
      (p : A → Bool) (xs : List A) (i : ℕ) {x : A}
      → get_elem? xs i ≡ some x
      → occurrences p (swap_remove xs i) + (if p x then 1 else 0) ≡ occurrences p xs
  unfolding occurrences
  occurrences-swap_remove p [] i e = absurd (ground arith)
  occurrences-swap_remove p (y ∷ []) zero e = ground arith
  occurrences-swap_remove p (y ∷ z ∷ xs) zero e =
      ground (arith, occurrences-init p (last_or z xs) (z ∷ xs))
  occurrences-swap_remove p (y ∷ xs) (suc i) {x} e =
      let v = last_or y xs in
      ground (
        arith,
        occurrences-init p y (set xs i v),
        occurrences-set p xs i v e,
        ap p (last_or-set y xs i),
      )

  length-init : (x : A) (xs : List A) → length (init (x ∷ xs)) + 1 ≡ length (x ∷ xs)
  length-init x [] = omega arith
  length-init x (y ∷ xs) = omega (arith, length-init y xs)
