-- ===== src/Prelude/Collections.antt =====
-- `HashSet` and `HashMap`, as lists whose order means nothing, and laws in `if` form.
use mathlib.Core.Path.{◌≡◌, refl}
use mathlib.Core.Bool.{Bool, false, ◌||◌}
use mathlib.Core.Option.{Option, none, some}
use mathlib.Core.List.{List, [], ◌∷◌, ◌++◌}
use native.Mathlib.Omega.{arith}
use bridgeos.Prelude.Tests.{if◌then◌else◌}
use bridgeos.Prelude.Keys.{Key}

module _ {K : Type 0} ⦃k : Key K⦄ where
  unfoldable pub member : K → List K → Bool
  member a [] = false
  member a (x ∷ xs) = k.same x a || member a xs

  -- `HashSet::insert`
  unfoldable pub insert_member : K → List K → List K
  insert_member a xs = if member a xs then xs else a ∷ xs

  -- `HashSet::remove`
  unfoldable pub remove_member : K → List K → List K
  remove_member a [] = []
  remove_member a (x ∷ xs) = let rest = remove_member a xs in if k.same x a then rest else x ∷ rest

  pub member-append : (a : K) (xs ys : List K) → member a (xs ++ ys) ≡ (member a xs || member a ys)
  unfolding member
  member-append a [] ys = refl
  member-append a (x ∷ xs) ys = ground (arith, member-append a xs ys)

  pub member-insert_member :
      (a b : K) (xs : List K) → member b (insert_member a xs) ≡ (k.same a b || member b xs)
  unfolding member insert_member
  member-insert_member a b xs = ground (arith, k.same_iff a b)

  pub member-remove_member :
      (a b : K) (xs : List K)
      → member b (remove_member a xs) ≡ (if k.same a b then false else member b xs)
  unfolding member remove_member
  member-remove_member a b [] = ground arith
  member-remove_member a b (x ∷ xs) =
      ground (arith, k.same_iff a b, k.same_iff x a, k.same_iff x b, member-remove_member a b xs)

module _ {K V : Type 0} ⦃k : Key K⦄ where
  -- `HashMap::get`
  unfoldable pub lookup : K → List (K × V) → Option V
  lookup a [] = none
  lookup a ((j, v) ∷ m) = if k.same j a then some v else lookup a m

  -- `HashMap::insert`
  unfoldable pub insert : K → V → List (K × V) → List (K × V)
  insert a v [] = (a, v) ∷ []
  insert a v ((j, w) ∷ m) = if k.same j a then (a, v) ∷ m else (j, w) ∷ insert a v m

  -- `HashMap::remove`
  unfoldable pub remove : K → List (K × V) → List (K × V)
  remove a [] = []
  remove a ((j, v) ∷ m) = let rest = remove a m in if k.same j a then rest else (j, v) ∷ rest

  pub lookup-insert :
      (a b : K) (v : V) (m : List (K × V))
      → lookup b (insert a v m) ≡ (if k.same a b then some v else lookup b m)
  unfolding lookup insert
  lookup-insert a b v [] = refl
  lookup-insert a b v ((j, w) ∷ m) =
      ground (arith, k.same_iff a b, k.same_iff j a, k.same_iff j b, lookup-insert a b v m)

  pub lookup-remove :
      (a b : K) (m : List (K × V))
      → lookup b (remove a m) ≡ (if k.same a b then none else lookup b m)
  unfolding lookup remove
  lookup-remove a b [] = ground arith
  lookup-remove a b ((j, w) ∷ m) =
      ground (arith, k.same_iff a b, k.same_iff j a, k.same_iff j b, lookup-remove a b m)
