-- ===== src/Prelude/Maps.antt =====
-- `HashMap` as an association list: presence of a key, updates in place, and the size of a map.
use mathlib.Core.Option
use bridgeos.Prelude.{
  if◌then◌else◌, Bool-cases, length, Key, member, remove_member, member-remove_member, lookup,
  insert, remove, ◌≤◌, ◌<◌, ◌≡◌, refl, ap, ◌∙◌, subst, inl, inr, Bool, true, false, ◌&&◌, ◌||◌,
  List, [], ◌∷◌, arith, bytes_key,
}

module _ {K V : Type 0} ⦃k : Key K⦄ where
  -- `HashMap::contains_key`
  unfoldable pub contains_key : K → List (K × V) → Bool
  contains_key a [] = false
  contains_key a ((j, v) ∷ m) = k.same j a || contains_key a m

  -- A change through `HashMap::get_mut`.
  unfoldable pub adjust : K → (V → V) → List (K × V) → List (K × V)
  adjust a f [] = []
  adjust a f ((j, v) ∷ m) = if k.same j a then (j, f v) ∷ m else (j, v) ∷ adjust a f m

  -- `HashMap::retain`, by the key
  unfoldable pub retain : (K → Bool) → List (K × V) → List (K × V)
  retain f [] = []
  retain f ((j, v) ∷ m) = let rest = retain f m in if f j then (j, v) ∷ rest else rest

  abbrev pub DistinctKeys : List (K × V) → Type 0
  DistinctKeys [] = Unit {0}
  DistinctKeys ((j, v) ∷ m) = (contains_key j m ≡ false) × DistinctKeys m

  pub contains_key-insert :
      (a b : K) (v : V) (m : List (K × V))
      → contains_key b (insert a v m) ≡ (k.same a b || contains_key b m)
  unfolding contains_key insert
  contains_key-insert a b v [] = refl
  contains_key-insert a b v ((j, w) ∷ m) =
      ground (arith, k.same_iff a b, k.same_iff j a, k.same_iff j b, contains_key-insert a b v m)

  pub contains_key-remove :
      (a b : K) (m : List (K × V))
      → contains_key b (remove a m) ≡ (if k.same a b then false else contains_key b m)
  unfolding contains_key remove
  contains_key-remove a b [] = ground arith
  contains_key-remove a b ((j, w) ∷ m) =
      ground (arith, k.same_iff a b, k.same_iff j a, k.same_iff j b, contains_key-remove a b m)

  pub contains_key-adjust :
      (a b : K) (f : V → V) (m : List (K × V)) → contains_key b (adjust a f m) ≡ contains_key b m
  unfolding contains_key adjust
  contains_key-adjust a b f [] = refl
  contains_key-adjust a b f ((j, w) ∷ m) = ground (arith, contains_key-adjust a b f m)

  pub contains_key-retain :
      (f : K → Bool) (b : K) (m : List (K × V))
      → contains_key b (retain f m) ≡ (f b && contains_key b m)
  unfolding contains_key retain
  contains_key-retain f b [] = ground arith
  contains_key-retain f b ((j, w) ∷ m) =
      ground (arith, k.same_iff j b, λ (e : j ≡ b). ap f e, contains_key-retain f b m)

  pub DistinctKeys-insert :
      (a : K) (v : V) (m : List (K × V)) → DistinctKeys m → DistinctKeys (insert a v m)
  unfolding contains_key insert
  DistinctKeys-insert a v [] d = (refl, tt)
  DistinctKeys-insert a v ((j, w) ∷ m) d = elim (Bool-cases (k.same j a)) [
    | inl e ↦ rw e (subst (λ x. contains_key x m ≡ false) ((k.same_iff j a).0 e) d.0, d.1)
    | inr e ↦ rw e (
      ground (arith, contains_key-insert a j v m, d.0, k.same_iff a j, k.same_iff j a, e),
      DistinctKeys-insert a v m d.1,
    )
  ]

  pub DistinctKeys-remove : (a : K) (m : List (K × V)) → DistinctKeys m → DistinctKeys (remove a m)
  unfolding contains_key remove
  DistinctKeys-remove a [] d = tt
  DistinctKeys-remove a ((j, w) ∷ m) d = elim (Bool-cases (k.same j a)) [
    | inl e ↦ rw e (DistinctKeys-remove a m d.1)
    | inr e ↦ rw e (ground (arith, contains_key-remove a j m, d.0), DistinctKeys-remove a m d.1)
  ]

  pub DistinctKeys-adjust :
      (a : K) (f : V → V) (m : List (K × V)) → DistinctKeys m → DistinctKeys (adjust a f m)
  unfolding contains_key adjust
  DistinctKeys-adjust a f [] d = tt
  DistinctKeys-adjust a f ((j, w) ∷ m) d = elim (Bool-cases (k.same j a)) [
    | inl e ↦ rw e d
    | inr e ↦ rw e (contains_key-adjust a j f m ∙ d.0, DistinctKeys-adjust a f m d.1)
  ]

  pub DistinctKeys-retain :
      (f : K → Bool) (m : List (K × V)) → DistinctKeys m → DistinctKeys (retain f m)
  unfolding contains_key retain
  DistinctKeys-retain f [] d = tt
  DistinctKeys-retain f ((j, w) ∷ m) d = elim (Bool-cases (f j)) [
    | inl e ↦ rw e (ground (arith, contains_key-retain f j m, d.0), DistinctKeys-retain f m d.1)
    | inr e ↦ rw e (DistinctKeys-retain f m d.1)
  ]

  pub lookup-adjust :
      (a b : K) (f : V → V) (m : List (K × V))
      → lookup b (adjust a f m) ≡ (if k.same a b then Option.map f (lookup b m) else lookup b m)
  unfolding lookup adjust
  lookup-adjust a b f [] = ground arith
  lookup-adjust a b f ((j, w) ∷ m) =
      ground (arith, k.same_iff a b, k.same_iff j a, k.same_iff j b, lookup-adjust a b f m)

module _ {K : Type 0} ⦃k : Key K⦄ where
  length-remove_member : (a : K) (xs : List K) → length (remove_member a xs) ≤ length xs
  unfolding remove_member
  length-remove_member a [] = omega arith
  length-remove_member a (x ∷ xs) = ground (arith, length-remove_member a xs)

  length-remove_member_found :
      (a : K) (xs : List K) → member a xs ≡ true → length (remove_member a xs) < length xs
  unfolding member remove_member
  length-remove_member_found a [] h = cc
  length-remove_member_found a (x ∷ xs) h =
      ground (arith, length-remove_member a xs, length-remove_member_found a xs)

module _ {K V : Type 0} ⦃k : Key K⦄ where
  -- A map whose keys all stand in a list is no larger than the list.
  pub length-within :
      (m : List (K × V)) (ys : List K)
      → DistinctKeys m
      → ((a : K) → contains_key a m ≡ true → member a ys ≡ true)
      → length m ≤ length ys
  unfolding contains_key
  length-within [] ys d h = omega arith
  length-within ((j, v) ∷ m) ys d h = omega (
    arith,
    length-within m (remove_member j ys) d.1 rest,
    length-remove_member_found j ys (h j (ground (arith, k.same_iff j j))),
  )
    where
      rest : (a : K) → contains_key a m ≡ true → member a (remove_member j ys) ≡ true
      rest a e = ground (arith, member-remove_member j a ys, h a, k.same_iff j a, d.0, e)
