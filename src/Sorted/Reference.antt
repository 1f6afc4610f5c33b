-- ===== src/Sorted/Reference.antt =====
-- The reference for a sorted list: the ascending rearrangement of its nodes, by insertion.
use mathlib.Core.List.{Perm}
use mathlib.Core.List.Perm
use fcache.Base.{◌≡◌, refl, List, [], ◌∷◌, if◌then◌else◌, Bool-cases, inl, inr}
use fcache.Value.{ListValue, IsTotal}
use fcache.Sorted.{IsSorted, IsBelow-trans}
use fcache.Sorted.Unique.{IsBelow-perm, IsSorted-unique}

module _ {A : Type 0} ⦃o : ListValue A⦄ where
  unfoldable insert : A → List A → List A
  insert x [] = x ∷ []
  insert x (y ∷ ys) = if o.lt y x then y ∷ insert x ys else x ∷ y ∷ ys

  unfoldable pub sort : List A → List A
  unfolding insert
  sort [] = []
  sort (x ∷ xs) = insert x (sort xs)

  insert-perm : (x : A) (xs : List A) → Perm (insert x xs) (x ∷ xs)
  unfolding insert
  insert-perm x [] = Perm.rfl
  insert-perm x (y ∷ ys) = elim (Bool-cases (o.lt y x)) [
    | inl e ↦ rw e (Perm.trans (Perm.cons' refl (insert-perm x ys)) (Perm.swap x y ys))
    | inr e ↦ rw e Perm.rfl
  ]

  insert-IsSorted : (x : A) (xs : List A) → IsSorted xs → IsSorted (insert x xs)
  unfolding insert
  insert-IsSorted x [] s = (tt, tt)
  insert-IsSorted x (y ∷ ys) s = elim (Bool-cases (o.lt y x)) [
    | inl e ↦ rw e (
      IsBelow-perm y (x ∷ ys) (insert x ys) (Perm.symm (insert-perm x ys)) (o.lt_asymm y x e, s.0),
      insert-IsSorted x ys s.1,
    )
    | inr e ↦ rw e ((e, IsBelow-trans x y ys e s.0), s)
  ]

  pub sort-perm : (xs : List A) → Perm (sort xs) xs
  unfolding sort
  sort-perm [] = Perm.rfl
  sort-perm (x ∷ xs) = Perm.trans (insert-perm x (sort xs)) (Perm.cons' refl (sort-perm xs))

  pub sort-IsSorted : (xs : List A) → IsSorted (sort xs)
  unfolding sort
  sort-IsSorted [] = tt
  sort-IsSorted (x ∷ xs) = insert-IsSorted x (sort xs) (sort-IsSorted xs)

  -- An ascending rearrangement is the sorted list.
  pub sort_unique : IsTotal A o → (xs ys : List A) → IsSorted xs → Perm xs ys → xs ≡ sort ys
  sort_unique total xs ys s p =
      IsSorted-unique total xs (sort ys) s (sort-IsSorted ys)
        (Perm.trans p (Perm.symm (sort-perm ys)))
