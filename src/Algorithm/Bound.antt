-- ===== src/Algorithm/Bound.antt =====
-- Insertion at `lower_bound`, and the removal of `equal_range`, on ascending lists.
use mathlib.Core.List.{Perm, perm_middle}
use fcache.Base.{
  ℕ, ◌≤◌, ◌≡◌, refl, subst, List, [], ◌∷◌, true, arith, take, drop, length, take-append-drop,
}
use fcache.Value.{ListValue}
use fcache.Sorted.{
  All, All-imp, Le, IsBelow, IsSorted, IsSorted-append, IsSorted-take, IsSorted-drop, IsBelow-trans,
}
use fcache.Algorithm.{emplace, erase, remove_if, lower_bound, upper_bound}

module _ {A : Type 0} ⦃o : ListValue A⦄ where
  pub lower_bound-le : (xs : List A) (v : A) → lower_bound xs v ≤ length xs
  unfolding lower_bound
  lower_bound-le [] v = omega arith
  lower_bound-le (x ∷ xs) v = ground (arith, lower_bound-le xs v)

  -- What stands before the bound is not after the value.
  pub take-lower_bound : (xs : List A) (v : A) → All (λ x. Le x v) (take (lower_bound xs v) xs)
  unfolding lower_bound
  take-lower_bound [] v = tt
  take-lower_bound (x ∷ xs) v = ground (arith, take-lower_bound xs v, o.lt_asymm x v)

  -- What stands behind it is not before the value.
  pub drop-lower_bound :
      (xs : List A) (v : A) → IsSorted xs → IsBelow v (drop (lower_bound xs v) xs)
  unfolding lower_bound
  drop-lower_bound [] v s = tt
  drop-lower_bound (x ∷ xs) v s = ground (arith, drop-lower_bound xs v, IsBelow-trans v x xs)

  pub emplace-perm : (it : ℕ) (v : A) (xs : List A) → Perm (emplace it v xs) (v ∷ xs)
  emplace-perm it v xs =
      subst (λ l. Perm (emplace it v xs) (v ∷ l)) (take-append-drop it xs)
        (perm_middle {a = v} (take it xs) (drop it xs))

  -- A value goes to any place that has no greater value before it and no less one behind it.
  pub emplace-IsSorted :
      (it : ℕ) (v : A) (xs : List A)
      → IsSorted xs
      → All (λ x. Le x v) (take it xs)
      → IsBelow v (drop it xs)
      → IsSorted (emplace it v xs)
  emplace-IsSorted it v xs s before behind =
      IsSorted-append (take it xs) (v ∷ drop it xs) (IsSorted-take it xs s)
        (behind, IsSorted-drop it xs s)
        (All-imp (λ x. Le x v) (λ x. IsBelow x (v ∷ drop it xs))
          (λ x h. (h, IsBelow-trans x v (drop it xs) h behind)) (take it xs) before)

  lower_bound_zero : (xs : List A) (v : A) → IsBelow v xs → lower_bound xs v ≡ 0
  unfolding lower_bound
  lower_bound_zero [] v h = refl
  lower_bound_zero (x ∷ xs) v h = rw h.0

  remove_if_above :
      (xs : List A) (x v : A) → o.lt v x ≡ true → IsBelow x xs → remove_if (λ y. o.eq y v) xs ≡ xs
  remove_if_above [] x v h b = refl
  remove_if_above (y ∷ xs) x v h b =
      ground (arith, remove_if_above xs x v h b.1, o.eq-not_lt y v, o.lt_trans_false x y v)

  -- On an ascending list the erasure of the equal range removes exactly the equal values.
  pub erase-equal_range :
      (xs : List A) (v : A)
      → IsSorted xs
      → erase (lower_bound xs v) (upper_bound xs v) xs ≡ remove_if (λ x. o.eq x v) xs
  unfolding lower_bound upper_bound
  erase-equal_range [] v s = refl
  erase-equal_range (x ∷ xs) v s = ground (
    arith,
    erase-equal_range xs v s.1,
    o.eq-not_lt x v,
    o.lt_asymm x v,
    remove_if_above xs x v,
    lower_bound_zero xs v,
    IsBelow-trans v x xs,
  )
