-- ===== src/Algorithm/Intersection.antt =====
-- `set_intersection` of ascending lists is their intersection as multisets.
use Prim.Native.Nat.{min}
use fcache.Base.{ℕ, ◌≡◌, refl, List, [], ◌∷◌, true, false, arith, count_if, Bool-cases, inl, inr}
use fcache.Value.{ListValue}
use fcache.Sorted.{All, Le, IsBelow, IsSorted, Le_refl}
use fcache.Algorithm.{set_intersection}

module _ {A : Type 0} ⦃o : ListValue A⦄ where
  -- How many of the values are equal to `v`.
  abbrev pub occurrences : A → List A → ℕ
  occurrences v = count_if (λ x. o.eq x v)

  -- The three cases of a round of the loop.
  module _ (x y : A) (xs ys : List A) where
    set_intersection_first :
        o.lt x y ≡ true → set_intersection (x ∷ xs) (y ∷ ys) ≡ set_intersection xs (y ∷ ys)
    unfolding set_intersection
    set_intersection_first p = rw (p, set_intersection) refl

    set_intersection_second :
        o.lt x y ≡ false
        → o.lt y x ≡ true
        → set_intersection (x ∷ xs) (y ∷ ys) ≡ set_intersection (x ∷ xs) ys
    unfolding set_intersection
    set_intersection_second p q = rw (p, q, set_intersection) refl

    set_intersection_both :
        o.lt x y ≡ false
        → o.lt y x ≡ false
        → set_intersection (x ∷ xs) (y ∷ ys) ≡ x ∷ set_intersection xs ys
    unfolding set_intersection
    set_intersection_both p q = rw (p, q, set_intersection) refl

  pub set_intersection-All {κ} :
      (P : A → Type κ) (xs ys : List A) → All P xs → All P (set_intersection xs ys)
  unfolding set_intersection
  set_intersection-All P [] ys h = tt
  set_intersection-All P (x ∷ xs) [] h = tt
  set_intersection-All P (x ∷ xs) (y ∷ ys) h = elim (Bool-cases (o.lt x y)) [
    | inl p ↦ rw (set_intersection_first x y xs ys p) (set_intersection-All P xs (y ∷ ys) h.1)
    | inr p ↦ elim (Bool-cases (o.lt y x)) [
      | inl q ↦ rw (set_intersection_second x y xs ys p q) (set_intersection-All P (x ∷ xs) ys h)
      | inr q ↦ rw (set_intersection_both x y xs ys p q) (h.0, set_intersection-All P xs ys h.1)
    ]
  ]

  pub set_intersection-IsSorted : (xs ys : List A) → IsSorted xs → IsSorted (set_intersection xs ys)
  unfolding set_intersection
  set_intersection-IsSorted [] ys s = tt
  set_intersection-IsSorted (x ∷ xs) [] s = tt
  set_intersection-IsSorted (x ∷ xs) (y ∷ ys) s = elim (Bool-cases (o.lt x y)) [
    | inl p ↦ rw (set_intersection_first x y xs ys p) (set_intersection-IsSorted xs (y ∷ ys) s.1)
    | inr p ↦ elim (Bool-cases (o.lt y x)) [
      | inl q ↦ rw (set_intersection_second x y xs ys p q) (set_intersection-IsSorted (x ∷ xs) ys s)
      | inr q ↦
          rw (set_intersection_both x y xs ys p q)
            (set_intersection-All (Le x) xs ys s.0, set_intersection-IsSorted xs ys s.1)
    ]
  ]

  -- A value that is before a whole list does not occur in it.
  occurrences_below :
      (v y : A) (ys : List A) → o.lt v y ≡ true → IsBelow y ys → occurrences v ys ≡ 0
  occurrences_below v y [] h b = refl
  occurrences_below v y (z ∷ ys) h b =
      ground (arith, occurrences_below v y ys h b.1, o.eq-not_lt z v, o.lt_trans_false y z v)

  occurrences_passed :
      (v x y : A) (ys : List A)
      → o.eq x v ≡ true
      → o.lt x y ≡ true
      → IsSorted (y ∷ ys)
      → occurrences v (y ∷ ys) ≡ 0
  occurrences_passed v x y ys e h t =
      occurrences_below v y (y ∷ ys) (ground (arith, o.eq-not_lt x v, o.lt_trans_false y v x))
        (Le_refl y, t.0)

  eq_of_equivalent : (v x y : A) → o.lt x y ≡ false → o.lt y x ≡ false → o.eq x v ≡ o.eq y v
  eq_of_equivalent v x y p q = ground (
    arith,
    o.eq-not_lt x v,
    o.eq-not_lt y v,
    o.lt_trans_false v x y,
    o.lt_trans_false v y x,
    o.lt_trans_false x y v,
    o.lt_trans_false y x v,
  )

  -- Each value occurs in the intersection as often as in the list that has fewer of it.
  pub occurrences-set_intersection :
      (v : A) (xs ys : List A)
      → IsSorted xs
      → IsSorted ys
      → occurrences v (set_intersection xs ys) ≡ min (occurrences v xs) (occurrences v ys)
  unfolding set_intersection
  occurrences-set_intersection v [] ys s t = omega arith
  occurrences-set_intersection v (x ∷ xs) [] s t = omega arith
  occurrences-set_intersection v (x ∷ xs) (y ∷ ys) s t = elim (Bool-cases (o.lt x y)) [
    | inl p ↦ rw (set_intersection_first x y xs ys p) (
        ground
          (arith, occurrences-set_intersection v xs (y ∷ ys) s.1 t, occurrences_passed v x y ys))
    | inr p ↦ elim (Bool-cases (o.lt y x)) [
      | inl q ↦ rw (set_intersection_second x y xs ys p q) (
          ground
            (arith, occurrences-set_intersection v (x ∷ xs) ys s t.1, occurrences_passed v y x xs))
      | inr q ↦
          rw (set_intersection_both x y xs ys p q) (
            ground
              (arith, occurrences-set_intersection v xs ys s.1 t.1, eq_of_equivalent v x y p q))
    ]
  ]
