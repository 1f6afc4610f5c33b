-- ===== src/Operation/Intersect/Common.antt =====
-- The values that two ascending lists share.
use Prim.Native.Nat.{min}
use fcache.Base.{
  ℕ, ◌≡◌, refl, List, [], arith, some, none, Bool-cases, ◌⊎◌, inl, inr, ◌&&◌, if◌then◌else◌,
}
use fcache.Value.{ListValue}
use fcache.Sorted.{IsSorted, IsSorted-take, IsSorted-drop}
use fcache.Range.{positions_to_iterators}
use fcache.Algorithm.{range}
use fcache.Algorithm.Intersection.{
  occurrences, occurrences-set_intersection, set_intersection-IsSorted,
}
use fcache.Operation.Intersect.{Range, intersect_to_list, intersect_to_flex_buffer}

module _ {A : Type 0} ⦃o : ListValue A⦄ where
  -- The nodes of a range, none if it is not valid.
  abbrev pub nodes_of : Range → List A → List A
  nodes_of r list =
      let (valid, first, last) = positions_to_iterators r.start r.stop r.has_stop list in
      if valid then range first last list else []

  range-IsSorted :
      (first last : ℕ) (list : List A) → IsSorted list → IsSorted (range first last list)
  range-IsSorted first last list s = IsSorted-take _ _ (IsSorted-drop first list s)

  -- The new list of two ascending lists is ascending, and each value occurs in it as often as in the
  -- range of the two that has fewer of it; a range that is not valid counts as empty.
  pub intersect_to_list_lem :
      (l1 l2 : List A) (range1 range2 : Range)
      → IsSorted l1
      → IsSorted l2
      → let new_list = intersect_to_list [] l1 l2 range1 range2 in
        IsSorted new_list
        × ((v : A)
            → occurrences v new_list
              ≡ min (occurrences v (nodes_of range1 l1)) (occurrences v (nodes_of range2 l2)))
  unfolding intersect_to_list
  intersect_to_list_lem l1 l2 range1 range2 s t =
      let r1 = positions_to_iterators range1.start range1.stop range1.has_stop l1 in
      let r2 = positions_to_iterators range2.start range2.stop range2.has_stop l2 in
      let m1 : List A = range r1.1 r1.2 l1 in
      let m2 : List A = range r2.1 r2.2 l2 in
      let s1 = range-IsSorted r1.1 r1.2 l1 s in
      let s2 = range-IsSorted r2.1 r2.2 l2 t in
      elim (Bool-cases r1.0) [
        | inl e ↦ elim (Bool-cases r2.0) [
          | inl f ↦
              rw (e, f)
                (
                  set_intersection-IsSorted m1 m2 s1,
                  λ v. occurrences-set_intersection v m1 m2 s1 s2,
                )
          | inr f ↦ rw (e, f) (tt, λ v. omega arith)
        ]
        | inr e ↦ rw e (tt, λ v. omega arith)
      ]

  -- Where both ranges are valid the buffer gets what a new list would hold; otherwise it gets
  -- nothing, while the new list is empty.
  pub intersect_to_flex_buffer-list :
      (l1 l2 : List A) (range1 range2 : Range)
      → (intersect_to_flex_buffer l1 l2 range1 range2
          ≡ some (intersect_to_list [] l1 l2 range1 range2))
        ⊎ ((intersect_to_flex_buffer l1 l2 range1 range2 ≡ none)
            × (intersect_to_list [] l1 l2 range1 range2 ≡ []))
  unfolding intersect_to_list intersect_to_flex_buffer
  intersect_to_flex_buffer-list l1 l2 range1 range2 =
      let r1 = positions_to_iterators range1.start range1.stop range1.has_stop l1 in
      let r2 = positions_to_iterators range2.start range2.stop range2.has_stop l2 in
      elim (Bool-cases (r1.0 && r2.0)) [ inl e ↦ rw e (inl refl) | inr e ↦ rw e (inr (refl, refl)) ]
