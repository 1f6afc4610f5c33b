-- ===== src/Operation/RemoveIf/Kept.antt =====
-- How many nodes `RemoveIf` removes, and that the rest keeps its order.
use fcache.Base.{
  ℕ, ◌+◌, ◌-◌, ◌≤◌, ◌≡◌, refl, ap, List, [], ◌∷◌, ◌++◌, Bool, true, false, not, arith, length, take,
  drop, length-take, length-drop, length-append, keep_if, ltb, if◌then◌else◌, Bool-cases, inl, inr,
}
use fcache.Base.Int.{ℤ, neg_part}
use fcache.Value.{ListValue}
use fcache.Sorted.{
  All, All-imp, All-append, All-append_inv, Le, IsBelow, IsSorted, IsSorted-append,
  IsSorted-append_inv,
}
use fcache.Range.{positions_to_iterators}
use fcache.Range.Bounds.{InRange, node_index, stop_index, positions_to_iterators_bounds}
use fcache.Algorithm.{erase, range, remove_if}
use fcache.Algorithm.Intersection.{occurrences}
use fcache.Operation.Remove.Erasure.{stop_index-le}
use fcache.Operation.GetByRange.Slice.{slice, slice_index-node, slice_stop-stop}
use fcache.Operation.RemoveIf.{is_equal, do_remove_unsorted, do_remove, remove_if_equals}
use fcache.Operation.RemoveIf.Equal.{splice_range, remove_if_equals_sorted}

lt_of_ltb : (first last : ℕ) → ltb first last ≡ true → first ≤ last
lt_of_ltb first last e = ground arith

no_nodes : (first last : ℕ) → ltb first last ≡ false → last - first ≡ 0
no_nodes first last e = ground arith

module _ {A : Type 0} ⦃o : ListValue A⦄ where
  All-keep_if {κ} : (P : A → Type κ) (p : A → Bool) (xs : List A) → All P xs → All P (keep_if p xs)
  All-keep_if P p [] h = tt
  All-keep_if P p (x ∷ xs) h = elim (Bool-cases (p x)) [
    | inl e ↦ rw e (h.0, All-keep_if P p xs h.1)
    | inr e ↦ rw e (All-keep_if P p xs h.1)
  ]

  IsSorted-keep_if : (p : A → Bool) (xs : List A) → IsSorted xs → IsSorted (keep_if p xs)
  IsSorted-keep_if p [] s = tt
  IsSorted-keep_if p (x ∷ xs) s = elim (Bool-cases (p x)) [
    | inl e ↦ rw e (All-keep_if (Le x) p xs s.0, IsSorted-keep_if p xs s.1)
    | inr e ↦ rw e (IsSorted-keep_if p xs s.1)
  ]

  -- Keeping a part of the middle of an ascending list keeps it ascending.
  IsSorted-keep_middle :
      (p : A → Bool) (front middle back : List A)
      → IsSorted (front ++ (middle ++ back))
      → IsSorted (front ++ (keep_if p middle ++ back))
  IsSorted-keep_middle p front middle back s =
      let outer = IsSorted-append_inv front (middle ++ back) s in
      let inner = IsSorted-append_inv middle back outer.1 in
      IsSorted-append front (keep_if p middle ++ back) outer.0
        (IsSorted-append (keep_if p middle) back (IsSorted-keep_if p middle inner.0) inner.1
          (All-keep_if (λ x. IsBelow x back) p middle inner.2))
        (All-imp (λ x. IsBelow x (middle ++ back)) (λ x. IsBelow x (keep_if p middle ++ back))
          (λ x h.
            let parts = All-append_inv (Le x) middle back h in
            All-append (Le x) (keep_if p middle) back (All-keep_if (Le x) p middle parts.0) parts.1)
          front outer.2)

  pub erase-IsSorted :
      (first last : ℕ) (list : List A)
      → first ≤ last
      → IsSorted list
      → IsSorted (erase first last list)
  erase-IsSorted first last list h s =
      IsSorted-keep_nothing (take first list) (range first last list) (drop last list)
        (rw (splice_range first last list h) s)
    where
      IsSorted-keep_nothing :
          (front middle back : List A)
          → IsSorted (front ++ (middle ++ back))
          → IsSorted (front ++ back)
      IsSorted-keep_nothing front middle back t =
          let outer = IsSorted-append_inv front (middle ++ back) t in
          IsSorted-append front back outer.0 (IsSorted-append_inv middle back outer.1).1 (
            All-imp (λ x. IsBelow x (middle ++ back)) (λ x. IsBelow x back)
              (λ x k. (All-append_inv (Le x) middle back k).1) front outer.2)

  do_remove_unsorted-IsSorted :
      (v : A) (first last : ℕ) (list : List A)
      → first ≤ last
      → IsSorted list
      → IsSorted (do_remove_unsorted v first last list)
  unfolding do_remove_unsorted
  do_remove_unsorted-IsSorted v first last list h s =
      IsSorted-keep_middle (λ x. not (is_equal v x)) (take first list) (range first last list)
        (drop last list) (rw (splice_range first last list h) s)

  remove_if_equals_unsorted-IsSorted :
      (start stop : ℤ) (has_stop : Bool) (v : A) (list : List A)
      → IsSorted list
      → IsSorted (remove_if_equals false start stop has_stop v list).0
  unfolding remove_if_equals do_remove
  remove_if_equals_unsorted-IsSorted start stop has_stop v list s =
      let r = positions_to_iterators start stop has_stop list in
      elim (Bool-cases r.0) [
        | inl e ↦
            let b = positions_to_iterators_bounds start stop has_stop list e in
            rw e (do_remove_unsorted-IsSorted v r.1 r.2 list (omega arith) s)
        | inr e ↦ rw e s
      ]

  -- An ascending list is ascending after the removal.
  pub remove_if_equals-IsSorted :
      (start stop : ℤ) (has_stop : Bool) (v : A) (list : List A)
      → IsSorted list
      → IsSorted (remove_if_equals true start stop has_stop v list).0
  remove_if_equals-IsSorted start stop has_stop v list s =
      rw (remove_if_equals_sorted start stop has_stop v list s)
        (remove_if_equals_unsorted-IsSorted start stop has_stop v list s)

  length-remove_if :
      (v : A) (xs : List A) → length (remove_if (is_equal v) xs) + occurrences v xs ≡ length xs
  length-remove_if v [] = refl
  length-remove_if v (x ∷ xs) = ground (arith, length-remove_if v xs)

  length-do_remove_unsorted :
      (v : A) (first last : ℕ) (list : List A)
      → first ≤ last
      → last ≤ length list
      → length (do_remove_unsorted v first last list) + occurrences v (range first last list)
        ≡ length list
  unfolding do_remove_unsorted
  length-do_remove_unsorted v first last list h k = omega (
    arith,
    length-remove_if v (range first last list),
    length-append (take first list)
        (remove_if (is_equal v) (range first last list) ++ drop last list),
    length-append (remove_if (is_equal v) (range first last list)) (drop last list),
    length-take first list,
    length-drop last list,
    length-drop first list,
    length-take (last - first) (drop first list),
  )

  range_of_slice :
      (start stop : ℤ) (has_stop : Bool) (list : List A)
      → InRange start (length list)
      → neg_part stop ≤ length list
      → let first = node_index start (length list) in
        let last = stop_index stop has_stop (length list) in
        range first last list ≡ slice start stop has_stop list
  range_of_slice start stop has_stop list h k =
      rw (slice_index-node start (length list) h, slice_stop-stop stop has_stop (length list) k)
        refl

  iterators_in :
      (start stop : ℤ) (has_stop : Bool) (list : List A)
      → InRange start (length list)
      → let first = node_index start (length list) in
        let last = stop_index stop has_stop (length list) in
        positions_to_iterators start stop has_stop list
        ≡ (if ltb first last then (true, first, last) else (false, 0, 0))
  unfolding positions_to_iterators
  iterators_in start stop has_stop list h = ground arith

  do_remove_some :
      (start stop : ℤ) (has_stop : Bool) (v : A) (list : List A)
      → InRange start (length list)
      → let first = node_index start (length list) in
        let last = stop_index stop has_stop (length list) in
        ltb first last ≡ true
        → do_remove false start stop has_stop v list ≡ do_remove_unsorted v first last list
  unfolding do_remove
  do_remove_some start stop has_stop v list h e =
      rw (iterators_in start stop has_stop list h, e, do_remove) refl

  do_remove_none :
      (start stop : ℤ) (has_stop : Bool) (v : A) (list : List A)
      → InRange start (length list)
      → ltb (node_index start (length list)) (stop_index stop has_stop (length list)) ≡ false
      → do_remove false start stop has_stop v list ≡ list
  unfolding do_remove
  do_remove_none start stop has_stop v list h e =
      rw (iterators_in start stop has_stop list h, e, do_remove) refl

  range_empty :
      (first last : ℕ) (list : List A) → ltb first last ≡ false → range first last list ≡ []
  range_empty first last list e =
      ap (λ n. take n (drop first list)) {x = last - first} {y = 0} (no_nodes first last e)

  -- The size that is returned, and the number of the nodes in the slice that were equal to the
  -- value, make up the size before, for a stop that is not further in front than the first node.
  remove_if_equals-size :
      (start stop : ℤ) (has_stop : Bool) (v : A) (list : List A)
      → InRange start (length list)
      → neg_part stop ≤ length list
      → (remove_if_equals false start stop has_stop v list).1
          + occurrences v (slice start stop has_stop list)
        ≡ length list
  unfolding remove_if_equals
  remove_if_equals-size start stop has_stop v list h k =
      let first = node_index start (length list) in
      let last = stop_index stop has_stop (length list) in
      let same = ap (occurrences v) (range_of_slice start stop has_stop list h k) in
      elim (Bool-cases (ltb first last)) [
        | inl e ↦ omega (
          arith,
          same,
          ap length (do_remove_some start stop has_stop v list h e),
          length-do_remove_unsorted v first last list (lt_of_ltb first last e)
              (stop_index-le stop has_stop (length list)),
        )
        | inr e ↦ omega (
          arith,
          same,
          ap length (do_remove_none start stop has_stop v list h e),
          ap (occurrences v) (range_empty first last list e),
        )
      ]
