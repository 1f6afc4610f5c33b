-- ===== src/Operation/RemoveIf/Equal.antt =====
-- What `RemoveIf` removes: the nodes of the range that are equal to the value, and no others; and
-- on an ascending list its binary search removes the same nodes.
use fcache.Base.{
  ℕ, ◌+◌, ◌-◌, ◌≤◌, ◌≡◌, refl, sym, ap, ◌∙◌, List, [], ◌∷◌, ◌++◌, Bool, true, false, arith, length,
  take, drop, take-add, drop-drop, length-take, length-drop, if◌then◌else◌, Bool-cases, inl, inr,
  ◌==◌, take-append-drop, take-take, drop-take-append,
}
use mathlib.Core.List.{append_assoc}
use mathlib.Core.Path.{ap₂}
use fcache.Base.Int.{ℤ}
use fcache.Value.{ListValue}
use fcache.Sorted.{IsSorted, IsSorted-take, IsSorted-drop}
use fcache.Range.{positions_to_iterators}
use fcache.Range.Bounds.{positions_to_iterators_bounds}
use fcache.Algorithm.{erase, range, splice, remove_if, lower_bound, upper_bound}
use fcache.Algorithm.Bound.{erase-equal_range}
use fcache.Operation.RemoveIf.{
  is_equal, do_remove_sorted, do_remove_unsorted, do_remove, remove_if_equals,
}

module _ {ℓ} {A : Type ℓ} where
  -- Erasure inside a range is erasure in the range, put back.
  erase-splice :
      (first last low high : ℕ) (list : List A)
      → first ≤ last
      → last ≤ length list
      → low ≤ last - first
      → high ≤ last - first
      → erase (first + low) (first + high) list
        ≡ splice first last (erase low high (range first last list)) list
  erase-splice first last low high list h k p q =
      let n : ℕ = last - first in
      let inner : List A = drop first list in
      ap (λ l. l ++ drop (first + high) list) (take-add first low list)
      ∙ append_assoc (take first list) (take low inner) (drop (first + high) list)
      ∙ ap (◌++◌ (take first list)) (
          ap₂ ◌++◌ (sym (take-take low n inner p)) (
            sym (drop-drop high first list)
            ∙ sym (drop-take-append high n inner q)
            ∙ ap (◌++◌ (drop high (take n inner))) (
                drop-drop n first list
                ∙ ap (λ m. drop m list) {x = first + n} {y = last} (omega arith)))
          ∙ sym
              (append_assoc (take low (take n inner)) (drop high (take n inner)) (drop last list)))

  -- An empty range leaves the list as it is.
  pub splice_range :
      (first last : ℕ) (list : List A)
      → first ≤ last
      → splice first last (range first last list) list ≡ list
  splice_range first last list h =
      ap (◌++◌ (take first list)) (
        ap (◌++◌ (range first last list)) (
          ap (λ m. drop m list) {x = last} {y = first + (last - first)} (omega arith)
          ∙ sym (drop-drop (last - first) first list))
        ∙ take-append-drop (last - first) (drop first list))
      ∙ take-append-drop first list

at_end :
    (first last low size inner : ℕ)
    → first ≤ last
    → last ≤ size
    → low ≤ inner
    → inner ≡ last - first
    → (first + low == size) ≡ true
    → low ≡ inner
at_end first last low size inner h k p q e = ground arith

module _ {A : Type 0} ⦃o : ListValue A⦄ where
  bounds_le :
      (xs : List A) (v : A) → (lower_bound xs v ≤ length xs) × (upper_bound xs v ≤ length xs)
  unfolding lower_bound upper_bound
  bounds_le [] v = (omega arith, omega arith)
  bounds_le (x ∷ xs) v = ground (arith, bounds_le xs v)

  -- If the lower bound is behind all nodes, nothing is removed.
  none_equal : (xs : List A) (v : A) → lower_bound xs v ≡ length xs → remove_if (is_equal v) xs ≡ xs
  unfolding lower_bound
  none_equal [] v e = refl
  none_equal (x ∷ xs) v e = ground (arith, none_equal xs v, o.eq-not_lt x v)

  do_remove_sorted-unsorted :
      (v : A) (first last : ℕ) (list : List A)
      → IsSorted list
      → first ≤ last
      → last ≤ length list
      → do_remove_sorted v first last list ≡ do_remove_unsorted v first last list
  unfolding do_remove_sorted do_remove_unsorted
  do_remove_sorted-unsorted v first last list s h k =
      let inner : List A = range first last list in
      let low : ℕ = lower_bound inner v in
      let high : ℕ = upper_bound inner v in
      let size : length inner ≡ last - first =
        omega (arith, length-take (last - first) (drop first list), length-drop first list) in
      elim (Bool-cases (first + low == length list)) [
        | inl e ↦
            let all_below : low ≡ length inner =
              at_end first last low (length list) (length inner) h k (bounds_le inner v).0 size e in
            rw e (
              sym (splice_range first last list h)
              ∙ ap (λ l. splice first last l list) (sym (none_equal inner v all_below)))
        | inr e ↦ rw e (
            erase-splice first last low high list h k (omega (arith, size, (bounds_le inner v).0))
              (omega (arith, size, (bounds_le inner v).1))
            ∙ ap (λ l. splice first last l list)
                (erase-equal_range inner v
                  (IsSorted-take (last - first) (drop first list) (IsSorted-drop first list s))))
      ]

  -- On an ascending list the search for the equal range removes what the scan of every node does.
  pub remove_if_equals_sorted :
      (start stop : ℤ) (has_stop : Bool) (v : A) (list : List A)
      → IsSorted list
      → remove_if_equals true start stop has_stop v list
        ≡ remove_if_equals false start stop has_stop v list
  unfolding remove_if_equals do_remove
  remove_if_equals_sorted start stop has_stop v list s =
      let r = positions_to_iterators start stop has_stop list in
      elim (Bool-cases r.0) [
        | inl e ↦
            let b = positions_to_iterators_bounds start stop has_stop list e in
            ap (λ (l : List A). (if r.0 then l else list, length (if r.0 then l else list)))
              (do_remove_sorted-unsorted v r.1 r.2 list s (omega arith) b.1)
        | inr e ↦ rw e refl
      ]
