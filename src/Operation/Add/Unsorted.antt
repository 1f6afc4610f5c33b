-- ===== src/Operation/Add/Unsorted.antt =====
-- What adding to an unsorted list does.
use fcache.Base.{
  ℕ, ◌+◌, ◌≤◌, ◌≡◌, ◌⊎◌, inl, inr, refl, sym, ap, ◌∙◌, List, [], ◌∷◌, ◌++◌, arith, length, take,
  take_all, drop_all, drop, take-append_left, drop-append_left, length-append, length-take,
  length-drop, take-append-drop,
}
use mathlib.Core.List.{append_assoc, append-nil}
use fcache.Base.Int.{ℤ}
use fcache.Range.{position_to_start_iterator}
use fcache.Range.Bounds.{InRange, node_index}
use fcache.Algorithm.{splice}
use fcache.Operation.Add.{emplace_back_each, emplace_each, unsorted_add}

module _ {ℓ} {A : Type ℓ} where
  pub emplace_back_each-append :
      (items list : List A) → emplace_back_each items list ≡ list ++ items
  unfolding emplace_back_each
  emplace_back_each-append [] list = sym (append-nil list)
  emplace_back_each-append (x ∷ items) list =
      emplace_back_each-append items (list ++ x ∷ []) ∙ append_assoc list (x ∷ []) items

  -- The loop over a list that is split at the iterator.
  emplace_each-split :
      (items front back : List A) (it : ℕ)
      → it ≡ length front
      → emplace_each it items (front ++ back) ≡ front ++ (items ++ back)
  unfolding emplace_each
  emplace_each-split [] front back it e = refl
  emplace_each-split (x ∷ items) front back it e =
      rw (take-append_left it front back e, drop-append_left it front back e)
        (ap (emplace_each (it + 1) items) (sym (append_assoc front (x ∷ []) back))
          ∙ emplace_each-split items (front ++ x ∷ []) back (it + 1)
              (omega (arith, e, length-append front (x ∷ [])))
          ∙ append_assoc front (x ∷ []) (items ++ back))

  emplace_each-splice :
      (items list : List A) (it : ℕ)
      → it ≤ length list
      → emplace_each it items list ≡ splice it it items list
  emplace_each-splice items list it h =
      ap (emplace_each it items) (sym (take-append-drop it list))
      ∙ emplace_each-split items (take it list) (drop it list) it
          (omega (arith, length-take it list))

  length-splice :
      (items list : List A) (it : ℕ)
      → it ≤ length list
      → length (splice it it items list) ≡ length list + length items
  length-splice items list it h = omega (
    arith,
    length-append (take it list) (items ++ drop it list),
    length-append items (drop it list),
    length-take it list,
    length-drop it list,
  )

  -- A position that names no node of the list stands for its end.
  pub position_to_start_iterator_cases :
      (position : ℤ) (list : List A)
      → (InRange position (length list)
          × (position_to_start_iterator position list ≡ node_index position (length list)))
        ⊎ ((¬ InRange position (length list))
            × (position_to_start_iterator position list ≡ length list))
  unfolding position_to_start_iterator
  position_to_start_iterator_cases position list = ground arith

  position_to_start_iterator-le :
      (position : ℤ) (list : List A) → position_to_start_iterator position list ≤ length list
  unfolding position_to_start_iterator
  position_to_start_iterator-le position list = ground arith

  splice_at :
      (items : List A) (position : ℤ) (list : List A)
      → unsorted_add items position list ≡ (
        splice
            (position_to_start_iterator position list)
            (position_to_start_iterator position list)
            items
            list,
        length list + length items,
      )
  unfolding unsorted_add
  splice_at items position list =
      let k = position_to_start_iterator position list in
      let h = position_to_start_iterator-le position list in
      let e = emplace_each-splice items list k h in
      ap (λ l. (l, length l)) e
      ∙ ap (λ n. (splice k k items list, n)) (length-splice items list k h)

  splice_end :
      (items list : List A) (it : ℕ) → it ≡ length list → splice it it items list ≡ list ++ items
  splice_end items list it e =
      rw (take_all it list (omega arith), drop_all it list (omega arith))
        (ap (◌++◌ list) (append-nil items))

  -- If the position names a node, the items stand before that node in their order, and the rest of
  -- the list is unchanged. The result is the new size.
  pub unsorted_add_lem :
      (items : List A) (position : ℤ) (list : List A)
      → InRange position (length list)
      → let at_node = node_index position (length list) in
        unsorted_add items position list
        ≡ (splice at_node at_node items list, length list + length items)
  unsorted_add_lem items position list node =
      elim (position_to_start_iterator_cases position list) [
        | inl (h, e) ↦ rw e at (splice_at items position list)
        | inr (h, e) ↦ absurd (h node)
      ]

  -- If the position names no node, the items stand at the end.
  pub unsorted_add_end :
      (items : List A) (position : ℤ) (list : List A)
      → ¬ InRange position (length list)
      → unsorted_add items position list ≡ (list ++ items, length list + length items)
  unsorted_add_end items position list no_node =
      elim (position_to_start_iterator_cases position list) [
        | inl (h, e) ↦ absurd (no_node h)
        | inr (h, e) ↦
            splice_at items position list
            ∙ ap (λ l. (l, length list + length items)) (splice_end items list _ e)
      ]
