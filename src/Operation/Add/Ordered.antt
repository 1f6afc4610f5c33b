-- ===== src/Operation/Add/Ordered.antt =====
-- What adding to a sorted list does: the order is kept, the items are added and nothing else is
-- changed, and the three shortcuts for items that are sorted already come to the same list.
use mathlib.Core.List.{Perm, perm_append_comm, reverse-reverse, append_assoc, reverse-cons}
use mathlib.Core.List.Perm
use fcache.Base.{
  ◌+◌, ◌≡◌, refl, sym, ap, ◌∙◌, List, [], ◌∷◌, ◌++◌, Bool, true, false, reverse, arith, length,
  length-perm, length-append, Bool-cases, inl, inr,
}
use fcache.Value.{ListValue, IsTotal}
use fcache.Sorted.{All, All-imp, Le, IsBelow, IsSorted, IsSorted-append, IsBelow-trans, Le_refl}
use fcache.Sorted.Unique.{IsSorted-unique}
use fcache.Operation.Add.{
  emplace_front_each, source_list_sorted_add, sorted_add, highest_le_front, lowest_ge_back, last_of,
}
use fcache.Operation.Add.Unsorted.{emplace_back_each-append}
use fcache.Operation.Add.Insertion.{
  insert_each-perm, insert_each_from-perm, insert_each-IsSorted, insert_each_from-IsSorted,
}

emplace_front_each-reverse {ℓ} :
    {A : Type ℓ} (items list : List A) → emplace_front_each items list ≡ reverse items ++ list
unfolding emplace_front_each
emplace_front_each-reverse [] list = refl
emplace_front_each-reverse (x ∷ items) list =
    emplace_front_each-reverse items (x ∷ list)
    ∙ sym (append_assoc (reverse items) (x ∷ []) list)
    ∙ ap (λ l. l ++ list) (sym (reverse-cons x items))

-- The loop puts the items before the list, in their order.
emplace_front_each-append {ℓ} :
    {A : Type ℓ} (items list : List A) → emplace_front_each (reverse items) list ≡ items ++ list
emplace_front_each-append items list =
    emplace_front_each-reverse (reverse items) list ∙ ap (λ l. l ++ list) (reverse-reverse items)

module _ {A : Type 0} ⦃o : ListValue A⦄ where
  -- The last item of an ascending list is not before any of them.
  last_of_max : (x : A) (xs : List A) → IsSorted (x ∷ xs) → All (λ y. Le y (last_of x xs)) (x ∷ xs)
  last_of_max x [] s = (Le_refl x, tt)
  last_of_max x (y ∷ ys) s =
      let rest = last_of_max y ys s.1 in (o.lt_trans_false x y (last_of y ys) s.0.0 rest.0, rest)

  -- Two ascending lists, the last of the first not after the head of the second.
  join-IsSorted :
      (x : A) (xs : List A) (y : A) (ys : List A)
      → IsSorted (x ∷ xs)
      → IsSorted (y ∷ ys)
      → Le (last_of x xs) y
      → IsSorted ((x ∷ xs) ++ (y ∷ ys))
  join-IsSorted x xs y ys s t h = IsSorted-append (x ∷ xs) (y ∷ ys) s t (
      All-imp (λ z. Le z (last_of x xs)) (λ z. IsBelow z (y ∷ ys))
        (λ z k.
          let below = o.lt_trans_false z (last_of x xs) y k h in
          (below, IsBelow-trans z y ys below t.0))
        (x ∷ xs) (last_of_max x xs s))

  le→Le : (a b : A) → o.le a b ≡ true → Le a b
  le→Le a b h = ground (arith, o.le-not_lt a b)

  front_added-IsSorted :
      (x : A) (items list : List A)
      → IsSorted (x ∷ items)
      → IsSorted list
      → highest_le_front (last_of x items) list ≡ true
      → IsSorted ((x ∷ items) ++ list)
  unfolding highest_le_front
  front_added-IsSorted x items [] t s h = absurd (cc)
  front_added-IsSorted x items (y ∷ list) t s h = join-IsSorted x items y list t s (le→Le _ y h)

  back_added-IsSorted :
      (x : A) (items list : List A)
      → IsSorted (x ∷ items)
      → IsSorted list
      → lowest_ge_back x list ≡ true
      → IsSorted (list ++ (x ∷ items))
  unfolding lowest_ge_back
  back_added-IsSorted x items [] t s h = absurd (cc)
  back_added-IsSorted x items (y ∷ list) t s h = join-IsSorted y list x items s t (le→Le _ x h)

  source_list_sorted_add-IsSorted :
      (items list : List A)
      → IsSorted items
      → IsSorted list
      → IsSorted (source_list_sorted_add items list)
  unfolding source_list_sorted_add
  source_list_sorted_add-IsSorted [] list t s = s
  source_list_sorted_add-IsSorted (x ∷ items) list t s =
      elim (Bool-cases (highest_le_front (last_of x items) list)) [
        | inl p ↦ rw (p, emplace_front_each-append) (front_added-IsSorted x items list t s p)
        | inr p ↦ elim (Bool-cases (lowest_ge_back x list)) [
          | inl q ↦ rw (p, q, emplace_back_each-append) (back_added-IsSorted x items list t s q)
          | inr q ↦ rw (p, q) (insert_each_from-IsSorted 0 (x ∷ items) list s t tt (omega arith))
        ]
      ]

  source_list_sorted_add-perm :
      (items list : List A) → Perm (source_list_sorted_add items list) (items ++ list)
  unfolding source_list_sorted_add
  source_list_sorted_add-perm [] list = Perm.rfl
  source_list_sorted_add-perm (x ∷ items) list =
      elim (Bool-cases (highest_le_front (last_of x items) list)) [
        | inl p ↦ rw (p, emplace_front_each-append) Perm.rfl
        | inr p ↦ elim (Bool-cases (lowest_ge_back x list)) [
          | inl q ↦ rw (p, q, emplace_back_each-append) (perm_append_comm list (x ∷ items))
          | inr q ↦ rw (p, q) (insert_each_from-perm 0 (x ∷ items) list)
        ]
      ]

  -- Adding to an ascending list leaves it ascending, provided that the items are ascending where
  -- the request says so.
  pub sorted_add-IsSorted :
      (items : List A) (items_sorted : Bool) (list : List A)
      → IsSorted list
      → (items_sorted ≡ true → IsSorted items)
      → IsSorted (sorted_add items items_sorted list).0
  unfolding sorted_add
  sorted_add-IsSorted items true list s t = source_list_sorted_add-IsSorted items list (t refl) s
  sorted_add-IsSorted items false list s t = insert_each-IsSorted items list s

  -- The result holds the nodes of the list and the items, each as often as in the two together,
  -- whatever the request says of the items; the size returned is that of the result.
  pub sorted_add-perm :
      (items : List A) (items_sorted : Bool) (list : List A)
      → Perm (sorted_add items items_sorted list).0 (items ++ list)
        × ((sorted_add items items_sorted list).1 ≡ length items + length list)
  unfolding sorted_add
  sorted_add-perm items true list =
      let p = source_list_sorted_add-perm items list in
      (p, length-perm _ _ p ∙ length-append items list)
  sorted_add-perm items false list =
      let p = insert_each-perm items list in (p, length-perm _ _ p ∙ length-append items list)

  -- For ascending items, an ascending list and a total order the shortcuts change nothing: the
  -- request's `items_sorted` has no effect on the result.
  pub sorted_add_shortcut :
      IsTotal A o
      → (items list : List A) → IsSorted items
      → IsSorted list
      → sorted_add items true list ≡ sorted_add items false list
  unfolding sorted_add
  sorted_add_shortcut total items list t s =
      ap (λ l. (l, length l))
        (IsSorted-unique total _ _ (source_list_sorted_add-IsSorted items list t s)
          (insert_each-IsSorted items list s)
          (Perm.trans (source_list_sorted_add-perm items list)
            (Perm.symm (insert_each-perm items list))))
