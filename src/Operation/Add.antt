-- ===== src/Operation/Add.antt =====
-- The functor `Add` of ListOperations.hpp: `makeUnsortedAppend`, `makeUnsortedAdd` and
-- `makeSortedAdd`. Each function returns the list and its size.
pub mod Unsorted
pub mod Insertion
pub mod Ordered
use fcache.Base.{
  ℕ, ◌+◌, List, [], ◌∷◌, ◌++◌, Bool, true, false, reverse, length, drop, if◌then◌else◌,
}
use fcache.Base.Int.{ℤ}
use fcache.Value.{ListValue}
use fcache.Range.{position_to_start_iterator}
use fcache.Algorithm.{emplace, lower_bound}

module _ {ℓ} {A : Type ℓ} where
  -- The loop of `emplace_back`.
  unfoldable pub emplace_back_each : List A → List A → List A
  emplace_back_each [] list = list
  emplace_back_each (x ∷ items) list = emplace_back_each items (list ++ x ∷ [])

  -- The loop of `emplace_front`, over the items from the last to the first.
  unfoldable pub emplace_front_each : List A → List A → List A
  emplace_front_each [] list = list
  emplace_front_each (x ∷ items) list = emplace_front_each items (x ∷ list)

  -- The loop of `Add<false>::doAdd`: each item goes before the iterator, which then steps over it.
  unfoldable pub emplace_each : ℕ → List A → List A → List A
  emplace_each it [] list = list
  emplace_each it (x ∷ items) list = emplace_each (it + 1) items (emplace it x list)

  unfoldable pub unsorted_append : List A → List A → List A × ℕ
  unfolding emplace_back_each
  unsorted_append items list = let l = emplace_back_each items list in (l, length l)

  unfoldable pub unsorted_add : List A → ℤ → List A → List A × ℕ
  unfolding emplace_each
  unsorted_add items position list =
      let l = emplace_each (position_to_start_iterator position list) items list in (l, length l)

  -- The last of `x` and the elements behind it.
  abbrev pub last_of : A → List A → A
  last_of x [] = x
  last_of x (y ∷ ys) = last_of y ys

module _ {A : Type 0} ⦃o : ListValue A⦄ where
  -- `size && highestItem <= list.front ()`
  unfoldable pub highest_le_front : A → List A → Bool
  highest_le_front highest [] = false
  highest_le_front highest (front ∷ list) = o.le highest front

  -- `size && lowestItem >= list.back ()`
  unfoldable pub lowest_ge_back : A → List A → Bool
  lowest_ge_back lowest [] = false
  lowest_ge_back lowest (front ∷ list) = o.le (last_of front list) lowest

  -- The loop of doSourceListSortedAdd: the search begins where the last item was put.
  unfoldable pub insert_each_from : ℕ → List A → List A → List A
  insert_each_from it [] list = list
  insert_each_from it (v ∷ items) list =
      let pos = it + lower_bound (drop it list) v in insert_each_from pos items (emplace pos v list)

  -- It is called with one item at least.
  unfoldable pub source_list_sorted_add : List A → List A → List A
  unfolding highest_le_front lowest_ge_back insert_each_from emplace_back_each emplace_front_each
  source_list_sorted_add [] list = list
  source_list_sorted_add (x ∷ items) list =
      if highest_le_front (last_of x items) list
      then emplace_front_each (reverse (x ∷ items)) list
      else (if lowest_ge_back x list
          then emplace_back_each (x ∷ items) list
          else insert_each_from 0 (x ∷ items) list)

  -- "no shortcuts": each item is put at its lower bound in the whole list.
  unfoldable pub insert_each : List A → List A → List A
  insert_each [] list = list
  insert_each (v ∷ items) list = insert_each items (emplace (lower_bound list v) v list)

  unfoldable pub sorted_add : List A → Bool → List A → List A × ℕ
  unfolding source_list_sorted_add insert_each
  sorted_add items items_sorted list =
      let l = if items_sorted then source_list_sorted_add items list else insert_each items list in
      (l, length l)
