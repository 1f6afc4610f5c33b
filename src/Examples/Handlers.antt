-- ===== src/Examples/Handlers.antt =====
-- The handlers of ListHandler.
use fcache.Base.{arith, ◌≡◌, refl, subst, [], ◌∷◌, true, false, some}
use fcache.Base.Int.{ℤ, pos, negsuc}
use fcache.Value.{str_eq}
use fcache.Value.Order.{int_value, ltb_ℤ-IsTotal}
use fcache.Store.{find}
use fcache.FcList.{FcList, list_int, ints}
use fcache.Range.{positions_to_indices}
use fcache.Operation.Remove.{remove, erase_range}
use fcache.FcList.WellFormed.{IsVariantSorted, converted}
use fcache.Response.{
  status_ok, body_list_remove, body_list_get_range, finish, buffer_body, vector,
  create_empty_body_response,
}
use fcache.Operation.GetByRange.{base_head}
use fcache.Operation.Intersect.{Range}
use fcache.ListHandler.Lists.{
  Lists, Handled, ListCreate, get_list, put_list, have_list, handle_create,
}
use fcache.ListHandler.Adding.{ListAdd, ListAppend, handle_add, handle_append}
use fcache.ListHandler.Changing.{
  ListRemove, ListRemoveIf, ListSet, value_int, handle_remove, remove_when_found,
}
use fcache.ListHandler.Reading.{handle_get_range}
use fcache.ListHandler.Intersecting.{ListIntersect}
use fcache.ListHandler.Invariant.{IsValid}
use fcache.ListHandler.Invariant.Adding.{AsClaimed, handle_add-IsValid}
use fcache.ListHandler.WholeRange.{whole}
use fcache.ListHandler.SortedGet.{sorted_with, handle_get_range-handle_add}
use fcache.Sorted.Reference.{sort}
use fcache.ListHandler.AppendGet.{with_items, handle_get_range-handle_append}
use fcache.Examples.Inputs.{items, more, scores, other, sorted_scores, plain_scores, lists}
use fcache.Examples.Lists.{ascending-IsSorted, more-IsSorted}

abbrev some_range : Range
some_range = record { start = pos 1; stop = pos 3; has_stop = true }

abbrev add_more : ListAdd items
add_more = record {
  name = scores;
  items = more;
  position = pos 0;
  base = base_head;
  items_sorted = true;
}

lists-IsValid : IsValid lists
lists-IsValid = ((refl, refl, λ _. ascending-IsSorted), ((refl, refl, λ _. ascending-IsSorted), tt))

more-AsClaimed : (l : FcList ℤ) → get_list lists scores ≡ some l → AsClaimed items more true l
unfolding find str_eq
more-AsClaimed l e s t =
    let found : sorted_scores ≡ l = cc in
    subst (λ k. IsVariantSorted (converted items more k.m_list)) found more-IsSorted

handle_add-IsValid_example : IsValid (handle_add items lists [] add_more).0
handle_add-IsValid_example = handle_add-IsValid items lists [] add_more lists-IsValid more-AsClaimed

abbrev append_none : ListAppend items
append_none = record { name = other; items = [] }

abbrev remove_some : ListRemove
remove_some = record { name = other; range = some_range }

-- The lists after it, and the answer.
abbrev two_removed : Handled ℤ
two_removed = (
  put_list lists other plain_scores (ints (negsuc 1 ∷ pos 8 ∷ [])),
  create_empty_body_response [] status_ok body_list_remove,
)

remove_some-two_removed : handle_remove lists [] remove_some ≡ some two_removed
unfolding handle_remove remove_when_found have_list find str_eq remove erase_range
    positions_to_indices
remove_some-two_removed = refl

abbrev remove_threes : ListRemoveIf ℤ
remove_threes = record { name = scores; range = some_range; value = value_int (pos 3) }

abbrev set_some : ListSet items
set_some = record { name = other; position = negsuc 0; items = more }

abbrev intersect_some : ListIntersect
intersect_some = record {
  list1_name = scores;
  list2_name = scores;
  list1_range = some_range;
  list2_range = some_range;
  new_list_name = some (110 ∷ []);
}

abbrev new_scores : ListCreate
new_scores = record { name = scores; list_type = list_int; sorted = true }

abbrev created : Lists ℤ
created = (handle_create [] [] new_scores).0

abbrev unsorted_items : ListAdd items
unsorted_items = record {
  name = scores;
  items = pos 9 ∷ pos 2 ∷ [];
  position = pos 0;
  base = base_head;
  items_sorted = false;
}

abbrev append_more : ListAppend items
append_more = record { name = other; items = more }

handle_get_range-handle_append_example :
    handle_get_range
      (handle_append items lists [] append_more).0
      []
      (record { name = other; range = whole; base = base_head })
    ≡ finish [] status_ok body_list_get_range
        (buffer_body (vector (with_items items more plain_scores.m_list)))
unfolding find str_eq
handle_get_range-handle_append_example =
    handle_get_range-handle_append items lists [] [] append_more plain_scores refl
      (refl, refl, λ s. absurd (cc)) refl (omega arith)

handle_get_range-handle_add_example :
    (handle_get_range
        (handle_add items lists [] add_more).0
        []
        (record { name = scores; range = whole; base = base_head })
      ≡ finish [] status_ok body_list_get_range
          (buffer_body (vector (sorted_with items more sorted_scores.m_list))))
    × (handle_get_range
          (handle_append items lists [] (record { name = scores; items = more })).0
          []
          (record { name = scores; range = whole; base = base_head })
        ≡ finish [] status_ok body_list_get_range
            (buffer_body (vector (sorted_with items more sorted_scores.m_list))))
unfolding find str_eq
handle_get_range-handle_add_example =
    handle_get_range-handle_add items lists [] [] add_more sorted_scores ltb_ℤ-IsTotal refl
      (refl, refl, λ _. ascending-IsSorted) refl (λ s t. more-IsSorted) (omega arith)

-- The sorted list that it speaks of.
sorted_with_run :
    sorted_with items more sorted_scores.m_list
    ≡ ints (negsuc 1 ∷ pos 1 ∷ pos 3 ∷ pos 3 ∷ pos 3 ∷ pos 8 ∷ pos 9 ∷ [])
unfolding sort
sorted_with_run = refl
