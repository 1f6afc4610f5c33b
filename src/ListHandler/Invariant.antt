-- ===== src/ListHandler/Invariant.antt =====
-- Every handler of ListHandler keeps the lists well formed: the types that a list is stored with
-- are those of its nodes, and the sorted lists are ascending.
pub mod Adding
pub mod Changing
pub mod Filling
pub mod Intersecting
use fcache.Base.{
  ℕ, ◌≡◌, refl, sym, ap, ◌∙◌, List, [], ◌∷◌, Bool, true, false, not, ◌&&◌, Option, none, some,
  length, ◌==◌, if◌then◌else◌, Bool-cases, Option-cases, inl, inr, map, arith,
}
use fcache.Base.Int.{ℤ}
use fcache.Value.{Fcint, Fcuint, Fcstring, ListValue}
use fcache.Value.Order.{int_value, uint_value, string_value}
use fcache.Sorted.{IsSorted}
use fcache.Store
use fcache.Store.Entries.{
  AllValues, find-AllValues, assign-AllValues, try_emplace-AllValues, erase-AllValues,
}
use fcache.FcList.{
  ListType, list_int, list_uint, list_float, list_string, list_other, FlexItems, FcVariant, ints,
  uints, strings, floats, FcList, make_fc_list, visit_items,
}
use fcache.FcList.WellFormed.{
  IsVariantSorted, IsWellFormed, SameType, replace-IsWellFormed, converted,
}
use fcache.Response.{FlatBuilder}
use fcache.Operation.Add.{sorted_add, unsorted_add, unsorted_append}
use fcache.Operation.Add.Ordered.{sorted_add-IsSorted}
use fcache.Operation.RemoveIf.{remove_if_equals}
use fcache.Operation.RemoveIf.Kept.{remove_if_equals-IsSorted}
use fcache.ListHandler.Lists.{
  Lists, Handled, ListCreate, create, create_list, handle_create, have_list, get_list, put_list,
  is_list_flex_type,
}
use fcache.ListHandler.Adding.{
  ListAdd, ListAppend, add_visited, add_to_list, do_add_append, handle_add, handle_append,
}
use fcache.ListHandler.Changing.{
  ListDelete, erase_each, delete_lists, handle_delete, RequestValue, ListRemoveIf,
  do_remove_if_equals, handle_remove_if,
}

module _ {F : Type 0} ⦃f : ListValue F⦄ where
  abbrev pub IsValid : Lists F → Type 0
  IsValid = AllValues IsWellFormed

  pub put_list-IsValid :
      (m_lists : Lists F) (name : Fcstring) (l : FcList F) (v : FcVariant F)
      → IsValid m_lists
      → get_list m_lists name ≡ some l
      → SameType l.m_list v
      → (l.m_sorted ≡ true → IsVariantSorted v)
      → IsValid (put_list m_lists name l v)
  put_list-IsValid m_lists name l v w e t s =
      assign-AllValues IsWellFormed name (record l { m_list = v }) m_lists
        (replace-IsWellFormed l v (find-AllValues IsWellFormed name l m_lists w e) t s) w

  create-IsValid :
      (m_lists : Lists F) (name : Fcstring) (list : FcVariant F) (sorted : Bool)
      → IsVariantSorted list
      → IsValid m_lists
      → IsValid (create m_lists name list sorted).0
  unfolding create make_fc_list
  create-IsValid m_lists name list sorted s w =
      try_emplace-AllValues IsWellFormed name (make_fc_list list sorted) m_lists
        (refl, refl, λ _. s) w

  pub create_list-IsValid :
      (m_lists : Lists F) (name : Fcstring) (list_type : ListType) (sorted : Bool)
      → IsValid m_lists
      → IsValid (create_list m_lists name list_type sorted).0
  unfolding create_list
  create_list-IsValid m_lists name list_int sorted w =
      create-IsValid m_lists name (ints []) sorted tt w
  create_list-IsValid m_lists name list_uint sorted w =
      create-IsValid m_lists name (uints []) sorted tt w
  create_list-IsValid m_lists name list_float sorted w =
      create-IsValid m_lists name (floats []) sorted tt w
  create_list-IsValid m_lists name list_string sorted w =
      create-IsValid m_lists name (strings []) sorted tt w
  create_list-IsValid m_lists name list_other sorted w = w

  erase_each-IsValid :
      (names : List Fcstring) (m_lists : Lists F)
      → IsValid m_lists
      → IsValid (erase_each names m_lists)
  unfolding erase_each
  erase_each-IsValid [] m_lists w = w
  erase_each-IsValid (n ∷ names) m_lists w =
      erase_each-IsValid names (Store.erase n m_lists) (erase-AllValues IsWellFormed n m_lists w)

  pub handle_create-IsValid :
      (m_lists : Lists F) (fbb : FlatBuilder F) (req : ListCreate)
      → IsValid m_lists
      → IsValid (handle_create m_lists fbb req).0
  unfolding handle_create
  handle_create-IsValid m_lists fbb req w =
      create_list-IsValid m_lists req.name req.list_type req.sorted w

  pub handle_delete-IsValid :
      (m_lists : Lists F) (fbb : FlatBuilder F) (req : ListDelete)
      → IsValid m_lists
      → IsValid (handle_delete m_lists fbb req).0
  unfolding handle_delete
  handle_delete-IsValid m_lists fbb req w = by_names req.name
    where
      by_names : (names : List Fcstring) → IsValid (delete_lists names m_lists)
      by_names [] = tt
      by_names (n ∷ names) = erase_each-IsValid (n ∷ names) m_lists w

  pub visit_items-SameType :
      (c : FlexItems F) (items : List c.Ref) {κ : Type 0}
      (g : (A : Type 0) → ListValue A → List A → List A → List A × κ) (v : FcVariant F)
      → SameType v (visit_items c items g v).0
  visit_items-SameType c items g (ints l) = (refl, refl)
  visit_items-SameType c items g (uints l) = (refl, refl)
  visit_items-SameType c items g (strings l) = (refl, refl)
  visit_items-SameType c items g (floats l) = (refl, refl)
