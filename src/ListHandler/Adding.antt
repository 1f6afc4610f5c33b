-- ===== src/ListHandler/Adding.antt =====
-- The handlers of ListAdd and ListAppend, and `doAddAppend` (ListHandler.cpp).
use fcache.Base.{
  ℕ, ◌%◌, ◌^◌, List, Bool, true, false, not, ◌&&◌, Option, none, some, length, ◌==◌, if◌then◌else◌,
}
use fcache.Base.Int.{ℤ, pos}
use fcache.Value.{Fcstring, ListValue}
use fcache.FcList.{FlexItems, FcVariant, FcList, visit_items}
use fcache.Response.{
  status_fail, status_ok, ResponseBody, body_list_add, body_list_append, FlatBuilder, finish,
  size_body,
}
use fcache.Operation.GetByRange.{Base, base_none}
use fcache.Operation.Add.{unsorted_append, unsorted_add, sorted_add}
use fcache.ListHandler.Lists.{Lists, Handled, have_list, put_list, is_list_flex_type}

module _ {F : Type 0} ⦃f : ListValue F⦄ (c : FlexItems F) where
  -- `fc::request::ListAdd` and `fc::request::ListAppend`
  pub record ListAdd : Type 0 where
    pub name : Fcstring
    pub items : List c.Ref
    pub position : ℤ
    pub base : Base
    pub items_sorted : Bool

  pub record ListAppend : Type 0 where
    pub name : Fcstring
    pub items : List c.Ref

  -- The functor that is chosen, on the list: the list after it and the size that it returns.
  unfoldable pub add_visited : FcList F → List c.Ref → Bool → ℤ → Bool → FcVariant F × ℕ
  add_visited l items is_append position items_sorted =
      if is_append && not l.m_sorted
      then visit_items c items (λ A o xs list. unsorted_append xs list) l.m_list
      else (if l.m_sorted
          then visit_items c items (λ A o xs list. sorted_add ⦃o = o⦄ xs items_sorted list) l.m_list
          else visit_items c items (λ A o xs list. unsorted_add xs position list) l.m_list)

  abbrev pub add_body_type : Bool → ResponseBody
  add_body_type is_append = if is_append then body_list_append else body_list_add

  -- A size goes into the response as a `uint32_t`.
  unfoldable pub add_to_list :
      Lists F → FlatBuilder F → Fcstring → FcList F → List c.Ref → Bool → ℤ → Bool → Handled F
  unfolding add_visited
  add_to_list m_lists fbb name l items is_append position items_sorted =
      if is_list_flex_type l.m_flex_type
      then (let (list, size) = add_visited l items is_append position items_sorted in
          (
            put_list m_lists name l list,
            finish fbb status_ok (add_body_type is_append) (size_body (size % 2 ^ 32)),
          ))
      else (m_lists, finish fbb status_fail (add_body_type is_append) (size_body 0))

  -- What follows the call of haveList. Without items nothing is done, and nothing is answered.
  unfoldable pub add_when_found :
      Lists F
      → Fcstring
      → List c.Ref
      → Bool
      → ℤ
      → Bool
      → Option (FcList F) × FlatBuilder F
      → Handled F
  unfolding add_to_list
  add_when_found m_lists name items is_append position items_sorted (none, fbb) = (m_lists, fbb)
  add_when_found m_lists name items is_append position items_sorted (some l, fbb) =
      if length items == 0
      then (m_lists, fbb)
      else add_to_list m_lists fbb name l items is_append position items_sorted

  unfoldable pub do_add_append :
      Lists F → FlatBuilder F → Fcstring → List c.Ref → Bool → Base → ℤ → Bool → Handled F
  unfolding have_list add_when_found
  do_add_append m_lists fbb name items is_append base position items_sorted =
      add_when_found m_lists name items is_append position items_sorted
        (have_list m_lists fbb name (add_body_type is_append))

  unfoldable pub handle_add : Lists F → FlatBuilder F → ListAdd → Handled F
  unfolding do_add_append
  handle_add m_lists fbb req =
      do_add_append m_lists fbb req.name req.items false req.base req.position req.items_sorted

  -- The last four arguments are the defaults of the declaration.
  unfoldable pub handle_append : Lists F → FlatBuilder F → ListAppend → Handled F
  unfolding do_add_append
  handle_append m_lists fbb req =
      do_add_append m_lists fbb req.name req.items true base_none (pos 0) false
