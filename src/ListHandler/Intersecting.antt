-- ===== src/ListHandler/Intersecting.antt =====
-- The handler of ListIntersect, and `doIntersect` (ListHandler.cpp).
use fcache.Base.{List, [], ◌∷◌, true, Option, none, some, if◌then◌else◌}
use fcache.Value.{Fcstring, ListValue}
use fcache.Value.Order.{int_value, uint_value, string_value}
use fcache.FcList.{ListType, FcVariant, ints, uints, strings, floats, FcList, can_intersect_with}
use fcache.Response.{
  Status, status_fail, status_ok, body_list_intersect, FlexBuffer, unfinished, empty_vector, vector,
  FlatBuilder, finish, buffer_body, create_empty_body_response,
}
use fcache.Operation.Intersect.{Range, intersect_to_list, intersect_to_flex_buffer}
use fcache.ListHandler.Lists.{
  Lists, Handled, create_list, get_list, have_list, put_list, flex_type_to_list_type,
}

-- `fc::request::ListIntersect`; the name of the new list may be absent.
pub record ListIntersect : Type 0 where
  pub list1_name : Fcstring
  pub list2_name : Fcstring
  pub list1_range : Range
  pub list2_range : Range
  pub new_list_name : Option Fcstring

-- `req.new_list_name () && !req.new_list_name ()->str ().empty ()`
abbrev pub new_name : Option Fcstring → Option Fcstring
new_name none = none
new_name (some []) = none
new_name (some (b ∷ name)) = some (b ∷ name)

-- A buffer that nothing was added to is not finished either.
abbrev pub finished_with : {F A : Type 0} → (List A → FcVariant F) → Option (List A) → FlexBuffer F
finished_with wrap none = unfinished
finished_with wrap (some l) = vector (wrap l)

module _ {F : Type 0} ⦃f : ListValue F⦄ where
  -- The visitors of doIntersect. `std::get` of the lists at the type of the visited one does not
  -- throw where the three have one type, which is checked before; else they are left as they are.
  unfoldable pub intersect_new :
      FcVariant F → FcVariant F → Range → Range → FcVariant F → FcVariant F
  intersect_new (ints l1) (ints l2) r1 r2 (ints new) =
      ints (intersect_to_list ⦃o = int_value⦄ new l1 l2 r1 r2)
  intersect_new (uints l1) (uints l2) r1 r2 (uints new) =
      uints (intersect_to_list ⦃o = uint_value⦄ new l1 l2 r1 r2)
  intersect_new (strings l1) (strings l2) r1 r2 (strings new) =
      strings (intersect_to_list ⦃o = string_value⦄ new l1 l2 r1 r2)
  intersect_new (floats l1) (floats l2) r1 r2 (floats new) =
      floats (intersect_to_list ⦃o = f⦄ new l1 l2 r1 r2)
  intersect_new _ _ r1 r2 new = new

  unfoldable pub intersect_buffer : FcVariant F → FcVariant F → Range → Range → FlexBuffer F
  intersect_buffer (ints l1) (ints l2) r1 r2 =
      finished_with ints (intersect_to_flex_buffer ⦃o = int_value⦄ l1 l2 r1 r2)
  intersect_buffer (uints l1) (uints l2) r1 r2 =
      finished_with uints (intersect_to_flex_buffer ⦃o = uint_value⦄ l1 l2 r1 r2)
  intersect_buffer (strings l1) (strings l2) r1 r2 =
      finished_with strings (intersect_to_flex_buffer ⦃o = string_value⦄ l1 l2 r1 r2)
  intersect_buffer (floats l1) (floats l2) r1 r2 =
      finished_with floats (intersect_to_flex_buffer ⦃o = f⦄ l1 l2 r1 r2)
  intersect_buffer _ _ r1 r2 = unfinished

  unfoldable pub fill_found :
      FcList F → FcList F → Range → Range → Fcstring → Lists F → Option (FcList F) → Lists F
  unfolding intersect_new
  fill_found l1 l2 r1 r2 name lists none = lists
  fill_found l1 l2 r1 r2 name lists (some new) =
      put_list lists name new (intersect_new l1.m_list l2.m_list r1 r2 new.m_list)

  -- What follows the call of createList: the new list is looked up and filled if it was made.
  unfoldable pub fill_created :
      FcList F → FcList F → Range → Range → Fcstring → Lists F × Status → Lists F
  unfolding fill_found
  fill_created l1 l2 r1 r2 name (lists, Status.status_ok) =
      fill_found l1 l2 r1 r2 name lists (get_list lists name)
  fill_created l1 l2 r1 r2 name (lists, _) = lists

  unfoldable pub fill_new_list :
      Lists F → Fcstring → ListType → FcList F → FcList F → Range → Range → Lists F
  unfolding fill_created
  fill_new_list m_lists name list_type l1 l2 r1 r2 =
      fill_created l1 l2 r1 r2 name (create_list m_lists name list_type true)

  -- `createNewList && flexTypeToListType (…)`: the name and the type are both there.
  unfoldable pub do_intersect_into :
      Lists F
      → ListIntersect
      → FcList F
      → FcList F
      → Option Fcstring
      → Option ListType
      → Lists F × FlexBuffer F
  unfolding fill_new_list intersect_buffer
  do_intersect_into m_lists req l1 l2 (some name) (some list_type) =
      (fill_new_list m_lists name list_type l1 l2 req.list1_range req.list2_range, empty_vector)
  do_intersect_into m_lists req l1 l2 _ _ =
      (m_lists, intersect_buffer l1.m_list l2.m_list req.list1_range req.list2_range)

  unfoldable pub do_intersect :
      Lists F → ListIntersect → FcList F → FcList F → Lists F × FlexBuffer F
  unfolding do_intersect_into
  do_intersect m_lists req l1 l2 =
      do_intersect_into m_lists req l1 l2 (new_name req.new_list_name)
        (flex_type_to_list_type l1.m_flex_type)

  -- What follows the two calls of haveList.
  unfoldable pub intersect_when_found :
      Lists F → ListIntersect → Option (FcList F) → Option (FcList F) × FlatBuilder F → Handled F
  unfolding do_intersect
  intersect_when_found m_lists req none (list2_opt, fbb) = (m_lists, fbb)
  intersect_when_found m_lists req (some l1) (none, fbb) = (m_lists, fbb)
  intersect_when_found m_lists req (some l1) (some l2, fbb) =
      if can_intersect_with l1 l2
      then (let (lists, flxb) = do_intersect m_lists req l1 l2 in
          (lists, finish fbb status_ok body_list_intersect (buffer_body flxb)))
      else (m_lists, create_empty_body_response fbb status_fail body_list_intersect)

  -- Both lists are looked for, so two that do not exist are answered twice.
  unfoldable pub handle_intersect : Lists F → FlatBuilder F → ListIntersect → Handled F
  unfolding have_list intersect_when_found
  handle_intersect m_lists fbb req =
      let (list1_opt, fbb1) = have_list m_lists fbb req.list1_name body_list_intersect in
      intersect_when_found m_lists req list1_opt
        (have_list m_lists fbb1 req.list2_name body_list_intersect)
