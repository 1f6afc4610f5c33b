-- ===== src/ListHandler/Changing.antt =====
-- The handlers of ListSet, ListDelete, ListRemove and ListRemoveIf (ListHandler.cpp).
use mathlib.Core.Option
use fcache.Base.{ℕ, ◌%◌, ◌^◌, List, [], ◌∷◌, Bool, Option, none, some, length, ◌==◌, if◌then◌else◌}
use fcache.Base.Int.{ℤ}
use fcache.Value.{Fcint, Fcuint, Fcstring, ListValue}
use fcache.Value.Order.{int_value, uint_value, string_value}
use fcache.Store
use fcache.FcList.{
  FlexItems, FcVariant, ints, uints, strings, floats, FcList, visit_items, visit_defined,
  variant_size,
}
use fcache.Response.{
  Status, status_fail, status_ok, status_not_permitted, body_list_set, body_list_delete,
  body_list_remove, body_list_remove_if, FlatBuilder, finish, size_body, create_empty_body_response,
}
use fcache.Operation.Set.{set}
use fcache.Operation.Remove.{remove}
use fcache.Operation.RemoveIf.{remove_if_equals}
use fcache.Operation.Intersect.{Range}
use fcache.ListHandler.Lists.{Lists, Handled, have_list, put_list, is_list_flex_type}

-- `fc::request::ListDelete`
pub record ListDelete : Type 0 where
  pub name : List Fcstring

unfoldable pub erase_each : {F : Type 0} → List Fcstring → Lists F → Lists F
erase_each [] m_lists = m_lists
erase_each (n ∷ names) m_lists = erase_each names (Store.erase n m_lists)

-- With no name at all every list is deleted.
unfoldable pub delete_lists : {F : Type 0} → List Fcstring → Lists F → Lists F
unfolding erase_each
delete_lists [] m_lists = []
delete_lists (n ∷ names) m_lists = erase_each (n ∷ names) m_lists

unfoldable pub handle_delete : {F : Type 0} → Lists F → FlatBuilder F → ListDelete → Handled F
unfolding delete_lists
handle_delete m_lists fbb req =
    (delete_lists req.name m_lists, create_empty_body_response fbb status_ok body_list_delete)

-- `fc::request::ListRemove`
pub record ListRemove : Type 0 where
  pub name : Fcstring
  pub range : Range

-- `fc::request::Value`, the value that ListRemoveIf looks for.
pub data RequestValue (F : Type 0) : Type 0 where
  value_none : RequestValue F
  value_int : Fcint → RequestValue F
  value_uint : Fcuint → RequestValue F
  value_string : Fcstring → RequestValue F
  value_float : F → RequestValue F

pub record ListRemoveIf (F : Type 0) : Type 0 where
  pub name : Fcstring
  pub range : Range
  pub value : RequestValue F

module _ {F : Type 0} where
  -- What follows the call of haveList: `none` where the behaviour of the removal is undefined.
  -- After a list that does not exist has been answered, a second response is made.
  unfoldable pub remove_when_found :
      Lists F → ListRemove → Option (FcList F) × FlatBuilder F → Option (Handled F)
  remove_when_found m_lists req (none, fbb) =
      some (m_lists, create_empty_body_response fbb status_ok body_list_remove)
  remove_when_found m_lists req (some l, fbb) =
      Option.map
        (λ list. (
          put_list m_lists req.name l list,
          create_empty_body_response fbb status_ok body_list_remove,
        ))
        (visit_defined (λ A list. remove req.range.start req.range.stop req.range.has_stop list)
          l.m_list)

  unfoldable pub handle_remove : Lists F → FlatBuilder F → ListRemove → Option (Handled F)
  unfolding have_list remove_when_found
  handle_remove m_lists fbb req =
      remove_when_found m_lists req (have_list m_lists fbb req.name body_list_remove)

module _ {F : Type 0} ⦃f : ListValue F⦄ where
  -- The condition is tried on a list of its value's type only; any other list is left as it is.
  unfoldable pub do_remove_if_equals : Range → RequestValue F → FcVariant F → Bool → FcVariant F × ℕ
  do_remove_if_equals r (value_int v) (ints l) sorted =
      let (l', n) = remove_if_equals ⦃o = int_value⦄ sorted r.start r.stop r.has_stop v l in
      (ints l', n)
  do_remove_if_equals r (value_uint v) (uints l) sorted =
      let (l', n) = remove_if_equals ⦃o = uint_value⦄ sorted r.start r.stop r.has_stop v l in
      (uints l', n)
  do_remove_if_equals r (value_string v) (strings l) sorted =
      let (l', n) = remove_if_equals ⦃o = string_value⦄ sorted r.start r.stop r.has_stop v l in
      (strings l', n)
  do_remove_if_equals r (value_float v) (floats l) sorted =
      let (l', n) = remove_if_equals ⦃o = f⦄ sorted r.start r.stop r.has_stop v l in (floats l', n)
  do_remove_if_equals r value_none list sorted = (list, 0)
  do_remove_if_equals r _ list sorted = (list, variant_size list)

  unfoldable pub remove_if_when_found :
      Lists F → ListRemoveIf F → Option (FcList F) × FlatBuilder F → Handled F
  unfolding do_remove_if_equals
  remove_if_when_found m_lists req (none, fbb) = (m_lists, fbb)
  remove_if_when_found m_lists req (some l, fbb) =
      let (list, size) = do_remove_if_equals req.range req.value l.m_list l.m_sorted in
      (
        put_list m_lists req.name l list,
        finish fbb status_ok body_list_remove_if (size_body (size % 2 ^ 32)),
      )

  unfoldable pub handle_remove_if : Lists F → FlatBuilder F → ListRemoveIf F → Handled F
  unfolding have_list remove_if_when_found
  handle_remove_if m_lists fbb req =
      remove_if_when_found m_lists req (have_list m_lists fbb req.name body_list_remove_if)

  module _ (c : FlexItems F) where
    -- `fc::request::ListSet`
    pub record ListSet : Type 0 where
      pub name : Fcstring
      pub position : ℤ
      pub items : List c.Ref

    -- The lists and the status after the switch, for a list that exists.
    unfoldable pub set_in_list : Lists F → FcList F → ListSet → Lists F × Status
    set_in_list m_lists l req =
        if length req.items == 0
        then (m_lists, status_ok)
        else (if l.m_sorted
            then (m_lists, status_not_permitted)
            else (if is_list_flex_type l.m_flex_type
                then (
                  put_list m_lists req.name l
                      (visit_items c req.items (λ A o xs list. (set xs req.position list, tt {0}))
                        l.m_list).0,
                  status_ok,
                )
                else (m_lists, status_fail)))

    -- After a list that does not exist has been answered, a second response is made.
    unfoldable pub set_when_found :
        Lists F → ListSet → Option (FcList F) × FlatBuilder F → Handled F
    unfolding set_in_list
    set_when_found m_lists req (none, fbb) =
        (m_lists, create_empty_body_response fbb status_ok body_list_set)
    set_when_found m_lists req (some l, fbb) =
        let (lists, status) = set_in_list m_lists l req in
        (lists, create_empty_body_response fbb status body_list_set)

    unfoldable pub handle_set : Lists F → FlatBuilder F → ListSet → Handled F
    unfolding have_list set_when_found
    handle_set m_lists fbb req =
        set_when_found m_lists req (have_list m_lists fbb req.name body_list_set)
