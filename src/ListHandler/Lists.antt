-- ===== src/ListHandler/Lists.antt =====
-- The state of ListHandler, and `createList`, `getList`, `haveList` and `flexTypeToListType`.
use fcache.Base.{List, [], Bool, true, false, Option, none, some, if◌then◌else◌}
use fcache.Value.{Fcstring}
use fcache.Store
use fcache.FcList.{
  ListType, list_int, list_uint, list_float, list_string, list_other, FlexType, fbt_vector_int,
  fbt_vector_uint, fbt_vector_float, fbt_vector_key, fbt_null, FcVariant, ints, uints, floats,
  strings, FcList, make_fc_list,
}
use fcache.Response.{
  Status, status_fail, status_ok, status_duplicate, ResponseBody, FlatBuilder,
  create_empty_body_response,
}

-- `m_lists`
abbrev pub Lists : Type 0 → Type 0
Lists F = List (Fcstring × FcList F)

-- What a handler returns.
abbrev pub Handled : Type 0 → Type 0
Handled F = Lists F × FlatBuilder F

module _ {F : Type 0} where
  -- The lambda `create` of createList.
  unfoldable pub create : Lists F → Fcstring → FcVariant F → Bool → Lists F × Status
  create m_lists name list sorted =
      let (lists, created) = Store.try_emplace name (make_fc_list list sorted) m_lists in
      (lists, if created then status_ok else status_duplicate)

  unfoldable pub create_list : Lists F → Fcstring → ListType → Bool → Lists F × Status
  unfolding create
  create_list m_lists name list_int sorted = create m_lists name (ints []) sorted
  create_list m_lists name list_uint sorted = create m_lists name (uints []) sorted
  create_list m_lists name list_float sorted = create m_lists name (floats []) sorted
  create_list m_lists name list_string sorted = create m_lists name (strings []) sorted
  create_list m_lists name list_other sorted = (m_lists, status_fail)

  abbrev pub get_list : Lists F → Fcstring → Option (FcList F)
  get_list m_lists name = Store.find name m_lists

  -- A list that does not exist is answered with a failure at once.
  unfoldable pub have_list :
      Lists F → FlatBuilder F → Fcstring → ResponseBody → Option (FcList F) × FlatBuilder F
  have_list m_lists fbb name body_type = elim (get_list m_lists name) [
    | none ↦ (none, create_empty_body_response fbb status_fail body_type)
    | some l ↦ (some l, fbb)
  ]

  -- The list that a visitor has changed.
  abbrev pub put_list : Lists F → Fcstring → FcList F → FcVariant F → Lists F
  put_list m_lists name l list = Store.assign name (record l { m_list = list }) m_lists

-- The test on the type of a list that a handler makes before it visits the list.
abbrev pub is_list_flex_type : FlexType → Bool
is_list_flex_type fbt_vector_int = true
is_list_flex_type fbt_vector_uint = true
is_list_flex_type fbt_vector_float = true
is_list_flex_type fbt_vector_key = true
is_list_flex_type fbt_null = false

unfoldable pub flex_type_to_list_type : FlexType → Option ListType
flex_type_to_list_type fbt_vector_int = some list_int
flex_type_to_list_type fbt_vector_uint = some list_uint
flex_type_to_list_type fbt_vector_float = some list_float
flex_type_to_list_type fbt_vector_key = some list_string
flex_type_to_list_type fbt_null = none

-- `fc::request::ListCreate`
pub record ListCreate : Type 0 where
  pub name : Fcstring
  pub list_type : ListType
  pub sorted : Bool

unfoldable pub handle_create : {F : Type 0} → Lists F → FlatBuilder F → ListCreate → Handled F
unfolding create_list
handle_create m_lists fbb req =
    let (lists, status) = create_list m_lists req.name req.list_type req.sorted in
    (lists, create_empty_body_response fbb status ResponseBody.body_list_create)
