-- ===== src/ListHandler/Reading.antt =====
-- The handlers of ListGetRange and ListInfo (ListHandler.cpp).
use fcache.Base.{List, Option, none, some}
use fcache.Value.{Fcstring}
use fcache.FcList.{FcVariant, ints, uints, strings, floats, FcList, visit_read}
use fcache.Response.{
  status_fail, status_ok, body_list_get_range, body_list_info, FlexBuffer, empty_vector, vector,
  FlatBuilder, finish, buffer_body, info_body, create_empty_body_response,
}
use fcache.Operation.GetByRange.{Base, get_by_range}
use fcache.Operation.Intersect.{Range, info}
use fcache.ListHandler.Lists.{Lists, get_list, have_list}

-- `fc::request::ListGetRange`
pub record ListGetRange : Type 0 where
  pub name : Fcstring
  pub range : Range
  pub base : Base

-- `fc::request::ListInfo`
pub record ListInfo : Type 0 where
  pub name : Fcstring

-- The buffer of what the functor made, or of an empty vector.
abbrev pub buffer_of : {F A : Type 0} → (List A → FcVariant F) → Option (List A) → FlexBuffer F
buffer_of wrap none = empty_vector
buffer_of wrap (some l) = vector (wrap l)

module _ {F : Type 0} where
  -- Without a stop the partial range is made, for which `end` is 0 and not looked at.
  unfoldable pub get_range_buffer : Range → Base → FcVariant F → FlexBuffer F
  get_range_buffer r base (ints l) = buffer_of ints (get_by_range r.start r.stop r.has_stop base l)
  get_range_buffer r base (uints l) =
      buffer_of uints (get_by_range r.start r.stop r.has_stop base l)
  get_range_buffer r base (strings l) =
      buffer_of strings (get_by_range r.start r.stop r.has_stop base l)
  get_range_buffer r base (floats l) =
      buffer_of floats (get_by_range r.start r.stop r.has_stop base l)

  unfoldable pub get_range_when_found :
      ListGetRange → Option (FcList F) × FlatBuilder F → FlatBuilder F
  unfolding get_range_buffer
  get_range_when_found req (none, fbb) = fbb
  get_range_when_found req (some l, fbb) =
      finish fbb status_ok body_list_get_range
        (buffer_body (get_range_buffer req.range req.base l.m_list))

  unfoldable pub handle_get_range : Lists F → FlatBuilder F → ListGetRange → FlatBuilder F
  unfolding have_list get_range_when_found
  handle_get_range m_lists fbb req =
      get_range_when_found req (have_list m_lists fbb req.name body_list_get_range)

  unfoldable pub handle_info : Lists F → FlatBuilder F → ListInfo → FlatBuilder F
  handle_info m_lists fbb req = elim (get_list m_lists req.name) [
    | none ↦ create_empty_body_response fbb status_fail body_list_info
    | some l ↦
        finish fbb status_ok body_list_info
          (info_body (visit_read (λ A list. info list) l.m_list) l.m_list_type l.m_sorted)
  ]
