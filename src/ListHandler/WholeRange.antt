-- ===== src/ListHandler/WholeRange.antt =====
-- ListGetRange of a whole list.
use fcache.Base.{
  ◌-◌, ◌<◌, ◌≡◌, ap, ◌∙◌, List, true, false, some, length, take_all, min, refl, arith,
}
use fcache.Base.Int.{pos}
use fcache.Value.{Fcstring}
use fcache.Store.Lookup.{find-assign, str_eq_refl}
use fcache.FcList.{FcVariant, ints, uints, strings, floats, FcList, variant_size, flex_type_of}
use fcache.Response.{FlatBuilder, finish, status_ok, body_list_get_range, buffer_body, vector}
use fcache.Operation.GetByRange.{base_head, get_by_range}
use fcache.Operation.GetByRange.Slice.{get_by_range-slice}
use fcache.Operation.Intersect.{Range}
use fcache.ListHandler.Found.{have_list_found}
use fcache.ListHandler.Lists.{Lists, get_list, put_list, is_list_flex_type}
use fcache.ListHandler.Reading.{buffer_of, get_range_buffer, get_range_when_found, handle_get_range}

-- From the first node, with no stop.
abbrev pub whole : Range
whole = record { start = pos 0; stop = pos 0; has_stop = false }

get_by_range_whole :
    {A : Type 0} (list : List A)
    → 0 < length list
    → get_by_range (pos 0) (pos 0) false base_head list ≡ some list
get_by_range_whole list h =
    get_by_range-slice (pos 0) (pos 0) false base_head list (omega arith) (omega arith, omega arith)
    ∙ (let first : min 0 (length list) ≡ 0 = omega arith in
        rw first (ap some (take_all (length list - 0) list (omega arith))))

get_range_buffer-whole :
    {F : Type 0} (v : FcVariant F)
    → 0 < variant_size v
    → get_range_buffer whole base_head v ≡ vector v
unfolding get_range_buffer
get_range_buffer-whole (ints l) h = ap (buffer_of ints) (get_by_range_whole l h)
get_range_buffer-whole (uints l) h = ap (buffer_of uints) (get_by_range_whole l h)
get_range_buffer-whole (strings l) h = ap (buffer_of strings) (get_by_range_whole l h)
get_range_buffer-whole (floats l) h = ap (buffer_of floats) (get_by_range_whole l h)

pub is_list_flex_type_of :
    {F : Type 0} (v : FcVariant F) → is_list_flex_type (flex_type_of v) ≡ true
is_list_flex_type_of (ints l) = refl
is_list_flex_type_of (uints l) = refl
is_list_flex_type_of (strings l) = refl
is_list_flex_type_of (floats l) = refl

module _ {F : Type 0} (m_lists : Lists F) (fbb : FlatBuilder F) (name : Fcstring) where
  handle_get_range-whole :
      (l : FcList F)
      → get_list m_lists name ≡ some l
      → 0 < variant_size l.m_list
      → handle_get_range m_lists fbb (record { name = name; range = whole; base = base_head })
        ≡ finish fbb status_ok body_list_get_range (buffer_body (vector l.m_list))
  unfolding handle_get_range get_range_when_found
  handle_get_range-whole l e h = rw (have_list_found m_lists fbb name body_list_get_range e) (
      ap (λ buffer. finish fbb status_ok body_list_get_range (buffer_body buffer))
        (get_range_buffer-whole l.m_list h))

-- A list that was stored is answered as it was stored.
pub handle_get_range_stored :
    {F : Type 0} (m_lists : Lists F) (fbb : FlatBuilder F) (name : Fcstring) (l : FcList F)
    (list : FcVariant F)
    → get_list m_lists name ≡ some l
    → 0 < variant_size list
    → handle_get_range
        (put_list m_lists name l list)
        fbb
        (record { name = name; range = whole; base = base_head })
      ≡ finish fbb status_ok body_list_get_range (buffer_body (vector list))
handle_get_range_stored m_lists fbb name l list e h =
    let stored : get_list (put_list m_lists name l list) name ≡ some (record l { m_list = list }) =
      find-assign name name (record l { m_list = list }) m_lists ∙ rw (str_eq_refl name, e) refl in
    handle_get_range-whole (put_list m_lists name l list) fbb name (record l { m_list = list })
      stored h
