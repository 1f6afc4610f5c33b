-- ===== src/FcList.antt =====
-- `List`, `ListTraits` and `FcList` of server/include/fc/List.hpp, and the flexbuffers vectors
-- that carry the items of a request.
--
-- The section's parameter F is `fcfloat`: the floats that a client sends, without NaN, under the
-- comparisons of C++. flexbuffers is not part of the repository: an element of a typed vector, and
-- its conversions `As<int64_t>`, `As<uint64_t>`, `As<float>` and `AsString`, are parameters.
pub mod WellFormed
use mathlib.Core.Option
use fcache.Base.{ℕ, List, Option, Bool, true, false, map, length, ◌&&◌}
use fcache.Value.{Fcint, Fcuint, Fcstring, ListValue}
use fcache.Value.Order.{int_value, uint_value, string_value}

-- `fc::common::ListType`, a byte: any other value of it is `list_other`.
pub data ListType : Type 0 where
  list_int : ListType
  list_uint : ListType
  list_float : ListType
  list_string : ListType
  list_other : ListType

-- `flexbuffers::Type`, as far as lists use it.
pub data FlexType : Type 0 where
  fbt_vector_int : FlexType
  fbt_vector_uint : FlexType
  fbt_vector_float : FlexType
  fbt_vector_key : FlexType
  fbt_null : FlexType

unfoldable pub flex_type_eq : FlexType → FlexType → Bool
flex_type_eq fbt_vector_int fbt_vector_int = true
flex_type_eq fbt_vector_uint fbt_vector_uint = true
flex_type_eq fbt_vector_float fbt_vector_float = true
flex_type_eq fbt_vector_key fbt_vector_key = true
flex_type_eq fbt_null fbt_null = true
flex_type_eq _ _ = false

-- The elements of a typed vector and their conversions.
pub record FlexItems (F : Type 0) : Type 1 where
  pub Ref : Type 0
  pub as_int : Ref → Fcint
  pub as_uint : Ref → Fcuint
  pub as_float : Ref → F
  pub as_string : Ref → Fcstring

-- The variant `List`.
pub data FcVariant (F : Type 0) : Type 0 where
  ints : List Fcint → FcVariant F
  uints : List Fcuint → FcVariant F
  strings : List Fcstring → FcVariant F
  floats : List F → FcVariant F

abbrev pub flex_type_of : {F : Type 0} → FcVariant F → FlexType
flex_type_of (ints l) = fbt_vector_int
flex_type_of (uints l) = fbt_vector_uint
flex_type_of (strings l) = fbt_vector_key
flex_type_of (floats l) = fbt_vector_float

abbrev pub list_type_of : {F : Type 0} → FcVariant F → ListType
list_type_of (ints l) = list_int
list_type_of (uints l) = list_uint
list_type_of (strings l) = list_string
list_type_of (floats l) = list_float

pub record FcList (F : Type 0) : Type 0 where
  pub m_list : FcVariant F
  pub m_flex_type : FlexType
  pub m_list_type : ListType
  pub m_sorted : Bool

-- The constructor: the types come from the traits of the list.
unfoldable pub make_fc_list : {F : Type 0} → FcVariant F → Bool → FcList F
make_fc_list list sorted = record {
  m_list = list;
  m_flex_type = flex_type_of list;
  m_list_type = list_type_of list;
  m_sorted = sorted;
}

unfoldable pub can_intersect_with : {F : Type 0} → FcList F → FcList F → Bool
unfolding flex_type_eq
can_intersect_with l other =
    l.m_sorted && other.m_sorted && flex_type_eq l.m_flex_type other.m_flex_type

-- `std::visit` of a functor: a template, so a function for every value type.
module _ {F : Type 0} ⦃f : ListValue F⦄ where
  -- A functor that holds items, which it converts to the list's value type, and returns a result.
  abbrev pub visit_items {κ} :
      {R : Type κ} (c : FlexItems F)
      → List c.Ref
      → ((A : Type 0) → ListValue A → List A → List A → List A × R)
      → FcVariant F
      → FcVariant F × R
  visit_items c items g (ints l) =
      let r = g Fcint int_value (map c.as_int items) l in (ints r.0, r.1)
  visit_items c items g (uints l) =
      let r = g Fcuint uint_value (map c.as_uint items) l in (uints r.0, r.1)
  visit_items c items g (strings l) =
      let r = g Fcstring string_value (map c.as_string items) l in (strings r.0, r.1)
  visit_items c items g (floats l) = let r = g F f (map c.as_float items) l in (floats r.0, r.1)

module _ {F : Type 0} where
  -- A functor that only reads the list.
  abbrev pub visit_read {κ} : {R : Type κ} → ((A : Type 0) → List A → R) → FcVariant F → R
  visit_read g (ints l) = g Fcint l
  visit_read g (uints l) = g Fcuint l
  visit_read g (strings l) = g Fcstring l
  visit_read g (floats l) = g F l

  -- A functor whose behaviour may be undefined, `none`.
  abbrev pub visit_defined :
      ((A : Type 0) → List A → Option (List A)) → FcVariant F → Option (FcVariant F)
  visit_defined g (ints l) = Option.map ints (g Fcint l)
  visit_defined g (uints l) = Option.map uints (g Fcuint l)
  visit_defined g (strings l) = Option.map strings (g Fcstring l)
  visit_defined g (floats l) = Option.map floats (g F l)

-- The number of nodes.
abbrev pub variant_size : {F : Type 0} → FcVariant F → ℕ
variant_size (ints l) = length l
variant_size (uints l) = length l
variant_size (strings l) = length l
variant_size (floats l) = length l
