-- ===== src/FcList/WellFormed.antt =====
-- When an FcList is well formed (List.hpp): its types are those of its list, and the list is
-- ascending if it is a sorted one.
use fcache.Base.{◌≡◌, ◌∙◌, List, true, map}
use fcache.Value.{ListValue}
use fcache.Value.Order.{int_value, uint_value, string_value}
use fcache.Sorted.{IsSorted}
use fcache.FcList.{
  FlexItems, FcVariant, ints, uints, strings, floats, FcList, flex_type_of, list_type_of,
}

module _ {F : Type 0} ⦃f : ListValue F⦄ where
  abbrev pub IsVariantSorted : FcVariant F → Type 0
  IsVariantSorted (ints l) = IsSorted ⦃o = int_value⦄ l
  IsVariantSorted (uints l) = IsSorted ⦃o = uint_value⦄ l
  IsVariantSorted (strings l) = IsSorted ⦃o = string_value⦄ l
  IsVariantSorted (floats l) = IsSorted ⦃o = f⦄ l

  abbrev pub IsWellFormed : FcList F → Type 0
  IsWellFormed l =
      (l.m_flex_type ≡ flex_type_of l.m_list)
      × (l.m_list_type ≡ list_type_of l.m_list)
      × (l.m_sorted ≡ true → IsVariantSorted l.m_list)

  -- Two lists of one type.
  abbrev pub SameType : FcVariant F → FcVariant F → Type 0
  SameType v w = (flex_type_of v ≡ flex_type_of w) × (list_type_of v ≡ list_type_of w)

  -- A list of the same type, ascending where it has to be, may take the place of the list.
  pub replace-IsWellFormed :
      (l : FcList F) (v : FcVariant F)
      → IsWellFormed l
      → SameType l.m_list v
      → (l.m_sorted ≡ true → IsVariantSorted v)
      → IsWellFormed (record l { m_list = v })
  replace-IsWellFormed l v w t s = (w.0 ∙ t.0, w.1 ∙ t.1, s)

-- The items of a request, as a list of the type of another.
abbrev pub converted : {F : Type 0} (c : FlexItems F) → List c.Ref → FcVariant F → FcVariant F
converted c items (ints l) = ints (map c.as_int items)
converted c items (uints l) = uints (map c.as_uint items)
converted c items (strings l) = strings (map c.as_string items)
converted c items (floats l) = floats (map c.as_float items)
