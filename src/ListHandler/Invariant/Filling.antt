-- ===== src/ListHandler/Invariant/Filling.antt =====
-- ListIntersect with a new name: the list that is created for it and how it is filled.
use fcache.Base.{◌≡◌, refl, [], ◌∷◌, true, none, some}
use fcache.Value.{Fcstring, ListValue}
use fcache.Value.Order.{int_value, uint_value, string_value}
use fcache.Store
use fcache.Store.Lookup.{str_eq_refl}
use fcache.FcList.{
  FcVariant, ints, uints, strings, floats, FcList, make_fc_list, flex_type_of, list_type_of,
}
use fcache.FcList.WellFormed.{IsVariantSorted, SameType}
use fcache.Response.{Status}
use fcache.Operation.Intersect.{Range}
use fcache.Operation.Intersect.Common.{intersect_to_list_lem}
use fcache.ListHandler.Lists.{
  Lists, create, create_list, get_list, put_list, flex_type_to_list_type,
}
use fcache.ListHandler.Intersecting.{intersect_new, fill_new_list}

-- The empty list of the type of another.
abbrev pub empty_like : {F : Type 0} → FcVariant F → FcVariant F
empty_like (ints l) = ints []
empty_like (uints l) = uints []
empty_like (strings l) = strings []
empty_like (floats l) = floats []

module _ {F : Type 0} ⦃f : ListValue F⦄ where
  pub intersect_new-SameType :
      (l1 l2 : FcVariant F) (r1 r2 : Range) (new : FcVariant F)
      → SameType new (intersect_new l1 l2 r1 r2 new)
  unfolding intersect_new
  intersect_new-SameType (ints l1) (ints l2) r1 r2 (ints new) = (refl, refl)
  intersect_new-SameType (uints l1) (uints l2) r1 r2 (uints new) = (refl, refl)
  intersect_new-SameType (strings l1) (strings l2) r1 r2 (strings new) = (refl, refl)
  intersect_new-SameType (floats l1) (floats l2) r1 r2 (floats new) = (refl, refl)
  intersect_new-SameType _ _ r1 r2 new = (refl, refl)

  pub intersect_new-IsVariantSorted :
      (l1 l2 : FcVariant F) (r1 r2 : Range)
      → IsVariantSorted l1
      → IsVariantSorted l2
      → IsVariantSorted (intersect_new l1 l2 r1 r2 (empty_like l1))
  unfolding intersect_new
  intersect_new-IsVariantSorted (ints l1) (ints l2) r1 r2 s t =
      (intersect_to_list_lem ⦃o = int_value⦄ l1 l2 r1 r2 s t).0
  intersect_new-IsVariantSorted (uints l1) (uints l2) r1 r2 s t =
      (intersect_to_list_lem ⦃o = uint_value⦄ l1 l2 r1 r2 s t).0
  intersect_new-IsVariantSorted (strings l1) (strings l2) r1 r2 s t =
      (intersect_to_list_lem ⦃o = string_value⦄ l1 l2 r1 r2 s t).0
  intersect_new-IsVariantSorted (floats l1) (floats l2) r1 r2 s t =
      (intersect_to_list_lem ⦃o = f⦄ l1 l2 r1 r2 s t).0
  intersect_new-IsVariantSorted (ints l1) _ r1 r2 s t = tt
  intersect_new-IsVariantSorted (uints l1) _ r1 r2 s t = tt
  intersect_new-IsVariantSorted (strings l1) _ r1 r2 s t = tt
  intersect_new-IsVariantSorted (floats l1) _ r1 r2 s t = tt

-- The new list, before it is filled.
abbrev pub new_fc_list : {F : Type 0} → FcVariant F → FcList F
new_fc_list v = make_fc_list (empty_like v) true

module _ {F : Type 0} where
  create_list_like :
      (m_lists : Lists F) (name : Fcstring) (v : FcVariant F)
      → create_list m_lists name (list_type_of v) true ≡ create m_lists name (empty_like v) true
  unfolding create_list
  create_list_like m_lists name (ints l) = refl
  create_list_like m_lists name (uints l) = refl
  create_list_like m_lists name (strings l) = refl
  create_list_like m_lists name (floats l) = refl

  pub flex_type_to_list_type_of :
      (v : FcVariant F) → flex_type_to_list_type (flex_type_of v) ≡ some (list_type_of v)
  unfolding flex_type_to_list_type
  flex_type_to_list_type_of (ints l) = refl
  flex_type_to_list_type_of (uints l) = refl
  flex_type_to_list_type_of (strings l) = refl
  flex_type_to_list_type_of (floats l) = refl

  create_fresh :
      (m_lists : Lists F) (name : Fcstring) (v : FcVariant F)
      → get_list m_lists name ≡ none
      → create m_lists name v true ≡ ((name, make_fc_list v true) ∷ m_lists, Status.status_ok)
  unfolding create Store.try_emplace
  create_fresh m_lists name v e = rw (e, create, Store.try_emplace) refl

  create_taken :
      (m_lists : Lists F) (name : Fcstring) (v : FcVariant F) (l : FcList F)
      → get_list m_lists name ≡ some l
      → create m_lists name v true ≡ (m_lists, Status.status_duplicate)
  unfolding create Store.try_emplace
  create_taken m_lists name v l e = rw (e, create, Store.try_emplace) refl

  pub find_first :
      (m_lists : Lists F) (name : Fcstring) (l : FcList F)
      → get_list ((name, l) ∷ m_lists) name ≡ some l
  unfolding Store.find
  find_first m_lists name l = rw (str_eq_refl name) refl

module _ {F : Type 0} ⦃f : ListValue F⦄ (m_lists : Lists F) (name : Fcstring) (l1 l2 : FcList F)
    (r1 r2 : Range) where
  -- The lists after an intersection into a list of a name that was free.
  abbrev pub with_new_list : Lists F
  with_new_list =
      put_list ((name, new_fc_list l1.m_list) ∷ m_lists) name (new_fc_list l1.m_list)
        (intersect_new l1.m_list l2.m_list r1 r2 (empty_like l1.m_list))

  pub fill_new_list_fresh :
      get_list m_lists name ≡ none
      → fill_new_list m_lists name (list_type_of l1.m_list) l1 l2 r1 r2 ≡ with_new_list
  unfolding fill_new_list make_fc_list
  fill_new_list_fresh e =
      rw
        (
          create_list_like m_lists name l1.m_list,
          create_fresh m_lists name (empty_like l1.m_list) e,
          find_first m_lists name (new_fc_list l1.m_list),
        )
        refl

  pub fill_new_list_taken :
      (l : FcList F)
      → get_list m_lists name ≡ some l
      → fill_new_list m_lists name (list_type_of l1.m_list) l1 l2 r1 r2 ≡ m_lists
  unfolding fill_new_list
  fill_new_list_taken l e =
      rw
        (
          create_list_like m_lists name l1.m_list,
          create_taken m_lists name (empty_like l1.m_list) l e,
        )
        refl
