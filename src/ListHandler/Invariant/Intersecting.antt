-- ===== src/ListHandler/Invariant/Intersecting.antt =====
-- The handler of ListIntersect keeps the lists well formed.
use fcache.Base.{
  ◌≡◌, refl, ap, ◌∷◌, true, Option, none, some, if_elim, Option-cases, inl, inr, arith, ◌∙◌,
}
use mathlib.Core.Path.{ap₂}
use fcache.Store.Entries.{find-AllValues}
use fcache.Value.{Fcstring, ListValue}
use fcache.Value.Order.{int_value, uint_value, string_value}
use fcache.FcList.{
  FcVariant, ints, uints, strings, floats, FcList, can_intersect_with, flex_type_eq, make_fc_list,
  flex_type_of, list_type_of,
}
use fcache.FcList.WellFormed.{IsVariantSorted, IsWellFormed}
use fcache.Response.{FlatBuilder, empty_vector, body_list_intersect}
use fcache.Operation.Intersect.{Range}
use fcache.ListHandler.Lists.{Lists, Handled, get_list, have_list, flex_type_to_list_type}
use fcache.ListHandler.Found.{have_list-get_list}
use fcache.ListHandler.Intersecting.{
  ListIntersect, new_name, intersect_new, fill_new_list, do_intersect, do_intersect_into,
  intersect_buffer, intersect_when_found, handle_intersect,
}
use fcache.ListHandler.Invariant.{IsValid, put_list-IsValid}
use fcache.ListHandler.Invariant.Filling.{
  empty_like, intersect_new-SameType, intersect_new-IsVariantSorted, new_fc_list,
  flex_type_to_list_type_of, find_first, with_new_list, fill_new_list_fresh, fill_new_list_taken,
}

pub can_intersect_with_lem :
    {F : Type 0} (l1 l2 : FcList F)
    → can_intersect_with l1 l2 ≡ true
    → (l1.m_sorted ≡ true)
      × (l2.m_sorted ≡ true)
      × (flex_type_eq l1.m_flex_type l2.m_flex_type ≡ true)
unfolding can_intersect_with
can_intersect_with_lem l1 l2 e = ground arith

module _ {F : Type 0} ⦃f : ListValue F⦄ where
  with_new_list-IsValid :
      (m_lists : Lists F) (name : Fcstring) (l1 l2 : FcList F) (r1 r2 : Range)
      → IsValid m_lists
      → IsVariantSorted l1.m_list
      → IsVariantSorted l2.m_list
      → IsValid (with_new_list m_lists name l1 l2 r1 r2)
  unfolding make_fc_list
  with_new_list-IsValid m_lists name l1 l2 r1 r2 w s t =
      let new = new_fc_list l1.m_list in
      put_list-IsValid ((name, new) ∷ m_lists) name new
        (intersect_new l1.m_list l2.m_list r1 r2 (empty_like l1.m_list))
        ((refl, refl, λ _. empty_like-IsVariantSorted l1.m_list), w) (find_first m_lists name new)
        (intersect_new-SameType l1.m_list l2.m_list r1 r2 (empty_like l1.m_list))
        (λ _. intersect_new-IsVariantSorted l1.m_list l2.m_list r1 r2 s t)
    where
      empty_like-IsVariantSorted : (v : FcVariant F) → IsVariantSorted (empty_like v)
      empty_like-IsVariantSorted (ints l) = tt
      empty_like-IsVariantSorted (uints l) = tt
      empty_like-IsVariantSorted (strings l) = tt
      empty_like-IsVariantSorted (floats l) = tt

  -- With a name for it, the new list has the type of the first list.
  pub do_intersect_named :
      (m_lists : Lists F) (req : ListIntersect) (l1 l2 : FcList F) (name : Fcstring)
      → new_name req.new_list_name ≡ some name
      → l1.m_flex_type ≡ flex_type_of l1.m_list
      → do_intersect m_lists req l1 l2 ≡ (
        fill_new_list m_lists name (list_type_of l1.m_list) l1 l2 req.list1_range req.list2_range,
        empty_vector,
      )
  unfolding do_intersect
  do_intersect_named m_lists req l1 l2 name given typed =
      ap₂ (do_intersect_into m_lists req l1 l2) given
        (ap flex_type_to_list_type typed ∙ flex_type_to_list_type_of l1.m_list)

  pub do_intersect_unnamed :
      (m_lists : Lists F) (req : ListIntersect) (l1 l2 : FcList F)
      → new_name req.new_list_name ≡ none
      → do_intersect m_lists req l1 l2
        ≡ (m_lists, intersect_buffer l1.m_list l2.m_list req.list1_range req.list2_range)
  unfolding do_intersect
  do_intersect_unnamed m_lists req l1 l2 absent =
      ap (λ n. do_intersect_into m_lists req l1 l2 n (flex_type_to_list_type l1.m_flex_type)) absent

  do_intersect-IsValid :
      (m_lists : Lists F) (req : ListIntersect) (l1 l2 : FcList F)
      → IsValid m_lists
      → IsWellFormed l1
      → IsWellFormed l2
      → can_intersect_with l1 l2 ≡ true
      → IsValid (do_intersect m_lists req l1 l2).0
  do_intersect-IsValid m_lists req l1 l2 w g1 g2 e =
      let r1 = req.list1_range in
      let r2 = req.list2_range in
      elim (Option-cases (new_name req.new_list_name)) [
        | inl absent ↦ rw (do_intersect_unnamed m_lists req l1 l2 absent) w
        | inr (name, given) ↦
            rw (do_intersect_named m_lists req l1 l2 name given g1.0)
              (elim (Option-cases (get_list m_lists name)) [
                | inl fresh ↦ rw (fill_new_list_fresh m_lists name l1 l2 r1 r2 fresh) (
                    with_new_list-IsValid m_lists name l1 l2 r1 r2 w
                      (g1.2 (can_intersect_with_lem l1 l2 e).0)
                      (g2.2 (can_intersect_with_lem l1 l2 e).1))
                | inr (l, taken) ↦ rw (fill_new_list_taken m_lists name l1 l2 r1 r2 l taken) w
              ])
      ]

  intersect_when_found-IsValid :
      (m_lists : Lists F) (req : ListIntersect) (o1 o2 : Option (FcList F)) (fbb : FlatBuilder F)
      → IsValid m_lists
      → get_list m_lists req.list1_name ≡ o1
      → get_list m_lists req.list2_name ≡ o2
      → IsValid (intersect_when_found m_lists req o1 (o2, fbb)).0
  unfolding intersect_when_found
  intersect_when_found-IsValid m_lists req none o2 fbb w e1 e2 = w
  intersect_when_found-IsValid m_lists req (some l1) none fbb w e1 e2 = w
  intersect_when_found-IsValid m_lists req (some l1) (some l2) fbb w e1 e2 =
      if_elim (λ (r : Handled F). IsValid r.0) (can_intersect_with l1 l2)
        (λ c.
          do_intersect-IsValid m_lists req l1 l2 w
            (find-AllValues IsWellFormed req.list1_name l1 m_lists w e1)
            (find-AllValues IsWellFormed req.list2_name l2 m_lists w e2) c)
        (λ _. w)

  -- The handler of ListIntersect keeps every list well formed.
  pub handle_intersect-IsValid :
      (m_lists : Lists F) (fbb : FlatBuilder F) (req : ListIntersect)
      → IsValid m_lists
      → IsValid (handle_intersect m_lists fbb req).0
  unfolding handle_intersect
  handle_intersect-IsValid m_lists fbb req w =
      let first = have_list m_lists fbb req.list1_name body_list_intersect in
      let second = have_list m_lists first.1 req.list2_name body_list_intersect in
      intersect_when_found-IsValid m_lists req first.0 second.0 second.1 w
        (have_list-get_list m_lists fbb req.list1_name body_list_intersect)
        (have_list-get_list m_lists first.1 req.list2_name body_list_intersect)
