-- ===== src/ListHandler/Frame/Intersecting.antt =====
-- ListIntersect leaves every list but the new one alone.
use fcache.Base.{◌≡◌, refl, ◌∙◌, true, false, Option, none, some, if_elim}
use fcache.Value.{Fcstring, ListValue}
use fcache.FcList.{FcList, ListType, can_intersect_with}
use fcache.Response.{FlatBuilder, Status}
use fcache.Operation.Intersect.{Range}
use fcache.ListHandler.Lists.{Lists, Handled, get_list, create_list, flex_type_to_list_type}
use fcache.ListHandler.Intersecting.{
  ListIntersect, new_name, fill_found, fill_created, fill_new_list, do_intersect_into, do_intersect,
  intersect_when_found,
}
use fcache.ListHandler.Frame.{KeepsOthers, keeps_put, keeps_create_list, is_new}

module _ {F : Type 0} ⦃f : ListValue F⦄ where
  keeps_fill_found :
      (m_lists : Lists F) (l1 l2 : FcList F) (r1 r2 : Range) (name : Fcstring) (lists : Lists F)
      (o : Option (FcList F))
      → KeepsOthers name m_lists lists
      → KeepsOthers name m_lists (fill_found l1 l2 r1 r2 name lists o)
  unfolding fill_found
  keeps_fill_found m_lists l1 l2 r1 r2 name lists none h = h
  keeps_fill_found m_lists l1 l2 r1 r2 name lists (some new) h =
      λ other differs. keeps_put lists name new _ other differs ∙ h other differs

  keeps_fill_created :
      (m_lists : Lists F) (l1 l2 : FcList F) (r1 r2 : Range) (name : Fcstring) (lists : Lists F)
      (status : Status)
      → KeepsOthers name m_lists lists
      → KeepsOthers name m_lists (fill_created l1 l2 r1 r2 name (lists, status))
  unfolding fill_created
  keeps_fill_created m_lists l1 l2 r1 r2 name lists Status.status_ok h =
      keeps_fill_found m_lists l1 l2 r1 r2 name lists (get_list lists name) h
  keeps_fill_created m_lists l1 l2 r1 r2 name lists _ h = h

  keeps_into :
      (m_lists : Lists F) (req : ListIntersect) (l1 l2 : FcList F) (name : Option Fcstring)
      (list_type : Option ListType) (other : Fcstring)
      → is_new name other ≡ false
      → get_list (do_intersect_into m_lists req l1 l2 name list_type).0 other
        ≡ get_list m_lists other
  unfolding do_intersect_into fill_new_list
  keeps_into m_lists req l1 l2 (some name) (some list_type) other differs =
      let created = create_list m_lists name list_type true in
      keeps_fill_created m_lists l1 l2 req.list1_range req.list2_range name created.0 created.1
        (keeps_create_list m_lists name list_type true) other differs
  keeps_into m_lists req l1 l2 (some name) none other differs = refl
  keeps_into m_lists req l1 l2 none (some list_type) other differs = refl
  keeps_into m_lists req l1 l2 none none other differs = refl

  pub keeps_intersect :
      (m_lists : Lists F) (req : ListIntersect) (o1 : Option (FcList F))
      (o2 : Option (FcList F) × FlatBuilder F) (other : Fcstring)
      → is_new (new_name req.new_list_name) other ≡ false
      → get_list (intersect_when_found m_lists req o1 o2).0 other ≡ get_list m_lists other
  unfolding intersect_when_found do_intersect
  keeps_intersect m_lists req none (o2, fbb) other differs = refl
  keeps_intersect m_lists req (some l1) (none, fbb) other differs = refl
  keeps_intersect m_lists req (some l1) (some l2, fbb) other differs =
      if_elim (λ (r : Handled F). get_list r.0 other ≡ get_list m_lists other)
        (can_intersect_with l1 l2)
        (λ e.
          keeps_into m_lists req l1 l2 (new_name req.new_list_name)
            (flex_type_to_list_type l1.m_flex_type) other differs)
        (λ e. refl)
