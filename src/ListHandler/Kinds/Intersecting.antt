-- ===== src/ListHandler/Kinds/Intersecting.antt =====
-- ListIntersect and ListDelete keep the kinds of the lists that stay.
use fcache.Base.{◌≡◌, refl, ◌∙◌, List, true, false, Option, none, some, if_elim}
use fcache.Value.{Fcstring, ListValue}
use fcache.FcList.{FcList, ListType, can_intersect_with}
use fcache.Response.{FlatBuilder, Status}
use fcache.Operation.Intersect.{Range}
use fcache.ListHandler.Lists.{Lists, Handled, get_list, create_list, flex_type_to_list_type}
use fcache.ListHandler.Intersecting.{
  ListIntersect, new_name, fill_found, fill_created, fill_new_list, do_intersect_into, do_intersect,
  intersect_when_found,
}
use fcache.ListHandler.Changing.{delete_lists}
use fcache.ListHandler.Frame.{is_deleted, delete_lists_lem}
use fcache.ListHandler.Kinds.{KeepsKind, kind_all, kind_trans, kind_put, kind_create_list}

module _ {F : Type 0} where
  pub kind_delete :
      (m_lists : Lists F) (other : Fcstring) (names : List Fcstring)
      → is_deleted names other ≡ false
      → KeepsKind other m_lists (delete_lists names m_lists)
  kind_delete m_lists other names kept l e =
      (l, delete_lists_lem names m_lists other ∙ rw kept e, (refl, refl, refl))

module _ {F : Type 0} ⦃f : ListValue F⦄ where
  kind_fill_found :
      (m_lists : Lists F) (other : Fcstring) (l1 l2 : FcList F) (r1 r2 : Range) (name : Fcstring)
      (lists : Lists F) (o : Option (FcList F))
      → get_list lists name ≡ o
      → KeepsKind other m_lists lists
      → KeepsKind other m_lists (fill_found l1 l2 r1 r2 name lists o)
  unfolding fill_found
  kind_fill_found m_lists other l1 l2 r1 r2 name lists none e h = h
  kind_fill_found m_lists other l1 l2 r1 r2 name lists (some new) e h =
      kind_trans other m_lists lists (fill_found l1 l2 r1 r2 name lists (some new)) h
        (kind_put lists other name new _ e)

  kind_fill_created :
      (m_lists : Lists F) (other : Fcstring) (l1 l2 : FcList F) (r1 r2 : Range) (name : Fcstring)
      (lists : Lists F) (status : Status)
      → KeepsKind other m_lists lists
      → KeepsKind other m_lists (fill_created l1 l2 r1 r2 name (lists, status))
  unfolding fill_created
  kind_fill_created m_lists other l1 l2 r1 r2 name lists Status.status_ok h =
      kind_fill_found m_lists other l1 l2 r1 r2 name lists (get_list lists name) refl h
  kind_fill_created m_lists other l1 l2 r1 r2 name lists _ h = h

  kind_into :
      (m_lists : Lists F) (other : Fcstring) (req : ListIntersect) (l1 l2 : FcList F)
      (name : Option Fcstring) (list_type : Option ListType)
      → KeepsKind other m_lists (do_intersect_into m_lists req l1 l2 name list_type).0
  unfolding do_intersect_into fill_new_list
  kind_into m_lists other req l1 l2 (some name) (some list_type) =
      let created = create_list m_lists name list_type true in
      kind_fill_created m_lists other l1 l2 req.list1_range req.list2_range name created.0 created.1
        (kind_create_list m_lists other name list_type true)
  kind_into m_lists other req l1 l2 (some name) none = kind_all other m_lists
  kind_into m_lists other req l1 l2 none (some list_type) = kind_all other m_lists
  kind_into m_lists other req l1 l2 none none = kind_all other m_lists

  pub kind_intersect :
      (m_lists : Lists F) (other : Fcstring) (req : ListIntersect) (o1 : Option (FcList F))
      (o2 : Option (FcList F) × FlatBuilder F)
      → KeepsKind other m_lists (intersect_when_found m_lists req o1 o2).0
  unfolding intersect_when_found do_intersect
  kind_intersect m_lists other req none (o2, fbb) = kind_all other m_lists
  kind_intersect m_lists other req (some l1) (none, fbb) = kind_all other m_lists
  kind_intersect m_lists other req (some l1) (some l2, fbb) =
      if_elim (λ (r : Handled F). KeepsKind other m_lists r.0) (can_intersect_with l1 l2)
        (λ e.
          kind_into m_lists other req l1 l2 (new_name req.new_list_name)
            (flex_type_to_list_type l1.m_flex_type))
        (λ e. kind_all other m_lists)
