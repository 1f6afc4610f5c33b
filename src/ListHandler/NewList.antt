-- ===== src/ListHandler/NewList.antt =====
-- ListIntersect into a new list.
use fcache.Base.{Option, none, some}
use fcache.Value.{ListValue}
use fcache.FcList.{FcList}
use fcache.ListHandler.Lists.{Lists}
use fcache.ListHandler.Intersecting.{ListIntersect, intersect_new}
use fcache.ListHandler.Invariant.Filling.{empty_like, new_fc_list}

module _ {F : Type 0} ⦃f : ListValue F⦄ where
  -- The sorted list of an intersection.
  abbrev pub intersection : ListIntersect → FcList F → FcList F → FcList F
  intersection req l1 l2 = record (new_fc_list l1.m_list) {
    m_list =
        intersect_new l1.m_list l2.m_list req.list1_range req.list2_range (empty_like l1.m_list);
  }

  -- The list that was there, or a new one.
  abbrev pub kept_or_made : Option (FcList F) → FcList F → FcList F
  kept_or_made none made = made
  kept_or_made (some l) made = l
