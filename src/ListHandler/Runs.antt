-- ===== src/ListHandler/Runs.antt =====
-- The runs of the server as far as they are list requests, one after the other from no lists.
use fcache.Base.{◌≡◌, [], some}
use fcache.Value.{ListValue}
use fcache.FcList.{FlexItems, FcList}
use fcache.Response.{FlatBuilder}
use fcache.ListHandler.Lists.{Lists, Handled, ListCreate, get_list, handle_create}
use fcache.ListHandler.Adding.{ListAdd, ListAppend, handle_add, handle_append}
use fcache.ListHandler.Changing.{
  ListDelete, ListRemove, ListRemoveIf, ListSet, handle_delete, handle_remove, handle_remove_if,
  handle_set,
}
use fcache.ListHandler.Intersecting.{ListIntersect, handle_intersect}
use fcache.ListHandler.Invariant.{IsValid, handle_create-IsValid, handle_delete-IsValid}
use fcache.ListHandler.Invariant.Adding.{AsClaimed, handle_add-IsValid, handle_append-IsValid}
use fcache.ListHandler.Invariant.Changing.{
  handle_remove-IsValid, handle_remove_if-IsValid, handle_set-IsValid,
}
use fcache.ListHandler.Invariant.Intersecting.{handle_intersect-IsValid}

module _ {F : Type 0} ⦃f : ListValue F⦄ (c : FlexItems F) where
  -- The lists that the requests lead to, where the items of each ListAdd are ascending if it says
  -- so, and no ListRemove has undefined behaviour. ListGetRange and ListInfo change no list.
  pub data IsReachable : Lists F → Type 0 where
    nothing_made : IsReachable []
    then_create :
        (m_lists : Lists F) (fbb : FlatBuilder F) (req : ListCreate)
        → IsReachable m_lists
        → IsReachable (handle_create m_lists fbb req).0
    then_add :
        (m_lists : Lists F) (fbb : FlatBuilder F) (req : ListAdd c)
        → ((l : FcList F)
            → get_list m_lists req.name ≡ some l
            → AsClaimed c req.items req.items_sorted l)
        → IsReachable m_lists
        → IsReachable (handle_add c m_lists fbb req).0
    then_append :
        (m_lists : Lists F) (fbb : FlatBuilder F) (req : ListAppend c)
        → IsReachable m_lists
        → IsReachable (handle_append c m_lists fbb req).0
    then_set :
        (m_lists : Lists F) (fbb : FlatBuilder F) (req : ListSet c)
        → IsReachable m_lists
        → IsReachable (handle_set c m_lists fbb req).0
    then_delete :
        (m_lists : Lists F) (fbb : FlatBuilder F) (req : ListDelete)
        → IsReachable m_lists
        → IsReachable (handle_delete m_lists fbb req).0
    then_remove :
        (m_lists : Lists F) (fbb : FlatBuilder F) (req : ListRemove) (r : Handled F)
        → handle_remove m_lists fbb req ≡ some r
        → IsReachable m_lists
        → IsReachable r.0
    then_remove_if :
        (m_lists : Lists F) (fbb : FlatBuilder F) (req : ListRemoveIf F)
        → IsReachable m_lists
        → IsReachable (handle_remove_if m_lists fbb req).0
    then_intersect :
        (m_lists : Lists F) (fbb : FlatBuilder F) (req : ListIntersect)
        → IsReachable m_lists
        → IsReachable (handle_intersect m_lists fbb req).0

  -- After every sequence of list requests, every list is well formed: it has the types that it is
  -- stored with, and it is ascending if it was created sorted.
  pub reachable-IsValid : (m_lists : Lists F) → IsReachable m_lists → IsValid m_lists
  reachable-IsValid _ nothing_made = tt
  reachable-IsValid _ (then_create m_lists fbb req r) =
      handle_create-IsValid m_lists fbb req (reachable-IsValid m_lists r)
  reachable-IsValid _ (then_add m_lists fbb req claimed r) =
      handle_add-IsValid c m_lists fbb req (reachable-IsValid m_lists r) claimed
  reachable-IsValid _ (then_append m_lists fbb req r) =
      handle_append-IsValid c m_lists fbb req (reachable-IsValid m_lists r)
  reachable-IsValid _ (then_set m_lists fbb req r) =
      handle_set-IsValid c m_lists fbb req (reachable-IsValid m_lists r)
  reachable-IsValid _ (then_delete m_lists fbb req r) =
      handle_delete-IsValid m_lists fbb req (reachable-IsValid m_lists r)
  reachable-IsValid _ (then_remove m_lists fbb req result e r) =
      handle_remove-IsValid m_lists fbb req result e (reachable-IsValid m_lists r)
  reachable-IsValid _ (then_remove_if m_lists fbb req r) =
      handle_remove_if-IsValid m_lists fbb req (reachable-IsValid m_lists r)
  reachable-IsValid _ (then_intersect m_lists fbb req r) =
      handle_intersect-IsValid m_lists fbb req (reachable-IsValid m_lists r)
