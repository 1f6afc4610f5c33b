-- ===== src/Server/Kinds.antt =====
-- A list keeps its type and its order until it is deleted.
use fcache.Base.{IfDefined, ℕ, ◌≡◌, List, [], Bool, true, false, Option, some}
use fcache.Base.Int.{pos}
use fcache.Value.{Fcstring, ListValue}
use fcache.FcList.{FlexItems}
use fcache.Response.{
  body_list_add, body_list_append, body_list_remove, body_list_remove_if, body_list_set,
  body_list_intersect,
}
use fcache.Kv.DenseMap.{DenseMap}
use fcache.Kv.CachedValue.{FloatBytes}
use fcache.ListHandler.Lists.{Lists, Handled, get_list, have_list, handle_create}
use fcache.ListHandler.Adding.{handle_add, handle_append, do_add_append}
use fcache.ListHandler.Changing.{handle_delete, handle_remove, handle_remove_if, handle_set}
use fcache.ListHandler.Intersecting.{handle_intersect}
use fcache.ListHandler.Frame.{is_deleted}
use fcache.Server.Requests.{
  RequestBody, list_create, list_add, list_delete, list_remove, list_remove_if, list_intersect,
  list_set, list_append, Request,
}
use fcache.Server.Dispatch.{Server, Served, handle_list}
use fcache.Server.Preserved.{any_event, event_excluded, run-preserves}
use fcache.Server.Events.{Event, run}
use fcache.ListHandler.Found.{have_list-get_list}
use fcache.ListHandler.Kinds.{
  KeepsKind, SameKind, kind_all, kind_trans, kind_create_list, kind_remove, kind_remove_if,
  kind_add, kind_set,
}
use fcache.ListHandler.Kinds.Intersecting.{kind_delete, kind_intersect}
use fcache.FcList.{FcList}

module _ {F : Type 0} ⦃f : ListValue F⦄ (c : FlexItems F) where
  -- Whether a list request deletes the list of a name.
  abbrev pub deletes_list : RequestBody c → Fcstring → Bool
  deletes_list (list_delete req) other = is_deleted req.name other
  deletes_list _ other = false

  handle_list-KeepsKind :
      (m_lists : Lists F) (body : RequestBody c) (other : Fcstring)
      → deletes_list body other ≡ false
      → IfDefined (λ (r : Handled F). KeepsKind other m_lists r.0) (handle_list c m_lists [] body)
  unfolding handle_list handle_create handle_add handle_append do_add_append handle_delete
      handle_remove handle_remove_if handle_set handle_intersect
  handle_list-KeepsKind m_lists (list_create req) other e =
      kind_create_list m_lists other req.name req.list_type req.sorted
  handle_list-KeepsKind m_lists (list_add req) other e =
      kind_add c m_lists other req.name req.items false req.position req.items_sorted
        (have_list m_lists [] req.name body_list_add)
        (have_list-get_list m_lists [] req.name body_list_add)
  handle_list-KeepsKind m_lists (list_delete req) other e = kind_delete m_lists other req.name e
  handle_list-KeepsKind m_lists (list_remove req) other e =
      kind_remove m_lists other req (have_list m_lists [] req.name body_list_remove)
        (have_list-get_list m_lists [] req.name body_list_remove)
  handle_list-KeepsKind m_lists (list_remove_if req) other e =
      kind_remove_if m_lists other req (have_list m_lists [] req.name body_list_remove_if)
        (have_list-get_list m_lists [] req.name body_list_remove_if)
  handle_list-KeepsKind m_lists (list_intersect req) other e =
      let first = have_list m_lists [] req.list1_name body_list_intersect in
      kind_intersect m_lists other req first.0
        (have_list m_lists first.1 req.list2_name body_list_intersect)
  handle_list-KeepsKind m_lists (list_set req) other e =
      kind_set c m_lists other req (have_list m_lists [] req.name body_list_set)
        (have_list-get_list m_lists [] req.name body_list_set)
  handle_list-KeepsKind m_lists (list_append req) other e =
      kind_add c m_lists other req.name req.items true (pos 0) false
        (have_list m_lists [] req.name body_list_append)
        (have_list-get_list m_lists [] req.name body_list_append)
  handle_list-KeepsKind m_lists _ other e = kind_all other m_lists

  -- A list that no request among the events deletes is there after them, if their removals are
  -- defined. Its type is the one that it had, and it is sorted if and only if it was. A request to
  -- delete that has no names deletes every list.
  pub run-SameKind :
      (b : FloatBytes F) (d : DenseMap) (get_request : List ℕ → Option (Request c))
      (s : Server c b d) (events : List Event) (r : Served c b d) (name : Fcstring) (l : FcList F)
      → any_event (event_excluded c get_request (λ body. deletes_list body name)) events ≡ false
      → run c b d get_request s events ≡ some r
      → get_list s.m_list_handler name ≡ some l
      → (l' : FcList F) × (get_list r.0.m_list_handler name ≡ some l') × SameKind l l'
  run-SameKind b d get_request s events r name l h e =
      run-preserves c get_request (λ body. deletes_list body name) b d (KeepsKind name)
        (kind_all name) (kind_trans name)
        (λ m_lists body k. handle_list-KeepsKind m_lists body name k) s events r h e l
