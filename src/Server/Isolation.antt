-- ===== src/Server/Isolation.antt =====
-- A message changes no list but those that it names.
use fcache.Base.{
  IfDefined, IfDefined-imp, ℕ, ◌≡◌, refl, ◌∙◌, List, [], Bool, true, false, Option, some,
}
use fcache.Base.Int.{pos}
use fcache.Value.{Fcstring, ListValue, str_eq}
use fcache.FcList.{FlexItems}
use fcache.Response.{
  body_list_add, body_list_append, body_list_remove, body_list_remove_if, body_list_set,
  body_list_intersect,
}
use fcache.Kv.DenseMap.{DenseMap}
use fcache.Kv.CachedValue.{FloatBytes}
use fcache.ListHandler.Lists.{Lists, Handled, get_list, have_list, handle_create}
use fcache.ListHandler.Adding.{handle_add, handle_append, do_add_append}
use fcache.ListHandler.Changing.{handle_delete, handle_remove, handle_remove_if, handle_set}
use fcache.ListHandler.Intersecting.{new_name, handle_intersect}
use fcache.ListHandler.Frame.{
  is_deleted, is_new, delete_lists_lem, keeps_create_list, keeps_remove, keeps_remove_if, keeps_add,
  keeps_set,
}
use fcache.ListHandler.Frame.Intersecting.{keeps_intersect}
use fcache.Server.Requests.{
  RequestBody, list_create, list_add, list_delete, list_remove, list_remove_if, list_intersect,
  list_set, list_append, Request,
}
use fcache.Server.Dispatch.{Server, Served, handle_list}
use fcache.Server.Preserved.{any_event, event_excluded, run-preserves}
use fcache.Server.Events.{Event, run}

module _ {F : Type 0} ⦃f : ListValue F⦄ (c : FlexItems F) where
  -- Whether a list request may change the list of a name.
  abbrev pub names_list : RequestBody c → Fcstring → Bool
  names_list (list_create req) other = str_eq req.name other
  names_list (list_add req) other = str_eq req.name other
  names_list (list_delete req) other = is_deleted req.name other
  names_list (list_remove req) other = str_eq req.name other
  names_list (list_remove_if req) other = str_eq req.name other
  names_list (list_intersect req) other = is_new (new_name req.new_list_name) other
  names_list (list_set req) other = str_eq req.name other
  names_list (list_append req) other = str_eq req.name other
  names_list _ other = false

  handle_list-get_list :
      (m_lists : Lists F) (body : RequestBody c) (other : Fcstring)
      → names_list body other ≡ false
      → IfDefined
          (λ (r : Handled F). get_list r.0 other ≡ get_list m_lists other)
          (handle_list c m_lists [] body)
  unfolding handle_list handle_create handle_add handle_append do_add_append handle_delete
      handle_remove handle_remove_if handle_set handle_intersect
  handle_list-get_list m_lists (list_create req) other e =
      keeps_create_list m_lists req.name req.list_type req.sorted other e
  handle_list-get_list m_lists (list_add req) other e =
      keeps_add c m_lists req.name req.items false req.position req.items_sorted
        (have_list m_lists [] req.name body_list_add) other e
  handle_list-get_list m_lists (list_delete req) other e =
      delete_lists_lem req.name m_lists other ∙ rw e refl
  handle_list-get_list m_lists (list_remove req) other e =
      IfDefined-imp
        (λ (r : Handled F).
          (other : Fcstring)
          → str_eq req.name other ≡ false
          → get_list r.0 other ≡ get_list m_lists other)
        (λ (r : Handled F). get_list r.0 other ≡ get_list m_lists other)
        (handle_remove m_lists [] req) (λ r h. h other e)
        (keeps_remove m_lists req (have_list m_lists [] req.name body_list_remove))
  handle_list-get_list m_lists (list_remove_if req) other e =
      keeps_remove_if m_lists req (have_list m_lists [] req.name body_list_remove_if) other e
  handle_list-get_list m_lists (list_intersect req) other e =
      let first = have_list m_lists [] req.list1_name body_list_intersect in
      keeps_intersect m_lists req first.0
        (have_list m_lists first.1 req.list2_name body_list_intersect) other e
  handle_list-get_list m_lists (list_set req) other e =
      keeps_set c m_lists req (have_list m_lists [] req.name body_list_set) other e
  handle_list-get_list m_lists (list_append req) other e =
      keeps_add c m_lists req.name req.items true (pos 0) false
        (have_list m_lists [] req.name body_list_append) other e
  handle_list-get_list m_lists _ other e = refl

  -- No sequence of events whose removals are defined changes a list, or makes or deletes it, that
  -- none of its list requests names: as the list to create, to add to, to change, to remove from or
  -- to delete, or as the new list of an intersection. A request to delete that has no names names
  -- every list.
  pub run-get_list :
      (b : FloatBytes F) (d : DenseMap) (get_request : List ℕ → Option (Request c))
      (s : Server c b d) (events : List Event) (r : Served c b d) (other : Fcstring)
      → any_event (event_excluded c get_request (λ body. names_list body other)) events ≡ false
      → run c b d get_request s events ≡ some r
      → get_list r.0.m_list_handler other ≡ get_list s.m_list_handler other
  run-get_list b d get_request s events r other =
      run-preserves c get_request (λ body. names_list body other) b d
        (λ l l'. get_list l' other ≡ get_list l other) (λ l. refl) (λ l l' l'' h k. k ∙ h)
        (λ l body e. handle_list-get_list l body other e) s events r
