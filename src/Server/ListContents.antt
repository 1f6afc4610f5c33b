-- ===== src/Server/ListContents.antt =====
-- The lists of the server against the abstract store, over every sequence of events.
use fcache.Base.{ℕ, ◌≡◌, List, [], Option, none, some, true, false}
use fcache.Base.Int.{pos}
use fcache.Value.{ListValue}
use fcache.FcList.{FlexItems}
use fcache.Store
use fcache.Response.{FlatBuilder, status_command_unknown, body_none, create_empty_body_response}
use fcache.Kv.DenseMap.{DenseMap}
use fcache.Kv.CachedValue.{FloatBytes}
use fcache.Kv.Handler.{KvHandler}
use fcache.ListHandler.Lists.{Lists, Handled}
use fcache.ListHandler.Invariant.{IsValid}
use fcache.ListHandler.Contents.{
  ListStore, Specified, spec_create, spec_delete, range_seen, info_seen, remove_seen,
  remove_if_seen,
}
use fcache.ListHandler.Contents.Intersecting.{intersect_seen}
use fcache.ListHandler.Contents.Adding.{add_seen, set_seen}
use fcache.ListHandler.Simulation.{IsSeen, Refines}
use fcache.Server.Requests.{
  ident_list, RequestBody, list_create, list_add, list_delete, list_get_range, list_remove,
  list_remove_if, list_intersect, list_set, list_append, list_info, Request,
}
use fcache.Server.Dispatch.{Served}
use fcache.Server.Events.{Event}
use fcache.Server.Refines.{IsRefined}

module _ {F : Type 0} ⦃f : ListValue F⦄ (c : FlexItems F) where
  -- What a list request does to the store, and the response to it.
  abbrev pub spec_list : ListStore F → RequestBody c → Specified F
  spec_list s (list_create req) = spec_create s [] req
  spec_list s (list_add req) = add_seen c s [] req.name req.items false req.position (s req.name)
  spec_list s (list_delete req) = spec_delete s [] req
  spec_list s (list_get_range req) = (s, range_seen [] req (s req.name))
  spec_list s (list_remove req) = remove_seen s [] req (s req.name)
  spec_list s (list_remove_if req) = remove_if_seen s [] req (s req.name)
  spec_list s (list_intersect req) = intersect_seen s [] req (s req.list1_name) (s req.list2_name)
  spec_list s (list_set req) = set_seen c s [] req (s req.name)
  spec_list s (list_append req) = add_seen c s [] req.name req.items true (pos 0) (s req.name)
  spec_list s (list_info req) = (s, info_seen [] (s req.name))
  spec_list s _ = (s, create_empty_body_response [] status_command_unknown body_none)

  abbrev pub message_lists : ListStore F → Option (Request c) → ListStore F
  message_lists s none = s
  message_lists s (some request) = elim request.ident [
    | ident_list ↦ (spec_list s request.body).0
    | _ ↦ s
  ]

  abbrev pub IsListReply : ListStore F → Option (Request c) → FlatBuilder F → Type 0
  IsListReply s none reply = Unit
  IsListReply s (some request) reply = elim request.ident [
    | ident_list ↦ reply ≡ (spec_list s request.body).1
    | _ ↦ Unit
  ]

  -- Every list is well formed, and the lists are those of the store.
  abbrev pub ListSim : Lists F → ListStore F → Type 0
  ListSim m_lists s = IsValid m_lists × IsSeen m_lists s

  abbrev IsSpecified : Specified F → Handled F → Type 0
  IsSpecified k r = ListSim r.0 k.0 × (r.1 ≡ k.1)

module _ {F : Type 0} ⦃f : ListValue F⦄ (c : FlexItems F) (b : FloatBytes F) (d : DenseMap) where
  abbrev pub ServerListSim : KvHandler b d → Lists F → ListStore F → Type 0
  ServerListSim h m_lists s = ListSim c m_lists s

  -- The lists are those of the store that some events lead to, by which they were answered.
  abbrev pub IsListRun :
      (List ℕ → Option (Request c)) → ListStore F → List Event → Served c b d → Type 0
  IsListRun get_request =
      IsRefined c b d ServerListSim (message_lists c) (IsListReply c) get_request
