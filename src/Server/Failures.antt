-- ===== src/Server/Failures.antt =====
-- What a message that is answered with a failure has changed.
use fcache.Base.{
  IfDefined, IfDefined-map, IfDefined-imp, ℕ, ◌≡◌, refl, ap, subst, List, [], Bool, true, false,
  Option, none, some, if_elim,
}
use fcache.Base.Int.{pos}
use fcache.Value.{ListValue}
use fcache.FcList.{FlexItems}
use fcache.Response.{
  body_list_add, body_list_append, body_list_remove, body_list_remove_if, body_list_set,
  body_list_intersect, body_kv_set, body_kv_add, body_kv_clear_set, FlatBuilder, IsFailure,
}
use fcache.Kv.DenseMap.{DenseMap}
use fcache.Kv.CachedValue.{FloatBytes}
use fcache.Kv.Contents.{are_supported}
use fcache.Kv.Requests.{group_name}
use fcache.Kv.Handler.{
  KvHandler, set_or_add_in, clear_set_in, handle_kv_set, handle_kv_add, handle_kv_rmv,
  handle_kv_clear, handle_kv_clear_set,
}
use fcache.Kv.Handler.Failures.{set_or_add_in-valid, clear_set_in-valid, answer_failed}
use fcache.ListHandler.Lists.{Lists, have_list}
use fcache.ListHandler.Adding.{handle_add, handle_append, do_add_append}
use fcache.ListHandler.Changing.{handle_delete, handle_remove, handle_remove_if, handle_set}
use fcache.ListHandler.Intersecting.{handle_intersect}
use fcache.ListHandler.Failures.{
  FailsUnchanged, handle_create-FailsUnchanged, remove_when_found-FailsUnchanged,
  remove_if_when_found-FailsUnchanged, intersect_when_found-FailsUnchanged,
  add_when_found-FailsUnchanged, set_when_found-FailsUnchanged,
}
use fcache.Server.Requests.{
  Ident, ident_kv, ident_list, ident_other, RequestBody, kv_set, kv_rmv, kv_add, kv_clear,
  kv_clear_set, list_create, list_add, list_delete, list_remove, list_remove_if, list_intersect,
  list_set, list_append, Request,
}
use fcache.Server.Dispatch.{
  WebSocket, Server, Served, send, handle_kv, handle_list, handle_ident, handle_request, on_message,
}

module _ {F : Type 0} ⦃f : ListValue F⦄ (c : FlexItems F) where
  -- Whether each value that a request stores is of a type that the server stores.
  abbrev pub has_supported : RequestBody c → Bool
  has_supported (kv_set req) = are_supported req.kv
  has_supported (kv_add req) = are_supported req.kv
  has_supported (kv_clear_set req) = are_supported req.kv
  has_supported _ = true

  abbrev pub has_supported_request : Option (Request c) → Bool
  has_supported_request none = true
  has_supported_request (some request) = has_supported request.body

  handle_list-FailsUnchanged :
      (m_lists : Lists F) (body : RequestBody c)
      → IfDefined (FailsUnchanged m_lists) (handle_list c m_lists [] body)
  unfolding handle_list handle_add handle_append do_add_append handle_delete handle_remove
      handle_remove_if handle_set handle_intersect
  handle_list-FailsUnchanged m_lists (list_create req) = handle_create-FailsUnchanged m_lists [] req
  handle_list-FailsUnchanged m_lists (list_add req) =
      add_when_found-FailsUnchanged m_lists c req.name req.items false req.position req.items_sorted
        (have_list m_lists [] req.name body_list_add)
  handle_list-FailsUnchanged m_lists (list_delete req) = λ failed. absurd (failed refl)
  handle_list-FailsUnchanged m_lists (list_remove req) =
      remove_when_found-FailsUnchanged m_lists req (have_list m_lists [] req.name body_list_remove)
  handle_list-FailsUnchanged m_lists (list_remove_if req) =
      remove_if_when_found-FailsUnchanged m_lists req
        (have_list m_lists [] req.name body_list_remove_if)
  handle_list-FailsUnchanged m_lists (list_intersect req) =
      let first = have_list m_lists [] req.list1_name body_list_intersect in
      intersect_when_found-FailsUnchanged m_lists req first.0
        (have_list m_lists first.1 req.list2_name body_list_intersect)
  handle_list-FailsUnchanged m_lists (list_set req) =
      set_when_found-FailsUnchanged m_lists c req (have_list m_lists [] req.name body_list_set)
  handle_list-FailsUnchanged m_lists (list_append req) =
      add_when_found-FailsUnchanged m_lists c req.name req.items true (pos 0) false
        (have_list m_lists [] req.name body_list_append)
  handle_list-FailsUnchanged m_lists _ = λ failed. refl

module _ {F : Type 0} ⦃f : ListValue F⦄ (c : FlexItems F) (b : FloatBytes F) (d : DenseMap) where
  handle_kv_failed :
      (h : KvHandler b d) (body : RequestBody c)
      → has_supported c body ≡ true
      → IsFailure (handle_kv c b d h [] body).1
      → (handle_kv c b d h [] body).0 ≡ h
  unfolding handle_kv handle_kv_set handle_kv_add handle_kv_rmv handle_kv_clear handle_kv_clear_set
  handle_kv_failed h (kv_set req) e failed =
      let g = group_name req.group in
      let stopped = answer_failed b d [] body_kv_set (set_or_add_in b d true h req.kv g) failed in
      let valid = set_or_add_in-valid b d true h req.kv g e in absurd (cc)
  handle_kv_failed h (kv_add req) e failed =
      let g = group_name req.group in
      let stopped = answer_failed b d [] body_kv_add (set_or_add_in b d false h req.kv g) failed in
      let valid = set_or_add_in-valid b d false h req.kv g e in absurd (cc)
  handle_kv_failed h (kv_rmv req) e failed = absurd (failed refl)
  handle_kv_failed h (kv_clear req) e failed = absurd (failed refl)
  handle_kv_failed h (kv_clear_set req) e failed =
      let g = group_name req.group in
      clear_set_in-valid b d h req.kv g e
        (answer_failed b d [] body_kv_clear_set (clear_set_in b d h req.kv g) failed)
  handle_kv_failed h _ e failed = refl

  -- One reply was sent, and the server is as it was if that is a failure.
  abbrev IsFailedStep : Server c b d → WebSocket → Served c b d → Type 0
  IsFailedStep s ws r = (fbb : FlatBuilder F) × (r.1 ≡ send ws fbb) × (IsFailure fbb → r.0 ≡ s)

  handle_ident_failed :
      (s : Server c b d) (ws : WebSocket) (ident : Ident) (body : RequestBody c)
      → has_supported c body ≡ true
      → IfDefined (IsFailedStep s ws) (handle_ident c b d s ws ident body)
  unfolding handle_ident
  handle_ident_failed s ws ident_kv body e = (
    (handle_kv c b d s.m_kv_handler [] body).1,
    refl,
    λ failed.
        ap (λ h. record s { m_kv_handler = h }) (handle_kv_failed s.m_kv_handler body e failed),
  )
  handle_ident_failed s ws ident_list body e =
      IfDefined-map (IsFailedStep s ws) (λ r. (record s { m_list_handler = r.0 }, send ws r.1))
        (handle_list c s.m_list_handler [] body)
        (IfDefined-imp (FailsUnchanged s.m_list_handler)
          (λ r. IsFailedStep s ws (record s { m_list_handler = r.0 }, send ws r.1))
          (handle_list c s.m_list_handler [] body)
          (λ r unchanged.
            (r.1, refl, λ failed. ap (λ l. record s { m_list_handler = l }) (unchanged failed)))
          (handle_list-FailsUnchanged c s.m_list_handler body))
  handle_ident_failed s ws ident_other body e = (_, refl, λ failed. refl)

  handle_request_failed :
      (s : Server c b d) (ws : WebSocket) (request : Option (Request c))
      → has_supported_request c request ≡ true
      → IfDefined (IsFailedStep s ws) (handle_request c b d s ws request)
  unfolding handle_request
  handle_request_failed s ws none e = (_, refl, λ failed. refl)
  handle_request_failed s ws (some request) e =
      handle_ident_failed s ws request.ident request.body e

  -- A message whose answer has another status than Ok has changed nothing, neither the lists nor
  -- the keys nor the clients, unless it holds a KV request to set, to add or to clear and set some
  -- value of a type that the server does not store.
  pub on_message_failed :
      (get_request : List ℕ → Option (Request c)) (s s' : Server c b d) (ws : WebSocket)
      (message : List ℕ) (is_binary : Bool) (fbb : FlatBuilder F)
      → has_supported_request c (get_request message) ≡ true
      → on_message c b d get_request s ws message is_binary ≡ some (s', send ws fbb)
      → IsFailure fbb
      → s' ≡ s
  unfolding on_message
  on_message_failed get_request s s' ws message is_binary fbb supported e failed =
      let (reply, same, unchanged) = subst (IfDefined (IsFailedStep s ws)) e (
        if_elim (IfDefined (IsFailedStep s ws)) is_binary
          (λ _. handle_request_failed s ws (get_request message) supported)
          (λ _. (_, refl, λ _. refl))) in
      let equal : fbb ≡ reply = cc in unchanged (subst IsFailure equal failed)
