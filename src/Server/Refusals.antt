-- ===== src/Server/Refusals.antt =====
-- The messages that the server does not understand.
use mathlib.Core.Option
use fcache.Base.{
  ℕ, ◌≡◌, refl, ap, ◌∙◌, List, [], Bool, true, false, Option, none, some, if◌then◌else◌, Bool-cases,
  inl, inr,
}
use fcache.Value.{ListValue}
use fcache.FcList.{FlexItems}
use fcache.Response.{
  Status, status_parse_error, status_command_unknown, body_none, FlatBuilder,
  create_empty_body_response,
}
use fcache.Kv.DenseMap.{DenseMap}
use fcache.Kv.CachedValue.{FloatBytes}
use fcache.Kv.Handler.{KvHandler, KvHandled}
use fcache.ListHandler.Lists.{Lists, Handled}
use fcache.Server.Requests.{
  Ident, ident_kv, ident_list, ident_other, RequestBody, kv_set, kv_get, kv_rmv, kv_add, kv_count,
  kv_contains, kv_clear, kv_clear_set, list_create, list_add, list_delete, list_get_range,
  list_remove, list_remove_if, list_intersect, list_set, list_append, list_info, Request,
}
use fcache.Server.Dispatch.{
  WebSocket, Server, send, send_failure, handle_kv, handle_list, handle_ident, handle_request,
  on_message,
}

module _ {F : Type 0} ⦃f : ListValue F⦄ (c : FlexItems F) where
  abbrev pub is_kv_body : RequestBody c → Bool
  is_kv_body (kv_set req) = true
  is_kv_body (kv_get req) = true
  is_kv_body (kv_rmv req) = true
  is_kv_body (kv_add req) = true
  is_kv_body (kv_count group) = true
  is_kv_body (kv_contains req) = true
  is_kv_body (kv_clear req) = true
  is_kv_body (kv_clear_set req) = true
  is_kv_body _ = false

  abbrev pub is_list_body : RequestBody c → Bool
  is_list_body (list_create req) = true
  is_list_body (list_add req) = true
  is_list_body (list_delete req) = true
  is_list_body (list_get_range req) = true
  is_list_body (list_remove req) = true
  is_list_body (list_remove_if req) = true
  is_list_body (list_intersect req) = true
  is_list_body (list_set req) = true
  is_list_body (list_append req) = true
  is_list_body (list_info req) = true
  is_list_body _ = false

  abbrev pub is_of_ident : Ident → RequestBody c → Bool
  is_of_ident ident_kv body = is_kv_body body
  is_of_ident ident_list body = is_list_body body
  is_of_ident ident_other body = false

  -- The status with which a message is refused, if it is: it is not binary, it holds no request, or
  -- the table of the request is not one of its ident.
  abbrev pub refusal : Bool → Option (Request c) → Option Status
  refusal false request = some status_parse_error
  refusal true none = some status_parse_error
  refusal true (some request) =
      if is_of_ident request.ident request.body then none else some status_command_unknown

  handle_list_refused :
      (m_lists : Lists F) (fbb : FlatBuilder F) (body : RequestBody c)
      → is_list_body body ≡ false
      → handle_list c m_lists fbb body
        ≡ some (m_lists, create_empty_body_response fbb status_command_unknown body_none)
  unfolding handle_list
  handle_list_refused m_lists fbb (list_create req) e = absurd (cc)
  handle_list_refused m_lists fbb (list_add req) e = absurd (cc)
  handle_list_refused m_lists fbb (list_delete req) e = absurd (cc)
  handle_list_refused m_lists fbb (list_get_range req) e = absurd (cc)
  handle_list_refused m_lists fbb (list_remove req) e = absurd (cc)
  handle_list_refused m_lists fbb (list_remove_if req) e = absurd (cc)
  handle_list_refused m_lists fbb (list_intersect req) e = absurd (cc)
  handle_list_refused m_lists fbb (list_set req) e = absurd (cc)
  handle_list_refused m_lists fbb (list_append req) e = absurd (cc)
  handle_list_refused m_lists fbb (list_info req) e = absurd (cc)
  handle_list_refused m_lists fbb _ e = refl

module _ {F : Type 0} ⦃f : ListValue F⦄ (c : FlexItems F) (b : FloatBytes F) (d : DenseMap) where
  handle_kv_refused :
      (h : KvHandler b d) (fbb : FlatBuilder F) (body : RequestBody c)
      → is_kv_body c body ≡ false
      → handle_kv c b d h fbb body
        ≡ (h, create_empty_body_response fbb status_command_unknown body_none)
  unfolding handle_kv
  handle_kv_refused h fbb (kv_set req) e = absurd (cc)
  handle_kv_refused h fbb (kv_get req) e = absurd (cc)
  handle_kv_refused h fbb (kv_rmv req) e = absurd (cc)
  handle_kv_refused h fbb (kv_add req) e = absurd (cc)
  handle_kv_refused h fbb (kv_count group) e = absurd (cc)
  handle_kv_refused h fbb (kv_contains req) e = absurd (cc)
  handle_kv_refused h fbb (kv_clear req) e = absurd (cc)
  handle_kv_refused h fbb (kv_clear_set req) e = absurd (cc)
  handle_kv_refused h fbb _ e = refl

  handle_ident_refused :
      (s : Server c b d) (ws : WebSocket) (ident : Ident) (body : RequestBody c)
      → is_of_ident c ident body ≡ false
      → handle_ident c b d s ws ident body ≡ some (s, send_failure ws [] status_command_unknown)
  unfolding handle_ident
  handle_ident_refused s ws ident_kv body e =
      ap (λ (r : KvHandled b d). some (record s { m_kv_handler = r.0 }, send ws r.1))
        (handle_kv_refused s.m_kv_handler [] body e)
  handle_ident_refused s ws ident_list body e =
      ap (Option.map (λ (r : Handled F). (record s { m_list_handler = r.0 }, send ws r.1)))
        (handle_list_refused c s.m_list_handler [] body e)
  handle_ident_refused s ws ident_other body e = refl

  handle_request_refused :
      (s : Server c b d) (ws : WebSocket) (request : Option (Request c)) (status : Status)
      → refusal c true request ≡ some status
      → handle_request c b d s ws request ≡ some (s, send_failure ws [] status)
  unfolding handle_request
  handle_request_refused s ws none status e =
      let q : status_parse_error ≡ status = cc in ap (λ st. some (s, send_failure ws [] st)) q
  handle_request_refused s ws (some request) status e =
      elim (Bool-cases (is_of_ident c request.ident request.body)) [
        | inl is_of ↦ absurd (cc)
        | inr is_not ↦
            (let q : status_command_unknown ≡ status = cc in
              handle_ident_refused s ws request.ident request.body is_not
              ∙ ap (λ st. some (s, send_failure ws [] st)) q)
      ]

  -- A message that is not binary or holds no request is answered with a parse error, and one whose
  -- ident is unknown, or whose table is not one of its ident, with an unknown command. The answer
  -- has no body, it is the only one, and the server does not change.
  pub on_message_refused :
      (get_request : List ℕ → Option (Request c)) (s : Server c b d) (ws : WebSocket)
      (message : List ℕ) (is_binary : Bool) (status : Status)
      → refusal c is_binary (get_request message) ≡ some status
      → on_message c b d get_request s ws message is_binary ≡ some (s, send_failure ws [] status)
  unfolding on_message
  on_message_refused get_request s ws message false status e =
      let q : status_parse_error ≡ status = cc in ap (λ st. some (s, send_failure ws [] st)) q
  on_message_refused get_request s ws message true status e =
      handle_request_refused s ws (get_request message) status e
