-- ===== src/Server/Dispatch.antt =====
-- `Server::onMessage`, `handleKv`, `handleList`, `sendFailure` and `send` (Server.cpp).
--
-- The FlatBuffers accessor `GetRequest` is generated code: it is the parameter `get_request`, the
-- request that stands in the bytes of a message, or `none` where it returns null.
use mathlib.Core.Option
use fcache.Base.{ℕ, List, [], ◌∷◌, Bool, Option, none, some, if◌then◌else◌}
use fcache.Value.{ListValue}
use fcache.FcList.{FlexItems}
use fcache.Response.{
  Status, status_parse_error, status_command_unknown, body_none, FlatBuilder,
  create_empty_body_response,
}
use fcache.Kv.DenseMap.{DenseMap}
use fcache.Kv.CachedValue.{FloatBytes}
use fcache.Kv.Handler.{
  KvHandler, KvHandled, handle_kv_set, handle_kv_get, handle_kv_rmv, handle_kv_add, handle_kv_count,
  handle_kv_contains, handle_kv_clear, handle_kv_clear_set,
}
use fcache.ListHandler.Lists.{Lists, Handled, handle_create}
use fcache.ListHandler.Adding.{handle_add, handle_append}
use fcache.ListHandler.Changing.{handle_delete, handle_remove, handle_remove_if, handle_set}
use fcache.ListHandler.Reading.{handle_get_range, handle_info}
use fcache.ListHandler.Intersecting.{handle_intersect}
use fcache.Server.Requests.{
  Ident, ident_kv, ident_list, ident_other, RequestBody, kv_set, kv_get, kv_rmv, kv_add, kv_count,
  kv_contains, kv_clear, kv_clear_set, list_create, list_add, list_delete, list_get_range,
  list_remove, list_remove_if, list_intersect, list_set, list_append, list_info, Request,
}

-- A `WebSocket *`, by its address.
abbrev pub WebSocket : Type 0
WebSocket = ℕ

-- What is sent to a client, as one binary message.
abbrev pub Sent : Type 0 → Type 0
Sent F = WebSocket × FlatBuilder F

module _ {F : Type 0} where
  abbrev pub send : WebSocket → FlatBuilder F → List (Sent F)
  send ws builder = (ws, builder) ∷ []

  -- The response has no body, which is the type NONE of the union.
  abbrev pub send_failure : WebSocket → FlatBuilder F → Status → List (Sent F)
  send_failure ws fbb status = send ws (create_empty_body_response fbb status body_none)

module _ {F : Type 0} ⦃f : ListValue F⦄ (c : FlexItems F) where
  -- The switch of `handleList`: `none` where the behaviour of a removal is undefined.
  unfoldable pub handle_list : Lists F → FlatBuilder F → RequestBody c → Option (Handled F)
  handle_list m_lists fbb (list_create req) = some (handle_create m_lists fbb req)
  handle_list m_lists fbb (list_add req) = some (handle_add c m_lists fbb req)
  handle_list m_lists fbb (list_delete req) = some (handle_delete m_lists fbb req)
  handle_list m_lists fbb (list_get_range req) = some (m_lists, handle_get_range m_lists fbb req)
  handle_list m_lists fbb (list_remove req) = handle_remove m_lists fbb req
  handle_list m_lists fbb (list_remove_if req) = some (handle_remove_if m_lists fbb req)
  handle_list m_lists fbb (list_intersect req) = some (handle_intersect m_lists fbb req)
  handle_list m_lists fbb (list_set req) = some (handle_set c m_lists fbb req)
  handle_list m_lists fbb (list_append req) = some (handle_append c m_lists fbb req)
  handle_list m_lists fbb (list_info req) = some (m_lists, handle_info m_lists fbb req)
  handle_list m_lists fbb _ =
      some (m_lists, create_empty_body_response fbb status_command_unknown body_none)

module _ {F : Type 0} ⦃f : ListValue F⦄ (c : FlexItems F) (b : FloatBytes F) (d : DenseMap) where
  pub record Server : Type 0 where
    pub m_kv_handler : KvHandler b d
    pub m_list_handler : Lists F
    pub m_clients : List WebSocket
    pub m_sockets : List ℕ
    pub m_run : Bool

  -- The switch of `handleKv`.
  unfoldable pub handle_kv : KvHandler b d → FlatBuilder F → RequestBody c → KvHandled b d
  handle_kv h fbb (kv_set req) = handle_kv_set b d h fbb req
  handle_kv h fbb (kv_get req) = (h, handle_kv_get b d h fbb req)
  handle_kv h fbb (kv_rmv req) = handle_kv_rmv b d h fbb req
  handle_kv h fbb (kv_add req) = handle_kv_add b d h fbb req
  handle_kv h fbb (kv_count group) = (h, handle_kv_count b d h fbb group)
  handle_kv h fbb (kv_contains req) = (h, handle_kv_contains b d h fbb req)
  handle_kv h fbb (kv_clear req) = handle_kv_clear b d h fbb req
  handle_kv h fbb (kv_clear_set req) = handle_kv_clear_set b d h fbb req
  handle_kv h fbb _ = (h, create_empty_body_response fbb status_command_unknown body_none)

  -- What a message leads to: the server after it, and what was sent.
  abbrev pub Served : Type 0
  Served = Server × List (Sent F)

  -- The switch on the ident.
  unfoldable pub handle_ident : Server → WebSocket → Ident → RequestBody c → Option Served
  unfolding handle_kv handle_list
  handle_ident s ws ident_kv body =
      let (h, fbb) = handle_kv s.m_kv_handler [] body in
      some (record s { m_kv_handler = h }, send ws fbb)
  handle_ident s ws ident_list body =
      Option.map (λ (r : Handled F). (record s { m_list_handler = r.0 }, send ws r.1))
        (handle_list c s.m_list_handler [] body)
  handle_ident s ws ident_other body = some (s, send_failure ws [] status_command_unknown)

  unfoldable pub handle_request : Server → WebSocket → Option (Request c) → Option Served
  unfolding handle_ident
  handle_request s ws none = some (s, send_failure ws [] status_parse_error)
  handle_request s ws (some request) = handle_ident s ws request.ident request.body

  module _ (get_request : List ℕ → Option (Request c)) where
    -- A message is read if its code is BINARY.
    unfoldable pub on_message : Server → WebSocket → List ℕ → Bool → Option Served
    unfolding handle_request
    on_message s ws message is_binary =
        if is_binary
        then handle_request s ws (get_request message)
        else some (s, send_failure ws [] status_parse_error)
