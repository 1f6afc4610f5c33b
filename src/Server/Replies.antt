-- ===== src/Server/Replies.antt =====
-- What `onMessage` answers to every message.
use fcache.Base.{
  ℕ, ◌<◌, ◌≡◌, ◌≢◌, refl, List, [], ◌∷◌, Bool, true, false, Option, none, some, length,
  Option-cases, inl, inr,
}
use fcache.Value.{Fcstring, ListValue}
use fcache.FcList.{FlexItems}
use fcache.Response.{
  ResponseBody, body_none, body_kv_set, body_kv_get, body_kv_rmv, body_kv_add, body_kv_count,
  body_kv_contains, body_kv_clear, body_kv_clear_set, body_list_create, body_list_add,
  body_list_delete, body_list_get_range, body_list_remove, body_list_remove_if, body_list_intersect,
  body_list_set, body_list_append, body_list_info, FlatBuilder, FlexValue, Answers,
}
use fcache.Kv.DenseMap.{DenseMap}
use fcache.Kv.CachedValue.{FloatBytes}
use fcache.Kv.Handler.{
  KvHandler, get_from, get_named, contains_named, named_map, answer_get, handle_kv_set,
  handle_kv_get, handle_kv_rmv, handle_kv_add, handle_kv_count, handle_kv_contains, handle_kv_clear,
  handle_kv_clear_set,
}
use fcache.Kv.Requests.{KvKeys, group_name}
use fcache.ListHandler.Lists.{Lists, Handled, handle_create}
use fcache.ListHandler.Adding.{handle_add, handle_append}
use fcache.ListHandler.Changing.{handle_delete, handle_remove, handle_remove_if, handle_set}
use fcache.ListHandler.Reading.{handle_get_range, handle_info}
use fcache.ListHandler.Intersecting.{handle_intersect}
use fcache.ListHandler.Answers.{
  handle_add-Answers, handle_append-Answers, handle_set-Answers, handle_remove-Answers,
  handle_remove_if-Answers, handle_get_range-Answers, handle_info-Answers, handle_intersect-Answers,
}
use fcache.Server.Requests.{
  Ident, ident_kv, ident_list, ident_other, RequestBody, kv_set, kv_get, kv_rmv, kv_add, kv_count,
  kv_contains, kv_clear, kv_clear_set, list_create, list_add, list_delete, list_get_range,
  list_remove, list_remove_if, list_intersect, list_set, list_append, list_info, Request,
}
use fcache.Server.Dispatch.{
  WebSocket, Server, Served, handle_kv, handle_list, handle_ident, handle_request, on_message,
}

module _ {F : Type 0} ⦃f : ListValue F⦄ (c : FlexItems F) where
  -- The type of the response to a KV request.
  abbrev pub kv_reply_type : RequestBody c → ResponseBody
  kv_reply_type (kv_set req) = body_kv_set
  kv_reply_type (kv_get req) = body_kv_get
  kv_reply_type (kv_rmv req) = body_kv_rmv
  kv_reply_type (kv_add req) = body_kv_add
  kv_reply_type (kv_count group) = body_kv_count
  kv_reply_type (kv_contains req) = body_kv_contains
  kv_reply_type (kv_clear req) = body_kv_clear
  kv_reply_type (kv_clear_set req) = body_kv_clear_set
  kv_reply_type _ = body_none

  -- The type of the response to a list request.
  abbrev pub list_reply_type : RequestBody c → ResponseBody
  list_reply_type (list_create req) = body_list_create
  list_reply_type (list_add req) = body_list_add
  list_reply_type (list_delete req) = body_list_delete
  list_reply_type (list_get_range req) = body_list_get_range
  list_reply_type (list_remove req) = body_list_remove
  list_reply_type (list_remove_if req) = body_list_remove_if
  list_reply_type (list_intersect req) = body_list_intersect
  list_reply_type (list_set req) = body_list_set
  list_reply_type (list_append req) = body_list_append
  list_reply_type (list_info req) = body_list_info
  list_reply_type _ = body_none

  abbrev pub reply_type : Ident → RequestBody c → ResponseBody
  reply_type ident_kv body = kv_reply_type body
  reply_type ident_list body = list_reply_type body
  reply_type ident_other body = body_none

  -- The list requests that are answered: those that add have items, and a removal is defined.
  abbrev pub IsAnswerable : Lists F → RequestBody c → Type 0
  IsAnswerable m_lists (list_add req) = 0 < length req.items
  IsAnswerable m_lists (list_append req) = 0 < length req.items
  IsAnswerable m_lists (list_remove req) = handle_remove m_lists [] req ≢ none
  IsAnswerable m_lists _ = Unit

  module _ (b : FloatBytes F) (d : DenseMap) where
    handle_kv_get-Answers :
        (h : KvHandler b d) (fbb : FlatBuilder F) (req : KvKeys)
        → Answers body_kv_get (handle_kv_get b d h fbb req)
    unfolding handle_kv_get
    handle_kv_get-Answers h fbb req = by_keys req.keys req.group
      where
        answered :
            (entries : Option (List (Fcstring × FlexValue F)))
            → Answers body_kv_get (answer_get b d fbb entries)
        answered none = refl
        answered (some entries) = refl

        by_keys :
            (keys : Option (List Fcstring)) (group : Option Fcstring)
            → Answers body_kv_get (get_named b d h fbb keys group)
        by_keys none none = refl
        by_keys none (some name) =
            answered (get_from b d (named_map b d h (group_name (some name))) none)
        by_keys (some keys) group =
            answered (get_from b d (named_map b d h (group_name group)) (some keys))

    handle_kv_contains-Answers :
        (h : KvHandler b d) (fbb : FlatBuilder F) (req : KvKeys)
        → Answers body_kv_contains (handle_kv_contains b d h fbb req)
    unfolding handle_kv_contains
    handle_kv_contains-Answers h fbb req = by_keys req.keys req.group
      where
        by_keys :
            (keys : Option (List Fcstring)) (group : Option Fcstring)
            → Answers body_kv_contains (contains_named b d h fbb keys group)
        by_keys none group = refl
        by_keys (some keys) group = refl

    handle_kv-Answers :
        (h : KvHandler b d) (fbb : FlatBuilder F) (body : RequestBody c)
        → Answers (kv_reply_type body) (handle_kv c b d h fbb body).1
    unfolding handle_kv handle_kv_set handle_kv_add handle_kv_rmv handle_kv_clear
        handle_kv_clear_set handle_kv_count
    handle_kv-Answers h fbb (kv_set req) = refl
    handle_kv-Answers h fbb (kv_get req) = handle_kv_get-Answers h fbb req
    handle_kv-Answers h fbb (kv_rmv req) = refl
    handle_kv-Answers h fbb (kv_add req) = refl
    handle_kv-Answers h fbb (kv_count group) = refl
    handle_kv-Answers h fbb (kv_contains req) = handle_kv_contains-Answers h fbb req
    handle_kv-Answers h fbb (kv_clear req) = refl
    handle_kv-Answers h fbb (kv_clear_set req) = refl
    handle_kv-Answers h fbb _ = refl

  handle_list-Answers :
      (m_lists : Lists F) (body : RequestBody c)
      → IsAnswerable m_lists body
      → (r : Handled F) × (handle_list c m_lists [] body ≡ some r)
        × Answers (list_reply_type body) r.1
  unfolding handle_list handle_create handle_delete
  handle_list-Answers m_lists (list_create req) a = (handle_create m_lists [] req, refl, refl)
  handle_list-Answers m_lists (list_add req) a =
      (handle_add c m_lists [] req, refl, handle_add-Answers m_lists [] c req a)
  handle_list-Answers m_lists (list_delete req) a = (handle_delete m_lists [] req, refl, refl)
  handle_list-Answers m_lists (list_get_range req) a =
      ((m_lists, handle_get_range m_lists [] req), refl, handle_get_range-Answers m_lists [] req)
  handle_list-Answers m_lists (list_remove req) a =
      elim (Option-cases (handle_remove m_lists [] req)) [
        | inl e ↦ absurd (a e)
        | inr (r, e) ↦ (r, e, handle_remove-Answers m_lists [] req r e)
      ]
  handle_list-Answers m_lists (list_remove_if req) a =
      (handle_remove_if m_lists [] req, refl, handle_remove_if-Answers m_lists [] req)
  handle_list-Answers m_lists (list_intersect req) a =
      (handle_intersect m_lists [] req, refl, handle_intersect-Answers m_lists [] req)
  handle_list-Answers m_lists (list_set req) a =
      (handle_set c m_lists [] req, refl, handle_set-Answers m_lists [] c req)
  handle_list-Answers m_lists (list_append req) a =
      (handle_append c m_lists [] req, refl, handle_append-Answers m_lists [] c req a)
  handle_list-Answers m_lists (list_info req) a =
      ((m_lists, handle_info m_lists [] req), refl, handle_info-Answers m_lists [] req)
  handle_list-Answers m_lists _ a = (_, refl, refl)

module _ {F : Type 0} ⦃f : ListValue F⦄ (c : FlexItems F) (b : FloatBytes F) (d : DenseMap) where
  -- One buffer goes to the client, and its response is one to the given type of request.
  abbrev pub IsAnswered : WebSocket → ResponseBody → Option (Served c b d) → Type 0
  IsAnswered ws body_type served =
      (s : Server c b d) × (fbb : FlatBuilder F) × (served ≡ some (s, (ws, fbb) ∷ []))
      × Answers body_type fbb

  -- What a message asks for, as far as the code can read it.
  abbrev pub message_reply_type : Bool → Option (Request c) → ResponseBody
  message_reply_type false request = body_none
  message_reply_type true none = body_none
  message_reply_type true (some request) = reply_type c request.ident request.body

  -- A list request that is answered, or any other message.
  abbrev pub IsAnswerableMessage : Lists F → Option (Request c) → Type 0
  IsAnswerableMessage m_lists none = Unit
  IsAnswerableMessage m_lists (some request) = IsAnswerable c m_lists request.body

  handle_ident-IsAnswered :
      (s : Server c b d) (ws : WebSocket) (ident : Ident) (body : RequestBody c)
      → IsAnswerable c s.m_list_handler body
      → IsAnswered ws (reply_type c ident body) (handle_ident c b d s ws ident body)
  unfolding handle_ident
  handle_ident-IsAnswered s ws ident_kv body a =
      let r = handle_kv c b d s.m_kv_handler [] body in
      (record s { m_kv_handler = r.0 }, r.1, refl, handle_kv-Answers c b d s.m_kv_handler [] body)
  handle_ident-IsAnswered s ws ident_list body a =
      let (r, e, answered) = handle_list-Answers c s.m_list_handler body a in
      (record s { m_list_handler = r.0 }, r.1, rw e refl, answered)
  handle_ident-IsAnswered s ws ident_other body a = (s, _, refl, refl)

  module _ (get_request : List ℕ → Option (Request c)) where
    -- Every message is answered, unless it holds a list request to add or append that has no items,
    -- or one to remove whose removal is undefined: its handling is defined, and exactly one buffer
    -- is sent, to the client that the message came from. The response in it is of the type of the
    -- request, and of the type NONE where the message is not binary, holds no request, or holds one
    -- that its ident does not allow.
    pub on_message-IsAnswered :
        (s : Server c b d) (ws : WebSocket) (message : List ℕ) (is_binary : Bool)
        → IsAnswerableMessage s.m_list_handler (get_request message)
        → IsAnswered ws
            (message_reply_type is_binary (get_request message))
            (on_message c b d get_request s ws message is_binary)
    unfolding on_message handle_request
    on_message-IsAnswered s ws message false a = (s, _, refl, refl)
    on_message-IsAnswered s ws message true a = by_request (get_request message) a
      where
        by_request :
            (request : Option (Request c))
            → IsAnswerableMessage s.m_list_handler request
            → IsAnswered ws (message_reply_type true request) (handle_request c b d s ws request)
        by_request none a = (s, _, refl, refl)
        by_request (some request) a = handle_ident-IsAnswered s ws request.ident request.body a
