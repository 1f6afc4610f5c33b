-- ===== src/Server/Contents/Requests.antt =====
-- One KV request, as the switch of `handleKv` serves it, against the abstract store.
use fcache.Base.{◌≡◌, refl, ap, ◌∙◌, ◌&&◌, [], none, true, false}
use fcache.Value.{ListValue}
use fcache.FcList.{FlexItems}
use fcache.Response.{
  FlatBuilder, status_ok, status_command_unknown, body_none, body_kv_set, body_kv_add, body_kv_rmv,
  body_kv_clear, body_kv_clear_set, create_empty_body_response,
}
use fcache.Kv.DenseMap.{DenseMap}
use fcache.Kv.CachedValue.{FloatBytes}
use fcache.Kv.Requests.{group_name}
use fcache.Kv.Contents.{
  Contents, set_contents, remove_contents, clear_contents, clear_set_contents, is_there,
  are_supported, AreSound,
}
use fcache.Kv.Handler.{
  KvHandler, status_if, handle_kv_set, handle_kv_add, handle_kv_rmv, handle_kv_clear,
  handle_kv_clear_set,
}
use fcache.Kv.Handler.Refinement.{set_or_add_in-view}
use fcache.Kv.Handler.Removal.{clear_set_in-view}
use fcache.Kv.Handler.Simulation.{
  Simulates, has_named-is_there, set_or_add_in-Simulates, remove_in-Simulates, clear_in-Simulates,
  clear_set_in-Simulates,
}
use fcache.Kv.Handler.Simulation.Replies.{
  IsGetReply, IsCountReply, contains_reply, handle_kv_get-IsGetReply, handle_kv_count-IsCountReply,
  handle_kv_contains-contains_reply,
}
use fcache.Server.Requests.{
  RequestBody, kv_set, kv_get, kv_rmv, kv_add, kv_count, kv_contains, kv_clear, kv_clear_set,
}
use fcache.Server.Dispatch.{handle_kv}

module _ {F : Type 0} ⦃f : ListValue F⦄ (c : FlexItems F) where
  -- The values of a request are stored as they are, or of a type that is not stored.
  abbrev pub IsSoundBody : RequestBody c → Type 0
  IsSoundBody (kv_set req) = AreSound req.kv
  IsSoundBody (kv_add req) = AreSound req.kv
  IsSoundBody (kv_clear_set req) = AreSound req.kv
  IsSoundBody _ = Unit

  -- What a request does to the store.
  abbrev pub request_contents : Contents F → RequestBody c → Contents F
  request_contents s (kv_set req) = set_contents true s req.kv (group_name req.group)
  request_contents s (kv_add req) = set_contents false s req.kv (group_name req.group)
  request_contents s (kv_rmv req) = remove_contents s req.keys (group_name req.group)
  request_contents s (kv_clear req) = clear_contents s req.op (group_name req.group)
  request_contents s (kv_clear_set req) = clear_set_contents s req.kv (group_name req.group)
  request_contents s _ = s

  -- What a request is answered with.
  abbrev pub IsKvReply : Contents F → RequestBody c → FlatBuilder F → Type 0
  IsKvReply s (kv_set req) reply =
      reply ≡ create_empty_body_response [] (status_if (are_supported req.kv)) body_kv_set
  IsKvReply s (kv_add req) reply =
      reply ≡ create_empty_body_response [] (status_if (are_supported req.kv)) body_kv_add
  IsKvReply s (kv_rmv req) reply = reply ≡ create_empty_body_response [] status_ok body_kv_rmv
  IsKvReply s (kv_clear req) reply = reply ≡ create_empty_body_response [] status_ok body_kv_clear
  IsKvReply s (kv_clear_set req) reply =
      reply
      ≡ create_empty_body_response []
          (status_if (is_there s (group_name req.group) && are_supported req.kv)) body_kv_clear_set
  IsKvReply s (kv_get req) reply = IsGetReply s [] req.keys req.group reply
  IsKvReply s (kv_count group) reply = IsCountReply s [] group reply
  IsKvReply s (kv_contains req) reply = reply ≡ contains_reply s [] req.keys req.group
  IsKvReply s _ reply = reply ≡ create_empty_body_response [] status_command_unknown body_none

  module _ (b : FloatBytes F) (d : DenseMap) where
    -- A KV request does to the handler what it does to the store, and is answered by the store.
    pub handle_kv-IsKvReply :
        (h : KvHandler b d) (s : Contents F) (body : RequestBody c)
        → IsSoundBody body
        → Simulates b d h s
        → Simulates b d (handle_kv c b d h [] body).0 (request_contents s body)
          × IsKvReply s body (handle_kv c b d h [] body).1
    unfolding handle_kv handle_kv_set handle_kv_add handle_kv_rmv handle_kv_clear
        handle_kv_clear_set
    handle_kv-IsKvReply h s (kv_set req) ok q =
        let g = group_name req.group in
        (
          set_or_add_in-Simulates b d true h s req.kv g ok q,
          ap (λ v. create_empty_body_response [] (status_if v) body_kv_set)
              (set_or_add_in-view b d true h req.kv g none [] ok q.0).0,
        )
    handle_kv-IsKvReply h s (kv_add req) ok q =
        let g = group_name req.group in
        (
          set_or_add_in-Simulates b d false h s req.kv g ok q,
          ap (λ v. create_empty_body_response [] (status_if v) body_kv_add)
              (set_or_add_in-view b d false h req.kv g none [] ok q.0).0,
        )
    handle_kv-IsKvReply h s (kv_rmv req) ok q =
        (remove_in-Simulates b d h s req.keys (group_name req.group) q, refl)
    handle_kv-IsKvReply h s (kv_clear req) ok q =
        (clear_in-Simulates b d h s req.op (group_name req.group) q, refl)
    handle_kv-IsKvReply h s (kv_clear_set req) ok q =
        let g = group_name req.group in
        (
          clear_set_in-Simulates b d h s req.kv g ok q,
          ap (λ v. create_empty_body_response [] (status_if v) body_kv_clear_set)
              ((clear_set_in-view b d h req.kv g none [] ok q.0).0
                ∙ ap (λ x. x && are_supported req.kv) (has_named-is_there b d h s g q)),
        )
    handle_kv-IsKvReply h s (kv_get req) ok q =
        (q, handle_kv_get-IsGetReply b d h s [] req.keys req.group q)
    handle_kv-IsKvReply h s (kv_count group) ok q =
        (q, handle_kv_count-IsCountReply b d h s [] group q)
    handle_kv-IsKvReply h s (kv_contains req) ok q =
        (q, handle_kv_contains-contains_reply b d h s [] req.keys req.group q)
    handle_kv-IsKvReply h s _ ok q = (q, refl)
