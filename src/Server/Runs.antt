-- ===== src/Server/Runs.antt =====
-- What holds of the server after every sequence of events.
use fcache.Base.{
  IfDefined, IfDefined-map, IfDefined-imp, ℕ, ◌≡◌, refl, List, [], ◌∷◌, map, Bool, true, false,
  Option, none, some,
}
use fcache.Value.{ListValue}
use fcache.FcList.{FlexItems, FcList}
use fcache.Kv.DenseMap.{DenseMap}
use fcache.Kv.CachedValue.{FloatBytes}
use fcache.Kv.Handler.{KvHandler}
use fcache.Kv.Handler.Steps as Kv
use fcache.Kv.Handler.Steps.{reachable-IsValidKv}
use fcache.ListHandler.Lists.{Lists, Handled}
use fcache.ListHandler.Changing.{handle_remove}
use fcache.ListHandler.Invariant.Adding.{AsClaimed}
use fcache.ListHandler.Runs as ListRuns
use fcache.ListHandler.Runs.{reachable-IsValid}
use fcache.Server.Requests.{
  Ident, ident_kv, ident_list, ident_other, RequestBody, kv_set, kv_rmv, kv_add, kv_clear,
  kv_clear_set, list_create, list_add, list_delete, list_remove, list_remove_if, list_intersect,
  list_set, list_append, Request,
}
use fcache.Server.Dispatch.{
  WebSocket, Server, Served, send, handle_kv, handle_list, handle_ident, handle_request, on_message,
}
use fcache.Server.Events.{Event, received}

module _ {F : Type 0} ⦃f : ListValue F⦄ (c : FlexItems F) where
  -- The items of a ListAdd are ascending if it says so.
  abbrev pub IsHonest : RequestBody c → Type 0
  IsHonest (list_add req) = (l : FcList F) → AsClaimed c req.items req.items_sorted l
  IsHonest _ = Unit

  abbrev pub IsHonestRequest : Option (Request c) → Type 0
  IsHonestRequest none = Unit
  IsHonestRequest (some request) = IsHonest request.body

  -- What a list request does to the lists, if it is as it claims.
  abbrev pub KeepsReachable : Type 0 → Lists F → Handled F → Type 0
  KeepsReachable IsAsClaimed m_lists q =
      IsAsClaimed → ListRuns.IsReachable c m_lists → ListRuns.IsReachable c q.0

  handle_list-KeepsReachable :
      (m_lists : Lists F) (body : RequestBody c)
      → IfDefined (KeepsReachable (IsHonest body) m_lists) (handle_list c m_lists [] body)
  unfolding handle_list
  handle_list-KeepsReachable m_lists (list_create req) = λ h. ListRuns.then_create m_lists [] req
  handle_list-KeepsReachable m_lists (list_add req) =
      λ h. ListRuns.then_add m_lists [] req (λ l e. h l)
  handle_list-KeepsReachable m_lists (list_delete req) = λ h. ListRuns.then_delete m_lists [] req
  handle_list-KeepsReachable m_lists (list_remove req) =
      by_result (handle_remove m_lists [] req) refl
    where
      by_result :
          (o : Option (Handled F))
          → handle_remove m_lists [] req ≡ o
          → IfDefined (KeepsReachable (Unit {0}) m_lists) o
      by_result none e = tt
      by_result (some q) e = λ h. ListRuns.then_remove m_lists [] req q e
  handle_list-KeepsReachable m_lists (list_remove_if req) =
      λ h. ListRuns.then_remove_if m_lists [] req
  handle_list-KeepsReachable m_lists (list_intersect req) =
      λ h. ListRuns.then_intersect m_lists [] req
  handle_list-KeepsReachable m_lists (list_set req) = λ h. ListRuns.then_set m_lists [] req
  handle_list-KeepsReachable m_lists (list_append req) = λ h. ListRuns.then_append m_lists [] req
  handle_list-KeepsReachable m_lists _ = λ h r. r

  module _ (b : FloatBytes F) (d : DenseMap) where
    handle_kv-IsReachable :
        (h : KvHandler b d) (body : RequestBody c)
        → Kv.IsReachable b d h
        → Kv.IsReachable b d (handle_kv c b d h [] body).0
    unfolding handle_kv
    handle_kv-IsReachable h (kv_set req) r = Kv.then_set h [] req r
    handle_kv-IsReachable h (kv_add req) r = Kv.then_add h [] req r
    handle_kv-IsReachable h (kv_rmv req) r = Kv.then_rmv h [] req r
    handle_kv-IsReachable h (kv_clear req) r = Kv.then_clear h [] req r
    handle_kv-IsReachable h (kv_clear_set req) r = Kv.then_clear_set h [] req r
    handle_kv-IsReachable h _ r = r

module _ {F : Type 0} ⦃f : ListValue F⦄ (c : FlexItems F) (b : FloatBytes F) (d : DenseMap) where
  abbrev pub IsReachableServer : Server c b d → Type 0
  IsReachableServer s = Kv.IsReachable b d s.m_kv_handler × ListRuns.IsReachable c s.m_list_handler

  -- What a message does to the server: it keeps the containers reachable, if it is as it claims,
  -- and sends one buffer to the client that it came from.
  abbrev pub IsMessageStep : Type 0 → Server c b d → WebSocket → Served c b d → Type 0
  IsMessageStep IsAsClaimed s ws r =
      (IsAsClaimed → IsReachableServer s → IsReachableServer r.0)
      × (r.0.m_clients ≡ s.m_clients)
      × (r.0.m_run ≡ s.m_run)
      × (map (λ sent. sent.0) r.1 ≡ ws ∷ [])

  handle_ident-IsMessageStep :
      (s : Server c b d) (ws : WebSocket) (ident : Ident) (body : RequestBody c)
      → IfDefined (IsMessageStep (IsHonest c body) s ws) (handle_ident c b d s ws ident body)
  unfolding handle_ident
  handle_ident-IsMessageStep s ws ident_kv body =
      ((λ h r. (handle_kv-IsReachable c b d s.m_kv_handler body r.0, r.1)), refl, refl, refl)
  handle_ident-IsMessageStep s ws ident_list body =
      let handled = handle_list c s.m_list_handler [] body in
      IfDefined-map (IsMessageStep (IsHonest c body) s ws)
        (λ r. (record s { m_list_handler = r.0 }, send ws r.1)) handled
        (IfDefined-imp (KeepsReachable c (IsHonest c body) s.m_list_handler)
          (λ r.
            IsMessageStep (IsHonest c body) s ws (record s { m_list_handler = r.0 }, send ws r.1))
          handled (λ r keeps. ((λ h q. (q.0, keeps h q.1)), refl, refl, refl))
          (handle_list-KeepsReachable c s.m_list_handler body))
  handle_ident-IsMessageStep s ws ident_other body = ((λ h r. r), refl, refl, refl)

  module _ (get_request : List ℕ → Option (Request c)) where
    pub on_message-IsMessageStep :
        (s : Server c b d) (ws : WebSocket) (message : List ℕ) (is_binary : Bool)
        → IfDefined
            (IsMessageStep (IsHonestRequest c (get_request message)) s ws)
            (on_message c b d get_request s ws message is_binary)
    unfolding on_message handle_request
    on_message-IsMessageStep s ws message false = ((λ h r. r), refl, refl, refl)
    on_message-IsMessageStep s ws message true = by_request (get_request message)
      where
        by_request :
            (request : Option (Request c))
            → IfDefined
                (IsMessageStep (IsHonestRequest c request) s ws)
                (handle_request c b d s ws request)
        by_request none = ((λ h r. r), refl, refl, refl)
        by_request (some request) = handle_ident-IsMessageStep s ws request.ident request.body

    -- Every ListAdd among the events says of its items what is so.
    abbrev pub AreHonest : List Event → Type 0
    AreHonest [] = Unit
    AreHonest (received ws message is_binary ∷ events) =
        IsHonestRequest c (get_request message) × AreHonest events
    AreHonest (_ ∷ events) = AreHonest events
