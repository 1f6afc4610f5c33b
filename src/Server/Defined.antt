-- ===== src/Server/Defined.antt =====
-- Every sequence of events is served to its end, unless a removal is undefined.
use mathlib.Core.Option
use fcache.Base.{
  IsDefined, bind-IsDefined, map-IsDefined, IsDefined-result, ℕ, ◌≡◌, List, [], ◌∷◌, ◌++◌, Bool,
  true, false, Option, none, some,
}
use fcache.Value.{ListValue}
use fcache.FcList.{FlexItems, FcVariant, ints, uints, strings, floats, FcList, visit_defined}
use fcache.Response.{FlatBuilder, status_ok, body_list_remove, create_empty_body_response}
use fcache.Kv.DenseMap.{DenseMap}
use fcache.Kv.CachedValue.{FloatBytes}
use fcache.Operation.Remove.{remove}
use fcache.Operation.Remove.Defined.{is_forward, remove-IsDefined}
use fcache.ListHandler.Lists.{Lists, Handled, put_list, have_list}
use fcache.ListHandler.Changing.{ListRemove, remove_when_found, handle_remove}
use fcache.Server.Requests.{
  Ident, ident_kv, ident_list, ident_other, RequestBody, list_remove, Request,
}
use fcache.Server.Dispatch.{
  WebSocket, Server, Served, send, handle_list, handle_ident, handle_request, on_message,
}
use fcache.Server.Events.{
  Event, opened, received, drained, closed, on_open, on_close, on_event, run,
}
use fcache.Server.Refines.{read_request, AllRequests}

module _ {F : Type 0} where
  visit_defined-IsDefined :
      (req : ListRemove) (v : FcVariant F)
      → is_forward req.range.start req.range.stop req.range.has_stop ≡ true
      → IsDefined (
          visit_defined (λ A list. remove req.range.start req.range.stop req.range.has_stop list) v)
  visit_defined-IsDefined req (ints l) h =
      map-IsDefined ints _ (remove-IsDefined req.range.start req.range.stop req.range.has_stop l h)
  visit_defined-IsDefined req (uints l) h =
      map-IsDefined uints _ (remove-IsDefined req.range.start req.range.stop req.range.has_stop l h)
  visit_defined-IsDefined req (strings l) h =
      map-IsDefined strings _
        (remove-IsDefined req.range.start req.range.stop req.range.has_stop l h)
  visit_defined-IsDefined req (floats l) h =
      map-IsDefined floats _
        (remove-IsDefined req.range.start req.range.stop req.range.has_stop l h)

  remove_when_found-IsDefined :
      (m_lists : Lists F) (req : ListRemove) (o : Option (FcList F) × FlatBuilder F)
      → is_forward req.range.start req.range.stop req.range.has_stop ≡ true
      → IsDefined (remove_when_found m_lists req o)
  unfolding remove_when_found
  remove_when_found-IsDefined m_lists req (none, fbb) h = tt
  remove_when_found-IsDefined m_lists req (some l, fbb) h =
      map-IsDefined
        (λ list. (
          put_list m_lists req.name l list,
          create_empty_body_response fbb status_ok body_list_remove,
        ))
        _ (visit_defined-IsDefined req l.m_list h)

module _ {F : Type 0} ⦃f : ListValue F⦄ (c : FlexItems F) where
  -- The range of a removal does not end before it begins.
  abbrev pub IsForward : RequestBody c → Type 0
  IsForward (list_remove req) = is_forward req.range.start req.range.stop req.range.has_stop ≡ true
  IsForward _ = Unit

  abbrev pub IsForwardRequest : Option (Request c) → Type 0
  IsForwardRequest none = Unit
  IsForwardRequest (some request) = IsForward request.body

  handle_list-IsDefined :
      (m_lists : Lists F) (body : RequestBody c)
      → IsForward body
      → IsDefined (handle_list c m_lists [] body)
  unfolding handle_list handle_remove
  handle_list-IsDefined m_lists (list_remove req) h =
      remove_when_found-IsDefined m_lists req (have_list m_lists [] req.name body_list_remove) h
  handle_list-IsDefined m_lists _ h = tt

module _ {F : Type 0} ⦃f : ListValue F⦄ (c : FlexItems F) (b : FloatBytes F) (d : DenseMap) where
  handle_ident-IsDefined :
      (v : Server c b d) (ws : WebSocket) (ident : Ident) (body : RequestBody c)
      → IsForward c body
      → IsDefined (handle_ident c b d v ws ident body)
  unfolding handle_ident
  handle_ident-IsDefined v ws ident_kv body h = tt
  handle_ident-IsDefined v ws ident_list body h =
      map-IsDefined (λ (r : Handled F). (record v { m_list_handler = r.0 }, send ws r.1)) _
        (handle_list-IsDefined c v.m_list_handler body h)
  handle_ident-IsDefined v ws ident_other body h = tt

  module _ (get_request : List ℕ → Option (Request c)) where
    on_message-IsDefined :
        (v : Server c b d) (ws : WebSocket) (message : List ℕ) (is_binary : Bool)
        → IsForwardRequest c (read_request c get_request message is_binary)
        → IsDefined (on_message c b d get_request v ws message is_binary)
    unfolding on_message handle_request
    on_message-IsDefined v ws message false h = tt
    on_message-IsDefined v ws message true h = by_request (get_request message) h
      where
        by_request :
            (request : Option (Request c))
            → IsForwardRequest c request
            → IsDefined (handle_request c b d v ws request)
        by_request none h = tt
        by_request (some request) h = handle_ident-IsDefined v ws request.ident request.body h

    run-IsDefined :
        (v : Server c b d) (events : List Event)
        → AllRequests c get_request (IsForwardRequest c) events
        → IsDefined (run c b d get_request v events)
    unfolding run on_event on_open on_close Option.bind
    run-IsDefined v [] h = tt
    run-IsDefined v (opened ws ∷ events) h =
        map-IsDefined (λ (r : Served c b d). (r.0, [] ++ r.1)) _
          (run-IsDefined (on_open c b d v ws) events h)
    run-IsDefined v (received ws message is_binary ∷ events) h =
        bind-IsDefined (on_message c b d get_request v ws message is_binary)
          (λ served.
            Option.map (λ (r : Served c b d). (r.0, served.1 ++ r.1))
              (run c b d get_request served.0 events))
          (on_message-IsDefined v ws message is_binary h.0)
          (λ served.
            map-IsDefined (λ (r : Served c b d). (r.0, served.1 ++ r.1)) _
              (run-IsDefined served.0 events h.1))
    run-IsDefined v (drained ws ∷ events) h =
        map-IsDefined (λ (r : Served c b d). (r.0, [] ++ r.1)) _ (run-IsDefined v events h)
    run-IsDefined v (closed ws ∷ events) h =
        map-IsDefined (λ (r : Served c b d). (r.0, [] ++ r.1)) _
          (run-IsDefined (on_close c b d v ws) events h)

    -- In every state of the server, every sequence of events is served to its end, if each
    -- ListRemove among them has no stop, or two positions that count from the same end of the
    -- list, the stop not in front of the start.
    pub run_defined :
        (v : Server c b d) (events : List Event)
        → AllRequests c get_request (IsForwardRequest c) events
        → (r : Served c b d) × (run c b d get_request v events ≡ some r)
    run_defined v events h =
        IsDefined-result (run c b d get_request v events) (run-IsDefined v events h)
