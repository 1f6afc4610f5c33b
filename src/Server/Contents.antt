-- ===== src/Server/Contents.antt =====
-- The KV side of the server against the abstract store, over every sequence of events.
pub mod Requests
use fcache.Base.{
  IfDefined, IfDefined-map, IfDefined-of_all, ℕ, ◌≡◌, refl, List, [], Option, none, some,
}
use fcache.Value.{ListValue}
use fcache.FcList.{FlexItems}
use fcache.Response.{FlatBuilder}
use fcache.Kv.DenseMap.{DenseMap}
use fcache.Kv.CachedValue.{FloatBytes}
use fcache.Kv.Contents.{Contents, no_contents}
use fcache.Kv.Handler.{KvHandler}
use fcache.Kv.Handler.Simulation.{Simulates, empty_kv-Simulates}
use fcache.Kv.Handler.Simulation.Alike.{AnswerAlike, Simulates-AnswerAlike}
use fcache.ListHandler.Lists.{Lists, Handled}
use fcache.Server.Requests.{Ident, ident_kv, ident_list, ident_other, RequestBody, Request}
use fcache.Server.Contents.Requests.{IsSoundBody, request_contents, IsKvReply, handle_kv-IsKvReply}
use fcache.Server.Dispatch.{
  WebSocket, Server, Served, send, handle_list, handle_ident, handle_request,
}
use fcache.Server.Events.{Event, new_server, run}
use fcache.Server.Refines.{AllRequests, IsRefined, run-IsRefined}

module _ {F : Type 0} ⦃f : ListValue F⦄ (c : FlexItems F) where
  -- What a message does to the store, and what it is answered with if it is a KV request.
  abbrev pub message_contents : Contents F → Option (Request c) → Contents F
  message_contents s none = s
  message_contents s (some request) = elim request.ident [
    | ident_kv ↦ request_contents c s request.body
    | _ ↦ s
  ]

  abbrev pub IsMessageReply : Contents F → Option (Request c) → FlatBuilder F → Type 0
  IsMessageReply s none reply = Unit
  IsMessageReply s (some request) reply = elim request.ident [
    | ident_kv ↦ IsKvReply c s request.body reply
    | _ ↦ Unit
  ]

  abbrev pub IsSoundMessage : Option (Request c) → Type 0
  IsSoundMessage none = Unit
  IsSoundMessage (some request) = IsSoundBody c request.body

module _ {F : Type 0} ⦃f : ListValue F⦄ (c : FlexItems F) (b : FloatBytes F) (d : DenseMap) where
  abbrev pub KvSim : KvHandler b d → Lists F → Contents F → Type 0
  KvSim h m_lists s = Simulates b d h s

  -- The server simulates the store that some events lead to, by which it answered them.
  abbrev pub IsKvRun :
      (List ℕ → Option (Request c)) → Contents F → List Event → Served c b d → Type 0
  IsKvRun get_request = IsRefined c b d KvSim (message_contents c) (IsMessageReply c) get_request

  -- After every sequence of events from the start whose KV values are stored as they are, or are of
  -- a type that is not stored, and whose removals are defined, a client sees in the KV handler what
  -- the requests leave in the abstract store. Each KV request is answered by what that store
  -- holds at its time, whatever else happened.
  pub run-IsKvRun :
      (get_request : List ℕ → Option (Request c)) (events : List Event) (r : Served c b d)
      → AllRequests c get_request (IsSoundMessage c) events
      → run c b d get_request (new_server c b d) events ≡ some r
      → IsKvRun get_request no_contents events r
  run-IsKvRun get_request events r ok e =
      run-IsRefined c b d KvSim (message_contents c) (IsMessageReply c) get_request
        (IsSoundMessage c) (λ h m_lists s q. (q, λ reply. tt))
        (λ h m_lists s body q. (q, λ reply. tt))
        (λ h m_lists s body ok q. handle_kv-IsKvReply c b d h s body ok q)
        (λ h m_lists s body ok q.
          IfDefined-of_all (λ (r : Handled F). Simulates b d h s × Unit {0})
            (handle_list c m_lists [] body) (λ r. (q, tt)))
        (new_server c b d) no_contents events r ok (empty_kv-Simulates b d) e

-- Two servers that serve the same events, each with a hash map of its own, answer the requests that
-- read alike afterwards: with the same response, or, for all keys of a group, with the same entries
-- in another order. The KV values of the events are stored as they are, or are of a type that is
-- not stored, and their removals are defined.
pub run-AnswerAlike :
    {F : Type 0} ⦃f : ListValue F⦄ (c : FlexItems F) (b : FloatBytes F) (d d' : DenseMap)
    (get_request : List ℕ → Option (Request c)) (events : List Event) (r : Served c b d)
    (r' : Served c b d')
    → AllRequests c get_request (IsSoundMessage c) events
    → run c b d get_request (new_server c b d) events ≡ some r
    → run c b d' get_request (new_server c b d') events ≡ some r'
    → AnswerAlike b d d' r.0.m_kv_handler r'.0.m_kv_handler
run-AnswerAlike c b d d' get_request events r r' ok e e' =
    Simulates-AnswerAlike b d d' r.0.m_kv_handler r'.0.m_kv_handler _
      (run-IsKvRun c b d get_request events r ok e).0
      (run-IsKvRun c b d' get_request events r' ok e').0
