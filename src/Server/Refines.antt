-- ===== src/Server/Refines.antt =====
-- A relation between the containers of the server and an abstract state that every message keeps,
-- every sequence of events keeps.
use mathlib.Core.Option
use fcache.Base.{
  IfDefined, IfDefined-bind, IfDefined-map, IfDefined-imp, ℕ, ◌≡◌, refl, sym, subst, List, [], ◌∷◌,
  ◌++◌, Bool, true, false, Option, none, some, if_elim,
}
use fcache.Value.{ListValue}
use fcache.FcList.{FlexItems}
use fcache.Response.{FlatBuilder}
use fcache.Kv.DenseMap.{DenseMap}
use fcache.Kv.CachedValue.{FloatBytes}
use fcache.Kv.Handler.{KvHandler}
use fcache.ListHandler.Lists.{Lists, Handled}
use fcache.Server.Requests.{Ident, ident_kv, ident_list, ident_other, RequestBody, Request}
use fcache.Server.Dispatch.{
  WebSocket, Sent, Server, Served, send, handle_kv, handle_list, handle_ident, handle_request,
  on_message,
}
use fcache.Server.Events.{
  Event, opened, received, drained, closed, on_open, on_close, on_event, run,
}

module _ {F : Type 0} ⦃f : ListValue F⦄ (c : FlexItems F)
    (get_request : List ℕ → Option (Request c)) where
  -- The request in a message, if it is binary and holds one.
  abbrev pub read_request : List ℕ → Bool → Option (Request c)
  read_request message false = none
  read_request message true = get_request message

  -- What holds of the request in each message.
  abbrev pub AllRequests : (Option (Request c) → Type 0) → List Event → Type 0
  AllRequests P [] = Unit
  AllRequests P (received ws message is_binary ∷ events) =
      P (read_request message is_binary) × AllRequests P events
  AllRequests P (_ ∷ events) = AllRequests P events

  module _ {S : Type 0} (after : S → Option (Request c) → S) where
    -- The abstract state after some events.
    abbrev pub after_events : S → List Event → S
    after_events s [] = s
    after_events s (received ws message is_binary ∷ events) =
        after_events (after s (read_request message is_binary)) events
    after_events s (_ ∷ events) = after_events s events

    -- One reply for each message, and it is the one of the abstract state at that time.
    abbrev pub AreReplies :
        (S → Option (Request c) → FlatBuilder F → Type 0) → S → List Event → List (Sent F) → Type 0
    AreReplies P s [] sent = sent ≡ []
    AreReplies P s (received ws message is_binary ∷ events) [] = ⊥
    AreReplies P s (received ws message is_binary ∷ events) (reply ∷ sent) =
        P s (read_request message is_binary) reply.1
        × AreReplies P (after s (read_request message is_binary)) events sent
    AreReplies P s (_ ∷ events) sent = AreReplies P s events sent

-- A message that holds a request of an ident.
abbrev pub request_of :
    {F : Type 0} ⦃f : ListValue F⦄ (c : FlexItems F) → Ident → RequestBody c → Option (Request c)
request_of c ident body = some (record { ident = ident; body = body })

module _ {F : Type 0} ⦃f : ListValue F⦄ (c : FlexItems F) (b : FloatBytes F) (d : DenseMap)
    {S : Type 0} (Sim : KvHandler b d → Lists F → S → Type 0) (after : S → Option (Request c) → S)
    (IsReply : S → Option (Request c) → FlatBuilder F → Type 0) where
  abbrev pub ServerSim : Server c b d → S → Type 0
  ServerSim v s = Sim v.m_kv_handler v.m_list_handler s

  -- What a message leads to: one reply, and a server that is still related to the state.
  abbrev IsStep : S → WebSocket → Option (Request c) → Served c b d → Type 0
  IsStep s ws request r =
      (reply : FlatBuilder F) × (r.1 ≡ send ws reply)
      × ServerSim r.0 (after s request)
      × IsReply s request reply

  module _ (get_request : List ℕ → Option (Request c)) where
    -- What a run leads to.
    abbrev pub IsRefined : S → List Event → Served c b d → Type 0
    IsRefined s events r =
        ServerSim r.0 (after_events c get_request after s events)
        × AreReplies c get_request after IsReply s events r.1

    module _ (IsSound : Option (Request c) → Type 0)
        (none_step : (h : KvHandler b d) (m_lists : Lists F) (s : S)
          → Sim h m_lists s
          → Sim h m_lists (after s none) × ((reply : FlatBuilder F) → IsReply s none reply))
        (other_step : (h : KvHandler b d) (m_lists : Lists F) (s : S) (body : RequestBody c)
          → Sim h m_lists s
          → let request = request_of c ident_other body in
            Sim h m_lists (after s request) × ((reply : FlatBuilder F) → IsReply s request reply))
        (kv_step : (h : KvHandler b d) (m_lists : Lists F) (s : S) (body : RequestBody c)
          → let request = request_of c ident_kv body in
            IsSound request
            → Sim h m_lists s
            → Sim (handle_kv c b d h [] body).0 m_lists (after s request)
              × IsReply s request (handle_kv c b d h [] body).1)
        (list_step : (h : KvHandler b d) (m_lists : Lists F) (s : S) (body : RequestBody c)
          → let request = request_of c ident_list body in
            IsSound request
            → Sim h m_lists s
            → IfDefined
                (λ (r : Handled F). Sim h r.0 (after s request) × IsReply s request r.1)
                (handle_list c m_lists [] body)) where
      abbrev after_list : Server c b d → WebSocket → Handled F → Served c b d
      after_list v ws (lists, reply) = (record v { m_list_handler = lists }, send ws reply)

      handle_ident-IsStep :
          (v : Server c b d) (s : S) (ws : WebSocket) (ident : Ident) (body : RequestBody c)
          → IsSound (request_of c ident body)
          → ServerSim v s
          → IfDefined (IsStep s ws (request_of c ident body)) (handle_ident c b d v ws ident body)
      unfolding handle_ident
      handle_ident-IsStep v s ws ident_kv body ok q =
          let r = kv_step v.m_kv_handler v.m_list_handler s body ok q in (_, refl, r.0, r.1)
      handle_ident-IsStep v s ws ident_list body ok q =
          let request = request_of c ident_list body in
          IfDefined-map (IsStep s ws request) (after_list v ws)
            (handle_list c v.m_list_handler [] body)
            (IfDefined-imp
              (λ (r : Handled F). Sim v.m_kv_handler r.0 (after s request) × IsReply s request r.1)
              (λ r. IsStep s ws request (after_list v ws r))
              (handle_list c v.m_list_handler [] body) (λ r k. (r.1, refl, k.0, k.1))
              (list_step v.m_kv_handler v.m_list_handler s body ok q))
      handle_ident-IsStep v s ws ident_other body ok q =
          let r = other_step v.m_kv_handler v.m_list_handler s body q in (_, refl, r.0, r.1 _)

      step :
          (v : Server c b d) (s : S) (ws : WebSocket) (request : Option (Request c))
          → IsSound request
          → ServerSim v s
          → IfDefined (IsStep s ws request) (handle_request c b d v ws request)
      unfolding handle_request
      step v s ws none ok q =
          let r = none_step v.m_kv_handler v.m_list_handler s q in (_, refl, r.0, r.1 _)
      step v s ws (some request) ok q = handle_ident-IsStep v s ws request.ident request.body ok q

      on_message-IsStep :
          (v : Server c b d) (s : S) (ws : WebSocket) (message : List ℕ) (is_binary : Bool)
          → IsSound (read_request c get_request message is_binary)
          → ServerSim v s
          → IfDefined
              (IsStep s ws (read_request c get_request message is_binary))
              (on_message c b d get_request v ws message is_binary)
      unfolding on_message handle_request
      on_message-IsStep v s ws message false ok q = step v s ws none ok q
      on_message-IsStep v s ws message true ok q = step v s ws (get_request message) ok q

      run_after :
          (v : Server c b d) (s s' : S) (sent : List (Sent F)) (e : Event) (events : List Event)
          → ((r : Served c b d)
              → IsRefined s' events r
              → IsRefined s (e ∷ events) (r.0, sent ++ r.1))
          → IfDefined (IsRefined s' events) (run c b d get_request v events)
          → IfDefined (IsRefined s (e ∷ events)) (
              Option.map
                (λ (r : Served c b d). (r.0, sent ++ r.1))
                (run c b d get_request v events))
      run_after v s s' sent e events h ih =
          IfDefined-map (IsRefined s (e ∷ events)) (λ (r : Served c b d). (r.0, sent ++ r.1))
            (run c b d get_request v events)
            (IfDefined-imp (IsRefined s' events) (λ r. IsRefined s (e ∷ events) (r.0, sent ++ r.1))
              (run c b d get_request v events) h ih)

      run-IfDefined :
          (v : Server c b d) (s : S) (events : List Event)
          → AllRequests c get_request IsSound events
          → ServerSim v s
          → IfDefined (IsRefined s events) (run c b d get_request v events)
      unfolding run on_event on_open on_close Option.bind
      run-IfDefined v s [] ok q = (q, refl)
      run-IfDefined v s (opened ws ∷ events) ok q =
          run_after (on_open c b d v ws) s s [] (opened ws) events (λ r k. k)
            (run-IfDefined (on_open c b d v ws) s events ok q)
      run-IfDefined v s (received ws message is_binary ∷ events) ok q =
          let request = read_request c get_request message is_binary in
          let P = IsRefined s (received ws message is_binary ∷ events) in
          let rest = λ (served : Served c b d).
            Option.map (λ (r : Served c b d). (r.0, served.1 ++ r.1))
              (run c b d get_request served.0 events) in
          IfDefined-bind P (on_message c b d get_request v ws message is_binary) rest (
            IfDefined-imp (IsStep s ws request) (λ served. IfDefined P (rest served))
              (on_message c b d get_request v ws message is_binary)
              (λ served stepped.
                run_after served.0 s (after s request) served.1 (received ws message is_binary)
                  events
                  (λ r k. (
                    k.0,
                    subst
                        (λ (sent : List (Sent F)).
                          AreReplies c get_request after IsReply s
                            (received ws message is_binary ∷ events) (sent ++ r.1))
                        (sym stepped.1) (stepped.3, k.1),
                  ))
                  (run-IfDefined served.0 (after s request) events ok.1 stepped.2))
              (on_message-IsStep v s ws message is_binary ok.0 q))
      run-IfDefined v s (drained ws ∷ events) ok q =
          run_after v s s [] (drained ws) events (λ r k. k) (run-IfDefined v s events ok q)
      run-IfDefined v s (closed ws ∷ events) ok q =
          run_after (on_close c b d v ws) s s [] (closed ws) events (λ r k. k)
            (run-IfDefined (on_close c b d v ws) s events ok
              (if_elim (λ (t : Server c b d). ServerSim t s) v.m_run (λ _. q) (λ _. q)))

      pub run-IsRefined :
          (v : Server c b d) (s : S) (events : List Event) (r : Served c b d)
          → AllRequests c get_request IsSound events
          → ServerSim v s
          → run c b d get_request v events ≡ some r
          → IsRefined s events r
      run-IsRefined v s events r ok q e =
          subst (IfDefined (IsRefined s events)) e (run-IfDefined v s events ok q)
