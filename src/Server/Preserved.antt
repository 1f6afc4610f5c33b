-- ===== src/Server/Preserved.antt =====
-- What every list request preserves of the lists, every sequence of events preserves.
use fcache.Base.{
  IfDefined, IfDefined-imp, ℕ, ◌≡◌, refl, subst, List, [], ◌∷◌, Bool, true, false, ◌||◌, ◌&&◌,
  Option, none, some, arith,
}
use fcache.Value.{ListValue}
use fcache.FcList.{FlexItems}
use fcache.Kv.DenseMap.{DenseMap}
use fcache.Kv.CachedValue.{FloatBytes}
use fcache.ListHandler.Lists.{Lists, Handled}
use fcache.Server.Requests.{ident_list, RequestBody, Request}
use fcache.Server.Dispatch.{Server, Served, handle_list}
use fcache.Server.Refines.{after_events, AllRequests, run-IsRefined}
use fcache.Server.Events.{Event, opened, received, drained, closed, run}

-- Whether there is an event among some for which a test holds.
abbrev pub any_event : (Event → Bool) → List Event → Bool
any_event p [] = false
any_event p (e ∷ events) = p e || any_event p events

module _ {F : Type 0} ⦃f : ListValue F⦄ (c : FlexItems F)
    (get_request : List ℕ → Option (Request c)) (excluded : RequestBody c → Bool) where
  -- Whether a message holds a list request that is excluded.
  abbrev pub request_excluded : Option (Request c) → Bool
  request_excluded none = false
  request_excluded (some request) = elim request.ident [
    | ident_list ↦ excluded request.body
    | _ ↦ false
  ]

  abbrev pub event_excluded : Event → Bool
  event_excluded (received ws message is_binary) =
      is_binary && request_excluded (get_request message)
  event_excluded _ = false

  -- An abstract state that no message changes is there after all events.
  after_kept :
      (l : Lists F) (events : List Event)
      → after_events c get_request (λ (m : Lists F) request. m) l events ≡ l
  after_kept l [] = refl
  after_kept l (opened ws ∷ events) = after_kept l events
  after_kept l (received ws message is_binary ∷ events) = after_kept l events
  after_kept l (drained ws ∷ events) = after_kept l events
  after_kept l (closed ws ∷ events) = after_kept l events

  module _ (b : FloatBytes F) (d : DenseMap) (R : Lists F → Lists F → Type 0)
      (R_refl : (l : Lists F) → R l l)
      (R_trans : (l l' l'' : Lists F) → R l l' → R l' l'' → R l l'')
      (handled : (l : Lists F) (body : RequestBody c)
        → excluded body ≡ false
        → IfDefined (λ (r : Handled F). R l r.0) (handle_list c l [] body)) where
    kept_requests :
        (events : List Event)
        → any_event event_excluded events ≡ false
        → AllRequests c get_request (λ request. request_excluded request ≡ false) events
    kept_requests [] h = tt
    kept_requests (opened ws ∷ events) h = kept_requests events h
    kept_requests (received ws message true ∷ events) h =
        let here : request_excluded (get_request message) ≡ false = ground arith in
        let later : any_event event_excluded events ≡ false = ground arith in
        (here, kept_requests events later)
    kept_requests (received ws message false ∷ events) h = (refl, kept_requests events h)
    kept_requests (drained ws ∷ events) h = kept_requests events h
    kept_requests (closed ws ∷ events) h = kept_requests events h

    -- The abstract state is the lists that there were at first.
    pub run-preserves :
        (s : Server c b d) (events : List Event) (r : Served c b d)
        → any_event event_excluded events ≡ false
        → run c b d get_request s events ≡ some r
        → R s.m_list_handler r.0.m_list_handler
    run-preserves s events r h e =
        let first = s.m_list_handler in
        subst (λ l. R l r.0.m_list_handler) (after_kept first events)
          (run-IsRefined c b d (λ k m_lists l. R l m_lists) (λ l request. l)
            (λ l request reply. Unit {0}) get_request (λ request. request_excluded request ≡ false)
            (λ k m_lists l q. (q, λ reply. tt)) (λ k m_lists l body q. (q, λ reply. tt))
            (λ k m_lists l body ok q. (q, tt))
            (λ k m_lists l body ok q.
              IfDefined-imp (λ (r : Handled F). R m_lists r.0)
                (λ (r : Handled F). R l r.0 × Unit {0}) (handle_list c m_lists [] body)
                (λ r q'. (R_trans l m_lists r.0 q q', tt)) (handled m_lists body ok))
            s first events r (kept_requests events h) (R_refl first) e).0
