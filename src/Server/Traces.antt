-- ===== src/Server/Traces.antt =====
-- What holds of the server after every sequence of events, and of what it sent.
use mathlib.Core.Option
use mathlib.Core.Path.{ap₂}
use mathlib.Core.List.{map-append}
use fcache.Base.{
  IfDefined, IfDefined-bind, IfDefined-map, IfDefined-imp, ℕ, ◌≡◌, refl, ap, subst, ◌∙◌, List, [],
  ◌∷◌, ◌++◌, map, Bool, true, false, Option, some, ◌==◌, if◌then◌else◌, if_elim, Bool-cases, inl,
  inr, arith,
}
use fcache.Value.{ListValue}
use fcache.FcList.{FlexItems}
use fcache.Kv.DenseMap.{DenseMap}
use fcache.Kv.CachedValue.{FloatBytes}
use fcache.Kv.Handler.Steps as Kv
use fcache.ListHandler.Runs as ListRuns
use fcache.Server.Requests.{Request}
use fcache.Server.Dispatch.{WebSocket, Sent, Server, Served, on_message}
use fcache.Server.Events.{
  has_client, insert_client, erase_client, Event, opened, received, drained, closed, on_open,
  on_close, on_event, run,
}
use fcache.Server.Runs.{
  IsReachableServer, IsMessageStep, on_message-IsMessageStep, IsHonestRequest, AreHonest,
}

has_client-insert :
    (ws v : WebSocket) (clients : List WebSocket)
    → has_client ws (insert_client v clients) ≡ (if v == ws then true else has_client ws clients)
has_client-insert ws v clients = elim (Bool-cases (has_client v clients)) [
  | inl e ↦ rw e (ground arith)
  | inr e ↦ rw e refl
]

has_client-erase :
    (ws v : WebSocket) (clients : List WebSocket)
    → has_client ws (erase_client v clients) ≡ (if v == ws then false else has_client ws clients)
unfolding erase_client
has_client-erase ws v [] = ground arith
has_client-erase ws v (u ∷ clients) = ground (arith, has_client-erase ws v clients)

module _ {F : Type 0} ⦃f : ListValue F⦄ (c : FlexItems F) (b : FloatBytes F) (d : DenseMap)
    (get_request : List ℕ → Option (Request c)) where
  -- Whether a client is connected after some events, by whether it was before.
  abbrev pub is_connected : WebSocket → Bool → List Event → Bool
  is_connected ws before [] = before
  is_connected ws before (opened v ∷ events) =
      is_connected ws (if v == ws then true else before) events
  is_connected ws before (closed v ∷ events) =
      is_connected ws (if v == ws then false else before) events
  is_connected ws before (_ ∷ events) = is_connected ws before events

  -- The clients whose messages are among the events.
  abbrev pub senders : List Event → List WebSocket
  senders [] = []
  senders (received ws message is_binary ∷ events) = ws ∷ senders events
  senders (_ ∷ events) = senders events

  -- What a run has established.
  abbrev pub IsRun : Server c b d → List Event → Served c b d → Type 0
  IsRun s events r =
      (AreHonest c b d get_request events → IsReachableServer c b d s → IsReachableServer c b d r.0)
      × ((ws : WebSocket)
          → has_client ws r.0.m_clients ≡ is_connected ws (has_client ws s.m_clients) events)
      × (map (λ sent. sent.0) r.1 ≡ senders events)

  -- The rest of a run, behind one event.
  run_after :
      (s s' : Server c b d) (sent : List (Sent F)) (e : Event) (events : List Event)
      → ((r : Served c b d) → IsRun s' events r → IsRun s (e ∷ events) (r.0, sent ++ r.1))
      → IfDefined (IsRun s' events) (run c b d get_request s' events)
      → IfDefined
          (IsRun s (e ∷ events))
          (Option.map (λ (r : Served c b d). (r.0, sent ++ r.1)) (run c b d get_request s' events))
  run_after s s' sent e events h ih =
      IfDefined-map (IsRun s (e ∷ events)) (λ (r : Served c b d). (r.0, sent ++ r.1))
        (run c b d get_request s' events)
        (IfDefined-imp (IsRun s' events) (λ r. IsRun s (e ∷ events) (r.0, sent ++ r.1))
          (run c b d get_request s' events) h ih)

  on_close_lem :
      (s : Server c b d) (v : WebSocket)
      → s.m_run ≡ true
      → ((on_close c b d s v).m_clients ≡ erase_client v s.m_clients)
        × ((on_close c b d s v).m_run ≡ true)
        × (IsReachableServer c b d s → IsReachableServer c b d (on_close c b d s v))
  unfolding on_close
  on_close_lem s v up =
      if_elim
        (λ (t : Server c b d).
          (t.m_clients ≡ erase_client v s.m_clients)
          × (t.m_run ≡ true)
          × (IsReachableServer c b d s → IsReachableServer c b d t))
        s.m_run (λ _. (refl, up, λ q. q)) (λ down. absurd (cc))

  run-IsRun :
      (s : Server c b d) (events : List Event)
      → s.m_run ≡ true
      → IfDefined (IsRun s events) (run c b d get_request s events)
  unfolding run on_event on_open on_close Option.bind
  run-IsRun s [] up = ((λ h q. q), (λ ws. refl), refl)
  run-IsRun s (opened v ∷ events) up =
      run_after s (on_open c b d s v) [] (opened v) events
        (λ r q. (
          q.0,
          (λ ws. q.1 ws ∙ ap (λ p. is_connected ws p events) (has_client-insert ws v s.m_clients)),
          q.2,
        ))
        (run-IsRun (on_open c b d s v) events up)
  run-IsRun s (received v message is_binary ∷ events) up =
      IfDefined-bind (IsRun s (received v message is_binary ∷ events))
        (on_message c b d get_request s v message is_binary)
        (λ served.
          Option.map (λ (r : Served c b d). (r.0, served.1 ++ r.1))
            (run c b d get_request served.0 events))
        (IfDefined-imp (IsMessageStep c b d (IsHonestRequest c (get_request message)) s v)
          (λ served. IfDefined (IsRun s (received v message is_binary ∷ events)) (
            Option.map (λ (r : Served c b d). (r.0, served.1 ++ r.1))
              (run c b d get_request served.0 events)))
          (on_message c b d get_request s v message is_binary)
          (λ served step.
            run_after s served.0 served.1 (received v message is_binary) events
              (λ r q. (
                (λ h p. q.0 h.1 (step.0 h.0 p)),
                (λ ws. q.1 ws ∙ ap (λ l. is_connected ws (has_client ws l) events) step.1),
                map-append (λ (sent : Sent F). sent.0) served.1 r.1 ∙ ap₂ ◌++◌ step.3 q.2,
              ))
              (run-IsRun served.0 events (step.2 ∙ up)))
          (on_message-IsMessageStep c b d get_request s v message is_binary))
  run-IsRun s (drained v ∷ events) up =
      run_after s s [] (drained v) events (λ r q. q) (run-IsRun s events up)
  run-IsRun s (closed v ∷ events) up =
      let gone = on_close_lem s v up in
      run_after s (on_close c b d s v) [] (closed v) events
        (λ r q. (
          (λ h p. q.0 h (gone.2 p)),
          (λ ws.
              q.1 ws
              ∙ ap (λ p. is_connected ws p events)
                  (ap (has_client ws) gone.0 ∙ has_client-erase ws v s.m_clients)),
          q.2,
        ))
        (run-IsRun (on_close c b d s v) events gone.1)

  IsRun-of_run :
      (s : Server c b d) (events : List Event) (r : Served c b d)
      → s.m_run ≡ true
      → run c b d get_request s events ≡ some r
      → IsRun s events r
  IsRun-of_run s events r up e = subst (IfDefined (IsRun s events)) e (run-IsRun s events up)

  -- After every sequence of events of a running server whose removals are defined, the server
  -- knows the clients that are connected, and it has sent one message for each that it received,
  -- in the order in which they came, each to the client that it came from.
  pub run-senders :
      (s : Server c b d) (events : List Event) (r : Served c b d)
      → s.m_run ≡ true
      → run c b d get_request s events ≡ some r
      → ((ws : WebSocket)
          → has_client ws r.0.m_clients ≡ is_connected ws (has_client ws s.m_clients) events)
        × (map (λ sent. sent.0) r.1 ≡ senders events)
  run-senders s events r up e = let q = IsRun-of_run s events r up e in (q.1, q.2)
