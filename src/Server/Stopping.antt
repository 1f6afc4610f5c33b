-- ===== src/Server/Stopping.antt =====
-- `Server::stop` (Server.cpp) after the event loop.
use fcache.Base.{ℕ, ◌≡◌, refl, List, [], ◌∷◌, true, false, Option, some, if_elim, arith}
use fcache.Value.{ListValue}
use fcache.FcList.{FlexItems}
use fcache.Kv.DenseMap.{DenseMap}
use fcache.Kv.CachedValue.{FloatBytes}
use fcache.Server.Requests.{Request}
use fcache.Server.Dispatch.{WebSocket, Server, Served}
use fcache.Server.Events.{has_client, Event, new_server, on_close, end_each, stop, run}
use fcache.Server.Traces.{is_connected, run-senders}

module _ {F : Type 0} ⦃f : ListValue F⦄ (c : FlexItems F) (b : FloatBytes F) (d : DenseMap) where
  on_close_stopped : (s : Server c b d) (ws : WebSocket) → s.m_run ≡ false → on_close c b d s ws ≡ s
  unfolding on_close
  on_close_stopped s ws e =
      if_elim (λ (t : Server c b d). t ≡ s) s.m_run (λ up. absurd (cc)) (λ _. refl)

  -- The loop over clients that the server knows, while it stops.
  end_each_stopped :
      (clients : List WebSocket) (s : Server c b d)
      → s.m_run ≡ false
      → ((ws : WebSocket) → has_client ws clients ≡ true → has_client ws s.m_clients ≡ true)
      → end_each c b d clients s ≡ some (s, clients)
  unfolding end_each
  end_each_stopped [] s e h = refl
  end_each_stopped (ws ∷ clients) s e h =
      let known : has_client ws s.m_clients ≡ true = h ws (ground arith) in
      let rest = end_each_stopped clients s e (λ v k. h v (ground arith)) in
      rw (on_close_stopped s ws e, known, rest) refl

  -- A server that stops after any sequence of events from the start, whose removals are defined,
  -- ends the clients that are connected and no others. The callbacks that this leads to leave the
  -- set of clients alone while the loop goes through it. After it no client and no socket is left,
  -- the flag is cleared, and what is stored has not changed.
  pub stop-run :
      (get_request : List ℕ → Option (Request c)) (events : List Event) (r : Served c b d)
      → run c b d get_request (new_server c b d) events ≡ some r
      → (ended : List WebSocket) × (stop c b d r.0
          ≡ some (record r.0 { m_clients = []; m_sockets = []; m_run = false }, ended))
        × ((ws : WebSocket) → has_client ws ended ≡ is_connected c b d get_request ws false events)
  unfolding stop
  stop-run get_request events r e = (
    r.0.m_clients,
    rw (end_each_stopped r.0.m_clients (record r.0 { m_run = false }) refl (λ ws k. k)) refl,
    (run-senders c b d get_request (new_server c b d) events r refl e).0,
  )
