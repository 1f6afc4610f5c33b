-- ===== src/Server/Events.antt =====
-- The callbacks that `Server::start` gives to the web socket, `Server::stop`, and the event loop:
-- one event after the other, on one thread.
use mathlib.Core.Option
use fcache.Base.{
  ℕ, List, [], ◌∷◌, ◌++◌, Bool, true, false, not, ◌&&◌, Option, none, some, ◌==◌, if◌then◌else◌,
}
use fcache.Value.{ListValue}
use fcache.FcList.{FlexItems}
use fcache.Kv.DenseMap.{DenseMap}
use fcache.Kv.CachedValue.{FloatBytes}
use fcache.Server.Requests.{Request}
use fcache.Server.Dispatch.{WebSocket, Server, Served, on_message}

-- A `std::set` of clients: its members, each once.
abbrev pub has_client : WebSocket → List WebSocket → Bool
has_client ws [] = false
has_client ws (v ∷ clients) = if v == ws then true else has_client ws clients

abbrev pub insert_client : WebSocket → List WebSocket → List WebSocket
insert_client ws clients = if has_client ws clients then clients else ws ∷ clients

unfoldable pub erase_client : WebSocket → List WebSocket → List WebSocket
erase_client ws [] = []
erase_client ws (v ∷ clients) =
    let rest = erase_client ws clients in if v == ws then rest else v ∷ rest

-- What the event loop calls the server for. The `drain` callback does nothing.
pub data Event : Type 0 where
  opened : WebSocket → Event
  received : WebSocket → List ℕ → Bool → Event
  drained : WebSocket → Event
  closed : WebSocket → Event

module _ {F : Type 0} ⦃f : ListValue F⦄ (c : FlexItems F) (b : FloatBytes F) (d : DenseMap) where
  -- The server before `start`: `init` has made the handlers.
  abbrev pub new_server : Server c b d
  new_server = record {
    m_kv_handler = record { m_map = d.empty; m_groups = d.empty };
    m_list_handler = [];
    m_clients = [];
    m_sockets = [];
    m_run = true;
  }

  -- `init`, by whether the handlers can be made: no call is made of a server without them.
  unfoldable pub init : Bool → Server c b d × Bool
  init has_handlers = (new_server, has_handlers)

  -- The callback of `listen`, for a socket and whether it is closed: the result is `listening`.
  unfoldable pub on_listen : Server c b d → Option (ℕ × Bool) → Server c b d × Bool
  on_listen s none = (s, false)
  on_listen s (some (socket, is_closed)) =
      (record s { m_sockets = s.m_sockets ++ socket ∷ [] }, not is_closed)

  -- `start`, up to its return: whether the thread could be made, what `listen` gave to its callback,
  -- and whether the affinity of the thread could be set.
  unfoldable pub start : Server c b d → Bool → Option (ℕ × Bool) → Bool → Server c b d × Bool
  unfolding on_listen
  start s has_thread socket has_affinity =
      if has_thread
      then (let (s', listening) = on_listen s socket in (s', listening && has_affinity))
      else (s, false)

  unfoldable pub on_open : Server c b d → WebSocket → Server c b d
  on_open s ws = record s { m_clients = insert_client ws s.m_clients }

  -- While the server stops, its set of clients is not changed by their closing.
  unfoldable pub on_close : Server c b d → WebSocket → Server c b d
  unfolding erase_client
  on_close s ws = if s.m_run then record s { m_clients = erase_client ws s.m_clients } else s

  -- The loop of `stop` over `m_clients`: `ws->end (1000)` of each, which calls the close callback.
  -- The server after it, and the clients that were ended. A callback that erases the client at
  -- which the loop stands takes the iterator with it: its increment is undefined, `none`.
  unfoldable pub end_each : List WebSocket → Server c b d → Option (Server c b d × List WebSocket)
  unfolding on_close
  end_each [] s = some (s, [])
  end_each (ws ∷ clients) s =
      let called = on_close s ws in
      let rest = end_each clients called in
      if has_client ws called.m_clients
      then Option.map (λ (r : Server c b d × List WebSocket). (r.0, ws ∷ r.1)) rest
      else none

  unfoldable pub stop : Server c b d → Option (Server c b d × List WebSocket)
  unfolding end_each
  stop s =
      Option.map
        (λ (r : Server c b d × List WebSocket).
          (record r.0 { m_clients = []; m_sockets = [] }, r.1))
        (end_each s.m_clients (record s { m_run = false }))

  module _ (get_request : List ℕ → Option (Request c)) where
    unfoldable pub on_event : Server c b d → Event → Option (Served c b d)
    unfolding on_message on_open on_close
    on_event s (opened ws) = some (on_open s ws, [])
    on_event s (received ws message is_binary) = on_message c b d get_request s ws message is_binary
    on_event s (drained ws) = some (s, [])
    on_event s (closed ws) = some (on_close s ws, [])

    -- The events in turn, and all that was sent, the first first. It ends where the behaviour of a
    -- handler is undefined.
    unfoldable pub run : Server c b d → List Event → Option (Served c b d)
    unfolding on_event
    run s [] = some (s, [])
    run s (e ∷ events) =
        Option.bind (on_event s e) (λ served.
          Option.map (λ (r : Served c b d). (r.0, served.1 ++ r.1)) (run served.0 events))
