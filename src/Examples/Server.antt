-- ===== src/Examples/Server.antt =====
-- The theorems on the server at concrete messages and events.
use mathlib.Core.Option
use fcache.Base.{
  ℕ, ◌≡◌, refl, List, [], ◌∷◌, map, true, false, Option, none, some, if◌then◌else◌, ◌==◌, arith,
}
use fcache.Base.Int.{ℤ, pos, negsuc}
use fcache.Value.{str_eq}
use fcache.Value.Order.{int_value}
use fcache.Store
use fcache.FcList.{list_int, FcList, make_fc_list, ints}
use fcache.Operation.GetByRange.{base_head}
use fcache.Response.{
  status_command_unknown, status_duplicate, body_list_add, body_list_create, fbt_int,
  create_empty_body_response,
}
use fcache.Kv.Requests.{KvSet, KvKeys}
use fcache.Kv.Contents.{no_contents}
use fcache.ListHandler.Lists.{ListCreate, get_list, handle_create}
use fcache.ListHandler.Adding.{ListAdd}
use fcache.ListHandler.Changing.{ListRemove}
use fcache.Server.Defined.{run_defined}
use fcache.Server.Requests.{
  ident_kv, ident_list, Request, list_create, list_add, list_remove, kv_set, kv_get, kv_count,
}
use fcache.Server.Dispatch.{Server, Served, send_failure, on_message}
use fcache.Server.Replies.{IsAnswered, on_message-IsAnswered}
use fcache.Server.Events.{Event, opened, received, closed, new_server, has_client, stop, run}
use fcache.Server.Traces.{is_connected, run-senders}
use fcache.ListHandler.Kinds.{SameKind}
use fcache.Server.Kinds.{run-SameKind}
use fcache.Server.Isolation.{run-get_list}
use fcache.Server.Refusals.{on_message_refused}
use fcache.Server.Stopping.{stop-run}
use fcache.Server.Failures.{on_message_failed}
use fcache.Server.Contents.{IsKvRun, run-IsKvRun, run-AnswerAlike}
use fcache.Examples.Inputs.{items, int_floats, scores, other}
use fcache.Examples.Maps.{assoc_map, behind_map}
use fcache.Kv.Handler.Simulation.Alike.{AnswerAlike}

abbrev create_scores : ListCreate
create_scores = record { name = scores; list_type = list_int; sorted = true }

abbrev add_scores : ListAdd items
add_scores = record {
  name = scores;
  items = pos 9 ∷ pos 2 ∷ [];
  position = pos 0;
  base = base_head;
  items_sorted = false;
}

abbrev set_age : KvSet ℤ
set_age = record { kv = ((97 ∷ []), fbt_int (pos 7)) ∷ []; group = none }

-- The last node but one and the last.
abbrev remove_scores : ListRemove
remove_scores = record {
  name = scores;
  range = record { start = negsuc 1; stop = negsuc 0; has_stop = true };
}

-- The first byte of a message stands for the request in it.
abbrev get_request : List ℕ → Option (Request items)
get_request [] = none
get_request (n ∷ _) =
    if n == 1
    then some (record { ident = ident_list; body = list_create create_scores })
    else if n == 2
    then some (record { ident = ident_list; body = list_add add_scores })
    else if n == 3
    then some (record { ident = ident_kv; body = kv_set set_age })
    else if n == 4
    then some (record { ident = ident_kv; body = list_add add_scores })
    else if n == 5
    then some (record { ident = ident_list; body = list_remove remove_scores })
    else none

abbrev made : Server items int_floats assoc_map
made = new_server items int_floats assoc_map

-- Two clients. The one makes a list, adds to it and leaves. The other sets a value, and sends a
-- text and a list request as a KV request.
abbrev events : List Event
events =
    opened 5
    ∷ received 5 (1 ∷ []) true
    ∷ opened 6
    ∷ received 5 (2 ∷ []) true
    ∷ received 6 (3 ∷ []) true
    ∷ closed 5
    ∷ received 6 (1 ∷ []) false
    ∷ received 6 (4 ∷ []) true
    ∷ []

abbrev served_or : Option (Served items int_floats assoc_map) → Served items int_floats assoc_map
served_or none = (made, [])
served_or (some r) = r

abbrev served : Served items int_floats assoc_map
served = served_or (run items int_floats assoc_map get_request made events)

run-senders_example :
    ((ws : ℕ)
      → has_client ws served.0.m_clients
        ≡ is_connected items int_floats assoc_map get_request ws false events)
    × (map (λ sent. sent.0) served.1 ≡ 5 ∷ 5 ∷ 6 ∷ 6 ∷ 6 ∷ [])
unfolding run Option.bind
run-senders_example =
    run-senders items int_floats assoc_map get_request made events served refl refl

on_message-IsAnswered_example :
    IsAnswered items int_floats assoc_map 5 body_list_add
      (on_message items int_floats assoc_map get_request made 5 (2 ∷ []) true)
on_message-IsAnswered_example =
    on_message-IsAnswered items int_floats assoc_map get_request made 5 (2 ∷ []) true (omega arith)

on_message_refused_example :
    on_message items int_floats assoc_map get_request made 6 (4 ∷ []) true
    ≡ some (made, send_failure 6 [] status_command_unknown)
on_message_refused_example =
    on_message_refused items int_floats assoc_map get_request made 6 (4 ∷ []) true
      status_command_unknown refl

stop-run_example :
    (ended : List ℕ) × (stop items int_floats assoc_map served.0
      ≡ some (record served.0 { m_clients = []; m_sockets = []; m_run = false }, ended))
    × ((ws : ℕ)
        → has_client ws ended ≡ is_connected items int_floats assoc_map get_request ws false events)
unfolding run Option.bind
stop-run_example = stop-run items int_floats assoc_map get_request events served refl

-- The server with the list that a request makes again.
abbrev listed : Server items int_floats assoc_map
listed = record made { m_list_handler = (scores, make_fc_list (ints (pos 2 ∷ [])) true) ∷ [] }

-- The server after that request.
abbrev listed_again : Server items int_floats assoc_map
listed_again =
    (served_or (on_message items int_floats assoc_map get_request listed 5 (1 ∷ []) true)).0

on_message_failed_example : listed_again ≡ listed
unfolding on_message Store.find Store.try_emplace str_eq handle_create
on_message_failed_example =
    on_message_failed items int_floats assoc_map get_request listed listed_again 5 (1 ∷ []) true
      (create_empty_body_response [] status_duplicate body_list_create) refl refl (λ e. absurd (cc))

run-get_list_example : get_list served.0.m_list_handler other ≡ none
unfolding run Option.bind Store.find str_eq
run-get_list_example =
    run-get_list items int_floats assoc_map get_request made events served other refl refl

-- The scores were made by the first message.
abbrev made_scores : Server items int_floats assoc_map
made_scores = (served_or (on_message items int_floats assoc_map get_request made 5 (1 ∷ []) true)).0

abbrev later : Served items int_floats assoc_map
later = served_or (run items int_floats assoc_map get_request made_scores events)

abbrev empty_scores : FcList ℤ
empty_scores = make_fc_list (ints []) true

run-SameKind_example :
    (l' : FcList ℤ) × (get_list later.0.m_list_handler scores ≡ some l') × SameKind empty_scores l'
unfolding run Option.bind on_message Store.find str_eq make_fc_list handle_create Store.try_emplace
run-SameKind_example =
    run-SameKind items int_floats assoc_map get_request made_scores events later scores empty_scores
      refl refl refl

-- The second of the KV requests below is answered with what the first one set.
abbrev get_ages : KvKeys
get_ages = record { keys = some ((97 ∷ []) ∷ (98 ∷ []) ∷ []); group = none }

abbrev kv_request : List ℕ → Option (Request items)
kv_request [] = none
kv_request (n ∷ _) =
    if n == 1
    then some (record { ident = ident_kv; body = kv_set set_age })
    else if n == 2
    then some (record { ident = ident_kv; body = kv_get get_ages })
    else some (record { ident = ident_kv; body = kv_count none })

abbrev kv_events : List Event
kv_events =
    opened 5
    ∷ received 5 (1 ∷ []) true
    ∷ opened 6
    ∷ received 6 (2 ∷ []) true
    ∷ received 6 (3 ∷ []) true
    ∷ closed 5
    ∷ []

abbrev kv_served : Served items int_floats assoc_map
kv_served = served_or (run items int_floats assoc_map kv_request made kv_events)

run-IsKvRun_example : IsKvRun items int_floats assoc_map kv_request no_contents kv_events kv_served
unfolding run Option.bind
run-IsKvRun_example =
    run-IsKvRun items int_floats assoc_map kv_request kv_events kv_served
      (((λ e. tt), tt), (tt, (tt, tt))) refl

abbrev removal_events : List Event
removal_events =
    opened 5 ∷ received 5 (1 ∷ []) true ∷ received 5 (2 ∷ []) true ∷ received 5 (5 ∷ []) true ∷ []

run_defined_example :
    (r : Served items int_floats assoc_map) × (run items int_floats assoc_map get_request made
        removal_events
      ≡ some r)
run_defined_example =
    run_defined items int_floats assoc_map get_request made removal_events (tt, (tt, (refl, tt)))

-- The same events, served with another map.
abbrev behind_made : Server items int_floats behind_map
behind_made = new_server items int_floats behind_map

abbrev behind_or : Option (Served items int_floats behind_map) → Served items int_floats behind_map
behind_or none = (behind_made, [])
behind_or (some r) = r

abbrev behind_served : Served items int_floats behind_map
behind_served = behind_or (run items int_floats behind_map kv_request behind_made kv_events)

run-AnswerAlike_example :
    AnswerAlike int_floats assoc_map behind_map kv_served.0.m_kv_handler
      behind_served.0.m_kv_handler
unfolding run Option.bind
run-AnswerAlike_example =
    run-AnswerAlike items int_floats assoc_map behind_map kv_request kv_events kv_served
      behind_served (((λ e. tt), tt), (tt, (tt, tt))) refl refl
