-- ===== src/Examples/Program.antt =====
-- The theorems on the command line at concrete options.
use mathlib.Core.Option
use fcache.Base.{◌≡◌, refl, List, [], ◌∷◌, true, false, none, some, ◌==◌, if◌then◌else◌}
use fcache.Base.Int.{pos, negsuc}
use fcache.Value.Order.{int_value}
use fcache.Range.Bounds.{IsInt32}
use fcache.Program.Numbers.{stoi, stoul, read_digits}
use fcache.Program.Arguments.{CmdArgs, Opt, clamp_payload, default_args}
use fcache.Program.Arguments.Bounds.{IsPayload, get_cmd_args-IsBounded}
use fcache.Program.Arguments.Accepted.{get_cmd_args-accepted}
use fcache.Program.Main.{Machine, main, main_lem}
use fcache.Examples.Inputs.{items, int_floats}
use fcache.Examples.Maps.{assoc_map}
use fcache.Server.Dispatch.{Server}
use fcache.Server.Events.{new_server}

-- --port=80 --maxPayload=4294967296 --port=81: the limit is cut to 0, and becomes the minimum.
abbrev large : List Opt
large =
    (1, some (56 ∷ 48 ∷ []))
    ∷ (2, some (52 ∷ 50 ∷ 57 ∷ 52 ∷ 57 ∷ 54 ∷ 55 ∷ 50 ∷ 57 ∷ 54 ∷ []))
    ∷ (1, some (56 ∷ 49 ∷ []))
    ∷ []

abbrev large_args : CmdArgs
large_args = record default_args { port = pos 81; payload = 64 }

-- -p 80
abbrev short_port : List Opt
short_port = (112, some (56 ∷ 48 ∷ [])) ∷ []

get_cmd_args-IsBounded_example : IsPayload 64 × IsInt32 (pos 81)
unfolding stoi stoul clamp_payload Option.bind read_digits
get_cmd_args-IsBounded_example =
    get_cmd_args-IsBounded large large_args (get_cmd_args-accepted large refl)

abbrev made : Server items int_floats assoc_map
made = new_server items int_floats assoc_map

abbrev machine : Machine items int_floats assoc_map
machine = record {
  has_handlers = true;
  has_thread = true;
  listen = λ ip port payload. elim port [
    | pos n ↦ if n == 81 then some (7, false) else none
    | negsuc n ↦ none
  ];
  has_affinity = true;
}

main_lem_example :
    main items int_floats assoc_map machine large
    ≡ some (record { status = 0; served = some (record made { m_sockets = 7 ∷ [] }) })
unfolding stoi stoul clamp_payload Option.bind read_digits
main_lem_example = main_lem items int_floats assoc_map machine large refl
