-- ===== src/Program/Arguments.antt =====
-- `getCmdArgs` (fcache.cpp). What `getopt_long` returned, up to -1, is a list of options: the value
-- of each and `optarg`, `none` where that is null.
pub mod Bounds
pub mod Accepted
pub mod Refused
use mathlib.Core.Option
use fcache.Base.{
  ℕ, ◌%◌, ◌*◌, ◌^◌, List, [], ◌∷◌, Bool, true, false, Option, none, some, ltb, ◌==◌, if◌then◌else◌,
}
use fcache.Base.Int.{ℤ, pos}
use fcache.Value.{Fcstring}
use fcache.Program.Numbers.{all_digits, stoi, stoul}

abbrev pub min_payload : ℕ
min_payload = 64

abbrev pub max_payload : ℕ
max_payload = 8 * 1024 * 1024

abbrev pub default_payload : ℕ
default_payload = 16 * 1024

pub record CmdArgs : Type 0 where
  pub valid : Bool
  pub ip : Fcstring
  pub port : ℤ
  pub payload : ℕ

abbrev pub Opt : Type 0
Opt = ℕ × Option Fcstring

-- The body of the loop: it goes on with the arguments so far, or an exception is thrown.
pub data Parsed : Type 0 where
  went_on : CmdArgs → Parsed
  threw : Parsed

-- `std::clamp<unsigned int>`: the size is cut to 32 bits first.
unfoldable pub clamp_payload : ℕ → ℕ
clamp_payload size =
    let n = size % 2 ^ 32 in
    if ltb n min_payload then min_payload else if ltb max_payload n then max_payload else n

abbrev pub with_port : CmdArgs → Option ℤ → Parsed
with_port a none = threw
with_port a (some port) = went_on (record a { port = port })

unfoldable pub with_payload : CmdArgs → Option ℕ → Parsed
with_payload a none = threw
with_payload a (some size) = went_on (record a { payload = clamp_payload size })

abbrev pub refused : CmdArgs → CmdArgs
refused a = record a { valid = false }

-- The case of maxPayload.
unfoldable pub set_payload : CmdArgs → Fcstring → Parsed
unfolding with_payload
set_payload a text = if all_digits text then with_payload a (stoul text) else went_on (refused a)

-- The switch. Each of the three cases reads `optarg`, and is undefined where that is null.
unfoldable pub on_option : CmdArgs → Opt → Option Parsed
unfolding set_payload
on_option a (opt, optarg) =
    if opt == 0
    then Option.map (λ text. went_on (record a { ip = text })) optarg
    else if opt == 1
    then Option.map (λ text. with_port a (stoi text)) optarg
    else if opt == 2
    then Option.map (set_payload a) optarg
    else some (went_on (refused a))

-- The rest of the loop, or the handler of the exceptions.
abbrev pub after_option : CmdArgs → (CmdArgs → Option CmdArgs) → Parsed → Option CmdArgs
after_option a rest (went_on a') = rest a'
after_option a rest threw = some (refused a)

unfoldable pub parse_options : CmdArgs → List Opt → Option CmdArgs
unfolding on_option
parse_options a [] = some a
parse_options a (opt ∷ opts) =
    Option.bind (on_option a opt) (after_option a (λ a'. parse_options a' opts))

abbrev pub default_args : CmdArgs
default_args = record {
  valid = true;
  ip = 49 ∷ 50 ∷ 55 ∷ 46 ∷ 48 ∷ 46 ∷ 48 ∷ 46 ∷ 49 ∷ [];
  port = pos 1987;
  payload = default_payload;
}

unfoldable pub get_cmd_args : List Opt → Option CmdArgs
unfolding parse_options
get_cmd_args opts = parse_options default_args opts
