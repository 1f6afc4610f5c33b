-- ===== src/Program/Arguments/Accepted.antt =====
-- Which command lines are valid, and what they say.
use mathlib.Core.Option
use fcache.Base.{
  ℕ, zero, suc, ◌≡◌, refl, ap, ◌∙◌, List, [], ◌∷◌, Bool, true, false, Option, none, some, ◌==◌, ltb,
  if◌then◌else◌, arith, ◌^◌, ◌&&◌,
}
use fcache.Base.Int.{ℤ, pos}
use fcache.Value.{Fcstring}
use fcache.Program.Numbers.{all_digits, stoi, stoul, value, stoul_digits}
use fcache.Program.Arguments.{
  CmdArgs, Opt, went_on, clamp_payload, with_port, with_payload, set_payload, on_option,
  parse_options, default_args, get_cmd_args,
}

abbrev pub is_some : {A : Type 0} → Option A → Bool
is_some none = false
is_some (some a) = true

abbrev pub or_else : {A : Type 0} → A → Option A → A
or_else a none = a
or_else a (some b) = b

-- One or more digits, of a number of 64 bits.
abbrev pub is_payload : Fcstring → Bool
is_payload [] = false
is_payload (c ∷ text) = all_digits (c ∷ text) && ltb (value (c ∷ text)) (2 ^ 64)

abbrev pub is_acceptable : Opt → Bool
is_acceptable (opt, none) = false
is_acceptable (opt, some text) =
    if opt == 0
    then true
    else if opt == 1
    then is_some (stoi text)
    else if opt == 2
    then is_payload text
    else false

abbrev pub are_acceptable : List Opt → Bool
are_acceptable [] = true
are_acceptable (opt ∷ opts) = is_acceptable opt && are_acceptable opts

-- What the last option of some value says, or the default.
abbrev pub last_of : {A : Type 0} → ℕ → (Fcstring → A) → A → List Opt → A
last_of opt read default [] = default
last_of opt read default ((opt', none) ∷ opts) = last_of opt read default opts
last_of opt read default ((opt', some text) ∷ opts) =
    last_of opt read (if opt' == opt then read text else default) opts

abbrev pub port_of : Fcstring → ℤ
port_of text = or_else (pos 0) (stoi text)

abbrev pub payload_of : Fcstring → ℕ
payload_of text = clamp_payload (value text)

abbrev pub accepted : CmdArgs → List Opt → CmdArgs
accepted a opts = record {
  valid = a.valid;
  ip = last_of 0 (λ text. text) a.ip opts;
  port = last_of 1 port_of a.port opts;
  payload = last_of 2 payload_of a.payload opts;
}

abbrev pub with_option : CmdArgs → ℕ → Fcstring → CmdArgs
with_option a opt text = record {
  valid = a.valid;
  ip = if opt == 0 then text else a.ip;
  port = if opt == 1 then port_of text else a.port;
  payload = if opt == 2 then payload_of text else a.payload;
}

stoul_payload : (text : Fcstring) → is_payload text ≡ true → stoul text ≡ some (value text)
stoul_payload [] h = absurd (cc)
stoul_payload (c ∷ text) h = stoul_digits c text (ground arith) ∙ ground (arith)

set_payload_accepted :
    (a : CmdArgs) (text : Fcstring)
    → is_payload text ≡ true
    → set_payload a text ≡ went_on (record a { payload = payload_of text })
unfolding set_payload with_payload
set_payload_accepted a [] h = absurd (cc)
set_payload_accepted a (c ∷ text) h =
    let digits : all_digits (c ∷ text) ≡ true = ground arith in
    rw digits (rw (stoul_payload (c ∷ text) h) refl)

with_port_accepted :
    (a : CmdArgs) (port : Option ℤ)
    → is_some port ≡ true
    → with_port a port ≡ went_on (record a { port = or_else (pos 0) port })
with_port_accepted a none h = absurd (cc)
with_port_accepted a (some port) h = refl

pub on_option_accepted :
    (a : CmdArgs) (opt : ℕ) (text : Fcstring)
    → is_acceptable (opt, some text) ≡ true
    → on_option a (opt, some text) ≡ some (went_on (with_option a opt text))
unfolding on_option
on_option_accepted a zero text h = refl
on_option_accepted a (suc zero) text h = ap some (with_port_accepted a (stoi text) h)
on_option_accepted a (suc (suc zero)) text h = ap some (set_payload_accepted a text h)
on_option_accepted a (suc (suc (suc n))) text h = absurd (ground arith)

pub parse_options-accepted :
    (a : CmdArgs) (opts : List Opt)
    → are_acceptable opts ≡ true
    → parse_options a opts ≡ some (accepted a opts)
unfolding parse_options Option.bind
parse_options-accepted a [] h = refl
parse_options-accepted a ((opt, none) ∷ opts) h = absurd (cc)
parse_options-accepted a ((opt, some text) ∷ opts) h =
    rw (on_option_accepted a opt text (ground arith))
      (parse_options-accepted (with_option a opt text) opts (ground arith))

-- A command line whose options are all acceptable is valid. The address, the port and the payload
-- limit are the default or what the last option says: for the limit it is the number that its
-- digits spell, cut to 32 bits, and then brought between the minimum and the maximum.
pub get_cmd_args-accepted :
    (opts : List Opt)
    → are_acceptable opts ≡ true
    → get_cmd_args opts ≡ some (accepted default_args opts)
unfolding get_cmd_args
get_cmd_args-accepted opts h = parse_options-accepted default_args opts h
