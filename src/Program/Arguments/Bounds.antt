-- ===== src/Program/Arguments/Bounds.antt =====
-- The ranges of the port and of the payload limit.
use fcache.Base.{
  ℕ, zero, suc, ◌≤◌, ◌≡◌, subst, List, [], ◌∷◌, Bool, true, false, Option, none, some, ◌==◌, ltb,
  leb, if_elim, arith, IfDefined, IfDefined-bind, IfDefined-imp, IfDefined-of_all, ◌^◌,
}
use fcache.Base.Int.{ℤ}
use fcache.Value.{Fcstring}
use fcache.Range.Bounds.{IsInt32}
use fcache.Program.Numbers.{all_digits, stoi, stoul, signed, skip_spaces, magnitude, to_int}
use fcache.Program.Arguments.{
  CmdArgs, Opt, Parsed, went_on, threw, min_payload, max_payload, clamp_payload, with_port,
  with_payload, set_payload, on_option, parse_options, after_option, default_args, get_cmd_args,
}

to_int-IsInt32 : (is_negative : Bool) (n : ℕ) → IfDefined IsInt32 (to_int is_negative n)
to_int-IsInt32 true zero = (omega arith, omega arith)
to_int-IsInt32 true (suc n) =
    if_elim (IfDefined IsInt32) (leb (suc n) (2 ^ 31)) (λ e. (ground arith, ground arith)) (λ e. tt)
to_int-IsInt32 false n =
    if_elim (IfDefined IsInt32) (ltb n (2 ^ 31)) (λ e. (ground arith, ground arith)) (λ e. tt)

stoi-IsInt32 : (text : Fcstring) → IfDefined IsInt32 (stoi text)
unfolding stoi
stoi-IsInt32 text =
    IfDefined-bind IsInt32 (magnitude (signed (skip_spaces text)).1)
      (to_int (signed (skip_spaces text)).0)
      (IfDefined-of_all (λ n. IfDefined IsInt32 (to_int (signed (skip_spaces text)).0 n))
        (magnitude (signed (skip_spaces text)).1) (to_int-IsInt32 (signed (skip_spaces text)).0))

abbrev pub IsPayload : ℕ → Type 0
IsPayload n = (min_payload ≤ n) × (n ≤ max_payload)

clamp_payload-IsPayload : (size : ℕ) → IsPayload (clamp_payload size)
unfolding clamp_payload
clamp_payload-IsPayload size = (ground arith, ground arith)

abbrev IsBounded : CmdArgs → Type 0
IsBounded a = IsPayload a.payload × IsInt32 a.port

abbrev AreBounded : Parsed → Type 0
AreBounded (went_on a) = IsBounded a
AreBounded threw = Unit

with_port-AreBounded :
    (a : CmdArgs) (port : Option ℤ)
    → IsBounded a
    → IfDefined IsInt32 port
    → AreBounded (with_port a port)
with_port-AreBounded a none h p = tt
with_port-AreBounded a (some port) h p = (h.0, p)

with_payload-AreBounded :
    (a : CmdArgs) (size : Option ℕ) → IsBounded a → AreBounded (with_payload a size)
unfolding with_payload
with_payload-AreBounded a none h = tt
with_payload-AreBounded a (some size) h = (clamp_payload-IsPayload size, h.1)

set_payload-AreBounded :
    (a : CmdArgs) (text : Fcstring) → IsBounded a → AreBounded (set_payload a text)
unfolding set_payload
set_payload-AreBounded a text h =
    if_elim AreBounded (all_digits text) (λ e. with_payload-AreBounded a (stoul text) h) (λ e. h)

on_option-AreBounded :
    (a : CmdArgs) (opt : Opt) → IsBounded a → IfDefined AreBounded (on_option a opt)
unfolding on_option
on_option-AreBounded a (opt, none) h =
    if_elim (IfDefined AreBounded) (opt == 0) (λ e. tt)
      (λ e.
        if_elim (IfDefined AreBounded) (opt == 1) (λ e. tt)
          (λ e. if_elim (IfDefined AreBounded) (opt == 2) (λ e. tt) (λ e. h)))
on_option-AreBounded a (opt, some text) h =
    if_elim (IfDefined AreBounded) (opt == 0) (λ e. h)
      (λ e.
        if_elim (IfDefined AreBounded) (opt == 1)
          (λ e. with_port-AreBounded a (stoi text) h (stoi-IsInt32 text))
          (λ e.
            if_elim (IfDefined AreBounded) (opt == 2) (λ e. set_payload-AreBounded a text h)
              (λ e. h)))

after_option-IsBounded :
    (a : CmdArgs) (rest : CmdArgs → Option CmdArgs)
    → IsBounded a
    → ((a' : CmdArgs) → IsBounded a' → IfDefined IsBounded (rest a'))
    → (p : Parsed) → AreBounded p
    → IfDefined IsBounded (after_option a rest p)
after_option-IsBounded a rest h k (went_on a') q = k a' q
after_option-IsBounded a rest h k threw q = h

parse_options-IsBounded :
    (a : CmdArgs) (opts : List Opt) → IsBounded a → IfDefined IsBounded (parse_options a opts)
unfolding parse_options
parse_options-IsBounded a [] h = h
parse_options-IsBounded a (opt ∷ opts) h =
    let rest = λ (a' : CmdArgs). parse_options a' opts in
    IfDefined-bind IsBounded (on_option a opt) (after_option a rest) (
      IfDefined-imp AreBounded (λ p. IfDefined IsBounded (after_option a rest p)) (on_option a opt)
        (after_option-IsBounded a rest h (λ a' q. parse_options-IsBounded a' opts q))
        (on_option-AreBounded a opt h))

-- Whatever the command line is, the payload limit stays between its minimum and its maximum, and
-- the port is a 32-bit number.
pub get_cmd_args-IsBounded :
    (opts : List Opt) (a : CmdArgs)
    → get_cmd_args opts ≡ some a
    → IsPayload a.payload × IsInt32 a.port
unfolding get_cmd_args
get_cmd_args-IsBounded opts a e = subst (IfDefined IsBounded) e (
    parse_options-IsBounded default_args opts
      ((omega arith, omega arith), (omega arith, omega arith)))
