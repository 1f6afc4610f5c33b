-- ===== src/Program/Arguments/Refused.antt =====
-- Which command lines are not valid.
use mathlib.Core.Option
use fcache.Base.{
  zero, suc, ◌≡◌, refl, ap, ◌∙◌, List, [], ◌∷◌, Bool, true, false, Option, none, some, ltb, arith,
  ◌^◌, ◌&&◌, Bool-cases, inl, inr, ◌⊎◌,
}
use fcache.Base.Int.{ℤ}
use fcache.Value.{Fcstring}
use fcache.Program.Numbers.{
  all_digits, stoi, stoul, value, stoul_digits, skip_spaces, signed, magnitude,
}
use fcache.Program.Arguments.{
  CmdArgs, Opt, Parsed, went_on, threw, with_port, with_payload, refused, set_payload, on_option,
  parse_options, after_option, default_args, get_cmd_args,
}
use fcache.Program.Arguments.Accepted.{
  is_some, is_payload, is_acceptable, are_acceptable, on_option_accepted, with_option,
}

-- An option that reads its argument has one.
abbrev pub has_argument : Opt → Bool
has_argument (opt, none) = ltb 2 opt
has_argument (opt, some text) = true

abbrev pub have_arguments : List Opt → Bool
have_arguments [] = true
have_arguments (opt ∷ opts) = has_argument opt && have_arguments opts

abbrev IsRefused : CmdArgs → Parsed → Type 0
IsRefused a p = (p ≡ threw) ⊎ (p ≡ went_on (refused a))

set_payload-IsRefused :
    (a : CmdArgs) (text : Fcstring) → is_payload text ≡ false → IsRefused a (set_payload a text)
unfolding set_payload with_payload stoul skip_spaces signed magnitude Option.bind
set_payload-IsRefused a [] h = inl refl
set_payload-IsRefused a (c ∷ text) h = elim (Bool-cases (all_digits (c ∷ text))) [
  | inl digits ↦
      (let too_large : ltb (value (c ∷ text)) (2 ^ 64) ≡ false = ground arith in
        inl (rw digits (rw (stoul_digits c text digits) (rw too_large refl))))
  | inr e ↦ inr (rw e refl)
]

with_port-IsRefused :
    (a : CmdArgs) (port : Option ℤ) → is_some port ≡ false → IsRefused a (with_port a port)
with_port-IsRefused a none h = inl refl
with_port-IsRefused a (some port) h = absurd (cc)

on_option-IsRefused :
    (a : CmdArgs) (opt : Opt)
    → has_argument opt ≡ true
    → is_acceptable opt ≡ false
    → (p : Parsed) × (on_option a opt ≡ some p) × IsRefused a p
unfolding on_option
on_option-IsRefused a (zero, none) h k = absurd (cc)
on_option-IsRefused a (suc zero, none) h k = absurd (cc)
on_option-IsRefused a (suc (suc zero), none) h k = absurd (cc)
on_option-IsRefused a (suc (suc (suc n)), none) h k = (went_on (refused a), ground arith, inr refl)
on_option-IsRefused a (zero, some text) h k = absurd (cc)
on_option-IsRefused a (suc zero, some text) h k = (_, refl, with_port-IsRefused a (stoi text) k)
on_option-IsRefused a (suc (suc zero), some text) h k = (_, refl, set_payload-IsRefused a text k)
on_option-IsRefused a (suc (suc (suc n)), some text) h k =
    (went_on (refused a), ground arith, inr refl)

after_option-refused :
    (a : CmdArgs) (rest : CmdArgs → Option CmdArgs) (p : Parsed)
    → IsRefused a p
    → Option.map (λ (r : CmdArgs). r.valid) (rest (refused a)) ≡ some false
    → Option.map (λ (r : CmdArgs). r.valid) (after_option a rest p) ≡ some false
after_option-refused a rest p (inl e) h = rw e refl
after_option-refused a rest p (inr e) h = rw e h

-- One round of the loop, before options of which the claim is known.
round_valid :
    (a : CmdArgs) (opt : Opt) (rest : CmdArgs → Option CmdArgs) (rest_ok ok : Bool)
    → is_acceptable opt ≡ ok
    → has_argument opt ≡ true
    → ((a' : CmdArgs)
        → Option.map (λ (r : CmdArgs). r.valid) (rest a') ≡ some (a'.valid && rest_ok))
    → Option.map (λ (r : CmdArgs). r.valid) (Option.bind (on_option a opt) (after_option a rest))
      ≡ some (a.valid && (ok && rest_ok))
unfolding Option.bind
round_valid a (opt, none) rest rest_ok true e k ih = absurd (cc)
round_valid a (opt, some text) rest rest_ok true e k ih =
    rw (on_option_accepted a opt text e) (ih (with_option a opt text))
round_valid a opt rest rest_ok false e k ih =
    let (p, on, is_refused) = on_option-IsRefused a opt k e in
    rw on (
      after_option-refused a rest p is_refused (ih (refused a))
      ∙ ap some {x = false} {y = a.valid && false} (ground arith))

parse_options_valid :
    (a : CmdArgs) (opts : List Opt)
    → have_arguments opts ≡ true
    → Option.map (λ (r : CmdArgs). r.valid) (parse_options a opts)
      ≡ some (a.valid && are_acceptable opts)
unfolding parse_options Option.bind
parse_options_valid a [] h = ap some {x = a.valid} {y = a.valid && true} (ground arith)
parse_options_valid a (opt ∷ opts) h =
    round_valid a opt (λ a'. parse_options a' opts) (are_acceptable opts) (is_acceptable opt) refl
      (ground arith) (λ a'. parse_options_valid a' opts (ground arith))

-- The command line is valid exactly if every option of it is acceptable: an address, a port that is
-- an `int`, or a payload limit that is one or more digits of a number of 64 bits. Each option that
-- reads its argument is given one.
pub get_cmd_args_valid :
    (opts : List Opt)
    → have_arguments opts ≡ true
    → Option.map (λ (r : CmdArgs). r.valid) (get_cmd_args opts) ≡ some (are_acceptable opts)
unfolding get_cmd_args
get_cmd_args_valid opts h = parse_options_valid default_args opts h
