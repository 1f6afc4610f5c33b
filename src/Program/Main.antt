-- ===== src/Program/Main.antt =====
-- `main` (fcache.cpp). What `init`, the making of the thread, `listen` and the affinity of the
-- thread come to depends on the machine: they are parameters.
use mathlib.Core.Option
use fcache.Base.{
  Bool-cases, inl, inr, ℕ, ◌≡◌, refl, ap, ◌∙◌, List, [], ◌∷◌, Bool, true, false, Option, none, some,
  if◌then◌else◌, ◌&&◌, not,
}
use fcache.Base.Int.{ℤ}
use fcache.Value.{Fcstring, ListValue}
use fcache.FcList.{FlexItems}
use fcache.Kv.DenseMap.{DenseMap}
use fcache.Kv.CachedValue.{FloatBytes}
use fcache.Server.Dispatch.{Server}
use fcache.Server.Events.{new_server, on_listen, init, start}
use fcache.Program.Arguments.{CmdArgs, Opt, default_args, get_cmd_args}
use fcache.Program.Arguments.Accepted.{are_acceptable, accepted, get_cmd_args-accepted}
use fcache.Program.Arguments.Refused.{have_arguments, get_cmd_args_valid}

module _ {F : Type 0} ⦃f : ListValue F⦄ (c : FlexItems F) (b : FloatBytes F) (d : DenseMap) where
  -- What the program did: its exit status, and the server that it waited with for a signal.
  pub record Ran : Type 0 where
    pub status : ℕ
    pub served : Option (Server c b d)

  -- The outcomes of what the machine does.
  pub record Machine : Type 0 where
    pub has_handlers : Bool
    pub has_thread : Bool
    pub listen : Fcstring → ℤ → ℕ → Option (ℕ × Bool)
    pub has_affinity : Bool

  -- The server that is started with the arguments, and whether it was.
  unfoldable pub start_server : Machine → CmdArgs → Server c b d × Bool
  unfolding init start
  start_server m a =
      let (server, initialised) = init c b d m.has_handlers in
      if initialised
      then start c b d server m.has_thread (m.listen a.ip a.port a.payload) m.has_affinity
      else (server, false)

  abbrev pub running : Server c b d × Bool → Option (Server c b d)
  running (server, is_started) = if is_started then some server else none

  unfoldable pub main_with : Machine → CmdArgs → Ran
  unfolding start_server
  main_with m a =
      if a.valid
      then record { status = 0; served = running (start_server m a) }
      else record { status = 1; served = none }

  unfoldable pub main : Machine → List Opt → Option Ran
  unfolding main_with get_cmd_args
  main m opts = Option.map (main_with m) (get_cmd_args opts)

  -- The server for a socket of `listen`, if everything went well.
  abbrev pub listening : Bool → Option (ℕ × Bool) → Option (Server c b d)
  listening is_well none = none
  listening is_well (some (socket, is_closed)) =
      if is_well && not is_closed
      then some (record (new_server c b d) { m_sockets = socket ∷ [] })
      else none

  start-listening :
      (has_handlers has_thread has_affinity : Bool) (socket : Option (ℕ × Bool))
      → running (
          if has_handlers
          then start c b d (new_server c b d) has_thread socket has_affinity
          else (new_server c b d, false))
        ≡ listening (has_handlers && (has_thread && has_affinity)) socket
  unfolding start on_listen
  start-listening false has_thread has_affinity none = refl
  start-listening false has_thread has_affinity (some socket) = refl
  start-listening true false has_affinity none = refl
  start-listening true false has_affinity (some socket) = refl
  start-listening true true has_affinity none = refl
  start-listening true true false (some (socket, true)) = refl
  start-listening true true false (some (socket, false)) = refl
  start-listening true true true (some (socket, true)) = refl
  start-listening true true true (some (socket, false)) = refl

  -- What the program does for a list of options.
  abbrev pub expected : Machine → List Opt → Ran
  expected m opts =
      let a = accepted default_args opts in
      if are_acceptable opts
      then record {
        status = 0;
        served =
            listening (m.has_handlers && (m.has_thread && m.has_affinity))
              (m.listen a.ip a.port a.payload);
      }
      else record { status = 1; served = none }

  main_with_refused :
      (m : Machine) (a : Option CmdArgs)
      → Option.map (λ (r : CmdArgs). r.valid) a ≡ some false
      → Option.map (main_with m) a ≡ some (record { status = 1; served = none })
  unfolding main_with
  main_with_refused m none h = absurd (cc)
  main_with_refused m (some a) h = let invalid : a.valid ≡ false = cc in rw invalid refl

  main_with_accepted :
      (m : Machine) (a : CmdArgs)
      → a.valid ≡ true
      → main_with m a ≡ record {
        status = 0;
        served =
            listening
              (m.has_handlers && (m.has_thread && m.has_affinity))
              (m.listen a.ip a.port a.payload);
      }
  unfolding main_with start_server
  main_with_accepted m a h = rw h (
      ap (λ (server : Option (Server c b d)). record { status = 0; served = server })
        (start-listening m.has_handlers m.has_thread m.has_affinity
          (m.listen a.ip a.port a.payload)))

  -- Where an option is not acceptable, the program ends with the status 1 and makes no server.
  -- Otherwise its status is 0: it serves on the socket that `listen` makes for the last address,
  -- port and payload limit among the options, and does not serve where there is none, where it is
  -- closed, or where the handlers, the thread or its affinity fail. Each option that reads its
  -- argument is given one.
  pub main_lem :
      (m : Machine) (opts : List Opt)
      → have_arguments opts ≡ true
      → main m opts ≡ some (expected m opts)
  unfolding main
  main_lem m opts h = elim (Bool-cases (are_acceptable opts)) [
    | inl e ↦ rw e (
        rw (get_cmd_args-accepted opts e)
          (ap some (main_with_accepted m (accepted default_args opts) refl)))
    | inr e ↦ rw e (main_with_refused m (get_cmd_args opts) (get_cmd_args_valid opts h ∙ ap some e))
  ]
