-- ===== src/Kv/Contents.antt =====
-- The KV side of the server as its clients see it: an abstract store, and what each request does to
-- it. It holds a value or none for each key of each group and outside of the groups, and the groups.
use fcache.Base.{List, [], ◌∷◌, map, Bool, true, false, Option, none, some, if◌then◌else◌, ◌&&◌}
use fcache.Value.{Fcstring, str_eq}
use fcache.Sorted.{All}
use fcache.Response.{FlexValue}
use fcache.Kv.CachedValue.RoundTrip.{is_supported, IsSound}
use fcache.Kv.Requests.{
  ClearOperation, clear_all, clear_groups, clear_groups_keys_only, clear_group_keys_only,
  clear_unnamed, clear_group,
}

-- The value of a key after one entry was set or added, by what it was before.
abbrev pub put : {V : Type 0} → Bool → Bool → V → Option V → Option V
put is_set false v old = old
put is_set true v none = some v
put is_set true v (some w) = if is_set then some v else some w

-- The value of a key after some entries were set or added in turn.
abbrev pub merged : {V : Type 0} → Bool → Fcstring → List (Fcstring × V) → Option V → Option V
merged is_set k [] old = old
merged is_set k ((j, v) ∷ kv) old = merged is_set k kv (put is_set (str_eq j k) v old)

-- A key with its value in front of others, if it has one.
abbrev pub add_present :
    {V : Type 0} → Fcstring → Option V → List (Fcstring × V) → List (Fcstring × V)
add_present k none rest = rest
add_present k (some v) rest = (k, v) ∷ rest

-- The keys that have a value, with it, in their order.
abbrev pub present : {V : Type 0} → List Fcstring → (Fcstring → Option V) → List (Fcstring × V)
present [] f = []
present (k ∷ keys) f = add_present k (f k) (present keys f)

abbrev pub keys_of : {V : Type 0} → List (Fcstring × V) → List Fcstring
keys_of = map (λ e. e.0)

-- Whether a key is among some keys.
abbrev pub any_key : List Fcstring → Fcstring → Bool
any_key [] k = false
any_key (j ∷ keys) k = if str_eq j k then true else any_key keys k

-- Whether two requests name the same group, or both none.
abbrev pub same_group : Option Fcstring → Option Fcstring → Bool
same_group none none = true
same_group none (some g) = false
same_group (some g) none = false
same_group (some g) (some g') = str_eq g g'

-- Whether a request to clear one group names this one.
abbrev pub is_named : Option Fcstring → Option Fcstring → Bool
is_named (some name) (some other) = str_eq name other
is_named _ _ = false

abbrev pub is_group : Option Fcstring → Bool
is_group none = false
is_group (some name) = true

-- Whether an operation takes the values of a group, or of the keys outside of the groups.
abbrev pub is_cleared : ClearOperation → Option Fcstring → Option Fcstring → Bool
is_cleared clear_all named g = true
is_cleared clear_groups named g = is_group g
is_cleared clear_groups_keys_only named g = is_group g
is_cleared clear_group_keys_only named g = is_named named g
is_cleared clear_group named g = is_named named g
is_cleared (clear_unnamed op) named g = false

-- Whether an operation takes a group itself.
abbrev pub is_erased : ClearOperation → Option Fcstring → Fcstring → Bool
is_erased clear_all named name = true
is_erased clear_groups named name = true
is_erased clear_groups_keys_only named name = false
is_erased clear_group_keys_only named name = false
is_erased clear_group named name = is_named named (some name)
is_erased (clear_unnamed op) named name = false

module _ {F : Type 0} where
  -- The entries of a request in front of the first one of a type that is not stored.
  abbrev pub supported : List (Fcstring × FlexValue F) → List (Fcstring × FlexValue F)
  supported [] = []
  supported ((k, v) ∷ kv) = if is_supported v then (k, v) ∷ supported kv else []

  abbrev pub are_supported : List (Fcstring × FlexValue F) → Bool
  are_supported [] = true
  are_supported ((k, v) ∷ kv) = is_supported v && are_supported kv

  -- Every value of a request is stored as it is, or of a type that is not stored.
  abbrev pub AreSound : List (Fcstring × FlexValue F) → Type 0
  AreSound = All (λ e. IsSound e.1)

pub record Contents (F : Type 0) : Type 0 where
  pub value : Option Fcstring → Fcstring → Option (FlexValue F)
  pub has : Fcstring → Bool

module _ {F : Type 0} where
  abbrev pub no_contents : Contents F
  no_contents = record { value = λ g k. none; has = λ name. false }

  -- KVSet and KVAdd: the group is created if it is not there.
  abbrev pub set_contents :
      Bool → Contents F → List (Fcstring × FlexValue F) → Option Fcstring → Contents F
  set_contents is_set s kv named = record {
    value = λ g k.
        if same_group named g then merged is_set k (supported kv) (s.value g k) else s.value g k;
    has = λ name. if same_group named (some name) then true else s.has name;
  }

  abbrev pub remove_contents : Contents F → Option (List Fcstring) → Option Fcstring → Contents F
  remove_contents s none named = s
  remove_contents s (some keys) named = record s {
    value = λ g k.
        if same_group named g then (if any_key keys k then none else s.value g k) else s.value g k;
  }

  abbrev pub clear_contents : Contents F → ClearOperation → Option Fcstring → Contents F
  clear_contents s op named = record {
    value = λ g k. if is_cleared op named g then none else s.value g k;
    has = λ name. if is_erased op named name then false else s.has name;
  }

  -- Whether there is what a request names: the keys outside of the groups always are.
  abbrev pub is_there : Contents F → Option Fcstring → Bool
  is_there s none = true
  is_there s (some name) = s.has name

  -- KVClearSet: a group that is not there is not created.
  abbrev pub clear_set_contents :
      Contents F → List (Fcstring × FlexValue F) → Option Fcstring → Contents F
  clear_set_contents s kv named = record s {
    value = λ g k.
        if is_there s named && same_group named g
        then merged true k (supported kv) none
        else s.value g k;
  }
