-- ===== src/Kv/Requests.antt =====
-- The tables of the KV requests (fbs/request.fbs), as KvHandler.cpp reads them.
use fcache.Base.{ℕ, List, [], ◌∷◌, Option, none, some}
use fcache.Value.{Fcstring}
use fcache.Response.{FlexValue}

-- `group && !group->empty ()`
abbrev pub group_name : Option Fcstring → Option Fcstring
group_name none = none
group_name (some []) = none
group_name (some (c ∷ name)) = some (c ∷ name)

-- `fc::request::KVSet`, `KVAdd` and `KVClearSet`: the entries of the flexbuffers map.
pub record KvSet (F : Type 0) : Type 0 where
  pub kv : List (Fcstring × FlexValue F)
  pub group : Option Fcstring

-- `fc::request::KVGet`, `KVRmv` and `KVContains`
pub record KvKeys : Type 0 where
  pub keys : Option (List Fcstring)
  pub group : Option Fcstring

-- `fc::request::ClearOperation`. Its byte is not checked: the last constructor is one that the schema
-- does not name.
pub data ClearOperation : Type 0 where
  clear_all : ClearOperation
  clear_groups : ClearOperation
  clear_group : ClearOperation
  clear_groups_keys_only : ClearOperation
  clear_group_keys_only : ClearOperation
  clear_unnamed : ℕ → ClearOperation

pub record KvClear : Type 0 where
  pub op : ClearOperation
  pub group : Option Fcstring
