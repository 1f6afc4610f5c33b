-- ===== src/Kv/Handler.antt =====
-- `KvHandler` (KvHandler.hpp, KvHandler.cpp): the state and the handlers of the KV requests.
pub mod Refinement
pub mod Groups
pub mod Whole
pub mod Simulation
pub mod Keys
pub mod Failures
pub mod Steps
pub mod Removal
pub mod Clearing
pub mod SetGet
use fcache.Base.{ℕ, List, [], ◌∷◌, Bool, true, false, Option, none, some, length, if◌then◌else◌}
use fcache.Value.{Fcstring}
use fcache.Response.{
  FlexValue, FlexBuffer, Status, key_map, key_vector, status_ok, status_fail, status_not_permitted,
  ResponseBody, body_kv_set, body_kv_add, body_kv_get, body_kv_rmv, body_kv_count, body_kv_contains,
  body_kv_clear, body_kv_clear_set, FlatBuilder, finish, size_body, buffer_body,
  create_empty_body_response,
}
use fcache.Kv.Requests.{
  group_name, KvSet, KvKeys, KvClear, ClearOperation, clear_all, clear_groups, clear_group,
  clear_groups_keys_only, clear_group_keys_only, clear_unnamed,
}
use fcache.Kv.DenseMap.{DenseMap}
use fcache.Kv.CachedValue.{FloatBytes, CachedValue}
use fcache.Kv.CacheMap.{CacheMap, set_or_add_each, get, get_entries, remove, contains, clear, count}

abbrev pub status_if : Bool → Status
status_if valid = if valid then status_ok else status_fail

module _ {F : Type 0} (b : FloatBytes F) (d : DenseMap) where
  pub record KvHandler : Type 0 where
    pub m_map : CacheMap b d
    pub m_groups : d.Map (CacheMap b d)

  abbrev pub KvHandled : Type 0
  KvHandled = KvHandler × FlatBuilder F

  abbrev pub get_group : KvHandler → Fcstring → Option (CacheMap b d)
  get_group h name = d.find name h.m_groups

  -- The group that `getOrCreateGroup` finds or puts, and the groups with it.
  abbrev pub created_group :
      d.Map (CacheMap b d) → Fcstring → Option (CacheMap b d) → d.Map (CacheMap b d) × CacheMap b d
  created_group groups name none = (d.emplace name d.empty groups, d.empty)
  created_group groups name (some kv_map) = (groups, kv_map)

  unfoldable pub get_or_create_group :
      d.Map (CacheMap b d) → Fcstring → d.Map (CacheMap b d) × CacheMap b d
  get_or_create_group groups name = created_group groups name (d.find name groups)

  -- What the handlers of KVSet and KVAdd do to the group, or to the keys outside of the groups.
  unfoldable pub set_or_add_in :
      Bool → KvHandler → List (Fcstring × FlexValue F) → Option Fcstring → KvHandler × Bool
  unfolding get_or_create_group
  set_or_add_in is_set h kv none =
      let (m, valid) = set_or_add_each b d is_set h.m_map kv in (record h { m_map = m }, valid)
  set_or_add_in is_set h kv (some name) =
      let (groups, kv_map) = get_or_create_group h.m_groups name in
      let (m, valid) = set_or_add_each b d is_set kv_map kv in
      (record h { m_groups = d.assign name m groups }, valid)

  abbrev pub answer : FlatBuilder F → ResponseBody → KvHandler × Bool → KvHandled
  answer fbb body_type (h, valid) = (h, create_empty_body_response fbb (status_if valid) body_type)

  unfoldable pub handle_kv_set : KvHandler → FlatBuilder F → KvSet F → KvHandled
  unfolding set_or_add_in
  handle_kv_set h fbb req =
      answer fbb body_kv_set (set_or_add_in true h req.kv (group_name req.group))

  unfoldable pub handle_kv_add : KvHandler → FlatBuilder F → KvSet F → KvHandled
  unfolding set_or_add_in
  handle_kv_add h fbb req =
      answer fbb body_kv_add (set_or_add_in false h req.kv (group_name req.group))

  -- The map that a request to read names, if there is one.
  abbrev pub named_map : KvHandler → Option Fcstring → Option (CacheMap b d)
  named_map h none = some h.m_map
  named_map h (some name) = get_group h name

  -- The entries for the response. The map of a group that does not exist is empty.
  unfoldable pub get_from :
      Option (CacheMap b d) → Option (List Fcstring) → Option (List (Fcstring × FlexValue F))
  get_from none keys = some []
  get_from (some kv_map) (some keys) = get b d keys kv_map
  get_from (some kv_map) none = get_entries b d (d.entries kv_map)

  -- An exception is answered with a failure.
  abbrev pub answer_get : FlatBuilder F → Option (List (Fcstring × FlexValue F)) → FlatBuilder F
  answer_get fbb none = create_empty_body_response fbb status_fail body_kv_get
  answer_get fbb (some entries) = finish fbb status_ok body_kv_get (buffer_body (key_map entries))

  -- Without keys and without a group nothing may be read.
  abbrev pub get_named :
      KvHandler → FlatBuilder F → Option (List Fcstring) → Option Fcstring → FlatBuilder F
  get_named h fbb none none = create_empty_body_response fbb status_not_permitted body_kv_get
  get_named h fbb none (some name) =
      answer_get fbb (get_from (named_map h (group_name (some name))) none)
  get_named h fbb (some keys) group =
      answer_get fbb (get_from (named_map h (group_name group)) (some keys))

  unfoldable pub handle_kv_get : KvHandler → FlatBuilder F → KvKeys → FlatBuilder F
  unfolding get_from
  handle_kv_get h fbb req = get_named h fbb req.keys req.group

  abbrev pub remove_in_group :
      KvHandler → Fcstring → List Fcstring → Option (CacheMap b d) → KvHandler
  remove_in_group h name keys none = h
  remove_in_group h name keys (some kv_map) = record h {
    m_groups = d.assign name (remove b d keys kv_map) h.m_groups;
  }

  unfoldable pub remove_in : KvHandler → Option (List Fcstring) → Option Fcstring → KvHandler
  remove_in h none group = h
  remove_in h (some keys) none = record h { m_map = remove b d keys h.m_map }
  remove_in h (some keys) (some name) = remove_in_group h name keys (get_group h name)

  unfoldable pub handle_kv_rmv : KvHandler → FlatBuilder F → KvKeys → KvHandled
  unfolding remove_in
  handle_kv_rmv h fbb req = (
    remove_in h req.keys (group_name req.group),
    create_empty_body_response fbb status_ok body_kv_rmv,
  )

  abbrev pub count_of : Option (CacheMap b d) → ℕ
  count_of none = 0
  count_of (some kv_map) = count b d kv_map

  unfoldable pub handle_kv_count : KvHandler → FlatBuilder F → Option Fcstring → FlatBuilder F
  handle_kv_count h fbb group =
      finish fbb status_ok body_kv_count (size_body (count_of (named_map h (group_name group))))

  -- A vector of keys, but a map where the group does not exist.
  abbrev pub contains_buffer : List Fcstring → Option (CacheMap b d) → FlexBuffer F
  contains_buffer keys none = key_map []
  contains_buffer keys (some kv_map) = key_vector (contains b d keys kv_map)

  abbrev pub contains_named :
      KvHandler → FlatBuilder F → Option (List Fcstring) → Option Fcstring → FlatBuilder F
  contains_named h fbb none group = create_empty_body_response fbb status_fail body_kv_contains
  contains_named h fbb (some keys) group =
      finish fbb status_ok body_kv_contains
        (buffer_body (contains_buffer keys (named_map h (group_name group))))

  unfoldable pub handle_kv_contains : KvHandler → FlatBuilder F → KvKeys → FlatBuilder F
  handle_kv_contains h fbb req = contains_named h fbb req.keys req.group

  -- What is done to one group: to clear it is to store an empty map in it.
  abbrev pub clear_found : Bool → KvHandler → Fcstring → Option (CacheMap b d) → KvHandler
  clear_found keys_only h name none = h
  clear_found true h name (some kv_map) = record h {
    m_groups = d.assign name (clear b d kv_map) h.m_groups;
  }
  clear_found false h name (some kv_map) = record h { m_groups = d.erase name h.m_groups }

  abbrev pub clear_one : Bool → KvHandler → Option Fcstring → KvHandler
  clear_one keys_only h none = h
  clear_one keys_only h (some name) = clear_found keys_only h name (get_group h name)

  unfoldable pub clear_in : KvHandler → ClearOperation → Option Fcstring → KvHandler
  clear_in h clear_all group = record { m_map = clear b d h.m_map; m_groups = d.empty }
  clear_in h clear_groups group = record h { m_groups = d.empty }
  clear_in h clear_groups_keys_only group = record h { m_groups = d.assign_all d.empty h.m_groups }
  clear_in h clear_group_keys_only group = clear_one true h group
  clear_in h clear_group group = clear_one false h group
  clear_in h (clear_unnamed op) group = h

  unfoldable pub handle_kv_clear : KvHandler → FlatBuilder F → KvClear → KvHandled
  unfolding clear_in
  handle_kv_clear h fbb req = (
    clear_in h req.op (group_name req.group),
    create_empty_body_response fbb status_ok body_kv_clear,
  )

  abbrev pub clear_set_group :
      KvHandler
      → Fcstring
      → List (Fcstring × FlexValue F)
      → Option (CacheMap b d)
      → KvHandler × Bool
  clear_set_group h name kv none = (h, false)
  clear_set_group h name kv (some kv_map) =
      let (m, valid) = set_or_add_each b d true (clear b d kv_map) kv in
      (record h { m_groups = d.assign name m h.m_groups }, valid)

  -- What KVClearSet does: a group is cleared, and not created.
  unfoldable pub clear_set_in :
      KvHandler → List (Fcstring × FlexValue F) → Option Fcstring → KvHandler × Bool
  clear_set_in h kv none =
      let (m, valid) = set_or_add_each b d true (clear b d h.m_map) kv in
      (record h { m_map = m }, valid)
  clear_set_in h kv (some name) = clear_set_group h name kv (get_group h name)

  unfoldable pub handle_kv_clear_set : KvHandler → FlatBuilder F → KvSet F → KvHandled
  unfolding clear_set_in
  handle_kv_clear_set h fbb req =
      answer fbb body_kv_clear_set (clear_set_in h req.kv (group_name req.group))
