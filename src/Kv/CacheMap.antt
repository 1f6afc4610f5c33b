-- ===== src/Kv/CacheMap.antt =====
-- `CacheMap` (Map.hpp): the keys of a group, or those outside of the groups, and their values.
--
-- A vector, a text or a blob is stored by putting an empty VectorValue at the key and filling it
-- through the iterator; here the filled one is put at once. Only a failure to allocate memory
-- comes between the two.
pub mod Lookup
pub mod Validity
use mathlib.Core.Option
use fcache.Base.{ℕ, List, [], ◌∷◌, Bool, true, false, Option, none, some, if◌then◌else◌}
use fcache.Value.{Fcstring}
use fcache.Response.{FlexValue}
use fcache.Kv.DenseMap.{DenseMap}
use fcache.Kv.CachedValue.{
  FloatBytes, CachedVariant, CachedValue, make_cached_value, overwrite, cached, extract,
}

module _ {F : Type 0} (b : FloatBytes F) (d : DenseMap) where
  abbrev pub CacheMap : Type 0
  CacheMap = d.Map (CachedValue F)

  -- What follows the lookup of the key in `CacheMap::setOrAdd`.
  unfoldable pub set_or_add_found :
      Bool → CacheMap → Fcstring → CachedVariant F → Option (CachedValue F) → CacheMap
  unfolding make_cached_value overwrite
  set_or_add_found is_set m_map key value none = d.emplace key (make_cached_value value) m_map
  set_or_add_found is_set m_map key value (some old) =
      if is_set then d.assign key (overwrite value old) m_map else m_map

  -- `CacheMap::setOrAdd`: both put a key that is not there, and only a set overwrites one.
  unfoldable pub set_or_add : Bool → CacheMap → Fcstring → CachedVariant F → CacheMap
  unfolding set_or_add_found
  set_or_add is_set m_map key value = set_or_add_found is_set m_map key value (d.find key m_map)

  -- `KvHandler::setOrAdd`: the loop ends at the first value of a type that is not supported, and
  -- what it put before stays.
  unfoldable pub set_or_add_each : Bool → CacheMap → List (Fcstring × FlexValue F) → CacheMap × Bool
  unfolding set_or_add cached
  set_or_add_each is_set m_map [] = (m_map, true)
  set_or_add_each is_set m_map ((key, value) ∷ kv) = elim (cached b value) [
    | none ↦ (m_map, false)
    | some c ↦ set_or_add_each is_set (set_or_add is_set m_map key c) kv
  ]

  -- The entry that `CacheMap::get` adds to the response for one key, in front of the others. It
  -- throws where a value cannot be extracted, `none`.
  unfoldable pub get_found :
      Fcstring
      → Option (CachedValue F)
      → Option (List (Fcstring × FlexValue F))
      → Option (List (Fcstring × FlexValue F))
  unfolding extract
  get_found key none rest = rest
  get_found key (some c) rest =
      Option.bind (extract b c) (λ v. Option.map (λ entries. (key, v) ∷ entries) rest)

  -- `CacheMap::get` of some keys.
  unfoldable pub get : List Fcstring → CacheMap → Option (List (Fcstring × FlexValue F))
  unfolding get_found
  get [] m_map = some []
  get (key ∷ keys) m_map = get_found key (d.find key m_map) (get keys m_map)

  -- `CacheMap::get` of all keys.
  unfoldable pub get_entries :
      List (Fcstring × CachedValue F) → Option (List (Fcstring × FlexValue F))
  unfolding get_found
  get_entries [] = some []
  get_entries ((key, c) ∷ entries) = get_found key (some c) (get_entries entries)

  unfoldable pub remove : List Fcstring → CacheMap → CacheMap
  remove [] m_map = m_map
  remove (key ∷ keys) m_map = remove keys (d.erase key m_map)

  -- `CacheMap::clear`, and `CacheMap::count`.
  abbrev pub clear : CacheMap → CacheMap
  clear m_map = d.empty

  abbrev pub count : CacheMap → ℕ
  count m_map = d.size m_map

  -- The keys that are there, in the order of the request.
  unfoldable pub contains : List Fcstring → CacheMap → List Fcstring
  contains [] m_map = []
  contains (key ∷ keys) m_map =
      let rest = contains keys m_map in
      elim (d.find key m_map) [ none ↦ rest | some c ↦ key ∷ rest ]
