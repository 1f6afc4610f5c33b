-- ===== src/Kv/Handler/Keys.antt =====
-- KVContains against what a client sees, where the group exists.
use mathlib.Core.Option
use fcache.Base.{◌≡◌, refl, sym, ap, ◌∙◌, subst, List, [], ◌∷◌, Option, none, some}
use fcache.Value.{Fcstring}
use fcache.Response.{
  FlexValue, FlatBuilder, finish, status_ok, body_kv_contains, buffer_body, key_vector,
}
use fcache.Kv.DenseMap.{DenseMap}
use fcache.Kv.CachedValue.{FloatBytes, CachedValue}
use fcache.Kv.CachedValue.RoundTrip.{IsReadable}
use fcache.Kv.CacheMap.{CacheMap, contains}
use fcache.Kv.CacheMap.Lookup.{IsValidMap, lookup, read}
use fcache.Kv.Contents.{present, add_present, keys_of}
use fcache.Kv.Handler.{KvHandler, named_map, handle_kv_contains}
use fcache.Kv.Requests.{group_name}
use fcache.Kv.Handler.Refinement.{IsValidGroup, IsValidKv, view_group, view}

module _ {F : Type 0} (b : FloatBytes F) (d : DenseMap) where
  pub contains-present :
      (keys : List Fcstring) (m : CacheMap b d)
      → IsValidMap b d m
      → contains b d keys m ≡ keys_of (present keys (lookup b d m))
  unfolding contains Option.bind
  contains-present [] m w = refl
  contains-present (k ∷ keys) m w =
      by_lookup (d.find k m) (w k) (contains b d keys m) (present keys (lookup b d m))
        (contains-present keys m w)
    where
      by_lookup :
          (o : Option (CachedValue F))
          → IsReadable b o
          → (there : List Fcstring) (entries : List (Fcstring × FlexValue F))
          → there ≡ keys_of entries
          → (elim o [ none ↦ there | some c ↦ k ∷ there ])
            ≡ keys_of (add_present k (read b d o) entries)
      by_lookup none r there entries e = e
      by_lookup (some c) r there entries e = rw r.1 (ap (λ l. k ∷ l) e)

  view_named :
      (h : KvHandler b d) (g : Option Fcstring) (m : CacheMap b d) (keys : List Fcstring)
      → named_map b d h g ≡ some m
      → IsValidKv b d h
      → contains b d keys m ≡ keys_of (present keys (view b d h g))
  view_named h none m keys e w =
      let same : h.m_map ≡ m = cc in
      subst (λ n. contains b d keys n ≡ keys_of (present keys (view b d h none))) same
        (contains-present keys h.m_map w.0)
  view_named h (some name) m keys e w =
      contains-present keys m (subst (IsValidGroup b d) e (w.1 name))
      ∙ ap (λ o. keys_of (present keys (view_group b d o))) (sym e)

  -- KVContains of some keys, in a group that exists or outside of the groups, answers with the
  -- vector of those that KVGet would answer with a value, in their order.
  handle_kv_contains-view :
      (h : KvHandler b d) (fbb : FlatBuilder F) (g : Option Fcstring) (keys : List Fcstring)
      (m : CacheMap b d)
      → IsValidKv b d h
      → named_map b d h (group_name g) ≡ some m
      → handle_kv_contains b d h fbb (record { keys = some keys; group = g })
        ≡ finish fbb status_ok body_kv_contains
            (buffer_body (key_vector (keys_of (present keys (view b d h (group_name g))))))
  unfolding handle_kv_contains
  handle_kv_contains-view h fbb g keys m w e = rw e (
      ap (λ l. finish fbb status_ok body_kv_contains (buffer_body (key_vector l)))
        (view_named h (group_name g) m keys e w))
