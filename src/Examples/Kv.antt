-- ===== src/Examples/Kv.antt =====
-- The theorems on the KV requests at concrete inputs.
use fcache.Base.{
  ℕ, ◌≡◌, refl, List, [], ◌∷◌, Bool, true, false, Option, none, some, if◌then◌else◌, arith,
}
use fcache.Base.Int.{pos, negsuc}
use fcache.Value.{Fcstring, str_eq}
use fcache.Store
use fcache.Response.{
  FlexValue, fbt_int, vector_int, vector_key, finish, status_ok, body_kv_set, body_kv_get,
  body_kv_add, body_kv_rmv, body_kv_clear_set, body_kv_clear, buffer_body, key_map,
  create_empty_body_response,
}
use fcache.Kv.CachedValue.{CachedVariant, make_cached_value, cached, extract}
use fcache.Kv.CachedValue.RoundTrip.{extract-cached}
use fcache.Kv.CacheMap.{CacheMap}
use fcache.Kv.Contents.{AreSound, merged, present, supported}
use fcache.Kv.Handler.{
  KvHandler, handle_kv_clear, handle_kv_add, handle_kv_rmv, handle_kv_clear_set, handle_kv_set,
  handle_kv_get,
}
use fcache.Kv.Requests.{KvSet, clear_group_keys_only}
use fcache.Kv.Handler.Refinement.{
  view, IsValidGroup, IsValidKv, handle_kv_set-view, handle_kv_add-view,
}
use fcache.Kv.Handler.Removal.{handle_kv_rmv-view, handle_kv_clear_set-view}
use fcache.Kv.Handler.Steps.{started, then_set, empty_kv, reachable-IsValidKv}
use fcache.Kv.Handler.Groups.{has_group}
use fcache.Kv.Handler.Clearing.{handle_kv_clear-view}
use fcache.Kv.Handler.SetGet.{handle_kv_get-handle_kv_set}
use fcache.Examples.Maps.{assoc_map, byte_floats}

abbrev city : Fcstring
city = 99 ∷ 105 ∷ []

abbrev age : Fcstring
age = 97 ∷ []

-- Two keys with a value each, and one of them again.
abbrev user : KvSet ℕ
user = record {
  kv =
      (age, fbt_int (pos 7))
      ∷ (city, vector_key ((98 ∷ 108 ∷ []) ∷ [] ∷ (49 ∷ []) ∷ []))
      ∷ (age, vector_int (pos 300 ∷ negsuc 4 ∷ []))
      ∷ [];
  group = some (103 ∷ []);
}

user-AreSound : AreSound user.kv
user-AreSound = (
  (λ e. tt),
  (
    (λ e. ((refl, (refl, tt)), (tt, ((refl, tt), tt)))),
    ((λ e. (omega arith, (omega arith, tt))), tt),
  ),
)

abbrev started_kv : KvHandler byte_floats assoc_map
started_kv = empty_kv byte_floats assoc_map

abbrev user_kv : KvHandler byte_floats assoc_map
user_kv = (handle_kv_set byte_floats assoc_map started_kv [] user).0

abbrev group : Option Fcstring
group = user.group

abbrev both : List Fcstring
both = city ∷ age ∷ []

handle_kv_get-handle_kv_set_example :
    handle_kv_get byte_floats assoc_map
      (handle_kv_set byte_floats assoc_map started_kv [] user).0
      []
      (record { keys = some both; group = group })
    ≡ finish [] status_ok body_kv_get (
        buffer_body (
          key_map (
            present both (λ k.
              merged true k (supported user.kv) (view byte_floats assoc_map started_kv group k)))))
handle_kv_get-handle_kv_set_example =
    handle_kv_get-handle_kv_set byte_floats assoc_map started_kv [] [] user both started
      user-AreSound

started-IsValidKv : IsValidKv byte_floats assoc_map started_kv
started-IsValidKv = reachable-IsValidKv byte_floats assoc_map started_kv started

handle_kv_set-view_example :
    ((handle_kv_set byte_floats assoc_map started_kv [] user).1
      ≡ create_empty_body_response [] status_ok body_kv_set)
    × (view byte_floats assoc_map
          (handle_kv_set byte_floats assoc_map started_kv [] user).0
          group
          age
        ≡ some (vector_int (pos 300 ∷ negsuc 4 ∷ [])))
unfolding str_eq Store.find
handle_kv_set-view_example =
    handle_kv_set-view byte_floats assoc_map started_kv [] user group age user-AreSound
      started-IsValidKv

abbrev no_values : CacheMap byte_floats assoc_map
no_values = []

abbrev grouped_kv : KvHandler byte_floats assoc_map
grouped_kv = record { m_map = []; m_groups = ((103 ∷ []), no_values) ∷ [] }

grouped_kv-IsValidKv : IsValidKv byte_floats assoc_map grouped_kv
unfolding Store.find
grouped_kv-IsValidKv = ((λ k. tt), λ name. valid (str_eq (103 ∷ []) name))
  where
    valid :
        (same : Bool) → IsValidGroup byte_floats assoc_map (if same then some no_values else none)
    valid true = λ k. tt
    valid false = tt

handle_kv_add-view_example :
    ((handle_kv_add byte_floats assoc_map started_kv [] user).1
      ≡ create_empty_body_response [] status_ok body_kv_add)
    × (view byte_floats assoc_map
          (handle_kv_add byte_floats assoc_map started_kv [] user).0
          group
          age
        ≡ some (fbt_int (pos 7)))
unfolding str_eq Store.find
handle_kv_add-view_example =
    handle_kv_add-view byte_floats assoc_map started_kv [] user group age user-AreSound
      started-IsValidKv

handle_kv_rmv-view_example :
    ((handle_kv_rmv byte_floats assoc_map user_kv []
        (record { keys = some (age ∷ []); group = group })).1
      ≡ create_empty_body_response [] status_ok body_kv_rmv)
    × (view byte_floats assoc_map
          (handle_kv_rmv byte_floats assoc_map user_kv []
            (record { keys = some (age ∷ []); group = group })).0
          group
          age
        ≡ none)
unfolding str_eq
handle_kv_rmv-view_example =
    handle_kv_rmv-view byte_floats assoc_map user_kv [] (age ∷ []) group group age
      (reachable-IsValidKv byte_floats assoc_map user_kv (then_set started_kv [] user started))

handle_kv_clear_set-view_example :
    ((handle_kv_clear_set byte_floats assoc_map grouped_kv [] user).1
      ≡ create_empty_body_response [] status_ok body_kv_clear_set)
    × (view byte_floats assoc_map
          (handle_kv_clear_set byte_floats assoc_map grouped_kv [] user).0
          group
          age
        ≡ some (vector_int (pos 300 ∷ negsuc 4 ∷ [])))
unfolding str_eq Store.find
handle_kv_clear_set-view_example =
    handle_kv_clear_set-view byte_floats assoc_map grouped_kv [] user group age user-AreSound
      grouped_kv-IsValidKv

abbrev counts : FlexValue ℕ
counts = vector_int (pos 300 ∷ negsuc 4 ∷ [])

extract-cached_example :
    (c : CachedVariant ℕ) × (cached byte_floats counts ≡ some c)
    × (extract byte_floats (make_cached_value c) ≡ some counts)
extract-cached_example = extract-cached byte_floats counts (omega arith, (omega arith, tt))

handle_kv_clear-view_example :
    ((handle_kv_clear byte_floats assoc_map grouped_kv []
        (record { op = clear_group_keys_only; group = group })).1
      ≡ create_empty_body_response [] status_ok body_kv_clear)
    × (view byte_floats assoc_map
          (handle_kv_clear byte_floats assoc_map grouped_kv []
            (record { op = clear_group_keys_only; group = group })).0
          group
          age
        ≡ none)
    × (has_group byte_floats assoc_map
          (handle_kv_clear byte_floats assoc_map grouped_kv []
            (record { op = clear_group_keys_only; group = group })).0
          (103 ∷ [])
        ≡ true)
unfolding str_eq Store.find
handle_kv_clear-view_example =
    handle_kv_clear-view byte_floats assoc_map grouped_kv []
      (record { op = clear_group_keys_only; group = group }) group age (103 ∷ [])
