-- ===== src/Kv/Handler/SetGet.antt =====
-- KVGet after KVSet.
use fcache.Base.{◌≡◌, refl, ap, ◌∙◌, List, [], ◌∷◌, true, Option, none, some, if◌then◌else◌}
use mathlib.Core.Path.{ap₂}
use fcache.Store.Lookup.{str_eq_refl}
use fcache.Value.{Fcstring}
use fcache.Response.{FlatBuilder, finish, status_ok, body_kv_get, buffer_body, key_map}
use fcache.Kv.DenseMap.{DenseMap}
use fcache.Kv.CachedValue.{FloatBytes}
use fcache.Kv.Contents.{add_present, present, merged, supported, AreSound}
use fcache.Kv.Handler.{KvHandler, handle_kv_set, handle_kv_get}
use fcache.Kv.Requests.{group_name, KvSet}
use fcache.Kv.Handler.Refinement.{view, handle_kv_set-view, handle_kv_get-view}
use fcache.Kv.Contents.{same_group}
use fcache.Kv.Handler.Steps.{IsReachable, reachable-IsValidKv, handle_kv_set-IsValidKv}

pub present-ext :
    {V : Type 0} (keys : List Fcstring) (p q : Fcstring → Option V)
    → ((k : Fcstring) → p k ≡ q k)
    → present keys p ≡ present keys q
present-ext [] p q e = refl
present-ext (k ∷ keys) p q e = ap₂ (add_present k) (e k) (present-ext keys p q e)

module _ {F : Type 0} (b : FloatBytes F) (d : DenseMap) where
  same_group_refl : (g : Option Fcstring) → same_group g g ≡ true
  same_group_refl none = refl
  same_group_refl (some name) = str_eq_refl name

  -- In every state that KV requests lead to: a KVGet of some keys after a KVSet, in the same group,
  -- of values that are stored as they are, or of a type that is not stored, succeeds. It answers
  -- with the values in front of the first of the latter, the last one of a key, and for the other
  -- keys with what they had before.
  pub handle_kv_get-handle_kv_set :
      (h : KvHandler b d) (fbb fbb' : FlatBuilder F) (req : KvSet F) (keys : List Fcstring)
      → IsReachable b d h
      → AreSound req.kv
      → handle_kv_get b d
          (handle_kv_set b d h fbb req).0
          fbb'
          (record { keys = some keys; group = req.group })
        ≡ finish fbb' status_ok body_kv_get (
            buffer_body (
              key_map (
                present keys
                  (λ k. merged true k (supported req.kv) (view b d h (group_name req.group) k)))))
  handle_kv_get-handle_kv_set h fbb fbb' req keys r ok =
      let w = reachable-IsValidKv b d h r in
      let g = group_name req.group in
      let after = (handle_kv_set b d h fbb req).0 in
      handle_kv_get-view b d after fbb' req.group keys (handle_kv_set-IsValidKv b d h fbb req w)
      ∙ ap (λ l. finish fbb' status_ok body_kv_get (buffer_body (key_map l)))
          (present-ext keys (view b d after g)
            (λ k. merged true k (supported req.kv) (view b d h g k))
            (λ k.
              (handle_kv_set-view b d h fbb req g k ok w).1
              ∙ ap
                  (λ same.
                    if same
                    then merged true k (supported req.kv) (view b d h g k)
                    else view b d h g k)
                  (same_group_refl g)))
