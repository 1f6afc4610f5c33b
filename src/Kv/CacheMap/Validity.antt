-- ===== src/Kv/CacheMap/Validity.antt =====
-- Every value that CacheMap holds can be extracted, whatever was set or added.
use mathlib.Core.Option
use fcache.Base.{sym, subst, List, [], ◌∷◌, Bool, some, if_elim, Option-cases, inl, inr}
use fcache.Value.{Fcstring, str_eq}
use fcache.Response.{FlexValue}
use fcache.Kv.DenseMap.{DenseMap}
use fcache.Kv.CachedValue.{FloatBytes, CachedVariant, make_cached_value, cached}
use fcache.Kv.CachedValue.RoundTrip.{IsReadable, cached-IsReadable}
use fcache.Kv.CacheMap.{CacheMap, set_or_add, set_or_add_each, remove}
use fcache.Kv.CacheMap.Lookup.{IsValidMap, find-set_or_add, put-IsReadable, find-remove}
use fcache.Kv.Contents.{any_key}

module _ {F : Type 0} (b : FloatBytes F) (d : DenseMap) where
  pub empty-IsValidMap : IsValidMap b d d.empty
  empty-IsValidMap k = subst (IsReadable b) (sym (d.find-empty k)) tt

  set_or_add-IsValidMap :
      (is_set : Bool) (m : CacheMap b d) (j : Fcstring) (c : CachedVariant F)
      → IsReadable b (some (make_cached_value c))
      → IsValidMap b d m
      → IsValidMap b d (set_or_add b d is_set m j c)
  set_or_add-IsValidMap is_set m j c r w k =
      subst (IsReadable b) (sym (find-set_or_add b d is_set m j k c))
        (put-IsReadable b d is_set (str_eq j k) (make_cached_value c) r.0 (d.find k m) r.1 (w k))

  -- Also where the loop ends early.
  pub set_or_add_each-IsValidMap :
      (is_set : Bool) (m : CacheMap b d) (kv : List (Fcstring × FlexValue F))
      → IsValidMap b d m
      → IsValidMap b d (set_or_add_each b d is_set m kv).0
  unfolding set_or_add_each
  set_or_add_each-IsValidMap is_set m [] w = w
  set_or_add_each-IsValidMap is_set m ((j, v) ∷ kv) w = elim (Option-cases (cached b v)) [
    | inl e ↦ rw (e, set_or_add_each) w
    | inr (c, e) ↦
        let r =
          subst (λ o. IsReadable b (Option.map make_cached_value o)) e (cached-IsReadable b v) in
        rw (e, set_or_add_each)
          (set_or_add_each-IsValidMap is_set (set_or_add b d is_set m j c) kv
            (set_or_add-IsValidMap is_set m j c r w))
  ]

  pub remove-IsValidMap :
      (keys : List Fcstring) (m : CacheMap b d)
      → IsValidMap b d m
      → IsValidMap b d (remove b d keys m)
  remove-IsValidMap keys m w k =
      subst (IsReadable b) (sym (find-remove b d keys m k))
        (if_elim (IsReadable b) (any_key keys k) (λ _. tt) (λ _. w k))
