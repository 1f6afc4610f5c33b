-- ===== src/Kv/CacheMap/Lookup.antt =====
-- What the operations of CacheMap do to the value that a response gets for a key.
use mathlib.Core.Option
use fcache.Base.{
  ◌≡◌, refl, ap, sym, subst, ◌∙◌, List, [], ◌∷◌, Bool, true, false, Option, none, some,
  if◌then◌else◌, Bool-cases, inl, inr,
}
use fcache.Value.{Fcstring, str_eq}
use fcache.Value.Order.{str_eq_iff}
use fcache.Response.{FlexValue}
use fcache.Kv.DenseMap.{DenseMap}
use fcache.Kv.CachedValue.{
  FloatBytes, CachedVariant, CachedValue, make_cached_value, overwrite, extract,
}
use fcache.Kv.CachedValue.RoundTrip.{
  is_supported, unsupported-cached, extract-cached, IsReadable, overwrite_lem,
}
use fcache.Kv.Contents.{put, merged, present, any_key, supported, are_supported, AreSound}
use fcache.Kv.CacheMap.{
  CacheMap, set_or_add_found, set_or_add, set_or_add_each, get_found, get, remove,
}

module _ {V : Type 0} where
  if_put_new :
      (is_set : Bool) (v : V) (same : Bool) (old : Option V)
      → (same ≡ true → old ≡ none)
      → (if same then some v else old) ≡ put is_set same v old
  if_put_new is_set v false old e = refl
  if_put_new is_set v true old e = rw (e refl) refl

  if_put_old :
      (v w : V) (same : Bool) (old : Option V)
      → (same ≡ true → old ≡ some w)
      → (if same then some v else old) ≡ put true same v old
  if_put_old v w false old e = refl
  if_put_old v w true old e = rw (e refl) refl

  put_kept :
      (v w : V) (same : Bool) (old : Option V)
      → (same ≡ true → old ≡ some w)
      → old ≡ put false same v old
  put_kept v w false old e = refl
  put_kept v w true old e = rw (e refl) refl

  if_either :
      (same among : Bool) (old : Option V)
      → (if among then none else (if same then none else old))
        ≡ (if (if same then true else among) then none else old)
  if_either true true old = refl
  if_either true false old = refl
  if_either false true old = refl
  if_either false false old = refl

module _ {F : Type 0} (b : FloatBytes F) (d : DenseMap) where
  -- Every value in the map can be extracted.
  abbrev pub IsValidMap : CacheMap b d → Type 0
  IsValidMap m = (k : Fcstring) → IsReadable b (d.find k m)

  abbrev pub read : Option (CachedValue F) → Option (FlexValue F)
  read o = Option.bind o (extract b)

  -- The value that a response gets for a key.
  abbrev pub lookup : CacheMap b d → Fcstring → Option (FlexValue F)
  lookup m k = read (d.find k m)

  same_key :
      (m : CacheMap b d) (j k : Fcstring) (o : Option (CachedValue F))
      → d.find j m ≡ o
      → str_eq j k ≡ true
      → d.find k m ≡ o
  same_key m j k o e same = ap (λ i. d.find i m) (sym ((str_eq_iff j k).0 same)) ∙ e

  pub find-set_or_add :
      (is_set : Bool) (m : CacheMap b d) (j k : Fcstring) (v : CachedVariant F)
      → d.find k (set_or_add b d is_set m j v)
        ≡ put is_set (str_eq j k) (make_cached_value v) (d.find k m)
  unfolding set_or_add set_or_add_found
  find-set_or_add is_set m j k v = by_lookup is_set (d.find j m) refl
    where
      c : CachedValue F
      c = make_cached_value v

      by_lookup :
          (s : Bool) (o : Option (CachedValue F))
          → d.find j m ≡ o
          → d.find k (set_or_add_found b d s m j v o) ≡ put s (str_eq j k) c (d.find k m)
      by_lookup s none e =
          d.find-emplace j k c m e
          ∙ if_put_new s c (str_eq j k) (d.find k m) (same_key m j k none e)
      by_lookup true (some w) e =
          d.find-assign j k (overwrite v w) w m e
          ∙ ap (λ n. if str_eq j k then some n else d.find k m) (overwrite_lem v w)
          ∙ if_put_old c w (str_eq j k) (d.find k m) (same_key m j k (some w) e)
      by_lookup false (some w) e =
          put_kept c w (str_eq j k) (d.find k m) (same_key m j k (some w) e)

  -- What a response gets is put like what is stored.
  read-put :
      (is_set same : Bool) (c : CachedValue F) (v : FlexValue F) (old : Option (CachedValue F))
      → extract b c ≡ some v
      → IsReadable b old
      → read (put is_set same c old) ≡ put is_set same v (read old)
  unfolding Option.bind
  read-put is_set false c v old e r = refl
  read-put is_set true c v none e r = e
  read-put true true c v (some w) e r = rw r.1 e
  read-put false true c v (some w) e r = rw r.1 refl

  pub put-IsReadable :
      (is_set same : Bool) (c : CachedValue F) (v : FlexValue F) (old : Option (CachedValue F))
      → extract b c ≡ some v
      → IsReadable b old
      → IsReadable b (put is_set same c old)
  put-IsReadable is_set false c v old e r = r
  put-IsReadable is_set true c v none e r = (v, e)
  put-IsReadable true true c v (some w) e r = (v, e)
  put-IsReadable false true c v (some w) e r = r

  -- Values are stored in turn up to the first of a type that is not stored: a set leaves the last
  -- value of a key, and an add the one that was there, or else the first.
  pub set_or_add_each-lookup :
      (is_set : Bool) (m : CacheMap b d) (kv : List (Fcstring × FlexValue F)) (k : Fcstring)
      → AreSound kv
      → IsValidMap m
      → ((set_or_add_each b d is_set m kv).1 ≡ are_supported kv)
        × (lookup (set_or_add_each b d is_set m kv).0 k
            ≡ merged is_set k (supported kv) (lookup m k))
  unfolding set_or_add_each
  set_or_add_each-lookup is_set m [] k ok w = (refl, refl)
  set_or_add_each-lookup is_set m ((j, v) ∷ kv) k ok w = elim (Bool-cases (is_supported v)) [
    | inr e ↦ rw (e, unsupported-cached b v e, set_or_add_each) (refl, refl)
    | inl e ↦
        let (c, stored, back) = extract-cached b v (ok.0 e) in
        let rest = set_or_add_each-lookup is_set (set_or_add b d is_set m j c) kv k ok.1 (λ i.
          subst (IsReadable b) (sym (find-set_or_add is_set m j i c))
            (put-IsReadable is_set (str_eq j i) (make_cached_value c) v (d.find i m) back (w i))) in
        rw (e, stored, set_or_add_each)
          (
            rest.0,
            rest.1
                ∙ ap (merged is_set k (supported kv)) (
                    ap read (find-set_or_add is_set m j k c)
                    ∙ read-put is_set (str_eq j k) (make_cached_value c) v (d.find k m) back (w k)),
          )
  ]

  pub get-present :
      (keys : List Fcstring) (m : CacheMap b d)
      → IsValidMap m
      → get b d keys m ≡ some (present keys (lookup m))
  unfolding get get_found Option.bind
  get-present [] m w = refl
  get-present (k ∷ keys) m w = by_lookup (d.find k m) refl (w k) (get-present keys m w)
    where
      by_lookup :
          (o : Option (CachedValue F))
          → d.find k m ≡ o
          → IsReadable b o
          → get b d keys m ≡ some (present keys (lookup m))
          → get_found b d k o (get b d keys m) ≡ some (present (k ∷ keys) (lookup m))
      by_lookup none e r rest = rw (e, present, Option.bind) rest
      by_lookup (some c) e r rest = rw (e, present, Option.bind, r.1, rest) refl

  pub find-remove :
      (keys : List Fcstring) (m : CacheMap b d) (k : Fcstring)
      → d.find k (remove b d keys m) ≡ (if any_key keys k then none else d.find k m)
  unfolding remove
  find-remove [] m k = refl
  find-remove (j ∷ keys) m k =
      find-remove keys (d.erase j m) k
      ∙ ap (λ o. if any_key keys k then none else o) (d.find-erase j k m)
      ∙ if_either (str_eq j k) (any_key keys k) (d.find k m)
