-- ===== src/Kv/Handler/Groups.antt =====
-- Which groups there are after the requests that set, add and remove values.
use mathlib.Core.Option
use fcache.Base.{
  ◌≡◌, refl, sym, ap, ◌∙◌, List, Bool, true, false, Option, none, some, if◌then◌else◌, Bool-cases,
  inl, inr,
}
use fcache.Value.{Fcstring, str_eq}
use fcache.Value.Order.{str_eq_iff}
use fcache.Store.Lookup.{str_eq_refl}
use fcache.Response.{FlexValue}
use fcache.Kv.DenseMap.{DenseMap}
use fcache.Kv.CachedValue.{FloatBytes}
use fcache.Kv.CacheMap.{CacheMap, set_or_add_each, remove}
use fcache.Kv.CacheMap.Lookup.{lookup, read}
use fcache.Kv.Contents.{same_group}
use fcache.Kv.Handler.{
  KvHandler, get_group, get_or_create_group, created_group, set_or_add_in, remove_in,
  remove_in_group, clear_set_in, clear_set_group,
}

abbrev pub is_found : {A : Type 0} → Option A → Bool
is_found none = false
is_found (some a) = true

module _ {F : Type 0} (b : FloatBytes F) (d : DenseMap) where
  pub lookup-empty : (k : Fcstring) → lookup b d d.empty k ≡ none
  unfolding Option.bind
  lookup-empty k = ap (read b d) (d.find-empty k)

  abbrev pub has_group : KvHandler b d → Fcstring → Bool
  has_group h name = is_found (get_group b d h name)

  -- Whether there is what a request names: the keys outside of the groups always are.
  abbrev pub has_named : KvHandler b d → Option Fcstring → Bool
  has_named h none = true
  has_named h (some name) = has_group h name

  -- The groups after an assignment to one that is there.
  found-assign :
      (groups : d.Map (CacheMap b d)) (name other : Fcstring) (old new : CacheMap b d)
      → d.find name groups ≡ some old
      → is_found (d.find other (d.assign name new groups)) ≡ is_found (d.find other groups)
  found-assign groups name other old new e =
      ap is_found (d.find-assign name other new old groups e)
      ∙ (elim (Bool-cases (str_eq name other)) [
        | inr differs ↦ rw differs refl
        | inl same ↦ rw same (
            sym (ap is_found e)
            ∙ ap (λ i. is_found (d.find i groups)) ((str_eq_iff name other).0 same))
      ])

  found-created :
      (groups : d.Map (CacheMap b d)) (name other : Fcstring) (m : CacheMap b d)
      → is_found (d.find other (d.assign name m (get_or_create_group b d groups name).0))
        ≡ (if str_eq name other then true else is_found (d.find other groups))
  unfolding get_or_create_group
  found-created groups name other m = by_lookup (d.find name groups) refl
    where
      either :
          (same : Bool) (o : Option (CacheMap b d)) (new old : CacheMap b d)
          → is_found (if same then some new else (if same then some old else o))
            ≡ (if same then true else is_found o)
      either true o new old = refl
      either false o new old = refl

      kept :
          (same : Bool) (o : Option (CacheMap b d)) (new : CacheMap b d)
          → is_found (if same then some new else o) ≡ (if same then true else is_found o)
      kept true o new = refl
      kept false o new = refl

      by_lookup :
          (o : Option (CacheMap b d))
          → d.find name groups ≡ o
          → is_found (d.find other (d.assign name m (created_group b d groups name o).0))
            ≡ (if str_eq name other then true else is_found (d.find other groups))
      by_lookup none e =
          let made = d.find-emplace name name d.empty groups e ∙ rw (str_eq_refl name) refl in
          ap is_found (
            d.find-assign name other m d.empty (d.emplace name d.empty groups) made
            ∙ ap (λ o. if str_eq name other then some m else o)
                (d.find-emplace name other d.empty groups e))
          ∙ either (str_eq name other) (d.find other groups) m d.empty
      by_lookup (some w) e =
          ap is_found (d.find-assign name other m w groups e)
          ∙ kept (str_eq name other) (d.find other groups) m

  pub set_or_add_in-has_group :
      (is_set : Bool) (h : KvHandler b d) (kv : List (Fcstring × FlexValue F)) (g : Option Fcstring)
      (name : Fcstring)
      → has_group (set_or_add_in b d is_set h kv g).0 name
        ≡ (if same_group g (some name) then true else has_group h name)
  unfolding set_or_add_in
  set_or_add_in-has_group is_set h kv none name = refl
  set_or_add_in-has_group is_set h kv (some g) name =
      found-created h.m_groups g name
        (set_or_add_each b d is_set (get_or_create_group b d h.m_groups g).1 kv).0

  pub remove_in-has_group :
      (h : KvHandler b d) (keys : Option (List Fcstring)) (g : Option Fcstring) (name : Fcstring)
      → has_group (remove_in b d h keys g) name ≡ has_group h name
  unfolding remove_in
  remove_in-has_group h none g name = refl
  remove_in-has_group h (some keys) none name = refl
  remove_in-has_group h (some keys) (some g) name = by_group (get_group b d h g) refl
    where
      by_group :
          (o : Option (CacheMap b d))
          → get_group b d h g ≡ o
          → has_group (remove_in_group b d h g keys o) name ≡ has_group h name
      by_group none e = refl
      by_group (some m) e = found-assign h.m_groups g name m (remove b d keys m) e

  pub clear_set_in-has_group :
      (h : KvHandler b d) (kv : List (Fcstring × FlexValue F)) (g : Option Fcstring)
      (name : Fcstring)
      → has_group (clear_set_in b d h kv g).0 name ≡ has_group h name
  unfolding clear_set_in
  clear_set_in-has_group h kv none name = refl
  clear_set_in-has_group h kv (some g) name = by_group (get_group b d h g) refl
    where
      by_group :
          (o : Option (CacheMap b d))
          → get_group b d h g ≡ o
          → has_group (clear_set_group b d h g kv o).0 name ≡ has_group h name
      by_group none e = refl
      by_group (some m) e =
          found-assign h.m_groups g name m (set_or_add_each b d true d.empty kv).0 e
