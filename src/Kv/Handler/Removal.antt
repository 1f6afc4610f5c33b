-- ===== src/Kv/Handler/Removal.antt =====
-- KVRmv and KVClearSet against what a client sees.
use mathlib.Core.Option
use fcache.Base.{
  ◌≡◌, refl, sym, ap, ◌∙◌, List, Bool, true, false, Option, none, some, if◌then◌else◌, ◌&&◌,
  Bool-cases, inl, inr,
}
use fcache.Value.{Fcstring, str_eq}
use fcache.Value.Order.{str_eq_iff}
use fcache.Response.{
  FlexValue, FlatBuilder, status_ok, body_kv_rmv, body_kv_clear_set, create_empty_body_response,
}
use fcache.Kv.DenseMap.{DenseMap}
use fcache.Kv.CachedValue.{FloatBytes}
use fcache.Kv.CacheMap.{CacheMap, set_or_add_each, remove}
use fcache.Kv.CacheMap.Lookup.{IsValidMap, lookup, read, set_or_add_each-lookup, find-remove}
use fcache.Kv.Contents.{merged, AreSound, any_key, supported, are_supported}
use fcache.Kv.CacheMap.Validity.{empty-IsValidMap}
use fcache.Kv.Handler.{
  KvHandler, get_group, remove_in, remove_in_group, clear_set_in, clear_set_group, status_if,
  handle_kv_rmv, handle_kv_clear_set,
}
use fcache.Kv.Requests.{group_name, KvSet}
use fcache.Kv.Handler.Groups.{is_found, has_named, lookup-empty}
use fcache.Kv.Handler.Refinement.{
  IsValidGroup, IsValidKv, view_group, view, IsCreated, assigned_view,
}
use fcache.Kv.Contents.{same_group}

module _ {F : Type 0} (b : FloatBytes F) (d : DenseMap) where
  found-IsCreated :
      (groups : d.Map (CacheMap b d)) (name : Fcstring) (m : CacheMap b d)
      → d.find name groups ≡ some m
      → IsValidMap b d m
      → IsCreated b d groups name (groups, m)
  found-IsCreated groups name m e v =
      (e, (λ other differs. refl), v, (λ k. sym (ap (λ o. view_group b d o k) e)))

  lookup-remove :
      (keys : List Fcstring) (m : CacheMap b d) (k : Fcstring)
      → lookup b d (remove b d keys m) k ≡ (if any_key keys k then none else lookup b d m k)
  unfolding Option.bind
  lookup-remove keys m k = ap (read b d) (find-remove b d keys m k) ∙ either (any_key keys k)
    where
      either :
          (among : Bool)
          → read b d (if among then none else d.find k m) ≡ (if among then none else lookup b d m k)
      either true = refl
      either false = refl

  missing_view :
      (groups : d.Map (CacheMap b d)) (name other k : Fcstring) (among : Bool)
      → d.find name groups ≡ none
      → view_group b d (d.find other groups) k ≡ (
          if str_eq name other
          then (if among then none else view_group b d (d.find other groups) k)
          else view_group b d (d.find other groups) k)
  missing_view groups name other k among e = elim (Bool-cases (str_eq name other)) [
    | inr differs ↦ rw differs refl
    | inl same ↦ rw same (
        nothing among (view_group b d (d.find other groups) k) (
          ap (λ i. view_group b d (d.find i groups) k) (sym ((str_eq_iff name other).0 same))
          ∙ ap (λ o. view_group b d o k) e))
  ]
    where
      nothing :
          (among : Bool) (o : Option (FlexValue F)) → o ≡ none → o ≡ (if among then none else o)
      nothing true o e = e
      nothing false o e = refl

  pub remove_in-view :
      (h : KvHandler b d) (keys : List Fcstring) (g g' : Option Fcstring) (k : Fcstring)
      → IsValidKv b d h
      → view b d (remove_in b d h (some keys) g) g' k ≡ (
          if same_group g g'
          then (if any_key keys k then none else view b d h g' k)
          else view b d h g' k)
  unfolding remove_in
  remove_in-view h keys g g' k w = in_group g g'
    where
      in_one :
          (name other : Fcstring) (o : Option (CacheMap b d))
          → get_group b d h name ≡ o
          → IsValidGroup b d o
          → view b d (remove_in_group b d h name keys o) (some other) k ≡ (
              if str_eq name other
              then (if any_key keys k then none else view b d h (some other) k)
              else view b d h (some other) k)
      in_one name other none e v = missing_view h.m_groups name other k (any_key keys k) e
      in_one name other (some m) e v =
          assigned_view b d h.m_groups h.m_groups name other m (remove b d keys m) k
            (λ o. if any_key keys k then none else o) (found-IsCreated h.m_groups name m e v)
            (lookup-remove keys m k)

      unnamed :
          (name : Fcstring) (o : Option (CacheMap b d))
          → view b d (remove_in_group b d h name keys o) none k ≡ view b d h none k
      unnamed name none = refl
      unnamed name (some m) = refl

      in_group :
          (g g' : Option Fcstring)
          → view b d (remove_in b d h (some keys) g) g' k ≡ (
              if same_group g g'
              then (if any_key keys k then none else view b d h g' k)
              else view b d h g' k)
      in_group none none = lookup-remove keys h.m_map k
      in_group none (some other) = refl
      in_group (some name) none = unnamed name (get_group b d h name)
      in_group (some name) (some other) = in_one name other (get_group b d h name) refl (w.1 name)

  -- KVRmv succeeds. In the group that it names, the keys of the request have no value any more;
  -- the other keys and groups are as they were.
  pub handle_kv_rmv-view :
      (h : KvHandler b d) (fbb : FlatBuilder F) (keys : List Fcstring) (g g' : Option Fcstring)
      (k : Fcstring)
      → IsValidKv b d h
      → ((handle_kv_rmv b d h fbb (record { keys = some keys; group = g })).1
          ≡ create_empty_body_response fbb status_ok body_kv_rmv)
        × (view b d (handle_kv_rmv b d h fbb (record { keys = some keys; group = g })).0 g' k ≡ (
            if same_group (group_name g) g'
            then (if any_key keys k then none else view b d h g' k)
            else view b d h g' k))
  unfolding handle_kv_rmv
  handle_kv_rmv-view h fbb keys g g' k w = (refl, remove_in-view h keys (group_name g) g' k w)

  -- The values of the group are taken, and the ones of the request put, if there is the group.
  pub clear_set_in-view :
      (h : KvHandler b d) (kv : List (Fcstring × FlexValue F)) (g g' : Option Fcstring)
      (k : Fcstring)
      → AreSound kv
      → IsValidKv b d h
      → ((clear_set_in b d h kv g).1 ≡ (has_named b d h g && are_supported kv))
        × (view b d (clear_set_in b d h kv g).0 g' k ≡ (
            if has_named b d h g && same_group g g'
            then merged true k (supported kv) none
            else view b d h g' k))
  unfolding clear_set_in
  clear_set_in-view h kv g g' k ok w = in_group g g'
    where
      put_in_empty :
          ((set_or_add_each b d true d.empty kv).1 ≡ are_supported kv)
          × (lookup b d (set_or_add_each b d true d.empty kv).0 k
              ≡ merged true k (supported kv) none)
      put_in_empty =
          let s = set_or_add_each-lookup b d true d.empty kv k ok (empty-IsValidMap b d) in
          (s.0, s.1 ∙ ap (merged true k (supported kv)) (lookup-empty b d k))

      in_one :
          (name : Fcstring) (g' : Option Fcstring) (o : Option (CacheMap b d))
          → get_group b d h name ≡ o
          → IsValidGroup b d o
          → ((clear_set_group b d h name kv o).1 ≡ (is_found o && are_supported kv))
            × (view b d (clear_set_group b d h name kv o).0 g' k ≡ (
                if is_found o && same_group (some name) g'
                then merged true k (supported kv) none
                else view b d h g' k))
      in_one name g' none e v = (refl, refl)
      in_one name none (some m) e v = (put_in_empty.0, refl)
      in_one name (some other) (some m) e v = (
        put_in_empty.0,
        assigned_view b d h.m_groups h.m_groups name other m (set_or_add_each b d true d.empty kv).0
            k (λ o. merged true k (supported kv) none) (found-IsCreated h.m_groups name m e v)
            put_in_empty.1,
      )

      in_group :
          (g g' : Option Fcstring)
          → ((clear_set_in b d h kv g).1 ≡ (has_named b d h g && are_supported kv))
            × (view b d (clear_set_in b d h kv g).0 g' k ≡ (
                if has_named b d h g && same_group g g'
                then merged true k (supported kv) none
                else view b d h g' k))
      in_group none none = put_in_empty
      in_group none (some other) = (put_in_empty.0, refl)
      in_group (some name) g' = in_one name g' (get_group b d h name) refl (w.1 name)

  -- KVClearSet of values that are stored as they are, or of a type that is not stored, succeeds if
  -- there are none of the latter and the group that it names exists, where KVSet would create it.
  -- It then leaves that group with the last value of each key among the entries in front of the
  -- first of those, and no other values; the other groups are as they were.
  pub handle_kv_clear_set-view :
      (h : KvHandler b d) (fbb : FlatBuilder F) (req : KvSet F) (g : Option Fcstring) (k : Fcstring)
      → AreSound req.kv
      → IsValidKv b d h
      → ((handle_kv_clear_set b d h fbb req).1
          ≡ create_empty_body_response fbb
              (status_if (has_named b d h (group_name req.group) && are_supported req.kv))
              body_kv_clear_set)
        × (view b d (handle_kv_clear_set b d h fbb req).0 g k ≡ (
            if has_named b d h (group_name req.group) && same_group (group_name req.group) g
            then merged true k (supported req.kv) none
            else view b d h g k))
  unfolding handle_kv_clear_set
  handle_kv_clear_set-view h fbb req g k ok w =
      let s = clear_set_in-view h req.kv (group_name req.group) g k ok w in
      (ap (λ v. create_empty_body_response fbb (status_if v) body_kv_clear_set) s.0, s.1)
