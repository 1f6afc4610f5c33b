-- ===== src/Kv/Handler/Refinement.antt =====
-- The handlers of KVSet, KVAdd, KVClearSet and KVGet against what a client sees: a value for a
-- group, or none, and a key.
use mathlib.Core.Option
use fcache.Base.{
  ◌≡◌, refl, sym, ap, ◌∙◌, List, [], ◌∷◌, Bool, true, false, Option, none, some, if◌then◌else◌,
  Bool-cases, inl, inr,
}
use fcache.Value.{Fcstring, str_eq}
use fcache.Value.Order.{str_eq_iff}
use fcache.Store.Lookup.{str_eq_refl}
use fcache.Response.{
  FlexValue, FlatBuilder, finish, status_ok, body_kv_get, body_kv_set, body_kv_add, buffer_body,
  key_map, create_empty_body_response,
}
use fcache.Kv.DenseMap.{DenseMap}
use fcache.Kv.CachedValue.{FloatBytes}
use fcache.Kv.CacheMap.{CacheMap, set_or_add_each}
use fcache.Kv.CacheMap.Lookup.{IsValidMap, lookup, read, set_or_add_each-lookup, get-present}
use fcache.Kv.Contents.{merged, present, same_group, supported, are_supported, AreSound}
use fcache.Kv.CacheMap.Validity.{empty-IsValidMap}
use fcache.Kv.Handler.{
  status_if, KvHandler, get_group, get_or_create_group, created_group, set_or_add_in, get_from,
  named_map, answer_get, handle_kv_set, handle_kv_add, handle_kv_get,
}
use fcache.Kv.Requests.{group_name, KvSet}

module _ {F : Type 0} (b : FloatBytes F) (d : DenseMap) where
  -- Every value in the group can be extracted.
  abbrev pub IsValidGroup : Option (CacheMap b d) → Type 0
  IsValidGroup none = Unit
  IsValidGroup (some m) = IsValidMap b d m

  -- Every value in every group and outside of the groups can be extracted.
  abbrev pub IsValidKv : KvHandler b d → Type 0
  IsValidKv h = IsValidMap b d h.m_map × ((name : Fcstring) → IsValidGroup (get_group b d h name))

  abbrev pub view_group : Option (CacheMap b d) → Fcstring → Option (FlexValue F)
  view_group none k = none
  view_group (some m) k = lookup b d m k

  -- The value that a response gets for a key.
  abbrev pub view : KvHandler b d → Option Fcstring → Fcstring → Option (FlexValue F)
  view h none k = lookup b d h.m_map k
  view h (some name) k = view_group (get_group b d h name) k

  -- The group that is found or created.
  abbrev pub IsCreated :
      d.Map (CacheMap b d) → Fcstring → d.Map (CacheMap b d) × CacheMap b d → Type 0
  IsCreated groups name (after, kv_map) =
      (d.find name after ≡ some kv_map)
      × ((other : Fcstring) → str_eq name other ≡ false → d.find other after ≡ d.find other groups)
      × IsValidMap b d kv_map
      × ((k : Fcstring) → lookup b d kv_map k ≡ view_group (d.find name groups) k)

  pub get_or_create_group_lem :
      (groups : d.Map (CacheMap b d)) (name : Fcstring)
      → IsValidGroup (d.find name groups)
      → IsCreated groups name (get_or_create_group b d groups name)
  unfolding get_or_create_group Option.bind
  get_or_create_group_lem groups name w = by_lookup (d.find name groups) refl w
    where
      by_lookup :
          (o : Option (CacheMap b d))
          → d.find name groups ≡ o
          → IsValidGroup o
          → IsCreated groups name (created_group b d groups name o)
      by_lookup none e v = (
        d.find-emplace name name d.empty groups e ∙ rw (str_eq_refl name) refl,
        (λ other differs. d.find-emplace name other d.empty groups e ∙ rw differs refl),
        empty-IsValidMap b d,
        (λ k. ap (read b d) (d.find-empty k) ∙ sym (ap (λ o. view_group o k) e)),
      )
      by_lookup (some m) e v =
          (e, (λ other differs. refl), v, (λ k. sym (ap (λ o. view_group o k) e)))

  -- A map that is stored for a group is what the group's view then shows, and no other's.
  pub assigned_view :
      (after groups : d.Map (CacheMap b d)) (name other : Fcstring) (old new : CacheMap b d)
      (k : Fcstring) (spec : Option (FlexValue F) → Option (FlexValue F))
      → IsCreated groups name (after, old)
      → lookup b d new k ≡ spec (lookup b d old k)
      → view_group (d.find other (d.assign name new after)) k ≡ (
          if str_eq name other
          then spec (view_group (d.find other groups) k)
          else view_group (d.find other groups) k)
  assigned_view after groups name other old new k spec c s =
      ap (λ o. view_group o k) (d.find-assign name other new old after c.0)
      ∙ (elim (Bool-cases (str_eq name other)) [
        | inl e ↦ rw e (
            s
            ∙ ap spec
                (c.3 k ∙ ap (λ i. view_group (d.find i groups) k) ((str_eq_iff name other).0 e)))
        | inr e ↦ rw e (ap (λ o. view_group o k) (c.1 other e))
      ])

  pub set_or_add_in-view :
      (is_set : Bool) (h : KvHandler b d) (kv : List (Fcstring × FlexValue F))
      (g g' : Option Fcstring) (k : Fcstring)
      → AreSound kv
      → IsValidKv h
      → ((set_or_add_in b d is_set h kv g).1 ≡ are_supported kv)
        × (view (set_or_add_in b d is_set h kv g).0 g' k ≡ (
            if same_group g g' then merged is_set k (supported kv) (view h g' k) else view h g' k))
  unfolding set_or_add_in
  set_or_add_in-view is_set h kv none none k ok w =
      set_or_add_each-lookup b d is_set h.m_map kv k ok w.0
  set_or_add_in-view is_set h kv none (some other) k ok w =
      ((set_or_add_each-lookup b d is_set h.m_map kv k ok w.0).0, refl)
  set_or_add_in-view is_set h kv (some name) none k ok w =
      let created = get_or_create_group b d h.m_groups name in
      let c = get_or_create_group_lem h.m_groups name (w.1 name) in
      ((set_or_add_each-lookup b d is_set created.1 kv k ok c.2).0, refl)
  set_or_add_in-view is_set h kv (some name) (some other) k ok w =
      let created = get_or_create_group b d h.m_groups name in
      let c = get_or_create_group_lem h.m_groups name (w.1 name) in
      let s = set_or_add_each-lookup b d is_set created.1 kv k ok c.2 in
      (
        s.0,
        assigned_view created.0 h.m_groups name other created.1
            (set_or_add_each b d is_set created.1 kv).0 k (merged is_set k (supported kv)) c s.1,
      )

  -- Where every stored value can be extracted, KVSet of values that are stored as they are, or of a
  -- type that is not stored, succeeds if there are none of the latter. Of the entries in front of the first of those, it leaves each key in
  -- the group that it names with the last of its values, and the other keys and groups as they were.
  pub handle_kv_set-view :
      (h : KvHandler b d) (fbb : FlatBuilder F) (req : KvSet F) (g : Option Fcstring) (k : Fcstring)
      → AreSound req.kv
      → IsValidKv h
      → ((handle_kv_set b d h fbb req).1
          ≡ create_empty_body_response fbb (status_if (are_supported req.kv)) body_kv_set)
        × (view (handle_kv_set b d h fbb req).0 g k ≡ (
            if same_group (group_name req.group) g
            then merged true k (supported req.kv) (view h g k)
            else view h g k))
  unfolding handle_kv_set
  handle_kv_set-view h fbb req g k ok w =
      let s = set_or_add_in-view true h req.kv (group_name req.group) g k ok w in
      (ap (λ v. create_empty_body_response fbb (status_if v) body_kv_set) s.0, s.1)

  -- KVAdd of values that are stored as they are, or of a type that is not stored, succeeds if there
  -- are none of the latter. In the group that it names it leaves a key that has a value with it, and
  -- each other key of the entries in front of the first of those with the first of its values there;
  -- the other groups are as they were.
  pub handle_kv_add-view :
      (h : KvHandler b d) (fbb : FlatBuilder F) (req : KvSet F) (g : Option Fcstring) (k : Fcstring)
      → AreSound req.kv
      → IsValidKv h
      → ((handle_kv_add b d h fbb req).1
          ≡ create_empty_body_response fbb (status_if (are_supported req.kv)) body_kv_add)
        × (view (handle_kv_add b d h fbb req).0 g k ≡ (
            if same_group (group_name req.group) g
            then merged false k (supported req.kv) (view h g k)
            else view h g k))
  unfolding handle_kv_add
  handle_kv_add-view h fbb req g k ok w =
      let s = set_or_add_in-view false h req.kv (group_name req.group) g k ok w in
      (ap (λ v. create_empty_body_response fbb (status_if v) body_kv_add) s.0, s.1)

  present-none : (keys : List Fcstring) → present keys (view_group none) ≡ []
  present-none [] = refl
  present-none (k ∷ keys) = present-none keys

  pub get_from-view :
      (h : KvHandler b d) (g : Option Fcstring) (keys : List Fcstring)
      → IsValidKv h
      → get_from b d (named_map b d h g) (some keys) ≡ some (present keys (view h g))
  unfolding get_from
  get_from-view h none keys w = get-present b d keys h.m_map w.0
  get_from-view h (some name) keys w = by_group (get_group b d h name) (w.1 name)
    where
      by_group :
          (o : Option (CacheMap b d))
          → IsValidGroup o
          → get_from b d o (some keys) ≡ some (present keys (view_group o))
      by_group none v = ap some (sym (present-none keys))
      by_group (some m) v = get-present b d keys m v

  -- KVGet of some keys succeeds, and answers with those that have a value in the group, in their
  -- order, each with it.
  pub handle_kv_get-view :
      (h : KvHandler b d) (fbb : FlatBuilder F) (g : Option Fcstring) (keys : List Fcstring)
      → IsValidKv h
      → handle_kv_get b d h fbb (record { keys = some keys; group = g })
        ≡ finish fbb status_ok body_kv_get
            (buffer_body (key_map (present keys (view h (group_name g)))))
  unfolding handle_kv_get
  handle_kv_get-view h fbb g keys w =
      ap (answer_get b d fbb) (get_from-view h (group_name g) keys w)
