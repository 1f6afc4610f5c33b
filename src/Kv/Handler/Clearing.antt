-- ===== src/Kv/Handler/Clearing.antt =====
-- KVClear against what a client sees.
use fcache.Base.{
  ◌≡◌, refl, sym, ap, subst, ◌∙◌, Bool, true, false, Option, none, some, if◌then◌else◌,
}
use fcache.Value.{Fcstring, str_eq}
use fcache.Value.Order.{str_eq_iff}
use fcache.Response.{FlatBuilder, status_ok, body_kv_clear, create_empty_body_response}
use fcache.Kv.DenseMap.{DenseMap}
use fcache.Kv.CachedValue.{FloatBytes}
use fcache.Kv.CacheMap.{CacheMap}
use fcache.Kv.CacheMap.Lookup.{lookup}
use fcache.Kv.Contents.{is_named, is_cleared, is_erased}
use fcache.Kv.Handler.{KvHandler, get_group, clear_found, clear_one, clear_in, handle_kv_clear}
use fcache.Kv.Requests.{
  group_name, KvClear, ClearOperation, clear_all, clear_groups, clear_groups_keys_only,
  clear_group_keys_only, clear_group, clear_unnamed,
}
use fcache.Kv.Handler.Groups.{lookup-empty, is_found, has_group}
use fcache.Kv.Handler.Refinement.{view_group, view}

module _ {F : Type 0} (b : FloatBytes F) (d : DenseMap) where
  -- What is seen of a group after it was cleared, or after it was not.
  abbrev IsSeen : Bool → Bool → Option (CacheMap b d) → Option (CacheMap b d) → Type 0
  IsSeen cleared erased before after =
      ((k : Fcstring)
        → view_group b d after k ≡ (if cleared then none else view_group b d before k))
      × (is_found after ≡ (if erased then false else is_found before))

  IsSeen-missing :
      (keys_only same : Bool) (o : Option (CacheMap b d))
      → (same ≡ true → o ≡ none)
      → IsSeen same (if keys_only then false else same) o o
  IsSeen-missing keys_only false o h = (
    (λ k. refl),
    elim keys_only
        as (λ x. is_found o ≡ (if (if x then false else false) then false else is_found o)) [
          | true ↦ refl
          | false ↦ refl
        ],
  )
  IsSeen-missing true true o h = rw (h refl) ((λ k. refl), refl)
  IsSeen-missing false true o h = rw (h refl) ((λ k. refl), refl)

  IsSeen-emptied :
      (same : Bool) (o : Option (CacheMap b d))
      → (same ≡ true → is_found o ≡ true)
      → IsSeen same false o (if same then some d.empty else o)
  IsSeen-emptied true o h = (lookup-empty b d, sym (h refl))
  IsSeen-emptied false o h = ((λ k. refl), refl)

  IsSeen-erased :
      (same : Bool) (o : Option (CacheMap b d)) → IsSeen same same o (if same then none else o)
  IsSeen-erased true o = ((λ k. refl), refl)
  IsSeen-erased false o = ((λ k. refl), refl)

  -- The group of the same name is the one that was found.
  same_group_found :
      (h : KvHandler b d) (name other : Fcstring) (o : Option (CacheMap b d))
      → get_group b d h name ≡ o
      → str_eq name other ≡ true
      → get_group b d h other ≡ o
  same_group_found h name other o e same =
      ap (get_group b d h) (sym ((str_eq_iff name other).0 same)) ∙ e

  IsSeen-found :
      (keys_only : Bool) (h : KvHandler b d) (name other : Fcstring) (o : Option (CacheMap b d))
      → get_group b d h name ≡ o
      → IsSeen
          (str_eq name other)
          (if keys_only then false else str_eq name other)
          (get_group b d h other)
          (get_group b d (clear_found b d keys_only h name o) other)
  IsSeen-found keys_only h name other none e =
      IsSeen-missing keys_only (str_eq name other) (get_group b d h other)
        (same_group_found h name other none e)
  IsSeen-found true h name other (some m) e =
      subst (IsSeen (str_eq name other) false (get_group b d h other))
        (sym (d.find-assign name other d.empty m h.m_groups e))
        (IsSeen-emptied (str_eq name other) (get_group b d h other)
          (λ same. ap is_found (same_group_found h name other (some m) e same)))
  IsSeen-found false h name other (some m) e =
      subst (IsSeen (str_eq name other) (str_eq name other) (get_group b d h other))
        (sym (d.find-erase name other h.m_groups))
        (IsSeen-erased (str_eq name other) (get_group b d h other))

  IsSeen-none :
      (name : Fcstring) (o : Option (CacheMap b d))
      → IsSeen true true o (d.find {V = CacheMap b d} name d.empty)
  IsSeen-none name o = rw (d.find-empty {V = CacheMap b d} name) ((λ k. refl), refl)

  IsSeen-all_emptied :
      (o : Option (CacheMap b d))
      → IsSeen true false o (elim o [ none ↦ none | some w ↦ some d.empty ])
  IsSeen-all_emptied none = ((λ k. refl), refl)
  IsSeen-all_emptied (some m) = (lookup-empty b d, refl)

  IsSeen-one :
      (keys_only : Bool) (h : KvHandler b d) (named : Option Fcstring) (other : Fcstring)
      → IsSeen
          (is_named named (some other))
          (if keys_only then false else is_named named (some other))
          (get_group b d h other)
          (get_group b d (clear_one b d keys_only h named) other)
  IsSeen-one keys_only h none other =
      IsSeen-missing keys_only false (get_group b d h other) (λ e. absurd (cc))
  IsSeen-one keys_only h (some name) other =
      IsSeen-found keys_only h name other (get_group b d h name) refl

  pub clear_in-IsSeen :
      (h : KvHandler b d) (op : ClearOperation) (named : Option Fcstring) (name : Fcstring)
      → IsSeen
          (is_cleared op named (some name))
          (is_erased op named name)
          (get_group b d h name)
          (get_group b d (clear_in b d h op named) name)
  unfolding clear_in
  clear_in-IsSeen h clear_all named name = IsSeen-none name (get_group b d h name)
  clear_in-IsSeen h clear_groups named name = IsSeen-none name (get_group b d h name)
  clear_in-IsSeen h clear_groups_keys_only named name =
      subst (IsSeen true false (get_group b d h name))
        (sym (d.find-assign_all name d.empty h.m_groups))
        (IsSeen-all_emptied (get_group b d h name))
  clear_in-IsSeen h clear_group_keys_only named name = IsSeen-one true h named name
  clear_in-IsSeen h clear_group named name = IsSeen-one false h named name
  clear_in-IsSeen h (clear_unnamed op) named name = ((λ k. refl), refl)

  m_map-clear_one :
      (keys_only : Bool) (h : KvHandler b d) (named : Option Fcstring)
      → (clear_one b d keys_only h named).m_map ≡ h.m_map
  m_map-clear_one keys_only h none = refl
  m_map-clear_one keys_only h (some name) = found keys_only (get_group b d h name)
    where
      found :
          (keys_only : Bool) (o : Option (CacheMap b d))
          → (clear_found b d keys_only h name o).m_map ≡ h.m_map
      found keys_only none = refl
      found true (some m) = refl
      found false (some m) = refl

  clear_in-lookup :
      (h : KvHandler b d) (op : ClearOperation) (named : Option Fcstring) (k : Fcstring)
      → lookup b d (clear_in b d h op named).m_map k
        ≡ (if is_cleared op named none then none else lookup b d h.m_map k)
  unfolding clear_in
  clear_in-lookup h clear_all named k = lookup-empty b d k
  clear_in-lookup h clear_groups named k = refl
  clear_in-lookup h clear_groups_keys_only named k = refl
  clear_in-lookup h clear_group_keys_only none k = refl
  clear_in-lookup h clear_group_keys_only (some name) k =
      ap (λ m. lookup b d m k) (m_map-clear_one true h (some name))
  clear_in-lookup h clear_group none k = refl
  clear_in-lookup h clear_group (some name) k =
      ap (λ m. lookup b d m k) (m_map-clear_one false h (some name))
  clear_in-lookup h (clear_unnamed op) named k = refl

  pub clear_in-view :
      (h : KvHandler b d) (op : ClearOperation) (named g : Option Fcstring) (k : Fcstring)
      → view b d (clear_in b d h op named) g k
        ≡ (if is_cleared op named g then none else view b d h g k)
  clear_in-view h op named none k = clear_in-lookup h op named k
  clear_in-view h op named (some name) k = (clear_in-IsSeen h op named name).0 k

  -- KVClear succeeds. By its operation it takes every value, those of the groups, or those of the
  -- one group that it names, and no others. An operation that
  -- the schema does not name takes nothing. KVClear takes the groups themselves as well, unless the
  -- operation is one on their keys only.
  pub handle_kv_clear-view :
      (h : KvHandler b d) (fbb : FlatBuilder F) (req : KvClear) (g : Option Fcstring)
      (k name : Fcstring)
      → ((handle_kv_clear b d h fbb req).1 ≡ create_empty_body_response fbb status_ok body_kv_clear)
        × (view b d (handle_kv_clear b d h fbb req).0 g k
            ≡ (if is_cleared req.op (group_name req.group) g then none else view b d h g k))
        × (has_group b d (handle_kv_clear b d h fbb req).0 name ≡ (
            if is_erased req.op (group_name req.group) name then false else has_group b d h name))
  unfolding handle_kv_clear
  handle_kv_clear-view h fbb req g k name =
      let named = group_name req.group in
      (refl, clear_in-view h req.op named g k, (clear_in-IsSeen h req.op named name).1)
