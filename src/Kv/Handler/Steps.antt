-- ===== src/Kv/Handler/Steps.antt =====
-- The runs of the server as far as they are KV requests, one after the other from an empty cache.
use fcache.Base.{◌≡◌, refl, sym, subst, List, Bool, true, false, Option, none, some, if_elim}
use fcache.Value.{Fcstring, str_eq}
use fcache.Response.{FlexValue, FlatBuilder}
use fcache.Kv.DenseMap.{DenseMap}
use fcache.Kv.CachedValue.{FloatBytes}
use fcache.Kv.CacheMap.{CacheMap, set_or_add_each, remove}
use fcache.Kv.CacheMap.Lookup.{IsValidMap}
use fcache.Kv.CacheMap.Validity.{empty-IsValidMap, set_or_add_each-IsValidMap, remove-IsValidMap}
use fcache.Kv.Handler.{
  KvHandler, get_group, get_or_create_group, created_group, set_or_add_in, remove_in,
  remove_in_group, clear_in, clear_found, clear_one, clear_set_in, clear_set_group, handle_kv_set,
  handle_kv_add, handle_kv_rmv, handle_kv_clear, handle_kv_clear_set,
}
use fcache.Kv.Requests.{
  group_name, KvSet, KvKeys, KvClear, ClearOperation, clear_all, clear_groups, clear_group,
  clear_groups_keys_only, clear_group_keys_only, clear_unnamed,
}
use fcache.Kv.Handler.Refinement.{IsValidGroup, IsValidKv, get_or_create_group_lem}

module _ {F : Type 0} (b : FloatBytes F) (d : DenseMap) where
  abbrev pub empty_kv : KvHandler b d
  empty_kv = record { m_map = d.empty; m_groups = d.empty }

  -- The states that the requests lead to. Those that only read do not change the state.
  pub data IsReachable : KvHandler b d → Type 0 where
    started : IsReachable empty_kv
    then_set :
        (h : KvHandler b d) (fbb : FlatBuilder F) (req : KvSet F)
        → IsReachable h
        → IsReachable (handle_kv_set b d h fbb req).0
    then_add :
        (h : KvHandler b d) (fbb : FlatBuilder F) (req : KvSet F)
        → IsReachable h
        → IsReachable (handle_kv_add b d h fbb req).0
    then_rmv :
        (h : KvHandler b d) (fbb : FlatBuilder F) (req : KvKeys)
        → IsReachable h
        → IsReachable (handle_kv_rmv b d h fbb req).0
    then_clear :
        (h : KvHandler b d) (fbb : FlatBuilder F) (req : KvClear)
        → IsReachable h
        → IsReachable (handle_kv_clear b d h fbb req).0
    then_clear_set :
        (h : KvHandler b d) (fbb : FlatBuilder F) (req : KvSet F)
        → IsReachable h
        → IsReachable (handle_kv_clear_set b d h fbb req).0

  no_group : (name : Fcstring) → IsValidGroup b d (d.find name d.empty)
  no_group name = subst (IsValidGroup b d) (sym (d.find-empty name)) tt

  pub empty_kv-IsValidKv : IsValidKv b d empty_kv
  empty_kv-IsValidKv = (empty-IsValidMap b d, no_group)

  abbrev AreValid : d.Map (CacheMap b d) → Type 0
  AreValid groups = (name : Fcstring) → IsValidGroup b d (d.find name groups)

  -- A valid map that is stored for a group that is there.
  assign-AreValid :
      (groups : d.Map (CacheMap b d)) (name : Fcstring) (old new : CacheMap b d)
      → d.find name groups ≡ some old
      → IsValidMap b d new
      → AreValid groups
      → AreValid (d.assign name new groups)
  assign-AreValid groups name old new e v w other =
      subst (IsValidGroup b d) (sym (d.find-assign name other new old groups e))
        (if_elim (IsValidGroup b d) (str_eq name other) (λ _. v) (λ _. w other))

  get_or_create_group-AreValid :
      (groups : d.Map (CacheMap b d)) (name : Fcstring)
      → AreValid groups
      → AreValid (get_or_create_group b d groups name).0
  unfolding get_or_create_group
  get_or_create_group-AreValid groups name w = by_lookup (d.find name groups) refl
    where
      by_lookup :
          (o : Option (CacheMap b d))
          → d.find name groups ≡ o
          → AreValid (created_group b d groups name o).0
      by_lookup none e other =
          subst (IsValidGroup b d) (sym (d.find-emplace name other d.empty groups e)) (
            if_elim (IsValidGroup b d) (str_eq name other) (λ _. empty-IsValidMap b d)
              (λ _. w other))
      by_lookup (some m) e other = w other

  pub set_or_add_in-IsValidKv :
      (is_set : Bool) (h : KvHandler b d) (kv : List (Fcstring × FlexValue F)) (g : Option Fcstring)
      → IsValidKv b d h
      → IsValidKv b d (set_or_add_in b d is_set h kv g).0
  unfolding set_or_add_in
  set_or_add_in-IsValidKv is_set h kv none w =
      (set_or_add_each-IsValidMap b d is_set h.m_map kv w.0, w.1)
  set_or_add_in-IsValidKv is_set h kv (some name) w =
      let created = get_or_create_group b d h.m_groups name in
      let c = get_or_create_group_lem b d h.m_groups name (w.1 name) in
      (
        w.0,
        assign-AreValid created.0 name created.1 (set_or_add_each b d is_set created.1 kv).0 c.0
            (set_or_add_each-IsValidMap b d is_set created.1 kv c.2)
            (get_or_create_group-AreValid h.m_groups name w.1),
      )

  pub remove_in-IsValidKv :
      (h : KvHandler b d) (keys : Option (List Fcstring)) (g : Option Fcstring)
      → IsValidKv b d h
      → IsValidKv b d (remove_in b d h keys g)
  unfolding remove_in
  remove_in-IsValidKv h none g w = w
  remove_in-IsValidKv h (some keys) none w = (remove-IsValidMap b d keys h.m_map w.0, w.1)
  remove_in-IsValidKv h (some keys) (some name) w = by_group (get_group b d h name) refl (w.1 name)
    where
      by_group :
          (o : Option (CacheMap b d))
          → get_group b d h name ≡ o
          → IsValidGroup b d o
          → IsValidKv b d (remove_in_group b d h name keys o)
      by_group none e v = w
      by_group (some m) e v = (
        w.0,
        assign-AreValid h.m_groups name m (remove b d keys m) e (remove-IsValidMap b d keys m v)
            w.1,
      )

  clear_one-IsValidKv :
      (keys_only : Bool) (h : KvHandler b d) (g : Option Fcstring)
      → IsValidKv b d h
      → IsValidKv b d (clear_one b d keys_only h g)
  clear_one-IsValidKv keys_only h none w = w
  clear_one-IsValidKv keys_only h (some name) w = by_group keys_only (get_group b d h name) refl
    where
      by_group :
          (only : Bool) (o : Option (CacheMap b d))
          → get_group b d h name ≡ o
          → IsValidKv b d (clear_found b d only h name o)
      by_group only none e = w
      by_group true (some m) e =
          (w.0, assign-AreValid h.m_groups name m d.empty e (empty-IsValidMap b d) w.1)
      by_group false (some m) e = (
        w.0,
        λ other.
            subst (IsValidGroup b d) (sym (d.find-erase name other h.m_groups))
              (if_elim (IsValidGroup b d) (str_eq name other) (λ _. tt) (λ _. w.1 other)),
      )

  pub clear_in-IsValidKv :
      (h : KvHandler b d) (op : ClearOperation) (g : Option Fcstring)
      → IsValidKv b d h
      → IsValidKv b d (clear_in b d h op g)
  unfolding clear_in
  clear_in-IsValidKv h clear_all g w = empty_kv-IsValidKv
  clear_in-IsValidKv h clear_groups g w = (w.0, no_group)
  clear_in-IsValidKv h clear_groups_keys_only g w = (w.0, cleared)
    where
      emptied :
          (o : Option (CacheMap b d))
          → IsValidGroup b d (elim o [ none ↦ none | some m ↦ some d.empty ])
      emptied none = tt
      emptied (some m) = empty-IsValidMap b d

      cleared : (name : Fcstring) → IsValidGroup b d (d.find name (d.assign_all d.empty h.m_groups))
      cleared name =
          subst (IsValidGroup b d) (sym (d.find-assign_all name d.empty h.m_groups))
            (emptied (d.find name h.m_groups))
  clear_in-IsValidKv h clear_group_keys_only g w = clear_one-IsValidKv true h g w
  clear_in-IsValidKv h clear_group g w = clear_one-IsValidKv false h g w
  clear_in-IsValidKv h (clear_unnamed op) g w = w

  pub clear_set_in-IsValidKv :
      (h : KvHandler b d) (kv : List (Fcstring × FlexValue F)) (g : Option Fcstring)
      → IsValidKv b d h
      → IsValidKv b d (clear_set_in b d h kv g).0
  unfolding clear_set_in
  clear_set_in-IsValidKv h kv none w =
      (set_or_add_each-IsValidMap b d true d.empty kv (empty-IsValidMap b d), w.1)
  clear_set_in-IsValidKv h kv (some name) w = by_group (get_group b d h name) refl
    where
      by_group :
          (o : Option (CacheMap b d))
          → get_group b d h name ≡ o
          → IsValidKv b d (clear_set_group b d h name kv o).0
      by_group none e = w
      by_group (some m) e = (
        w.0,
        assign-AreValid h.m_groups name m (set_or_add_each b d true d.empty kv).0 e
            (set_or_add_each-IsValidMap b d true d.empty kv (empty-IsValidMap b d)) w.1,
      )

  pub handle_kv_set-IsValidKv :
      (h : KvHandler b d) (fbb : FlatBuilder F) (req : KvSet F)
      → IsValidKv b d h
      → IsValidKv b d (handle_kv_set b d h fbb req).0
  unfolding handle_kv_set
  handle_kv_set-IsValidKv h fbb req w =
      set_or_add_in-IsValidKv true h req.kv (group_name req.group) w

  -- In every state that KV requests lead to, each value that is stored can be extracted again.
  pub reachable-IsValidKv : (h : KvHandler b d) → IsReachable h → IsValidKv b d h
  unfolding handle_kv_add handle_kv_rmv handle_kv_clear handle_kv_clear_set
  reachable-IsValidKv _ started = empty_kv-IsValidKv
  reachable-IsValidKv _ (then_set h fbb req r) =
      handle_kv_set-IsValidKv h fbb req (reachable-IsValidKv h r)
  reachable-IsValidKv _ (then_add h fbb req r) =
      set_or_add_in-IsValidKv false h req.kv (group_name req.group) (reachable-IsValidKv h r)
  reachable-IsValidKv _ (then_rmv h fbb req r) =
      remove_in-IsValidKv h req.keys (group_name req.group) (reachable-IsValidKv h r)
  reachable-IsValidKv _ (then_clear h fbb req r) =
      clear_in-IsValidKv h req.op (group_name req.group) (reachable-IsValidKv h r)
  reachable-IsValidKv _ (then_clear_set h fbb req r) =
      clear_set_in-IsValidKv h req.kv (group_name req.group) (reachable-IsValidKv h r)
