-- ===== src/Kv/Handler/Simulation/Replies.antt =====
-- What the KV handler answers, by the abstract store.
use mathlib.Core.Path.{ap₂}
use fcache.Base.{◌≡◌, refl, sym, ap, ◌∙◌, List, [], length, Option, none, some, if◌then◌else◌}
use fcache.Value.{Fcstring}
use fcache.Store
use fcache.Response.{
  FlexValue, FlatBuilder, key_map, key_vector, status_ok, status_fail, status_not_permitted,
  body_kv_get, body_kv_count, body_kv_contains, finish, size_body, buffer_body,
  create_empty_body_response,
}
use fcache.Kv.DenseMap.{DenseMap}
use fcache.Kv.CachedValue.{FloatBytes}
use fcache.Kv.CacheMap.{CacheMap}
use fcache.Kv.Requests.{group_name}
use fcache.Kv.Contents.{Contents, is_there, present, keys_of}
use fcache.Kv.Handler.{
  KvHandler, get_group, named_map, get_from, answer_get, handle_kv_get, handle_kv_count,
  handle_kv_contains, contains_buffer, count_of,
}
use fcache.Kv.Handler.Groups.{is_found}
use fcache.Kv.Handler.Refinement.{IsValidGroup, view, view_group, get_from-view}
use fcache.Kv.Handler.SetGet.{present-ext}
use fcache.Kv.Handler.Whole.{AreEntries, get_entries-AreEntries}
use fcache.Kv.Handler.Keys.{contains-present}
use fcache.Kv.Handler.Simulation.{Simulates}

module _ {F : Type 0} where
  -- The entries that a store has for a group, in some order.
  abbrev pub EntriesOf : Contents F → Option Fcstring → List (Fcstring × FlexValue F) → Type 0
  EntriesOf s g = AreEntries (s.value g)

  -- The response to a KVGet: of the keys of the request those that have a value, or all keys of a
  -- group in some order.
  abbrev pub IsGetReply :
      Contents F → FlatBuilder F → Option (List Fcstring) → Option Fcstring → FlatBuilder F → Type 0
  IsGetReply s fbb (some keys) group reply =
      reply
      ≡ finish fbb status_ok body_kv_get
          (buffer_body (key_map (present keys (s.value (group_name group)))))
  IsGetReply s fbb none none reply =
      reply ≡ create_empty_body_response fbb status_not_permitted body_kv_get
  IsGetReply s fbb none (some name) reply =
      (entries : List (Fcstring × FlexValue F)) × (reply
        ≡ finish fbb status_ok body_kv_get (buffer_body (key_map entries)))
      × EntriesOf s (group_name (some name)) entries

  -- The response to a KVCount: how many keys have a value.
  abbrev pub IsCountReply : Contents F → FlatBuilder F → Option Fcstring → FlatBuilder F → Type 0
  IsCountReply s fbb group reply =
      (entries : List (Fcstring × FlexValue F)) × (reply
        ≡ finish fbb status_ok body_kv_count (size_body (length entries)))
      × EntriesOf s (group_name group) entries

  -- The response to a KVContains: of the keys of the request those that have a value.
  abbrev pub contains_reply :
      Contents F → FlatBuilder F → Option (List Fcstring) → Option Fcstring → FlatBuilder F
  contains_reply s fbb none group = create_empty_body_response fbb status_fail body_kv_contains
  contains_reply s fbb (some keys) group = finish fbb status_ok body_kv_contains (
      buffer_body (
        if is_there s (group_name group)
        then key_vector (keys_of (present keys (s.value (group_name group))))
        else key_map []))

module _ {F : Type 0} (b : FloatBytes F) (d : DenseMap) where
  -- The entries of what a request names, as a response gets them.
  whole :
      (h : KvHandler b d) (s : Contents F) (g : Option Fcstring)
      → Simulates b d h s
      → (entries : List (Fcstring × FlexValue F)) × (get_from b d (named_map b d h g) none
          ≡ some entries)
        × (length entries ≡ count_of b d (named_map b d h g))
        × EntriesOf s g entries
  unfolding get_from Store.find
  whole h s g q = by_name g
    where
      by_group :
          (o : Option (CacheMap b d))
          → IsValidGroup b d o
          → (entries : List (Fcstring × FlexValue F)) × (get_from b d o none ≡ some entries)
            × (length entries ≡ count_of b d o)
            × AreEntries (view_group b d o) entries
      by_group none v = ([], refl, refl, (tt, (λ k. refl)))
      by_group (some m) v = get_entries-AreEntries b d m v

      by_name :
          (g : Option Fcstring)
          → (entries : List (Fcstring × FlexValue F)) × (get_from b d (named_map b d h g) none
              ≡ some entries)
            × (length entries ≡ count_of b d (named_map b d h g))
            × EntriesOf s g entries
      by_name none =
          let (entries, e, l, r) = get_entries-AreEntries b d h.m_map q.0.0 in
          (entries, e, l, (r.0, (λ k. r.1 k ∙ q.1 none k)))
      by_name (some name) =
          let (entries, e, l, r) = by_group (get_group b d h name) (q.0.1 name) in
          (entries, e, l, (r.0, (λ k. r.1 k ∙ q.1 (some name) k)))

  pub handle_kv_get-IsGetReply :
      (h : KvHandler b d) (s : Contents F) (fbb : FlatBuilder F) (keys : Option (List Fcstring))
      (group : Option Fcstring)
      → Simulates b d h s
      → IsGetReply s fbb keys group
          (handle_kv_get b d h fbb (record { keys = keys; group = group }))
  unfolding handle_kv_get
  handle_kv_get-IsGetReply h s fbb (some keys) group q =
      let g = group_name group in
      ap (answer_get b d fbb) (
        get_from-view b d h g keys q.0
        ∙ ap some (present-ext keys (view b d h g) (s.value g) (q.1 g)))
  handle_kv_get-IsGetReply h s fbb none none q = refl
  handle_kv_get-IsGetReply h s fbb none (some name) q =
      let (entries, e, l, r) = whole h s (group_name (some name)) q in
      (entries, ap (answer_get b d fbb) e, r)

  pub handle_kv_count-IsCountReply :
      (h : KvHandler b d) (s : Contents F) (fbb : FlatBuilder F) (group : Option Fcstring)
      → Simulates b d h s
      → IsCountReply s fbb group (handle_kv_count b d h fbb group)
  unfolding handle_kv_count
  handle_kv_count-IsCountReply h s fbb group q =
      let (entries, e, l, r) = whole h s (group_name group) q in
      (entries, ap (λ n. finish fbb status_ok body_kv_count (size_body n)) (sym l), r)

  pub handle_kv_contains-contains_reply :
      (h : KvHandler b d) (s : Contents F) (fbb : FlatBuilder F) (keys : Option (List Fcstring))
      (group : Option Fcstring)
      → Simulates b d h s
      → handle_kv_contains b d h fbb (record { keys = keys; group = group })
        ≡ contains_reply s fbb keys group
  unfolding handle_kv_contains
  handle_kv_contains-contains_reply h s fbb none group q = refl
  handle_kv_contains-contains_reply h s fbb (some keys) group q =
      ap (λ c. finish fbb status_ok body_kv_contains (buffer_body c)) (by_name (group_name group))
    where
      by_group :
          (o : Option (CacheMap b d))
          → IsValidGroup b d o
          → contains_buffer b d keys o ≡ (
              if is_found o
              then key_vector (keys_of (present keys (view_group b d o)))
              else key_map [])
      by_group none v = refl
      by_group (some m) v = ap (λ l. key_vector l) (contains-present b d keys m v)

      seen : (g : Option Fcstring) → present keys (view b d h g) ≡ present keys (s.value g)
      seen g = present-ext keys (view b d h g) (s.value g) (q.1 g)

      by_name :
          (g : Option Fcstring)
          → contains_buffer b d keys (named_map b d h g)
            ≡ (if is_there s g then key_vector (keys_of (present keys (s.value g))) else key_map [])
      by_name none =
          ap (λ l. key_vector l) (contains-present b d keys h.m_map q.0.0 ∙ ap keys_of (seen none))
      by_name (some name) =
          by_group (get_group b d h name) (q.0.1 name)
          ∙ ap₂ (λ x l. if x then key_vector (keys_of l) else key_map []) (q.2 name)
              (seen (some name))
