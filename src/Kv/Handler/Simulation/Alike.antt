-- ===== src/Kv/Handler/Simulation/Alike.antt =====
-- Two handlers of one store, whatever hash maps they are made of.
use mathlib.Core.List.{Perm}
use fcache.Base.{◌≡◌, sym, ap, ◌∙◌, List, Option, none, some, length-perm}
use fcache.Value.{Fcstring}
use fcache.Store.Bag.{find-perm}
use fcache.Response.{
  FlexValue, FlatBuilder, finish, status_ok, body_kv_get, body_kv_count, size_body, buffer_body,
  key_map,
}
use fcache.Kv.DenseMap.{DenseMap}
use fcache.Kv.CachedValue.{FloatBytes}
use fcache.Kv.Contents.{Contents}
use fcache.Kv.Handler.{KvHandler, handle_kv_get, handle_kv_count, handle_kv_contains}
use fcache.Kv.Handler.Whole.{AreEntries}
use fcache.Kv.Handler.Simulation.{Simulates}
use fcache.Kv.Handler.Simulation.Replies.{
  handle_kv_get-IsGetReply, handle_kv_count-IsCountReply, handle_kv_contains-contains_reply,
}

AreEntries-perm :
    {V : Type 0} (value : Fcstring → Option V) (entries entries' : List (Fcstring × V))
    → AreEntries value entries
    → AreEntries value entries'
    → Perm entries entries'
AreEntries-perm value entries entries' q q' =
    find-perm entries entries' q.0 q'.0 (λ k. q.1 k ∙ sym (q'.1 k))

module _ {F : Type 0} (b : FloatBytes F) (d d' : DenseMap) where
  -- The requests that read are answered alike: KVGet of some keys, KVCount and KVContains with the
  -- same response, and KVGet of all keys of a group with the same entries in another order.
  abbrev pub AnswerAlike : KvHandler b d → KvHandler b d' → Type 0
  AnswerAlike h h' =
      (fbb : FlatBuilder F) (keys : List Fcstring) (group : Option Fcstring) (name : Fcstring)
      → (handle_kv_get b d h fbb (record { keys = some keys; group = group })
          ≡ handle_kv_get b d' h' fbb (record { keys = some keys; group = group }))
        × (handle_kv_count b d h fbb group ≡ handle_kv_count b d' h' fbb group)
        × (handle_kv_contains b d h fbb (record { keys = some keys; group = group })
            ≡ handle_kv_contains b d' h' fbb (record { keys = some keys; group = group }))
        × ((entries : List (Fcstring × FlexValue F)) × (entries' : List (Fcstring × FlexValue F))
            × (handle_kv_get b d h fbb (record { keys = none; group = some name })
                ≡ finish fbb status_ok body_kv_get (buffer_body (key_map entries)))
            × (handle_kv_get b d' h' fbb (record { keys = none; group = some name })
                ≡ finish fbb status_ok body_kv_get (buffer_body (key_map entries')))
            × Perm entries entries')

  pub Simulates-AnswerAlike :
      (h : KvHandler b d) (h' : KvHandler b d') (s : Contents F)
      → Simulates b d h s
      → Simulates b d' h' s
      → AnswerAlike h h'
  Simulates-AnswerAlike h h' s q q' fbb keys group name =
      let (counted, e, r) = handle_kv_count-IsCountReply b d h s fbb group q in
      let (counted', e', r') = handle_kv_count-IsCountReply b d' h' s fbb group q' in
      let (all, k, t) = handle_kv_get-IsGetReply b d h s fbb none (some name) q in
      let (all', k', t') = handle_kv_get-IsGetReply b d' h' s fbb none (some name) q' in
      (
        handle_kv_get-IsGetReply b d h s fbb (some keys) group q
            ∙ sym (handle_kv_get-IsGetReply b d' h' s fbb (some keys) group q'),
        e
            ∙ ap (λ n. finish fbb status_ok body_kv_count (size_body n))
                (length-perm counted counted' (AreEntries-perm _ counted counted' r r'))
            ∙ sym e',
        handle_kv_contains-contains_reply b d h s fbb (some keys) group q
            ∙ sym (handle_kv_contains-contains_reply b d' h' s fbb (some keys) group q'),
        (all, all', k, k', AreEntries-perm _ all all' t t'),
      )
