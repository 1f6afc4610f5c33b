-- ===== src/Kv/Handler/Simulation.antt =====
-- The KV handler against the abstract store: each request does the same to both.
pub mod Replies
pub mod Alike
use mathlib.Core.Option
use mathlib.Core.Path.{ap₂}
use fcache.Base.{
  ◌≡◌, refl, ap, ◌∙◌, List, Bool, true, false, Option, none, some, if◌then◌else◌, ◌&&◌,
}
use fcache.Value.{Fcstring}
use fcache.Response.{FlexValue}
use fcache.Kv.DenseMap.{DenseMap}
use fcache.Kv.CachedValue.{FloatBytes}
use fcache.Kv.CacheMap.Lookup.{lookup, read}
use fcache.Kv.Requests.{ClearOperation}
use fcache.Kv.Contents.{
  Contents, no_contents, set_contents, remove_contents, clear_contents, clear_set_contents,
  is_there, merged, supported, are_supported, AreSound, same_group, any_key, is_cleared, is_erased,
}
use fcache.Kv.Handler.{KvHandler, set_or_add_in, remove_in, clear_in, clear_set_in}
use fcache.Kv.Handler.Groups.{
  is_found, has_group, has_named, lookup-empty, set_or_add_in-has_group, remove_in-has_group,
  clear_set_in-has_group,
}
use fcache.Kv.Handler.Refinement.{IsValidKv, view, view_group, set_or_add_in-view}
use fcache.Kv.Handler.Removal.{remove_in-view, clear_set_in-view}
use fcache.Kv.Handler.Clearing.{clear_in-view, clear_in-IsSeen}
use fcache.Kv.Handler.Steps.{
  empty_kv, empty_kv-IsValidKv, set_or_add_in-IsValidKv, remove_in-IsValidKv, clear_in-IsValidKv,
  clear_set_in-IsValidKv,
}

module _ {F : Type 0} (b : FloatBytes F) (d : DenseMap) where
  -- A client sees in the handler what is in the store, and every stored value can be extracted.
  abbrev pub Simulates : KvHandler b d → Contents F → Type 0
  Simulates h s =
      IsValidKv b d h
      × ((g : Option Fcstring) (k : Fcstring) → view b d h g k ≡ s.value g k)
      × ((name : Fcstring) → has_group b d h name ≡ s.has name)

  pub empty_kv-Simulates : Simulates (empty_kv b d) no_contents
  empty_kv-Simulates = (empty_kv-IsValidKv b d, seen, λ name. ap is_found (d.find-empty name))
    where
      seen : (g : Option Fcstring) (k : Fcstring) → view b d (empty_kv b d) g k ≡ none
      seen none k = lookup-empty b d k
      seen (some name) k = ap (λ o. view_group b d o k) (d.find-empty name)

  pub has_named-is_there :
      (h : KvHandler b d) (s : Contents F) (g : Option Fcstring)
      → Simulates h s
      → has_named b d h g ≡ is_there s g
  has_named-is_there h s none q = refl
  has_named-is_there h s (some name) q = q.2 name

  pub set_or_add_in-Simulates :
      (is_set : Bool) (h : KvHandler b d) (s : Contents F) (kv : List (Fcstring × FlexValue F))
      (g : Option Fcstring)
      → AreSound kv
      → Simulates h s
      → Simulates (set_or_add_in b d is_set h kv g).0 (set_contents is_set s kv g)
  set_or_add_in-Simulates is_set h s kv g ok q = (
    set_or_add_in-IsValidKv b d is_set h kv g q.0,
    λ g' k.
        (set_or_add_in-view b d is_set h kv g g' k ok q.0).1
        ∙ ap (λ o. if same_group g g' then merged is_set k (supported kv) o else o) (q.1 g' k),
    λ name.
        set_or_add_in-has_group b d is_set h kv g name
        ∙ ap (λ x. if same_group g (some name) then true else x) (q.2 name),
  )

  pub remove_in-Simulates :
      (h : KvHandler b d) (s : Contents F) (keys : Option (List Fcstring)) (g : Option Fcstring)
      → Simulates h s
      → Simulates (remove_in b d h keys g) (remove_contents s keys g)
  unfolding remove_in
  remove_in-Simulates h s none g q = q
  remove_in-Simulates h s (some keys) g q = (
    remove_in-IsValidKv b d h (some keys) g q.0,
    λ g' k.
        remove_in-view b d h keys g g' k q.0
        ∙ ap (λ o. if same_group g g' then (if any_key keys k then none else o) else o) (q.1 g' k),
    λ name. remove_in-has_group b d h (some keys) g name ∙ q.2 name,
  )

  pub clear_in-Simulates :
      (h : KvHandler b d) (s : Contents F) (op : ClearOperation) (g : Option Fcstring)
      → Simulates h s
      → Simulates (clear_in b d h op g) (clear_contents s op g)
  clear_in-Simulates h s op g q = (
    clear_in-IsValidKv b d h op g q.0,
    λ g' k.
        clear_in-view b d h op g g' k ∙ ap (λ o. if is_cleared op g g' then none else o) (q.1 g' k),
    λ name.
        (clear_in-IsSeen b d h op g name).1
        ∙ ap (λ x. if is_erased op g name then false else x) (q.2 name),
  )

  pub clear_set_in-Simulates :
      (h : KvHandler b d) (s : Contents F) (kv : List (Fcstring × FlexValue F))
      (g : Option Fcstring)
      → AreSound kv
      → Simulates h s
      → Simulates (clear_set_in b d h kv g).0 (clear_set_contents s kv g)
  clear_set_in-Simulates h s kv g ok q = (
    clear_set_in-IsValidKv b d h kv g q.0,
    λ g' k.
        (clear_set_in-view b d h kv g g' k ok q.0).1
        ∙ ap₂ (λ x o. if x && same_group g g' then merged true k (supported kv) none else o)
            (has_named-is_there h s g q) (q.1 g' k),
    λ name. clear_set_in-has_group b d h kv g name ∙ q.2 name,
  )
