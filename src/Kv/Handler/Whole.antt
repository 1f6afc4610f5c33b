-- ===== src/Kv/Handler/Whole.antt =====
-- KVGet without keys, and KVCount, against what a client sees: both depend on all entries of a map.
use mathlib.Core.Option
use fcache.Base.{
  ◌≡◌, refl, sym, ap, ◌∙◌, subst, List, [], ◌∷◌, length, Option, some, Bool-cases, inl, inr, suc,
}
use fcache.Value.{Fcstring, str_eq}
use fcache.Sorted.{All}
use fcache.Store
use fcache.Store.Once.{Once, AllValues-of_find}
use fcache.Response.{FlexValue}
use fcache.Kv.DenseMap.{DenseMap}
use fcache.Kv.CachedValue.{FloatBytes, CachedValue}
use fcache.Kv.CachedValue.RoundTrip.{IsReadable}
use fcache.Kv.CacheMap.{CacheMap, get_found, get_entries}
use fcache.Kv.CacheMap.Lookup.{IsValidMap, lookup, read}

-- The entries of a map whose values are known, in some order.
abbrev pub AreEntries : {V : Type 0} → (Fcstring → Option V) → List (Fcstring × V) → Type 0
AreEntries value entries = Once entries × ((k : Fcstring) → Store.find k entries ≡ value k)

module _ {F : Type 0} (b : FloatBytes F) (d : DenseMap) where
  -- The entries that are extracted, for each that is stored.
  abbrev AreExtracted : List (Fcstring × CachedValue F) → List (Fcstring × FlexValue F) → Type 0
  AreExtracted stored entries =
      (length entries ≡ length stored) × AreEntries (λ k. read b d (Store.find k stored)) entries

  get_entries-AreExtracted :
      (stored : List (Fcstring × CachedValue F))
      → Once stored
      → All (λ e. IsReadable b (some e.1)) stored
      → (entries : List (Fcstring × FlexValue F)) × (get_entries b d stored ≡ some entries)
        × AreExtracted stored entries
  unfolding get_entries get_found Store.find Option.bind
  get_entries-AreExtracted [] w r = ([], refl, (refl, (tt, (λ k. refl))))
  get_entries-AreExtracted ((j, c) ∷ stored) w r =
      let (entries, e, (l, q)) = get_entries-AreExtracted stored w.1 r.1 in
      let (v, back) = r.0 in
      (
        (j, v) ∷ entries,
        rw (back, e, get_entries, get_found, Option.bind) refl,
        (
          ap suc l,
          (
            (q.1 j ∙ ap (read b d) w.0, q.0),
            (λ k. elim (Bool-cases (str_eq j k)) [
              | inl same ↦ rw same (sym back)
              | inr other ↦ rw other (q.1 k)
            ]),
          ),
        ),
      )

  -- The entries that a response gets of a whole map.
  pub get_entries-AreEntries :
      (m : CacheMap b d)
      → IsValidMap b d m
      → (entries : List (Fcstring × FlexValue F)) × (get_entries b d (d.entries m) ≡ some entries)
        × (length entries ≡ d.size m)
        × AreEntries (lookup b d m) entries
  get_entries-AreEntries m w =
      let all =
        AllValues-of_find (λ c. IsReadable b (some c)) (d.entries m) (d.entries-Once m)
          (λ k c e. subst (IsReadable b) (sym (d.find-entries k m) ∙ e) (w k)) in
      let (entries, e, (l, q)) = get_entries-AreExtracted (d.entries m) (d.entries-Once m) all in
      (
        entries,
        e,
        l ∙ sym (d.size-entries m),
        (q.0, (λ k. q.1 k ∙ ap (read b d) (d.find-entries k m))),
      )
