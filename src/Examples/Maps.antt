-- ===== src/Examples/Maps.antt =====
-- A map that is an association list, and floats that are bytes, for the examples of the KV requests.
use fcache.Base.{
  ℕ, ◌≡◌, refl, ◌∙◌, subst, Bool-cases, inl, inr, false, ◌++◌, List, [], ◌∷◌, none, some, length,
  if◌then◌else◌, arith,
}
use fcache.Value.{Fcstring, str_eq}
use fcache.Store
use fcache.Store.Lookup.{find-assign, find-erase, str_eq_refl}
use fcache.Store.Once.{Once, erase-Once}
use fcache.Value.Order.{str_eq_iff}
use fcache.Kv.DenseMap.{DenseMap}
use fcache.Kv.CachedValue.{FloatBytes}

abbrev pub assign_all : {V : Type 0} → V → List (Fcstring × V) → List (Fcstring × V)
assign_all v [] = []
assign_all v ((k, w) ∷ m) = (k, v) ∷ assign_all v m

pub find-assign_all :
    {V : Type 0} (k : Fcstring) (v : V) (m : List (Fcstring × V))
    → Store.find k (assign_all v m) ≡ (elim (Store.find k m) [ none ↦ none | some w ↦ some v ])
unfolding Store.find
find-assign_all k v [] = refl
find-assign_all k v ((j, w) ∷ m) = ground (arith, find-assign_all k v m)

pub assoc_find-emplace :
    {V : Type 0} (k j : Fcstring) (v : V) (m : List (Fcstring × V))
    → Store.find k m ≡ none
    → Store.find j ((k, v) ∷ m) ≡ (if str_eq k j then some v else Store.find j m)
unfolding Store.find
assoc_find-emplace k j v m e = refl

pub assoc_find-assign :
    {V : Type 0} (k j : Fcstring) (v w : V) (m : List (Fcstring × V))
    → Store.find k m ≡ some w
    → Store.find j (Store.assign k v m) ≡ (if str_eq k j then some v else Store.find j m)
assoc_find-assign k j v w m e = find-assign k j v m ∙ rw e refl

pub assoc_find-empty : {V : Type 0} (k : Fcstring) → Store.find {V = V} k [] ≡ none
unfolding Store.find
assoc_find-empty k = refl

-- The first entry of each key.
abbrev pub distinct : {V : Type 0} → List (Fcstring × V) → List (Fcstring × V)
distinct [] = []
distinct ((k, v) ∷ m) = (k, v) ∷ Store.erase k (distinct m)

pub find-distinct :
    {V : Type 0} (k : Fcstring) (m : List (Fcstring × V))
    → Store.find k (distinct m) ≡ Store.find k m
unfolding Store.find
find-distinct k [] = refl
find-distinct k ((j, v) ∷ m) =
    ground (arith, str_eq_iff j k, find-erase j k (distinct m), find-distinct k m)

pub distinct-Once : {V : Type 0} (m : List (Fcstring × V)) → Once (distinct m)
distinct-Once [] = tt
distinct-Once ((k, v) ∷ m) = (
  find-erase k k (distinct m) ∙ rw (str_eq_refl k) refl,
  erase-Once k (distinct m) (distinct-Once m),
)

abbrev pub assoc_map : DenseMap
assoc_map = record {
  Map = λ V. List (Fcstring × V);
  empty = [];
  find = λ k m. Store.find k m;
  emplace = λ k v m. (k, v) ∷ m;
  assign = λ k v m. Store.assign k v m;
  erase = λ k m. Store.erase k m;
  entries = λ m. distinct m;
  size = λ m. length (distinct m);
  assign_all = λ v m. assign_all v m;
  find-empty = λ k. assoc_find-empty k;
  find-emplace = λ k j v m e. assoc_find-emplace k j v m e;
  find-assign = λ k j v w m e. assoc_find-assign k j v w m e;
  find-erase = λ k j m. find-erase k j m;
  find-entries = λ k m. find-distinct k m;
  entries-Once = λ m. distinct-Once m;
  size-entries = λ m. refl;
  find-assign_all = λ k v m. find-assign_all k v m;
}

abbrev pub first_byte : List ℕ → ℕ
first_byte [] = 0
first_byte (b ∷ bytes) = b

abbrev pub byte_floats : FloatBytes ℕ
byte_floats = record {
  float_bytes = λ x. x ∷ 0 ∷ 0 ∷ 0 ∷ [];
  float_of_bytes = first_byte;
  float_bytes_sized = λ x. refl;
  float_bytes_back = λ x. refl;
}

-- The same map, in which a new entry goes behind the others.
pub find-emplace_behind :
    {V : Type 0} (k j : Fcstring) (v : V) (m : List (Fcstring × V))
    → Store.find k m ≡ none
    → Store.find j (m ++ (k, v) ∷ []) ≡ (if str_eq k j then some v else Store.find j m)
unfolding Store.find
find-emplace_behind k j v [] e = refl
find-emplace_behind k j v ((i, w) ∷ m) e = elim (Bool-cases (str_eq i k)) [
  | inl same ↦ let never : some w ≡ none = rw same at e in absurd (cc)
  | inr other ↦ elim (Bool-cases (str_eq i j)) [
    | inr differs ↦ rw differs (find-emplace_behind k j v m (rw other at e))
    | inl same ↦
        let differs : str_eq k j ≡ false =
          subst (λ x. str_eq k x ≡ false) ((str_eq_iff i j).0 same)
            (ground (arith, str_eq_iff k i, str_eq_iff i k)) in
        rw (same, differs) refl
  ]
]

abbrev pub behind_map : DenseMap
behind_map = record assoc_map {
  emplace = λ k v m. m ++ (k, v) ∷ [];
  find-emplace = λ k j v m e. find-emplace_behind k j v m e;
}
