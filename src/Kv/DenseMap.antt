-- ===== src/Kv/DenseMap.antt =====
-- `ankerl::unordered_dense::map<std::string, V>`, which is not part of the repository: the calls
-- that the cache makes of it, and what they do to a lookup.
use fcache.Base.{ℕ, ◌≡◌, List, Option, none, some, length, if◌then◌else◌}
use fcache.Value.{Fcstring, str_eq}
use fcache.Store
use fcache.Store.Once.{Once}

pub record DenseMap : Type 1 where
  pub Map : Type 0 → Type 0
  pub empty : {V : Type 0} → Map V
  pub find : {V : Type 0} → Fcstring → Map V → Option V
  -- `try_emplace` of a key that is not there
  pub emplace : {V : Type 0} → Fcstring → V → Map V → Map V
  -- an assignment through the iterator that `find` returned
  pub assign : {V : Type 0} → Fcstring → V → Map V → Map V
  pub erase : {V : Type 0} → Fcstring → Map V → Map V
  -- what an iteration visits, in its order
  pub entries : {V : Type 0} → Map V → List (Fcstring × V)
  pub size : {V : Type 0} → Map V → ℕ
  -- an iteration that assigns to every value
  pub assign_all : {V : Type 0} → V → Map V → Map V
  pub find-empty : {V : Type 0} (k : Fcstring) → find k (empty {V = V}) ≡ none
  pub find-emplace :
      {V : Type 0} (k j : Fcstring) (v : V) (m : Map V)
      → find k m ≡ none
      → find j (emplace k v m) ≡ (if str_eq k j then some v else find j m)
  pub find-assign :
      {V : Type 0} (k j : Fcstring) (v w : V) (m : Map V)
      → find k m ≡ some w
      → find j (assign k v m) ≡ (if str_eq k j then some v else find j m)
  pub find-erase :
      {V : Type 0} (k j : Fcstring) (m : Map V)
      → find j (erase k m) ≡ (if str_eq k j then none else find j m)
  pub find-entries : {V : Type 0} (k : Fcstring) (m : Map V) → Store.find k (entries m) ≡ find k m
  pub entries-Once : {V : Type 0} (m : Map V) → Once (entries m)
  pub size-entries : {V : Type 0} (m : Map V) → size m ≡ length (entries m)
  pub find-assign_all :
      {V : Type 0} (k : Fcstring) (v : V) (m : Map V)
      → find k (assign_all v m) ≡ (elim (find k m) [ none ↦ none | some w ↦ some v ])
