-- ===== src/Algorithm.antt =====
-- The parts of the standard library that ListOperations.hpp calls: `std::list::emplace` and
-- `erase`, and the algorithms `lower_bound`, `equal_range`, `remove_if` and `set_intersection`.
-- An iterator is an index; a range is the list of its elements.
pub mod Bound
pub mod Intersection
use fcache.Base.{
  ℕ, suc, ◌-◌, List, [], ◌∷◌, ◌++◌, Bool, true, false, not, take, drop, keep_if, if◌then◌else◌,
}
use fcache.Value.{ListValue}

module _ {ℓ} {A : Type ℓ} where
  -- list.emplace (it, v): the new node stands at `it`, which is what the call returns.
  abbrev pub emplace : ℕ → A → List A → List A
  emplace it v list = take it list ++ v ∷ drop it list

  -- list.erase (first, last) of a range that does not end before it begins.
  abbrev pub erase : ℕ → ℕ → List A → List A
  erase first last list = take first list ++ drop last list

  -- The elements of [first, last).
  abbrev pub range : ℕ → ℕ → List A → List A
  range first last list = take (last - first) (drop first list)

  -- The list with the elements of [first, last) replaced.
  abbrev pub splice : ℕ → ℕ → List A → List A → List A
  splice first last new list = take first list ++ (new ++ drop last list)

  -- std::remove_if with the erasure of what it leaves behind, on a range.
  abbrev pub remove_if : (A → Bool) → List A → List A
  remove_if p = keep_if (λ x. not (p x))

module _ {A : Type 0} ⦃o : ListValue A⦄ where
  -- The standard says what these two return for ranges that the value partitions: the first
  -- element that is not before the value, and the first that is after it.
  -- On any other range the model returns the same, and the standard says nothing.
  unfoldable pub lower_bound : List A → A → ℕ
  lower_bound [] v = 0
  lower_bound (x ∷ xs) v = if o.lt x v then suc (lower_bound xs v) else 0

  unfoldable pub upper_bound : List A → A → ℕ
  upper_bound [] v = 0
  upper_bound (x ∷ xs) v = if o.lt v x then 0 else suc (upper_bound xs v)

  -- The loop of std::set_intersection.
  unfoldable pub set_intersection : List A → List A → List A
  set_intersection [] ys = []
  set_intersection (x ∷ xs) [] = []
  set_intersection (x ∷ xs) (y ∷ ys) = elim (o.lt x y) [
    | true ↦ set_intersection xs (y ∷ ys)
    | false ↦ elim (o.lt y x) [
      | true ↦ set_intersection (x ∷ xs) ys
      | false ↦ x ∷ set_intersection xs ys
    ]
  ]
