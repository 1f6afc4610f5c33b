-- ===== src/Operation/RemoveIf.antt =====
-- The functor `RemoveIf` of ListOperations.hpp, with the condition `IsEqual`. The type of the
-- value is that of the list; where they differ, `doRemove` is not called (see ListHandler.Changing).
pub mod Equal
pub mod Kept
use fcache.Base.{ℕ, ◌+◌, List, Bool, true, false, length, drop, if◌then◌else◌, ◌==◌}
use fcache.Base.Int.{ℤ}
use fcache.Value.{ListValue}
use fcache.Range.{positions_to_iterators}
use fcache.Algorithm.{erase, range, splice, remove_if, lower_bound, upper_bound}

module _ {A : Type 0} ⦃o : ListValue A⦄ where
  -- `IsEqual::operator()`
  abbrev pub is_equal : A → A → Bool
  is_equal value a = o.eq a value

  -- The test `itLow != std::end (list)` holds of every iterator but the end.
  unfoldable pub do_remove_sorted : A → ℕ → ℕ → List A → List A
  do_remove_sorted value first last list =
      let low : ℕ = first + lower_bound (range first last list) value in
      let high : ℕ = first + upper_bound (range first last list) value in
      if low == length list then list else erase low high list

  unfoldable pub do_remove_unsorted : A → ℕ → ℕ → List A → List A
  do_remove_unsorted value first last list =
      splice first last (remove_if (is_equal value) (range first last list)) list

  unfoldable pub do_remove : Bool → ℤ → ℤ → Bool → A → List A → List A
  unfolding do_remove_sorted do_remove_unsorted
  do_remove sorted start stop has_stop value list =
      let (valid, first, last) = positions_to_iterators start stop has_stop list in
      if valid
      then (if sorted
          then do_remove_sorted value first last list
          else do_remove_unsorted value first last list)
      else list

  unfoldable pub remove_if_equals : Bool → ℤ → ℤ → Bool → A → List A → List A × ℕ
  unfolding do_remove
  remove_if_equals sorted start stop has_stop value list =
      let l = do_remove sorted start stop has_stop value list in (l, length l)
