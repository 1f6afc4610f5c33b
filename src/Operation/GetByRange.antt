-- ===== src/Operation/GetByRange.antt =====
-- The functor `GetByRange` of ListOperations.hpp, with `listToTypedVector`.
pub mod Slice
use fcache.Base.{
  ℕ, zero, suc, List, [], ◌∷◌, Bool, true, false, reverse, drop, Option, none, some, if◌then◌else◌,
}
use fcache.Base.Int.{ℤ, pos, pos_part, ◌-ℤ◌}
use fcache.Range.{positions_to_indices}

-- `fc::request::Base`
pub data Base : Type 0 where
  base_none : Base
  base_head : Base
  base_tail : Base

abbrev is_head : Base → Bool
is_head base_head = true
is_head _ = false

module _ {ℓ} {A : Type ℓ} where
  -- The elements that the loop adds, for a number of rounds from an iterator on. A count that is
  -- not positive makes no round.
  unfoldable pub list_to_typed_vector : List A → ℕ → List A
  list_to_typed_vector [] count = []
  list_to_typed_vector (x ∷ nodes) zero = []
  list_to_typed_vector (x ∷ nodes) (suc count) = x ∷ list_to_typed_vector nodes count

  -- The vector that is made, or `none` where the functor returns false.
  unfoldable pub get_by_range : ℤ → ℤ → Bool → Base → List A → Option (List A)
  unfolding list_to_typed_vector
  get_by_range start stop has_stop base list =
      let (valid, first, last) = positions_to_indices start stop has_stop list in
      let count : ℕ = pos_part (last -ℤ first) in
      if valid
      then some (
          if is_head base
          then list_to_typed_vector (drop (pos_part first) list) count
          else list_to_typed_vector (drop (pos_part first) (reverse list)) count)
      else none
