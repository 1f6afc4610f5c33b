-- ===== src/Range.antt =====
-- The positions of a request, as indices of a list: `positionsToIndices`, `positionsToIterators`
-- and `positionToStartIterator` of server/include/fc/ListOperations.hpp.
--
-- The positions and the size are `int64_t` in the source and integers here. An iterator of a
-- `std::list` is the index of the node that it stands at, and `end()` is the length.
pub mod Bounds
use fcache.Base.{ℕ, List, Bool, true, false, not, ◌&&◌, ◌||◌, length, if◌then◌else◌}
use fcache.Base.Int.{ℤ, pos, pos_part, ◌+ℤ◌, ltb_ℤ, leb_ℤ, labs, min_ℤ}

-- The first index, from a position that is known to be in range.
unfoldable pub begin_index : ℤ → ℤ → ℤ
begin_index size start = if ltb_ℤ start (pos 0) then size +ℤ start else start

-- The index behind the last, from a position that may lie anywhere.
unfoldable pub last_index : ℤ → ℤ → ℤ
last_index size stop =
    if ltb_ℤ stop (pos 0) then min_ℤ size (labs (size +ℤ stop)) else min_ℤ size stop

module _ {ℓ} {A : Type ℓ} where
  unfoldable pub positions_to_indices : ℤ → ℤ → Bool → List A → Bool × ℤ × ℤ
  unfolding begin_index last_index
  positions_to_indices start stop has_stop list =
      let size : ℤ = pos (length list) in
      if (leb_ℤ (pos 0) start && leb_ℤ size start) || ltb_ℤ size (labs start)
      then (false, pos 0, pos 0)
      else (true, begin_index size start, last_index size (if has_stop then stop else size))

  -- `std::next (list.begin (), n)` is the index n; the indices are never negative.
  unfoldable pub positions_to_iterators : ℤ → ℤ → Bool → List A → Bool × ℕ × ℕ
  unfolding positions_to_indices
  positions_to_iterators start stop has_stop list =
      let (valid, first, last) = positions_to_indices start stop has_stop list in
      if not valid || leb_ℤ last first then (false, 0, 0) else (true, pos_part first, pos_part last)

  unfoldable pub position_to_start_iterator : ℤ → List A → ℕ
  unfolding positions_to_iterators
  position_to_start_iterator start list =
      let (valid, s, e) = positions_to_iterators start (pos 0) false list in
      if valid then s else length list
