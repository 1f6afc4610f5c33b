-- ===== src/Operation/Set.antt =====
-- The functor `Set` of ListOperations.hpp.
pub mod Overwrite
use fcache.Base.{
  ℕ, zero, suc, ◌-◌, List, [], ◌∷◌, Bool, true, false, length, take, drop, if◌then◌else◌, ◌++◌,
}
use fcache.Base.Int.{ℤ, pos, ◌+ℤ◌, ltb_ℤ}
use fcache.Range.{positions_to_iterators}

module _ {ℓ} {A : Type ℓ} where
  -- `for (it = begin ; it != end ; ++i) *it++ = items[i]`, over the nodes of the range and those
  -- behind it. There is an item for each node of the range.
  unfoldable pub write_each : ℕ → List A → List A → List A
  write_each count items [] = []
  write_each count [] (x ∷ nodes) = x ∷ nodes
  write_each zero (y ∷ items) (x ∷ nodes) = x ∷ nodes
  write_each (suc count) (y ∷ items) (x ∷ nodes) = y ∷ write_each count items nodes

  -- The position that is looked up: one from the back has the size added.
  abbrev pub set_position : ℤ → List A → ℤ
  set_position position list =
      if ltb_ℤ position (pos 0) then pos (length list) +ℤ position else position

  unfoldable pub set : List A → ℤ → List A → List A
  unfolding write_each
  set items position list =
      let p : ℤ = set_position position list in
      let (valid, first, last) = positions_to_iterators p (p +ℤ pos (length items)) true list in
      if valid then take first list ++ write_each (last - first) items (drop first list) else list
