-- ===== src/Operation/Remove.antt =====
-- The functor `Remove` of ListOperations.hpp.
pub mod Erasure
pub mod Defined
use fcache.Base.{
  ℕ, ◌≤◌, List, [], Bool, true, false, length, ltb, Option, none, some, if◌then◌else◌,
}
use fcache.Base.Int.{ℤ, pos, pos_part, ◌-ℤ◌, eqb_ℤ, ltb_ℤ}
use fcache.Range.{positions_to_indices}
use fcache.Algorithm.{erase}

module _ {ℓ} {A : Type ℓ} where
  -- `list.erase (itStart, itEnd)`: its behaviour is undefined, `none` here, if `itEnd` is not
  -- reached from `itStart`.
  unfoldable pub erase_range : ℕ → ℕ → List A → Option (List A)
  erase_range first last list = if ltb last first then none else some (erase first last list)

  unfoldable pub remove : ℤ → ℤ → Bool → List A → Option (List A)
  unfolding erase_range
  remove start stop has_stop list =
      let (valid, first, last) = positions_to_indices start stop has_stop list in
      if valid
      then (if eqb_ℤ (last -ℤ first) (pos (length list))
          then some []
          else erase_range (pos_part first) (pos_part last) list)
      else some list
