-- ===== src/Operation/Intersect.antt =====
-- The functions `intersect` and the functor `Info` of ListOperations.hpp.
pub mod Common
use fcache.Base.{
  ℕ, ◌^◌, ◌%◌, List, [], ◌++◌, Bool, true, false, length, Option, none, some, ◌&&◌, if◌then◌else◌,
}
use fcache.Base.Int.{ℤ}
use fcache.Value.{ListValue}
use fcache.Range.{positions_to_iterators}
use fcache.Algorithm.{range, set_intersection}

-- `fc::request::Range`
pub record Range : Type 0 where
  pub start : ℤ
  pub stop : ℤ
  pub has_stop : Bool

module _ {A : Type 0} ⦃o : ListValue A⦄ where
  -- `intersect` to a new list: the common values are added at its end.
  unfoldable pub intersect_to_list : List A → List A → List A → Range → Range → List A
  intersect_to_list new_list l1 l2 range1 range2 =
      let (l1_valid, l1_begin, l1_last) =
        positions_to_iterators range1.start range1.stop range1.has_stop l1 in
      let (l2_valid, l2_begin, l2_last) =
        positions_to_iterators range2.start range2.stop range2.has_stop l2 in
      if l1_valid && l2_valid
      then new_list ++ set_intersection (range l1_begin l1_last l1) (range l2_begin l2_last l2)
      else new_list

  -- `intersect` to a response buffer: the vector that is added to it. Where it is `none`, nothing
  -- is added, and `FlexBuilder::Finish` is not called.
  unfoldable pub intersect_to_flex_buffer : List A → List A → Range → Range → Option (List A)
  intersect_to_flex_buffer l1 l2 range1 range2 =
      let (l1_valid, l1_begin, l1_last) =
        positions_to_iterators range1.start range1.stop range1.has_stop l1 in
      let (l2_valid, l2_begin, l2_last) =
        positions_to_iterators range2.start range2.stop range2.has_stop l2 in
      if l1_valid && l2_valid
      then some (set_intersection (range l1_begin l1_last l1) (range l2_begin l2_last l2))
      else none

-- `ListInfo::size`, a `uint32_t`.
unfoldable pub info {ℓ} : {A : Type ℓ} → List A → ℕ
info list = length list % 2 ^ 32
