-- ===== src/Examples/Lists.antt =====
-- The operations on one list.
use mathlib.Core.List.{Perm}
use Prim.Native.Nat.{min}
use fcache.Base.{ℕ, ◌≡◌, refl, List, [], ◌∷◌, ◌++◌, true, false, some, arith}
use fcache.Base.Int.{pos, negsuc}
use fcache.Value.{Fcint}
use fcache.Value.Order.{int_value, ltb_ℤ-IsTotal}
use fcache.Sorted.{IsSorted}
use fcache.Algorithm.{splice}
use fcache.Algorithm.Intersection.{occurrences}
use fcache.Range.{positions_to_indices, begin_index}
use fcache.Operation.Add.{sorted_add, unsorted_add}
use fcache.Operation.Add.Unsorted.{unsorted_add_lem}
use fcache.Operation.Add.Ordered.{sorted_add-IsSorted, sorted_add-perm, sorted_add_shortcut}
use fcache.Operation.Set.{set}
use fcache.Operation.Set.Overwrite.{set_lem}
use fcache.Operation.GetByRange.{base_head, base_tail, get_by_range}
use fcache.Operation.GetByRange.Slice.{slice, get_by_range-slice, get_by_range_wraps}
use fcache.Operation.Remove.{remove}
use fcache.Operation.Remove.Erasure.{remove-slice}
use fcache.Operation.RemoveIf.{remove_if_equals}
use fcache.Operation.RemoveIf.Equal.{remove_if_equals_sorted}
use fcache.Operation.Intersect.{Range, intersect_to_list}
use fcache.Operation.Intersect.Common.{intersect_to_list_lem, nodes_of}
use fcache.Examples.Inputs.{ascending, more}

-- docs/src/api_py/list/get_range.md: `start=1, stop=-2` and `start=3, stop=-3`.
abbrev letters : List ℕ
letters = 65 ∷ 66 ∷ 67 ∷ 68 ∷ 69 ∷ []

get_range_doc :
    (get_by_range (pos 1) (negsuc 1) true base_head letters ≡ some (66 ∷ 67 ∷ []))
    × (get_by_range (pos 3) (negsuc 2) true base_head letters ≡ some [])
    × (get_by_range (pos 0) (pos 2) true base_tail letters ≡ some (69 ∷ 68 ∷ []))
unfolding get_by_range positions_to_indices
get_range_doc = (refl, refl, refl)

sorted_add_run : (sorted_add more false ascending).0 ≡ (sorted_add more true ascending).0
unfolding sorted_add fcache.Algorithm.lower_bound
sorted_add_run = refl

pub ascending-IsSorted : IsSorted ascending
ascending-IsSorted = ground arith

pub more-IsSorted : IsSorted more
more-IsSorted = ground arith

sorted_add-IsSorted_example : IsSorted (sorted_add more true ascending).0
sorted_add-IsSorted_example =
    sorted_add-IsSorted more true ascending ascending-IsSorted (λ _. more-IsSorted)

sorted_add-perm_example :
    Perm (sorted_add more false ascending).0 (more ++ ascending)
    × ((sorted_add more false ascending).1 ≡ 7)
sorted_add-perm_example = sorted_add-perm more false ascending

sorted_add_shortcut_example : sorted_add more true ascending ≡ sorted_add more false ascending
sorted_add_shortcut_example =
    sorted_add_shortcut ltb_ℤ-IsTotal more ascending more-IsSorted ascending-IsSorted

unsorted_add_lem_example :
    unsorted_add (1 ∷ 2 ∷ []) (negsuc 1) letters ≡ (65 ∷ 66 ∷ 67 ∷ 1 ∷ 2 ∷ 68 ∷ 69 ∷ [], 7)
unfolding begin_index
unsorted_add_lem_example = unsorted_add_lem (1 ∷ 2 ∷ []) (negsuc 1) letters (omega arith)

set_lem_example : set (72 ∷ 73 ∷ 74 ∷ []) (negsuc 1) letters ≡ 65 ∷ 66 ∷ 67 ∷ 72 ∷ 73 ∷ []
unfolding begin_index
set_lem_example = set_lem (72 ∷ 73 ∷ 74 ∷ []) (negsuc 1) letters (omega arith) (omega arith)

get_by_range-slice_example :
    get_by_range (pos 1) (negsuc 1) true base_head letters ≡ some (66 ∷ 67 ∷ [])
get_by_range-slice_example =
    get_by_range-slice (pos 1) (negsuc 1) true base_head letters (omega arith) (omega arith)

get_by_range_wraps_example :
    (get_by_range (pos 0) (negsuc 6) true base_head letters ≡ some (65 ∷ 66 ∷ []))
    × (slice (pos 0) (negsuc 6) true letters ≡ [])
get_by_range_wraps_example = get_by_range_wraps 65 (66 ∷ 67 ∷ 68 ∷ 69 ∷ []) 1

remove-slice_example : remove (pos 1) (negsuc 1) true letters ≡ some (65 ∷ 68 ∷ 69 ∷ [])
remove-slice_example = remove-slice (pos 1) (negsuc 1) true letters (omega arith) (omega arith)

remove_if_equals_sorted_example :
    remove_if_equals true (pos 0) (pos 0) false (pos 3) ascending
    ≡ remove_if_equals false (pos 0) (pos 0) false (pos 3) ascending
remove_if_equals_sorted_example =
    remove_if_equals_sorted (pos 0) (pos 0) false (pos 3) ascending ascending-IsSorted

abbrev whole : Range
whole = record { start = pos 0; stop = pos 0; has_stop = false }

intersect_to_list_lem_example :
    IsSorted (intersect_to_list [] ascending more whole whole)
    × ((v : Fcint)
        → occurrences v (intersect_to_list [] ascending more whole whole)
          ≡ min (occurrences v (nodes_of whole ascending)) (occurrences v (nodes_of whole more)))
intersect_to_list_lem_example =
    intersect_to_list_lem ascending more whole whole ascending-IsSorted more-IsSorted
