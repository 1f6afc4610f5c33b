-- ===== src/Operation/GetByRange/Slice.antt =====
-- `GetByRange` against slices in the manner of Python, to which docs/src/lists.md compares it.
use Prim.Native.Nat.{min}
use fcache.Base.{
  ℕ, zero, suc, ◌+◌, ◌-◌, ◌≤◌, ◌≡◌, refl, ap, ◌∙◌, List, [], ◌∷◌, Bool, true, false, arith, length,
  take, drop, reverse, length-reverse, some, none, if◌then◌else◌,
}
use fcache.Base.Int.{ℤ, pos, negsuc, pos_part, neg_part, ◌-ℤ◌}
use fcache.Range.{begin_index, last_index}
use fcache.Range.Bounds.{
  InRange, node_index, stop_index, positions_to_indices_in, positions_to_indices_out,
}
use fcache.Operation.GetByRange.{
  Base, base_none, base_head, base_tail, is_head, get_by_range, list_to_typed_vector,
}

-- A position of a slice: one from the back counts from the end, and both ends are clipped.
abbrev pub slice_index : ℤ → ℕ → ℕ
slice_index (pos n) size = min n size
slice_index (negsuc n) size = size - suc n

-- The stop of a slice, the end if there is none.
abbrev pub slice_stop : ℤ → Bool → ℕ → ℕ
slice_stop stop has_stop size = if has_stop then slice_index stop size else size

module _ {ℓ} {A : Type ℓ} where
  -- `list[start:stop]`
  abbrev pub slice : ℤ → ℤ → Bool → List A → List A
  slice start stop has_stop list =
      take (slice_stop stop has_stop (length list) - slice_index start (length list))
        (drop (slice_index start (length list)) list)

  list_to_typed_vector-take :
      (nodes : List A) (count : ℕ) → list_to_typed_vector nodes count ≡ take count nodes
  unfolding list_to_typed_vector
  list_to_typed_vector-take [] zero = refl
  list_to_typed_vector-take [] (suc count) = refl
  list_to_typed_vector-take (x ∷ nodes) zero = refl
  list_to_typed_vector-take (x ∷ nodes) (suc count) =
      ap (◌∷◌ x) (list_to_typed_vector-take nodes count)

-- The two ways to read a position agree but for a stop in front of the list.
pub slice_index-node :
    (start : ℤ) (size : ℕ) → InRange start size → node_index start size ≡ slice_index start size
unfolding begin_index
slice_index-node (pos n) size h = ground arith
slice_index-node (negsuc n) size h = ground arith

pub slice_stop-stop :
    (stop : ℤ) (has_stop : Bool) (size : ℕ)
    → neg_part stop ≤ size
    → stop_index stop has_stop size ≡ slice_stop stop has_stop size
unfolding last_index
slice_stop-stop (pos n) true size h = ground arith
slice_stop-stop (negsuc n) true size h = ground arith
slice_stop-stop stop false size h = ground arith

pos_part-sub : (a b : ℕ) → pos_part (pos b -ℤ pos a) ≡ b - a
pos_part-sub a b = ground arith

wrapped_count :
    (size j : ℕ)
    → stop_index (negsuc (suc size + j)) true (suc size) - node_index (pos 0) (suc size)
      ≡ suc (min size j)
unfolding begin_index last_index
wrapped_count size j = ground arith

-- The nodes in the order in which they are read.
abbrev pub read_order {ℓ} : {A : Type ℓ} → Base → List A → List A
read_order base_head list = list
read_order base_none list = reverse list
read_order base_tail list = reverse list

module _ {ℓ} {A : Type ℓ} where
  get_by_range_out :
      (start stop : ℤ) (has_stop : Bool) (base : Base) (list : List A)
      → ¬ InRange start (length list)
      → get_by_range start stop has_stop base list ≡ none
  unfolding get_by_range
  get_by_range_out start stop has_stop base list h =
      rw (positions_to_indices_out start stop has_stop list h, get_by_range) refl

  get_by_range_in :
      (start stop : ℤ) (has_stop : Bool) (base : Base) (list : List A)
      → InRange start (length list)
      → let first = node_index start (length list) in
        let last = stop_index stop has_stop (length list) in
        get_by_range start stop has_stop base list
        ≡ some (take (last - first) (drop first (read_order base list)))
  unfolding get_by_range
  get_by_range_in start stop has_stop base list h =
      let first = node_index start (length list) in
      let last = stop_index stop has_stop (length list) in
      rw (positions_to_indices_in start stop has_stop list h, get_by_range)
        (by_base base first last)
    where
      by_base :
          (b : Base) (first last : ℕ)
          → some (
              if is_head b
              then list_to_typed_vector (drop first list) (pos_part (pos last -ℤ pos first))
              else list_to_typed_vector
                  (drop first (reverse list))
                  (pos_part (pos last -ℤ pos first)))
            ≡ some (take (last - first) (drop first (read_order b list)))
      by_base base_head first last = rw (pos_part-sub, list_to_typed_vector-take) refl
      by_base base_none first last = rw (pos_part-sub, list_to_typed_vector-take) refl
      by_base base_tail first last = rw (pos_part-sub, list_to_typed_vector-take) refl

  length-read_order : (base : Base) (list : List A) → length (read_order base list) ≡ length list
  length-read_order base_head list = refl
  length-read_order base_none list = length-reverse list
  length-read_order base_tail list = length-reverse list

  -- If the start names a node, and the stop is not further in front than the first node, the
  -- result is the slice of the list, or of the reversed list if the base is not the head.
  pub get_by_range-slice :
      (start stop : ℤ) (has_stop : Bool) (base : Base) (list : List A)
      → neg_part stop ≤ length list
      → InRange start (length list)
      → get_by_range start stop has_stop base list
        ≡ some (slice start stop has_stop (read_order base list))
  get_by_range-slice start stop has_stop base list k h =
      get_by_range_in start stop has_stop base list h
      ∙ rw
          (
            length-read_order base list,
            slice_index-node start (length list) h,
            slice_stop-stop stop has_stop (length list) k,
          )
          refl

  -- A stop further in front than the first node is not clipped: the count of nodes that it lies in
  -- front of the list is taken for an index, and nodes are returned where the slice is empty. So it
  -- is for a list with nodes, from its first one on, by the base of the head.
  pub get_by_range_wraps :
      (x : A) (nodes : List A) (j : ℕ)
      → let list = x ∷ nodes in
        let stop = negsuc (length list + j) in
        (get_by_range (pos 0) stop true base_head list
          ≡ some (x ∷ take (min (length nodes) j) nodes))
        × (slice (pos 0) stop true list ≡ [])
  unfolding begin_index
  get_by_range_wraps x nodes j = (
    get_by_range_in (pos 0) (negsuc (suc (length nodes) + j)) true base_head (x ∷ nodes)
          (ground arith)
        ∙ ap (λ n. some (take n (x ∷ nodes))) (wrapped_count (length nodes) j),
    ap (λ n. take n (drop (min 0 (suc (length nodes))) (x ∷ nodes)))
        {x = suc (length nodes) - suc (suc (length nodes) + j) - min 0 (suc (length nodes))} {y = 0}
        (omega arith),
  )
