-- ===== src/Range/Bounds.antt =====
-- What the indices that positionsToIndices returns satisfy (ListOperations.hpp).
use fcache.Base.{
  ℕ, suc, ◌-◌, ◌^◌, ◌≤◌, ◌<◌, ◌≡◌, ◌↔◌, List, Bool, true, false, length, arith, if◌then◌else◌,
}
use fcache.Base.Int.{ℤ, pos, negsuc, pos_part, ◌+ℤ◌, ◌-ℤ◌, ◌≤ℤ◌, labs}
use fcache.Range.{begin_index, last_index, positions_to_indices, positions_to_iterators}

-- A position that names a node of a list with so many nodes, from the front or from the back.
abbrev pub InRange : ℤ → ℕ → Type 0
InRange start size = (negsuc (size - 1) ≤ℤ start) × (suc (pos_part start) ≤ size)

-- The index of the node that such a position names.
abbrev pub node_index : ℤ → ℕ → ℕ
node_index start size = pos_part (begin_index (pos size) start)

-- Where a stop position ends the range.
abbrev pub stop_index : ℤ → Bool → ℕ → ℕ
stop_index stop has_stop size =
    pos_part (last_index (pos size) (if has_stop then stop else pos size))

-- A 32-bit and a 64-bit signed number.
abbrev pub IsInt32 : ℤ → Type 0
IsInt32 i = (negsuc (2 ^ 31 - 1) ≤ℤ i) × (i ≤ℤ pos (2 ^ 31 - 1))

abbrev pub IsInt64 : ℤ → Type 0
IsInt64 i = (negsuc (2 ^ 63 - 1) ≤ℤ i) × (i ≤ℤ pos (2 ^ 63 - 1))

module _ {ℓ} {A : Type ℓ} (start stop : ℤ) (has_stop : Bool) (list : List A) where
  -- The range is valid exactly when its start names a node of the list, whatever its stop is.
  positions_to_indices-valid_iff :
      ((positions_to_indices start stop has_stop list).0 ≡ true) ↔ InRange start (length list)
  unfolding positions_to_indices
  positions_to_indices-valid_iff = ground arith

  -- Neither index is negative, the second is at most the size, and the first is below it if the
  -- range is valid.
  pub positions_to_indices_bounds :
      let r = positions_to_indices start stop has_stop list in
      (pos 0 ≤ℤ r.1)
      × (pos 0 ≤ℤ r.2)
      × (r.2 ≤ℤ pos (length list))
      × (r.0 ≡ true → r.1 ≤ℤ pos (length list) -ℤ pos 1)
  unfolding positions_to_indices
  positions_to_indices_bounds = ground arith

  pub positions_to_indices_in :
      InRange start (length list)
      → positions_to_indices start stop has_stop list
        ≡ (true, pos (node_index start (length list)), pos (stop_index stop has_stop (length list)))
  unfolding positions_to_indices
  positions_to_indices_in h = ground arith

  pub positions_to_indices_out :
      ¬ InRange start (length list)
      → positions_to_indices start stop has_stop list ≡ (false, pos 0, pos 0)
  unfolding positions_to_indices
  positions_to_indices_out h = ground arith

  -- The two iterators delimit a range of the list that is not empty.
  pub positions_to_iterators_bounds :
      let r = positions_to_iterators start stop has_stop list in
      r.0 ≡ true → (r.1 < r.2) × (r.2 ≤ length list)
  unfolding positions_to_iterators
  positions_to_iterators_bounds h = ground arith

-- Every number that the computation of the indices makes fits an `int64_t`, if the positions are
-- 32-bit numbers, as the requests hold them, and the list has fewer than 2 ^ 62 nodes.
pub positions_fit {ℓ} :
    {A : Type ℓ} (start stop : ℤ) (list : List A)
    → IsInt32 start
    → IsInt32 stop
    → length list < 2 ^ 62
    → IsInt64 (pos (length list) +ℤ start)
      × IsInt64 (pos (length list) +ℤ stop)
      × IsInt64 (labs start)
      × IsInt64 (labs (pos (length list) +ℤ stop))
positions_fit start stop list hs he h = ground arith
