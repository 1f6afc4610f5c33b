-- ===== src/Operation/Remove/Erasure.antt =====
-- What `Remove` leaves, and when it is defined.
use fcache.Base.{
  ℕ, ◌≤◌, ◌<◌, ◌≡◌, refl, sym, ap, ◌∙◌, List, [], ◌++◌, Bool, true, false, arith, length, take,
  drop, some, none, if◌then◌else◌, Bool-cases, inl, inr, ltb, drop_all,
}
use fcache.Base.Int.{ℤ, pos, neg_part, ◌-ℤ◌, eqb_ℤ}
use fcache.Range.{last_index}
use fcache.Range.Bounds.{InRange, node_index, stop_index, positions_to_indices_in}
use fcache.Algorithm.{erase}
use fcache.Operation.GetByRange.Slice.{slice_index, slice_stop, slice_index-node, slice_stop-stop}
use fcache.Operation.Remove.{remove, erase_range}

pub stop_index-le : (stop : ℤ) (has_stop : Bool) (size : ℕ) → stop_index stop has_stop size ≤ size
unfolding last_index
stop_index-le stop has_stop size = ground arith

ltb-false : (a b : ℕ) → a ≤ b → ltb b a ≡ false
ltb-false a b h = ground arith

clear_test :
    (first last size : ℕ)
    → last ≤ size
    → eqb_ℤ (pos last -ℤ pos first) (pos size) ≡ true
    → (first ≡ 0) × (last ≡ size)
clear_test first last size h e = ground arith

ltb-true : (a b : ℕ) → b < a → ltb b a ≡ true
ltb-true a b h = ground arith

module _ {ℓ} {A : Type ℓ} where
  erase_all :
      (first last : ℕ) (list : List A) → first ≡ 0 → last ≡ length list → erase first last list ≡ []
  erase_all first last list e f = rw (e, f) (drop_all (length list) list (omega arith))

  -- Where the range covers the list, clearing it is erasing the range.
  erase_or_clear :
      (first last : ℕ) (list : List A)
      → last ≤ length list
      → (if eqb_ℤ (pos last -ℤ pos first) (pos (length list))
          then some []
          else erase_range first last list)
        ≡ (if ltb last first then none else some (erase first last list))
  unfolding erase_range
  erase_or_clear first last list h =
      elim (Bool-cases (eqb_ℤ (pos last -ℤ pos first) (pos (length list)))) [
        | inl e ↦
            let ends = clear_test first last (length list) h e in
            rw (e, ltb-false first last (omega arith))
              (ap some (sym (erase_all first last list ends.0 ends.1)))
        | inr e ↦ rw e refl
      ]

  remove_in :
      (start stop : ℤ) (has_stop : Bool) (list : List A)
      → InRange start (length list)
      → let first = node_index start (length list) in
        let last = stop_index stop has_stop (length list) in
        remove start stop has_stop list
        ≡ (if ltb last first then none else some (erase first last list))
  unfolding remove
  remove_in start stop has_stop list h =
      rw (positions_to_indices_in start stop has_stop list h, remove)
        (erase_or_clear (node_index start (length list)) (stop_index stop has_stop (length list))
          list (stop_index-le stop has_stop (length list)))

  -- If the start names a node, and the stop is not further in front than the first node: what is
  -- removed is the slice, and the behaviour is undefined exactly where it ends before it begins.
  pub remove-slice :
      (start stop : ℤ) (has_stop : Bool) (list : List A)
      → neg_part stop ≤ length list
      → InRange start (length list)
      → let first = slice_index start (length list) in
        let last = slice_stop stop has_stop (length list) in
        remove start stop has_stop list
        ≡ (if ltb last first then none else some (take first list ++ drop last list))
  remove-slice start stop has_stop list k h =
      remove_in start stop has_stop list h
      ∙ rw (slice_index-node start (length list) h, slice_stop-stop stop has_stop (length list) k)
          refl
