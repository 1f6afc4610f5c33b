-- ===== src/Operation/Remove/Defined.antt =====
-- Where a removal is defined, whatever the list is.
use fcache.Base.{
  ◌≡◌, List, Bool, true, false, not, ◌&&◌, ◌||◌, ltb, length, IsDefined, if_elim, arith,
}
use fcache.Base.Int.{ℤ, pos, pos_part, ◌-ℤ◌, eqb_ℤ, ltb_ℤ, leb_ℤ}
use fcache.Range.{positions_to_indices, begin_index, last_index}
use fcache.Operation.Remove.{remove, erase_range}

-- A range that does not end before it begins in any list: it has no stop, or its two positions count
-- from the same end, the stop not in front of the start.
abbrev pub is_forward : ℤ → ℤ → Bool → Bool
is_forward start stop has_stop =
    not has_stop || (leb_ℤ start stop && (leb_ℤ (pos 0) start || ltb_ℤ stop (pos 0)))

module _ {ℓ} {A : Type ℓ} (start stop : ℤ) (has_stop : Bool) (list : List A) where
  forward_indices :
      is_forward start stop has_stop ≡ true
      → let r = positions_to_indices start stop has_stop list in
        ltb (pos_part r.2) (pos_part r.1) ≡ false
  unfolding positions_to_indices begin_index last_index
  forward_indices h = ground arith

  pub remove-IsDefined :
      is_forward start stop has_stop ≡ true → IsDefined (remove start stop has_stop list)
  unfolding remove erase_range
  remove-IsDefined h =
      let r = positions_to_indices start stop has_stop list in
      let ends = forward_indices h in
      if_elim IsDefined r.0
        (λ valid.
          if_elim IsDefined (eqb_ℤ (r.2 -ℤ r.1) (pos (length list))) (λ e. tt) (λ e. rw ends tt))
        (λ out. tt)
