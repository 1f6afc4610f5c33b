-- ===== src/Operation/Set/Overwrite.antt =====
-- What `Set` overwrites.
use Prim.Native.Nat.{min}
use fcache.Base.{
  ℕ, zero, suc, ◌+◌, ◌-◌, ◌<◌, ◌≡◌, refl, ap, ◌∙◌, List, [], ◌∷◌, ◌++◌, Bool, true, arith, length,
  take, drop, length-drop, drop-drop, if◌then◌else◌,
}
use fcache.Base.Int.{ℤ, pos, negsuc, ◌+ℤ◌, ◌≤ℤ◌}
use fcache.Range.{positions_to_iterators}
use fcache.Range.Bounds.{InRange, node_index}
use fcache.Operation.Set.{write_each, set, set_position}

cancel : (k c : ℕ) → k + c - k ≡ c
cancel k c = omega arith

-- A position in front of the list, from the back, that is not taken for a node of it: the size
-- is added twice.
abbrev pub IsTwiceInRange : ℤ → ℕ → Type 0
IsTwiceInRange position size =
    (position ≤ℤ negsuc (size + 1)) × (pos 0 ≤ℤ pos (size + size) +ℤ position)

module _ {ℓ} {A : Type ℓ} where
  -- As many nodes as there are items for get the items.
  write_each_lem :
      (count : ℕ) (items nodes : List A)
      → count ≡ min (length items) (length nodes)
      → write_each count items nodes ≡ take count items ++ drop count nodes
  unfolding write_each
  write_each_lem zero items [] e = refl
  write_each_lem zero [] (x ∷ nodes) e = refl
  write_each_lem zero (y ∷ items) (x ∷ nodes) e = refl
  write_each_lem (suc count) items [] e = absurd (omega arith)
  write_each_lem (suc count) [] (x ∷ nodes) e = absurd (omega arith)
  write_each_lem (suc count) (y ∷ items) (x ∷ nodes) e =
      ap (◌∷◌ y) (write_each_lem count items nodes (omega arith))

  -- How many nodes are overwritten from the node k on.
  abbrev pub overwritten : ℕ → List A → List A → ℕ
  overwritten k items list = min (length items) (length list - k)

  set_range :
      (items : List A) (position : ℤ) (list : List A)
      → InRange position (length list)
      → 0 < length items
      → let k = node_index position (length list) in
        let p = set_position position list in
        positions_to_iterators p (p +ℤ pos (length items)) true list
        ≡ (true, k, k + overwritten k items list)
  unfolding positions_to_iterators
  set_range items position list h n = ground arith

  -- Where there are items and the position names a node: from that node on, the nodes take the values
  -- of the items in order, as far as there are nodes and items; all else is unchanged.
  pub set_lem :
      (items : List A) (position : ℤ) (list : List A)
      → InRange position (length list)
      → 0 < length items
      → let k = node_index position (length list) in
        let n = overwritten k items list in
        set items position list ≡ take k list ++ (take n items ++ drop (k + n) list)
  unfolding set
  set_lem items position list h n =
      let k = node_index position (length list) in
      let c = overwritten k items list in
      ap
        (λ (r : Bool × ℕ × ℕ).
          if r.0 then take r.1 list ++ write_each (r.2 - r.1) items (drop r.1 list) else list)
        (set_range items position list h n)
      ∙ ap (λ m. take k list ++ write_each m items (drop k list)) (cancel k c)
      ∙ ap (◌++◌ (take k list)) (
          write_each_lem c items (drop k list) (omega (arith, length-drop k list))
          ∙ ap (◌++◌ (take c items)) (drop-drop c k list))
