-- ===== src/Operation/Add/Insertion.antt =====
-- The two loops of the sorted `Add` that put each item at its lower bound.
use mathlib.Core.List.{Perm, perm_middle}
use mathlib.Core.List.Perm
use fcache.Base.{
  ℕ, ◌+◌, ◌≤◌, ◌≡◌, List, [], ◌∷◌, ◌++◌, arith, length, take, drop, take-add, take-append_left,
  length-take, drop-drop, length-append, length-drop,
}
use fcache.Value.{ListValue}
use fcache.Sorted.{All, All-append, All-imp, Le, IsBelow, IsSorted, IsBelow-trans, IsSorted-drop}
use fcache.Algorithm.{emplace, lower_bound}
use fcache.Algorithm.Bound.{
  emplace-perm, emplace-IsSorted, take-lower_bound, drop-lower_bound, lower_bound-le,
}
use fcache.Operation.Add.{insert_each_from, insert_each}

module _ {A : Type 0} ⦃o : ListValue A⦄ where
  emplace_then_perm :
      (it : ℕ) (v : A) (items list all : List A)
      → Perm all (items ++ emplace it v list)
      → Perm all (v ∷ (items ++ list))
  emplace_then_perm it v items list all p =
      Perm.trans p
        (Perm.trans (Perm.append_left items (emplace-perm it v list)) (perm_middle items list))

  pub insert_each-perm : (items list : List A) → Perm (insert_each items list) (items ++ list)
  unfolding insert_each
  insert_each-perm [] list = Perm.rfl
  insert_each-perm (v ∷ items) list =
      emplace_then_perm (lower_bound list v) v items list _
        (insert_each-perm items (emplace (lower_bound list v) v list))

  pub insert_each_from-perm :
      (it : ℕ) (items list : List A) → Perm (insert_each_from it items list) (items ++ list)
  unfolding insert_each_from
  insert_each_from-perm it [] list = Perm.rfl
  insert_each_from-perm it (v ∷ items) list =
      let pos : ℕ = it + lower_bound (drop it list) v in
      emplace_then_perm pos v items list _ (insert_each_from-perm pos items (emplace pos v list))

  pub insert_each-IsSorted :
      (items list : List A) → IsSorted list → IsSorted (insert_each items list)
  unfolding insert_each
  insert_each-IsSorted [] list s = s
  insert_each-IsSorted (v ∷ items) list s =
      insert_each-IsSorted items (emplace (lower_bound list v) v list) (
        emplace-IsSorted (lower_bound list v) v list s (take-lower_bound list v)
          (drop-lower_bound list v s))

  -- The place that is found when the search begins at an iterator that has nothing greater
  -- before it.
  found_before :
      (it : ℕ) (v : A) (list : List A)
      → All (λ x. Le x v) (take it list)
      → All (λ x. Le x v) (take (it + lower_bound (drop it list) v) list)
  found_before it v list h =
      rw take-add (All-append (λ x. Le x v) (take it list) _ h (take-lower_bound (drop it list) v))

  found_behind :
      (it : ℕ) (v : A) (list : List A)
      → IsSorted list
      → IsBelow v (drop (it + lower_bound (drop it list) v) list)
  found_behind it v list s =
      rw (← drop-drop (lower_bound (drop it list) v) it list)
        (drop-lower_bound (drop it list) v (IsSorted-drop it list s))

  take-emplace :
      (pos : ℕ) (v : A) (list : List A)
      → pos ≤ length list
      → take pos (emplace pos v list) ≡ take pos list
  take-emplace pos v list h =
      take-append_left pos (take pos list) (v ∷ drop pos list) (omega (arith, length-take pos list))

  le-length-emplace :
      (pos : ℕ) (v : A) (list : List A) → pos ≤ length list → pos ≤ length (emplace pos v list)
  le-length-emplace pos v list h =
      omega (arith, length-append (take pos list) (v ∷ drop pos list), length-take pos list)

  found-le :
      (it : ℕ) (v : A) (list : List A)
      → it ≤ length list
      → it + lower_bound (drop it list) v ≤ length list
  found-le it v list h = omega (arith, lower_bound-le (drop it list) v, length-drop it list)

  -- Before the iterator nothing is greater than an item that is still to come.
  pub insert_each_from-IsSorted :
      (it : ℕ) (items list : List A)
      → IsSorted list
      → IsSorted items
      → All (λ x. IsBelow x items) (take it list)
      → it ≤ length list
      → IsSorted (insert_each_from it items list)
  unfolding insert_each_from
  insert_each_from-IsSorted it [] list s t b h = s
  insert_each_from-IsSorted it (v ∷ items) list s t b h =
      let pos : ℕ = it + lower_bound (drop it list) v in
      let before =
        found_before it v list
          (All-imp (λ x. IsBelow x (v ∷ items)) (λ x. Le x v) (λ x k. k.0) (take it list) b) in
      let fits = found-le it v list h in
      insert_each_from-IsSorted pos items (emplace pos v list)
        (emplace-IsSorted pos v list s before (found_behind it v list s)) t.1
        (rw (take-emplace pos v list fits) (
          All-imp (λ x. Le x v) (λ x. IsBelow x items) (λ x k. IsBelow-trans x v items k t.0)
            (take pos list) before))
        (le-length-emplace pos v list fits)
