-- ===== src/Sorted/Unique.antt =====
-- A list has one ascending rearrangement only, if the order is total.
use mathlib.Core.List.{Perm}
use mathlib.Core.List.Perm
use mathlib.Core.Path.{ap₂}
use fcache.Base.{◌≡◌, List, [], ◌∷◌}
use fcache.Value.{ListValue, IsTotal}
use fcache.Sorted.{All-perm, Le, IsBelow, IsSorted, IsSorted, Le_refl}

module _ {A : Type 0} ⦃o : ListValue A⦄ where
  Le-prop : (a b : A) → IsProp (Le a b)
  Le-prop a b = hlevel

  pub IsBelow-perm : (a : A) (xs ys : List A) → Perm xs ys → IsBelow a xs → IsBelow a ys
  IsBelow-perm a xs ys = All-perm (Le a) (Le-prop a) xs ys

  head_le : (a b : A) (xs ys : List A) → IsSorted (a ∷ xs) → Perm (a ∷ xs) (b ∷ ys) → Le a b
  head_le a b xs ys s p = (IsBelow-perm a (a ∷ xs) (b ∷ ys) p (Le_refl a, s.0)).0

  pub IsSorted-unique :
      IsTotal A o → (xs ys : List A) → IsSorted xs → IsSorted ys → Perm xs ys → xs ≡ ys
  IsSorted-unique total [] ys s t p = Perm.nil-eq p
  IsSorted-unique total (x ∷ xs) [] s t p = Perm.eq-nil p
  IsSorted-unique total (x ∷ xs) (y ∷ ys) s t p =
      let e = total x y (head_le y x ys xs t (Perm.symm p)) (head_le x y xs ys s p) in
      let rest = Perm.cons_inv (Perm.trans p (Perm.symm (Perm.cons' e Perm.rfl))) in
      ap₂ ◌∷◌ e (IsSorted-unique total xs ys s.1 t.1 rest)
