-- ===== src/Sorted.antt =====
-- Ascending lists of values (docs: "a sorted list ensures nodes are always in ascending order").
pub mod Unique
pub mod Reference
use mathlib.Core.List.{
  Mem, Perm, perm_middle, mem-cons, mem-cons_self, mem-cons_of_mem, not-mem-nil,
}
use mathlib.Core.List.Perm
use mathlib.Core.Logic.Or
use fcache.Base.{
  ℕ, zero, suc, ◌≡◌, ◌↔◌, refl, sym, subst, List, [], ◌∷◌, ◌++◌, Bool, true, false, arith, take,
  drop, keep_if, if◌then◌else◌, Bool-cases, inl, inr,
}
use fcache.Value.{ListValue, IsTotal}

abbrev pub All {ℓ κ} : {A : Type ℓ} → (A → Type κ) → List A → Type κ
All P [] = Unit
All P (x ∷ xs) = P x × All P xs

module _ {ℓ κ} {A : Type ℓ} (P : A → Type κ) where
  pub All-append : (xs ys : List A) → All P xs → All P ys → All P (xs ++ ys)
  All-append [] ys h k = k
  All-append (x ∷ xs) ys h k = (h.0, All-append xs ys h.1 k)

  pub All-append_inv : (xs ys : List A) → All P (xs ++ ys) → All P xs × All P ys
  All-append_inv [] ys h = (tt, h)
  All-append_inv (x ∷ xs) ys h = let r = All-append_inv xs ys h.1 in ((h.0, r.0), r.1)

  pub All-take : (n : ℕ) (xs : List A) → All P xs → All P (take n xs)
  All-take zero xs h = tt
  All-take (suc n) [] h = tt
  All-take (suc n) (x ∷ xs) h = (h.0, All-take n xs h.1)

  pub All-drop : (n : ℕ) (xs : List A) → All P xs → All P (drop n xs)
  All-drop zero xs h = h
  All-drop (suc n) [] h = tt
  All-drop (suc n) (x ∷ xs) h = All-drop n xs h.1

  pub All-of_forall : ((x : A) → P x) → (xs : List A) → All P xs
  All-of_forall f [] = tt
  All-of_forall f (x ∷ xs) = (f x, All-of_forall f xs)

  All-of_mem : (xs : List A) → ((x : A) → Mem x xs → P x) → All P xs
  All-of_mem [] h = tt
  All-of_mem (x ∷ xs) h = (h x mem-cons_self, All-of_mem xs (λ y m. h y (mem-cons_of_mem x m)))

  mem-All : ((x : A) → IsProp (P x)) → (xs : List A) (x : A) → All P xs → Mem x xs → P x
  mem-All prop [] x h m = absurd (not-mem-nil m)
  mem-All prop (y ∷ xs) x h m =
      Or.elim (prop x) (mem-cons.0 m) (λ e. subst P (sym e) h.0) (mem-All prop xs x h.1)

  pub All-perm : ((x : A) → IsProp (P x)) → (xs ys : List A) → Perm xs ys → All P xs → All P ys
  All-perm prop xs ys p h = All-of_mem ys (λ x m. mem-All prop xs x h ((Perm.mem_iff p).1 m))

pub All-imp {ℓ κ μ} :
    {A : Type ℓ} (P : A → Type κ) (Q : A → Type μ) (f : (x : A) → P x → Q x) (xs : List A)
    → All P xs
    → All Q xs
All-imp P Q f [] h = tt
All-imp P Q f (x ∷ xs) h = (f x h.0, All-imp P Q f xs h.1)

module _ {A : Type 0} ⦃o : ListValue A⦄ where
  -- `a` is not after `b`.
  abbrev pub Le : A → A → Type 0
  Le a b = o.lt b a ≡ false

  abbrev pub IsBelow : A → List A → Type 0
  IsBelow a = All (Le a)

  abbrev pub IsSorted : List A → Type 0
  IsSorted [] = Unit {0}
  IsSorted (x ∷ xs) = IsBelow x xs × IsSorted xs

  pub Le_refl : (a : A) → Le a a
  Le_refl a = elim (Bool-cases (o.lt a a)) [ inl h ↦ o.lt_asymm a a h | inr h ↦ h ]

  pub IsBelow-trans : (a b : A) (xs : List A) → Le a b → IsBelow b xs → IsBelow a xs
  IsBelow-trans a b xs h = All-imp (Le b) (Le a) (λ x k. o.lt_trans_false a b x h k) xs

  -- Two ascending lists in a row are ascending if the first lies below the second.
  pub IsSorted-append :
      (xs ys : List A)
      → IsSorted xs
      → IsSorted ys
      → All (λ x. IsBelow x ys) xs
      → IsSorted (xs ++ ys)
  IsSorted-append [] ys s t b = t
  IsSorted-append (x ∷ xs) ys s t b =
      (All-append (Le x) xs ys s.0 b.0, IsSorted-append xs ys s.1 t b.1)

  pub IsSorted-append_inv :
      (xs ys : List A)
      → IsSorted (xs ++ ys)
      → IsSorted xs × IsSorted ys × All (λ x. IsBelow x ys) xs
  IsSorted-append_inv [] ys s = (tt, s, tt)
  IsSorted-append_inv (x ∷ xs) ys s =
      let r = IsSorted-append_inv xs ys s.1 in
      let b = All-append_inv (Le x) xs ys s.0 in ((b.0, r.0), r.1, (b.1, r.2))

  pub IsSorted-take : (n : ℕ) (xs : List A) → IsSorted xs → IsSorted (take n xs)
  IsSorted-take zero xs s = tt
  IsSorted-take (suc n) [] s = tt
  IsSorted-take (suc n) (x ∷ xs) s = (All-take (Le x) n xs s.0, IsSorted-take n xs s.1)

  pub IsSorted-drop : (n : ℕ) (xs : List A) → IsSorted xs → IsSorted (drop n xs)
  IsSorted-drop zero xs s = s
  IsSorted-drop (suc n) [] s = tt
  IsSorted-drop (suc n) (x ∷ xs) s = IsSorted-drop n xs s.1
