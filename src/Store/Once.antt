-- ===== src/Store/Once.antt =====
-- Maps whose keys occur once.
use fcache.Base.{
  ◌≡◌, refl, List, [], ◌∷◌, Bool, true, false, Option, none, some, if◌then◌else◌, Bool-cases, inl,
  inr, subst, ◌∙◌,
}
use fcache.Value.{Fcstring, str_eq}
use fcache.Value.Order.{str_eq_iff}
use fcache.Sorted.{All}
use fcache.Store.{find, erase}
use fcache.Store.Lookup.{find-erase, str_eq_refl}

-- No key occurs twice.
abbrev pub Once : {V : Type 0} → List (Fcstring × V) → Type 0
Once [] = Unit
Once ((k, v) ∷ m) = (find k m ≡ none) × Once m

module _ {V : Type 0} where
  pub erase-Once : (k : Fcstring) (m : List (Fcstring × V)) → Once m → Once (erase k m)
  unfolding erase
  erase-Once k [] w = tt
  erase-Once k ((j, v) ∷ m) w = elim (Bool-cases (str_eq j k)) [
    | inl same ↦ rw same (erase-Once k m w.1)
    | inr other ↦
        rw other (find-erase k j m ∙ if_none (str_eq k j) (find j m) w.0, erase-Once k m w.1)
  ]
    where
      if_none : (same : Bool) (o : Option V) → o ≡ none → (if same then none else o) ≡ none
      if_none true o e = refl
      if_none false o e = e

  -- What holds of every value that is found holds of every entry.
  pub AllValues-of_find :
      (P : V → Type 0) (m : List (Fcstring × V))
      → Once m
      → ((k : Fcstring) (v : V) → find k m ≡ some v → P v)
      → All (λ e. P e.1) m
  unfolding find
  AllValues-of_find P [] w h = tt
  AllValues-of_find P ((j, v) ∷ m) w h = (
    h j v (rw (str_eq_refl j) refl),
    AllValues-of_find P m w.1 (λ k u e. h k u (elim (Bool-cases (str_eq j k)) [
      | inr other ↦ rw other e
      | inl same ↦
          let nothing : find k m ≡ none =
            subst (λ i. find i m ≡ none) ((str_eq_iff j k).0 same) w.0 in
          absurd (cc)
    ])),
  )
