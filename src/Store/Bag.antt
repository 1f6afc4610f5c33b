-- ===== src/Store/Bag.antt =====
-- Two maps of the same lookups are rearrangements of one another.
use mathlib.Core.List.{Perm}
use mathlib.Core.List.Perm
use fcache.Base.{
  ◌≡◌, refl, sym, ap, ◌∙◌, List, [], ◌∷◌, none, some, if◌then◌else◌, Bool-cases, inl, inr, subst,
}
use fcache.Value.{Fcstring, str_eq}
use fcache.Value.Order.{str_eq_iff}
use fcache.Store.{find, erase}
use fcache.Store.Lookup.{find-erase, str_eq_refl}
use fcache.Store.Once.{Once, erase-Once}

module _ {V : Type 0} where
  erase_absent : (k : Fcstring) (m : List (Fcstring × V)) → find k m ≡ none → erase k m ≡ m
  unfolding find erase
  erase_absent k [] e = refl
  erase_absent k ((j, v) ∷ m) e = elim (Bool-cases (str_eq j k)) [
    | inl same ↦ let never : some v ≡ none = rw same at e in absurd (cc)
    | inr other ↦ rw other (ap (λ l. (j, v) ∷ l) (erase_absent k m (rw other at e)))
  ]

  -- The entry of a key may stand first.
  erase-perm :
      (k : Fcstring) (v : V) (m : List (Fcstring × V))
      → Once m
      → find k m ≡ some v
      → Perm m ((k, v) ∷ erase k m)
  unfolding find erase
  erase-perm k v [] w e = absurd (cc)
  erase-perm k v ((j, u) ∷ m) w e = elim (Bool-cases (str_eq j k)) [
    | inl same ↦
        let found : some u ≡ some v = rw same at e in
        let value : u ≡ v = cc in
        let key : j ≡ k = (str_eq_iff j k).0 same in
        let absent : find k m ≡ none = subst (λ i. find i m ≡ none) key w.0 in
        rw (same, key, value, erase_absent k m absent) Perm.rfl
    | inr other ↦ rw other (
        Perm.trans (Perm.cons' refl (erase-perm k v m w.1 (rw other at e)))
          (Perm.swap (k, v) (j, u) (erase k m)))
  ]

  pub find-perm :
      (m m' : List (Fcstring × V))
      → Once m
      → Once m'
      → ((k : Fcstring) → find k m ≡ find k m')
      → Perm m m'
  unfolding find
  find-perm [] [] w w' e = Perm.rfl
  find-perm [] ((j, v) ∷ m') w w' e =
      let found : none ≡ some v = e j ∙ rw (str_eq_refl j) refl in absurd (cc)
  find-perm ((k, v) ∷ m) m' w w' e =
      let found : find k m' ≡ some v = sym (e k) ∙ rw (str_eq_refl k) refl in
      Perm.trans
        (Perm.cons' refl (
          find-perm m (erase k m') w.1 (erase-Once k m' w')
            (λ i. others i ∙ sym (find-erase k i m'))))
        (Perm.symm (erase-perm k v m' w' found))
    where
      others : (i : Fcstring) → find i m ≡ (if str_eq k i then none else find i m')
      others i = elim (Bool-cases (str_eq k i)) [
        | inl same ↦ rw same (subst (λ j. find j m ≡ none) ((str_eq_iff k i).0 same) w.0)
        | inr other ↦ rw other (rw other at (e i))
      ]
