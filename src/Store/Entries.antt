-- ===== src/Store/Entries.antt =====
-- A property of every value in the map, through its operations.
use fcache.Base.{◌≡◌, List, [], ◌∷◌, some, subst, Bool-cases, Option-cases, inl, inr}
use fcache.Value.{Fcstring, str_eq}
use fcache.Sorted.{All}
use fcache.Store.{find, assign, try_emplace, erase}

module _ {ℓ κ} {V : Type ℓ} (P : V → Type κ) where
  abbrev pub AllValues : List (Fcstring × V) → Type κ
  AllValues = All (λ e. P e.1)

  pub find-AllValues :
      (k : Fcstring) (v : V) (m : List (Fcstring × V)) → AllValues m → find k m ≡ some v → P v
  unfolding find
  find-AllValues k v [] a e = absurd (cc)
  find-AllValues k v ((j, w) ∷ m) a e = elim (Bool-cases (str_eq j k)) [
    | inl same ↦
        let whole : some w ≡ some v = rw same at e in let found : w ≡ v = cc in subst P found a.0
    | inr other ↦ find-AllValues k v m a.1 (rw other at e)
  ]

  pub assign-AllValues :
      (k : Fcstring) (v : V) (m : List (Fcstring × V))
      → P v
      → AllValues m
      → AllValues (assign k v m)
  unfolding assign
  assign-AllValues k v [] p a = tt
  assign-AllValues k v ((j, w) ∷ m) p a = elim (Bool-cases (str_eq j k)) [
    | inl same ↦ rw same (p, a.1)
    | inr other ↦ rw other (a.0, assign-AllValues k v m p a.1)
  ]

  pub try_emplace-AllValues :
      (k : Fcstring) (v : V) (m : List (Fcstring × V))
      → P v
      → AllValues m
      → AllValues (try_emplace k v m).0
  unfolding try_emplace
  try_emplace-AllValues k v m p a = elim (Option-cases (find k m)) [
    | inl e ↦ rw (e, try_emplace) (p, a)
    | inr (w, e) ↦ rw (e, try_emplace) a
  ]

  pub erase-AllValues :
      (k : Fcstring) (m : List (Fcstring × V)) → AllValues m → AllValues (erase k m)
  unfolding erase
  erase-AllValues k [] a = tt
  erase-AllValues k ((j, w) ∷ m) a = elim (Bool-cases (str_eq j k)) [
    | inl same ↦ rw same (erase-AllValues k m a.1)
    | inr other ↦ rw other (a.0, erase-AllValues k m a.1)
  ]
