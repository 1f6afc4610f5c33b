-- ===== src/Store/Lookup.antt =====
-- What each operation of the map does to a lookup.
use fcache.Base.{◌≡◌, refl, List, [], ◌∷◌, true, none, some, arith, if◌then◌else◌}
use fcache.Value.{Fcstring, str_eq}
use fcache.Value.Order.{str_eq_iff}
use fcache.Store.{find, assign, try_emplace, erase}

pub str_eq_refl : (k : Fcstring) → str_eq k k ≡ true
str_eq_refl k = (str_eq_iff k k).1 refl

module _ {ℓ} {V : Type ℓ} where
  pub find-assign :
      (k j : Fcstring) (v : V) (m : List (Fcstring × V))
      → find j (assign k v m)
        ≡ (if str_eq k j then (elim (find k m) [ none ↦ none | some w ↦ some v ]) else find j m)
  unfolding find assign
  find-assign k j v [] = ground arith
  find-assign k j v ((i, w) ∷ m) =
      ground (arith, str_eq_iff k j, str_eq_iff i k, str_eq_iff i j, find-assign k j v m)

  pub find-try_emplace :
      (k j : Fcstring) (v : V) (m : List (Fcstring × V))
      → find j (try_emplace k v m).0
        ≡ (if str_eq k j then (elim (find k m) [ none ↦ some v | some w ↦ some w ]) else find j m)
  unfolding find try_emplace
  find-try_emplace k j v m = ground (arith, str_eq_iff k j)

  pub find-erase :
      (k j : Fcstring) (m : List (Fcstring × V))
      → find j (erase k m) ≡ (if str_eq k j then none else find j m)
  unfolding find erase
  find-erase k j [] = ground arith
  find-erase k j ((i, w) ∷ m) =
      ground (arith, str_eq_iff k j, str_eq_iff i k, str_eq_iff i j, find-erase k j m)
