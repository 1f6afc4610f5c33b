-- ===== src/Store.antt =====
-- `std::unordered_map<std::string, V>` as ListHandler.hpp uses it: its entries, with a key at most
-- once. Nothing in the handler depends on their order.
pub mod Lookup
pub mod Entries
pub mod Once
pub mod Bag
use fcache.Base.{◌≡◌, List, [], ◌∷◌, Bool, true, false, Option, none, some, if◌then◌else◌, map}
use fcache.Value.{Fcstring, str_eq}

module _ {ℓ} {V : Type ℓ} where
  unfoldable pub find : Fcstring → List (Fcstring × V) → Option V
  find k [] = none
  find k ((j, v) ∷ m) = if str_eq j k then some v else find k m

  -- An assignment through the iterator that `find` returned.
  unfoldable pub assign : Fcstring → V → List (Fcstring × V) → List (Fcstring × V)
  assign k v [] = []
  assign k v ((j, w) ∷ m) = if str_eq j k then (j, v) ∷ m else (j, w) ∷ assign k v m

  -- Nothing is inserted if the key is there; the flag says whether it was not.
  unfoldable pub try_emplace : Fcstring → V → List (Fcstring × V) → List (Fcstring × V) × Bool
  try_emplace k v m = elim (find k m) [ none ↦ ((k, v) ∷ m, true) | some w ↦ (m, false) ]

  unfoldable pub erase : Fcstring → List (Fcstring × V) → List (Fcstring × V)
  erase k [] = []
  erase k ((j, v) ∷ m) = if str_eq j k then erase k m else (j, v) ∷ erase k m
