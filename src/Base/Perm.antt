-- ===== src/Base/Perm.antt =====
-- Rearranged lists have one length, as a native number.
use native.Mathlib.Bridge.{from_ℕ}
use mathlib.Core.List
use mathlib.Core.List.Perm
use mathlib.Core.List.{List, [], ◌∷◌, Perm}
use mathlib.Core.Path.{◌≡◌, refl, ap, sym, ◌∙◌}
use Prim.Native.Nat.{suc}
use fcache.Base.Lists.{length}

from_ℕ-length {ℓ} : {A : Type ℓ} (xs : List A) → from_ℕ (List.length xs) ≡ length xs
from_ℕ-length [] = refl
from_ℕ-length (x ∷ xs) = ap suc (from_ℕ-length xs)

pub length-perm {ℓ} : {A : Type ℓ} (xs ys : List A) → Perm xs ys → length xs ≡ length ys
length-perm xs ys p = sym (from_ℕ-length xs) ∙ ap from_ℕ (Perm.length-eq p) ∙ from_ℕ-length ys
