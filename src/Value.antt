-- ===== src/Value.antt =====
-- The values that a list holds: `fcint`, `fcuint`, `fcstring` and `fcfloat` (Common.hpp), and the
-- comparisons of C++ that the operations of ListOperations.hpp use on them.
--
-- `fcint` is an `int64_t`, an integer here; `fcuint` is a `uint64_t`, a natural number; `fcstring`
-- is a `std::string`, its bytes. `fcfloat` is a parameter of the development.
pub mod Order
use fcache.Base.{
  ℕ, suc, ◌≡◌, ◌↔◌, refl, List, [], ◌∷◌, Bool, true, false, not, ltb, leb, ◌==◌, ◌&&◌,
  if◌then◌else◌, arith, ==_iff,
}
use fcache.Base.Int.{ℤ, ltb_ℤ, leb_ℤ, eqb_ℤ}

abbrev pub Fcint : Type 0
Fcint = ℤ

abbrev pub Fcuint : Type 0
Fcuint = ℕ

abbrev pub Fcstring : Type 0
Fcstring = List ℕ

-- `<`, `<=` and `==` of a type, and what the standard asks of `<`: a strict weak order, to which
-- the other two belong. Integers and strings have it, and floats that are not NaN.
pub record ListValue (A : Type 0) : Type 0 where
  pub lt : A → A → Bool
  pub le : A → A → Bool
  pub eq : A → A → Bool
  pub lt_asymm : (a b : A) → lt a b ≡ true → lt b a ≡ false
  pub lt_trans_false : (a b c : A) → lt b a ≡ false → lt c b ≡ false → lt c a ≡ false
  pub le-not_lt : (a b : A) → le a b ≡ not (lt b a)
  pub eq-not_lt : (a b : A) → eq a b ≡ (not (lt a b) && not (lt b a))

-- Values that neither is less than the other are one value. Floats have two zeros.
abbrev pub IsTotal : (A : Type 0) → ListValue A → Type 0
IsTotal A o = (a b : A) → o.lt a b ≡ false → o.lt b a ≡ false → a ≡ b

-- `std::string` compares its bytes from left to right, and a prefix is less.
unfoldable pub str_lt : Fcstring → Fcstring → Bool
str_lt [] [] = false
str_lt [] (c ∷ t) = true
str_lt (b ∷ s) [] = false
str_lt (b ∷ s) (c ∷ t) = let rest = str_lt s t in if b == c then rest else ltb b c

unfoldable pub str_le : Fcstring → Fcstring → Bool
str_le [] t = true
str_le (b ∷ s) [] = false
str_le (b ∷ s) (c ∷ t) = let rest = str_le s t in if b == c then rest else ltb b c

unfoldable pub str_eq : Fcstring → Fcstring → Bool
str_eq [] [] = true
str_eq [] (c ∷ t) = false
str_eq (b ∷ s) [] = false
str_eq (b ∷ s) (c ∷ t) = let rest = str_eq s t in if b == c then rest else false
