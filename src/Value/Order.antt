-- ===== src/Value/Order.antt =====
-- The orders of integers and strings are strict weak orders, and total.
use fcache.Base.{ℕ, ◌≡◌, ◌↔◌, refl, [], ◌∷◌, true, false, not, ltb, leb, ◌==◌, ◌&&◌, arith}
use fcache.Base.Int.{ℤ, ltb_ℤ, leb_ℤ, eqb_ℤ}
use fcache.Value.{Fcint, Fcuint, Fcstring, ListValue, str_lt, str_le, str_eq}

pub str_lt_asymm : (a b : Fcstring) → str_lt a b ≡ true → str_lt b a ≡ false
unfolding str_lt
str_lt_asymm [] [] h = refl
str_lt_asymm [] (c ∷ t) h = refl
str_lt_asymm (b ∷ s) [] h = ground arith
str_lt_asymm (b ∷ s) (c ∷ t) h = ground (arith, str_lt_asymm s t)

pub str_lt_trans_false :
    (a b c : Fcstring) → str_lt b a ≡ false → str_lt c b ≡ false → str_lt c a ≡ false
unfolding str_lt
str_lt_trans_false [] [] c h k = k
str_lt_trans_false [] (y ∷ b) [] h k = refl
str_lt_trans_false [] (y ∷ b) (z ∷ c) h k = refl
str_lt_trans_false (x ∷ a) [] c h k = ground arith
str_lt_trans_false (x ∷ a) (y ∷ b) [] h k = ground arith
str_lt_trans_false (x ∷ a) (y ∷ b) (z ∷ c) h k = ground (arith, str_lt_trans_false a b c)

pub str_le-not_lt : (a b : Fcstring) → str_le a b ≡ not (str_lt b a)
unfolding str_lt str_le
str_le-not_lt [] [] = refl
str_le-not_lt [] (c ∷ t) = refl
str_le-not_lt (b ∷ s) [] = refl
str_le-not_lt (b ∷ s) (c ∷ t) = ground (arith, str_le-not_lt s t)

pub str_eq-not_lt : (a b : Fcstring) → str_eq a b ≡ (not (str_lt a b) && not (str_lt b a))
unfolding str_lt str_eq
str_eq-not_lt [] [] = refl
str_eq-not_lt [] (c ∷ t) = refl
str_eq-not_lt (b ∷ s) [] = refl
str_eq-not_lt (b ∷ s) (c ∷ t) = ground (arith, str_eq-not_lt s t)

pub str_lt-IsTotal : (a b : Fcstring) → str_lt a b ≡ false → str_lt b a ≡ false → a ≡ b
unfolding str_lt
str_lt-IsTotal [] [] h k = refl
str_lt-IsTotal [] (c ∷ t) h k = ground arith
str_lt-IsTotal (b ∷ s) [] h k = ground arith
str_lt-IsTotal (b ∷ s) (c ∷ t) h k = ground (arith, str_lt-IsTotal s t)

pub str_eq_iff : (a b : Fcstring) → (str_eq a b ≡ true) ↔ (a ≡ b)
unfolding str_eq
str_eq_iff [] [] = ground arith
str_eq_iff [] (c ∷ t) = ground arith
str_eq_iff (b ∷ s) [] = ground arith
str_eq_iff (b ∷ s) (c ∷ t) = ground (arith, str_eq_iff s t)

pub ltb_ℤ_asymm : (a b : ℤ) → ltb_ℤ a b ≡ true → ltb_ℤ b a ≡ false
ltb_ℤ_asymm a b h = ground arith

pub ltb_ℤ_trans_false : (a b c : ℤ) → ltb_ℤ b a ≡ false → ltb_ℤ c b ≡ false → ltb_ℤ c a ≡ false
ltb_ℤ_trans_false a b c h k = ground arith

pub leb_ℤ-not_lt : (a b : ℤ) → leb_ℤ a b ≡ not (ltb_ℤ b a)
leb_ℤ-not_lt a b = ground arith

pub eqb_ℤ-not_lt : (a b : ℤ) → eqb_ℤ a b ≡ (not (ltb_ℤ a b) && not (ltb_ℤ b a))
eqb_ℤ-not_lt a b = ground arith

pub ltb_ℤ-IsTotal : (a b : ℤ) → ltb_ℤ a b ≡ false → ltb_ℤ b a ≡ false → a ≡ b
ltb_ℤ-IsTotal a b h k = ground arith

pub ltb_asymm : (a b : ℕ) → ltb a b ≡ true → ltb b a ≡ false
ltb_asymm a b h = ground arith

pub ltb_trans_false : (a b c : ℕ) → ltb b a ≡ false → ltb c b ≡ false → ltb c a ≡ false
ltb_trans_false a b c h k = ground arith

pub leb-not_lt : (a b : ℕ) → leb a b ≡ not (ltb b a)
leb-not_lt a b = ground arith

pub ==-not_lt : (a b : ℕ) → (a == b) ≡ (not (ltb a b) && not (ltb b a))
==-not_lt a b = ground arith

pub ltb-IsTotal : (a b : ℕ) → ltb a b ≡ false → ltb b a ≡ false → a ≡ b
ltb-IsTotal a b h k = ground arith

instance abbrev pub int_value : ListValue Fcint
int_value = record {
  lt = ltb_ℤ;
  le = leb_ℤ;
  eq = eqb_ℤ;
  lt_asymm = ltb_ℤ_asymm;
  lt_trans_false = ltb_ℤ_trans_false;
  le-not_lt = leb_ℤ-not_lt;
  eq-not_lt = eqb_ℤ-not_lt;
}

instance abbrev pub uint_value : ListValue Fcuint
uint_value = record {
  lt = ltb;
  le = leb;
  eq = ◌==◌;
  lt_asymm = ltb_asymm;
  lt_trans_false = ltb_trans_false;
  le-not_lt = leb-not_lt;
  eq-not_lt = ==-not_lt;
}

instance abbrev pub string_value : ListValue Fcstring
string_value = record {
  lt = str_lt;
  le = str_le;
  eq = str_eq;
  lt_asymm = str_lt_asymm;
  lt_trans_false = str_lt_trans_false;
  le-not_lt = str_le-not_lt;
  eq-not_lt = str_eq-not_lt;
}
