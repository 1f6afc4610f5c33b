-- ===== src/Program/Numbers.antt =====
-- `std::stoi` and `std::stoul` of the standard library on a text without a zero byte, as fcache.cpp
-- uses them: `none` where they throw.
use mathlib.Core.Option
use mathlib.Core.List.{foldl}
use fcache.Base.{
  ℕ, zero, suc, ◌+◌, ◌-◌, ◌*◌, ◌%◌, ◌^◌, ◌≡◌, refl, [], ◌∷◌, Bool, true, false, ◌&&◌, ◌||◌, Option,
  none, some, ltb, leb, ◌==◌, if◌then◌else◌, arith,
}
use fcache.Base.Int.{ℤ, pos, negsuc}
use fcache.Value.{Fcstring}

abbrev pub is_digit : ℕ → Bool
is_digit c = leb 48 c && leb c 57

abbrev pub is_space : ℕ → Bool
is_space c = (c == 32) || (leb 9 c && leb c 13)

unfoldable pub skip_spaces : Fcstring → Fcstring
skip_spaces [] = []
skip_spaces (c ∷ text) = if is_space c then skip_spaces text else c ∷ text

-- Whether there is a minus sign, and what stands behind the sign.
unfoldable pub signed : Fcstring → Bool × Fcstring
signed [] = (false, [])
signed (c ∷ text) =
    if c == 45 then (true, text) else if c == 43 then (false, text) else (false, c ∷ text)

-- The digits at the front of the text, behind the number so far.
unfoldable pub read_digits : ℕ → Fcstring → ℕ
read_digits n [] = n
read_digits n (c ∷ text) = if is_digit c then read_digits (n * 10 + (c - 48)) text else n

unfoldable pub magnitude : Fcstring → Option ℕ
magnitude [] = none
magnitude (c ∷ text) = if is_digit c then some (read_digits 0 (c ∷ text)) else none

abbrev pub to_unsigned_long : Bool → ℕ → Option ℕ
to_unsigned_long is_negative n =
    if ltb n (2 ^ 64) then some (if is_negative then (2 ^ 64 - n) % 2 ^ 64 else n) else none

unfoldable pub stoul : Fcstring → Option ℕ
unfolding signed skip_spaces magnitude
stoul text =
    let (is_negative, digits) = signed (skip_spaces text) in
    Option.bind (magnitude digits) (to_unsigned_long is_negative)

abbrev pub negated : ℕ → ℤ
negated zero = pos 0
negated (suc n) = negsuc n

abbrev pub to_int : Bool → ℕ → Option ℤ
to_int true n = if leb n (2 ^ 31) then some (negated n) else none
to_int false n = if ltb n (2 ^ 31) then some (pos n) else none

unfoldable pub stoi : Fcstring → Option ℤ
unfolding signed skip_spaces magnitude
stoi text =
    let (is_negative, digits) = signed (skip_spaces text) in
    Option.bind (magnitude digits) (to_int is_negative)

abbrev pub all_digits : Fcstring → Bool
all_digits [] = true
all_digits (c ∷ text) = is_digit c && all_digits text

-- The number that digits spell, with no bound.
abbrev pub value : Fcstring → ℕ
value = foldl (λ n c. n * 10 + (c - 48)) 0

read_digits_all :
    (n : ℕ) (text : Fcstring)
    → all_digits text ≡ true
    → read_digits n text ≡ foldl (λ m c. m * 10 + (c - 48)) n text
unfolding read_digits
read_digits_all n [] h = refl
read_digits_all n (c ∷ text) h = ground (arith, read_digits_all (n * 10 + (c - 48)) text)

skip_spaces_digit :
    (c : ℕ) (text : Fcstring) → is_digit c ≡ true → skip_spaces (c ∷ text) ≡ c ∷ text
unfolding skip_spaces
skip_spaces_digit c text h = ground arith

signed_digit : (c : ℕ) (text : Fcstring) → is_digit c ≡ true → signed (c ∷ text) ≡ (false, c ∷ text)
unfolding signed
signed_digit c text h = ground arith

magnitude_digit :
    (c : ℕ) (text : Fcstring)
    → all_digits (c ∷ text) ≡ true
    → magnitude (c ∷ text) ≡ some (value (c ∷ text))
unfolding magnitude
magnitude_digit c text h = ground (arith, read_digits_all 0 (c ∷ text) h)

-- Digits have no sign and no spaces before them.
pub stoul_digits :
    (c : ℕ) (text : Fcstring)
    → all_digits (c ∷ text) ≡ true
    → stoul (c ∷ text) ≡ to_unsigned_long false (value (c ∷ text))
unfolding stoul Option.bind
stoul_digits c text h =
    let digit : is_digit c ≡ true = ground arith in
    rw (skip_spaces_digit c text digit)
      (rw (signed_digit c text digit) (rw (magnitude_digit c text h) refl))
