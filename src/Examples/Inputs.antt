-- ===== src/Examples/Inputs.antt =====
-- The inputs of the examples: floats and the elements of vectors stand for integers.
use fcache.Base.{ℕ, ◌≡◌, refl, List, [], ◌∷◌, true, false, length, if◌then◌else◌, ◌==◌}
use fcache.Kv.CachedValue.{FloatBytes}
use fcache.Base.Int.{ℤ, pos, negsuc, pos_part}
use fcache.Value.{Fcint, Fcstring}
use fcache.FcList.{FlexItems, FcList, ints, fbt_vector_int, list_int}
use fcache.ListHandler.Lists.{Lists}

abbrev pub items : FlexItems ℤ
items = record {
  Ref = ℤ;
  as_int = λ i. i;
  as_uint = pos_part;
  as_float = λ i. i;
  as_string = λ i. pos_part i ∷ [];
}

abbrev pub int_bytes : ℤ → List ℕ
int_bytes (pos n) = 0 ∷ n ∷ 0 ∷ 0 ∷ []
int_bytes (negsuc n) = 1 ∷ n ∷ 0 ∷ 0 ∷ []

abbrev pub int_of_bytes : List ℕ → ℤ
int_of_bytes (sign ∷ n ∷ _) = if sign == 1 then negsuc n else pos n
int_of_bytes _ = pos 0

pub int_bytes_sized : (x : ℤ) → length (int_bytes x) ≡ 4
int_bytes_sized (pos n) = refl
int_bytes_sized (negsuc n) = refl

pub int_bytes_back : (x : ℤ) → int_of_bytes (int_bytes x) ≡ x
int_bytes_back (pos n) = refl
int_bytes_back (negsuc n) = refl

abbrev pub int_floats : FloatBytes ℤ
int_floats = record {
  float_bytes = int_bytes;
  float_of_bytes = int_of_bytes;
  float_bytes_sized = int_bytes_sized;
  float_bytes_back = int_bytes_back;
}

abbrev pub ascending : List Fcint
ascending = negsuc 1 ∷ pos 3 ∷ pos 3 ∷ pos 8 ∷ []

abbrev pub more : List Fcint
more = pos 1 ∷ pos 3 ∷ pos 9 ∷ []

abbrev pub scores : Fcstring
scores = 115 ∷ 99 ∷ []

abbrev pub other : Fcstring
other = 111 ∷ []

abbrev pub sorted_scores : FcList ℤ
sorted_scores = record {
  m_list = ints ascending;
  m_flex_type = fbt_vector_int;
  m_list_type = list_int;
  m_sorted = true;
}

abbrev pub plain_scores : FcList ℤ
plain_scores = record sorted_scores { m_sorted = false }

abbrev pub lists : Lists ℤ
lists = (scores, sorted_scores) ∷ (other, plain_scores) ∷ []
