-- ===== src/Kv/Bytes.antt =====
-- The bytes that a vector of values is stored as: the loops of Map.hpp that write them, and those
-- of Map.cpp that read them. The byte order is that of the machines the server runs on, little
-- endian. What is read from a buffer is read up to its end: `memcpy` and the string views stop
-- within it, because its size is a multiple of the width, or its last byte is a terminator.
pub mod RoundTrip
use fcache.Base.{
  ℕ, zero, suc, ◌+◌, ◌-◌, ◌*◌, ◌/◌, ◌%◌, ◌^◌, List, [], ◌∷◌, ◌++◌, Bool, true, false, length, take,
  drop, ltb, ◌==◌, if◌then◌else◌,
}
use fcache.Base.Int.{ℤ, pos, negsuc}
use fcache.Value.{Fcint, Fcstring}

-- `memcpy` of an unsigned integer to a number of bytes, and back.
unfoldable pub le_bytes : ℕ → ℕ → List ℕ
le_bytes zero n = []
le_bytes (suc width) n = n % 256 ∷ le_bytes width (n / 256)

unfoldable pub of_le_bytes : List ℕ → ℕ
of_le_bytes [] = 0
of_le_bytes (b ∷ bytes) = b + 256 * of_le_bytes bytes

-- An `int64_t` in two's complement.
unfoldable pub int_bytes : Fcint → List ℕ
unfolding le_bytes
int_bytes (pos n) = le_bytes 8 n
int_bytes (negsuc n) = le_bytes 8 (2 ^ 64 - 1 - n)

unfoldable pub int_of : ℕ → Fcint
int_of n = if ltb n (2 ^ 63) then pos n else negsuc (2 ^ 64 - 1 - n)

unfoldable pub bool_bytes : Bool → List ℕ
bool_bytes b = (if b then 1 else 0) ∷ []

unfoldable pub bool_of_bytes : List ℕ → Bool
bool_of_bytes [] = false
bool_of_bytes (b ∷ bytes) = b == 1

module _ {ℓ} {A : Type ℓ} where
  -- The loop of `scalarsToMap`.
  unfoldable pub scalars_to_map : (A → List ℕ) → List A → List ℕ
  scalars_to_map to_bytes [] = []
  scalars_to_map to_bytes (x ∷ v) = to_bytes x ++ scalars_to_map to_bytes v

  -- The loop of `toTypedVector`, for as many rounds as there are bytes at most.
  unfoldable pub to_typed_vector_in : (List ℕ → A) → ℕ → ℕ → List ℕ → List A
  to_typed_vector_in of_bytes width zero data_bytes = []
  to_typed_vector_in of_bytes width (suc rounds) [] = []
  to_typed_vector_in of_bytes width (suc rounds) (b ∷ bytes) =
      of_bytes (take width (b ∷ bytes))
      ∷ to_typed_vector_in of_bytes width rounds (drop width (b ∷ bytes))

  unfoldable pub to_typed_vector : (List ℕ → A) → ℕ → List ℕ → List A
  unfolding to_typed_vector_in
  to_typed_vector of_bytes width bytes = to_typed_vector_in of_bytes width (length bytes) bytes

-- `stringsToMap`: each string with a terminator behind it.
unfoldable pub strings_to_map : List Fcstring → List ℕ
strings_to_map [] = []
strings_to_map (s ∷ v) = s ++ 0 ∷ strings_to_map v

-- What `std::string_view{buffer}` sees of a buffer.
unfoldable pub c_str : List ℕ → Fcstring
c_str [] = []
c_str (b ∷ bytes) = let rest = c_str bytes in if b == 0 then [] else b ∷ rest

-- A byte in front of the first string.
abbrev pub cons_first : ℕ → List Fcstring → List Fcstring
cons_first b [] = (b ∷ []) ∷ []
cons_first b (s ∷ v) = (b ∷ s) ∷ v

-- The loop of `extractStringV`: each string goes up to the next terminator.
unfoldable pub extract_strings : List ℕ → List Fcstring
extract_strings [] = []
extract_strings (b ∷ bytes) =
    let rest = extract_strings bytes in if b == 0 then [] ∷ rest else cons_first b rest

-- `stringToMap`
unfoldable pub string_to_map : Fcstring → List ℕ
string_to_map str = str ++ 0 ∷ []

-- `blobToMap`, of a blob of less than 2 ^ 32 bytes (its length is cut to `fcblobsize`, and the
-- buffer is too short for a longer one).
unfoldable pub blob_to_map : List ℕ → List ℕ
unfolding le_bytes
blob_to_map blob = le_bytes 4 (length blob % 2 ^ 32) ++ blob

unfoldable pub extract_blob : List ℕ → List ℕ
unfolding of_le_bytes
extract_blob buffer = take (of_le_bytes (take 4 buffer)) (drop 4 buffer)
