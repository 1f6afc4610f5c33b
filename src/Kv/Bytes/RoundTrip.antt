-- ===== src/Kv/Bytes/RoundTrip.antt =====
-- What is written to a buffer is read back from it.
use fcache.Base.{
  ℕ, zero, suc, ◌-◌, ◌*◌, ◌/◌, ◌%◌, ◌^◌, ◌≤◌, ◌<◌, ◌≡◌, refl, ap, ◌∙◌, List, [], ◌∷◌, ◌++◌, Bool,
  true, false, length, length-append, take, drop, take_all, ◌==◌, arith,
}
use mathlib.Core.Path.{ap₂}
use fcache.Base.Int.{pos, negsuc}
use native.Mathlib.Numerals.{unary_clauses}
use fcache.Value.{Fcint, Fcstring}
use fcache.Sorted.{All}
use fcache.Kv.Bytes.{
  le_bytes, of_le_bytes, int_bytes, int_of, bool_bytes, bool_of_bytes, scalars_to_map,
  to_typed_vector_in, to_typed_vector, strings_to_map, c_str, extract_strings, string_to_map,
  blob_to_map, extract_blob,
}

pub length-le_bytes : (width n : ℕ) → length (le_bytes width n) ≡ width
unfolding le_bytes
length-le_bytes zero n = refl
length-le_bytes (suc width) n = ap suc (length-le_bytes width (n / 256))

div_lt : (n p : ℕ) → n < p * 256 → n / 256 < p
div_lt n p h = omega arith

pub of_le_bytes-le_bytes : (width n : ℕ) → n < 256 ^ width → of_le_bytes (le_bytes width n) ≡ n
unfolding le_bytes of_le_bytes
of_le_bytes-le_bytes zero n h = omega arith
of_le_bytes-le_bytes (suc width) n h =
    let rest =
      of_le_bytes-le_bytes width (n / 256) (div_lt n (256 ^ width) (simp unary_clauses at h)) in
    omega (arith, rest)

-- The range of an `int64_t`.
abbrev pub IsInt64 : Fcint → Type 0
IsInt64 (pos n) = n < 2 ^ 63
IsInt64 (negsuc n) = n < 2 ^ 63

pub int_of-int_bytes : (x : Fcint) → IsInt64 x → int_of (of_le_bytes (int_bytes x)) ≡ x
unfolding int_bytes int_of
int_of-int_bytes (pos n) h =
    let stored = of_le_bytes-le_bytes 8 n (omega arith) in rw stored (ground arith)
int_of-int_bytes (negsuc n) h =
    let stored = of_le_bytes-le_bytes 8 (2 ^ 64 - 1 - n) (omega arith) in rw stored (ground arith)

pub bool_of_bytes-bool_bytes : (b : Bool) → bool_of_bytes (bool_bytes b) ≡ b
unfolding bool_bytes bool_of_bytes
bool_of_bytes-bool_bytes true = refl
bool_of_bytes-bool_bytes false = refl

module _ {ℓ} {A : Type ℓ} where
  take-append : (n : ℕ) (xs ys : List A) → length xs ≡ n → take n (xs ++ ys) ≡ xs
  take-append zero [] ys e = refl
  take-append zero (x ∷ xs) ys e = absurd (omega arith)
  take-append (suc n) [] ys e = absurd (omega arith)
  take-append (suc n) (x ∷ xs) ys e = rw (take-append n xs ys (omega arith))

  drop-append : (n : ℕ) (xs ys : List A) → length xs ≡ n → drop n (xs ++ ys) ≡ ys
  drop-append zero [] ys e = refl
  drop-append zero (x ∷ xs) ys e = absurd (omega arith)
  drop-append (suc n) [] ys e = absurd (omega arith)
  drop-append (suc n) (x ∷ xs) ys e = drop-append n xs ys (omega arith)

module _ {ℓ κ} {A : Type ℓ} (to_bytes : A → List ℕ) (of_bytes : List ℕ → A) (width : ℕ)
    (P : A → Type κ) (sized : (x : A) → length (to_bytes x) ≡ suc width)
    (back : (x : A) → P x → of_bytes (to_bytes x) ≡ x) where
  read_next :
      (rounds : ℕ) (block rest : List ℕ)
      → length block ≡ suc width
      → to_typed_vector_in of_bytes (suc width) (suc rounds) (block ++ rest)
        ≡ of_bytes block ∷ to_typed_vector_in of_bytes (suc width) rounds rest
  unfolding to_typed_vector_in
  read_next rounds [] rest e = absurd (omega arith)
  read_next rounds (b ∷ block) rest e =
      ap₂ (λ x y. of_bytes x ∷ to_typed_vector_in of_bytes (suc width) rounds y)
        (take-append (suc width) (b ∷ block) rest e) (drop-append (suc width) (b ∷ block) rest e)

  read_vector :
      (rounds : ℕ) (v : List A)
      → All P v
      → length v ≤ rounds
      → to_typed_vector_in of_bytes (suc width) rounds (scalars_to_map to_bytes v) ≡ v
  unfolding scalars_to_map to_typed_vector_in
  read_vector zero [] ok h = refl
  read_vector (suc rounds) [] ok h = refl
  read_vector zero (x ∷ v) ok h = absurd (omega arith)
  read_vector (suc rounds) (x ∷ v) ok h =
      read_next rounds (to_bytes x) (scalars_to_map to_bytes v) (sized x)
      ∙ ap₂ (λ y ys. y ∷ ys) (back x ok.0) (read_vector rounds v ok.1 (omega arith))

  length-scalars_to_map : (v : List A) → length v ≤ length (scalars_to_map to_bytes v)
  unfolding scalars_to_map
  length-scalars_to_map [] = omega arith
  length-scalars_to_map (x ∷ v) = omega (
    arith,
    sized x,
    length-scalars_to_map v,
    length-append (to_bytes x) (scalars_to_map to_bytes v),
  )

  -- A vector of values of one width is read back.
  pub to_typed_vector-scalars_to_map :
      (v : List A) → All P v → to_typed_vector of_bytes (suc width) (scalars_to_map to_bytes v) ≡ v
  unfolding to_typed_vector
  to_typed_vector-scalars_to_map v ok =
      read_vector (length (scalars_to_map to_bytes v)) v ok (length-scalars_to_map v)

-- A text without a zero byte.
abbrev pub IsNulFree : Fcstring → Type 0
IsNulFree = All (λ (b : ℕ). (b == 0) ≡ false)

extract_first :
    (s : Fcstring) (rest : List ℕ)
    → IsNulFree s
    → extract_strings (s ++ 0 ∷ rest) ≡ s ∷ extract_strings rest
unfolding extract_strings
extract_first [] rest free = refl
extract_first (b ∷ s) rest free = rw (free.0, extract_first s rest free.1)

pub extract_strings-strings_to_map :
    (v : List Fcstring) → All IsNulFree v → extract_strings (strings_to_map v) ≡ v
unfolding strings_to_map extract_strings
extract_strings-strings_to_map [] ok = refl
extract_strings-strings_to_map (s ∷ v) ok =
    extract_first s (strings_to_map v) ok.0
    ∙ ap (λ w. s ∷ w) (extract_strings-strings_to_map v ok.1)

pub c_str-string_to_map : (s : Fcstring) → c_str (string_to_map s) ≡ c_str s
unfolding c_str string_to_map
c_str-string_to_map [] = refl
c_str-string_to_map (b ∷ s) = rw (c_str-string_to_map s)

pub c_str_free : (s : Fcstring) → IsNulFree s → c_str s ≡ s
unfolding c_str
c_str_free [] free = refl
c_str_free (b ∷ s) free = rw (free.0, c_str_free s free.1)

extract_parts :
    (size blob : List ℕ)
    → length size ≡ 4
    → extract_blob (size ++ blob) ≡ take (of_le_bytes size) blob
unfolding extract_blob
extract_parts size blob e =
    ap₂ (λ x y. take (of_le_bytes x) y) (take-append 4 size blob e) (drop-append 4 size blob e)

pub extract_blob-blob_to_map :
    (blob : List ℕ) → length blob < 2 ^ 32 → extract_blob (blob_to_map blob) ≡ blob
unfolding blob_to_map
extract_blob-blob_to_map blob h =
    let size = length blob % 2 ^ 32 in
    extract_parts (le_bytes 4 size) blob (length-le_bytes 4 size)
    ∙ ap (λ n. take n blob) (of_le_bytes-le_bytes 4 size (omega arith))
    ∙ take_all size blob (omega arith)
