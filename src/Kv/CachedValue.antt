-- ===== src/Kv/CachedValue.antt =====
-- `FixedValue`, `VectorValue` and `CachedValue` (KvCommon.hpp), and how Map.hpp makes one of a
-- value of a request and Map.cpp puts it into a response.
--
-- The pointer to the function that extracts a value is the name of the function. The field `type`
-- of VectorValue is written and never read, so it is left out. `std::get` of a variant that holds
-- another type throws, `none` here.
pub mod RoundTrip
use fcache.Base.{ℕ, ◌≡◌, length, List, Bool, Option, none, some, map}
use fcache.Value.{Fcint, Fcuint, Fcstring}
use fcache.Response.{
  FlexValue, fbt_int, fbt_uint, fbt_bool, fbt_float, fbt_string, fbt_blob, vector_int, vector_uint,
  vector_float, vector_bool, vector_key, unsupported,
}
use fcache.Kv.Bytes.{
  le_bytes, of_le_bytes, int_bytes, int_of, bool_bytes, bool_of_bytes, scalars_to_map,
  to_typed_vector, strings_to_map, c_str, extract_strings, string_to_map, blob_to_map, extract_blob,
}

-- How a float is held in memory: in four bytes, from which `memcpy` restores it.
pub record FloatBytes (F : Type 0) : Type 0 where
  pub float_bytes : F → List ℕ
  pub float_of_bytes : List ℕ → F
  pub float_bytes_sized : (x : F) → length (float_bytes x) ≡ 4
  pub float_bytes_back : (x : F) → float_of_bytes (float_bytes x) ≡ x

-- The variant of FixedValue.
pub data FixedVariant (F : Type 0) : Type 0 where
  fixed_int : Fcint → FixedVariant F
  fixed_uint : Fcuint → FixedVariant F
  fixed_float : F → FixedVariant F
  fixed_bool : Bool → FixedVariant F

pub data ExtractFixedF : Type 0 where
  extract_int : ExtractFixedF
  extract_uint : ExtractFixedF
  extract_float : ExtractFixedF
  extract_bool : ExtractFixedF

pub data ExtractVectorF : Type 0 where
  extract_blob_v : ExtractVectorF
  extract_string : ExtractVectorF
  extract_string_v : ExtractVectorF
  extract_int_v : ExtractVectorF
  extract_uint_v : ExtractVectorF
  extract_float_v : ExtractVectorF
  extract_bool_v : ExtractVectorF

pub record FixedValue (F : Type 0) : Type 0 where
  pub value : FixedVariant F
  pub extract : ExtractFixedF

pub record VectorValue : Type 0 where
  pub data_bytes : List ℕ
  pub extract : ExtractVectorF

-- The variant of CachedValue, and the field `valueType` beside it, which has one of two constants.
pub data CachedVariant (F : Type 0) : Type 0 where
  fixed : FixedValue F → CachedVariant F
  vec : VectorValue → CachedVariant F

pub data ValueType : Type 0 where
  value_type_fixed : ValueType
  value_type_vec : ValueType

pub record CachedValue (F : Type 0) : Type 0 where
  pub value : CachedVariant F
  pub value_type : ValueType

-- The constructors that `try_emplace` calls.
unfoldable pub make_cached_value : {F : Type 0} → CachedVariant F → CachedValue F
make_cached_value (fixed v) = record { value = fixed v; value_type = value_type_fixed }
make_cached_value (vec v) = record { value = vec v; value_type = value_type_vec }

-- The assignments to the fields of a value that is overwritten, as each overload of
-- CacheMap::setOrAdd makes them.
unfoldable pub overwrite : {F : Type 0} → CachedVariant F → CachedValue F → CachedValue F
overwrite (fixed v) old = record old { value = fixed v; value_type = value_type_fixed }
overwrite (vec v) old = record old { value_type = value_type_vec; value = vec v }

abbrev fixed_of : {F : Type 0} → FixedVariant F → ExtractFixedF → Option (CachedVariant F)
fixed_of v e = some (fixed (record { value = v; extract = e }))

abbrev vec_of : {F : Type 0} → List ℕ → ExtractVectorF → Option (CachedVariant F)
vec_of bytes e = some (vec (record { data_bytes = bytes; extract = e }))

module _ {F : Type 0} (b : FloatBytes F) where
  -- The value that the overloads of CacheMap::setOrAdd store, `none` for a type without one. A
  -- string is passed as `c_str ()`.
  unfoldable pub cached : FlexValue F → Option (CachedVariant F)
  cached (fbt_int x) = fixed_of (fixed_int x) extract_int
  cached (fbt_uint x) = fixed_of (fixed_uint x) extract_uint
  cached (fbt_bool x) = fixed_of (fixed_bool x) extract_bool
  cached (fbt_float x) = fixed_of (fixed_float x) extract_float
  cached (fbt_string s) = vec_of (string_to_map (c_str s)) extract_string
  cached (fbt_blob blob) = vec_of (blob_to_map blob) extract_blob_v
  cached (vector_int v) = vec_of (scalars_to_map int_bytes v) extract_int_v
  cached (vector_uint v) = vec_of (scalars_to_map (le_bytes 8) v) extract_uint_v
  cached (vector_float v) = vec_of (scalars_to_map b.float_bytes v) extract_float_v
  cached (vector_bool v) = vec_of (scalars_to_map bool_bytes v) extract_bool_v
  cached (vector_key v) = vec_of (strings_to_map v) extract_string_v
  cached unsupported = none

  -- The functions extractInt, extractUInt, extractFloat and extractBool.
  unfoldable pub extract_fixed : FixedVariant F → ExtractFixedF → Option (FlexValue F)
  extract_fixed (fixed_int x) extract_int = some (fbt_int x)
  extract_fixed (fixed_uint x) extract_uint = some (fbt_uint x)
  extract_fixed (fixed_float x) extract_float = some (fbt_float x)
  extract_fixed (fixed_bool x) extract_bool = some (fbt_bool x)
  extract_fixed _ _ = none

  -- The functions that extract a VectorValue.
  unfoldable pub extract_vector : List ℕ → ExtractVectorF → FlexValue F
  extract_vector bytes extract_blob_v = fbt_blob (extract_blob bytes)
  extract_vector bytes extract_string = fbt_string (c_str bytes)
  extract_vector bytes extract_string_v = vector_key (extract_strings bytes)
  extract_vector bytes extract_int_v =
      vector_int (to_typed_vector (λ block. int_of (of_le_bytes block)) 8 bytes)
  extract_vector bytes extract_uint_v = vector_uint (to_typed_vector of_le_bytes 8 bytes)
  extract_vector bytes extract_float_v = vector_float (to_typed_vector b.float_of_bytes 4 bytes)
  extract_vector bytes extract_bool_v = vector_bool (to_typed_vector bool_of_bytes 1 bytes)

  -- What CacheMap::get puts into the response for a value. `std::get` is called for the type that
  -- `valueType` names.
  unfoldable pub extract_as : ValueType → CachedVariant F → Option (FlexValue F)
  unfolding extract_fixed extract_vector
  extract_as value_type_fixed (fixed v) = extract_fixed v.value v.extract
  extract_as value_type_vec (vec v) = some (extract_vector v.data_bytes v.extract)
  extract_as _ _ = none

  unfoldable pub extract : CachedValue F → Option (FlexValue F)
  unfolding extract_as
  extract c = extract_as c.value_type c.value
