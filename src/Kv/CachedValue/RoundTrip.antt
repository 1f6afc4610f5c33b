-- ===== src/Kv/CachedValue/RoundTrip.antt =====
-- A value that was stored is extracted as it was.
use mathlib.Core.Option
use fcache.Base.{◌≡◌, refl, ap, ◌∙◌, Option, none, some, length, Bool, true, false, ◌<◌, ◌-◌, ◌^◌}
use fcache.Value.{Fcint, Fcuint}
use fcache.Sorted.{All}
use fcache.Response.{
  FlexValue, fbt_int, fbt_uint, fbt_bool, fbt_float, fbt_string, fbt_blob, vector_int, vector_uint,
  vector_float, vector_bool, vector_key, unsupported,
}
use fcache.Base.Int.{pos, negsuc}
use fcache.Kv.Bytes.{c_str, le_bytes, of_le_bytes, int_bytes, int_of, bool_bytes, bool_of_bytes}
use fcache.Kv.Bytes.RoundTrip.{
  length-le_bytes, of_le_bytes-le_bytes, IsInt64, int_of-int_bytes, bool_of_bytes-bool_bytes,
  to_typed_vector-scalars_to_map, IsNulFree, extract_strings-strings_to_map, c_str-string_to_map,
  c_str_free, extract_blob-blob_to_map,
}
use fcache.Kv.CachedValue.{
  FloatBytes, CachedVariant, fixed, vec, CachedValue, make_cached_value, overwrite, cached, extract,
}

abbrev pub IsUint64 : Fcuint → Type 0
IsUint64 n = n < 2 ^ 64

abbrev pub IsBool : Bool → Type 0
IsBool b = Unit

abbrev pub IsFloat : {F : Type 0} → F → Type 0
IsFloat x = Unit

-- A value of a type that the server stores: the integers of a vector in their 64 bits, texts
-- without a zero byte, and a blob of less than 2 ^ 32 bytes.
abbrev pub IsStorable : {F : Type 0} → FlexValue F → Type 0
IsStorable (fbt_int x) = Unit
IsStorable (fbt_uint x) = Unit
IsStorable (fbt_bool x) = Unit
IsStorable (fbt_float x) = Unit
IsStorable (fbt_string s) = IsNulFree s
IsStorable (fbt_blob blob) = length blob < 2 ^ 32
IsStorable (vector_int v) = All IsInt64 v
IsStorable (vector_uint v) = All IsUint64 v
IsStorable (vector_float v) = All IsFloat v
IsStorable (vector_bool v) = All IsBool v
IsStorable (vector_key v) = All IsNulFree v
IsStorable unsupported = ⊥

-- Whether a value is of a type that the server stores.
abbrev pub is_supported : {F : Type 0} → FlexValue F → Bool
is_supported unsupported = false
is_supported _ = true

-- A value that is stored as it is, or of a type that is not stored.
abbrev pub IsSound : {F : Type 0} → FlexValue F → Type 0
IsSound v = is_supported v ≡ true → IsStorable v

length-int_bytes : (x : Fcint) → length (int_bytes x) ≡ 8
unfolding int_bytes
length-int_bytes (pos n) = length-le_bytes 8 n
length-int_bytes (negsuc n) = length-le_bytes 8 (2 ^ 64 - 1 - n)

-- A value that overwrites another leaves nothing of it.
pub overwrite_lem :
    {F : Type 0} (v : CachedVariant F) (old : CachedValue F) → overwrite v old ≡ make_cached_value v
unfolding overwrite make_cached_value
overwrite_lem (fixed v) old = refl
overwrite_lem (vec v) old = refl

module _ {F : Type 0} (b : FloatBytes F) where
  -- A value that is stored as it is, integers of 64 bits, texts without a zero byte and blobs of less
  -- than 2 ^ 32 bytes, has an overload that stores it. What a response gets of the stored value is
  -- the value.
  pub extract-cached :
      (v : FlexValue F)
      → IsStorable v
      → (c : CachedVariant F) × (cached b v ≡ some c) × (extract b (make_cached_value c) ≡ some v)
  unfolding cached make_cached_value extract bool_bytes
  extract-cached (fbt_int x) ok = (_, refl, refl)
  extract-cached (fbt_uint x) ok = (_, refl, refl)
  extract-cached (fbt_bool x) ok = (_, refl, refl)
  extract-cached (fbt_float x) ok = (_, refl, refl)
  extract-cached (fbt_string s) free = (
    _,
    refl,
    ap (λ t. some (fbt_string t))
        (c_str-string_to_map (c_str s) ∙ ap c_str (c_str_free s free) ∙ c_str_free s free),
  )
  extract-cached (fbt_blob blob) h =
      (_, refl, ap (λ t. some (fbt_blob t)) (extract_blob-blob_to_map blob h))
  extract-cached (vector_int v) ok = (
    _,
    refl,
    ap (λ t. some (vector_int t))
        (to_typed_vector-scalars_to_map int_bytes (λ block. int_of (of_le_bytes block)) 7 IsInt64
          length-int_bytes int_of-int_bytes v ok),
  )
  extract-cached (vector_uint v) ok = (
    _,
    refl,
    ap (λ t. some (vector_uint t))
        (to_typed_vector-scalars_to_map (le_bytes 8) of_le_bytes 7 IsUint64 (length-le_bytes 8)
          (λ x h. of_le_bytes-le_bytes 8 x h) v ok),
  )
  extract-cached (vector_float v) ok = (
    _,
    refl,
    ap (λ t. some (vector_float t))
        (to_typed_vector-scalars_to_map b.float_bytes b.float_of_bytes 3 IsFloat b.float_bytes_sized
          (λ x h. b.float_bytes_back x) v ok),
  )
  extract-cached (vector_bool v) ok = (
    _,
    refl,
    ap (λ t. some (vector_bool t))
        (to_typed_vector-scalars_to_map bool_bytes bool_of_bytes 0 IsBool (λ x. refl)
          (λ x h. bool_of_bytes-bool_bytes x) v ok),
  )
  extract-cached (vector_key v) ok =
      (_, refl, ap (λ t. some (vector_key t)) (extract_strings-strings_to_map v ok))
  extract-cached unsupported never = absurd never

  pub unsupported-cached : (v : FlexValue F) → is_supported v ≡ false → cached b v ≡ none
  unfolding cached
  unsupported-cached unsupported e = refl
  unsupported-cached _ e = absurd (cc)

  pub supported-cached :
      (v : FlexValue F) → is_supported v ≡ true → (c : CachedVariant F) × (cached b v ≡ some c)
  unfolding cached
  supported-cached (fbt_int x) e = (_, refl)
  supported-cached (fbt_uint x) e = (_, refl)
  supported-cached (fbt_bool x) e = (_, refl)
  supported-cached (fbt_float x) e = (_, refl)
  supported-cached (fbt_string s) e = (_, refl)
  supported-cached (fbt_blob blob) e = (_, refl)
  supported-cached (vector_int v) e = (_, refl)
  supported-cached (vector_uint v) e = (_, refl)
  supported-cached (vector_float v) e = (_, refl)
  supported-cached (vector_bool v) e = (_, refl)
  supported-cached (vector_key v) e = (_, refl)
  supported-cached unsupported e = absurd (cc)

  abbrev pub IsReadable : Option (CachedValue F) → Type 0
  IsReadable none = Unit
  IsReadable (some c) = (v : FlexValue F) × (extract b c ≡ some v)

  -- Whatever is stored can be extracted.
  pub cached-IsReadable : (v : FlexValue F) → IsReadable (Option.map make_cached_value (cached b v))
  unfolding cached make_cached_value extract
  cached-IsReadable (fbt_int x) = (_, refl)
  cached-IsReadable (fbt_uint x) = (_, refl)
  cached-IsReadable (fbt_bool x) = (_, refl)
  cached-IsReadable (fbt_float x) = (_, refl)
  cached-IsReadable (fbt_string s) = (_, refl)
  cached-IsReadable (fbt_blob blob) = (_, refl)
  cached-IsReadable (vector_int v) = (_, refl)
  cached-IsReadable (vector_uint v) = (_, refl)
  cached-IsReadable (vector_float v) = (_, refl)
  cached-IsReadable (vector_bool v) = (_, refl)
  cached-IsReadable (vector_key v) = (_, refl)
  cached-IsReadable unsupported = tt
