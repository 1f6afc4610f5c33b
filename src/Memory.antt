-- ===== src/Memory.antt =====
-- `PrintResource::format_destroyed_bytes` of Memory.hpp: how a debug build prints the bytes that are
-- given back to a memory resource.
--
-- The bytes of the block are a list, and a read behind its end is undefined, `none`. `std::isprint`
-- is that of the C locale.
pub mod Printed
pub mod Resource
use mathlib.Core.Option
use fcache.Base.{
  ℕ, zero, suc, ◌+◌, ◌-◌, ◌/◌, ◌%◌, ◌^◌, List, [], ◌∷◌, ◌++◌, Bool, true, false, ◌&&◌, Option, none,
  some, length, min, ltb, leb, if◌then◌else◌,
}
use fcache.Value.{Fcstring}

-- `std::isprint`. A `char` may be negative, which the standard leaves undefined: false here.
abbrev pub is_print : ℕ → Bool
is_print c = leb 32 c && leb c 126

abbrev pub hex_digit : ℕ → ℕ
hex_digit n = if ltb n 10 then 48 + n else 87 + n

-- `std::format (" {:02x}", byte)`
abbrev pub format_byte : ℕ → Fcstring
format_byte byte = 32 ∷ hex_digit (byte / 16) ∷ hex_digit (byte % 16) ∷ []

-- Whether a text is open behind the byte, and what is printed for it.
unfoldable pub format_char : Bool → ℕ → ℕ → Bool × Fcstring
format_char in_string c next =
    if is_print c
    then (if in_string
        then (true, c ∷ [])
        else if is_print next
        then (true, 32 ∷ 34 ∷ c ∷ [])
        else (false, format_byte c))
    else (if in_string then (false, 34 ∷ format_byte c) else (false, format_byte c))

-- " <truncated...>"
abbrev pub truncated_mark : Fcstring
truncated_mark =
    32 ∷ 60 ∷ 116 ∷ 114 ∷ 117 ∷ 110 ∷ 99 ∷ 97 ∷ 116 ∷ 101 ∷ 100 ∷ 46 ∷ 46 ∷ 46 ∷ 62 ∷ []

-- What is behind the loop: the last byte, the end of an open text, and the mark.
unfoldable pub format_last : Bool → ℕ → Bool → Fcstring
unfolding format_char
format_last in_string c is_truncated =
    let (is_open, text) = format_char in_string c 0 in
    text ++ ((if is_open then 34 ∷ [] else []) ++ (if is_truncated then truncated_mark else []))

-- The loop, for a number of rounds, and what is behind it.
unfoldable pub format_bytes : Bool → ℕ → Bool → List ℕ → Option Fcstring
unfolding format_char format_last
format_bytes in_string zero is_truncated [] = none
format_bytes in_string zero is_truncated (c ∷ bytes) = some (format_last in_string c is_truncated)
format_bytes in_string (suc rounds) is_truncated [] = none
format_bytes in_string (suc rounds) is_truncated (c ∷ []) = none
format_bytes in_string (suc rounds) is_truncated (c ∷ next ∷ bytes) =
    let (is_open, text) = format_char in_string c next in
    Option.map (λ rest. text ++ rest) (format_bytes is_open rounds is_truncated (next ∷ bytes))

-- `size - 1` of a `std::size_t`.
abbrev pub size_less_one : ℕ → ℕ
size_less_one zero = 2 ^ 64 - 1
size_less_one (suc n) = n

unfoldable pub format_destroyed_bytes : List ℕ → Option Fcstring
unfolding format_bytes
format_destroyed_bytes bytes =
    let last = size_less_one (length bytes) in format_bytes false (min last 32) (ltb 32 last) bytes
