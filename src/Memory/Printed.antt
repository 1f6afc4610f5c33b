-- ===== src/Memory/Printed.antt =====
-- What is printed for a block.
use mathlib.Core.Option
use mathlib.Core.List.{append_assoc, append-nil}
use fcache.Base.{
  ℕ, zero, suc, ◌≤◌, ◌≡◌, refl, ap, ◌∙◌, List, [], ◌∷◌, ◌++◌, Bool, true, false, ◌&&◌, some, length,
  take, min, ltb, if◌then◌else◌, arith, ◌<◌, length-take, sym,
}
use fcache.Value.{Fcstring}
use fcache.Memory.{
  is_print, format_char, truncated_mark, format_last, format_bytes, format_destroyed_bytes,
}

abbrev pub all_print : List ℕ → Bool
all_print [] = true
all_print (c ∷ bytes) = is_print c && all_print bytes

-- A byte that is printed as it is, within an open text.
format_char_open : (c next : ℕ) → is_print c ≡ true → format_char true c next ≡ (true, c ∷ [])
unfolding format_char
format_char_open c next h = rw h refl

-- The bytes of an open text, up to the last.
open_text :
    (c : ℕ) (bytes : List ℕ)
    → all_print (c ∷ bytes) ≡ true
    → format_bytes true (length bytes) false (c ∷ bytes) ≡ some (c ∷ bytes ++ 34 ∷ [])
unfolding format_bytes format_last
open_text c [] h = rw (format_char_open c 0 (ground arith)) refl
open_text c (next ∷ bytes) h =
    rw (format_char_open c next (ground arith))
      (ap (Option.map (λ rest. c ∷ rest)) (open_text next bytes (ground arith)))

format_char_first :
    (c next : ℕ)
    → is_print c ≡ true
    → is_print next ≡ true
    → format_char false c next ≡ (true, 32 ∷ 34 ∷ c ∷ [])
unfolding format_char
format_char_first c next h k = rw (h, k) refl

-- A block of two to 33 bytes that can all be printed is printed as a text in quotes.
pub format_destroyed_bytes_text :
    (c next : ℕ) (bytes : List ℕ)
    → all_print (c ∷ next ∷ bytes) ≡ true
    → length bytes ≤ 31
    → format_destroyed_bytes (c ∷ next ∷ bytes) ≡ some (32 ∷ 34 ∷ c ∷ next ∷ bytes ++ 34 ∷ [])
unfolding format_destroyed_bytes format_bytes
format_destroyed_bytes_text c next bytes h k =
    let rounds : min (suc (length bytes)) 32 ≡ suc (length bytes) = omega arith in
    let whole : ltb 32 (suc (length bytes)) ≡ false = ground arith in
    rw (rounds, whole, format_char_first c next (ground arith) (ground arith))
      (ap (Option.map (λ rest. 32 ∷ 34 ∷ c ∷ rest)) (open_text next bytes (ground arith)))

mark_behind : (text end mark : Fcstring) → text ++ (end ++ mark) ≡ (text ++ (end ++ [])) ++ mark
mark_behind text end mark =
    ap (λ e. text ++ (e ++ mark)) (sym (append-nil end)) ∙ sym (append_assoc text (end ++ []) mark)

format_last_mark :
    (in_string : Bool) (c : ℕ)
    → format_last in_string c true ≡ format_last in_string c false ++ truncated_mark
unfolding format_last
format_last_mark in_string c =
    let (is_open, text) = format_char in_string c 0 in
    mark_behind text (if is_open then 34 ∷ [] else []) truncated_mark

format_bytes_mark :
    (in_string : Bool) (rounds : ℕ) (bytes : List ℕ)
    → suc rounds ≤ length bytes
    → (text : Fcstring) × (format_bytes in_string rounds false (take (suc rounds) bytes)
        ≡ some text)
      × (format_bytes in_string rounds true bytes ≡ some (text ++ truncated_mark))
unfolding format_bytes
format_bytes_mark in_string rounds [] h = absurd (omega arith)
format_bytes_mark in_string zero (c ∷ bytes) h =
    (format_last in_string c false, refl, ap some (format_last_mark in_string c))
format_bytes_mark in_string (suc rounds) (c ∷ []) h = absurd (omega arith)
format_bytes_mark in_string (suc rounds) (c ∷ next ∷ bytes) h =
    let printed = format_char in_string c next in
    let (rest, e, k) = format_bytes_mark printed.0 rounds (next ∷ bytes) (omega arith) in
    (
      printed.1 ++ rest,
      rw e refl,
      rw k (ap some (sym (append_assoc printed.1 rest truncated_mark))),
    )

-- Of a block of more than 33 bytes the first 33 are printed, as if they were all of it, and then
-- the mark that it was cut. No byte behind the block is read.
pub format_destroyed_bytes_truncated :
    (bytes : List ℕ)
    → 33 < length bytes
    → (text : Fcstring) × (format_destroyed_bytes (take 33 bytes) ≡ some text)
      × (format_destroyed_bytes bytes ≡ some (text ++ truncated_mark))
unfolding format_destroyed_bytes
format_destroyed_bytes_truncated [] h = absurd (omega arith)
format_destroyed_bytes_truncated (c ∷ bytes) h =
    let rounds : min (length bytes) 32 ≡ 32 = omega arith in
    let cut : ltb 32 (length bytes) ≡ true = ground arith in
    let kept : length (take 32 bytes) ≡ 32 = omega (arith, length-take 32 bytes) in
    let (text, e, k) = format_bytes_mark false 32 (c ∷ bytes) (omega arith) in
    (
      text,
      rw kept e,
      ap (λ n. format_bytes false n (ltb 32 (length bytes)) (c ∷ bytes)) rounds
          ∙ ap (λ is_cut. format_bytes false 32 is_cut (c ∷ bytes)) cut
          ∙ k,
    )
