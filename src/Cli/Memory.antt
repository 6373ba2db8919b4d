-- ===== src/Cli/Memory.antt =====
-- `parseMemory` of mvp/cmd/myrun/main.go.
pub mod Wrap
use oci_container_runtime_fr.Base.{
  ℕ, zero, suc, ◌+◌, ◌-◌, ◌*◌, ◌/◌, ◌%◌, ◌^◌, ◌≤◌, ◌<◌, min, String, ◌≡◌, refl, sym, ap, ◌∙◌, ◌≢◌,
  ◌↔◌, ◌⊎◌, inl, inr, Bool, true, false, not, ◌&&◌, ◌||◌, Option, none, some, List, [], ◌∷◌, ◌++◌,
  map, reverse, append-nil, append_assoc, arith, ltb, leb, ◌==◌, if◌then◌else◌, ==_iff, Bool-cases,
  Option-cases, length, take, drop, length-append, length-take, take-append, drop-append,
  drop-append_suc, All, All-append, Error, message, wrap, os_error, Result, ok, err, ◌>>=◌, wrapped,
  of_option, Result-cases, Str, str, str_eq, str_eq_iff, str_eq_refl, index_byte, last_index,
  contains_byte, has_prefix, trim_prefix, join, to_lower, trim_space, Lacks, index_byte-append,
  index_byte-none, last_index-none, last_index-append, last_index_split, contains_byte-append,
  contains_byte-none, ℤ, pos, negsuc, is_positive, is_zero, decimal, format_int, digits_value,
  parse_int, int64_bound, IsDigit, decimal-IsDigit, IsDigit-Lacks, parse_int-decimal, trim_by,
  is_space, concat-ne-nil,
}

abbrev int64_modulus : ℕ
int64_modulus = 2 ^ 64

-- The product of two int64 values that are not negative, as Go computes it: it wraps around.
unfoldable pub mul_int64 : ℕ → ℕ → ℤ
mul_int64 n m =
    let p = n * m % int64_modulus in
    if ltb p int64_bound then pos p else negsuc (int64_modulus - p - 1)

abbrev pub extend : ℕ → Option (Str × ℕ) → Str × ℕ
extend c none = ([], c)
extend c (some (front, last)) = (c ∷ front, last)

-- The last byte of a text that is not empty, and what stands before it.
unfoldable pub split_last : Str → Option (Str × ℕ)
split_last [] = none
split_last (c ∷ s) = some (extend c (split_last s))

-- The multiplier that a suffix stands for.
unfoldable pub suffix_multiplier : ℕ → Option ℕ
suffix_multiplier c =
    if c == b'k' || c == b'K'
    then some (2 ^ 10)
    else if c == b'm' || c == b'M'
    then some (2 ^ 20)
    else if c == b'g' || c == b'G'
    then some (2 ^ 30)
    else none

-- The text to read as a number and its multiplier, by the last byte's meaning.
unfoldable pub choose : Str → Str → Option ℕ → Str × ℕ
choose s front none = (s, 1)
choose s front (some m) = (front, m)

unfoldable pub split_suffix : Str → Option (Str × ℕ) → Str × ℕ
split_suffix s none = (s, 1)
split_suffix s (some (front, last)) = choose s front (suffix_multiplier last)

unfoldable pub scale : Option ℤ → ℕ → Result ℤ
scale none m = err (message "invalid memory size")
scale (some (negsuc n)) m = err (message "memory size must be >= 0")
scale (some (pos n)) m = ok (mul_int64 n m)

unfoldable pub parse_trimmed : Str → Result ℤ
parse_trimmed [] = ok (pos 0)
parse_trimmed (c ∷ s) =
    let (number, m) = split_suffix (c ∷ s) (split_last (c ∷ s)) in scale (parse_int number) m

unfoldable pub parse_memory : Str → Result ℤ
parse_memory s = parse_trimmed (trim_space s)
