-- ===== src/Cli/Memory/Wrap.antt =====
-- The sizes that `parseMemory` reads: exact where the product fits into an int64, wrapped beyond.
use mathlib.Core.List.{reverse-append, reverse-reverse}
use oci_container_runtime_fr.Cli.Memory.{
  mul_int64, split_last, suffix_multiplier, choose, split_suffix, scale, parse_trimmed,
  parse_memory,
}
use oci_container_runtime_fr.Base.{
  ℕ, ◌*◌, ◌^◌, ◌<◌, ◌≡◌, refl, ap, ◌∙◌, ◌≢◌, false, some, [], ◌∷◌, ◌++◌, reverse, arith, All, ok,
  Str, trim_space, pos, decimal, parse_int, int64_bound, IsDigit, decimal-IsDigit,
  parse_int-decimal, trim_by, space_size, end_space_size, is_space, concat-ne-nil,
}

kept : (size : Str → ℕ) (c : ℕ) (s : Str) → size (c ∷ s) ≡ 0 → trim_by size 0 (c ∷ s) ≡ c ∷ s
unfolding trim_by
kept size c s h = rw h refl

-- A byte below 128 that is no white space begins none and ends none.
begins_none : (c : ℕ) (s : Str) → is_space c ≡ false → c < 128 → space_size (c ∷ s) ≡ 0
unfolding space_size
begins_none c [] h k = ground arith
begins_none c (b ∷ []) h k = ground arith
begins_none c (b ∷ a ∷ s) h k = ground arith

ends_none : (c : ℕ) (s : Str) → is_space c ≡ false → c < 128 → end_space_size (c ∷ s) ≡ 0
unfolding end_space_size
ends_none c [] h k = ground arith
ends_none c (b ∷ []) h k = ground arith
ends_none c (b ∷ a ∷ s) h k = ground arith

front_kept :
    (s : Str) (c : ℕ)
    → All IsDigit s
    → is_space c ≡ false
    → c < 128
    → trim_by space_size 0 (s ++ c ∷ []) ≡ s ++ c ∷ []
front_kept [] c d h k = kept space_size c [] (begins_none c [] h k)
front_kept (x ∷ s) c (dx, d) h k =
    kept space_size x (s ++ c ∷ []) (begins_none x (s ++ c ∷ []) (ground arith) (ground arith))

trim_space_lem :
    (s : Str) (c : ℕ)
    → All IsDigit s
    → is_space c ≡ false
    → c < 128
    → trim_space (s ++ c ∷ []) ≡ s ++ c ∷ []
unfolding trim_space
trim_space_lem s c d h k =
    rw
      (
        front_kept s c d h k,
        reverse-append s (c ∷ []),
        kept end_space_size c (reverse s) (ends_none c (reverse s) h k),
      )
      (rw (reverse-append (c ∷ []) (reverse s)) (rw reverse-reverse))

split_last-append : (s : Str) (c : ℕ) → split_last (s ++ c ∷ []) ≡ some (s, c)
unfolding split_last
split_last-append [] c = refl
split_last-append (x ∷ s) c = rw (split_last-append s c)

suffix_not_space : (c m : ℕ) → suffix_multiplier c ≡ some m → (is_space c ≡ false) × (c < 128)
unfolding suffix_multiplier
suffix_not_space c m h = ground arith

parse_trimmed_ne :
    (s : Str)
    → s ≢ []
    → parse_trimmed s
      ≡ scale (parse_int (split_suffix s (split_last s)).0) (split_suffix s (split_last s)).1
unfolding parse_trimmed
parse_trimmed_ne [] h = absurd (h refl)
parse_trimmed_ne (c ∷ s) h = refl

parse_memory_suffix :
    (n c m : ℕ)
    → suffix_multiplier c ≡ some m
    → n < int64_bound
    → parse_memory (decimal n ++ c ∷ []) ≡ ok (mul_int64 n m)
unfolding parse_memory split_suffix choose scale
parse_memory_suffix n c m h k = rw (
  trim_space_lem (decimal n) c (decimal-IsDigit n) (suffix_not_space c m h).0
      (suffix_not_space c m h).1,
  parse_trimmed_ne (decimal n ++ c ∷ []) (concat-ne-nil c (decimal n)),
  split_last-append (decimal n) c,
  h,
  parse_int-decimal n k,
)

fits_below : (n c m : ℕ) → suffix_multiplier c ≡ some m → n * m < int64_bound → n < int64_bound
unfolding suffix_multiplier
fits_below n c m h k = ground arith

mul_int64_exact : (n m : ℕ) → n * m < int64_bound → mul_int64 n m ≡ pos (n * m)
unfolding mul_int64
mul_int64_exact n m h = grind arith

-- The suffixes of sizes, and the number of bytes that each stands for.
pub data IsSuffix : ℕ → ℕ → Type 0 where
  kilo : IsSuffix b'k' 1024
  upper_kilo : IsSuffix b'K' 1024
  mega : IsSuffix b'm' 1048576
  upper_mega : IsSuffix b'M' 1048576
  giga : IsSuffix b'g' 1073741824
  upper_giga : IsSuffix b'G' 1073741824

IsSuffix-multiplier : {c m : ℕ} → IsSuffix c m → suffix_multiplier c ≡ some m
unfolding suffix_multiplier
IsSuffix-multiplier kilo = refl
IsSuffix-multiplier upper_kilo = refl
IsSuffix-multiplier mega = refl
IsSuffix-multiplier upper_mega = refl
IsSuffix-multiplier giga = refl
IsSuffix-multiplier upper_giga = refl

-- A decimal size with one of the suffixes k, K (1024), m, M (1024^2), g, G (1024^3) reads as that
-- number times what its suffix stands for, if the product fits into an int64.
pub parse_memory_exact :
    (n c m : ℕ)
    → IsSuffix c m
    → n * m < int64_bound
    → parse_memory (decimal n ++ c ∷ []) ≡ ok (pos (n * m))
parse_memory_exact n c m suffix k =
    let h = IsSuffix-multiplier suffix in
    parse_memory_suffix n c m h (fits_below n c m h k) ∙ ap ok (mul_int64_exact n m k)

-- A size of k * 2^34 gibibytes, where k * 2^34 fits into an int64, reads as 0, which means no limit:
-- the product wraps around.
pub parse_memory_vanishes :
    (k : ℕ)
    → k * 2 ^ 34 < int64_bound
    → parse_memory (decimal (k * 2 ^ 34) ++ b'G' ∷ []) ≡ ok (pos 0)
unfolding mul_int64 suffix_multiplier
parse_memory_vanishes k h =
    parse_memory_suffix (k * 2 ^ 34) b'G' (2 ^ 30) refl h ∙ ap ok (grind arith)
