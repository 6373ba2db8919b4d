-- ===== src/Base/Decimal.antt =====
-- strconv.Itoa, Atoi and ParseInt with base 10.
use Prim.Native.Nat.{ℕ, zero, suc, ◌+◌, ◌-◌, ◌*◌, ◌/◌, ◌%◌, ◌^◌, ◌≤◌, ◌<◌}
use mathlib.Core.Path.{◌≡◌, refl}
use mathlib.Core.Logic.{◌≢◌, ◌⊎◌}
use mathlib.Core.Bool.{Bool, false, ◌&&◌}
use mathlib.Core.Option.{Option, none, some}
use mathlib.Core.List.{[], ◌∷◌, ◌++◌, concat-ne-nil}
use native.Mathlib.Omega.{arith}
use oci_container_runtime_fr.Base.Tests.{leb, ltb, ◌==◌, if◌then◌else◌}
use oci_container_runtime_fr.Base.Lists.{All, All-append}
use oci_container_runtime_fr.Base.Text.{Str, Lacks}

-- A Go integer. `negsuc n` is -(n + 1).
pub data ℤ : Type 0 where
  pos : ℕ → ℤ
  negsuc : ℕ → ℤ

-- `0 < n`
abbrev pub is_positive : ℤ → Bool
is_positive (pos n) = ltb 0 n
is_positive (negsuc n) = false

abbrev pub is_zero : ℤ → Bool
is_zero (pos n) = n == 0
is_zero (negsuc n) = false

pub decimal_digits : ℕ → ℕ → Str
decimal_digits zero n = []
decimal_digits (suc f) n =
    let more = decimal_digits f (n / 10) in
    if ltb n 10 then (b'0' + n) ∷ [] else more ++ (b'0' + n % 10) ∷ []

-- strconv.Itoa, `%d`: a number has fewer than `n + 1` digits, so the fuel suffices.
unfoldable pub decimal : ℕ → Str
unfolding decimal_digits
decimal n = decimal_digits (suc n) n

unfoldable pub format_int : ℤ → Str
unfolding decimal
format_int (pos n) = decimal n
format_int (negsuc n) = b'-' ∷ decimal (suc n)

-- The number that digits spell behind `acc`; `none` at any other byte.
unfoldable pub digits_value : Str → ℕ → Option ℕ
digits_value [] acc = some acc
digits_value (c ∷ s) acc =
    let more = digits_value s (acc * 10 + (c - b'0')) in
    if leb b'0' c && leb c b'9' then more else none

pub unsigned : Str → Option ℕ
unfolding digits_value
unsigned [] = none
unsigned (c ∷ s) = digits_value (c ∷ s) 0

abbrev pub int64_bound : ℕ
int64_bound = 2 ^ 63

pub in_range_pos : Option ℕ → Option ℤ
in_range_pos none = none
in_range_pos (some n) = if ltb n int64_bound then some (pos n) else none

pub in_range_neg : Option ℕ → Option ℤ
in_range_neg none = none
in_range_neg (some zero) = some (pos 0)
in_range_neg (some (suc n)) = if ltb n int64_bound then some (negsuc n) else none

-- strconv.Atoi on a 64-bit machine, and strconv.ParseInt(s, 10, 64).
unfoldable pub parse_int : Str → Option ℤ
unfolding unsigned in_range_pos in_range_neg
parse_int [] = none
parse_int (c ∷ s) =
    if c == b'-'
    then in_range_neg (unsigned s)
    else if c == b'+'
    then in_range_pos (unsigned s)
    else in_range_pos (unsigned (c ∷ s))

pub digits_value-append :
    (s t : Str) (acc n : ℕ)
    → digits_value s acc ≡ some n
    → digits_value (s ++ t) acc ≡ digits_value t n
unfolding digits_value
digits_value-append [] t acc n h = ground arith
digits_value-append (c ∷ s) t acc n h =
    ground (arith, digits_value-append s t (acc * 10 + (c - b'0')) n)

digits_value-digits : (f n : ℕ) → n < f → digits_value (decimal_digits f n) 0 ≡ some n
unfolding decimal_digits digits_value
digits_value-digits zero n h = elim h [ ]
digits_value-digits (suc f) n h = ground (
  arith,
  digits_value-append (decimal_digits f (n / 10)) ((b'0' + n % 10) ∷ []) 0 (n / 10),
  digits_value-digits f (n / 10),
)

abbrev pub IsDigit : ℕ → Type 0
IsDigit c = (b'0' ≤ c) × (c ≤ b'9')

digits-IsDigit : (f n : ℕ) → All IsDigit (decimal_digits f n)
unfolding decimal_digits
digits-IsDigit zero n = tt
digits-IsDigit (suc f) n = ground (
  arith,
  digits-IsDigit f (n / 10),
  All-append IsDigit (decimal_digits f (n / 10)) ((b'0' + n % 10) ∷ []),
)

pub decimal-IsDigit : (n : ℕ) → All IsDigit (decimal n)
unfolding decimal
decimal-IsDigit n = digits-IsDigit (suc n) n

pub IsDigit-Lacks : (c : ℕ) (s : Str) → (c < b'0') ⊎ (b'9' < c) → All IsDigit s → Lacks c s
IsDigit-Lacks c [] h d = tt
IsDigit-Lacks c (x ∷ s) h (dx, d) = (omega arith, IsDigit-Lacks c s h d)

decimal-ne-nil : (n : ℕ) → decimal n ≢ []
unfolding decimal decimal_digits
decimal-ne-nil n = ground (arith, concat-ne-nil (b'0' + n % 10) (decimal_digits n (n / 10)))

parse_int_digits :
    (s : Str) → s ≢ [] → All IsDigit s → parse_int s ≡ in_range_pos (digits_value s 0)
unfolding parse_int
parse_int_digits [] ne d = absurd (ne refl)
parse_int_digits (c ∷ s) ne (dc, d) = ground arith

digits_value-decimal : (n : ℕ) → digits_value (decimal n) 0 ≡ some n
unfolding decimal
digits_value-decimal n = digits_value-digits (suc n) n (omega arith)

-- Every number that fits is read back from its print.
pub parse_int-decimal : (n : ℕ) → n < int64_bound → parse_int (decimal n) ≡ some (pos n)
unfolding in_range_pos
parse_int-decimal n h =
    rw (parse_int_digits (decimal n) (decimal-ne-nil n) (decimal-IsDigit n))
      (rw (digits_value-decimal n) (ground arith))
