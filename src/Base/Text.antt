-- ===== src/Base/Text.antt =====
-- Go strings as lists of bytes, and the functions of package strings that myrun calls. Literals
-- are ASCII, so their code points are their bytes.
use Prim.Native.Char.{code}
use Prim.Native.Nat.{ℕ, zero, suc, ◌+◌, ◌-◌, ◌/◌, ◌%◌}
use Prim.Native.String.{String}
use mathlib.Core.Path.{◌≡◌, refl, ap}
use mathlib.Core.Logic.{◌↔◌, ◌≢◌}
use mathlib.Core.Bool.{Bool, true, false, ◌&&◌, ◌||◌}
use mathlib.Core.Option.{Option, none, some}
use mathlib.Core.List.{List, [], ◌∷◌, ◌++◌, map, reverse}
use native.Mathlib.Omega.{arith}
use oci_container_runtime_fr.Base.Tests.{leb, ltb, ◌==◌, if◌then◌else◌}
use oci_container_runtime_fr.Base.Lists.{length, drop, All}

abbrev pub Str : Type 0
Str = List ℕ

-- A literal. It is shut, so that statements about commands stay small.
unfoldable pub str : String → Str
str String.[] = []
str (String.◌∷◌ c s) = code c ∷ str s

-- `==` on strings.
unfoldable pub str_eq : Str → Str → Bool
str_eq [] [] = true
str_eq (x ∷ xs) (y ∷ ys) = x == y && str_eq xs ys
str_eq _ _ = false

pub str_eq_iff : (a b : Str) → (str_eq a b ≡ true) ↔ (a ≡ b)
unfolding str_eq
str_eq_iff (x ∷ a) (y ∷ b) = ground (arith, str_eq_iff a b)
str_eq_iff _ _ = ground arith

pub str_eq_refl : (a : Str) → str_eq a a ≡ true
str_eq_refl a = (str_eq_iff a a).1 refl

-- strings.IndexByte: the first place of a byte.
unfoldable pub index_byte : ℕ → Str → Option ℕ
index_byte c [] = none
index_byte c (x ∷ xs) =
    if x == c then some 0 else elim (index_byte c xs) [ none ↦ none | some i ↦ some (suc i) ]

-- strings.LastIndex for a text of one byte.
unfoldable pub last_index : ℕ → Str → Option ℕ
last_index c [] = none
last_index c (x ∷ xs) = elim (last_index c xs) [
  | none ↦ if x == c then some 0 else none
  | some i ↦ some (suc i)
]

-- strings.Contains for a text of one byte.
unfoldable pub contains_byte : ℕ → Str → Bool
contains_byte c [] = false
contains_byte c (x ∷ xs) = x == c || contains_byte c xs

unfoldable pub has_prefix : Str → Str → Bool
has_prefix s [] = true
has_prefix [] (p ∷ ps) = false
has_prefix (x ∷ xs) (p ∷ ps) = x == p && has_prefix xs ps

unfoldable pub trim_prefix : Str → Str → Str
unfolding has_prefix
trim_prefix s p = if has_prefix s p then drop (length p) s else s

-- strings.Contains
unfoldable pub contains_text : Str → Str → Bool
unfolding has_prefix
contains_text [] p = has_prefix [] p
contains_text (x ∷ s) p = has_prefix (x ∷ s) p || contains_text s p

-- hex.EncodeToString
abbrev pub hex_digit : ℕ → ℕ
hex_digit n = if ltb n 10 then b'0' + n else b'a' + (n - 10)

unfoldable pub hex : Str → Str
hex [] = []
hex (c ∷ s) = hex_digit (c / 16) ∷ hex_digit (c % 16) ∷ hex s

-- strings.Join
unfoldable pub join : List Str → Str → Str
join [] sep = []
join (x ∷ []) sep = x
join (x ∷ y ∷ xs) sep = x ++ sep ++ join (y ∷ xs) sep

-- strings.ToLower on ASCII.
unfoldable pub to_lower : Str → Str
to_lower = map (λ c. if leb b'A' c && leb c b'Z' then c + 32 else c)

-- The white space of strings.TrimSpace, by the bytes of its encoding: ASCII, U+0085 and U+00A0, and
-- U+1680, U+2000 to U+200A, U+2028, U+2029, U+202F, U+205F and U+3000.
abbrev pub is_space : ℕ → Bool
is_space c = (leb 9 c && leb c 13) || c == 32

abbrev pub is_pair_space : ℕ → ℕ → Bool
is_pair_space a b = a == 194 && (b == 133 || b == 160)

abbrev pub is_triple_space : ℕ → ℕ → ℕ → Bool
is_triple_space a b c =
    (a == 225 && b == 154 && c == 128)
    || (a == 226 && b == 128 && ((leb 128 c && leb c 138) || c == 168 || c == 169 || c == 175))
    || (a == 226 && b == 129 && c == 159)
    || (a == 227 && b == 128 && c == 128)

-- How many bytes the white space has that the text begins with.
unfoldable pub space_size : Str → ℕ
space_size [] = 0
space_size (a ∷ []) = if is_space a then 1 else 0
space_size (a ∷ b ∷ []) = if is_space a then 1 else if is_pair_space a b then 2 else 0
space_size (a ∷ b ∷ c ∷ s) =
    if is_space a
    then 1
    else if is_pair_space a b
    then 2
    else if is_triple_space a b c
    then 3
    else 0

-- The same for the end of a text that is given backwards.
unfoldable pub end_space_size : Str → ℕ
end_space_size [] = 0
end_space_size (c ∷ []) = if is_space c then 1 else 0
end_space_size (c ∷ b ∷ []) = if is_space c then 1 else if is_pair_space b c then 2 else 0
end_space_size (c ∷ b ∷ a ∷ s) =
    if is_space c
    then 1
    else if is_pair_space b c
    then 2
    else if is_triple_space a b c
    then 3
    else 0

-- White space is taken away from the front; the first `k` bytes belong to one that was found.
unfoldable pub trim_by : (Str → ℕ) → ℕ → Str → Str
trim_by size k [] = []
trim_by size (suc k) (c ∷ s) = trim_by size k s
trim_by size zero (c ∷ s) =
    let n = size (c ∷ s) in let rest = trim_by size (n - 1) s in if n == 0 then c ∷ s else rest

unfoldable pub trim_space : Str → Str
unfolding trim_by
trim_space s = reverse (trim_by end_space_size 0 (reverse (trim_by space_size 0 s)))

-- The byte does not occur.
abbrev pub Lacks : ℕ → Str → Type 0
Lacks c = All (λ x. x ≢ c)

pub index_byte-append :
    (c : ℕ) (a b : Str) → Lacks c a → index_byte c (a ++ c ∷ b) ≡ some (length a)
unfolding index_byte
index_byte-append c [] b h = ground arith
index_byte-append c (x ∷ a) b (hx, h) = ground (arith, index_byte-append c a b h)

pub index_byte-none : (c : ℕ) (a : Str) → Lacks c a → index_byte c a ≡ none
unfolding index_byte
index_byte-none c [] h = refl
index_byte-none c (x ∷ a) (hx, h) = ground (arith, index_byte-none c a h)

pub last_index-none : (c : ℕ) (a : Str) → Lacks c a → last_index c a ≡ none
unfolding last_index
last_index-none c [] h = refl
last_index-none c (x ∷ a) (hx, h) = ground (arith, last_index-none c a h)

pub last_index-append :
    (c : ℕ) (a b : Str) → Lacks c b → last_index c (a ++ c ∷ b) ≡ some (length a)
unfolding last_index
last_index-append c [] b h = ground (arith, last_index-none c b h)
last_index-append c (x ∷ a) b h = ground (arith, last_index-append c a b h)

Lacks-of_last_index : (c : ℕ) (s : Str) → last_index c s ≡ none → Lacks c s
unfolding last_index
Lacks-of_last_index c [] h = tt
Lacks-of_last_index c (x ∷ s) h = (ground arith, Lacks-of_last_index c s (ground arith))

-- What the last index says: the byte stands there, and does not occur behind it.
pub last_index_split :
    (c : ℕ) (s : Str) (i : ℕ)
    → last_index c s ≡ some i
    → (drop i s ≡ c ∷ drop (suc i) s) × Lacks c (drop (suc i) s)
unfolding last_index
last_index_split c [] i h = cc
last_index_split c (x ∷ s) zero h =
    (ap (λ y. y ∷ s) (ground arith), Lacks-of_last_index c s (ground arith))
last_index_split c (x ∷ s) (suc i) h = last_index_split c s i (ground arith)

pub contains_byte-append :
    (c : ℕ) (a b : Str) → contains_byte c (a ++ b) ≡ (contains_byte c a || contains_byte c b)
unfolding contains_byte
contains_byte-append c [] b = refl
contains_byte-append c (x ∷ a) b = ground (arith, contains_byte-append c a b)

pub contains_byte-none : (c : ℕ) (a : Str) → Lacks c a → contains_byte c a ≡ false
unfolding contains_byte
contains_byte-none c [] h = refl
contains_byte-none c (x ∷ a) (hx, h) = ground (arith, contains_byte-none c a h)
