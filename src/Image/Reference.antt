-- ===== src/Image/Reference.antt =====
-- Image references, from mvp/internal/image/pull.go: `Reference`, `ParseRef` and `String`.
pub mod RoundTrip
use oci_container_runtime_fr.Base.{
  ℕ, zero, suc, ◌+◌, ◌-◌, ◌*◌, ◌/◌, ◌%◌, ◌^◌, ◌≤◌, ◌<◌, min, String, ◌≡◌, refl, sym, ap, ◌∙◌, ◌≢◌,
  ◌↔◌, ◌⊎◌, inl, inr, Bool, true, false, not, ◌&&◌, ◌||◌, Option, none, some, List, [], ◌∷◌, ◌++◌,
  map, reverse, append-nil, append_assoc, arith, ltb, leb, ◌==◌, if◌then◌else◌, ==_iff, Bool-cases,
  Option-cases, length, take, drop, length-append, length-take, take-append, drop-append,
  drop-append_suc, All, All-append, Error, message, wrap, os_error, Result, ok, err, ◌>>=◌, wrapped,
  of_option, Result-cases, Str, str, str_eq, str_eq_iff, str_eq_refl, index_byte, last_index,
  contains_byte, has_prefix, trim_prefix, join, to_lower, trim_space, Lacks, index_byte-append,
  index_byte-none, last_index-none, last_index-append, last_index_split, contains_byte-append,
  contains_byte-none, ℤ, pos, negsuc, is_positive, is_zero, decimal, format_int, digits_value,
  parse_int, int64_bound, IsDigit, decimal-IsDigit, IsDigit-Lacks, parse_int-decimal,
}

pub record Reference : Type 0 where
  pub repo : Str
  pub tag : Str

abbrev pub default_tag : Str
default_tag = str "latest"

-- The name and the tag, by the place of the last colon: a split there, unless the colon comes
-- first or a slash follows it.
unfoldable pub cut_tag : Str → Option ℕ → Str × Str
cut_tag s none = (s, default_tag)
cut_tag s (some i) =
    if ltb 0 i && not (contains_byte b'/' (drop i s))
    then (take i s, drop (suc i) s)
    else (s, default_tag)

unfoldable pub split_tag : Str → Str × Str
unfolding cut_tag
split_tag s = cut_tag s (last_index b':' s)

unfoldable pub qualify : Str → Str
qualify name = if contains_byte b'/' name then name else str "library/" ++ name

unfoldable pub parse_ref : Str → Result Reference
unfolding split_tag qualify
parse_ref [] = err (message "empty image reference")
parse_ref (c ∷ s) =
    let (name, tag) = split_tag (c ∷ s) in ok (record { repo = qualify name; tag = tag })

unfoldable pub to_string : Reference → Str
to_string r = r.repo ++ b':' ∷ r.tag
