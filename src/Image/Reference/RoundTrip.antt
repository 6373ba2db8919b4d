-- ===== src/Image/Reference/RoundTrip.antt =====
-- Parsed references are canonical, and a canonical reference is read back from its print.
use oci_container_runtime_fr.Image.Reference.{
  Reference, cut_tag, split_tag, qualify, parse_ref, to_string,
}
use oci_container_runtime_fr.Base.{
  ℕ, suc, ◌≡◌, refl, inl, inr, true, false, not, ◌&&◌, Option, none, some, [], ◌∷◌, ◌++◌, arith,
  ltb, Bool-cases, length, drop, take-append, drop-append, drop-append_suc, ok, Str, str,
  last_index, contains_byte, Lacks, last_index-append, last_index_split, contains_byte-append,
}

-- A repository with a namespace, and a tag that no split can cut again.
pub record IsCanonical (r : Reference) : Type 0 where
  pub namespaced : contains_byte b'/' r.repo ≡ true
  pub tag_has_no_colon : Lacks b':' r.tag
  pub tag_has_no_slash : contains_byte b'/' r.tag ≡ false

contains_slash-library : contains_byte b'/' (str "library/") ≡ true
unfolding contains_byte str
contains_slash-library = refl

qualify_lem : (name : Str) → contains_byte b'/' (qualify name) ≡ true
unfolding qualify
qualify_lem name =
    ground (arith, contains_byte-append b'/' (str "library/") name, contains_slash-library)

abbrev IsTag : Str → Type 0
IsTag t = Lacks b':' t × (contains_byte b'/' t ≡ false)

IsTag-latest : IsTag (str "latest")
unfolding str contains_byte
IsTag-latest = ground arith

IsTag-behind :
    (s : Str) (i : ℕ)
    → last_index b':' s ≡ some i
    → contains_byte b'/' (drop i s) ≡ false
    → IsTag (drop (suc i) s)
unfolding contains_byte
IsTag-behind s i e h = let (at, behind) = last_index_split b':' s i e in (behind, rw at at h)

cut_tag-IsTag : (s : Str) (o : Option ℕ) → last_index b':' s ≡ o → IsTag (cut_tag s o).1
unfolding cut_tag
cut_tag-IsTag s none e = IsTag-latest
cut_tag-IsTag s (some i) e = elim (Bool-cases (ltb 0 i && not (contains_byte b'/' (drop i s)))) [
  | inl t ↦ rw t (IsTag-behind s i e (ground arith))
  | inr t ↦ rw t IsTag-latest
]

split_tag-IsTag : (s : Str) → IsTag (split_tag s).1
unfolding split_tag
split_tag-IsTag s = cut_tag-IsTag s (last_index b':' s) refl

pub parse_ref-IsCanonical : (s : Str) {r : Reference} → parse_ref s ≡ ok r → IsCanonical r
unfolding parse_ref
parse_ref-IsCanonical [] h = cc
parse_ref-IsCanonical (c ∷ s) {r} h =
    let (colon, slash) = split_tag-IsTag (c ∷ s) in
    ground (arith, qualify_lem (split_tag (c ∷ s)).0)

cut_tag-append :
    (repo tag : Str)
    → contains_byte b'/' repo ≡ true
    → IsTag tag
    → cut_tag (repo ++ b':' ∷ tag) (some (length repo)) ≡ (repo, tag)
unfolding cut_tag contains_byte
cut_tag-append [] tag r t = cc
cut_tag-append (c ∷ repo) tag r (colon, slash) =
    rw (drop-append repo (b':' ∷ tag), slash, take-append repo, drop-append_suc repo) (ground arith)

split_tag-append :
    (repo tag : Str)
    → contains_byte b'/' repo ≡ true
    → IsTag tag
    → split_tag (repo ++ b':' ∷ tag) ≡ (repo, tag)
unfolding split_tag
split_tag-append repo tag r t =
    rw (last_index-append b':' repo tag t.0) (cut_tag-append repo tag r t)

parse_ref-append :
    (repo tag : Str)
    → contains_byte b'/' repo ≡ true
    → IsTag tag
    → parse_ref (repo ++ b':' ∷ tag) ≡ ok (record { repo = repo; tag = tag })
unfolding parse_ref contains_byte
parse_ref-append [] tag r t = cc
parse_ref-append (c ∷ repo) tag r t = rw (split_tag-append (c ∷ repo) tag r t) (rw r)

-- The print of a canonical reference is read back as that reference.
pub parse_ref-to_string : (r : Reference) → IsCanonical r → parse_ref (to_string r) ≡ ok r
unfolding to_string
parse_ref-to_string r v =
    parse_ref-append r.repo r.tag v.namespaced (v.tag_has_no_colon, v.tag_has_no_slash)

-- Reading the print of what was read gives the same reference, for every text that is accepted.
pub parse_ref_stable :
    (s : Str) {r : Reference} → parse_ref s ≡ ok r → parse_ref (to_string r) ≡ ok r
parse_ref_stable s {r} h = parse_ref-to_string r (parse_ref-IsCanonical s h)
