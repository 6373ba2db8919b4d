-- ===== src/Image/Extract/Within.antt =====
-- Paths below the directory that `extractLayer` of mvp/internal/image/pull.go unpacks into.
use oci_container_runtime_fr.Image.Extract.Inside.{IsPlain, clean_step-IsPlain, join_path-two}
use oci_container_runtime_fr.Image.Extract.Refold.{Kept, foldl-Kept}
use oci_container_runtime_fr.Image.Extract.Parent.{refolded, kept-is_abs, clean-kept, dir_name-last}
use mathlib.Core.Path.{subst}
use oci_container_runtime_fr.Base.{
  ◌≡◌, refl, sym, ap, ◌∙◌, ◌⊎◌, inl, inr, Bool, true, false, List, [], ◌∷◌, ◌++◌, reverse,
  reverse-append, reverse-reverse, foldl, foldl-append, append_assoc, Bool-cases, All, All-append,
  Str, str, str_eq, join, Lacks, split_on-Lacks, All-split_on, components, is_abs, clean,
  clean_components, clean_step, render_path, NonEmpty, clean-NonEmpty, All-reverse, join_path,
  dir_name,
}

-- The path has the directory's components, and plain ones behind them: as a text it names the
-- directory itself or something below it.
abbrev pub IsWithin : Str → Str → Type 0
IsWithin dst path =
    (ns : List Str) × All IsPlain ns
    × (path ≡ render_path (is_abs dst) (clean_components (is_abs dst) (components dst) ++ ns))

-- The components of a directory and of what is below it, the last one first.
abbrev pub kept_of : Str → List Str → List Str
kept_of dst ns = reverse ns ++ foldl (clean_step (is_abs dst)) [] (components dst)

plain-Kept :
    (rooted : Bool) (ns kept : List Str)
    → All IsPlain ns
    → Kept rooted kept
    → Kept rooted (ns ++ kept)
plain-Kept rooted [] kept h k = k
plain-Kept true (n ∷ ns) kept (h, hs) k = (h, plain-Kept true ns kept hs k)
plain-Kept false (n ∷ ns) kept (h, hs) k = inl (h, plain-Kept false ns kept hs k)

start-Kept : (rooted : Bool) → Kept rooted []
start-Kept true = tt
start-Kept false = tt

pub kept_of-Kept : (dst : Str) (ns : List Str) → All IsPlain ns → Kept (is_abs dst) (kept_of dst ns)
kept_of-Kept dst ns h =
    plain-Kept (is_abs dst) (reverse ns) _ (All-reverse IsPlain ns h) (
      foldl-Kept (is_abs dst) (components dst) [] (All-split_on b'/' dst) (start-Kept (is_abs dst)))

pub reverse-kept_of :
    (dst : Str) (ns : List Str)
    → clean_components (is_abs dst) (components dst) ++ ns ≡ reverse (kept_of dst ns)
unfolding clean_components
reverse-kept_of dst ns = sym (
    reverse-append (reverse ns) (foldl (clean_step (is_abs dst)) [] (components dst))
    ∙ ap (λ l. reverse (foldl (clean_step (is_abs dst)) [] (components dst)) ++ l)
        (reverse-reverse ns))

-- Names and a last one.
pub split-IsPlain :
    (ns : List Str)
    → All IsPlain ns
    → (ns ≡ [])
      ⊎ ((front : List Str) × (n : Str) × All IsPlain front × IsPlain n × (ns ≡ front ++ n ∷ []))
split-IsPlain [] h = inl refl
split-IsPlain (n ∷ ns) (h, hs) = elim (split-IsPlain ns hs) [
  | inl e ↦ inr ([], n, tt, h, ap (λ l. n ∷ l) e)
  | inr (front, m, k, l, e) ↦ inr (n ∷ front, m, (h, k), l, ap (λ l. n ∷ l) e)
]

alone : (dir : Str) → NonEmpty dir → join_path (dir ∷ [] ∷ []) ≡ clean dir
unfolding join_path join
alone [] h = absurd (cc h)
alone (x ∷ dir) h = refl

module _ (dst : Str) where
  abbrev rooted : Bool
  rooted = is_abs dst

  abbrev top : List Str
  top = clean_components rooted (components dst)

  -- The directory of a path below the top.
  pub parent_path :
      (front : List Str) (n : Str)
      → All IsPlain front
      → IsPlain n
      → dir_name (render_path rooted (top ++ (front ++ n ∷ [])))
        ≡ render_path rooted (reverse (kept_of dst front))
  parent_path front n h k =
      ap (λ l. dir_name (render_path rooted l))
        (sym (append_assoc top front (n ∷ [])) ∙ ap (λ l. l ++ n ∷ []) (reverse-kept_of dst front))
      ∙ dir_name-last rooted (kept_of dst front) (kept_of-Kept dst front h) n k.no_slash

  within :
      (ns : List Str)
      → All IsPlain ns
      → IsWithin dst (render_path rooted (reverse (kept_of dst ns)))
  within ns h = (ns, h, ap (render_path rooted) (sym (reverse-kept_of dst ns)))

  pub parent-IsWithin :
      (front : List Str) (n path : Str)
      → All IsPlain front
      → IsPlain n
      → path ≡ render_path rooted (top ++ (front ++ n ∷ []))
      → IsWithin dst (dir_name path)
  parent-IsWithin front n path h k e = (
    front,
    h,
    ap dir_name e
        ∙ parent_path front n h k
        ∙ ap (render_path rooted) (sym (reverse-kept_of dst front)),
  )

  dir-NonEmpty :
      (front : List Str)
      → All IsPlain front
      → NonEmpty (render_path rooted (reverse (kept_of dst front)))
  dir-NonEmpty front h =
      let e = clean-kept rooted (kept_of dst front) (kept_of-Kept dst front h) in
      subst NonEmpty e (clean-NonEmpty (render_path rooted (reverse (kept_of dst front))))

  -- One more name behind a directory, cleaned.
  one_more :
      (front : List Str) (name : Str)
      → All IsPlain front
      → Lacks b'/' name
      → NonEmpty name
      → join_path (render_path rooted (reverse (kept_of dst front)) ∷ name ∷ [])
        ≡ render_path rooted (reverse (clean_step rooted (kept_of dst front) name))
  unfolding clean_components
  one_more front name h k filled =
      let kept = kept_of-Kept dst front h in
      let dir = render_path rooted (reverse (kept_of dst front)) in
      join_path-two dir name (dir-NonEmpty front h) filled
      ∙ rw (kept-is_abs rooted (kept_of dst front) kept, split_on-Lacks b'/' name k)
          (ap (λ l. render_path rooted (reverse l))
            (foldl-append (clean_step rooted) [] (components dir) (name ∷ [])
              ∙ ap (λ l. clean_step rooted l name) (refolded rooted (kept_of dst front) kept)))

  further :
      (front : List Str) (name : Str)
      → All IsPlain front
      → IsPlain name
      → IsWithin dst (render_path rooted (reverse (clean_step rooted (kept_of dst front) name)))
  further front name h plain =
      rw
        (clean_step-IsPlain rooted (kept_of dst front) name plain
          ∙ sym (
              ap (λ l. l ++ foldl (clean_step rooted) [] (components dst))
                (reverse-append front (name ∷ []))))
        (within (front ++ name ∷ []) (All-append IsPlain front (name ∷ []) h (plain, tt)))

  -- What a directory below the top and one more name make, the name of the directory above excepted.
  pub beside :
      (front : List Str) (name : Str)
      → All IsPlain front
      → Lacks b'/' name
      → str_eq name (str "..") ≡ false
      → IsWithin dst (join_path (render_path rooted (reverse (kept_of dst front)) ∷ name ∷ []))
  unfolding clean_step str_eq
  beside front [] h k other =
      rw
        (alone (render_path rooted (reverse (kept_of dst front))) (dir-NonEmpty front h)
          ∙ clean-kept rooted (kept_of dst front) (kept_of-Kept dst front h))
        (within front h)
  beside front (x ∷ name) h k other = elim (Bool-cases (str_eq (x ∷ name) (str "."))) [
    | inl here ↦ rw (one_more front (x ∷ name) h k refl) (rw here (within front h))
    | inr plain ↦ rw (one_more front (x ∷ name) h k refl) (
        further front (x ∷ name) h
          (record { filled = refl; not_here = plain; not_above = other; no_slash = k }))
  ]
