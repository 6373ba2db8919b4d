-- ===== src/Image/Extract/Inside.antt =====
-- Where `extractLayer` of mvp/internal/image/pull.go writes an entry that it keeps.
use oci_container_runtime_fr.Image.Extract.{is_kept, target_of}
use oci_container_runtime_fr.Base.{
  ◌≡◌, refl, sym, ap, ◌∙◌, ◌⊎◌, inl, inr, Bool, true, false, List, [], ◌∷◌, ◌++◌, reverse,
  reverse-append, reverse-reverse, foldl, foldl-append, append-nil, append_assoc, ◌==◌, Bool-cases,
  All, Str, str, str_eq, str_eq_iff, has_prefix, join, Lacks, split_on, split_on-append,
  split_on-join, All-split_on, components, is_abs, clean, clean_components, clean_step,
  clean_parent, render_path, is_empty, NonEmpty, clean-NonEmpty, All-reverse, join_path,
}

-- The name of one file or directory, which names neither its own directory nor the one above.
pub record IsPlain (c : Str) : Type 0 where
  pub filled : is_empty c ≡ false
  pub not_here : str_eq c (str ".") ≡ false
  pub not_above : str_eq c (str "..") ≡ false
  pub no_slash : Lacks b'/' c

-- The components kept from a path that does not start with a slash, the last one first: plain names,
-- below them steps upwards.
abbrev pub Shaped : List Str → Type 0
Shaped [] = Unit
Shaped (c ∷ kept) = (IsPlain c × Shaped kept) ⊎ ((c ≡ str "..") × All (λ d. d ≡ str "..") kept)

pub clean_step-IsPlain :
    (rooted : Bool) (kept : List Str) (c : Str) → IsPlain c → clean_step rooted kept c ≡ c ∷ kept
unfolding clean_step str_eq
clean_step-IsPlain rooted kept [] h = absurd (cc h.filled)
clean_step-IsPlain rooted kept (x ∷ c) h = rw (h.not_here, h.not_above) refl

pub foldl-IsPlain :
    (rooted : Bool) (kept cs : List Str)
    → All IsPlain cs
    → foldl (clean_step rooted) kept cs ≡ reverse cs ++ kept
foldl-IsPlain rooted kept [] h = refl
foldl-IsPlain rooted kept (c ∷ cs) (h, hs) = rw (clean_step-IsPlain rooted kept c h) (
    foldl-IsPlain rooted (c ∷ kept) cs hs
    ∙ sym (rw (reverse-append (c ∷ []) cs) (append_assoc (reverse cs) (c ∷ []) kept)))

clean_parent-Shaped : (kept : List Str) → Shaped kept → Shaped (clean_parent false kept)
unfolding clean_parent
clean_parent-Shaped [] h = inr (refl, tt)
clean_parent-Shaped (c ∷ kept) h = elim (Bool-cases (str_eq c (str ".."))) [
  | inl up ↦ rw up (elim h [
    | inl (plain, k) ↦ absurd (cc (up, plain.not_above))
    | inr (e, dots) ↦ inr (refl, (e, dots))
  ])
  | inr other ↦ rw other (elim h [
    | inl (plain, k) ↦ k
    | inr (e, dots) ↦ absurd (cc ((str_eq_iff c (str "..")).1 e, other))
  ])
]

clean_step-Shaped :
    (kept : List Str) (c : Str) → Lacks b'/' c → Shaped kept → Shaped (clean_step false kept c)
unfolding clean_step str_eq
clean_step-Shaped kept [] h k = k
clean_step-Shaped kept (x ∷ c) h k = elim (Bool-cases (str_eq (x ∷ c) (str "."))) [
  | inl here ↦ rw here k
  | inr other ↦ elim (Bool-cases (str_eq (x ∷ c) (str ".."))) [
    | inl up ↦ rw (other, up) (clean_parent-Shaped kept k)
    | inr plain ↦
        rw (other, plain)
          (inl (record { filled = refl; not_here = other; not_above = plain; no_slash = h }, k))
  ]
]

pub foldl-Shaped :
    (cs kept : List Str)
    → All (Lacks b'/') cs
    → Shaped kept
    → Shaped (foldl (clean_step false) kept cs)
foldl-Shaped [] kept h k = k
foldl-Shaped (c ∷ cs) kept (h, hs) k =
    foldl-Shaped cs (clean_step false kept c) hs (clean_step-Shaped kept c h k)

-- Steps upwards in front of one more start with one.
starts_upwards :
    (ups : List Str)
    → All (λ d. d ≡ str "..") ups
    → (rest : List Str) × (ups ++ str ".." ∷ [] ≡ str ".." ∷ rest)
starts_upwards [] h = ([], refl)
starts_upwards (d ∷ ups) (e, h) = (ups ++ str ".." ∷ [], ap (λ d. d ∷ (ups ++ str ".." ∷ [])) e)

-- Such components are all plain, or the path starts upwards.
Shaped-cases :
    (kept : List Str)
    → Shaped kept
    → All IsPlain kept ⊎ ((rest : List Str) × (reverse kept ≡ str ".." ∷ rest))
Shaped-cases [] h = inl tt
Shaped-cases (c ∷ kept) (inl (plain, h)) = elim (Shaped-cases kept h) [
  | inl all ↦ inl (plain, all)
  | inr (rest, e) ↦ inr (rest ++ c ∷ [], rw (reverse-append (c ∷ []) kept, e) refl)
]
Shaped-cases (c ∷ kept) (inr (e, dots)) =
    let (rest, found) = starts_upwards (reverse kept) (All-reverse _ kept dots) in
    inr (rest, rw (reverse-append (c ∷ []) kept, e) found)

upwards-has_prefix :
    (rest : List Str) → has_prefix (render_path false (str ".." ∷ rest)) (str "..") ≡ true
unfolding str join has_prefix
upwards-has_prefix [] = refl
upwards-has_prefix (d ∷ rest) = refl

upwards-is_kept : (rest : List Str) → is_kept (render_path false (str ".." ∷ rest)) ≡ false
unfolding is_kept
upwards-is_kept rest = rw (upwards-has_prefix rest) refl

pub rooted-is_kept : (cs : List Str) → is_kept (render_path true cs) ≡ false
unfolding is_kept str has_prefix
rooted-is_kept cs = refl

-- A relative path that is kept has only plain components, or none.
pub kept-IsPlain :
    (cs : List Str)
    → All (Lacks b'/') cs
    → is_kept (render_path false (clean_components false cs)) ≡ true
    → All IsPlain (clean_components false cs)
unfolding clean_components
kept-IsPlain cs hs h = elim (Shaped-cases _ (foldl-Shaped cs [] hs tt)) [
  | inl all ↦ All-reverse IsPlain _ all
  | inr (rest, e) ↦ absurd (cc (h, e, upwards-is_kept rest))
]

pub All-Lacks : (ns : List Str) → All IsPlain ns → All (Lacks b'/') ns
All-Lacks [] h = tt
All-Lacks (n ∷ ns) (h, hs) = (h.no_slash, All-Lacks ns hs)

-- The components of such a path, behind those of another.
pub clean-under :
    (rooted : Bool) (cs ns : List Str)
    → All IsPlain ns
    → clean_components rooted (cs ++ components (render_path false ns))
      ≡ clean_components rooted cs ++ ns
unfolding clean_components str clean_step str_eq split_on
clean-under rooted cs [] h =
    rw (foldl-append (clean_step rooted) [] cs (str "." ∷ [])) (sym (append-nil _))
clean-under rooted cs (n ∷ ns) h =
    rw
      (
        split_on-join b'/' n ns (All-Lacks (n ∷ ns) h),
        foldl-append (clean_step rooted) [] cs (n ∷ ns),
        foldl-IsPlain rooted (foldl (clean_step rooted) [] cs) (n ∷ ns) h,
        reverse-append (reverse (n ∷ ns)) (foldl (clean_step rooted) [] cs),
        reverse-reverse (n ∷ ns),
      )
      refl

pub clean-cases :
    (s : Str) (rooted : Bool)
    → is_abs s ≡ rooted
    → clean s ≡ render_path rooted (clean_components rooted (components s))
unfolding clean
clean-cases s rooted h = rw h refl

pub join-two : (a b : Str) → join (a ∷ b ∷ []) (str "/") ≡ a ++ b'/' ∷ b
unfolding join str
join-two a b = append_assoc a (b'/' ∷ []) b

-- A join of two parts that are not empty.
pub join_path-two :
    (a b : Str)
    → NonEmpty a
    → NonEmpty b
    → join_path (a ∷ b ∷ [])
      ≡ render_path (is_abs a) (clean_components (is_abs a) (components a ++ components b))
unfolding join_path
join_path-two [] b ha hb = absurd (cc ha)
join_path-two (x ∷ a) b ha hb =
    rw hb (ap clean (join-two (x ∷ a) b))
    ∙ clean-cases ((x ∷ a) ++ b'/' ∷ b) (x == b'/') refl
    ∙ ap (λ l. render_path (x == b'/') (clean_components (x == b'/') l))
        (split_on-append b'/' (x ∷ a) b)

-- The same with the name's own components.
pub target-IsPlain :
    (dst name : Str)
    → NonEmpty dst
    → is_kept (clean name) ≡ true
    → (ns : List Str) × All IsPlain ns
      × (target_of dst (clean name)
          ≡ render_path (is_abs dst) (clean_components (is_abs dst) (components dst) ++ ns))
      × (clean name ≡ render_path false ns)
unfolding target_of
target-IsPlain dst name filled h = elim (Bool-cases (is_abs name)) [
  | inl rooted ↦ absurd (
      cc (
        h,
        ap is_kept (clean-cases name true rooted),
        rooted-is_kept (clean_components true (components name)),
      ))
  | inr relative ↦
      let same = clean-cases name false relative in
      let plain = kept-IsPlain (components name) (All-split_on b'/' name) (cc (h, same)) in
      (
        _,
        plain,
        join_path-two dst (clean name) filled (clean-NonEmpty name)
            ∙ rw same
                (ap (render_path (is_abs dst)) (clean-under (is_abs dst) (components dst) _ plain)),
        same,
      )
]

-- The name of an entry that is not skipped has plain components only, and the path that is written
-- has those of the target directory in front of them, so it lies in that directory.
pub target_inside :
    (dst name : Str)
    → NonEmpty dst
    → is_kept (clean name) ≡ true
    → (ns : List Str) × All IsPlain ns
      × (target_of dst (clean name)
          ≡ render_path (is_abs dst) (clean_components (is_abs dst) (components dst) ++ ns))
target_inside dst name filled h =
    let (ns, plain, e, _) = target-IsPlain dst name filled h in (ns, plain, e)
