-- ===== src/Image/Extract/Refold.antt =====
-- Cleaned paths, taken apart and cleaned again, for mvp/internal/image/pull.go.
use oci_container_runtime_fr.Image.Extract.Inside.{
  IsPlain, Shaped, clean_step-IsPlain, foldl-IsPlain, foldl-Shaped,
}
use oci_container_runtime_fr.Base.{
  ◌≡◌, refl, ◌∙◌, inl, inr, Bool, true, false, List, [], ◌∷◌, reverse, reverse-append,
  reverse-reverse, foldl, foldl-append, append-nil, arith, Bool-cases, All, Str, str, str_eq, Lacks,
  clean_step, clean_parent, NonEmpty, All-reverse,
}

-- The components kept, the last one first.
abbrev pub Kept : Bool → List Str → Type 0
Kept true kept = All IsPlain kept
Kept false kept = Shaped kept

above_step :
    (kept : List Str)
    → All (λ d. d ≡ str "..") kept
    → clean_step false kept (str "..") ≡ str ".." ∷ kept
unfolding clean_step clean_parent str str_eq
above_step [] h = refl
above_step (d ∷ kept) (e, h) = rw e refl

Shaped-step : (c : Str) (kept : List Str) → Shaped (c ∷ kept) → clean_step false kept c ≡ c ∷ kept
Shaped-step c kept (inl (plain, h)) = clean_step-IsPlain false kept c plain
Shaped-step c kept (inr (e, dots)) = rw e (above_step kept dots)

Shaped-rest : (c : Str) (kept : List Str) → Shaped (c ∷ kept) → Shaped kept
Shaped-rest c kept (inl (plain, h)) = h
Shaped-rest c [] (inr (e, dots)) = tt
Shaped-rest c (d ∷ kept) (inr (e, dots)) = inr dots

Shaped-refold : (kept : List Str) → Shaped kept → foldl (clean_step false) [] (reverse kept) ≡ kept
Shaped-refold [] h = refl
Shaped-refold (c ∷ kept) h =
    rw
      (
        reverse-append (c ∷ []) kept,
        foldl-append (clean_step false) [] (reverse kept) (c ∷ []),
        Shaped-refold kept (Shaped-rest c kept h),
      )
      (Shaped-step c kept h)

-- Components that were kept are kept again.
pub refold :
    (rooted : Bool) (kept : List Str)
    → Kept rooted kept
    → foldl (clean_step rooted) [] (reverse kept) ≡ kept
refold false kept h = Shaped-refold kept h
refold true kept h =
    foldl-IsPlain true [] (reverse kept) (All-reverse IsPlain kept h)
    ∙ rw (append-nil (reverse (reverse kept)), reverse-reverse kept) refl

clean_parent-IsPlain : (kept : List Str) → All IsPlain kept → All IsPlain (clean_parent true kept)
unfolding clean_parent
clean_parent-IsPlain [] h = tt
clean_parent-IsPlain (c ∷ kept) (plain, h) = rw plain.not_above h

clean_step-Kept :
    (kept : List Str) (c : Str)
    → Lacks b'/' c
    → All IsPlain kept
    → All IsPlain (clean_step true kept c)
unfolding clean_step str_eq
clean_step-Kept kept [] h k = k
clean_step-Kept kept (x ∷ c) h k = elim (Bool-cases (str_eq (x ∷ c) (str "."))) [
  | inl here ↦ rw here k
  | inr other ↦ elim (Bool-cases (str_eq (x ∷ c) (str ".."))) [
    | inl up ↦ rw (other, up) (clean_parent-IsPlain kept k)
    | inr plain ↦
        rw (other, plain)
          (record { filled = refl; not_here = other; not_above = plain; no_slash = h }, k)
  ]
]

pub foldl-Kept :
    (rooted : Bool) (cs kept : List Str)
    → All (Lacks b'/') cs
    → Kept rooted kept
    → Kept rooted (foldl (clean_step rooted) kept cs)
foldl-Kept false cs kept h k = foldl-Shaped cs kept h k
foldl-Kept true [] kept h k = k
foldl-Kept true (c ∷ cs) kept (h, hs) k =
    foldl-Kept true cs (clean_step true kept c) hs (clean_step-Kept kept c h k)

-- The name of a file, a directory or the directory above.
pub record IsName (c : Str) : Type 0 where
  pub filled : NonEmpty c
  pub no_slash : Lacks b'/' c

above-IsName : (c : Str) → c ≡ str ".." → IsName c
unfolding str
above-IsName c e =
    rw e (record { filled = refl; no_slash = (λ h. omega arith, (λ h. omega arith, tt)) })

Shaped-IsName : (kept : List Str) → Shaped kept → All IsName kept
Shaped-IsName [] h = tt
Shaped-IsName (c ∷ kept) (inl (plain, h)) =
    (record { filled = plain.filled; no_slash = plain.no_slash }, Shaped-IsName kept h)
Shaped-IsName (c ∷ kept) (inr (e, dots)) =
    (above-IsName c e, Shaped-IsName kept (Shaped-rest c kept (inr (e, dots))))

pub Kept-IsName : (rooted : Bool) (kept : List Str) → Kept rooted kept → All IsName kept
Kept-IsName false kept h = Shaped-IsName kept h
Kept-IsName true [] h = tt
Kept-IsName true (c ∷ kept) (plain, h) =
    (record { filled = plain.filled; no_slash = plain.no_slash }, Kept-IsName true kept h)
