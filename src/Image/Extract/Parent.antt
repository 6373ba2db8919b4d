-- ===== src/Image/Extract/Parent.antt =====
-- filepath.Dir and filepath.Clean of a cleaned path, for mvp/internal/image/pull.go.
use oci_container_runtime_fr.Image.Extract.Inside.{clean-cases}
use oci_container_runtime_fr.Image.Extract.Refold.{Kept, refold, IsName, Kept-IsName}
use oci_container_runtime_fr.Base.{
  ◌≡◌, refl, sym, ap, ◌∙◌, Bool, true, false, List, [], ◌∷◌, ◌++◌, reverse, foldl, foldl-append,
  append-nil, append_assoc, arith, ==_iff, All, Str, str, str_eq, join, Lacks, split_on,
  split_on-append, split_on-join, components, is_abs, clean, clean_components, clean_step,
  render_path, is_empty, All-reverse, split_last_slash, dir_name,
}

All-Lacks : (cs : List Str) → All IsName cs → All (Lacks b'/') cs
All-Lacks [] h = tt
All-Lacks (c ∷ cs) (h, hs) = (h.no_slash, All-Lacks cs hs)

first_byte : (c : Str) (rest : Str) → IsName c → is_abs (c ++ rest) ≡ false
first_byte [] rest h = absurd (cc h.filled)
first_byte (x ∷ c) rest h = let (e, k) = h.no_slash in ground (arith, ==_iff x b'/')

render_path-is_abs :
    (rooted : Bool) (cs : List Str) (rest : Str)
    → All IsName cs
    → is_abs (render_path rooted cs ++ rest) ≡ rooted
unfolding str join
render_path-is_abs true cs rest h = refl
render_path-is_abs false [] rest h = refl
render_path-is_abs false (c ∷ []) rest h = first_byte c rest h.0
render_path-is_abs false (c ∷ d ∷ cs) rest h =
    ap is_abs (
      append_assoc (c ++ str "/") (join (d ∷ cs) (str "/")) rest
      ∙ append_assoc c (str "/") (join (d ∷ cs) (str "/") ++ rest))
    ∙ first_byte c (str "/" ++ (join (d ∷ cs) (str "/") ++ rest)) h.0

-- The components of a rendered path are its components, but for empty ones and the dot.
fold_components :
    (rooted : Bool) (cs : List Str)
    → All IsName cs
    → foldl (clean_step rooted) [] (components (render_path rooted cs))
      ≡ foldl (clean_step rooted) [] cs
unfolding str split_on clean_step str_eq join
fold_components true [] h = refl
fold_components false [] h = refl
fold_components true (c ∷ cs) h =
    ap (foldl (clean_step true) []) (split_on-join b'/' c cs (All-Lacks (c ∷ cs) h))
fold_components false (c ∷ cs) h =
    ap (foldl (clean_step false) []) (split_on-join b'/' c cs (All-Lacks (c ∷ cs) h))

-- A text up to its last slash.
split_none : (n : Str) → Lacks b'/' n → split_last_slash n ≡ ([], n)
unfolding split_last_slash
split_none [] h = refl
split_none (x ∷ n) (hx, h) = rw (split_none n h) (ground (arith, ==_iff x b'/'))

slash_behind : (a : Str) → is_empty (a ++ b'/' ∷ []) ≡ false
slash_behind [] = refl
slash_behind (x ∷ a) = refl

split_at : (a n : Str) → Lacks b'/' n → split_last_slash (a ++ b'/' ∷ n) ≡ (a ++ b'/' ∷ [], n)
unfolding split_last_slash
split_at [] n h = rw (split_none n h) refl
split_at (x ∷ a) n h = rw (split_at a n h, slash_behind a) refl

-- One more component behind others.
join-last :
    (c : Str) (cs : List Str) (n : Str)
    → join ((c ∷ cs) ++ n ∷ []) (str "/") ≡ join (c ∷ cs) (str "/") ++ b'/' ∷ n
unfolding join str
join-last c [] n = append_assoc c (b'/' ∷ []) n
join-last c (d ∷ cs) n =
    ap (λ l. c ++ b'/' ∷ [] ++ l) (join-last d cs n)
    ∙ sym (append_assoc (c ++ b'/' ∷ []) (join (d ∷ cs) (b'/' ∷ [])) (b'/' ∷ n))

render_path-last :
    (rooted : Bool) (c : Str) (cs : List Str) (n : Str)
    → render_path rooted ((c ∷ cs) ++ n ∷ []) ≡ render_path rooted (c ∷ cs) ++ b'/' ∷ n
render_path-last true c cs n = ap (λ l. b'/' ∷ l) (join-last c cs n)
render_path-last false c cs n = join-last c cs n

dir_last :
    (rooted : Bool) (cs : List Str) (n : Str)
    → Lacks b'/' n
    → clean (render_path rooted cs ++ b'/' ∷ []) ≡ render_path rooted cs
    → dir_name (render_path rooted (cs ++ n ∷ [])) ≡ render_path rooted cs
unfolding dir_name clean clean_components clean_step str_eq split_on str join
dir_last true [] n k h = ap (λ p. clean p.0) (split_at [] n k)
dir_last false [] n k h = ap (λ p. clean p.0) (split_none n k)
dir_last rooted (c ∷ cs) n k h =
    ap (λ s. dir_name s) (render_path-last rooted c cs n)
    ∙ ap (λ p. clean p.0) (split_at (render_path rooted (c ∷ cs)) n k)
    ∙ h

no_more : (rooted : Bool) (l : List Str) → foldl (clean_step rooted) l (components []) ≡ l
unfolding clean_step split_on str_eq
no_more rooted l = refl

module _ (rooted : Bool) (kept : List Str) (h : Kept rooted kept) where
  names : All IsName (reverse kept)
  names = All-reverse IsName kept (Kept-IsName rooted kept h)

  pub refolded :
      foldl (clean_step rooted) [] (components (render_path rooted (reverse kept))) ≡ kept
  refolded = fold_components rooted (reverse kept) names ∙ refold rooted kept h

  pub kept-is_abs : is_abs (render_path rooted (reverse kept)) ≡ rooted
  kept-is_abs =
      ap is_abs (sym (append-nil (render_path rooted (reverse kept))))
      ∙ render_path-is_abs rooted (reverse kept) [] names

  -- A cleaned path is clean, also with a slash behind it.
  pub clean-kept : clean (render_path rooted (reverse kept)) ≡ render_path rooted (reverse kept)
  unfolding clean_components
  clean-kept =
      clean-cases (render_path rooted (reverse kept)) rooted kept-is_abs
      ∙ ap (λ l. render_path rooted (reverse l)) refolded

  clean-slash :
      clean (render_path rooted (reverse kept) ++ b'/' ∷ []) ≡ render_path rooted (reverse kept)
  unfolding clean_components
  clean-slash =
      clean-cases _ rooted (render_path-is_abs rooted (reverse kept) (b'/' ∷ []) names)
      ∙ ap (λ l. render_path rooted (reverse l))
          (ap (foldl (clean_step rooted) [])
              (split_on-append b'/' (render_path rooted (reverse kept)) [])
            ∙ foldl-append (clean_step rooted) [] (components (render_path rooted (reverse kept)))
                (components [])
            ∙ no_more rooted
                (foldl (clean_step rooted) [] (components (render_path rooted (reverse kept))))
            ∙ refolded)

  -- filepath.Dir of one more component.
  pub dir_name-last :
      (n : Str)
      → Lacks b'/' n
      → dir_name (render_path rooted (reverse kept ++ n ∷ [])) ≡ render_path rooted (reverse kept)
  dir_name-last n k = dir_last rooted (reverse kept) n k clean-slash
