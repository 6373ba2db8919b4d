-- ===== src/Base/Path.antt =====
-- Package path/filepath on Linux: Clean, Join, Dir, Base and IsAbs.
use mathlib.Core.Bool.{Bool, true, false, not, ◌&&◌, ◌||◌}
use mathlib.Core.List.{List, [], ◌∷◌, reverse, foldl}
use oci_container_runtime_fr.Base.Tests.{Bool-cases, ◌==◌, if◌then◌else◌}
use oci_container_runtime_fr.Base.Lists.{All, All-reverse}
use mathlib.Core.Logic.{inl, inr}
use mathlib.Core.Path.{◌≡◌, refl}
use oci_container_runtime_fr.Base.Text.{Str, str, str_eq, join}
use oci_container_runtime_fr.Base.Split.{split_on}

-- The first component, and the components behind each slash.
abbrev pub components : Str → List Str
components = split_on b'/'

abbrev pub is_abs : Str → Bool
is_abs [] = false
is_abs (c ∷ s) = c == b'/'

-- One component onto the reversed components kept so far; `rooted` is a leading slash.
unfoldable pub clean_parent : Bool → List Str → List Str
clean_parent true [] = []
clean_parent false [] = str ".." ∷ []
clean_parent rooted (c ∷ kept) = if str_eq c (str "..") then str ".." ∷ c ∷ kept else kept

unfoldable pub clean_step : Bool → List Str → Str → List Str
unfolding clean_parent
clean_step rooted kept c =
    if str_eq c [] || str_eq c (str ".")
    then kept
    else if str_eq c (str "..")
    then clean_parent rooted kept
    else c ∷ kept

-- The components of a cleaned path.
unfoldable pub clean_components : Bool → List Str → List Str
unfolding clean_step
clean_components rooted cs = reverse (foldl (clean_step rooted) [] cs)

abbrev pub render_path : Bool → List Str → Str
render_path true cs = b'/' ∷ join cs (str "/")
render_path false [] = str "."
render_path false (c ∷ cs) = join (c ∷ cs) (str "/")

-- filepath.Clean
unfoldable pub clean : Str → Str
unfolding clean_components
clean s = render_path (is_abs s) (clean_components (is_abs s) (components s))

abbrev pub is_empty : Str → Bool
is_empty [] = true
is_empty (c ∷ s) = false

abbrev pub drop_empty : List Str → List Str
drop_empty [] = []
drop_empty (s ∷ rest) = if is_empty s then drop_empty rest else s ∷ drop_empty rest

abbrev pub join_parts : List Str → Str
join_parts [] = []
join_parts (s ∷ rest) = clean (join (s ∷ rest) (str "/"))

-- filepath.Join
unfoldable pub join_path : List Str → Str
join_path parts = join_parts (drop_empty parts)

-- Up to the last slash, and behind it.
unfoldable pub split_last_slash : Str → Str × Str
split_last_slash [] = ([], [])
split_last_slash (c ∷ s) =
    let (front, back) = split_last_slash s in
    if is_empty front && not (c == b'/') then ([], c ∷ back) else (c ∷ front, back)

-- filepath.Dir: what stands up to the last slash, cleaned.
unfoldable pub dir_name : Str → Str
unfolding split_last_slash
dir_name s = clean (split_last_slash s).0

-- Without the slashes at the end; the text is reversed.
abbrev pub drop_slashes : Str → Str
drop_slashes [] = []
drop_slashes (c ∷ s) = let rest = drop_slashes s in if c == b'/' then rest else c ∷ s

-- filepath.Base: the last element, without the slashes behind it.
unfoldable pub base_name : Str → Str
unfolding split_last_slash
base_name s =
    if is_empty s
    then str "."
    else let trimmed = reverse (drop_slashes (reverse s)) in
      if is_empty trimmed then str "/" else (split_last_slash trimmed).1

abbrev pub NonEmpty : Str → Type 0
NonEmpty s = is_empty s ≡ false

clean_parent-NonEmpty :
    (rooted : Bool) (kept : List Str) → All NonEmpty kept → All NonEmpty (clean_parent rooted kept)
unfolding clean_parent str
clean_parent-NonEmpty true [] h = tt
clean_parent-NonEmpty false [] h = (refl, tt)
clean_parent-NonEmpty rooted (c ∷ kept) h = elim (Bool-cases (str_eq c (str ".."))) [
  | inl t ↦ rw t (refl, h)
  | inr t ↦ rw t h.1
]

clean_step-NonEmpty :
    (rooted : Bool) (kept : List Str) (c : Str)
    → All NonEmpty kept
    → All NonEmpty (clean_step rooted kept c)
unfolding str_eq clean_step
clean_step-NonEmpty rooted kept [] h = h
clean_step-NonEmpty rooted kept (x ∷ c) h = elim (Bool-cases (str_eq (x ∷ c) (str "."))) [
  | inl dot ↦ rw (dot, clean_step) h
  | inr other ↦ elim (Bool-cases (str_eq (x ∷ c) (str ".."))) [
    | inl parent ↦ rw (other, parent, clean_step) (clean_parent-NonEmpty rooted kept h)
    | inr plain ↦ rw (other, plain, clean_step) (refl, h)
  ]
]

clean_fold-NonEmpty :
    (rooted : Bool) (cs kept : List Str)
    → All NonEmpty kept
    → All NonEmpty (foldl (clean_step rooted) kept cs)
clean_fold-NonEmpty rooted [] kept h = h
clean_fold-NonEmpty rooted (c ∷ cs) kept h =
    clean_fold-NonEmpty rooted cs (clean_step rooted kept c) (clean_step-NonEmpty rooted kept c h)

join-NonEmpty : (c : Str) (cs : List Str) (sep : Str) → NonEmpty c → NonEmpty (join (c ∷ cs) sep)
unfolding join
join-NonEmpty [] cs sep h = cc
join-NonEmpty (x ∷ c) [] sep h = refl
join-NonEmpty (x ∷ c) (d ∷ cs) sep h = refl

render_path-NonEmpty :
    (rooted : Bool) (cs : List Str) → All NonEmpty cs → NonEmpty (render_path rooted cs)
unfolding str
render_path-NonEmpty true cs h = refl
render_path-NonEmpty false [] h = refl
render_path-NonEmpty false (c ∷ cs) h = join-NonEmpty c cs (str "/") h.0

-- A cleaned path is not empty.
pub clean-NonEmpty : (s : Str) → NonEmpty (clean s)
unfolding clean
clean-NonEmpty s = render_path-NonEmpty (is_abs s) _ (
    unfold clean_components in
    All-reverse NonEmpty _ (clean_fold-NonEmpty (is_abs s) (components s) [] tt))

-- A join with a part that is not empty is not empty.
pub join_path-NonEmpty : (a b : Str) → NonEmpty b → NonEmpty (join_path (a ∷ b ∷ []))
unfolding join_path
join_path-NonEmpty a b h = elim (Bool-cases (is_empty a)) [
  | inl t ↦ rw (t, h) (clean-NonEmpty _)
  | inr t ↦ rw (t, h) (clean-NonEmpty _)
]
