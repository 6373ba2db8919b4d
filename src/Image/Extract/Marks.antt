-- ===== src/Image/Extract/Marks.antt =====
-- The names that the whiteouts of mvp/internal/image/pull.go mark.
use oci_container_runtime_fr.Base.{
  ℕ, zero, suc, ◌≡◌, refl, sym, ap, ◌∙◌, ◌⊎◌, inl, inr, true, false, not, ◌&&◌, [], ◌∷◌, ◌++◌,
  reverse, arith, ◌==◌, ==_iff, Bool-cases, length, drop, Str, str, str_eq, str_eq_iff, has_prefix,
  trim_prefix, Lacks, is_empty, split_last_slash, drop_slashes, base_name,
}

-- The part behind the last slash has none.
last_part-Lacks : (s : Str) → Lacks b'/' (split_last_slash s).1
unfolding split_last_slash
last_part-Lacks [] = tt
last_part-Lacks (c ∷ s) = elim (Bool-cases (is_empty (split_last_slash s).0 && not (c == b'/'))) [
  | inl plain ↦ rw plain (ground (arith, ==_iff c b'/'), last_part-Lacks s)
  | inr other ↦ rw other (last_part-Lacks s)
]

base_name-cases : (name : Str) → (base_name name ≡ str "/") ⊎ Lacks b'/' (base_name name)
unfolding base_name str
base_name-cases [] = inr (λ e. omega arith, tt)
base_name-cases (x ∷ name) =
    let trimmed = reverse (drop_slashes (reverse (x ∷ name))) in
    elim (Bool-cases (is_empty trimmed)) [
      | inl none_left ↦ rw none_left (inl refl)
      | inr some_left ↦ rw some_left (inr (last_part-Lacks trimmed))
    ]

drop-Lacks : (c n : ℕ) (s : Str) → Lacks c s → Lacks c (drop n s)
drop-Lacks c zero s h = h
drop-Lacks c (suc n) [] h = h
drop-Lacks c (suc n) (x ∷ s) (hx, h) = drop-Lacks c n s h

trimmed : (s p : Str) → has_prefix s p ≡ true → trim_prefix s p ≡ drop (length p) s
unfolding trim_prefix
trimmed s p h = rw h refl

prefix_then : (s p : Str) → has_prefix s p ≡ true → s ≡ p ++ drop (length p) s
unfolding has_prefix
prefix_then s [] h = refl
prefix_then [] (p ∷ ps) h = absurd (cc h)
prefix_then (x ∷ s) (p ∷ ps) h =
    let (e, k) : (x ≡ p) × (has_prefix s ps ≡ true) = ground (arith, ==_iff x p) in
    ap (λ l. x ∷ l) (prefix_then s ps k) ∙ ap (λ y. y ∷ (ps ++ drop (length ps) s)) e

no_mark : has_prefix (str "/") (str ".wh.") ≡ false
unfolding has_prefix str
no_mark = refl

-- The name behind the mark of a whiteout.
pub whiteout-Lacks :
    (name : Str)
    → has_prefix (base_name name) (str ".wh.") ≡ true
    → Lacks b'/' (trim_prefix (base_name name) (str ".wh."))
whiteout-Lacks name h = elim (base_name-cases name) [
  | inl slash ↦ absurd (cc (h, slash, no_mark))
  | inr bare ↦
      rw (trimmed (base_name name) (str ".wh.") h)
        (drop-Lacks b'/' (length (str ".wh.")) (base_name name) bare)
]

pub whiteout-above :
    (base : Str)
    → has_prefix base (str ".wh.") ≡ true
    → str_eq base (str ".wh...") ≡ false
    → str_eq (trim_prefix base (str ".wh.")) (str "..") ≡ false
unfolding str
whiteout-above base h other =
    elim (Bool-cases (str_eq (trim_prefix base (str ".wh.")) (str ".."))) [
      | inl up ↦
          let rest =
            sym (trimmed base (str ".wh.") h)
            ∙ (str_eq_iff (trim_prefix base (str ".wh.")) (str "..")).0 up in
          let whole = prefix_then base (str ".wh.") h ∙ ap (λ l. str ".wh." ++ l) rest in
          absurd (cc (other, (str_eq_iff base (str ".wh...")).1 whole))
      | inr plain ↦ plain
    ]
