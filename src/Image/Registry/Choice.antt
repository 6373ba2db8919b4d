-- ===== src/Image/Registry/Choice.antt =====
-- Which manifest of an index `Pull` of mvp/internal/image/pull.go takes.
use oci_container_runtime_fr.Image.Registry.{IndexEntry, digest_for, choose_digest}
use oci_container_runtime_fr.Base.{
  ◌≡◌, refl, ap, ◌∙◌, ◌⊎◌, inl, inr, Bool, true, false, ◌&&◌, List, [], ◌∷◌, ◌++◌, Bool-cases, All,
  Error, message, ok, err, Str, str, str_eq, is_empty, NonEmpty,
}

abbrev pub is_for : Str → IndexEntry → Bool
is_for arch m = str_eq m.os_name (str "linux") && str_eq m.architecture arch

-- The digest of the first entry for linux and an architecture.
pub record IsFirst (arch : Str) (entries : List IndexEntry) (digest : Str) : Type 0 where
  pub before : List IndexEntry
  pub entry : IndexEntry
  pub after : List IndexEntry
  pub parts : entries ≡ before ++ entry ∷ after
  pub others : All (λ m. is_for arch m ≡ false) before
  pub fits : is_for arch entry ≡ true
  pub chosen : entry.digest ≡ digest

-- No entry fits, or the first that does has an empty digest.
abbrev pub IsMissing : Str → List IndexEntry → Type 0
IsMissing arch entries = All (λ m. is_for arch m ≡ false) entries ⊎ IsFirst arch entries []

digest_for-IsFirst :
    (arch : Str) (entries : List IndexEntry)
    → (All (λ m. is_for arch m ≡ false) entries × (digest_for arch entries ≡ []))
      ⊎ IsFirst arch entries (digest_for arch entries)
unfolding digest_for
digest_for-IsFirst arch [] = inl (tt, refl)
digest_for-IsFirst arch (m ∷ rest) = elim (Bool-cases (is_for arch m)) [
  | inl fit ↦ inr (record {
    before = [];
    entry = m;
    after = rest;
    parts = refl;
    others = tt;
    fits = fit;
    chosen = rw fit refl;
  })
  | inr other ↦ elim (digest_for-IsFirst arch rest) [
    | inl (none_fits, e) ↦ inl ((other, none_fits), rw other e)
    | inr first ↦ inr (record {
      before = m ∷ first.before;
      entry = first.entry;
      after = first.after;
      parts = ap (λ l. m ∷ l) first.parts;
      others = (other, first.others);
      fits = first.fits;
      chosen = rw other first.chosen;
    })
  ]
]

empty_of : (s : Str) → is_empty s ≡ true → s ≡ []
empty_of [] h = refl
empty_of (c ∷ s) h = cc

missing :
    (arch : Str) (entries : List IndexEntry)
    → is_empty (digest_for arch entries) ≡ true
    → IsMissing arch entries
missing arch entries h = elim (digest_for-IsFirst arch entries) [
  | inl (none_fits, e) ↦ inl none_fits
  | inr first ↦ inr (record {
    before = first.before;
    entry = first.entry;
    after = first.after;
    parts = first.parts;
    others = first.others;
    fits = first.fits;
    chosen = first.chosen ∙ empty_of (digest_for arch entries) h;
  })
]

found :
    (arch : Str) (entries : List IndexEntry)
    → is_empty (digest_for arch entries) ≡ false
    → IsFirst arch entries (digest_for arch entries)
found arch entries h = elim (digest_for-IsFirst arch entries) [
  | inl (none_fits, e) ↦ absurd (cc (h, ap is_empty e))
  | inr first ↦ first
]

-- The digest is that of the first entry for linux and the host's architecture; where there is none,
-- or it is empty, that of the first entry for linux on amd64; and where this is missing or empty
-- too, there is an error. A digest that is given is not empty.
pub choose_digest_lem :
    (arch : Str) (entries : List IndexEntry)
    → ((d : Str) × (choose_digest arch entries ≡ ok d)
        × NonEmpty d
        × (IsFirst arch entries d ⊎ (IsMissing arch entries × IsFirst (str "amd64") entries d)))
      ⊎ ((e : Error) × (choose_digest arch entries ≡ err e)
          × IsMissing arch entries
          × IsMissing (str "amd64") entries)
unfolding choose_digest
choose_digest_lem arch entries = elim (Bool-cases (is_empty (digest_for arch entries))) [
  | inl gone ↦ elim (Bool-cases (is_empty (digest_for (str "amd64") entries))) [
    | inl both ↦ inr (
      message "no linux manifest in index",
      rw (gone, both) refl,
      missing arch entries gone,
      missing _ entries both,
    )
    | inr fallback ↦ inl (
      _,
      rw (gone, fallback) refl,
      fallback,
      inr (missing arch entries gone, found _ entries fallback),
    )
  ]
  | inr own ↦ inl (digest_for arch entries, rw own refl, own, inl (found arch entries own))
]
