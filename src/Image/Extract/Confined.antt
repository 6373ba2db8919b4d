-- ===== src/Image/Extract/Confined.antt =====
-- What the unpacking of a layer, `extractLayer` of mvp/internal/image/pull.go, touches.
use oci_container_runtime_fr.Image.Extract.{
  is_kept, target_of, whiteout_of, copy, extract_file, replace_with, extract_kind, extract_named,
  extract_entry, extract_entries,
}
use oci_container_runtime_fr.Image.Extract.Marks.{whiteout-Lacks, whiteout-above}
use oci_container_runtime_fr.Image.Extract.Inside.{IsPlain, target-IsPlain}
use oci_container_runtime_fr.Image.Extract.Within.{
  IsWithin, split-IsPlain, parent-IsWithin, parent_path, beside,
}
use oci_container_runtime_fr.Sys.{
  Call, remove, remove_all, make_dir_all, EntryKind, directory, regular, symbolic_link, hard_link,
  other_kind, Entry, symlink, link, create_file, copy_into, close_file, Trace, Oracle, perform,
  NewCalls, Makes, Makes-perform, Makes-pure, Makes-raise, Makes-lift, Makes-wrapping,
  Makes-ignoring, Makes-on_error, Makes-bind, Makes-if,
}
use oci_container_runtime_fr.Base.{
  ◌≡◌, ap, ◌∙◌, ◌≢◌, inl, inr, true, false, List, [], ◌∷◌, ◌++◌, Bool-cases, All, Result, ok, err,
  Str, str, str_eq, str_eq_iff, has_prefix, trim_prefix, components, is_abs, clean,
  clean_components, render_path, NonEmpty, join_path, dir_name, base_name,
}

-- What a call creates, changes or removes lies in the directory. Any other call is none of these.
abbrev pub IsConfined : Str → Call → Type 0
IsConfined dst (make_dir_all path) = IsWithin dst path
IsConfined dst (create_file path) = IsWithin dst path
IsConfined dst (copy_into path content) = IsWithin dst path
IsConfined dst (close_file path) = IsWithin dst path
IsConfined dst (remove path) = IsWithin dst path
IsConfined dst (remove_all path) = IsWithin dst path
IsConfined dst (symlink old path) = IsWithin dst path
IsConfined dst (link old path) = IsWithin dst path
IsConfined dst _ = ⊥

-- An entry that does not stand for the directory itself, and is not the whiteout of "..".
pub record IsOrdinary (e : Entry) : Type 0 where
  pub below : str_eq (clean e.name) (str ".") ≡ false
  pub no_parent : str_eq (base_name (clean e.name)) (str ".wh...") ≡ false

module _ (os : Oracle) (dst : Str) where
  made : (c : Call) → IsConfined dst c → Makes (IsConfined dst) (perform os c)
  made c h = Makes-perform os c h

  copy-Makes :
      (path : Str) (content : Result Str)
      → IsWithin dst path
      → Makes (IsConfined dst) (copy os path content)
  unfolding copy
  copy-Makes path (ok content) h = made (copy_into path content) h
  copy-Makes path (err e) h = Makes-raise e

  -- A call on a path, and one on its directory.
  extract_kind-Makes :
      (k : EntryKind) (path : Str) (e : Entry)
      → IsWithin dst path
      → IsWithin dst (dir_name path)
      → Makes (IsConfined dst) (extract_kind os k dst path e)
  unfolding extract_kind extract_file replace_with
  extract_kind-Makes directory path e h d = made (make_dir_all path) h
  extract_kind-Makes regular path e h d = Makes-bind (made (make_dir_all (dir_name path)) d) (λ _.
      Makes-bind (made (create_file path) h) (λ _.
        Makes-bind
          (Makes-on_error (copy-Makes path e.content h) (Makes-ignoring (made (close_file path) h)))
          (λ _. Makes-ignoring (made (close_file path) h))))
  extract_kind-Makes symbolic_link path e h d =
      Makes-bind (Makes-ignoring (made (make_dir_all (dir_name path)) d)) (λ _.
        Makes-bind (Makes-ignoring (made (remove path) h)) (λ _. made (symlink e.link_name path) h))
  extract_kind-Makes hard_link path e h d =
      Makes-bind (Makes-ignoring (made (make_dir_all (dir_name path)) d)) (λ _.
        Makes-bind (Makes-ignoring (made (remove path) h))
          (λ _. Makes-ignoring (made (link (join_path (dst ∷ e.link_name ∷ [])) path) h)))
  extract_kind-Makes other_kind path e h d = Makes-pure tt

  -- The whiteout of a name beside the entry.
  whiteout-IsWithin :
      (front : List Str) (n path name : Str)
      → All IsPlain front
      → IsPlain n
      → path
        ≡ render_path
            (is_abs dst)
            (clean_components (is_abs dst) (components dst) ++ (front ++ n ∷ []))
      → has_prefix (base_name name) (str ".wh.") ≡ true
      → str_eq (base_name name) (str ".wh...") ≡ false
      → IsWithin dst (whiteout_of path (base_name name))
  unfolding whiteout_of
  whiteout-IsWithin front n path name h k e mark other =
      rw (ap dir_name e ∙ parent_path dst front n h k) (
        beside dst front (trim_prefix (base_name name) (str ".wh.")) h (whiteout-Lacks name mark)
          (whiteout-above (base_name name) mark other))

  extract_named-Makes :
      (e : Entry)
      → NonEmpty dst
      → is_kept (clean e.name) ≡ true
      → IsOrdinary e
      → Makes (IsConfined dst) (extract_named os dst (clean e.name) e)
  unfolding extract_named
  extract_named-Makes e filled keep o =
      let (ns, plain, at, same) = target-IsPlain dst e.name filled keep in
      elim (split-IsPlain ns plain) [
        | inl top ↦ absurd (topmost ns same top)
        | inr (front, n, h, k, parts) ↦
            let path_at =
              at
              ∙ ap
                  (λ l.
                    render_path (is_abs dst) (clean_components (is_abs dst) (components dst) ++ l))
                  parts in
            Makes-if (str_eq (base_name (clean e.name)) (str ".wh..wh..opq")) (Makes-pure tt)
              (elim (Bool-cases (has_prefix (base_name (clean e.name)) (str ".wh."))) [
                | inl mark ↦ rw mark (
                    Makes-ignoring (
                      made
                        (remove_all
                          (whiteout_of (target_of dst (clean e.name)) (base_name (clean e.name))))
                        (whiteout-IsWithin front n _ (clean e.name) h k path_at mark o.no_parent)))
                | inr other ↦ rw other (
                    extract_kind-Makes e.kind (target_of dst (clean e.name)) e (ns, plain, at)
                      (parent-IsWithin dst front n _ h k path_at))
              ])
      ]
    where
      topmost : (ns : List Str) → clean e.name ≡ render_path false ns → ns ≢ []
      topmost ns same top =
          let here = (str_eq_iff (clean e.name) (str ".")).1 (same ∙ ap (render_path false) top) in
          cc (o.below, here)

  extract_entry-Makes :
      (e : Entry) → NonEmpty dst → IsOrdinary e → Makes (IsConfined dst) (extract_entry os dst e)
  unfolding extract_entry
  extract_entry-Makes e filled o = elim (Bool-cases (is_kept (clean e.name))) [
    | inl keep ↦ rw keep (extract_named-Makes e filled keep o)
    | inr skip ↦ rw skip (Makes-pure tt)
  ]

  extract_entries-Makes :
      (es : List Entry) (ending : Result (Unit {0}))
      → NonEmpty dst
      → All IsOrdinary es
      → Makes (IsConfined dst) (extract_entries os dst es ending)
  unfolding extract_entries
  extract_entries-Makes [] ending filled h = Makes-wrapping (Makes-lift ending) _
  extract_entries-Makes (e ∷ es) ending filled (h, hs) =
      Makes-bind (extract_entry-Makes e filled h) (λ _. extract_entries-Makes es ending filled hs)

  -- The unpacking, into a directory with a path that is not empty, of entries none of which stands for
  -- that directory itself, with a name like ".", or is a whiteout of "..", whatever else their names
  -- are and whatever the calls answer: every call creates, writes or removes a path that lies, as a
  -- text, in the directory.
  pub unpacking-IsConfined :
      (es : List Entry) (ending : Result (Unit {0})) (t : Trace)
      → NonEmpty dst
      → All IsOrdinary es
      → NewCalls (IsConfined dst) t (extract_entries os dst es ending t).1
  unpacking-IsConfined es ending t filled h = (extract_entries-Makes es ending filled h).made t
