-- ===== src/Image/Extract.antt =====
-- `extractLayer` of mvp/internal/image/pull.go. Modes are left out.
pub mod Inside
pub mod Refold
pub mod Parent
pub mod Within
pub mod Marks
pub mod Confined
use oci_container_runtime_fr.Sys.{
  remove, remove_all, make_dir_all, EntryKind, directory, regular, symbolic_link, hard_link,
  other_kind, Entry, symlink, link, create_file, copy_into, close_file, open_file, read_archive,
  Oracle, Io, pure, raise, lift, wrapping, on_error, deferring, ◌>>=◌, ◌>>◌, perform, ignoring,
}
use oci_container_runtime_fr.Base.{
  Bool, not, ◌||◌, List, [], ◌∷◌, if◌then◌else◌, Result, ok, err, Str, str, str_eq, has_prefix,
  trim_prefix, is_abs, clean, join_path, dir_name, base_name,
}

-- The name is kept inside the target directory; else the entry is skipped.
unfoldable pub is_kept : Str → Bool
is_kept name = not (has_prefix name (str "..") || is_abs name)

unfoldable pub target_of : Str → Str → Str
target_of dst name = join_path (dst ∷ name ∷ [])

-- What a whiteout entry removes.
unfoldable pub whiteout_of : Str → Str → Str
whiteout_of target base = join_path (dir_name target ∷ trim_prefix base (str ".wh.") ∷ [])

module _ (os : Oracle) where
  -- io.Copy into an open file. Where the source breaks off, the part before is not told apart.
  unfoldable pub copy : Str → Result Str → Io (Unit {0})
  copy path (ok content) = perform os (copy_into path content)
  copy path (err e) = raise e

  unfoldable pub extract_file : Str → Result Str → Io (Unit {0})
  unfolding copy
  extract_file target content = do
    perform os (make_dir_all (dir_name target))
    perform os (create_file target)
    on_error (copy target content) (ignoring (perform os (close_file target)))
    ignoring (perform os (close_file target))

  unfoldable pub replace_with : Str → Io (Unit {0}) → Io (Unit {0})
  replace_with target m = do
    ignoring (perform os (make_dir_all (dir_name target)))
    ignoring (perform os (remove target))
    m

  unfoldable pub extract_kind : EntryKind → Str → Str → Entry → Io (Unit {0})
  unfolding extract_file replace_with
  extract_kind directory dst target e = perform os (make_dir_all target)
  extract_kind regular dst target e = extract_file target e.content
  extract_kind symbolic_link dst target e =
      replace_with target (perform os (symlink e.link_name target))
  extract_kind hard_link dst target e =
      replace_with target (ignoring (perform os (link (join_path (dst ∷ e.link_name ∷ [])) target)))
  extract_kind other_kind dst target e = pure tt

  -- The loop's body, behind the check of the name.
  unfoldable pub extract_named : Str → Str → Entry → Io (Unit {0})
  unfolding extract_kind
  extract_named dst name e =
      if str_eq (base_name name) (str ".wh..wh..opq")
      then pure tt
      else if has_prefix (base_name name) (str ".wh.")
      then ignoring (perform os (remove_all (whiteout_of (target_of dst name) (base_name name))))
      else extract_kind e.kind dst (target_of dst name) e

  unfoldable pub extract_entry : Str → Entry → Io (Unit {0})
  unfolding extract_named
  extract_entry dst e =
      if is_kept (clean e.name) then extract_named dst (clean e.name) e else pure tt

  unfoldable pub extract_entries : Str → List Entry → Result (Unit {0}) → Io (Unit {0})
  unfolding extract_entry
  extract_entries dst [] ending = wrapping "tar" (lift ending)
  extract_entries dst (e ∷ rest) ending = do extract_entry dst e; extract_entries dst rest ending

  unfoldable pub extract_layer : Str → Str → Io (Unit {0})
  extract_layer src dst = do
    perform os (make_dir_all dst)
    perform os (open_file src)
    deferring
        (do
          a ← wrapping "gunzip" (perform os (read_archive src))
          extract_entries dst a.entries a.ending)
        (ignoring (perform os (close_file src)))
