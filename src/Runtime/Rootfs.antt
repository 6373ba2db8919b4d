-- ===== src/Runtime/Rootfs.antt =====
-- `resolveRootfs` and `newContainerID` of mvp/internal/runtime/runtime_linux.go.
pub mod Holdings
use oci_container_runtime_fr.Image.Reference.{Reference, parse_ref}
use oci_container_runtime_fr.Image.Layers.{ImageInfo, overlay_lower_dirs}
use oci_container_runtime_fr.Image.Store.{Manifest, open_store, load_manifest}
use oci_container_runtime_fr.Overlay.{Mount, mount_overlay, unmount_overlay, cleanup}
use oci_container_runtime_fr.Sys.{
  Spawn, Call, get_env, get_uid, get_gid, get_euid, stat, read_file, remove, remove_all, make_dir,
  make_dir_all, write_file, rename, command, look_path, start, signal, wait, make_pipe, read_byte,
  close, mount, unmount, pivot_root, change_root, change_dir, set_hostname, no_new_privs,
  set_filter, exec, random_bytes, Response, EntryKind, directory, regular, symbolic_link, hard_link,
  other_kind, Entry, Archive, symlink, link, create_file, copy_into, close_file, open_file,
  read_archive, http_get, await_exit, await_byte, Answer, Event, Trace, Oracle, is_ok, Io, pure,
  raise, lift, wrapping, attempt, finish, on_error, deferring, continue, ◌>>=◌, ◌>>◌, perform,
  ignoring, log, calls, when, tolerated, tolerating, env, text_or_empty, bind-ok, bind-err,
  on_error-ok, on_error-err, performed, lifted, Resource, descriptor, process, mounted, group,
  weight, count, change, held, is_neutral, either_way, Moves, Keeps, Keeps-perform, Keeps-pure,
  Keeps-raise, Keeps-lift, Keeps-wrapping, Keeps-attempt, Keeps-ignoring, Keeps-on_error,
  Keeps-bind, Keeps-when, Keeps-tolerating, Keeps-env, Keeps-make_dir_all, Keeps-write_file,
  Keeps-command, Keeps-signal, Keeps-read_file, Keeps-remove_all, find_program-Keeps, Sure,
  Sure-ignoring, Sure-attempt, Sure-env, Sure-pure, Sure-when, Sure-bind, Moves-Sure, Moves-ignored,
  Moves-kept, Moves-tolerating, Moves-wrapping_all, Moves-pure, Moves-raise, Moves-wait_all,
  Moves-attempted, count-append, Moves-if, Keeps-if, after_exit, Moves-await_exit, Moves-Keeps,
  Moves-to, Moves-from, Moves-wrapping, Moves-bind, Moves-on_error, Moves-deferring, Moves-ignoring,
  Moves-attempt, Moves-make_pipe, Moves-start, Moves-mount, Moves-make_dir, Moves-close, Moves-wait,
  Moves-unmount, Moves-remove, find_program,
}
use oci_container_runtime_fr.Base.{
  ℕ, zero, suc, ◌+◌, ◌-◌, ◌*◌, ◌/◌, ◌%◌, ◌^◌, ◌≤◌, ◌<◌, min, String, ◌≡◌, refl, sym, ap, ◌∙◌, ◌≢◌,
  ◌↔◌, ◌⊎◌, inl, inr, Bool, true, false, not, ◌&&◌, ◌||◌, Option, none, some, List, [], ◌∷◌, ◌++◌,
  map, reverse, append-nil, append_assoc, arith, ltb, leb, ◌==◌, if◌then◌else◌, ==_iff, Bool-cases,
  Option-cases, length, take, drop, length-append, length-take, take-append, drop-append,
  drop-append_suc, All, All-append, Error, message, wrap, os_error, Errno, already_exists,
  does_not_exist, other_error, is_exist, is_not_exist, Result, ok, err, wrapped, of_option,
  Result-cases, Str, str, str_eq, str_eq_iff, str_eq_refl, index_byte, last_index, contains_byte,
  has_prefix, trim_prefix, contains_text, hex, join, to_lower, trim_space, Lacks, index_byte-append,
  index_byte-none, last_index-none, last_index-append, last_index_split, contains_byte-append,
  contains_byte-none, ℤ, pos, negsuc, is_positive, is_zero, decimal, format_int, digits_value,
  parse_int, int64_bound, IsDigit, decimal-IsDigit, IsDigit-Lacks, parse_int-decimal, components,
  is_abs, clean, clean_components, is_empty, NonEmpty, clean-NonEmpty, join_path-NonEmpty,
  All-reverse, join_path, split_last_slash, dir_name, base_name, trim_by, is_space, concat-ne-nil,
  ok≢err,
}

-- Six zero bytes where the random source fails.
abbrev pub bytes_or_zeros : Result Str → Str
bytes_or_zeros (ok b) = b
bytes_or_zeros (err e) = 0 ∷ 0 ∷ 0 ∷ 0 ∷ 0 ∷ 0 ∷ []

-- A root directory; where an overlay was mounted for it, that mount, which the clean-up takes back.
pub record Resolved : Type 0 where
  pub rootfs : Str
  pub overlay : Option Mount

-- serr == nil && fi.IsDir()
abbrev pub is_directory : Result Bool → Bool
is_directory (ok b) = b
is_directory (err e) = false

module _ (os : Oracle) where
  unfoldable pub new_container_id : Io Str
  new_container_id = do b ← attempt (perform os (random_bytes 6)); pure (hex (bytes_or_zeros b))

  -- The overlay in a scratch directory of its own.
  unfoldable pub mount_layers : ImageInfo → Str → Io Resolved
  mount_layers info dir = do
    perform os (make_dir_all dir)
    m ←
        on_error (mount_overlay os (overlay_lower_dirs info) dir)
          (ignoring (perform os (remove_all dir)))
    pure (record { rootfs = m.merged; overlay = some m })

  unfoldable pub resolve_image : (Str → Result Manifest) → Str → Str → Io Resolved
  resolve_image decode name store_root = do
    ref ← wrapping "rootfs is neither a directory nor a valid image ref" (lift (parse_ref name))
    root ← open_store os store_root
    info ← wrapping "image not in local store" (load_manifest os decode root ref)
    id ← new_container_id
    mount_layers info (join_path (store_root ∷ str "containers" ∷ id ∷ []))

  unfoldable pub resolve_rootfs : (Str → Result Manifest) → Str → Str → Io Resolved
  resolve_rootfs decode name store_root = do
    found ← attempt (perform os (stat name))
    if is_directory found
        then pure (record { rootfs = name; overlay = none })
        else resolve_image decode name store_root

  -- The function that `resolveRootfs` gives back; errors are only logged.
  unfoldable pub cleanup_overlay : Option Mount → Io (Unit {0})
  cleanup_overlay none = pure tt
  cleanup_overlay (some m) = do ignoring (unmount_overlay os m); ignoring (cleanup os m)
