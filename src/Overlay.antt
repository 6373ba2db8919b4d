-- ===== src/Overlay.antt =====
-- `Mount`, `MountOverlay`, `Unmount` and `Cleanup` of mvp/internal/overlay/overlay_linux.go.
pub mod Lifecycle
pub mod Holdings
use oci_container_runtime_fr.Sys.{
  Spawn, Call, get_env, get_uid, get_gid, get_euid, stat, read_file, remove, remove_all, make_dir,
  make_dir_all, write_file, rename, command, look_path, start, signal, wait, make_pipe, read_byte,
  close, mount, unmount, pivot_root, change_root, change_dir, set_hostname, no_new_privs,
  set_filter, exec, random_bytes, Answer, Event, Trace, Oracle, is_ok, Io, pure, raise, lift,
  wrapping, attempt, finish, on_error, deferring, continue, ◌>>=◌, ◌>>◌, perform, ignoring, log,
  calls, when, tolerated, tolerating, env, text_or_empty, bind-ok, bind-err, on_error-ok,
  on_error-err, performed, lifted,
}
use oci_container_runtime_fr.Base.{
  ℕ, zero, suc, ◌+◌, ◌-◌, ◌*◌, ◌/◌, ◌%◌, ◌^◌, ◌≤◌, ◌<◌, min, String, ◌≡◌, refl, sym, ap, ◌∙◌, ◌≢◌,
  ◌↔◌, ◌⊎◌, inl, inr, Bool, true, false, not, ◌&&◌, ◌||◌, Option, none, some, List, [], ◌∷◌, ◌++◌,
  map, reverse, append-nil, append_assoc, arith, ltb, leb, ◌==◌, if◌then◌else◌, ==_iff, Bool-cases,
  Option-cases, length, take, drop, length-append, length-take, take-append, drop-append,
  drop-append_suc, All, All-append, Error, message, wrap, os_error, Errno, already_exists,
  does_not_exist, other_error, is_exist, is_not_exist, Result, ok, err, wrapped, of_option,
  Result-cases, Str, str, str_eq, str_eq_iff, str_eq_refl, index_byte, last_index, contains_byte,
  has_prefix, trim_prefix, join, to_lower, trim_space, Lacks, index_byte-append, index_byte-none,
  last_index-none, last_index-append, last_index_split, contains_byte-append, contains_byte-none, ℤ,
  pos, negsuc, is_positive, is_zero, decimal, format_int, digits_value, parse_int, int64_bound,
  IsDigit, decimal-IsDigit, IsDigit-Lacks, parse_int-decimal, components, is_abs, clean,
  clean_components, is_empty, NonEmpty, clean-NonEmpty, join_path-NonEmpty, All-reverse, join_path,
  trim_by, is_space, concat-ne-nil,
}

pub record Mount : Type 0 where
  pub container_dir : Str
  pub merged : Str

abbrev pub part_of : Str → String → Str
part_of dir name = join_path (dir ∷ str name ∷ [])

abbrev pub options : Str → Str → Str
options lower_dirs dir =
    str "lowerdir="
    ++ lower_dirs
    ++ str ",upperdir="
    ++ part_of dir "upper"
    ++ str ",workdir="
    ++ part_of dir "work"

module _ (os : Oracle) where
  unfoldable pub make_dirs : List Str → Io (Unit {0})
  make_dirs [] = pure tt
  make_dirs (d ∷ dirs) = do wrapping "mkdir" (perform os (make_dir_all d)); make_dirs dirs

  unfoldable pub mount_at : Str → Str → Io Mount
  unfolding make_dirs
  mount_at lower_dirs dir = do
    make_dirs (part_of dir "upper" ∷ part_of dir "work" ∷ part_of dir "merged" ∷ [])
    wrapping "mount overlay" (
        perform os (
          mount (str "overlay") (part_of dir "merged") (str "overlay") [] (options lower_dirs dir)))
    pure (record { container_dir = dir; merged = part_of dir "merged" })

  -- `MountOverlay`
  unfoldable pub mount_overlay : Str → Str → Io Mount
  unfolding mount_at
  mount_overlay lower_dirs dir =
      if is_empty lower_dirs
      then raise (message "overlay: lowerdirs is empty")
      else mount_at lower_dirs dir

  -- `Unmount`. Where a caller holds no mount, it does not call this.
  unfoldable pub unmount_overlay : Mount → Io (Unit {0})
  unmount_overlay m =
      if is_empty m.merged
      then pure tt
      else wrapping "unmount overlay" (perform os (unmount m.merged ("MNT_DETACH" ∷ [])))

  -- `Cleanup`
  unfoldable pub cleanup : Mount → Io (Unit {0})
  cleanup m = if is_empty m.container_dir then pure tt else perform os (remove_all m.container_dir)
