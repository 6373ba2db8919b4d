-- ===== src/Pivot.antt =====
-- `Do` of mvp/internal/pivot/pivot_linux.go.
pub mod Order
use oci_container_runtime_fr.Sys.{
  Spawn, Call, get_env, get_uid, get_gid, get_euid, stat, read_file, remove, remove_all, make_dir,
  make_dir_all, write_file, rename, command, look_path, start, signal, wait, make_pipe, read_byte,
  close, mount, unmount, pivot_root, change_root, change_dir, set_hostname, no_new_privs,
  set_filter, exec, random_bytes, Answer, Event, Trace, Oracle, is_ok, Io, pure, raise, lift,
  wrapping, attempt, finish, on_error, deferring, continue, ◌>>=◌, ◌>>◌, perform, ignoring, log,
}
use oci_container_runtime_fr.Base.{
  ℕ, zero, suc, ◌+◌, ◌-◌, ◌*◌, ◌/◌, ◌%◌, ◌^◌, ◌≤◌, ◌<◌, min, String, ◌≡◌, refl, sym, ap, ◌∙◌, ◌≢◌,
  ◌↔◌, ◌⊎◌, inl, inr, Bool, true, false, not, ◌&&◌, ◌||◌, Option, none, some, List, [], ◌∷◌, ◌++◌,
  map, reverse, append-nil, append_assoc, arith, ltb, leb, ◌==◌, if◌then◌else◌, ==_iff, Bool-cases,
  Option-cases, length, take, drop, length-append, length-take, take-append, drop-append,
  drop-append_suc, All, All-append, Error, message, wrap, os_error, Errno, already_exists,
  does_not_exist, other_error, is_exist, is_not_exist, Result, ok, err, wrapped, of_option,
  Result-cases, Str, str, str_eq, str_eq_iff, str_eq_refl, index_byte, last_index, contains_byte,
  has_prefix, trim_prefix, join, to_lower, trim_space, Lacks, index_byte-append, index_byte-none,
  last_index-none, last_index-append, last_index_split, contains_byte-append, contains_byte-none, ℤ,
  pos, negsuc, is_positive, is_zero, decimal, format_int, digits_value, parse_int, int64_bound,
  IsDigit, decimal-IsDigit, IsDigit-Lacks, parse_int-decimal, components, is_abs, clean,
  clean_components, is_empty, join_path, trim_by, is_space, concat-ne-nil,
}

abbrev pub old_root_rel : Str
old_root_rel = str ".pivot_old"

abbrev pub old_root : Str → Str
old_root newroot = join_path (newroot ∷ old_root_rel ∷ [])

abbrev pub old_in_new : Str
old_in_new = str "/" ++ old_root_rel

module _ (os : Oracle) where
  unfoldable pub pivot : Str → Io (Unit {0})
  pivot newroot = do
    wrapping "pivot: rprivate /"
        (perform os (mount [] (str "/") [] ("MS_PRIVATE" ∷ "MS_REC" ∷ []) []))
    wrapping "pivot: bind"
        (perform os (mount newroot newroot (str "bind") ("MS_BIND" ∷ "MS_REC" ∷ []) []))
    wrapping "pivot: mkdir" (perform os (make_dir_all (old_root newroot)))
    wrapping "pivot: chdir" (perform os (change_dir newroot))
    wrapping "pivot_root" (
        on_error (perform os (pivot_root (str ".") old_root_rel))
          (ignoring (perform os (remove (old_root newroot)))))
    wrapping "pivot: post-chroot" (perform os (change_root (str ".")))
    wrapping "pivot: chdir /" (perform os (change_dir (str "/")))
    wrapping "pivot: umount old root" (perform os (unmount old_in_new ("MNT_DETACH" ∷ [])))
    wrapping "pivot: rmdir old root" (perform os (remove old_in_new))
    wrapping "pivot: mount /proc" (perform os (mount (str "proc") (str "/proc") (str "proc") [] []))
