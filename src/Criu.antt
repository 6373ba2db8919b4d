-- ===== src/Criu.antt =====
-- mvp/internal/criu/criu_linux.go: checkpoint and restore by the criu program.
pub mod Symmetry
use oci_container_runtime_fr.Sys.{
  Spawn, Call, get_env, get_uid, get_gid, get_euid, stat, read_file, remove, remove_all, make_dir,
  make_dir_all, write_file, rename, command, look_path, start, signal, wait, make_pipe, read_byte,
  close, mount, unmount, pivot_root, change_root, change_dir, set_hostname, no_new_privs,
  set_filter, exec, random_bytes, Response, EntryKind, directory, regular, symbolic_link, hard_link,
  other_kind, Entry, Archive, symlink, link, create_file, copy_into, close_file, open_file,
  read_archive, http_get, await_exit, await_byte, Answer, Event, Trace, Oracle, is_ok, Io, pure,
  raise, lift, wrapping, attempt, finish, on_error, deferring, continue, ◌>>=◌, ◌>>◌, perform,
  ignoring, log, calls, when, tolerated, tolerating, env, text_or_empty, bind-ok, bind-err,
  on_error-ok, on_error-err, performed, lifted, Resource, descriptor, process, mounted, group,
  weight, count, change, held, is_neutral, either_way, Moves, Keeps, Keeps-perform, Keeps-pure,
  Keeps-raise, Keeps-lift, Keeps-wrapping, Keeps-attempt, Keeps-ignoring, Keeps-on_error,
  Keeps-bind, Keeps-when, Keeps-tolerating, Keeps-env, Keeps-make_dir_all, Keeps-write_file,
  Keeps-command, Keeps-signal, Keeps-read_file, Keeps-remove_all, find_program-Keeps, Sure,
  Sure-ignoring, Sure-attempt, Sure-env, Sure-pure, Sure-when, Sure-bind, Moves-Sure, Moves-ignored,
  Moves-kept, Moves-pure, after_exit, Moves-await_exit, Moves-Keeps, Moves-to, Moves-from,
  Moves-wrapping, Moves-bind, Moves-on_error, Moves-deferring, Moves-ignoring, Moves-attempt,
  Moves-make_pipe, Moves-start, Moves-mount, Moves-make_dir, Moves-close, Moves-wait, Moves-unmount,
  Moves-remove, find_program,
}
use oci_container_runtime_fr.Base.{
  ℕ, zero, suc, ◌+◌, ◌-◌, ◌*◌, ◌/◌, ◌%◌, ◌^◌, ◌≤◌, ◌<◌, min, String, ◌≡◌, refl, sym, ap, ◌∙◌, ◌≢◌,
  ◌↔◌, ◌⊎◌, inl, inr, Bool, true, false, not, ◌&&◌, ◌||◌, Option, none, some, List, [], ◌∷◌, ◌++◌,
  map, reverse, append-nil, append_assoc, arith, ltb, leb, ◌==◌, if◌then◌else◌, ==_iff, Bool-cases,
  Option-cases, length, take, drop, length-append, length-take, take-append, drop-append,
  drop-append_suc, All, All-append, Error, message, wrap, os_error, Errno, already_exists,
  does_not_exist, other_error, is_exist, is_not_exist, Result, ok, err, wrapped, of_option,
  Result-cases, Str, str, str_eq, str_eq_iff, str_eq_refl, index_byte, last_index, contains_byte,
  has_prefix, trim_prefix, join, to_lower, trim_space, Lacks, index_byte-append, index_byte-none,
  last_index-none, last_index-append, last_index_split, contains_byte-append, contains_byte-none, ℤ,
  pos, negsuc, is_positive, is_zero, decimal, format_int, digits_value, parse_int, int64_bound,
  IsDigit, decimal-IsDigit, IsDigit-Lacks, parse_int-decimal, components, is_abs, clean,
  clean_components, is_empty, NonEmpty, clean-NonEmpty, join_path-NonEmpty, All-reverse, join_path,
  split_last_slash, dir_name, base_name, trim_by, is_space, concat-ne-nil,
}

unfoldable pub dump_args : ℕ → Str → List Str
dump_args pid images_dir =
    str "dump"
    ∷ str "--tree"
    ∷ decimal pid
    ∷ str "--images-dir"
    ∷ images_dir
    ∷ str "--shell-job"
    ∷ str "--tcp-established"
    ∷ str "--file-locks"
    ∷ str "--link-remap"
    ∷ str "--manage-cgroups=soft"
    ∷ str "--log-file"
    ∷ str "dump.log"
    ∷ []

unfoldable pub restore_args : Str → List Str
restore_args images_dir =
    str "restore"
    ∷ str "--images-dir"
    ∷ images_dir
    ∷ str "--shell-job"
    ∷ str "--tcp-established"
    ∷ str "--file-locks"
    ∷ str "--link-remap"
    ∷ str "--manage-cgroups=soft"
    ∷ str "--log-file"
    ∷ str "restore.log"
    ∷ []

module _ (os : Oracle) where
  -- `Dump` for a process id above 0.
  unfoldable pub dump_process : ℕ → Str → Io (Unit {0})
  dump_process pid images_dir = do
    bin ← find_program os "criu" "criu not found on PATH"
    wrapping "criu: prepare images dir" (perform os (make_dir_all images_dir))
    wrapping "criu dump" (perform os (command bin (dump_args pid images_dir)))

  -- `Dump`
  unfoldable pub dump : ℤ → Str → Io (Unit {0})
  unfolding dump_process
  dump (pos n) images_dir =
      if ltb 0 n then dump_process n images_dir else raise (message "criu: invalid pid")
  dump (negsuc n) images_dir = raise (message "criu: invalid pid")

  unfoldable pub restore : Str → Io (Unit {0})
  restore images_dir = do
    wrapping "criu: images dir missing" (perform os (stat images_dir))
    bin ← find_program os "criu" "criu not found on PATH"
    wrapping "criu restore" (perform os (command bin (restore_args images_dir)))

  -- `Available`
  unfoldable pub available : Io Bool
  available = do r ← attempt (perform os (look_path (str "criu"))); pure (is_ok r)
