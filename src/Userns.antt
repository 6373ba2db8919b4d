-- ===== src/Userns.antt =====
-- mvp/internal/userns/userns_linux.go: `Config`, `Detect`, `Preflight` and `ApplyToSysProcAttr`.
pub mod Rootless
pub mod Preflight
use oci_container_runtime_fr.Sys.{
  Spawn, Call, get_env, get_uid, get_gid, get_euid, stat, read_file, remove, remove_all, make_dir,
  make_dir_all, write_file, rename, command, look_path, start, signal, wait, make_pipe, read_byte,
  close, mount, unmount, pivot_root, change_root, change_dir, set_hostname, no_new_privs,
  set_filter, exec, random_bytes, Answer, Event, Trace, Oracle, is_ok, Io, pure, raise, lift,
  wrapping, attempt, finish, on_error, deferring, continue, ◌>>=◌, ◌>>◌, perform, ignoring, log,
  calls, when, tolerated, tolerating, env, text_or_empty, bind-ok, bind-err, on_error-ok,
  on_error-err,
}
use oci_container_runtime_fr.Base.{
  ℕ, zero, suc, ◌+◌, ◌-◌, ◌*◌, ◌/◌, ◌%◌, ◌^◌, ◌≤◌, ◌<◌, min, String, ◌≡◌, refl, sym, ap, ◌∙◌, ◌≢◌,
  ◌↔◌, ◌⊎◌, inl, inr, Bool, true, false, not, ◌&&◌, ◌||◌, Option, none, some, List, [], ◌∷◌, ◌++◌,
  map, reverse, append-nil, append_assoc, arith, ltb, leb, ◌==◌, if◌then◌else◌, ==_iff, Bool-cases,
  Option-cases, length, take, drop, length-append, length-take, take-append, drop-append,
  drop-append_suc, All, All-append, Error, message, wrap, os_error, Errno, already_exists,
  does_not_exist, other_error, is_exist, is_not_exist, Result, ok, err, wrapped, of_option,
  Result-cases, Str, str, str_eq, str_eq_iff, str_eq_refl, index_byte, last_index, contains_byte,
  has_prefix, trim_prefix, join, to_lower, trim_space, Lacks, index_byte-append, index_byte-none,
  last_index-none, last_index-append, last_index_split, contains_byte-append, contains_byte-none, ℤ,
  pos, negsuc, is_positive, is_zero, decimal, format_int, digits_value, parse_int, int64_bound,
  IsDigit, decimal-IsDigit, IsDigit-Lacks, parse_int-decimal, components, is_abs, clean,
  clean_components, is_empty, NonEmpty, clean-NonEmpty, join_path-NonEmpty, All-reverse, join_path,
  trim_by, is_space, concat-ne-nil,
}

pub record Config : Type 0 where
  pub enabled : Bool
  pub host_uid : ℤ
  pub host_gid : ℤ
  pub size : ℤ

-- The ids of a process, which cannot fail to be read.
abbrev pub id_or_zero : Result ℤ → ℤ
id_or_zero (ok n) = n
id_or_zero (err e) = pos 0

module _ (os : Oracle) where
  -- `force || os.Geteuid() != 0`: no call is made if `force` is set.
  unfoldable pub wants_rootless : Bool → Io Bool
  wants_rootless true = pure true
  wants_rootless false = do
    euid ← attempt (perform os get_euid)
    pure (not (is_zero (id_or_zero euid)))

  unfoldable pub detect : Bool → Io Config
  unfolding wants_rootless
  detect force = do
    enabled ← wants_rootless force
    uid ← attempt (perform os get_uid)
    gid ← attempt (perform os get_gid)
    pure (record {
      enabled = enabled;
      host_uid = id_or_zero uid;
      host_gid = id_or_zero gid;
      size = pos 1;
    })

  unfoldable pub read_int_file : Str → Io ℤ
  read_int_file path = do
    b ← perform os (read_file path)
    lift (of_option (message "strconv.Atoi") (parse_int (trim_space b)))

  abbrev pub reads_zero : Result ℤ → Bool
  reads_zero (ok n) = is_zero n
  reads_zero (err e) = false

  abbrev pub refuse_if : Bool → Error → Io (Unit {0})
  refuse_if b e = if b then raise e else pure tt

  unfoldable pub check_sysctls : Io (Unit {0})
  unfolding read_int_file
  check_sysctls = do
    clone ← attempt (read_int_file (str "/proc/sys/kernel/unprivileged_userns_clone"))
    refuse_if (reads_zero clone) (message "rootless requires unprivileged user namespaces")
    most ← attempt (read_int_file (str "/proc/sys/user/max_user_namespaces"))
    refuse_if (reads_zero most) (message "rootless requires user namespaces")

  unfoldable pub preflight : Config → Io (Unit {0})
  unfolding check_sysctls
  preflight c = if c.enabled then check_sysctls else pure tt

-- `ApplyToSysProcAttr`: the maps hold the host id and the size, and container id 0.
unfoldable pub apply_to_spawn : Config → Spawn → Spawn
apply_to_spawn c s =
    if c.enabled
    then record s {
      clone_flags = s.clone_flags ++ "CLONE_NEWUSER" ∷ [];
      uid_map = some (c.host_uid, c.size);
      gid_map = some (c.host_gid, c.size);
    }
    else s
