-- ===== src/Cgroups.antt =====
-- `Limits`, `Create`, `AddPID` and `Close` of mvp/internal/cgroups/cgroups_linux.go.
pub mod Writes
pub mod Holdings
use oci_container_runtime_fr.Sys.{
  Spawn, Call, get_env, get_uid, get_gid, get_euid, stat, read_file, remove, remove_all, make_dir,
  make_dir_all, write_file, rename, command, look_path, start, signal, wait, make_pipe, read_byte,
  close, mount, unmount, pivot_root, change_root, change_dir, set_hostname, no_new_privs,
  set_filter, exec, random_bytes, Answer, Event, Trace, Oracle, is_ok, Io, pure, raise, lift,
  wrapping, attempt, finish, on_error, deferring, continue, ◌>>=◌, ◌>>◌, perform, ignoring, log,
  when, tolerated, tolerating, env, text_or_empty, bind-ok, bind-err,
}
use oci_container_runtime_fr.Base.{
  ℕ, zero, suc, ◌+◌, ◌-◌, ◌*◌, ◌/◌, ◌%◌, ◌^◌, ◌≤◌, ◌<◌, min, String, ◌≡◌, refl, sym, ap, ◌∙◌, ◌≢◌,
  ◌↔◌, ◌⊎◌, inl, inr, Bool, true, false, not, ◌&&◌, ◌||◌, Option, none, some, List, [], ◌∷◌, ◌++◌,
  map, reverse, append-nil, append_assoc, arith, ltb, leb, ◌==◌, if◌then◌else◌, ==_iff, Bool-cases,
  Option-cases, length, take, drop, length-append, length-take, take-append, drop-append,
  drop-append_suc, All, All-append, Error, message, wrap, os_error, Errno, already_exists,
  does_not_exist, other_error, is_exist, is_not_exist, Result, ok, err, wrapped, of_option,
  Result-cases, Str, str, str_eq, str_eq_iff, str_eq_refl, index_byte, last_index, contains_byte,
  has_prefix, trim_prefix, join, to_lower, trim_space, Lacks, index_byte-append, index_byte-none,
  last_index-none, last_index-append, last_index_split, contains_byte-append, contains_byte-none, ℤ,
  pos, negsuc, is_positive, is_zero, decimal, format_int, digits_value, parse_int, int64_bound,
  IsDigit, decimal-IsDigit, IsDigit-Lacks, parse_int-decimal, components, is_abs, clean,
  clean_components, is_empty, NonEmpty, clean-NonEmpty, join_path-NonEmpty, All-reverse, join_path,
  trim_by, is_space, concat-ne-nil,
}

-- What myrun computes with a float64; the type and its arithmetic are not modelled. `micros` is
-- int64(x * 100000), and `ratio q p` is float64(q) / float64(p).
pub record FloatOps (F : Type 0) : Type 0 where
  pub zero_float : F
  pub above_zero : F → Bool
  pub equals_zero : F → Bool
  pub micros : F → ℤ
  pub ratio : ℤ → ℕ → F

pub record Limits (F : Type 0) : Type 0 where
  pub memory_bytes : ℤ
  pub cpu_quota : F
  pub pids_max : ℤ

-- `Any`
unfoldable pub any : {F : Type 0} → FloatOps F → Limits F → Bool
any fl lim = is_positive lim.memory_bytes || fl.above_zero lim.cpu_quota || is_positive lim.pids_max

abbrev pub period : ℕ
period = 100000

-- The floor under the quota.
unfoldable pub floor_quota : ℤ → ℤ
floor_quota (pos n) = if ltb n 1000 then pos 1000 else pos n
floor_quota (negsuc n) = pos 1000

unfoldable pub cpu_value : ℤ → Str
cpu_value micros = format_int (floor_quota micros) ++ str " " ++ decimal period

abbrev pub root_or_default : Str → Str
root_or_default r = if is_empty r then str "/sys/fs/cgroup" else r

module _ (os : Oracle) where
  unfoldable pub root : Io Str
  root = do r ← env os "MYRUN_CGROUP_ROOT"; pure (root_or_default r)

  unfoldable pub write : Str → String → Str → Io (Unit {0})
  write dir name content =
      wrapping "write" (perform os (write_file (join_path (dir ∷ str name ∷ [])) content))

  -- `Close` of the group at a path. A nil handle is `none` where a caller can hold one.
  unfoldable pub close_group : Str → Io (Unit {0})
  close_group path =
      if is_empty path
      then pure tt
      else wrapping "remove cgroup" (tolerating is_not_exist (perform os (remove path)))

  -- `AddPID`
  unfoldable pub add_pid : Str → ℕ → Io (Unit {0})
  add_pid path pid = write path "cgroup.procs" (decimal pid)

  -- `Create` up to the directory of the group.
  unfoldable pub prepare : ℕ → Io Str
  prepare owner_pid = do
    parent ← root
    let path = join_path (parent ∷ (str "myrun-" ++ decimal owner_pid) ∷ [])
    parent' ← root
    ignoring (
        perform os (
          write_file (join_path (parent' ∷ str "cgroup.subtree_control" ∷ []))
            (str "+memory +cpu +pids")))
    wrapping "mkdir cgroup" (tolerating is_exist (perform os (make_dir path)))
    pure path

  -- A write of `Create`, which removes the group if it fails.
  unfoldable pub write_or_close : Str → String → Str → Io (Unit {0})
  write_or_close path name content =
      on_error (write path name content) (ignoring (close_group path))

  module _ {F : Type 0} (fl : FloatOps F) (lim : Limits F) where
    unfoldable pub write_limits : Str → Io (Unit {0})
    write_limits path = do
      when (is_positive lim.memory_bytes)
          (write_or_close path "memory.max" (format_int lim.memory_bytes))
      when (fl.above_zero lim.cpu_quota)
          (write_or_close path "cpu.max" (cpu_value (fl.micros lim.cpu_quota)))
      when (is_positive lim.pids_max) (write_or_close path "pids.max" (format_int lim.pids_max))

    -- `Create`
    unfoldable pub create : ℕ → Io Str
    create owner_pid = do path ← prepare owner_pid; write_limits path; pure path
