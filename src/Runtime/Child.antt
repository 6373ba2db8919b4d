-- ===== src/Runtime/Child.antt =====
-- `Child` of mvp/internal/runtime/runtime_linux.go, the arguments `Run` starts it with, and the
-- "child" case of mvp/cmd/myrun/main.go that reads them.
pub mod Order
use oci_container_runtime_fr.Runtime.Config.{Config}
use oci_container_runtime_fr.Seccomp.Install.{apply}
use oci_container_runtime_fr.Seccomp.Profile.{GoArch}
use oci_container_runtime_fr.Pivot.{pivot}
use oci_container_runtime_fr.Sys.{
  Spawn, Call, get_env, get_uid, get_gid, get_euid, stat, read_file, remove, remove_all, make_dir,
  make_dir_all, write_file, rename, command, look_path, start, signal, wait, make_pipe, read_byte,
  close, mount, unmount, pivot_root, change_root, change_dir, set_hostname, no_new_privs,
  set_filter, exec, random_bytes, Answer, Event, Trace, Oracle, is_ok, Io, pure, raise, lift,
  wrapping, attempt, finish, on_error, deferring, continue, ◌>>=◌, ◌>>◌, perform, ignoring, log,
  calls, when, tolerated, tolerating, env, text_or_empty, bind-ok, bind-err, on_error-ok,
  on_error-err, performed, lifted,
}
use oci_container_runtime_fr.Base.{
  ℕ, zero, suc, ◌+◌, ◌-◌, ◌*◌, ◌/◌, ◌%◌, ◌^◌, ◌≤◌, ◌<◌, min, String, ◌≡◌, refl, sym, ap, ◌∙◌, ◌≢◌,
  ◌↔◌, ◌⊎◌, inl, inr, Bool, true, false, not, ◌&&◌, ◌||◌, Option, none, some, List, [], ◌∷◌, ◌++◌,
  map, reverse, append-nil, append_assoc, arith, ltb, leb, ◌==◌, if◌then◌else◌, ==_iff, Bool-cases,
  Option-cases, length, take, drop, length-append, length-take, take-append, drop-append,
  drop-append_suc, All, All-append, Error, message, wrap, os_error, Errno, already_exists,
  does_not_exist, other_error, is_exist, is_not_exist, Result, ok, err, wrapped, of_option,
  Result-cases, Str, str, str_eq, str_eq_iff, str_eq_refl, index_byte, last_index, contains_byte,
  has_prefix, trim_prefix, join, to_lower, trim_space, Lacks, index_byte-append, index_byte-none,
  last_index-none, last_index-append, last_index_split, contains_byte-append, contains_byte-none, ℤ,
  pos, negsuc, is_positive, is_zero, decimal, format_int, digits_value, parse_int, int64_bound,
  IsDigit, decimal-IsDigit, IsDigit-Lacks, parse_int-decimal, components, is_abs, clean,
  clean_components, is_empty, NonEmpty, clean-NonEmpty, join_path-NonEmpty, All-reverse, join_path,
  trim_by, is_space, concat-ne-nil,
}

pub record ChildArgs : Type 0 where
  pub rootfs : Str
  pub cmd : Str
  pub args : List Str
  pub seccomp_enabled : Bool

abbrev pub seccomp_arg : Bool → Str
seccomp_arg b = if b then str "seccomp=1" else str "seccomp=0"

-- `selfArgs` of `Run`, what stands behind the program's own name.
unfoldable pub self_args : {F : Type 0} → Str → Config F → List Str
self_args rootfs cfg = str "child" ∷ seccomp_arg cfg.seccomp ∷ rootfs ∷ cfg.cmd ∷ cfg.args

-- The "child" case of `main` on os.Args[1:]; fewer arguments give the usage text and status 2.
unfoldable pub child_args : List Str → Option ChildArgs
child_args (name ∷ flag ∷ rootfs ∷ cmd ∷ args) = some record {
  rootfs = rootfs;
  cmd = cmd;
  args = args;
  seccomp_enabled = str_eq flag (str "seccomp=1");
}
child_args _ = none

abbrev pub environment : List Str
environment =
    str "PATH=/usr/local/sbin:/usr/local/bin:/usr/sbin:/usr/bin:/sbin:/bin"
    ∷ str "TERM=xterm"
    ∷ str "HOME=/root"
    ∷ []

abbrev pub found_or : Str → Result Str → Str
found_or cmd (ok bin) = bin
found_or cmd (err e) = cmd

module _ (os : Oracle) (arch : GoArch) where
  -- `Child` behind the pivot.
  unfoldable pub start_command : ChildArgs → Io (Unit {0})
  start_command c = do
    found ← attempt (perform os (look_path c.cmd))
    let bin = found_or c.cmd found
    when c.seccomp_enabled (wrapping "seccomp apply" (apply os arch))
    wrapping "exec" (perform os (exec bin (bin ∷ c.args) environment))

  -- `Child`. Where exec succeeds, the program is replaced and the deferred unmount does not run.
  unfoldable pub child : ChildArgs → Io (Unit {0})
  child c = do
    ignoring (perform os (read_byte 3))
    ignoring (perform os (close 3))
    wrapping "sethostname" (perform os (set_hostname (str "container")))
    wrapping "pivot_root" (pivot os c.rootfs)
    on_error (start_command c) (ignoring (perform os (unmount (str "/proc") [])))
