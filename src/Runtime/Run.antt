-- ===== src/Runtime/Run.antt =====
-- `Run` of mvp/internal/runtime/runtime_linux.go. Log lines are left out.
pub mod Holdings
pub mod Release
use oci_container_runtime_fr.Runtime.Config.{Config, apply_spec}
use oci_container_runtime_fr.Runtime.Rootfs.{
  Resolved, new_container_id, resolve_rootfs, cleanup_overlay,
}
use oci_container_runtime_fr.Runtime.Child.{self_args}
use oci_container_runtime_fr.Image.Store.{Manifest}
use oci_container_runtime_fr.Cgroups
use oci_container_runtime_fr.Cgroups.{FloatOps}
use oci_container_runtime_fr.Network.Types
use oci_container_runtime_fr.Network.Types.{Network}
use oci_container_runtime_fr.Network.Setup
use oci_container_runtime_fr.Slirp
use oci_container_runtime_fr.Userns.{preflight, apply_to_spawn}
use oci_container_runtime_fr.Sys.{
  Spawn, Call, get_env, get_uid, get_gid, get_euid, stat, read_file, remove, remove_all, make_dir,
  make_dir_all, write_file, rename, command, look_path, start, signal, wait, make_pipe, read_byte,
  close, mount, unmount, pivot_root, change_root, change_dir, set_hostname, no_new_privs,
  set_filter, exec, random_bytes, Response, EntryKind, directory, regular, symbolic_link, hard_link,
  other_kind, Entry, Archive, symlink, link, create_file, copy_into, close_file, open_file,
  read_archive, http_get, await_exit, await_byte, Answer, Event, Trace, Oracle, is_ok, Io, pure,
  raise, lift, wrapping, attempt, finish, on_error, deferring, continue, ◌>>=◌, ◌>>◌, perform,
  ignoring, log, calls, when, tolerated, tolerating, env, text_or_empty, bind-ok, bind-err,
  on_error-ok, on_error-err, performed, lifted, Resource, descriptor, process, mounted, group,
  weight, count, change, held, is_neutral, either_way, Moves, Keeps, Keeps-perform, Keeps-pure,
  Keeps-raise, Keeps-lift, Keeps-wrapping, Keeps-attempt, Keeps-ignoring, Keeps-on_error,
  Keeps-bind, Keeps-when, Keeps-tolerating, Keeps-env, Keeps-make_dir_all, Keeps-write_file,
  Keeps-command, Keeps-signal, Keeps-read_file, Keeps-remove_all, find_program-Keeps, Sure,
  Sure-ignoring, Sure-attempt, Sure-env, Sure-pure, Sure-when, Sure-bind, Moves-Sure, Moves-ignored,
  Moves-kept, Moves-pure, after_exit, Moves-await_exit, Moves-Keeps, Moves-to, Moves-from,
  Moves-wrapping, Moves-bind, Moves-on_error, Moves-deferring, Moves-ignoring, Moves-attempt,
  Moves-make_pipe, Moves-start, Moves-mount, Moves-make_dir, Moves-close, Moves-wait, Moves-unmount,
  Moves-remove, find_program,
}
use oci_container_runtime_fr.Base.{
  ℕ, zero, suc, ◌+◌, ◌-◌, ◌*◌, ◌/◌, ◌%◌, ◌^◌, ◌≤◌, ◌<◌, min, String, ◌≡◌, refl, sym, ap, ◌∙◌, ◌≢◌,
  ◌↔◌, ◌⊎◌, inl, inr, Bool, true, false, not, ◌&&◌, ◌||◌, Option, none, some, List, [], ◌∷◌, ◌++◌,
  map, reverse, append-nil, append_assoc, arith, ltb, leb, ◌==◌, if◌then◌else◌, ==_iff, Bool-cases,
  Option-cases, length, take, drop, length-append, length-take, take-append, drop-append,
  drop-append_suc, All, All-append, Error, message, wrap, os_error, Errno, already_exists,
  does_not_exist, other_error, is_exist, is_not_exist, Result, ok, err, wrapped, of_option,
  Result-cases, Str, str, str_eq, str_eq_iff, str_eq_refl, index_byte, last_index, contains_byte,
  has_prefix, trim_prefix, join, to_lower, trim_space, Lacks, index_byte-append, index_byte-none,
  last_index-none, last_index-append, last_index_split, contains_byte-append, contains_byte-none, ℤ,
  pos, negsuc, is_positive, is_zero, decimal, format_int, digits_value, parse_int, int64_bound,
  IsDigit, decimal-IsDigit, IsDigit-Lacks, parse_int-decimal, components, is_abs, clean,
  clean_components, is_empty, NonEmpty, clean-NonEmpty, join_path-NonEmpty, All-reverse, join_path,
  split_last_slash, dir_name, base_name, trim_by, is_space, concat-ne-nil, ok≢err,
}

-- What connects the child: the bridge, slirp4netns, or nothing but the loopback interface.
pub data Connection : Type 0 where
  bridged : Network → Connection
  tunnelled : Slirp.Handle → Connection
  unconnected : Connection

-- What is to be waited for and given back at the end.
pub record Running : Type 0 where
  pub pid : ℕ
  pub group_path : Option Str
  pub connection : Connection

abbrev pub connection_of : Result Slirp.Handle → Connection
connection_of (ok h) = tunnelled h
connection_of (err e) = unconnected

module _ {F : Type 0} where
  abbrev pub folded : FloatOps F → Config F → Config F
  folded fl cfg = elim cfg.spec [ none ↦ cfg | some s ↦ apply_spec fl s cfg ]

  -- The command that starts this program again in new namespaces.
  unfoldable pub child_spawn : Config F → Str → ℕ → Spawn
  child_spawn cfg rootfs read_end = apply_to_spawn cfg.rootless (record {
    program = str "/proc/self/exe";
    args = self_args rootfs cfg;
    extra_file = read_end;
    clone_flags =
        "CLONE_NEWPID" ∷ "CLONE_NEWNS" ∷ "CLONE_NEWUTS" ∷ "CLONE_NEWIPC" ∷ "CLONE_NEWNET" ∷ [];
    uid_map = none;
    gid_map = none;
    new_process_group = false;
  })

  abbrev pub net_config : Config F → Str → Str → ℕ → Types.Config
  net_config cfg rootfs id pid = record {
    container_id = id;
    child_pid = pid;
    rootfs = rootfs;
    port_mappings = cfg.port_mappings;
  }

module _ (os : Oracle) where
  unfoldable pub kill_child : ℕ → Io (Unit {0})
  kill_child pid = do ignoring (perform os (signal pid "SIGKILL")); ignoring (perform os (wait pid))

  -- `if cg != nil { _ = cg.Close() }`
  unfoldable pub close_some : Option Str → Io (Unit {0})
  close_some none = pure tt
  close_some (some path) = ignoring (Cgroups.close_group os path)

  module _ {F : Type 0} (fl : FloatOps F) where
    -- The group with the child in it. A failure kills the child.
    unfoldable pub make_group : Config F → ℕ → Io (Option Str)
    make_group cfg pid = do
      path ←
          on_error (wrapping "create cgroup" (Cgroups.create os fl cfg.limits pid)) (kill_child pid)
      on_error (wrapping "add pid to cgroup" (Cgroups.add_pid os path pid))
          (do kill_child pid; ignoring (Cgroups.close_group os path))
      pure (some path)

    unfoldable pub limit_child : Config F → ℕ → Io (Option Str)
    limit_child cfg pid =
        if not cfg.rootless.enabled && Cgroups.any fl cfg.limits
        then make_group cfg pid
        else pure none

  module _ {F : Type 0} (sha1 : Str → Str) where
    unfoldable pub connect_child : Config F → Str → Str → ℕ → Option Str → Io Connection
    connect_child cfg rootfs id pid group_path =
        if not cfg.rootless.enabled
        then (do
          n ←
              on_error
                (wrapping "network setup" (Setup.setup os sha1 (net_config cfg rootfs id pid)))
                (do kill_child pid; close_some group_path)
          pure (bridged n))
        else (do
          r ← attempt (Slirp.setup os (record { child_pid = pid; rootfs = rootfs }))
          pure (connection_of r))

    unfoldable pub disconnect : Config F → Str → Str → ℕ → Connection → Io (Unit {0})
    disconnect cfg rootfs id pid (bridged n) =
        ignoring (Setup.teardown os n (net_config cfg rootfs id pid))
    disconnect cfg rootfs id pid (tunnelled h) = ignoring (Slirp.teardown os h)
    disconnect cfg rootfs id pid unconnected = pure tt

  module _ {F : Type 0} (fl : FloatOps F) (sha1 : Str → Str) where
    -- What is done for the started child before it may go on.
    unfoldable pub prepare_child : Config F → Str → Str → ℕ → ℕ → Io Running
    prepare_child cfg rootfs id read_end pid = do
      ignoring (perform os (close read_end))
      group_path ← limit_child fl cfg pid
      connection ← connect_child sha1 cfg rootfs id pid group_path
      pure (record { pid = pid; group_path = group_path; connection = connection })

    -- The wait for the child, and what is given back behind it.
    unfoldable pub finish_child : Config F → Str → Str → Running → Io (Unit {0})
    finish_child cfg rootfs id c = do
      r ← attempt (perform os (wait c.pid))
      close_some c.group_path
      disconnect sha1 cfg rootfs id c.pid c.connection
      lift (wrapped "child exited" r)

    -- `Run` behind the start of the child, with the descriptors of the pipe and the child's id. The
    -- deferred close of the write end acts only where the function returns before the explicit one:
    -- a closed file is not closed again.
    unfoldable pub supervise : Config F → Str → Str → ℕ × ℕ → ℕ → Io (Unit {0})
    supervise cfg rootfs id ends pid = do
      c ← on_error (prepare_child cfg rootfs id ends.0 pid) (ignoring (perform os (close ends.1)))
      ignoring (perform os (close ends.1))
      finish_child cfg rootfs id c

    -- The start of the child. Both ends of the pipe are closed where it fails.
    unfoldable pub start_child : Config F → Str → ℕ × ℕ → Io ℕ
    start_child cfg rootfs ends =
        on_error (wrapping "start child" (perform os (start (child_spawn cfg rootfs ends.0))))
          (do ignoring (perform os (close ends.0)); ignoring (perform os (close ends.1)))

    -- `Run` with a root directory.
    unfoldable pub run_in : Config F → Str → Io (Unit {0})
    run_in cfg rootfs = do
      id ← new_container_id os
      ends ← wrapping "pipe" (perform os make_pipe)
      pid ← start_child cfg rootfs ends
      supervise cfg rootfs id ends pid

    unfoldable pub run : (Str → Result Manifest) → Config F → Io (Unit {0})
    run decode cfg = do
      let cfg' = folded fl cfg
      preflight os cfg'.rootless
      resolved ← resolve_rootfs os decode cfg'.rootfs cfg'.store_root
      deferring (run_in cfg' resolved.rootfs) (cleanup_overlay os resolved.overlay)
